-- ===== src/AudioCapture/Tests.antt =====
-- Two samples of a microphone with the system muted.
use ryulib_cpp.Common.{ℕ, ◌+◌, ◌*◌, ◌%◌, ◌≡◌, refl, true, false, none, some, List, [], ◌∷◌, get_or}
use ryulib_cpp.SystemAudio.{SystemAudio, no_format}
use ryulib_cpp.SystemAudioCapture
use ryulib_cpp.SystemAudioCapture.{SystemAudioCapture}
use ryulib_cpp.AudioCapture.{Mix, AudioCapture, on_data, chosen_system}
use ryulib_cpp.AudioCapture.Mixing.{Triple, on_data-mixes}

-- Only the first bytes of the samples are mixed.
abbrev mix : Mix
mix vm m vs s = (vm * get_or m 0 0 + vs * get_or s 0 0) % 256 ∷ 0 ∷ 0 ∷ 0 ∷ []

abbrev closed : SystemAudio
closed = record {
  worker = false;
  is_stoped = false;
  enumerator = false;
  device = false;
  audio_client = false;
  capture_client = false;
  audio_volume = false;
  pwfx = no_format;
  references = 0;
  formats = 0;
  buffers = 0;
  on_data = false;
  log = [];
}

abbrev silence : List ℕ
silence = 0 ∷ 0 ∷ 0 ∷ 0 ∷ 0 ∷ 0 ∷ 0 ∷ 0 ∷ []

abbrev capture : AudioCapture
capture = record {
  mic = none;
  system_audio = record {
    system_audio = closed;
    buffer = record { size = 0; queue = [] };
    queue_in = [];
    queue_out = silence ∷ [];
    src_size = 3;
    executed = [];
  };
  silent_audio = silence;
  audio_data = silence;
  is_mic_muted = false;
  is_system_muted = true;
  volume_mic = 2;
  volume_system = 1;
  on_data = true;
  log = [];
}

abbrev zero_sample : List ℕ
zero_sample = 0 ∷ 0 ∷ 0 ∷ 0 ∷ []

abbrev samples : List Triple
samples =
    (5 ∷ 1 ∷ 1 ∷ 1 ∷ [], zero_sample, zero_sample)
    ∷ (6 ∷ 1 ∷ 1 ∷ 1 ∷ [], zero_sample, zero_sample)
    ∷ []

on_data-mixes_example :
    on_data mix (5 ∷ 1 ∷ 1 ∷ 1 ∷ 6 ∷ 1 ∷ 1 ∷ 1 ∷ []) capture
    ≡ some (record capture {
      system_audio = (SystemAudioCapture.get_audio_data capture.system_audio).1;
      audio_data = 10 ∷ 0 ∷ 0 ∷ 0 ∷ 12 ∷ 0 ∷ 0 ∷ 0 ∷ [];
      log = (10 ∷ 0 ∷ 0 ∷ 0 ∷ 12 ∷ 0 ∷ 0 ∷ 0 ∷ []) ∷ [];
    })
unfolding chosen_system
on_data-mixes_example =
    on_data-mixes mix (5 ∷ 1 ∷ 1 ∷ 1 ∷ 6 ∷ 1 ∷ 1 ∷ 1 ∷ []) [] [] [] samples capture (λ m s. refl)
      (refl, refl, refl, (refl, refl, refl, tt)) refl refl refl refl refl
