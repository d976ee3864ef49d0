-- ===== src/SystemAudioCapture/Tests.antt =====
-- A capture that takes blocks of three bytes.
use ryulib_cpp.Common.{◌≡◌, refl, false, some, [], ◌∷◌, arith}
use ryulib_cpp.SystemAudio.{SystemAudio, no_format}
use ryulib_cpp.SystemAudioCapture.{SystemAudioCapture}
use ryulib_cpp.SystemAudioCapture.Stream.{IsFed, Kept}
use ryulib_cpp.SystemAudioCapture.Blocks.{rounds, rounds-Kept}

abbrev closed : SystemAudio
closed = record {
  worker = false;
  is_stoped = false;
  enumerator = false;
  device = false;
  audio_client = false;
  capture_client = false;
  audio_volume = false;
  pwfx = no_format;
  references = 0;
  formats = 0;
  buffers = 0;
  on_data = false;
  log = [];
}

abbrev capture : SystemAudioCapture
capture = record {
  system_audio = closed;
  buffer = record { size = 0; queue = [] };
  queue_in = (1 ∷ 2 ∷ []) ∷ (3 ∷ 4 ∷ 5 ∷ 6 ∷ 7 ∷ []) ∷ [];
  queue_out = [];
  src_size = 3;
  executed = [];
}

capture-IsFed : IsFed capture
capture-IsFed = record {
  valid = record { buffers = tt; counted = refl };
  src_size = omega arith;
  executed = tt;
  room = omega arith;
}

rounds-Kept_example :
    (c' : SystemAudioCapture) × (rounds 3 (λ bytes. some bytes) capture ≡ some c')
    × Kept 3 capture c'
rounds-Kept_example = rounds-Kept 3 (λ bytes. some bytes) capture capture-IsFed
