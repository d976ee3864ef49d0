-- ===== src/SystemAudio/Tests.antt =====
-- A capture that opens, is asked for its volume, is closed, and opens again.
use ryulib_cpp.Common.{◌≡◌, refl, true, false, none, some, []}
use ryulib_cpp.SystemAudio.{SystemAudio, no_format, freed, Answers, open_audio}
use ryulib_cpp.SystemAudio.Opening.{Leaves, open_audio-Leaves}
use ryulib_cpp.SystemAudio.Closing.{reopen_frees_twice}

abbrev idle : SystemAudio
idle = record {
  worker = false;
  is_stoped = true;
  enumerator = false;
  device = false;
  audio_client = false;
  capture_client = false;
  audio_volume = false;
  pwfx = no_format;
  references = 0;
  formats = 0;
  buffers = 0;
  on_data = true;
  log = [];
}

abbrev no_service : Answers
no_service = record {
  creates_instance = true;
  gets_endpoint = true;
  activates = true;
  gets_format = true;
  initializes = true;
  gets_buffer_size = true;
  gets_service = false;
  starts = true;
}

open_audio-Leaves_example :
    (s' : SystemAudio) × (open_audio no_service idle ≡ some (false, s')) × Leaves 0 false s'
open_audio-Leaves_example =
    open_audio-Leaves 0 no_service idle
      (record {
        references = refl;
        formats = refl;
        enumerator = refl;
        device = refl;
        audio_client = refl;
        capture_client = refl;
      })
      refl

reopen_frees_twice_example :
    open_audio (record no_service { activates = false }) (record idle { pwfx = freed }) ≡ none
reopen_frees_twice_example =
    reopen_frees_twice (record no_service { activates = false }) (record idle { pwfx = freed }) refl
      refl
