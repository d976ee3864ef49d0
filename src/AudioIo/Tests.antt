-- ===== src/AudioIo/Tests.antt =====
-- An input and an output on blocks of a few bytes.
use ryulib_cpp.Common.{
  ℕ, ◌*◌, ◌%◌, ◌≡◌, refl, true, false, none, some, List, [], ◌∷◌, ◌++◌, get_or, ltb, arith,
}
use ryulib_cpp.Common.Int.{ℤ}
use ryulib_cpp.AudioIo.{Floats, PaAnswers, chosen_device, null, opened}
use ryulib_cpp.AudioIo.Volume.{GivesFour}
use ryulib_cpp.AudioIo.Input.{AudioInput, open_input, record_callback}
use ryulib_cpp.AudioIo.Input.Streams.{Outcome, open_input-Outcome}
use ryulib_cpp.AudioIo.Input.Callback.{record_callback-map, record_callback_overflows}
use ryulib_cpp.AudioIo.Output.{AudioOutput}
use ryulib_cpp.AudioIo.Output.Playing.{Call, plays, skips, calls_back, run, put_out, run-put_out}

-- A volume is taken to be a number, and multiplies the first byte of a sample.
abbrev floats : Floats
floats = record {
  is_changed = λ volume. ltb 1 volume;
  multiply = λ volume sample. volume * get_or sample 0 0 % 256 ∷ get_or sample 1 0 ∷ 0 ∷ 0 ∷ [];
}

floats-GivesFour : (volume : ℕ) → GivesFour floats volume
floats-GivesFour volume sample = refl

abbrev input : AudioInput
input = record {
  channels = 1;
  sampe_rate = 8000;
  smaple_size = 4;
  fpb = 2;
  buffer_size = 8;
  volume = 3;
  stream = null;
  on_error = true;
  on_data = true;
  streams = 0;
  errors = [];
  data_log = [];
}

abbrev no_start : PaAnswers
no_start = record { default_device = some 5; info = true; opens = true; starts = false }

open_input-Outcome_example :
    (code : ℤ) × (i' : AudioInput) × (open_input no_start none input ≡ some (code, i'))
    × Outcome no_start (chosen_device no_start none) input code i'
open_input-Outcome_example = open_input-Outcome no_start none input refl

abbrev sample : List ℕ
sample = 7 ∷ 1 ∷ 0 ∷ 0 ∷ []

record_callback-map_example :
    let block : List ℕ = 21 ∷ 1 ∷ 0 ∷ 0 ∷ 21 ∷ 1 ∷ 0 ∷ 0 ∷ [] in
    record_callback floats input (sample ++ sample)
    ≡ some (block, record input { data_log = (block, 8) ∷ [] })
record_callback-map_example =
    record_callback-map floats input (sample ∷ sample ∷ []) [] (floats-GivesFour 3)
      (refl, (refl, tt)) refl refl refl

-- Two frames of 16 bits, one channel.
record_callback_overflows_example :
    record_callback floats (record input { smaple_size = 2; buffer_size = 4 }) sample ≡ none
record_callback_overflows_example =
    record_callback_overflows floats (record input { smaple_size = 2; buffer_size = 4 }) sample
      (floats-GivesFour 3) refl (omega arith)

abbrev output : AudioOutput
output = record {
  channels = 1;
  sampe_rate = 8000;
  smaple_size = 2;
  fpb = 2;
  buffer_size = 4;
  mute = 0 ∷ 0 ∷ 0 ∷ 0 ∷ [];
  volume = 1;
  stream = opened;
  queue = [];
  on_error = false;
  streams = 1;
  errors = [];
}

abbrev calls : List Call
calls =
    plays sample
    ∷ calls_back
    ∷ plays (9 ∷ [])
    ∷ plays sample
    ∷ skips 1
    ∷ calls_back
    ∷ calls_back
    ∷ []

run-put_out_example :
    (o' : AudioOutput) × (run floats (5 ∷ 5 ∷ 5 ∷ 5 ∷ []) output calls
      ≡ some ((put_out output.mute (5 ∷ 5 ∷ 5 ∷ 5 ∷ []) [] calls).0, o'))
    × (o'.queue ≡ [])
run-put_out_example =
    run-put_out floats (5 ∷ 5 ∷ 5 ∷ 5 ∷ []) output calls
      (record { volume = refl; mute_size = refl; mute = omega arith; queue = tt })
      (omega arith, (omega arith, (omega arith, tt)))
