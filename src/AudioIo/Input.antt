-- ===== src/AudioIo/Input.antt =====
-- AudioInput of include/ryulib/AudioIO.hpp.
pub mod Streams
pub mod Callback
use ryulib_cpp.Common.{
  ℕ, ◌+◌, ◌-◌, ◌*◌, Bool, true, false, Option, none, some, List, [], ◌∷◌, ◌++◌, if◌then◌else◌, ◌==◌,
  ◌||◌, ◌>>=◌,
}
use ryulib_cpp.Common.Int.{ℤ, pos}
use ryulib_cpp.AudioIo.{
  Stream, unset, null, opened, closed, PaAnswers, chosen_device, Floats, apply_volume,
  error_no_default_input_device, error_open_input_device, error_start_input_device,
}

-- `streams` counts the streams that are open; `errors` and `data` are what the handlers got.
pub record AudioInput : Type 0 where
  pub channels : ℕ
  pub sampe_rate : ℕ
  pub smaple_size : ℕ
  pub fpb : ℕ
  pub buffer_size : ℕ
  pub volume : ℕ
  pub stream : Stream
  pub on_error : Bool
  pub on_data : Bool
  pub streams : ℕ
  pub errors : List ℤ
  pub data_log : List (List ℕ × ℕ)

-- `one` is the volume of 1.0.
pub new_input : ℕ → ℕ → ℕ → ℕ → ℕ → AudioInput
new_input one channels sampe_rate smaple_size fpb = record {
  channels = channels;
  sampe_rate = sampe_rate;
  smaple_size = smaple_size;
  fpb = fpb;
  buffer_size = smaple_size * fpb * channels;
  volume = one;
  stream = null;
  on_error = false;
  on_data = false;
  streams = 0;
  errors = [];
  data_log = [];
}

pub fail : ℤ → AudioInput → ℤ × AudioInput
fail code i = (code, record i { errors = if i.on_error then i.errors ++ code ∷ [] else i.errors })

-- From Pa_OpenStream on.
pub open_stream : PaAnswers → AudioInput → ℤ × AudioInput
unfolding fail
open_stream a i =
    let i₁ = record i { stream = opened; streams = i.streams + 1 } in
    if a.opens
    then (if a.starts then (pos 0, i₁) else fail error_start_input_device i₁)
    else fail error_open_input_device i

-- A size of samples other than 2 and 4 throws.
pub open_device : PaAnswers → AudioInput → Option ℕ → Option (ℤ × AudioInput)
unfolding fail open_stream
open_device a i none = some (fail error_no_default_input_device i)
open_device a i (some device) =
    if i.smaple_size == 2 || i.smaple_size == 4
    then some (if a.info then open_stream a i else fail error_open_input_device i)
    else none

pub open_input : PaAnswers → Option ℕ → AudioInput → Option (ℤ × AudioInput)
unfolding open_device chosen_device
open_input a device_id i = open_device a i (chosen_device a device_id)

pub close_stream : Stream → AudioInput → AudioInput
close_stream null i = i
close_stream s i = record i { stream = null; streams = i.streams - 1 }

pub close_input : AudioInput → AudioInput
unfolding close_stream
close_input i = close_stream i.stream i

pub set_volume : AudioInput → ℕ → AudioInput
set_volume i value = record i { volume = value }

pub record_callback : Floats → AudioInput → List ℕ → Option (List ℕ × AudioInput)
unfolding apply_volume
record_callback f i block = apply_volume f i.volume i.fpb block >>= λ block. some (
  block,
  record i {
    data_log = if i.on_data then i.data_log ++ (block, i.buffer_size) ∷ [] else i.data_log;
  },
)
