-- ===== src/AudioIo/Output.antt =====
-- AudioOutput of include/ryulib/AudioIO.hpp.
pub mod Playing
use ryulib_cpp.Common.{
  ℕ, zero, suc, ◌+◌, ◌-◌, ◌*◌, Bool, true, false, Option, none, some, List, [], ◌∷◌, ◌++◌, length,
  replicate, if◌then◌else◌, ◌==◌, ◌||◌, ◌>>=◌,
}
use ryulib_cpp.Common.Blocks.{memcpy}
use ryulib_cpp.Common.Int.{ℤ, pos}
use ryulib_cpp.ThreadQueue
use ryulib_cpp.AudioIo.{
  Stream, unset, null, opened, closed, PaAnswers, chosen_device, Floats, apply_volume,
  error_no_default_output_device, error_open_output_device, error_start_output_device,
}

-- A Memory is its bytes.
pub record AudioOutput : Type 0 where
  pub channels : ℕ
  pub sampe_rate : ℕ
  pub smaple_size : ℕ
  pub fpb : ℕ
  pub buffer_size : ℕ
  pub mute : List ℕ
  pub volume : ℕ
  pub stream : Stream
  pub queue : List (List ℕ)
  pub on_error : Bool
  pub streams : ℕ
  pub errors : List ℤ

pub new_output : ℕ → ℕ → ℕ → ℕ → ℕ → AudioOutput
new_output one channels sampe_rate smaple_size fpb = record {
  channels = channels;
  sampe_rate = sampe_rate;
  smaple_size = smaple_size;
  fpb = fpb;
  buffer_size = smaple_size * fpb * channels;
  mute = replicate (smaple_size * fpb * channels) 0;
  volume = one;
  stream = unset;
  queue = [];
  on_error = false;
  streams = 0;
  errors = [];
}

pub fail : ℤ → AudioOutput → ℤ × AudioOutput
fail code o = (code, record o { errors = if o.on_error then o.errors ++ code ∷ [] else o.errors })

pub open_stream : PaAnswers → AudioOutput → ℤ × AudioOutput
unfolding fail
open_stream a o =
    let o₁ = record o { stream = opened; streams = o.streams + 1 } in
    if a.opens
    then (if a.starts then (pos 0, o₁) else fail error_start_output_device o₁)
    else fail error_open_output_device o

-- A device that PortAudio does not know is a null pointer, which is dereferenced.
pub open_device : PaAnswers → AudioOutput → Option ℕ → Option (ℤ × AudioOutput)
unfolding fail open_stream
open_device a o none = some (fail error_no_default_output_device o)
open_device a o (some device) =
    if o.smaple_size == 2 || o.smaple_size == 4
    then (if a.info then some (open_stream a o) else none)
    else none

pub open_output : PaAnswers → Option ℕ → AudioOutput → Option (ℤ × AudioOutput)
unfolding open_device chosen_device
open_output a device_id o = open_device a o (chosen_device a device_id)

-- The pointer keeps its value.
pub close_stream : Stream → AudioOutput → Option AudioOutput
close_stream opened o = some (record o { stream = closed; streams = o.streams - 1 })
close_stream s o = none

pub close_output : AudioOutput → Option AudioOutput
unfolding close_stream
close_output o = close_stream o.stream o

pub play : AudioOutput → List ℕ → AudioOutput
unfolding ThreadQueue.push
play o data_block = record o { queue = ThreadQueue.push o.queue data_block }

-- The loop of `skip`, on the queue.
pub skip_loop : ℕ → List (List ℕ) → List (List ℕ)
skip_loop zero q = q
skip_loop (suc n) [] = []
skip_loop (suc n) (memory ∷ q) = skip_loop n q

pub skip : AudioOutput → ℕ → AudioOutput
unfolding skip_loop
skip o count = record o { queue = skip_loop count o.queue }

pub get_delay_count : AudioOutput → ℕ
unfolding ThreadQueue.size
get_delay_count o = ThreadQueue.size o.queue

pub set_volume : AudioOutput → ℕ → AudioOutput
set_volume o value = record o { volume = value }

pub play_memory :
    Floats → AudioOutput → List ℕ → Option (List ℕ) × List (List ℕ) → Option (List ℕ × AudioOutput)
unfolding apply_volume
play_memory f o output (none, q) =
    memcpy output 0 o.mute 0 o.buffer_size >>= λ output. some (output, record o { queue = q })
play_memory f o output (some memory, q) = memcpy output 0 memory 0 (length memory) >>= λ output.
    apply_volume f o.volume o.fpb output >>= λ output. some (output, record o { queue = q })

pub play_callback : Floats → AudioOutput → List ℕ → Option (List ℕ × AudioOutput)
unfolding play_memory ThreadQueue.pop
play_callback f o output = play_memory f o output (ThreadQueue.pop o.queue)
