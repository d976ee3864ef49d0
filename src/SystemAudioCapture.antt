-- ===== src/SystemAudioCapture.antt =====
-- include/ryulib/SystemAudioCapture.hpp: what a SystemAudio captures is collected in a MemoryBuffer
-- and cut into blocks for the resampler, which is a parameter: the block that it makes of one, if any.
pub mod Stream
pub mod Blocks
mod Tests
use ryulib_cpp.Common.{
  ℕ, zero, suc, ◌+◌, Bool, true, false, Option, none, some, List, [], ◌∷◌, ◌++◌, if◌then◌else◌, ltb,
  ◌>>=◌,
}
use ryulib_cpp.MemoryBuffer
use ryulib_cpp.MemoryBuffer.{MemoryBuffer, Result, null, block}
use ryulib_cpp.SystemAudio
use ryulib_cpp.SystemAudio.{SystemAudio, Answers}
use ryulib_cpp.ThreadQueue

abbrev pub max_delay_count : ℕ
max_delay_count = 2

-- `src_size` is the size of the blocks that the resampler takes, `executed` those that it was given.
pub record SystemAudioCapture : Type 0 where
  pub system_audio : SystemAudio
  pub buffer : MemoryBuffer
  pub queue_in : List (List ℕ)
  pub queue_out : List (List ℕ)
  pub src_size : ℕ
  pub executed : List (List ℕ)

-- The handler of the SystemAudio; a null pointer is `none`.
pub on_system_data : Option (List ℕ) → SystemAudioCapture → SystemAudioCapture
unfolding ThreadQueue.size ThreadQueue.push
on_system_data none c = c
on_system_data (some bytes) c =
    if ltb max_delay_count (ThreadQueue.size c.queue_out)
    then c
    else record c { queue_in = ThreadQueue.push c.queue_in bytes }

-- The call of the resampler, and its handler.
pub execute : (List ℕ → Option (List ℕ)) → Result → SystemAudioCapture → SystemAudioCapture
execute resample null c = c
execute resample (block n bytes) c =
    let given = record c { executed = c.executed ++ bytes ∷ [] } in
    elim (resample bytes) [
      | none ↦ given
      | some out ↦ record given { queue_out = c.queue_out ++ out ∷ [] }
    ]

-- What the thread does with what it popped.
pub handle :
    (List ℕ → Option (List ℕ))
    → Option (List ℕ) × List (List ℕ)
    → SystemAudioCapture
    → Option SystemAudioCapture
unfolding execute
handle resample (none, q) c = some (record c { queue_in = q })
handle resample (some bytes, q) c = MemoryBuffer.write c.buffer bytes >>= λ buffer.
    MemoryBuffer.read buffer c.src_size >>= λ (result, buffer).
    some (execute resample result (record c { queue_in = q; buffer = buffer }))

-- A round of the thread's loop.
pub thread_step : (List ℕ → Option (List ℕ)) → SystemAudioCapture → Option SystemAudioCapture
unfolding handle ThreadQueue.pop
thread_step resample c = handle resample (ThreadQueue.pop c.queue_in) c

-- The two loops pop until there is nothing.
pub pop_all : List (List ℕ) → List (List ℕ)
pop_all [] = []
pop_all (memory ∷ q) = pop_all q

pub do_clear : SystemAudioCapture → SystemAudioCapture
unfolding pop_all
do_clear c = record c {
  buffer = MemoryBuffer.clear c.buffer;
  queue_in = pop_all c.queue_in;
  queue_out = pop_all c.queue_out;
}

-- `src_size` is what the resampler sets when it is opened.
pub start : Answers → ℕ → SystemAudioCapture → Option SystemAudioCapture
unfolding do_clear
start a src_size c =
    let cleared = do_clear c in
    SystemAudio.open_audio a cleared.system_audio >>= λ (ok, audio). some (
      if ok
      then record cleared { system_audio = audio; src_size = src_size }
      else record cleared { system_audio = audio })

pub stop : SystemAudioCapture → Option SystemAudioCapture
stop c =
    SystemAudio.close_audio c.system_audio >>= λ audio. some (record c { system_audio = audio })

pub get_audio_data : SystemAudioCapture → Option (List ℕ) × SystemAudioCapture
unfolding ThreadQueue.pop
get_audio_data c =
    let (memory, q) = ThreadQueue.pop c.queue_out in (memory, record c { queue_out = q })
