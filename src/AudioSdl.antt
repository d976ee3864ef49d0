-- ===== src/AudioSdl.antt =====
-- include/ryulib/sdl_audio.hpp: the class AudioSDL. Samples come in blocks of any size, are cut into
-- frames of `frame_size_` bytes, and wait in a queue for the callback of SDL. Of SDL itself only
-- the result of `SDL_OpenAudio` enters, as an argument; a Memory is the list of its bytes.
pub mod Frames
mod Tests
use ryulib_cpp.Common.{
  ℕ, zero, suc, ◌+◌, ◌*◌, ◌≤◌, Bool, true, false, Option, none, some, List, [], ◌∷◌, ◌++◌,
  if◌then◌else◌, leb, length, replicate, ◌>>=◌,
}
use ryulib_cpp.Common.Blocks.{memcpy, read_at}
use ryulib_cpp.PacketReader
use ryulib_cpp.PacketReader.{PacketReader}

pub record AudioSdl : Type 0 where
  pub channels : ℕ
  pub sample_rate : ℕ
  pub fpb : ℕ
  pub frame_size : ℕ
  pub reader : PacketReader
  pub queue : List (List ℕ)
  -- What `SDL_PauseAudio(0)` asks for.
  pub playing : Bool

-- `clear_audio_buffer`: every Memory is popped and deleted.
pub clear_queue : List (List ℕ) → List (List ℕ)
clear_queue [] = []
clear_queue (m ∷ q) = clear_queue q

unfoldable pub open_device : AudioSdl → ℕ → ℕ → ℕ → Bool → Bool × AudioSdl
unfolding clear_queue
open_device a channels sample_rate fpb opened = (
  opened,
  record a {
    channels = channels;
    sample_rate = sample_rate;
    fpb = fpb;
    frame_size = fpb * channels * 4;
    queue = clear_queue a.queue;
  },
)

unfoldable pub close_device : AudioSdl → AudioSdl
unfolding clear_queue
close_device a = record a { queue = clear_queue a.queue }

-- `new Memory(data, size)`: the null pointer makes an empty Memory.
pub new_memory : Option (List ℕ) → ℕ → Option (List ℕ)
new_memory none size = some []
new_memory (some block) size = read_at block 0 size

-- The loop of `play`; out of fuel it is `none`.
pub play_loop : ℕ → AudioSdl → Option AudioSdl
play_loop zero a = none
play_loop (suc fuel) a =
    let next = PacketReader.read a.reader a.frame_size >>= λ (block, reader).
    new_memory block a.frame_size >>= λ memory.
    play_loop fuel (record a { reader = reader; queue = a.queue ++ memory ∷ []; playing = true }) in
    if PacketReader.can_read a.reader a.frame_size then next else some a

unfoldable pub play : AudioSdl → List ℕ → Option AudioSdl
play a bytes = PacketReader.write a.reader bytes >>= λ reader.
    play_loop (reader.size + 1) (record a { reader = reader })

unfoldable pub get_delay_count : AudioSdl → ℕ
get_delay_count a = length a.queue

-- `audio_callback` fills the `len` bytes of SDL's stream from the oldest Memory, or with zeros.
pub audio_callback : List (List ℕ) → List ℕ → Option (List ℕ × List (List ℕ))
audio_callback [] sdl_stream = some (replicate (length sdl_stream) 0, [])
audio_callback (memory ∷ q) sdl_stream =
    memcpy sdl_stream 0 memory 0 (length memory) >>= λ filled. some (filled, q)
