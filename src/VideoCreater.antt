-- ===== src/VideoCreater.antt =====
-- include/ryulib/VideoCreater.hpp: how the audio
-- samples that a client writes are cut into frames, with their time stamps.
-- FFmpeg is a parameter: the answers that its functions give in the calls of `do_writeAudioPacket`.
pub mod Frames
pub mod Audio
mod Tests
use ryulib_cpp.Common.{
  ℕ, zero, suc, ◌+◌, ◌*◌, Bool, true, false, Option, none, some, List, [], ◌∷◌, ◌++◌, if◌then◌else◌,
  ◌>>=◌,
}
use ryulib_cpp.Common.Blocks.{add_int}
use ryulib_cpp.MemoryBuffer
use ryulib_cpp.MemoryBuffer.{MemoryBuffer, Result, null, block}

abbrev pub audio_sample_size : ℕ
audio_sample_size = 4

-- The answers of FFmpeg in one call of `do_writeAudioPacket`; `true` is a result that is not
-- negative.
pub record Answers : Type 0 where
  pub writable : Bool
  pub converted : Bool
  pub encoded : Bool
  pub got_packet : Bool
  pub packet_written : Bool

-- The audio half of a VideoCreater. `frame` and `tmp_frame` are both allocated with `nb_samples`.
-- `taken` lists the blocks copied into `tmp_frame` with the time stamp each got there, `calls`
-- counts the calls of `do_writeAudioPacket`, and `packets` those of `write_frame`.
pub record AudioStream : Type 0 where
  pub channel : ℕ
  pub nb_samples : ℕ
  pub next_pts : ℕ
  pub samples_count : ℕ
  pub buffer : MemoryBuffer
  pub taken : List (ℕ × List ℕ)
  pub calls : ℕ
  pub packets : ℕ

-- From `avcodec_encode_audio2` on.
pub encode_audio : Answers → AudioStream → Bool × AudioStream
encode_audio a s =
    if a.encoded
    then (if a.got_packet
        then (a.packet_written, record s { packets = s.packets + 1 })
        else (true, s))
    else (false, s)

pub do_write_audio_packet : (ℕ → Answers) → AudioStream → List ℕ → Option (Bool × AudioStream)
do_write_audio_packet ffmpeg s bytes =
    let a = ffmpeg s.calls in
    let s' = record s {
      next_pts = s.next_pts + s.nb_samples;
      taken = s.taken ++ (s.next_pts, bytes) ∷ [];
      calls = s.calls + 1;
    } in
    if a.writable
    then (if a.converted
        then (add_int s.samples_count s.nb_samples >>= λ n.
            some (encode_audio a (record s' { samples_count = n })))
        else some (false, s'))
    else some (false, s')

-- One block from the buffer: the null pointer ends the loop of `writeAudioPacket`.
pub write_block :
    (ℕ → Answers)
    → (AudioStream → Option (Bool × AudioStream))
    → AudioStream
    → Result
    → Option (Bool × AudioStream)
write_block ffmpeg again s null = some (true, s)
write_block ffmpeg again s (block size bytes) =
    do_write_audio_packet ffmpeg s bytes >>= λ (ok, s'). if ok then again s' else some (false, s')

-- The loop; out of fuel it is `none`.
pub write_loop : ℕ → (ℕ → Answers) → AudioStream → ℕ → Option (Bool × AudioStream)
write_loop zero ffmpeg s data_size = none
write_loop (suc fuel) ffmpeg s data_size =
    MemoryBuffer.read s.buffer data_size >>= λ (data_block, buffer).
    write_block ffmpeg (λ s'. write_loop fuel ffmpeg s' data_size) (record s { buffer = buffer })
      data_block

abbrev pub data_size : AudioStream → ℕ
data_size s = s.nb_samples * audio_sample_size * s.channel

pub write_audio_packet : (ℕ → Answers) → AudioStream → List ℕ → Option (Bool × AudioStream)
write_audio_packet ffmpeg s bytes = MemoryBuffer.write s.buffer bytes >>= λ buffer.
    write_loop (buffer.size + 1) ffmpeg (record s { buffer = buffer }) (data_size s)
