-- ===== src/AudioSdl/Tests.antt =====
-- An AudioSDL with frames of four bytes, and one that was not opened.
use ryulib_cpp.Common.{
  ℕ, ◌≡◌, none, some, false, List, [], ◌∷◌, arith, length, drop, replicate, length-replicate,
  length-drop,
}
use ryulib_cpp.PacketReader.{PacketReader, packetreader_buffer_size}
use ryulib_cpp.PacketReader.Bytes.{IsValid}
use ryulib_cpp.AudioSdl.{AudioSdl, play}
use ryulib_cpp.AudioSdl.Frames.{Played, play-Played, play_overlaps}

memory : List ℕ
memory = replicate packetreader_buffer_size 0

memory-length : length memory ≡ packetreader_buffer_size
unfolding memory
memory-length = length-replicate {A = ℕ} packetreader_buffer_size 0

abbrev holding_three : PacketReader
holding_three = record { buffer = 7 ∷ 8 ∷ 9 ∷ drop 3 memory; out = memory; size = 3 }

holding_three-IsValid : IsValid holding_three
holding_three-IsValid = record {
  buffer_block = omega (arith, length-drop 3 memory, memory-length);
  out_block = memory-length;
  inside = omega arith;
}

abbrev with_frames : ℕ → AudioSdl
with_frames n = record {
  channels = 1;
  sample_rate = 8000;
  fpb = 1;
  frame_size = n;
  reader = holding_three;
  queue = [];
  playing = false;
}

play-Played_example :
    (a' : AudioSdl) × (play (with_frames 4) (10 ∷ 11 ∷ 12 ∷ []) ≡ some a')
    × Played (with_frames 4) a' (10 ∷ 11 ∷ 12 ∷ [])
play-Played_example =
    play-Played (with_frames 4) (10 ∷ 11 ∷ 12 ∷ []) (omega arith) holding_three-IsValid
      (omega arith) (omega arith)

play_overlaps_example : play (with_frames 2) (10 ∷ 11 ∷ []) ≡ none
play_overlaps_example =
    play_overlaps (with_frames 2) (10 ∷ 11 ∷ []) holding_three-IsValid (omega arith) (omega arith)
