-- ===== src/VideoCreater/Tests.antt =====
-- Mono audio with frames of one sample, and an encoder that fails in its second call.
use ryulib_cpp.Common.{ℕ, zero, suc, ◌≡◌, refl, Bool, true, false, some, List, [], ◌∷◌, arith}
use ryulib_cpp.MemoryBuffer.{empty}
use ryulib_cpp.MemoryBuffer.Contents.{empty-IsValid}
use ryulib_cpp.VideoCreater.{Answers, AudioStream, write_audio_packet}
use ryulib_cpp.VideoCreater.Frames.{Wrote}
use ryulib_cpp.VideoCreater.Audio.{write_audio_packet-Wrote}

abbrev answers : Bool → Answers
answers ok = record {
  writable = true;
  converted = true;
  encoded = ok;
  got_packet = true;
  packet_written = true;
}

abbrev fails_second : ℕ → Answers
fails_second zero = answers true
fails_second (suc zero) = answers false
fails_second (suc (suc n)) = answers true

abbrev start : AudioStream
start = record {
  channel = 1;
  nb_samples = 1;
  next_pts = 0;
  samples_count = 0;
  buffer = empty;
  taken = [];
  calls = 0;
  packets = 0;
}

abbrev audio : List ℕ
audio = 1 ∷ 2 ∷ 3 ∷ 4 ∷ 5 ∷ 6 ∷ 7 ∷ 8 ∷ 9 ∷ 10 ∷ []

empty-size : empty.size ≡ 0
unfolding empty
empty-size = refl

write_audio_packet-Wrote_example :
    (ok : Bool) × (s' : AudioStream) × (write_audio_packet fails_second start audio ≡ some (ok, s'))
    × Wrote start 0 1 4 audio ok s'
write_audio_packet-Wrote_example =
    write_audio_packet-Wrote fails_second start audio 2 (omega arith) empty-IsValid
      (omega (arith, empty-size)) (omega (arith, empty-size)) (omega arith)
