-- ===== src/VideoCreater/Frames.antt =====
-- The frames that `writeAudioPacket` takes, and one call of `do_writeAudioPacket`.
use ryulib_cpp.Common.{
  ℕ, suc, ◌+◌, ◌*◌, ◌^◌, ◌≤◌, ◌<◌, ◌≡◌, refl, sym, ap, ◌∙◌, Bool, true, false, some, List, [], ◌∷◌,
  ◌++◌, append_assoc, append-nil, arith, ltb, if◌then◌else◌, length, Bool-cases, inl, inr,
}
use ryulib_cpp.Common.Blocks.{add_int}
use ryulib_cpp.MemoryBuffer
use ryulib_cpp.MemoryBuffer.{MemoryBuffer, Result, null, block}
use ryulib_cpp.MemoryBuffer.Contents.{IsValid, contents}
use ryulib_cpp.MemoryBuffer.Fifo.{read-null}
use ryulib_cpp.VideoCreater.{
  Answers, AudioStream, encode_audio, do_write_audio_packet, write_block, write_loop,
}

-- The blocks of `frames` follow one another from `pts` on, `step` samples apart, each `n` bytes long.
abbrev pub Follow : ℕ → ℕ → ℕ → List (ℕ × List ℕ) → Type 0
Follow pts step n [] = Unit {0}
Follow pts step n ((p, bytes) ∷ fs) = (p ≡ pts) × (length bytes ≡ n) × Follow (pts + step) step n fs

abbrev pub samples : List (ℕ × List ℕ) → List ℕ
samples [] = []
samples ((p, bytes) ∷ fs) = bytes ++ samples fs

-- What a call has done: it took `frames` of `n` bytes out of the buffer, in order and stamped
-- `step` apart from `pts` on, and the rest is still there; if it answers `true`, less than a frame.
pub record Wrote (s : AudioStream) (pts step n : ℕ) (bytes : List ℕ) (ok : Bool) (s' : AudioStream)
    : Type 0 where
  pub frames : List (ℕ × List ℕ)
  pub taken : s'.taken ≡ s.taken ++ frames
  pub following : Follow pts step n frames
  pub next : s'.next_pts ≡ pts + step * length frames
  pub kept : samples frames ++ contents s'.buffer.queue ≡ contents s.buffer.queue ++ bytes
  pub left : ok ≡ true → s'.buffer.size < n
  pub valid : IsValid s'.buffer

-- The parts of the stream that `do_writeAudioPacket` changes.
pub record Sent (s : AudioStream) (bytes : List ℕ) (s' : AudioStream) : Type 0 where
  pub channel : s'.channel ≡ s.channel
  pub nb_samples : s'.nb_samples ≡ s.nb_samples
  pub next_pts : s'.next_pts ≡ s.next_pts + s.nb_samples
  pub taken : s'.taken ≡ s.taken ++ (s.next_pts, bytes) ∷ []
  pub buffer : s'.buffer ≡ s.buffer
  pub count : s'.samples_count ≤ s.samples_count + s.nb_samples

encode_audio-Sent :
    (a : Answers) (s t : AudioStream) (bytes : List ℕ)
    → Sent s bytes t
    → Sent s bytes (encode_audio a t).1
unfolding encode_audio
encode_audio-Sent a s t bytes h = ground arith

pub do_write_audio_packet-Sent :
    (ffmpeg : ℕ → Answers) (s : AudioStream) (bytes : List ℕ)
    → s.samples_count + s.nb_samples < 2 ^ 31
    → (ok : Bool) × (s' : AudioStream) × (do_write_audio_packet ffmpeg s bytes ≡ some (ok, s'))
      × Sent s bytes s'
unfolding do_write_audio_packet add_int
do_write_audio_packet-Sent ffmpeg s bytes h = elim (Bool-cases a.writable) [
  | inr w ↦ (false, s', ground arith, sent s.samples_count (omega arith))
  | inl w ↦ elim (Bool-cases a.converted) [
    | inr c ↦ (false, s', ground arith, sent s.samples_count (omega arith))
    | inl c ↦
        let count : ℕ = s.samples_count + s.nb_samples in
        let t = record s' { samples_count = count } in
        (
          (encode_audio a t).0,
          (encode_audio a t).1,
          ground arith,
          encode_audio-Sent a s t bytes (sent count (omega arith)),
        )
  ]
]
  where
    a : Answers
    a = ffmpeg s.calls

    s' : AudioStream
    s' = record s {
      next_pts = s.next_pts + s.nb_samples;
      taken = s.taken ++ (s.next_pts, bytes) ∷ [];
      calls = s.calls + 1;
    }

    sent :
        (n : ℕ)
        → n ≤ s.samples_count + s.nb_samples
        → Sent s bytes (record s' { samples_count = n })
    sent n h' = record {
      channel = refl;
      nb_samples = refl;
      next_pts = refl;
      taken = refl;
      buffer = refl;
      count = h';
    }

pub ltb→lt : (a b : ℕ) → ltb a b ≡ true → a < b
ltb→lt a b h = ground arith

pub ltb→le : (a b : ℕ) → ltb a b ≡ false → b ≤ a
ltb→le a b h = ground arith

pub write_loop-null :
    (fuel : ℕ) (ffmpeg : ℕ → Answers) (s : AudioStream) (n : ℕ)
    → s.buffer.size < n
    → write_loop (suc fuel) ffmpeg s n ≡ some (true, s)
unfolding write_loop write_block
write_loop-null fuel ffmpeg s n h = rw (read-null s.buffer n h)

pub write_loop-next :
    (fuel : ℕ) (ffmpeg : ℕ → Answers) (s : AudioStream) (n : ℕ) (bytes : List ℕ) (m : MemoryBuffer)
    {ok : Bool} {t : AudioStream}
    → MemoryBuffer.read s.buffer n ≡ some (block n bytes, m)
    → do_write_audio_packet ffmpeg (record s { buffer = m }) bytes ≡ some (ok, t)
    → write_loop (suc fuel) ffmpeg s n
      ≡ (if ok then write_loop fuel ffmpeg t n else some (false, t))
unfolding write_loop write_block
write_loop-next fuel ffmpeg s n bytes m er ew = rw (er, ew)

-- One frame in front of what the rest of the loop has done.
pub Wrote-cons :
    (s t s' : AudioStream) (pts step n : ℕ) (ok : Bool) (bytes : List ℕ)
    → t.taken ≡ s.taken ++ (pts, bytes) ∷ []
    → length bytes ≡ n
    → bytes ++ contents t.buffer.queue ≡ contents s.buffer.queue
    → Wrote t (pts + step) step n [] ok s'
    → Wrote s pts step n [] ok s'
Wrote-cons s t s' pts step n ok bytes et full joined w = record {
  frames = (pts, bytes) ∷ w.frames;
  taken =
      w.taken ∙ ap (λ xs. xs ++ w.frames) et ∙ append_assoc s.taken ((pts, bytes) ∷ []) w.frames;
  following = (refl, full, w.following);
  next = omega (arith, w.next);
  kept =
      append_assoc bytes (samples w.frames) (contents s'.buffer.queue)
      ∙ ap (◌++◌ bytes) (w.kept ∙ append-nil (contents t.buffer.queue))
      ∙ joined
      ∙ sym (append-nil (contents s.buffer.queue));
  left = w.left;
  valid = w.valid;
}

pub Wrote-nil :
    (t : AudioStream) (pts step n : ℕ) (ok : Bool)
    → t.next_pts ≡ pts
    → (ok ≡ true → t.buffer.size < n)
    → IsValid t.buffer
    → Wrote t pts step n [] ok t
Wrote-nil t pts step n ok e l v = record {
  frames = [];
  taken = sym (append-nil t.taken);
  following = tt;
  next = omega arith;
  kept = sym (append-nil (contents t.buffer.queue));
  left = l;
  valid = v;
}
