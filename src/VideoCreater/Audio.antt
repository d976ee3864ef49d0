-- ===== src/VideoCreater/Audio.antt =====
-- What becomes of the samples that `writeAudioPacket` is given.
use ryulib_cpp.Common.{
  ℕ, zero, suc, ◌+◌, ◌*◌, ◌^◌, ◌≤◌, ◌<◌, ◌≡◌, refl, sym, ap, subst, ◌∙◌, Bool, true, false, some,
  List, [], ◌∷◌, ◌++◌, append-nil, arith, ltb, if◌then◌else◌, if-true, if-false, length, take,
  Bool-cases, inl, inr, length-take, length-drop, length-append, take-append-drop,
}
use ryulib_cpp.MemoryBuffer.Contents.{IsValid, contents, write-contents, read-contents}
use ryulib_cpp.VideoCreater.{Answers, AudioStream, write_loop, data_size, write_audio_packet}
use ryulib_cpp.VideoCreater.Frames.{
  Wrote, do_write_audio_packet-Sent, ltb→lt, ltb→le, write_loop-null, write_loop-next, Wrote-cons,
  Wrote-nil,
}

never : (a b : ℕ) → false ≡ true → a < b
never a b e = absurd (cc)

-- One of the frames that there is room for.
frame_step :
    (k n size left : ℕ)
    → size < (k + 1) * n
    → left + n ≡ size
    → (j : ℕ) × (k ≡ j + 1) × (left < (j + 1) * n)
frame_step zero n size left h e = absurd (omega arith)
frame_step (suc j) n size left h e = (j, omega arith, omega arith)

-- A round of the loop that finds a frame; at most `frames_left` are behind it.
record Round (ffmpeg : ℕ → Answers) (s : AudioStream) (pts step n : ℕ) (ok : Bool) (t : AudioStream)
    : Type 0 where
  frames_left : ℕ
  bytes : List ℕ
  runs :
      (fuel : ℕ)
      → write_loop (suc fuel) ffmpeg s n
        ≡ (if ok then write_loop fuel ffmpeg t n else some (false, t))
  taken : t.taken ≡ s.taken ++ (pts, bytes) ∷ []
  full : length bytes ≡ n
  joined : bytes ++ contents t.buffer.queue ≡ contents s.buffer.queue
  later : t.next_pts ≡ pts + step
  same : t.nb_samples ≡ step
  valid : IsValid t.buffer
  smaller : t.buffer.size + n ≡ s.buffer.size
  room : t.buffer.size < (frames_left + 1) * n
  count : t.samples_count + step * frames_left < 2 ^ 31

loop_round :
    (k : ℕ) (ffmpeg : ℕ → Answers) (s : AudioStream) (pts step n : ℕ)
    → n ≤ s.buffer.size
    → 0 < n
    → s.next_pts ≡ pts
    → s.nb_samples ≡ step
    → IsValid s.buffer
    → s.buffer.size < (k + 1) * n
    → s.samples_count + step * k < 2 ^ 31
    → (ok : Bool) × (t : AudioStream) × Round ffmpeg s pts step n ok t
loop_round k ffmpeg s pts step n long p e₁ e₂ v f c =
    let (m, er, ec, vm) = read-contents s.buffer n v p (omega arith) in
    let bytes = take n (contents s.buffer.queue) in
    let full : length bytes ≡ n =
      omega (arith, v.counted, length-take n (contents s.buffer.queue)) in
    let smaller : m.size + n ≡ s.buffer.size =
      omega (arith, v.counted, vm.counted, ap length ec, length-drop n (contents s.buffer.queue)) in
    let (j, ek, fj) = frame_step k n s.buffer.size m.size f smaller in
    let room : step * k ≡ step + step * j = ap (λ i. step * i) ek ∙ omega arith in
    let (ok, t, ew, sent) =
      do_write_audio_packet-Sent ffmpeg (record s { buffer = m }) bytes (omega (arith, room)) in
    let size : t.buffer.size ≡ m.size = ap (λ b. b.size) sent.buffer in
    (
      ok,
      t,
      record {
        frames_left = j;
        bytes = bytes;
        runs = λ fuel. write_loop-next fuel ffmpeg s n bytes m er ew;
        taken = sent.taken ∙ ap (λ q. s.taken ++ (q, bytes) ∷ []) e₁;
        full = full;
        joined =
            ap (λ b. bytes ++ contents b.queue) sent.buffer
            ∙ ap (λ xs. bytes ++ xs) ec
            ∙ take-append-drop n (contents s.buffer.queue);
        later = omega (arith, sent.next_pts);
        same = sent.nb_samples ∙ e₂;
        valid = subst IsValid (sym sent.buffer) vm;
        smaller = omega (arith, size, smaller);
        room = rw size fj;
        count = omega (arith, sent.count, room);
      },
    )

write_loop-Wrote :
    (fuel k : ℕ) (ffmpeg : ℕ → Answers) (s : AudioStream) (pts step n : ℕ)
    → s.buffer.size < fuel
    → 0 < n
    → s.next_pts ≡ pts
    → s.nb_samples ≡ step
    → IsValid s.buffer
    → s.buffer.size < (k + 1) * n
    → s.samples_count + step * k < 2 ^ 31
    → (ok : Bool) × (s' : AudioStream) × (write_loop fuel ffmpeg s n ≡ some (ok, s'))
      × Wrote s pts step n [] ok s'
write_loop-Wrote zero k ffmpeg s pts step n h p e₁ e₂ v f c = absurd (omega arith)
write_loop-Wrote (suc fuel) k ffmpeg s pts step n h p e₁ e₂ v f c =
    elim (Bool-cases (ltb s.buffer.size n)) [
      | inl short ↦ (
        true,
        s,
        write_loop-null fuel ffmpeg s n (ltb→lt s.buffer.size n short),
        Wrote-nil s pts step n true e₁ (λ _. ltb→lt s.buffer.size n short) v,
      )
      | inr long ↦
          let (ok, t, r) =
            loop_round k ffmpeg s pts step n (ltb→le s.buffer.size n long) p e₁ e₂ v f c in
          let cons = λ (ok' : Bool) (s' : AudioStream).
            Wrote-cons s t s' pts step n ok' r.bytes r.taken r.full r.joined in
          elim (Bool-cases ok) [
            | inl y ↦
                let (ok', s', e, w) =
                  write_loop-Wrote fuel r.frames_left ffmpeg t (pts + step) step n
                    (omega (arith, r.smaller)) p r.later r.same r.valid r.room r.count in
                (ok', s', r.runs fuel ∙ if-true _ _ y ∙ e, cons ok' s' w)
            | inr z ↦ (
              false,
              t,
              r.runs fuel ∙ if-false _ _ z,
              cons false t
                  (Wrote-nil t (pts + step) step n false r.later (never t.buffer.size n) r.valid),
            )
          ]
    ]

-- For frames of at least one byte, bytes held and new that are fewer than 2^31 and fewer than k + 1
-- frames, and a samples_count that stays below 2^31 when nb_samples is added k times,
-- writeAudioPacket ends without a fault whatever FFmpeg answers: it takes whole frames, in order,
-- from what was held followed by the new samples, stamps them nb_samples apart, and keeps the rest;
-- where it answers true, less than one frame is held back.
pub write_audio_packet-Wrote :
    (ffmpeg : ℕ → Answers) (s : AudioStream) (bytes : List ℕ) (k : ℕ)
    → 0 < data_size s
    → IsValid s.buffer
    → s.buffer.size + length bytes < 2 ^ 31
    → s.buffer.size + length bytes < (k + 1) * data_size s
    → s.samples_count + s.nb_samples * k < 2 ^ 31
    → (ok : Bool) × (s' : AudioStream) × (write_audio_packet ffmpeg s bytes ≡ some (ok, s'))
      × Wrote s s.next_pts s.nb_samples (data_size s) bytes ok s'
unfolding write_audio_packet
write_audio_packet-Wrote ffmpeg s bytes k p v h f c =
    let (m, em, ec, vm) = write-contents s.buffer bytes v h in
    let size : m.size ≡ s.buffer.size + length bytes =
      omega (
        arith,
        v.counted,
        vm.counted,
        ap length ec,
        length-append (contents s.buffer.queue) bytes,
      ) in
    let (ok, s', e, w) =
      write_loop-Wrote (m.size + 1) k ffmpeg (record s { buffer = m }) s.next_pts s.nb_samples
        (data_size s) (omega arith) p refl refl vm (rw size f) c in
    (
      ok,
      s',
      rw em e,
      record {
        frames = w.frames;
        taken = w.taken;
        following = w.following;
        next = w.next;
        kept = w.kept ∙ append-nil (contents m.queue) ∙ ec;
        left = w.left;
        valid = w.valid;
      },
    )
