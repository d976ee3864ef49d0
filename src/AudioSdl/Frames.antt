-- ===== src/AudioSdl/Frames.antt =====
-- What `play` puts into the queue.
use ryulib_cpp.Common.{
  ℕ, zero, suc, ◌+◌, ◌≤◌, ◌<◌, ◌≡◌, refl, sym, ap, ap₂, ◌∙◌, true, none, some, List, [], ◌∷◌, ◌++◌,
  append_assoc, append-nil, arith, length, take, Bool-cases, inl, inr, length-take, length-drop,
  length-append, take-append-drop, flatten,
}
use ryulib_cpp.Common.Blocks.{read_at-some}
use ryulib_cpp.PacketReader
use ryulib_cpp.PacketReader.{PacketReader, packetreader_buffer_size}
use ryulib_cpp.PacketReader.Bytes.{
  IsValid, pending, length-pending, can_read-true, can_read-false, can_read-le, write-pending,
  read-pending_count, read-overlap,
}
use ryulib_cpp.AudioSdl.{AudioSdl, new_memory, play_loop, play}

abbrev pub AllFrames : ℕ → List (List ℕ) → Type 0
AllFrames n [] = Unit {0}
AllFrames n (f ∷ fs) = (length f ≡ n) × AllFrames n fs

-- What a run of `play` has done: `frames` were queued, and less than a frame is left.
pub record Played (a a' : AudioSdl) (bytes : List ℕ) : Type 0 where
  pub frames : List (List ℕ)
  pub queued : a'.queue ≡ a.queue ++ frames
  pub sized : AllFrames a.frame_size frames
  pub kept : flatten frames ++ pending a'.reader ≡ pending a.reader ++ bytes
  pub left : a'.reader.size < a.frame_size
  pub same_frame_size : a'.frame_size ≡ a.frame_size
  pub valid : IsValid a'.reader

play_loop-next :
    (fuel : ℕ) (a : AudioSdl) (out f : List ℕ) (r' : PacketReader)
    → PacketReader.can_read a.reader a.frame_size ≡ true
    → PacketReader.read a.reader a.frame_size ≡ some (some out, r')
    → new_memory (some out) a.frame_size ≡ some f
    → play_loop (suc fuel) a
      ≡ play_loop fuel (record a { reader = r'; queue = a.queue ++ f ∷ []; playing = true })
unfolding play_loop
play_loop-next fuel a out f r' c er em = rw (c, er, em)

-- The first `n` bytes that `read` returned, as a Memory.
new_memory-some :
    (out : List ℕ) (n : ℕ) → length (take n out) ≡ n → new_memory (some out) n ≡ some (take n out)
unfolding new_memory
new_memory-some out n full = read_at-some out 0 n (omega (arith, length-take n out))

play_loop-Played :
    (fuel : ℕ) (a : AudioSdl)
    → a.reader.size < fuel
    → 0 < a.frame_size
    → IsValid a.reader
    → a.reader.size ≤ a.frame_size + a.frame_size
    → (a' : AudioSdl) × (play_loop fuel a ≡ some a') × Played a a' []
unfolding play_loop
play_loop-Played zero a h p v two = absurd (omega arith)
play_loop-Played (suc fuel) a h p v two =
    elim (Bool-cases (PacketReader.can_read a.reader a.frame_size)) [
      | inr short ↦ (
        a,
        rw short,
        record {
          frames = [];
          queued = sym (append-nil a.queue);
          sized = tt;
          kept = sym (append-nil (pending a.reader));
          left = can_read-false a.reader a.frame_size short;
          same_frame_size = refl;
          valid = v;
        },
      )
      | inl long ↦
          let n = a.frame_size in
          let enough = can_read-true a.reader n long in
          let (out, r', er, eo, ep, v') = read-pending_count a.reader n v enough two in
          let f = take n out in
          let full : length f ≡ n =
            ap length eo
            ∙ omega (arith, length-take n (pending a.reader), length-pending a.reader v) in
          let fewer : r'.size < a.reader.size = omega (
            arith,
            length-pending a.reader v,
            length-pending r' v',
            ap length ep,
            length-drop n (pending a.reader),
          ) in
          let next = play_loop-next fuel a out f r' long er (new_memory-some out n full) in
          let (a', e, done) =
            play_loop-Played fuel
              (record a { reader = r'; queue = a.queue ++ f ∷ []; playing = true })
              (omega (arith, fewer)) p v' (omega (arith, fewer)) in
          let joined : f ++ pending r' ≡ pending a.reader =
            ap₂ ◌++◌ eo ep ∙ take-append-drop n (pending a.reader) in
          (
            a',
            next ∙ e,
            record {
              frames = f ∷ done.frames;
              queued = done.queued ∙ append_assoc a.queue (f ∷ []) done.frames;
              sized = (full, done.sized);
              kept =
                  append_assoc f (flatten done.frames) (pending a'.reader)
                  ∙ ap (◌++◌ f) (done.kept ∙ append-nil (pending r'))
                  ∙ joined
                  ∙ sym (append-nil (pending a.reader));
              left = done.left;
              same_frame_size = done.same_frame_size;
              valid = done.valid;
            },
          )
    ]

written-size :
    (r r' : PacketReader) (bytes : List ℕ)
    → IsValid r
    → IsValid r'
    → pending r' ≡ pending r ++ bytes
    → r'.size ≡ r.size + length bytes
written-size r r' bytes v v' e =
    omega (
      arith,
      length-pending r v,
      length-pending r' v',
      ap length e,
      length-append (pending r) bytes,
    )

-- A loop that finds more than two frames.
play_loop-overlap :
    (fuel : ℕ) (a : AudioSdl)
    → a.frame_size + a.frame_size < a.reader.size
    → play_loop fuel a ≡ none
unfolding play_loop
play_loop-overlap zero a h = refl
play_loop-overlap (suc fuel) a h =
    rw (can_read-le a.reader a.frame_size (omega arith), read-overlap a.reader a.frame_size h)

-- Where the bytes that are held and the new ones fit the buffer of the reader and are no more than
-- two frames, and the frame size is not zero, play ends without a fault: it queues frames of
-- exactly frame_size_ bytes behind those that wait, loses and reorders no byte, and keeps less than
-- a frame.
pub play-Played :
    (a : AudioSdl) (bytes : List ℕ)
    → 0 < a.frame_size
    → IsValid a.reader
    → a.reader.size + length bytes ≤ packetreader_buffer_size
    → a.reader.size + length bytes ≤ a.frame_size + a.frame_size
    → (a' : AudioSdl) × (play a bytes ≡ some a') × Played a a' bytes
unfolding play
play-Played a bytes p v h two =
    let (r', er, ep, v') = write-pending a.reader bytes v h in
    let (a', e, done) =
      play_loop-Played (r'.size + 1) (record a { reader = r' }) (omega arith) p v'
        (omega (arith, written-size a.reader r' bytes v v' ep)) in
    (
      a',
      rw (er, e),
      record {
        frames = done.frames;
        queued = done.queued;
        sized = done.sized;
        kept = done.kept ∙ append-nil (pending r') ∙ ep;
        left = done.left;
        same_frame_size = done.same_frame_size;
        valid = done.valid;
      },
    )

-- Where the bytes that are held and the new ones fit the buffer of the reader and are more than two
-- frames, play faults: the first read of its loop moves what is behind a frame with memcpy onto a
-- region that overlaps it.
pub play_overlaps :
    (a : AudioSdl) (bytes : List ℕ)
    → IsValid a.reader
    → a.reader.size + length bytes ≤ packetreader_buffer_size
    → a.frame_size + a.frame_size < a.reader.size + length bytes
    → play a bytes ≡ none
unfolding play
play_overlaps a bytes v h two =
    let (r', er, ep, v') = write-pending a.reader bytes v h in
    let size = written-size a.reader r' bytes v v' ep in
    rw er (play_loop-overlap (r'.size + 1) (record a { reader = r' }) (omega (arith, size)))
