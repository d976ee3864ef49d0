-- ===== src/SystemAudioCapture/Blocks.antt =====
-- Which blocks the resampler gets.
use ryulib_cpp.Common.{
  ℕ, zero, suc, ◌+◌, ◌^◌, ◌≤◌, ◌<◌, ◌≡◌, refl, sym, ap, subst, ◌∙◌, ◌-◌, length-drop, Option, some,
  List, [], ◌∷◌, ◌++◌, length, length-append, length-take, take, drop, take-append-drop, flatten,
  arith, ◌>>=◌, lt_or_le, inl, inr,
}
use ryulib_cpp.MemoryBuffer
use ryulib_cpp.MemoryBuffer.{MemoryBuffer, Result, null, block}
use ryulib_cpp.MemoryBuffer.Contents.{IsValid, contents, write-contents, read-contents}
use ryulib_cpp.ThreadQueue
use ryulib_cpp.SystemAudioCapture.{SystemAudioCapture, execute, handle, thread_step}
use ryulib_cpp.SystemAudioCapture.Stream.{
  AllSized, AllSized-snoc, stream, IsFed, Kept, read_short, handled, execute-fields, regroup,
  regroup_block,
}

-- The buffer `b` behind the write of a block that was popped from the queue.
record Written (c : SystemAudioCapture) (b : MemoryBuffer) (bytes : List ℕ) (q : List (List ℕ))
    : Type 0 where
  write : MemoryBuffer.write c.buffer bytes ≡ some b
  joined : contents b.queue ≡ contents c.buffer.queue ++ bytes
  valid : IsValid b
  room : b.size + length (flatten q) < 2 ^ 31
  before : stream c ≡ flatten c.executed ++ contents c.buffer.queue ++ (bytes ++ flatten q)

written :
    (bytes : List ℕ) (q : List (List ℕ)) (c : SystemAudioCapture)
    → c.queue_in ≡ bytes ∷ q
    → IsFed c
    → (b : MemoryBuffer) × Written c b bytes q
written bytes q c e f =
    let old = contents c.buffer.queue in
    let waiting : length (flatten c.queue_in) ≡ length bytes + length (flatten q) =
      ap (λ q. length (flatten q)) e ∙ length-append bytes (flatten q) in
    let (b, ew, eb, vb) = write-contents c.buffer bytes f.valid (omega (arith, waiting, f.room)) in
    let size : b.size ≡ c.buffer.size + length bytes =
      vb.counted
      ∙ ap length eb
      ∙ length-append old bytes
      ∙ ap (λ n. n + length bytes) (sym f.valid.counted) in
    (
      b,
      record {
        write = ew;
        joined = eb;
        valid = vb;
        room = omega (arith, size, waiting, f.room);
        before = ap (λ q. flatten c.executed ++ old ++ flatten q) e;
      },
    )

-- Less than a block is collected: nothing is given to the resampler.
short_round :
    (bytes : List ℕ) (q : List (List ℕ)) (c : SystemAudioCapture) (b : MemoryBuffer)
    → Written c b bytes q
    → IsFed c
    → Kept 1 c (record c { buffer = b; queue_in = q })
short_round bytes q c b w f = record {
  stream =
      ap (λ l. flatten c.executed ++ l ++ flatten q) w.joined
      ∙ regroup (flatten c.executed) (contents c.buffer.queue) bytes (flatten q)
      ∙ sym w.before;
  fed = record { valid = w.valid; src_size = f.src_size; executed = f.executed; room = w.room };
  blocks = omega arith;
  src_size = refl;
}

-- A block is cut off and given to the resampler.
full_round :
    (bytes : List ℕ) (q : List (List ℕ)) (c c' : SystemAudioCapture) (b b' : MemoryBuffer)
    → Written c b bytes q
    → IsFed c
    → c.src_size ≤ b.size
    → contents b'.queue ≡ drop c.src_size (contents b.queue)
    → IsValid b'
    → c'.executed ≡ c.executed ++ take c.src_size (contents b.queue) ∷ []
    → c'.buffer ≡ b'
    → c'.queue_in ≡ q
    → c'.src_size ≡ c.src_size
    → Kept 1 c c'
full_round bytes q c c' b b' w f full ec vr fe fb fq fs =
    let n = c.src_size in
    let out = take n (contents b.queue) in
    let long : length out ≡ n =
      length-take n (contents b.queue) ∙ omega (arith, w.valid.counted, full) in
    let left : b'.size ≡ b.size - n =
      vr.counted
      ∙ ap length ec
      ∙ length-drop n (contents b.queue)
      ∙ ap (λ k. k - n) (sym w.valid.counted) in
    record {
      stream =
          ap (λ l. flatten l ++ contents c'.buffer.queue ++ flatten c'.queue_in) fe
          ∙ ap (λ m. flatten (c.executed ++ out ∷ []) ++ contents m.queue ++ flatten c'.queue_in) fb
          ∙ ap (λ l. flatten (c.executed ++ out ∷ []) ++ contents b'.queue ++ flatten l) fq
          ∙ regroup_block c.executed out (contents b'.queue) (contents c.buffer.queue) bytes
              (flatten q) (ap (◌++◌ out) ec ∙ take-append-drop n (contents b.queue) ∙ w.joined)
          ∙ sym w.before;
      fed = record {
        valid = subst IsValid (sym fb) vr;
        src_size = subst (λ k. 0 < k) (sym fs) f.src_size;
        executed =
            subst (λ k. AllSized k c'.executed) (sym fs)
              (subst (AllSized n) (sym fe) (AllSized-snoc n c.executed out f.executed long));
        room = omega (arith, ap (λ m. m.size) fb, ap (λ l. length (flatten l)) fq, left, w.room);
      };
      blocks = omega (arith, ap length fe, length-append c.executed (out ∷ []));
      src_size = fs;
    }

execute-null :
    (resample : List ℕ → Option (List ℕ)) (c : SystemAudioCapture) → execute resample null c ≡ c
unfolding execute
execute-null resample c = refl

handle-Kept :
    (resample : List ℕ → Option (List ℕ)) (bytes : List ℕ) (q : List (List ℕ))
    (c : SystemAudioCapture)
    → c.queue_in ≡ bytes ∷ q
    → IsFed c
    → (c' : SystemAudioCapture) × (handle resample (some bytes, q) c ≡ some c') × Kept 1 c c'
handle-Kept resample bytes q c e f =
    let (b, w) = written bytes q c e f in
    elim (lt_or_le b.size c.src_size) [
      | inl short ↦ (
        record c { buffer = b; queue_in = q },
        handled resample bytes q c b b null w.write (read_short b c.src_size short)
            ∙ ap some (execute-null resample (record c { buffer = b; queue_in = q })),
        short_round bytes q c b w f,
      )
      | inr full ↦
          let n = c.src_size in
          let (b', er, ec, vr) = read-contents b n w.valid f.src_size full in
          let out = take n (contents b.queue) in
          let c₁ : SystemAudioCapture = record c { queue_in = q; buffer = b' } in
          let (fe, fb, fq, fs) = execute-fields resample n out c₁ in
          (
            execute resample (block n out) c₁,
            handled resample bytes q c b b' (block n out) w.write er,
            full_round bytes q c (execute resample (block n out) c₁) b b' w f full ec vr fe fb fq
                fs,
          )
    ]

thread_step-Kept :
    (resample : List ℕ → Option (List ℕ)) (c : SystemAudioCapture) (q : List (List ℕ))
    → c.queue_in ≡ q
    → IsFed c
    → (c' : SystemAudioCapture) × (thread_step resample c ≡ some c') × Kept 1 c c'
unfolding thread_step handle ThreadQueue.pop
thread_step-Kept resample c [] e f = (
  record c { queue_in = [] },
  ap (λ q. handle resample (ThreadQueue.pop q) c) e,
  record {
    stream = ap (λ q. flatten c.executed ++ contents c.buffer.queue ++ flatten q) (sym e);
    fed = record {
      valid = f.valid;
      src_size = f.src_size;
      executed = f.executed;
      room = omega (arith, f.room, ap (λ q. length (flatten q)) e);
    };
    blocks = omega arith;
    src_size = refl;
  },
)
thread_step-Kept resample c (bytes ∷ q) e f =
    let (c', h, k) = handle-Kept resample bytes q c e f in
    (c', ap (λ q. handle resample (ThreadQueue.pop q) c) e ∙ h, k)

-- As many rounds.
pub rounds : ℕ → (List ℕ → Option (List ℕ)) → SystemAudioCapture → Option SystemAudioCapture
rounds zero resample c = some c
rounds (suc n) resample c = thread_step resample c >>= λ c. rounds n resample c

-- Where the bytes that are collected and wait are fewer than 2^31 and the blocks of the resampler
-- are not empty, any number of rounds of the thread run without a fault: the blocks that the
-- resampler got, the bytes that are collected and those that wait are the same stream as before,
-- each of these blocks has the size that it takes, and no round gives it more than one.
pub rounds-Kept :
    (n : ℕ) (resample : List ℕ → Option (List ℕ)) (c : SystemAudioCapture)
    → IsFed c
    → (c' : SystemAudioCapture) × (rounds n resample c ≡ some c') × Kept n c c'
unfolding rounds
rounds-Kept zero resample c f =
    (c, refl, record { stream = refl; fed = f; blocks = omega arith; src_size = refl })
rounds-Kept (suc n) resample c f =
    let (c₁, e₁, k₁) = thread_step-Kept resample c c.queue_in refl f in
    let (c₂, e₂, k₂) = rounds-Kept n resample c₁ k₁.fed in
    (
      c₂,
      ap (λ o. o >>= λ c. rounds n resample c) e₁ ∙ e₂,
      record {
        stream = k₂.stream ∙ k₁.stream;
        fed = k₂.fed;
        blocks = omega (arith, k₁.blocks, k₂.blocks);
        src_size = k₂.src_size ∙ k₁.src_size;
      },
    )
