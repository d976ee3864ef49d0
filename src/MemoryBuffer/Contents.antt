-- ===== src/MemoryBuffer/Contents.antt =====
-- What a MemoryBuffer holds, and what `write`, `read` and `clear` do to it.
use ryulib_cpp.Common.{
  ℕ, zero, suc, ◌+◌, ◌-◌, ◌*◌, ◌^◌, ◌≤◌, ◌<◌, min, ◌≡◌, refl, sym, ap, ◌∙◌, Option, some, List, [],
  ◌∷◌, ◌++◌, append-nil, append_assoc, arith, if◌then◌else◌, leb, length, take, drop, Bool-cases,
  inl, inr, length-append, length-drop, take-all, drop-all, take-append_le, drop-append_le,
  take-append_ge, drop-append_ge, drop-drop,
}
use ryulib_cpp.Common.Blocks.{read_at, add_int}
use ryulib_cpp.MemoryBuffer.{
  Buffer, new_buffer, read_buffer, MemoryBuffer, empty, pop_all, clear, write, read_loop, block,
  read,
}

abbrev pub rest : Buffer → List ℕ
rest b = drop b.offset b.block

abbrev pub contents : List Buffer → List ℕ
contents [] = []
contents (b ∷ q) = rest b ++ contents q

abbrev pub BufferIsValid : Buffer → Type 0
BufferIsValid b = b.offset + b.size ≡ length b.block

abbrev pub AllValid : List Buffer → Type 0
AllValid [] = Unit {0}
AllValid (b ∷ q) = BufferIsValid b × AllValid q

-- Each buffer's unread bytes end at its end, and `size_` counts the unread bytes of them all.
pub record IsValid (m : MemoryBuffer) : Type 0 where
  pub buffers : AllValid m.queue
  pub counted : m.size ≡ length (contents m.queue)

length-rest : (b : Buffer) → BufferIsValid b → length (rest b) ≡ b.size
length-rest b v = omega (arith, length-drop b.offset b.block)

-- `Buffer::read` hands out the next bytes, as many as asked for or as there are.
pub read_buffer-rest :
    (b : Buffer) (n : ℕ)
    → BufferIsValid b
    → (b' : Buffer) × (read_buffer b n ≡ some (min n b.size, take n (rest b), b'))
      × (rest b' ≡ drop n (rest b))
      × BufferIsValid b'
      × (b'.size ≡ b.size - n)
unfolding read_buffer read_at
read_buffer-rest b n v = (
  record b { offset = b.offset + min n b.size; size = b.size - n },
  ground (
    arith,
    take-all b.size (rest b) (omega (arith, length-rest b v)),
    take-all n (rest b),
    length-rest b v,
  ),
  ground (
    arith,
    drop-drop n b.offset b.block,
    drop-drop b.size b.offset b.block,
    drop-all n (rest b),
    drop-all b.size (rest b) (omega (arith, length-rest b v)),
    length-rest b v,
  ),
  omega arith,
  refl,
)

-- How often the loop of `read` can look at the buffers.
abbrev visits : List Buffer → ℕ
visits [] = 0
visits (b ∷ q) = (if leb b.size 0 then 1 else 2) + visits q

visits-le : (q : List Buffer) → visits q ≤ 2 * length q
visits-le [] = omega arith
visits-le (b ∷ q) = ground (arith, visits-le q)

-- What the loop of `read` returns when it has moved the next `n` bytes to the end of `out`.
abbrev Moves : Option (List ℕ × List Buffer) → List Buffer → ℕ → List ℕ → Type 0
Moves r q n out =
    (q' : List Buffer) × (r ≡ some (out ++ take n (contents q), q'))
    × (contents q' ≡ drop n (contents q))
    × AllValid q'

Moves-skip :
    (b : Buffer) (q : List Buffer) (n : ℕ) (out : List ℕ) {r : Option (List ℕ × List Buffer)}
    → BufferIsValid b
    → b.size ≡ 0
    → Moves r q n out
    → Moves r (b ∷ q) n out
Moves-skip b q n out v e m =
    let gone : rest b ≡ [] = drop-all b.offset b.block (omega arith) in
    (m.0, ground (arith, m.1, gone), ground (arith, m.2, gone), m.3)

Moves-done :
    (b b' : Buffer) (q : List Buffer) (n : ℕ) (out : List ℕ)
    → AllValid (b ∷ q)
    → n ≤ b.size
    → rest b' ≡ drop n (rest b)
    → BufferIsValid b'
    → Moves (some (out ++ take n (rest b), b' ∷ q)) (b ∷ q) n out
Moves-done b b' q n out v le e v' =
    let short : n ≤ length (rest b) = omega (arith, length-rest b v.0) in
    (
      b' ∷ q,
      ap (λ xs. some (out ++ xs, b' ∷ q)) (sym (take-append_le n (rest b) (contents q) short)),
      ap (λ xs. xs ++ contents q) e ∙ sym (drop-append_le n (rest b) (contents q) short),
      (v', v.1),
    )

Moves-more :
    (b b' : Buffer) (q : List Buffer) (n k : ℕ) (out : List ℕ) {r : Option (List ℕ × List Buffer)}
    → BufferIsValid b
    → b.size < n
    → k ≡ n - b.size
    → rest b' ≡ drop n (rest b)
    → Moves r (b' ∷ q) k (out ++ take n (rest b))
    → Moves r (b ∷ q) n out
Moves-more b b' q n k out v lt ek e (q', er, ec, vq) =
    let long : length (rest b) ≤ n = omega (arith, length-rest b v) in
    let gone : rest b' ≡ [] = e ∙ drop-all n (rest b) long in
    let left : k ≡ n - length (rest b) = omega (arith, length-rest b v) in
    (
      q',
      ground (
        arith,
        er,
        gone,
        left,
        take-append_ge n (rest b) (contents q) long,
        take-all n (rest b) long,
        append_assoc out (rest b) (take k (contents q)),
      ),
      ground (arith, ec, gone, left, drop-append_ge n (rest b) (contents q) long),
      vq,
    )

read_loop-Moves :
    (fuel : ℕ) (q : List Buffer) (n : ℕ) (out : List ℕ)
    → visits q < fuel
    → 0 < n
    → AllValid q
    → Moves (read_loop fuel q n out) q n out
unfolding read_loop
read_loop-Moves zero q n out h p v = absurd (omega arith)
read_loop-Moves (suc fuel) [] n out h p v = (
  [],
  rw (take-all {A = ℕ} n [] (omega arith), append-nil),
  sym (drop-all {A = ℕ} n [] (omega arith)),
  tt,
)
read_loop-Moves (suc fuel) (b ∷ q) n out h p v =
    let (b', e, er, v', es) = read_buffer-rest b n v.0 in
    rw e (elim (Bool-cases (leb (min n b.size) 0)) [
      | inl z ↦ rw z (
          Moves-skip b q n out v.0 (ground arith)
            (read_loop-Moves fuel q n out (ground arith) p v.1))
      | inr z ↦ rw z (elim (Bool-cases (leb (n - min n b.size) 0)) [
        | inl d ↦ rw d (Moves-done b b' q n out v (ground arith) er v')
        | inr d ↦ rw d (
            Moves-more b b' q n (n - min n b.size) out v.0 (ground arith) (ground arith) er (
              read_loop-Moves fuel (b' ∷ q) (n - min n b.size) (out ++ take n (rest b))
                (ground arith) (ground arith) (v', v.1)))
      ])
    ])

contents-append : (q r : List Buffer) → contents (q ++ r) ≡ contents q ++ contents r
contents-append [] r = refl
contents-append (b ∷ q) r =
    ap (λ xs. rest b ++ xs) (contents-append q r) ∙ sym (append_assoc (rest b) _ _)

AllValid-append : (q r : List Buffer) → AllValid q → AllValid r → AllValid (q ++ r)
AllValid-append [] r v w = w
AllValid-append (b ∷ q) r v w = (v.0, AllValid-append q r v.1 w)

-- On a valid MemoryBuffer, write succeeds where the count stays an int, puts the bytes behind those
-- that are held, and leaves the buffer valid.
pub write-contents :
    (m : MemoryBuffer) (bytes : List ℕ)
    → IsValid m
    → m.size + length bytes < 2 ^ 31
    → (m' : MemoryBuffer) × (write m bytes ≡ some m')
      × (contents m'.queue ≡ contents m.queue ++ bytes)
      × IsValid m'
unfolding write add_int new_buffer
write-contents m bytes v h =
    let joined : contents (m.queue ++ new_buffer bytes ∷ []) ≡ contents m.queue ++ bytes =
      contents-append m.queue (new_buffer bytes ∷ [])
      ∙ ap (λ xs. contents m.queue ++ xs) (append-nil bytes) in
    (
      record { size = m.size + length bytes; queue = m.queue ++ new_buffer bytes ∷ [] },
      ground arith,
      joined,
      record {
        buffers = AllValid-append m.queue (new_buffer bytes ∷ []) v.buffers (omega arith, tt);
        counted = rw joined (omega (arith, v.counted, length-append (contents m.queue) bytes));
      },
    )

-- On a valid MemoryBuffer, a read of at least one and at most size_ bytes returns the oldest bytes,
-- keeps the others, and leaves the buffer valid.
pub read-contents :
    (m : MemoryBuffer) (n : ℕ)
    → IsValid m
    → 0 < n
    → n ≤ m.size
    → (m' : MemoryBuffer) × (read m n ≡ some (block n (take n (contents m.queue)), m'))
      × (contents m'.queue ≡ drop n (contents m.queue))
      × IsValid m'
unfolding read
read-contents m n v p h =
    let (q, e, ec, vq) =
      read_loop-Moves (2 * length m.queue + 1) m.queue n [] (omega (arith, visits-le m.queue)) p
        v.buffers in
    (
      record { size = m.size - n; queue = q },
      ground (arith, e),
      ec,
      record {
        buffers = vq;
        counted = rw ec (omega (arith, v.counted, length-drop n (contents m.queue)));
      },
    )

read_loop-zero :
    (fuel : ℕ) (q : List Buffer) (out : List ℕ)
    → length q < fuel
    → AllValid q
    → read_loop fuel q 0 out ≡ some (out, [])
unfolding read_loop
read_loop-zero zero q out h v = absurd (omega arith)
read_loop-zero (suc fuel) [] out h v = refl
read_loop-zero (suc fuel) (b ∷ q) out h v =
    let r = read_buffer-rest b 0 v.0 in
    ground (arith, r.1, read_loop-zero fuel q out (omega arith) v.1)

-- On a valid MemoryBuffer, a read of zero bytes deletes every buffer, whatever it still holds, and
-- leaves size_ as it was.
pub read-zero :
    (m : MemoryBuffer)
    → IsValid m
    → read m 0 ≡ some (block 0 [], record { size = m.size; queue = [] })
unfolding read
read-zero m v =
    ground (arith, read_loop-zero (2 * length m.queue + 1) m.queue [] (omega arith) v.buffers)

pop_all-nil : (q : List Buffer) → pop_all q ≡ []
unfolding pop_all
pop_all-nil [] = refl
pop_all-nil (b ∷ q) = pop_all-nil q

pub clear-contents : (m : MemoryBuffer) → (contents (clear m).queue ≡ []) × IsValid (clear m)
unfolding clear
clear-contents m =
    (rw (pop_all-nil m.queue), rw (pop_all-nil m.queue) (record { buffers = tt; counted = refl }))

pub empty-IsValid : IsValid empty
unfolding empty
empty-IsValid = record { buffers = tt; counted = refl }
