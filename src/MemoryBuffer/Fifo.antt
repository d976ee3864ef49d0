-- ===== src/MemoryBuffer/Fifo.antt =====
-- A MemoryBuffer behaves as a queue of bytes.
use ryulib_cpp.Common.{
  ℕ, ◌+◌, ◌^◌, ◌<◌, ◌≡◌, refl, ap, ◌∙◌, Option, some, List, [], ◌∷◌, ◌++◌, arith, if◌then◌else◌,
  ltb, length, take, drop, ◌>>=◌, Bool-cases, inl, inr, length-append, length-drop,
}
use ryulib_cpp.MemoryBuffer.{MemoryBuffer, empty, clear, write, Result, null, block, read}
use ryulib_cpp.MemoryBuffer.Contents.{
  IsValid, contents, write-contents, read-contents, clear-contents, empty-IsValid,
}

-- The calls of a client, and what it sees of them.
pub data Call : Type 0 where
  clears : Call
  writes : List ℕ → Call
  reads : ℕ → Call

pub run : MemoryBuffer → List Call → Option (List Result)
run m [] = some []
run m (clears ∷ cs) = run (clear m) cs
run m (writes bytes ∷ cs) = write m bytes >>= λ m'. run m' cs
run m (reads n ∷ cs) = read m n >>= λ (r, m'). run m' cs >>= λ rs. some (r ∷ rs)

-- The specification: one list of bytes.
unfoldable pub run_fifo : List ℕ → List Call → List Result
run_fifo held [] = []
run_fifo held (clears ∷ cs) = run_fifo [] cs
run_fifo held (writes bytes ∷ cs) = run_fifo (held ++ bytes) cs
run_fifo held (reads n ∷ cs) =
    if ltb (length held) n
    then null ∷ run_fifo held cs
    else block n (take n held) ∷ run_fifo (drop n held) cs

-- No read asks for zero bytes.
abbrev pub ReadsSome : List Call → Type 0
ReadsSome [] = Unit {0}
ReadsSome (clears ∷ cs) = ReadsSome cs
ReadsSome (writes bytes ∷ cs) = ReadsSome cs
ReadsSome (reads n ∷ cs) = (0 < n) × ReadsSome cs

abbrev pub written : List Call → ℕ
written [] = 0
written (clears ∷ cs) = written cs
written (writes bytes ∷ cs) = length bytes + written cs
written (reads n ∷ cs) = written cs

pub read-null : (m : MemoryBuffer) (n : ℕ) → m.size < n → read m n ≡ some (null, m)
unfolding read
read-null m n h = ground arith

run_valid :
    (m : MemoryBuffer) (cs : List Call)
    → IsValid m
    → ReadsSome cs
    → m.size + written cs < 2 ^ 31
    → run m cs ≡ some (run_fifo (contents m.queue) cs)
unfolding run run_fifo
run_valid m [] v p h = refl
run_valid m (clears ∷ cs) v p h =
    let (e, v') = clear-contents m in
    run_valid (clear m) cs v' p (omega (arith, v'.counted, ap length e))
    ∙ ap (λ held. some (run_fifo held cs)) e
run_valid m (writes bytes ∷ cs) v p h =
    let (m', e, ec, v') = write-contents m bytes v (omega arith) in
    rw (e, ← ec)
      (run_valid m' cs v' p (
        omega (arith, v.counted, v'.counted, ap length ec, length-append (contents m.queue) bytes)))
run_valid m (reads n ∷ cs) v p h = elim (Bool-cases (ltb m.size n)) [
  | inl short ↦ ground (arith, run_valid m cs v p.1 h, read-null m n, v.counted)
  | inr enough ↦
      let (m', e, ec, v') = read-contents m n v p.0 (ground arith) in
      let fits : m'.size + written cs < 2 ^ 31 =
        omega (arith, v.counted, v'.counted, ap length ec, length-drop n (contents m.queue)) in
      ground (arith, e, ec, v.counted, run_valid m' cs v' p.1 fits)
]

-- Any calls of write, read and clear on a new MemoryBuffer that write fewer than 2^31 bytes in all
-- and never read zero bytes run without a fault, and their reads return what one queue of bytes
-- returns: the null pointer where fewer bytes are held than asked for, else the oldest bytes.
pub run_refines :
    (cs : List Call) → ReadsSome cs → written cs < 2 ^ 31 → run empty cs ≡ some (run_fifo [] cs)
unfolding empty
run_refines cs p h = run_valid empty cs empty-IsValid p (omega arith)
