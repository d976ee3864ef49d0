-- ===== src/Common/Blocks.antt =====
-- A block of memory is the list of its bytes. An access outside of it is `none`.
use Prim.Native.Nat.{ℕ, ◌+◌, ◌*◌, ◌^◌, ◌≤◌, ◌<◌}
use mathlib.Core.Path.{◌≡◌, sym, ap, ◌∙◌}
use mathlib.Core.List.{List, ◌++◌, append_assoc}
use mathlib.Core.Option.{Option, none, some}
use native.Mathlib.Omega.{arith}
use ryulib_cpp.Common.Tests.{
  ltb, leb, if◌then◌else◌, if-true, if-false, le→leb, lt→leb, lt→ltb, ◌>>=◌,
}
use ryulib_cpp.Common.Lists.{
  length, take, drop, length-append, length-take, length-drop, take-append_self, drop-append_self,
  take-all,
}

-- The `n` bytes from `i` on.
unfoldable pub read_at : List ℕ → ℕ → ℕ → Option (List ℕ)
read_at block i n = if leb (i + n) (length block) then some (take n (drop i block)) else none

-- The block with `bytes` written from `i` on.
abbrev pub splice : List ℕ → ℕ → List ℕ → List ℕ
splice block i bytes = take i block ++ bytes ++ drop (i + length bytes) block

unfoldable pub write_at : List ℕ → ℕ → List ℕ → Option (List ℕ)
write_at block i bytes =
    if leb (i + length bytes) (length block) then some (splice block i bytes) else none

-- `memcpy(dst + i, src + j, n)` between two blocks.
unfoldable pub memcpy : List ℕ → ℕ → List ℕ → ℕ → ℕ → Option (List ℕ)
unfolding read_at write_at
memcpy dst i src j n = read_at src j n >>= write_at dst i

-- `memcpy(block + i, block + j, n)` inside one block: where the two regions overlap the behaviour is
-- undefined.
unfoldable pub memcpy_within : List ℕ → ℕ → ℕ → ℕ → Option (List ℕ)
memcpy_within block i j n =
    if leb (i + n) j
    then memcpy block i block j n
    else (if leb (j + n) i then memcpy block i block j n else none)

-- A sum of two values of `int`; past its range the behaviour is undefined.
unfoldable pub add_int : ℕ → ℕ → Option ℕ
add_int a b = if ltb (a + b) (2 ^ 31) then some (a + b) else none

-- A product of two.
unfoldable pub mul_int : ℕ → ℕ → Option ℕ
mul_int a b = if ltb (a * b) (2 ^ 31) then some (a * b) else none

pub mul_int-some : (a b : ℕ) → a * b < 2 ^ 31 → mul_int a b ≡ some (a * b)
unfolding mul_int
mul_int-some a b h = if-true _ _ (lt→ltb (a * b) (2 ^ 31) h)

pub add_int-some : (a b : ℕ) → a + b < 2 ^ 31 → add_int a b ≡ some (a + b)
unfolding add_int
add_int-some a b h = if-true _ _ (lt→ltb (a + b) (2 ^ 31) h)

pub length-window :
    (i n : ℕ) (block : List ℕ) → i + n ≤ length block → length (take n (drop i block)) ≡ n
length-window i n block h = omega (arith, length-take n (drop i block), length-drop i block)

pub length-splice :
    (block : List ℕ) (i : ℕ) (bytes : List ℕ)
    → i + length bytes ≤ length block
    → length (splice block i bytes) ≡ length block
length-splice block i bytes h = omega (
  arith,
  length-append (take i block ++ bytes) (drop (i + length bytes) block),
  length-append (take i block) bytes,
  length-take i block,
  length-drop (i + length bytes) block,
)

-- Up to the end of what was written.
pub take-splice :
    (block : List ℕ) (i : ℕ) (bytes : List ℕ)
    → i + length bytes ≤ length block
    → take (i + length bytes) (splice block i bytes) ≡ take i block ++ bytes
take-splice block i bytes h =
    let size : length (take i block ++ bytes) ≡ i + length bytes =
      omega (arith, length-append (take i block) bytes, length-take i block) in
    ap (λ n. take n (splice block i bytes)) (sym size) ∙ take-append_self (take i block ++ bytes) _

pub read_at-some :
    (block : List ℕ) (i n : ℕ)
    → i + n ≤ length block
    → read_at block i n ≡ some (take n (drop i block))
unfolding read_at
read_at-some block i n h = ground arith

-- A copy inside both blocks succeeds.
pub memcpy-some :
    (dst src : List ℕ) (i j n : ℕ)
    → i + n ≤ length dst
    → j + n ≤ length src
    → memcpy dst i src j n ≡ some (splice dst i (take n (drop j src)))
unfolding memcpy read_at write_at
memcpy-some dst src i j n hd hs = ground (arith, length-window j n src hs)

-- A copy of a whole block.
pub memcpy-whole :
    (dst src : List ℕ) (i : ℕ)
    → i + length src ≤ length dst
    → memcpy dst i src 0 (length src) ≡ some (splice dst i src)
memcpy-whole dst src i h =
    memcpy-some dst src i 0 (length src) h (omega arith)
    ∙ ap (λ bytes. some (splice dst i bytes)) (take-all (length src) src (omega arith))

-- A copy past the end of the destination is a fault.
pub memcpy-none : (dst src : List ℕ) (i j n : ℕ) → length dst < i + n → memcpy dst i src j n ≡ none
unfolding memcpy read_at write_at
memcpy-none dst src i j n h = ground (arith, length-window j n src)

-- The `left` bytes from `n` on, copied to the start of their own block, which they do not reach.
pub memcpy_within-down :
    (block : List ℕ) (n left : ℕ)
    → n + left ≤ length block
    → left ≤ n
    → (block' : List ℕ) × (memcpy_within block 0 n left ≡ some block')
      × (take left block' ≡ take left (drop n block))
      × (length block' ≡ length block)
unfolding memcpy_within
memcpy_within-down block n left h k =
    let moved = take left (drop n block) in
    let size : length moved ≡ left = length-window n left block h in
    let fits : 0 + length moved ≤ length block = omega arith in
    let at_start : left ≡ 0 + length moved = omega arith in
    (
      splice block 0 moved,
      if-true _ _ (le→leb (0 + left) n (omega arith))
          ∙ memcpy-some block block 0 n left (omega arith) h,
      ap (λ j. take j (splice block 0 moved)) at_start ∙ take-splice block 0 moved fits,
      length-splice block 0 moved fits,
    )

-- More bytes than fit in front of them are a fault.
pub memcpy_within-overlap :
    (block : List ℕ) (n left : ℕ) → n < left → memcpy_within block 0 n left ≡ none
unfolding memcpy_within
memcpy_within-overlap block n left h =
    if-false _ _ (lt→leb (0 + left) n (omega arith))
    ∙ if-false _ _ (lt→leb (n + left) 0 (omega arith))

pub read_at-none : (block : List ℕ) (i n : ℕ) → length block < i + n → read_at block i n ≡ none
unfolding read_at
read_at-none block i n h = if-false _ _ (lt→leb (i + n) (length block) h)

pub write_at-some :
    (block : List ℕ) (i : ℕ) (bytes : List ℕ)
    → i + length bytes ≤ length block
    → write_at block i bytes ≡ some (splice block i bytes)
unfolding write_at
write_at-some block i bytes h = if-true _ _ (le→leb (i + length bytes) (length block) h)

pub write_at-none :
    (block : List ℕ) (i : ℕ) (bytes : List ℕ)
    → length block < i + length bytes
    → write_at block i bytes ≡ none
unfolding write_at
write_at-none block i bytes h = if-false _ _ (lt→leb (i + length bytes) (length block) h)

-- A read in the middle of three parts.
pub read_at-middle :
    (xs ys zs : List ℕ) → read_at (xs ++ ys ++ zs) (length xs) (length ys) ≡ some ys
read_at-middle xs ys zs =
    read_at-some (xs ++ ys ++ zs) (length xs) (length ys)
      (omega (arith, length-append (xs ++ ys) zs, length-append xs ys))
    ∙ ap (λ all. some (take (length ys) (drop (length xs) all))) (append_assoc xs ys zs)
    ∙ ap (λ all. some (take (length ys) all)) (drop-append_self xs (ys ++ zs))
    ∙ ap some (take-append_self ys zs)

-- As many bytes written over the middle one.
pub write_at-middle :
    (xs ys zs bytes : List ℕ)
    → length bytes ≡ length ys
    → write_at (xs ++ ys ++ zs) (length xs) bytes ≡ some (xs ++ bytes ++ zs)
write_at-middle xs ys zs bytes e =
    let all = length-append (xs ++ ys) zs in
    let two = length-append xs ys in
    let end : length xs + length bytes ≡ length (xs ++ ys) = omega (arith, two, e) in
    write_at-some (xs ++ ys ++ zs) (length xs) bytes (omega (arith, all, two, e))
    ∙ ap
        (λ b.
          some (take (length xs) b ++ bytes ++ drop (length xs + length bytes) (xs ++ ys ++ zs)))
        (append_assoc xs ys zs)
    ∙ ap (λ b. some (b ++ bytes ++ drop (length xs + length bytes) (xs ++ ys ++ zs)))
        (take-append_self xs (ys ++ zs))
    ∙ ap (λ n. some (xs ++ bytes ++ drop n (xs ++ ys ++ zs))) end
    ∙ ap (λ b. some (xs ++ bytes ++ b)) (drop-append_self (xs ++ ys) zs)
