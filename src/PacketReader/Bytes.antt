-- ===== src/PacketReader/Bytes.antt =====
-- PacketReader.hpp as a queue of bytes.
use ryulib_cpp.Common.{
  ℕ, zero, suc, ◌+◌, ◌-◌, ◌≤◌, ◌<◌, ◌≡◌, refl, sym, ap, ◌∙◌, true, false, none, some, List, [],
  ◌++◌, arith, length, take, drop, length-take, take-take, drop-take, bind-none, le→leb, lt→ltb,
}
use ryulib_cpp.Common.Blocks.{
  memcpy, splice, take-splice, length-splice, memcpy-some, memcpy-whole, memcpy-none,
  memcpy_within-down, memcpy_within-overlap,
}
use ryulib_cpp.PacketReader.{
  packetreader_buffer_size, PacketReader, new_reader, write, can_read, move_down, read,
}

-- The blocks have the sizes that the constructor asked for, and `size_` is within them.
pub record IsValid (r : PacketReader) : Type 0 where
  pub buffer_block : length r.buffer ≡ packetreader_buffer_size
  pub out_block : length r.out ≡ packetreader_buffer_size
  pub inside : r.size ≤ packetreader_buffer_size

abbrev pub pending : PacketReader → List ℕ
pending r = take r.size r.buffer

pub length-pending : (r : PacketReader) → IsValid r → length (pending r) ≡ r.size
length-pending r v = omega (arith, length-take r.size r.buffer, v.buffer_block, v.inside)

pub new_reader-IsValid :
    (buffer out : List ℕ)
    → length buffer ≡ packetreader_buffer_size
    → length out ≡ packetreader_buffer_size
    → IsValid (new_reader buffer out) × (pending (new_reader buffer out) ≡ [])
unfolding new_reader
new_reader-IsValid buffer out hb ho =
    (record { buffer_block = hb; out_block = ho; inside = omega arith }, refl)

-- `write` of bytes that fit puts them behind the pending ones.
pub write-pending :
    (r : PacketReader) (bytes : List ℕ)
    → IsValid r
    → r.size + length bytes ≤ packetreader_buffer_size
    → (r' : PacketReader) × (write r bytes ≡ some r')
      × (pending r' ≡ pending r ++ bytes)
      × IsValid r'
unfolding write
write-pending r bytes v h =
    let fits : r.size + length bytes ≤ length r.buffer = omega (arith, v.buffer_block) in
    (
      record r { buffer = splice r.buffer r.size bytes; size = r.size + length bytes },
      rw (memcpy-whole r.buffer bytes r.size fits),
      take-splice r.buffer r.size bytes fits,
      record {
        buffer_block = length-splice r.buffer r.size bytes fits ∙ v.buffer_block;
        out_block = v.out_block;
        inside = h;
      },
    )

-- A write past the end of the buffer leaves it: `write` has no guard.
pub write_overflows :
    (r : PacketReader) (bytes : List ℕ)
    → IsValid r
    → packetreader_buffer_size < r.size + length bytes
    → write r bytes ≡ none
unfolding write
write_overflows r bytes v h =
    rw (memcpy-none r.buffer bytes r.size 0 (length bytes) (omega (arith, v.buffer_block)))

move_down-some :
    (r : PacketReader) (n left : ℕ)
    → r.size ≡ left
    → n + left ≤ length r.buffer
    → left ≤ n
    → (r' : PacketReader) × (move_down r n ≡ some r')
      × (r'.size ≡ left)
      × (r'.out ≡ r.out)
      × (take left r'.buffer ≡ take left (drop n r.buffer))
      × (length r'.buffer ≡ length r.buffer)
unfolding move_down
move_down-some r n zero e h k = (r, ground arith, e, refl, refl, refl)
move_down-some r n (suc m) e h k =
    let (block, eb, moved, size) = memcpy_within-down r.buffer n (suc m) h k in
    (record r { buffer = block }, ground (arith, eb), e, refl, moved, size)

-- On a valid PacketReader, read of no more bytes than are pending and of at least half of them
-- returns a block that begins with those, keeps the others and leaves the reader valid, without a
-- fault.
pub read-pending_count :
    (r : PacketReader) (n : ℕ)
    → IsValid r
    → n ≤ r.size
    → r.size ≤ n + n
    → (out : List ℕ) × (r' : PacketReader) × (read r n ≡ some (some out, r'))
      × (take n out ≡ take n (pending r))
      × (pending r' ≡ drop n (pending r))
      × IsValid r'
unfolding read can_read
read-pending_count r n v h two =
    let out = splice r.out 0 (take n r.buffer) in
    let size : length (take n r.buffer) ≡ n =
      omega (arith, length-take n r.buffer, v.buffer_block, v.inside) in
    let room : 0 + length (take n r.buffer) ≤ length r.out = omega (arith, v.out_block, v.inside) in
    let at_start : n ≡ 0 + length (take n r.buffer) = omega arith in
    let whole : n + (r.size - n) ≡ r.size = omega arith in
    let copied =
      memcpy-some r.out r.buffer 0 0 n (omega (arith, v.out_block, v.inside))
        (omega (arith, v.buffer_block, v.inside)) in
    let (r', e, es, eo, eb, el) =
      move_down-some (record r { out = out; size = r.size - n }) n (r.size - n) refl
        (omega (arith, v.buffer_block, v.inside)) (omega arith) in
    (
      out,
      r',
      ground (arith, copied, e),
      ap (λ j. take j out) at_start
          ∙ take-splice r.out 0 (take n r.buffer) room
          ∙ sym (take-take n r.size r.buffer h),
      rw es eb ∙ sym (drop-take n (r.size - n) r.buffer) ∙ ap (λ j. drop n (take j r.buffer)) whole,
      record {
        buffer_block = el ∙ v.buffer_block;
        out_block = ap length eo ∙ length-splice r.out 0 (take n r.buffer) room ∙ v.out_block;
        inside = omega (arith, v.inside);
      },
    )

-- Where more than that stays behind, `memcpy` moves it onto itself, which is a fault.
pub read-overlap : (r : PacketReader) (n : ℕ) → n + n < r.size → read r n ≡ none
unfolding read can_read move_down
read-overlap r n h =
    let moved = memcpy_within-overlap r.buffer n (r.size - n) (omega arith) in
    rw (le→leb n r.size (omega arith), lt→ltb 0 (r.size - n) (omega arith), moved)
      (bind-none (memcpy r.out 0 r.buffer 0 n) _ (λ out. refl))

-- `read` of more than is pending returns the null pointer and changes nothing.
pub read-null : (r : PacketReader) (n : ℕ) → r.size < n → read r n ≡ some (none, r)
unfolding read can_read
read-null r n h = ground arith

pub can_read-true : (r : PacketReader) (n : ℕ) → can_read r n ≡ true → n ≤ r.size
unfolding can_read
can_read-true r n h = ground arith

pub can_read-false : (r : PacketReader) (n : ℕ) → can_read r n ≡ false → r.size < n
unfolding can_read
can_read-false r n h = ground arith

pub can_read-le : (r : PacketReader) (n : ℕ) → n ≤ r.size → can_read r n ≡ true
unfolding can_read
can_read-le r n h = ground arith
