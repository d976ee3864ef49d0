-- ===== src/SocketUtils/Reader.antt =====
-- PacketReader of SocketUtils.hpp, one call at a time.
use ryulib_cpp.Common.{
  ℕ, zero, suc, ◌+◌, ◌-◌, ◌*◌, ◌≤◌, ◌<◌, ◌≡◌, refl, sym, ap, ◌∙◌, true, false, none, some, List, [],
  ◌∷◌, ◌++◌, append-nil, arith, ◌⊎◌, length, take, drop, length-take, take-append-drop, take-take,
  drop-take, if-true, lt→ltb, bind-none, ◌>>=◌,
}
use ryulib_cpp.Common.Blocks.{
  memcpy, splice, take-splice, length-splice, memcpy-whole, memcpy-some, memcpy_within-down,
  memcpy_within-overlap, memcpy-none,
}
use ryulib_cpp.SocketUtils.{
  packet_size, packet_limit, PacketReader, new_reader, write, can_read, move_down, read,
}

-- The blocks have the sizes that the constructor asked for, and `size_` is within the first.
pub record IsValid (r : PacketReader) : Type 0 where
  pub buffer_block : length r.buffer ≡ packet_limit * 2
  pub out_block : length r.out ≡ packet_limit + 4
  pub inside : r.size ≤ packet_limit * 2

-- The bytes that were written and not yet read.
abbrev pub pending : PacketReader → List ℕ
pending r = take r.size r.buffer

pub length-pending : (r : PacketReader) → IsValid r → length (pending r) ≡ r.size
length-pending r v = omega (arith, length-take r.size r.buffer, v.buffer_block, v.inside)

pub packet_size-append : (xs ys : List ℕ) → 2 ≤ length xs → packet_size (xs ++ ys) ≡ packet_size xs
packet_size-append [] ys h = absurd (omega arith)
packet_size-append (x ∷ []) ys h = absurd (omega arith)
packet_size-append (x ∷ y ∷ xs) ys h = refl

-- With a header in the buffer, its size field is that of the bytes written.
pub packet_size-pending :
    (r : PacketReader) → IsValid r → 3 ≤ r.size → packet_size r.buffer ≡ packet_size (pending r)
packet_size-pending r v h =
    ap packet_size (sym (take-append-drop r.size r.buffer))
    ∙ packet_size-append (pending r) (drop r.size r.buffer) (omega (arith, length-pending r v))

-- The constructor's reader holds nothing, whatever malloc left in its blocks.
pub new_reader-IsValid :
    (buffer out : List ℕ)
    → length buffer ≡ packet_limit * 2
    → length out ≡ packet_limit + 4
    → IsValid (new_reader buffer out) × (pending (new_reader buffer out) ≡ [])
unfolding new_reader
new_reader-IsValid buffer out hb ho =
    (record { buffer_block = hb; out_block = ho; inside = omega arith }, refl)

-- On a valid PacketReader, write of bytes that fit its buffer puts them behind the pending ones and
-- leaves the reader valid.
pub write-pending :
    (r : PacketReader) (bytes : List ℕ)
    → IsValid r
    → r.size + length bytes ≤ packet_limit * 2
    → (r' : PacketReader) × (write r bytes ≡ some r')
      × (pending r' ≡ pending r ++ bytes)
      × IsValid r'
unfolding write
write-pending r [] v h = (r, refl, sym (append-nil (pending r)), v)
write-pending r (x ∷ xs) v h =
    let bytes = x ∷ xs in
    let fits : r.size + length bytes ≤ length r.buffer = omega (arith, v.buffer_block) in
    (
      record r { buffer = splice r.buffer r.size bytes; size = r.size + length bytes },
      ground (arith, memcpy-whole r.buffer bytes r.size fits),
      take-splice r.buffer r.size bytes fits,
      record {
        buffer_block = length-splice r.buffer r.size bytes fits ∙ v.buffer_block;
        out_block = v.out_block;
        inside = h;
      },
    )

-- A write past `PACKET_LIMIT * 2` bytes leaves the block: `write` has no guard.
pub write_overflows :
    (r : PacketReader) (bytes : List ℕ)
    → IsValid r
    → packet_limit * 2 < r.size + length bytes
    → write r bytes ≡ none
unfolding write
write_overflows r bytes v h =
    ground (arith, v.buffer_block, v.inside, memcpy-none r.buffer bytes r.size 0 (length bytes))

-- What `can_read` tests, read off the pending bytes.
pub can_read-true :
    (r : PacketReader)
    → IsValid r
    → can_read r ≡ true
    → (3 ≤ r.size) × (packet_size (pending r) ≤ r.size)
unfolding can_read
can_read-true r v h = ground (arith, packet_size-pending r v)

pub can_read-false :
    (r : PacketReader)
    → IsValid r
    → can_read r ≡ false
    → (r.size < 3) ⊎ ((3 ≤ r.size) × (r.size < packet_size (pending r)))
unfolding can_read
can_read-false r v h = ground (arith, packet_size-pending r v)

-- The bytes behind the packet come to the front of the buffer, at its length.
move_down-some :
    (r : PacketReader) (n left : ℕ)
    → n + left ≤ length r.buffer
    → left ≤ n
    → (r' : PacketReader) × (move_down r n left ≡ some r')
      × (r'.size ≡ left)
      × (r'.out ≡ r.out)
      × (take left r'.buffer ≡ take left (drop n r.buffer))
      × (length r'.buffer ≡ length r.buffer)
unfolding move_down
move_down-some r n zero h k = (record r { size = 0 }, refl, refl, refl, refl, refl)
move_down-some r n (suc m) h k =
    let (block, e, moved, size) = memcpy_within-down r.buffer n (suc m) h k in
    (record r { buffer = block; size = suc m }, ground (arith, e), refl, refl, moved, size)

read-some :
    (r : PacketReader) (n : ℕ)
    → IsValid r
    → can_read r ≡ true
    → packet_size r.buffer ≡ n
    → n ≤ r.size
    → n ≤ packet_limit + 4
    → r.size ≤ n + n
    → (out : List ℕ) × (r' : PacketReader) × (read r ≡ some (some out, r'))
      × (take n out ≡ take n (pending r))
      × (pending r' ≡ drop n (pending r))
      × IsValid r'
unfolding read
read-some r n v c en fits h two =
    let out = splice r.out 0 (take n r.buffer) in
    let size : length (take n r.buffer) ≡ n =
      omega (arith, length-take n r.buffer, v.buffer_block, v.inside) in
    let room : 0 + length (take n r.buffer) ≤ length r.out = omega (arith, v.out_block) in
    let at_start : n ≡ 0 + length (take n r.buffer) = omega arith in
    let whole : n + (r.size - n) ≡ r.size = omega arith in
    let (r', e, es, eo, eb, el) =
      move_down-some (record r { out = out }) n (r.size - n)
        (omega (arith, v.buffer_block, v.inside)) (omega arith) in
    (
      out,
      r',
      rw (
        c,
        en,
        memcpy-some r.out r.buffer 0 0 n (omega (arith, v.out_block))
            (omega (arith, v.buffer_block, v.inside)),
        e,
      ),
      ap (λ j. take j out) at_start
          ∙ take-splice r.out 0 (take n r.buffer) room
          ∙ sym (take-take n r.size r.buffer fits),
      rw es eb ∙ sym (drop-take n (r.size - n) r.buffer) ∙ ap (λ j. drop n (take j r.buffer)) whole,
      record {
        buffer_block = el ∙ v.buffer_block;
        out_block = ap length eo ∙ length-splice r.out 0 (take n r.buffer) room ∙ v.out_block;
        inside = omega (arith, v.inside);
      },
    )

-- On a valid PacketReader with a complete packet that fits data_ and at most as many bytes behind
-- it, read returns a block that begins
-- with the packet, keeps the bytes behind it, and leaves the reader valid.
pub read-pending :
    (r : PacketReader)
    → IsValid r
    → can_read r ≡ true
    → packet_size (pending r) ≤ packet_limit + 4
    → r.size ≤ packet_size (pending r) + packet_size (pending r)
    → (out : List ℕ) × (r' : PacketReader) × (read r ≡ some (some out, r'))
      × (take (packet_size (pending r)) out ≡ take (packet_size (pending r)) (pending r))
      × (pending r' ≡ drop (packet_size (pending r)) (pending r))
      × IsValid r'
read-pending r v c h two =
    let (long, fits) = can_read-true r v c in
    read-some r (packet_size (pending r)) v c (packet_size-pending r v long) fits h two

move_down-overlap : (r : PacketReader) (n left : ℕ) → n < left → move_down r n left ≡ none
unfolding move_down
move_down-overlap r n left h =
    let moved = memcpy_within-overlap r.buffer n left h in
    rw (if-true _ _ (lt→ltb 0 left (omega arith)), moved)

-- Where more bytes are behind a complete packet than it is long, the read of a valid PacketReader
-- moves them with memcpy onto a region that overlaps theirs: a fault, whatever the packet is.
pub read_overlaps :
    (r : PacketReader)
    → IsValid r
    → can_read r ≡ true
    → packet_size (pending r) + packet_size (pending r) < r.size
    → read r ≡ none
unfolding read
read_overlaps r v c h =
    let n = packet_size (pending r) in
    rw (c, packet_size-pending r v (can_read-true r v c).0)
      (bind-none (memcpy r.out 0 r.buffer 0 n) _ (λ out.
        ap (λ o. o >>= λ r'. some (some out, r'))
          (move_down-overlap (record r { out = out }) n (r.size - n) (omega arith))))

-- With no complete packet, `read` returns the null pointer and leaves the reader alone.
pub read-null : (r : PacketReader) → can_read r ≡ false → read r ≡ some (none, r)
unfolding read
read-null r c = rw c

-- A complete packet whose size field is over PACKET_LIMIT + 4 is copied past the end of data_: the
-- read of the PacketReader faults.
pub read_overflows :
    (r : PacketReader)
    → IsValid r
    → can_read r ≡ true
    → packet_limit + 4 < packet_size (pending r)
    → read r ≡ none
unfolding read
read_overflows r v c h =
    let (long, fits) = can_read-true r v c in
    rw (c, packet_size-pending r v long)
      (rw (memcpy-none r.out r.buffer 0 0 (packet_size (pending r)) (omega (arith, v.out_block))))

pub can_read-header :
    (r : PacketReader)
    → IsValid r
    → 3 ≤ r.size
    → packet_size (pending r) ≤ r.size
    → can_read r ≡ true
unfolding can_read
can_read-header r v h k = ground (arith, packet_size-pending r v)
