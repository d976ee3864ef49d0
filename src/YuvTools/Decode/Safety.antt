-- ===== src/YuvTools/Decode/Safety.antt =====
-- I420ToARGB stays within its blocks.
use ryulib_cpp.Common.{
  ℕ, zero, suc, ◌+◌, ◌*◌, ◌/◌, ◌≤◌, ◌≡◌, refl, ap, ◌∙◌, some, List, [], ◌∷◌, arith, true, false,
  length, le→leb, get_or,
}
use ryulib_cpp.Common.Blocks.{write_at, splice, length-splice}
use ryulib_cpp.YuvTools.{red, green, blue}
use ryulib_cpp.YuvTools.Encode.Safety.{get_byte-some}
use ryulib_cpp.YuvTools.Decode.{
  Picture, Cursor, put_pixel, put_square, next_square, put_row, next_row, put_rows, start,
  i420_to_argb,
}

put_pixel-some :
    (dst : List ℕ) (o y u v : ℕ)
    → o + 3 ≤ length dst
    → (dst' : List ℕ) × (put_pixel dst o y u v ≡ some dst') × (length dst' ≡ length dst)
unfolding put_pixel write_at
put_pixel-some dst o y u v h =
    let bytes = blue y u ∷ green y u v ∷ red y v ∷ [] in
    (splice dst o bytes, rw (le→leb (o + 3) (length dst) h), length-splice dst o bytes h)

-- `n` more squares lie in the blocks.
record Fits (n : ℕ) (s : Picture) (c : Cursor) (dst : List ℕ) : Type 0 where
  pub y1 : c.y1 + 2 * n ≤ length s.src_y
  pub y2 : c.y2 + 2 * n ≤ length s.src_y
  pub u : c.u + n ≤ length s.src_u
  pub v : c.v + n ≤ length s.src_v
  pub out : c.out + 8 * n ≤ length dst
  pub out2 : c.out2 + 8 * n ≤ length dst

put_square-some :
    (s : Picture) (c : Cursor) (dst : List ℕ)
    → Fits 1 s c dst
    → (dst' : List ℕ) × (put_square s c dst ≡ some dst') × (length dst' ≡ length dst)
unfolding put_square
put_square-some s c dst f =
    let a₁ = get_or s.src_y c.y1 0 in
    let b₁ = get_or s.src_y (c.y1 + 1) 0 in
    let a₂ = get_or s.src_y c.y2 0 in
    let b₂ = get_or s.src_y (c.y2 + 1) 0 in
    let u = get_or s.src_u c.u 0 in
    let v = get_or s.src_v c.v 0 in
    let (d₁, e₁, l₁) = put_pixel-some dst c.out a₁ u v (omega (arith, f.out)) in
    let (d₂, e₂, l₂) = put_pixel-some d₁ (c.out + 4) b₁ u v (omega (arith, f.out, l₁)) in
    let (d₃, e₃, l₃) = put_pixel-some d₂ c.out2 a₂ u v (omega (arith, f.out2, l₁, l₂)) in
    let (d₄, e₄, l₄) = put_pixel-some d₃ (c.out2 + 4) b₂ u v (omega (arith, f.out2, l₁, l₂, l₃)) in
    (
      d₄,
      rw
          (
            get_byte-some s.src_y c.y1 (omega (arith, f.y1)),
            get_byte-some s.src_y (c.y1 + 1) (omega (arith, f.y1)),
            get_byte-some s.src_y c.y2 (omega (arith, f.y2)),
            get_byte-some s.src_y (c.y2 + 1) (omega (arith, f.y2)),
            get_byte-some s.src_u c.u (omega (arith, f.u)),
            get_byte-some s.src_v c.v (omega (arith, f.v)),
            e₁,
            e₂,
            e₃,
          )
          e₄,
      l₄ ∙ l₃ ∙ l₂ ∙ l₁,
    )

-- The cursor, `n` squares further.
abbrev ahead : ℕ → Cursor → Cursor
ahead n c = record {
  y1 = c.y1 + 2 * n;
  y2 = c.y2 + 2 * n;
  u = c.u + n;
  v = c.v + n;
  out = c.out + 8 * n;
  out2 = c.out2 + 8 * n;
}

Cursor-eq :
    (c d : Cursor)
    → c.y1 ≡ d.y1
    → c.y2 ≡ d.y2
    → c.u ≡ d.u
    → c.v ≡ d.v
    → c.out ≡ d.out
    → c.out2 ≡ d.out2
    → c ≡ d
Cursor-eq c d e₁ e₂ e₃ e₄ e₅ e₆ i = record {
  y1 = e₁ i;
  y2 = e₂ i;
  u = e₃ i;
  v = e₄ i;
  out = e₅ i;
  out2 = e₆ i;
}

put_row-next :
    (n : ℕ) (s : Picture) (c : Cursor) (dst dst' : List ℕ)
    → put_square s c dst ≡ some dst'
    → put_row (suc n) s c dst ≡ put_row n s (next_square c) dst'
unfolding put_row
put_row-next n s c dst dst' e = rw e

put_row-some :
    (n : ℕ) (s : Picture) (c : Cursor) (dst : List ℕ)
    → Fits n s c dst
    → (dst' : List ℕ) × (put_row n s c dst ≡ some (ahead n c, dst')) × (length dst' ≡ length dst)
unfolding put_row next_square
put_row-some zero s c dst f =
    let stay : c ≡ ahead 0 c =
      Cursor-eq c (ahead 0 c) (omega arith) (omega arith) (omega arith) (omega arith) (omega arith)
        (omega arith) in
    (dst, ap (λ d. some (d, dst)) stay, refl)
put_row-some (suc n) s c dst f =
    let (d₁, e₁, l₁) = put_square-some s c dst (record {
      y1 = omega (arith, f.y1);
      y2 = omega (arith, f.y2);
      u = omega (arith, f.u);
      v = omega (arith, f.v);
      out = omega (arith, f.out);
      out2 = omega (arith, f.out2);
    }) in
    let (d₂, e₂, l₂) = put_row-some n s (next_square c) d₁ (record {
      y1 = omega (arith, f.y1);
      y2 = omega (arith, f.y2);
      u = omega (arith, f.u);
      v = omega (arith, f.v);
      out = omega (arith, f.out, l₁);
      out2 = omega (arith, f.out2, l₁);
    }) in
    let place : ahead n (next_square c) ≡ ahead (suc n) c =
      Cursor-eq (ahead n (next_square c)) (ahead (suc n) c) (omega arith) (omega arith)
        (omega arith) (omega arith) (omega arith) (omega arith) in
    (d₂, put_row-next n s c dst d₁ e₁ ∙ e₂ ∙ ap (λ d. some (d, d₂)) place, l₂ ∙ l₁)

-- A picture of 2a columns whose strides hold a row, and of pixels of four bytes without padding.
pub record IsEven (a : ℕ) (s : Picture) : Type 0 where
  pub width : s.width ≡ 2 * a
  pub stride_y : 2 * a ≤ s.src_stride_y
  pub stride_u : a ≤ s.src_stride_u
  pub stride_v : a ≤ s.src_stride_v
  pub dst_stride : s.dst_stride ≡ 8 * a

-- `n` more pairs of rows lie in the blocks.
pub record RowsFit (n a : ℕ) (s : Picture) (c : Cursor) (dst : List ℕ) : Type 0 where
  pub y1 : c.y1 + n * (2 * s.src_stride_y) ≤ length s.src_y
  pub y2 : c.y2 ≡ c.y1 + s.src_stride_y
  pub u : c.u + n * s.src_stride_u ≤ length s.src_u
  pub v : c.v + n * s.src_stride_v ≤ length s.src_v
  pub out : c.out + n * (16 * a) ≤ length dst
  pub out2 : c.out2 ≡ c.out + 8 * a

put_rows-next :
    (n a : ℕ) (s : Picture) (c c' : Cursor) (dst dst' : List ℕ)
    → s.width ≡ 2 * a
    → put_row a s c dst ≡ some (c', dst')
    → put_rows (suc n) s c dst ≡ put_rows n s (next_row s c') dst'
unfolding put_rows
put_rows-next n a s c c' dst dst' w e =
    let pairs : (s.width + 1) / 2 ≡ a = omega arith in rw (pairs, e)

put_rows-some :
    (n a : ℕ) (s : Picture) (c : Cursor) (dst : List ℕ)
    → IsEven a s
    → RowsFit n a s c dst
    → (dst' : List ℕ) × (put_rows n s c dst ≡ some dst') × (length dst' ≡ length dst)
unfolding put_rows next_row
put_rows-some zero a s c dst v f = (dst, refl, refl)
put_rows-some (suc n) a s c dst v f =
    let (d₁, e₁, l₁) = put_row-some a s c dst (record {
      y1 = omega (arith, f.y1, v.stride_y);
      y2 = omega (arith, f.y1, f.y2, v.stride_y);
      u = omega (arith, f.u, v.stride_u);
      v = omega (arith, f.v, v.stride_v);
      out = omega (arith, f.out);
      out2 = omega (arith, f.out, f.out2);
    }) in
    let (d₂, e₂, l₂) = put_rows-some n a s (next_row s (ahead a c)) d₁ v (record {
      y1 = omega (arith, f.y1, v.width);
      y2 = omega (arith, f.y2, v.width);
      u = omega (arith, f.u, v.width);
      v = omega (arith, f.v, v.width);
      out = omega (arith, f.out, l₁, v.dst_stride);
      out2 = omega (arith, f.out2, v.dst_stride);
    }) in
    (d₂, put_rows-next n a s c (ahead a c) dst d₁ v.width e₁ ∙ e₂, l₂ ∙ l₁)

i420_to_argb-rows :
    (b : ℕ) (s : Picture) (dst dst' : List ℕ)
    → (s.height + 1) / 2 ≡ b
    → put_rows b s (start s) dst ≡ some dst'
    → i420_to_argb false s dst ≡ some (true, dst')
unfolding i420_to_argb
i420_to_argb-rows b s dst dst' h e = rw (h, e)

-- For a picture of an even number of columns and rows whose strides hold a row, with pixels of four
-- bytes without padding in the result, and for blocks of the size that the strides and the rows ask
-- for, I420ToARGB with no null pointer answers true without an access outside its blocks.
pub i420_to_argb-some :
    (a b : ℕ) (s : Picture) (dst : List ℕ)
    → IsEven a s
    → s.height ≡ 2 * b
    → b * (2 * s.src_stride_y) ≤ length s.src_y
    → b * s.src_stride_u ≤ length s.src_u
    → b * s.src_stride_v ≤ length s.src_v
    → b * (16 * a) ≤ length dst
    → (dst' : List ℕ) × (i420_to_argb false s dst ≡ some (true, dst')) × (length dst' ≡ length dst)
i420_to_argb-some a b s dst v h hy hu hv hd =
    let pairs : (s.height + 1) / 2 ≡ b = omega arith in
    let (dst', e, l) = put_rows-some b a s (start s) dst v (record {
      y1 = omega arith;
      y2 = omega arith;
      u = omega arith;
      v = omega arith;
      out = omega arith;
      out2 = omega (arith, v.dst_stride);
    }) in
    (dst', i420_to_argb-rows b s dst dst' pairs e, l)
