-- ===== src/YuvTools/Decode.antt =====
-- I420ToARGB of include/ryulib/yuv_tools.hpp. A block stands for the memory that a pointer is at the
-- start of, a number for a pointer that moves in it.
pub mod Safety
use ryulib_cpp.Common.{
  ℕ, zero, suc, ◌+◌, ◌-◌, ◌*◌, ◌/◌, Bool, true, false, Option, none, some, List, [], ◌∷◌, ◌>>=◌,
  if◌then◌else◌,
}
use ryulib_cpp.Common.Blocks.{write_at}
use ryulib_cpp.YuvTools.{red, green, blue}
use ryulib_cpp.YuvTools.Encode.{get_byte}

-- The parameters that do not change.
pub record Picture : Type 0 where
  pub src_y : List ℕ
  pub src_stride_y : ℕ
  pub src_u : List ℕ
  pub src_stride_u : ℕ
  pub src_v : List ℕ
  pub src_stride_v : ℕ
  pub dst_stride : ℕ
  pub width : ℕ
  pub height : ℕ

-- The pointers that the loops move.
pub record Cursor : Type 0 where
  pub y1 : ℕ
  pub y2 : ℕ
  pub u : ℕ
  pub v : ℕ
  pub out : ℕ
  pub out2 : ℕ

-- `o[0]`, `o[1]` and `o[2]`; the fourth byte is left as it was.
unfoldable pub put_pixel : List ℕ → ℕ → ℕ → ℕ → ℕ → Option (List ℕ)
put_pixel dst o y u v = write_at dst o (blue y u ∷ green y u v ∷ red y v ∷ [])

-- The body of the inner loop, but for the moves.
pub put_square : Picture → Cursor → List ℕ → Option (List ℕ)
put_square s c dst = get_byte s.src_y c.y1 >>= λ a₁. get_byte s.src_y (c.y1 + 1) >>= λ b₁.
    get_byte s.src_y c.y2 >>= λ a₂. get_byte s.src_y (c.y2 + 1) >>= λ b₂.
    get_byte s.src_u c.u >>= λ u. get_byte s.src_v c.v >>= λ v.
    put_pixel dst c.out a₁ u v >>= λ dst. put_pixel dst (c.out + 4) b₁ u v >>= λ dst.
    put_pixel dst c.out2 a₂ u v >>= λ dst. put_pixel dst (c.out2 + 4) b₂ u v

unfoldable pub next_square : Cursor → Cursor
next_square c = record {
  y1 = c.y1 + 2;
  y2 = c.y2 + 2;
  u = c.u + 1;
  v = c.v + 1;
  out = c.out + 8;
  out2 = c.out2 + 8;
}

-- The inner loop, with `n` squares to go.
pub put_row : ℕ → Picture → Cursor → List ℕ → Option (Cursor × List ℕ)
unfolding next_square
put_row zero s c dst = some (c, dst)
put_row (suc n) s c dst = put_square s c dst >>= λ dst. put_row n s (next_square c) dst

-- The moves behind the inner loop. It has moved each source pointer by at least what is taken off.
unfoldable pub next_row : Picture → Cursor → Cursor
next_row s c = record {
  y1 = c.y1 + 2 * s.src_stride_y - s.width;
  y2 = c.y2 + 2 * s.src_stride_y - s.width;
  u = c.u + s.src_stride_u - (s.width + 1) / 2;
  v = c.v + s.src_stride_v - (s.width + 1) / 2;
  out = c.out + s.dst_stride;
  out2 = c.out2 + s.dst_stride;
}

-- The outer loop, with `n` pairs of rows to go.
pub put_rows : ℕ → Picture → Cursor → List ℕ → Option (List ℕ)
unfolding next_row
put_rows zero s c dst = some dst
put_rows (suc n) s c dst =
    put_row ((s.width + 1) / 2) s c dst >>= λ (c, dst). put_rows n s (next_row s c) dst

abbrev pub start : Picture → Cursor
start s = record { y1 = 0; y2 = s.src_stride_y; u = 0; v = 0; out = 0; out2 = s.dst_stride }

-- `some_null` says whether one of the pointers is null.
pub i420_to_argb : Bool → Picture → List ℕ → Option (Bool × List ℕ)
i420_to_argb some_null s dst =
    if some_null
    then some (false, dst)
    else (put_rows ((s.height + 1) / 2) s (start s) dst >>= λ dst. some (true, dst))
