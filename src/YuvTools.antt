-- ===== src/YuvTools.antt =====
-- include/ryulib/yuv_tools.hpp: colours of one pixel, from RGB to YUV and back.
-- A byte is a number below 256; a block of memory is the list of its bytes.
pub mod Colors
pub mod Encode
pub mod Decode
mod Tests
use ryulib_cpp.Common.{
  ℕ, ◌+◌, ◌-◌, ◌*◌, ◌/◌, ◌%◌, ◌^◌, Bool, true, false, Option, none, some, List, [], ◌∷◌,
  if◌then◌else◌, ltb, ◌>>=◌,
}
use ryulib_cpp.Common.Int.{ℤ, pos, negsuc, sub_ℕ, ◌+ℤ◌}

-- The macros `rgbtoy` and `rgbtoyuv`, whose results are cast to `unsigned char`. The sums for u and
-- v are those of the code in another order; for bytes none is below zero.
unfoldable pub rgbtoy : ℕ → ℕ → ℕ → ℕ
rgbtoy b g r = (30 * r + 59 * g + 11 * b) / 100 % 2 ^ 8

unfoldable pub rgbtou : ℕ → ℕ → ℕ → ℕ
rgbtou b g r = (50 * b + 12800 - 33 * g - 17 * r) / 100 % 2 ^ 8

unfoldable pub rgbtov : ℕ → ℕ → ℕ → ℕ
rgbtov b g r = (50 * r + 12800 - 42 * g - 8 * b) / 100 % 2 ^ 8

-- The tables, which are read at bytes only.
unfoldable pub map_yc : ℕ → ℤ
map_yc i = sub_ℕ (298 * i) (298 * 16)

unfoldable pub map_ucg : ℕ → ℤ
map_ucg i = sub_ℕ (100 * 128) (100 * i)

unfoldable pub map_ucb : ℕ → ℤ
map_ucb i = sub_ℕ (516 * i) (516 * 128)

unfoldable pub map_vcr : ℕ → ℤ
map_vcr i = sub_ℕ (409 * i) (409 * 128)

unfoldable pub map_vcg : ℕ → ℤ
map_vcg i = sub_ℕ (208 * 128) (208 * i)

-- `>> 8` of an `int`, which rounds down.
abbrev pub shift_8 : ℤ → ℤ
shift_8 (pos n) = pos (n / 256)
shift_8 (negsuc n) = negsuc (n / 256)

unfoldable pub clip : ℤ → ℕ
clip (pos n) = if ltb 255 n then 255 else n
clip (negsuc n) = 0

-- `Clip(tmp_r)`, `Clip(tmp_g)` and `Clip(tmp_b)`.
unfoldable pub red : ℕ → ℕ → ℕ
red y v = clip (shift_8 (map_yc y +ℤ map_vcr v +ℤ pos 128))

unfoldable pub green : ℕ → ℕ → ℕ → ℕ
green y u v = clip (shift_8 (map_yc y +ℤ map_ucg u +ℤ map_vcg v +ℤ pos 128))

unfoldable pub blue : ℕ → ℕ → ℕ
blue y u = clip (shift_8 (map_yc y +ℤ map_ucb u +ℤ pos 128))
