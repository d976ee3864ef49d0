-- ===== src/YuvTools/Encode.antt =====
-- RGBtoYUV420 of include/ryulib/yuv_tools.hpp. `rgb` and `yuv` are the blocks that its pointers are
-- at the start of; a read or a write outside of them is `none`.
pub mod Safety
pub mod Odd
use ryulib_cpp.Common.{
  ℕ, zero, suc, ◌+◌, ◌-◌, ◌*◌, ◌/◌, ◌≤◌, ◌<◌, ◌≡◌, refl, sym, ap, subst, ◌∙◌, Option, none, some,
  List, [], ◌∷◌, arith, length, ◌>>=◌, if◌then◌else◌, leb, le→leb, get_or,
}
use ryulib_cpp.Common.Blocks.{mul_int, write_at, splice, length-splice}
use ryulib_cpp.YuvTools.{rgbtoy, rgbtou, rgbtov}

-- `block[i]`.
unfoldable pub get_byte : List ℕ → ℕ → Option ℕ
get_byte block i = if leb (i + 1) (length block) then some (get_or block i 0) else none

-- `rgbtoyuv` at `rgbIndex`, for the pointers `*yline`, `*uline` and `*vline`.
pub convert_pixel : List ℕ → ℕ → List ℕ → ℕ → ℕ → ℕ → Option (List ℕ)
convert_pixel rgb p yuv y u v = get_byte rgb p >>= λ b. get_byte rgb (p + 1) >>= λ g.
    get_byte rgb (p + 2) >>= λ r. write_at yuv y (rgbtoy b g r ∷ []) >>= λ yuv.
    write_at yuv u (rgbtou b g r ∷ []) >>= λ yuv. write_at yuv v (rgbtov b g r ∷ [])

-- The inner loop, with `n` pairs of pixels to go; also where `rgbIndex` is after it.
pub convert_row : ℕ → ℕ → List ℕ → ℕ → List ℕ → ℕ → ℕ → ℕ → Option (ℕ × List ℕ)
convert_row zero pixel_size rgb p yuv y u v = some (p, yuv)
convert_row (suc n) pixel_size rgb p yuv y u v = convert_pixel rgb p yuv y u v >>= λ yuv.
    convert_pixel rgb (p + pixel_size) yuv (y + 1) u v >>= λ yuv.
    convert_row n pixel_size rgb (p + pixel_size + pixel_size) yuv (y + 2) (u + 1) (v + 1)

-- The outer loop, with `n` rows to go. `y * srcFrameWidth` is a product of two values of `int`;
-- `plane_size` and `half_width` are unsigned.
pub convert_rows : ℕ → ℕ → ℕ → ℕ → List ℕ → ℕ → List ℕ → ℕ → Option (List ℕ)
convert_rows zero width plane_size pixel_size rgb p yuv y = some yuv
convert_rows (suc n) width plane_size pixel_size rgb p yuv y =
    let half_width = width / 2 in
    mul_int y width >>= λ line.
    convert_row ((width + 1) / 2) pixel_size rgb p yuv line (plane_size + y / 2 * half_width)
      (plane_size + plane_size / 4 + y / 2 * half_width)
    >>= λ (p, yuv). convert_rows n width plane_size pixel_size rgb p yuv (y + 1)

pub rgb_to_yuv420 : List ℕ → List ℕ → ℕ → ℕ → ℕ → Option (List ℕ)
rgb_to_yuv420 rgb yuv width height pixel_size = mul_int width height >>= λ plane_size.
    convert_rows height width plane_size pixel_size rgb 0 yuv 0
