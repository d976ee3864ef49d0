-- ===== src/DesktopCapture/Area.antt =====
-- The bitmap of a DesktopCaptureOption.
use ryulib_cpp.Common.{ℕ, ◌+◌, ◌*◌, ◌%◌, ◌^◌, ◌≤◌, ◌<◌, ◌≡◌, refl, sym, subst, ◌∙◌, some, arith}
use ryulib_cpp.DesktopCapture.{
  DesktopCaptureOption, Rect, new_option, set_left, set_top, round_up, bytes_of, set_width,
  set_height, set_target_handle, bitmap_pixel_size,
}

-- The bitmap holds the area in whole cells of eight by two pixels, with less than a cell to spare.
pub record IsValid (o : DesktopCaptureOption) : Type 0 where
  pub wide : (o.width ≤ o.bitmap_width) × (o.bitmap_width < o.width + 8)
  pub high : (o.height ≤ o.bitmap_height) × (o.bitmap_height < o.height + 2)
  pub cells : (o.bitmap_width % 8 ≡ 0) × (o.bitmap_height % 2 ≡ 0)
  pub bytes : o.bitmap_size ≡ o.bitmap_width * o.bitmap_height * bitmap_pixel_size

round_up-wide : (n : ℕ) → (n ≤ round_up n 8) × (round_up n 8 < n + 8) × (round_up n 8 % 8 ≡ 0)
unfolding round_up
round_up-wide n = (ground arith, ground arith, ground arith)

round_up-high : (n : ℕ) → (n ≤ round_up n 2) × (round_up n 2 < n + 2) × (round_up n 2 % 2 ≡ 0)
unfolding round_up
round_up-high n = (ground arith, ground arith, ground arith)

bytes_of-some :
    (w h : ℕ) → w * h * bitmap_pixel_size < 2 ^ 31 → bytes_of w h ≡ some (w * h * bitmap_pixel_size)
unfolding bytes_of
bytes_of-some w h p = ground arith

set_width-IsValid :
    (o : DesktopCaptureOption) (n : ℕ)
    → IsValid o
    → round_up n 8 * o.bitmap_height * bitmap_pixel_size < 2 ^ 31
    → (o' : DesktopCaptureOption) × (set_width o n ≡ some o')
      × (o'.width ≡ n)
      × (o'.bitmap_width ≡ round_up n 8)
      × IsValid o'
unfolding set_width
set_width-IsValid o n v p =
    let (low, high, cells) = round_up-wide n in
    (
      record o {
        width = n;
        bitmap_width = round_up n 8;
        bitmap_size = round_up n 8 * o.bitmap_height * bitmap_pixel_size;
      },
      rw (bytes_of-some (round_up n 8) o.bitmap_height p),
      refl,
      refl,
      record { wide = (low, high); high = v.high; cells = (cells, v.cells.1); bytes = refl },
    )

set_height-IsValid :
    (o : DesktopCaptureOption) (n : ℕ)
    → IsValid o
    → o.bitmap_width * round_up n 2 * bitmap_pixel_size < 2 ^ 31
    → (o' : DesktopCaptureOption) × (set_height o n ≡ some o')
      × (o'.width ≡ o.width)
      × (o'.height ≡ n)
      × IsValid o'
unfolding set_height
set_height-IsValid o n v p =
    let (low, high, cells) = round_up-high n in
    (
      record o {
        height = n;
        bitmap_height = round_up n 2;
        bitmap_size = o.bitmap_width * round_up n 2 * bitmap_pixel_size;
      },
      rw (bytes_of-some o.bitmap_width (round_up n 2) p),
      refl,
      refl,
      record { wide = v.wide; high = (low, high); cells = (v.cells.0, cells); bytes = refl },
    )

-- For an option whose bitmap holds its area in whole cells of eight by two pixels, with less than a
-- cell to spare, and counts that stay an int, setTargetHandle on a window takes the size of the
-- window and leaves such an option, with the size in bytes of its bitmap.
pub set_target_handle-IsValid :
    (window_rect : ℕ → Rect) (o : DesktopCaptureOption) (h : ℕ)
    → IsValid o
    → round_up (window_rect h).rect_width 8 * o.bitmap_height * bitmap_pixel_size < 2 ^ 31
    → round_up (window_rect h).rect_width 8
        * round_up (window_rect h).rect_height 2
        * bitmap_pixel_size
      < 2 ^ 31
    → (o' : DesktopCaptureOption) × (set_target_handle window_rect o (some h) ≡ some o')
      × (o'.width ≡ (window_rect h).rect_width)
      × (o'.height ≡ (window_rect h).rect_height)
      × IsValid o'
unfolding set_target_handle set_left set_top
set_target_handle-IsValid window_rect o h v p q =
    let rect = window_rect h in
    let moved : DesktopCaptureOption = record o {
      target_handle = some h;
      left = rect.rect_left;
      top = rect.rect_top;
    } in
    let moved-IsValid : IsValid moved = record {
      wide = v.wide;
      high = v.high;
      cells = v.cells;
      bytes = v.bytes;
    } in
    let (o₁, e₁, w₁, b₁, v₁) = set_width-IsValid moved rect.rect_width moved-IsValid p in
    let (o₂, e₂, w₂, h₂, v₂) =
      set_height-IsValid o₁ rect.rect_height v₁
        (subst (λ b. b * round_up rect.rect_height 2 * bitmap_pixel_size < 2 ^ 31) (sym b₁) q) in
    (o₂, rw e₁ e₂, w₂ ∙ w₁, h₂, v₂)

pub new_option-IsValid : IsValid new_option
new_option-IsValid = record {
  wide = (omega arith, omega arith);
  high = (omega arith, omega arith);
  cells = (refl, refl);
  bytes = refl;
}
