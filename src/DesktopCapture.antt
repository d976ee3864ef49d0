-- ===== src/DesktopCapture.antt =====
-- include/ryulib/DesktopCapture.hpp: the DesktopCaptureOption, the area that is captured. Sizes are
-- not negative; the rectangle of a window is a parameter. A product past the range of `int` is `none`.
pub mod Area
use ryulib_cpp.Common.{
  ℕ, ◌+◌, ◌-◌, ◌*◌, ◌%◌, ◌^◌, Bool, true, false, Option, none, some, if◌then◌else◌, ◌==◌, ltb,
  ◌>>=◌,
}
use ryulib_cpp.Common.Int.{ℤ, pos, negsuc, ◌+ℤ◌}

abbrev pub bitmap_pixel_size : ℕ
bitmap_pixel_size = 4

abbrev pub bitmap_cell_width : ℕ
bitmap_cell_width = 8

abbrev pub bitmap_cell_height : ℕ
bitmap_cell_height = 2

-- `target_handle` is `none` for -1.
pub record DesktopCaptureOption : Type 0 where
  pub target_handle : Option ℕ
  pub left : ℤ
  pub top : ℤ
  pub width : ℕ
  pub height : ℕ
  pub bitmap_width : ℕ
  pub bitmap_height : ℕ
  pub bitmap_size : ℕ

pub record Rect : Type 0 where
  pub rect_left : ℤ
  pub rect_top : ℤ
  pub rect_width : ℕ
  pub rect_height : ℕ

abbrev pub new_option : DesktopCaptureOption
new_option = record {
  target_handle = none;
  left = pos 0;
  top = pos 0;
  width = 0;
  height = 0;
  bitmap_width = 0;
  bitmap_height = 0;
  bitmap_size = 0;
}

-- `getLeft` and `getTop`, with what `GetWindowRect` answers for a handle.
pub get_left : (ℕ → Rect) → DesktopCaptureOption → ℤ
get_left window_rect o = elim o.target_handle [ none ↦ o.left | some h ↦ (window_rect h).rect_left ]

pub get_top : (ℕ → Rect) → DesktopCaptureOption → ℤ
get_top window_rect o = elim o.target_handle [ none ↦ o.top | some h ↦ (window_rect h).rect_top ]

pub set_left : DesktopCaptureOption → ℤ → DesktopCaptureOption
set_left o value = record o { left = value }

pub set_top : DesktopCaptureOption → ℤ → DesktopCaptureOption
set_top o value = record o { top = value }

-- The rounding of `setWidth` and `setHeight`.
unfoldable pub round_up : ℕ → ℕ → ℕ
round_up value cell = if value % cell == 0 then value else value + (cell - value % cell)

unfoldable pub bytes_of : ℕ → ℕ → Option ℕ
bytes_of width height =
    let size = width * height * bitmap_pixel_size in if ltb size (2 ^ 31) then some size else none

pub set_width : DesktopCaptureOption → ℕ → Option DesktopCaptureOption
set_width o value = bytes_of (round_up value bitmap_cell_width) o.bitmap_height >>= λ size.
    some (record o {
      width = value;
      bitmap_width = round_up value bitmap_cell_width;
      bitmap_size = size;
    })

pub set_height : DesktopCaptureOption → ℕ → Option DesktopCaptureOption
set_height o value = bytes_of o.bitmap_width (round_up value bitmap_cell_height) >>= λ size.
    some (record o {
      height = value;
      bitmap_height = round_up value bitmap_cell_height;
      bitmap_size = size;
    })

pub set_target_handle : (ℕ → Rect) → DesktopCaptureOption → Option ℕ → Option DesktopCaptureOption
set_target_handle window_rect o none = some (record o { target_handle = none })
set_target_handle window_rect o (some h) =
    let rect = window_rect h in
    let moved =
      set_top (set_left (record o { target_handle = some h }) rect.rect_left) rect.rect_top in
    set_width moved rect.rect_width >>= λ wide. set_height wide rect.rect_height
