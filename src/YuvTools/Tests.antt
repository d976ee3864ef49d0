-- ===== src/YuvTools/Tests.antt =====
-- Pictures of two by two pixels, and one of a single column.
use ryulib_cpp.Common.{
  ℕ, ◌+◌, ◌-◌, ◌*◌, ◌/◌, ◌≡◌, refl, true, false, none, some, List, [], ◌∷◌, arith, length, min,
}
use ryulib_cpp.YuvTools.{red, green, blue}
use ryulib_cpp.YuvTools.Colors.{i420-colors}
use ryulib_cpp.YuvTools.Encode.{rgb_to_yuv420}
use ryulib_cpp.YuvTools.Encode.Safety.{rgb_to_yuv420-some}
use ryulib_cpp.YuvTools.Encode.Odd.{rgb_to_yuv420-odd}
use ryulib_cpp.YuvTools.Decode.{Picture, i420_to_argb}
use ryulib_cpp.YuvTools.Decode.Safety.{IsEven, i420_to_argb-some}

i420-colors_example :
    (red 100 200 ≡ min 255 ((298 * 100 + 409 * 200 + 128 - 57120) / 256))
    × (green 100 50 200 ≡ min 255 ((298 * 100 + 39552 - (4768 + 100 * 50 + 208 * 200)) / 256))
    × (blue 100 50 ≡ min 255 ((298 * 100 + 516 * 50 + 128 - 70816) / 256))
i420-colors_example = i420-colors 100 50 200

abbrev pixels : List ℕ
pixels = 1 ∷ 2 ∷ 3 ∷ 4 ∷ 5 ∷ 6 ∷ 7 ∷ 8 ∷ 9 ∷ 10 ∷ 11 ∷ 12 ∷ []

abbrev planes : List ℕ
planes = 0 ∷ 0 ∷ 0 ∷ 0 ∷ 0 ∷ 0 ∷ []

rgb_to_yuv420-some_example :
    (yuv' : List ℕ) × (rgb_to_yuv420 pixels planes 2 2 3 ≡ some yuv') × (length yuv' ≡ 6)
rgb_to_yuv420-some_example =
    rgb_to_yuv420-some pixels planes 1 1 3 (omega arith) (omega arith) (omega arith) (omega arith)

-- One column and four rows.
rgb_to_yuv420-odd_example : rgb_to_yuv420 pixels planes 1 4 3 ≡ none
rgb_to_yuv420-odd_example = rgb_to_yuv420-odd pixels planes 0 3 3 (omega arith) refl

abbrev picture : Picture
picture = record {
  src_y = 16 ∷ 235 ∷ 100 ∷ 50 ∷ [];
  src_stride_y = 2;
  src_u = 128 ∷ [];
  src_stride_u = 1;
  src_v = 90 ∷ [];
  src_stride_v = 1;
  dst_stride = 8;
  width = 2;
  height = 2;
}

abbrev frame : List ℕ
frame = 0 ∷ 0 ∷ 0 ∷ 0 ∷ 0 ∷ 0 ∷ 0 ∷ 0 ∷ 0 ∷ 0 ∷ 0 ∷ 0 ∷ 0 ∷ 0 ∷ 0 ∷ 0 ∷ []

picture-IsEven : IsEven 1 picture
picture-IsEven = record {
  width = refl;
  stride_y = omega arith;
  stride_u = omega arith;
  stride_v = omega arith;
  dst_stride = refl;
}

i420_to_argb-some_example :
    (dst' : List ℕ) × (i420_to_argb false picture frame ≡ some (true, dst')) × (length dst' ≡ 16)
i420_to_argb-some_example =
    i420_to_argb-some 1 1 picture frame picture-IsEven refl (omega arith) (omega arith)
      (omega arith) (omega arith)
