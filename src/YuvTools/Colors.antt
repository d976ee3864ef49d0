-- ===== src/YuvTools/Colors.antt =====
-- The colours that the conversions of one pixel give.
use ryulib_cpp.Common.{ℕ, ◌+◌, ◌-◌, ◌*◌, ◌/◌, ◌<◌, ◌≤◌, ◌≡◌, ◌∙◌, min, arith}
use ryulib_cpp.Common.Int.{sub_ℕ, ◌+ℤ◌}
use ryulib_cpp.YuvTools.{
  rgbtoy, rgbtou, rgbtov, map_yc, map_ucg, map_ucb, map_vcr, map_vcg, shift_8, clip, red, green,
  blue,
}

-- For bytes, the macros rgbtoyuv give the whole parts of the weighted sums in percent: no sum is
-- below zero and no cast to unsigned char changes a value.
pub rgbtoyuv-exact :
    (b g r : ℕ)
    → b < 256
    → g < 256
    → r < 256
    → (100 * rgbtoy b g r ≤ 30 * r + 59 * g + 11 * b)
      × (30 * r + 59 * g + 11 * b < 100 * rgbtoy b g r + 100)
      × (100 * rgbtou b g r + 17 * r + 33 * g ≤ 50 * b + 12800)
      × (50 * b + 12800 < 100 * rgbtou b g r + 17 * r + 33 * g + 100)
      × (100 * rgbtov b g r + 42 * g + 8 * b ≤ 50 * r + 12800)
      × (50 * r + 12800 < 100 * rgbtov b g r + 42 * g + 8 * b + 100)
unfolding rgbtoy rgbtou rgbtov
rgbtoyuv-exact b g r hb hg hr =
    (omega arith, omega arith, omega arith, omega arith, omega arith, omega arith)

clip-shift : (p n : ℕ) → clip (shift_8 (sub_ℕ p n)) ≡ min 255 ((p - n) / 256)
unfolding clip
clip-shift p n = ground arith

sub-sub : (a b c d : ℕ) → sub_ℕ a b +ℤ sub_ℕ c d ≡ sub_ℕ (a + c) (b + d)
sub-sub a b c d = ground arith

-- The colours of I420ToARGB by its tables, its shift and Clip are one formula each: a weighted sum
-- of the samples, where the difference stops at zero, divided by 256, and at most 255.
pub i420-colors :
    (y u v : ℕ)
    → (red y v ≡ min 255 ((298 * y + 409 * v + 128 - 57120) / 256))
      × (green y u v ≡ min 255 ((298 * y + 39552 - (4768 + 100 * u + 208 * v)) / 256))
      × (blue y u ≡ min 255 ((298 * y + 516 * u + 128 - 70816) / 256))
unfolding red green blue map_yc map_ucg map_ucb map_vcr map_vcg
i420-colors y u v = (
  rw (sub-sub (298 * y) 4768 (409 * v) 52352, sub-sub (298 * y + 409 * v) 57120 128 0)
      (clip-shift (298 * y + 409 * v + 128) 57120),
  rw
      (
        sub-sub (298 * y) 4768 12800 (100 * u),
        sub-sub (298 * y + 12800) (4768 + 100 * u) 26624 (208 * v),
        sub-sub (298 * y + 12800 + 26624) (4768 + 100 * u + 208 * v) 128 0,
      )
      (clip-shift (298 * y + 12800 + 26624 + 128) (4768 + 100 * u + 208 * v + 0) ∙ omega arith),
  rw (sub-sub (298 * y) 4768 (516 * u) 66048, sub-sub (298 * y + 516 * u) 70816 128 0)
      (clip-shift (298 * y + 516 * u + 128) 70816),
)

-- With the same u and v, a brighter sample never gives a darker red, green or blue.
pub i420-monotone :
    (y y' u v : ℕ)
    → y ≤ y'
    → (red y v ≤ red y' v) × (green y u v ≤ green y' u v) × (blue y u ≤ blue y' u)
i420-monotone y y' u v h =
    let (r, g, b) = i420-colors y u v in
    let (r', g', b') = i420-colors y' u v in
    (omega (arith, r, r'), omega (arith, g, g'), omega (arith, b, b'))
