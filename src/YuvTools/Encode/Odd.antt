-- ===== src/YuvTools/Encode/Odd.antt =====
-- RGBtoYUV420 on a picture of an odd number of columns.
use ryulib_cpp.Common.{
  ℕ, zero, suc, ◌+◌, ◌*◌, ◌/◌, ◌≤◌, ◌≡◌, ap, ◌∙◌, Option, none, some, List, arith, length, lt→leb,
  bind-none, Option-cases, inl, inr, ◌⊎◌,
}
use ryulib_cpp.Common.Blocks.{mul_int}
use ryulib_cpp.YuvTools.Encode.{get_byte, convert_pixel, convert_row, convert_rows, rgb_to_yuv420}

convert_pixel-none :
    (rgb yuv : List ℕ) (p y u v : ℕ) → length rgb ≤ p + 2 → convert_pixel rgb p yuv y u v ≡ none
unfolding convert_pixel get_byte
convert_pixel-none rgb yuv p y u v h = bind-none (get_byte rgb p) _ (λ b.
    bind-none (get_byte rgb (p + 1)) _ (λ g. rw (lt→leb (p + 2 + 1) (length rgb) (omega arith))))

-- A row whose last pixel is not in the block.
convert_row-none :
    (n k : ℕ) (rgb yuv : List ℕ) (p y u v : ℕ)
    → length rgb ≤ p + n * (2 * k) + k + 2
    → convert_row (suc n) k rgb p yuv y u v ≡ none
unfolding convert_row
convert_row-none zero k rgb yuv p y u v h =
    bind-none (convert_pixel rgb p yuv y u v) _
      (λ yuv'. rw (convert_pixel-none rgb yuv' (p + k) (y + 1) u v (omega arith)))
convert_row-none (suc n) k rgb yuv p y u v h = bind-none (convert_pixel rgb p yuv y u v) _ (λ yuv'.
    bind-none (convert_pixel rgb (p + k) yuv' (y + 1) u v) _
      (λ yuv''. convert_row-none n k rgb yuv'' (p + k + k) (y + 2) (u + 1) (v + 1) (omega arith)))

-- `rgbIndex` after a row does not depend on the pixels.
convert_row-place :
    (n k : ℕ) (rgb yuv : List ℕ) (p y u v : ℕ)
    → (convert_row n k rgb p yuv y u v ≡ none)
      ⊎ ((yuv' : List ℕ) × (convert_row n k rgb p yuv y u v ≡ some (p + n * (2 * k), yuv')))
unfolding convert_row
convert_row-place zero k rgb yuv p y u v = inr (yuv, ap (λ q. some (q, yuv)) (omega arith))
convert_row-place (suc n) k rgb yuv p y u v = elim (Option-cases (convert_pixel rgb p yuv y u v)) [
  | inl e ↦ inl (rw e)
  | inr (yuv₁, e₁) ↦ elim (Option-cases (convert_pixel rgb (p + k) yuv₁ (y + 1) u v)) [
    | inl e ↦ inl (rw (e₁, e))
    | inr (yuv₂, e₂) ↦ elim (convert_row-place n k rgb yuv₂ (p + k + k) (y + 2) (u + 1) (v + 1)) [
      | inl e ↦ inl (rw (e₁, e₂) e)
      | inr (yuv₃, e₃) ↦ inr (yuv₃, rw (e₁, e₂) (e₃ ∙ ap (λ q. some (q, yuv₃)) (omega arith)))
    ]
  ]
]

-- The inner loop of row `y`, from `line` on.
abbrev row_from : ℕ → ℕ → ℕ → List ℕ → ℕ → List ℕ → ℕ → ℕ → Option (ℕ × List ℕ)
row_from k a plane rgb p yuv y line =
    convert_row (suc a) k rgb p yuv line (plane + y / 2 * ((2 * a + 1) / 2))
      (plane + plane / 4 + y / 2 * ((2 * a + 1) / 2))

convert_rows-next :
    (n k a plane : ℕ) (rgb yuv : List ℕ) (p y line : ℕ) (p' : ℕ) (yuv' : List ℕ)
    → mul_int y (2 * a + 1) ≡ some line
    → row_from k a plane rgb p yuv y line ≡ some (p', yuv')
    → convert_rows (suc n) (2 * a + 1) plane k rgb p yuv y
      ≡ convert_rows n (2 * a + 1) plane k rgb p' yuv' (y + 1)
unfolding convert_rows
convert_rows-next n k a plane rgb yuv p y line p' yuv' i e =
    let pairs : (2 * a + 1 + 1) / 2 ≡ suc a = omega arith in rw (pairs, i, e)

convert_rows-overflow :
    (n k a plane : ℕ) (rgb yuv : List ℕ) (p y : ℕ)
    → mul_int y (2 * a + 1) ≡ none
    → convert_rows (suc n) (2 * a + 1) plane k rgb p yuv y ≡ none
unfolding convert_rows
convert_rows-overflow n k a plane rgb yuv p y i = rw i

convert_rows-fail :
    (n k a plane : ℕ) (rgb yuv : List ℕ) (p y line : ℕ)
    → mul_int y (2 * a + 1) ≡ some line
    → row_from k a plane rgb p yuv y line ≡ none
    → convert_rows (suc n) (2 * a + 1) plane k rgb p yuv y ≡ none
unfolding convert_rows
convert_rows-fail n k a plane rgb yuv p y line i e =
    let pairs : (2 * a + 1 + 1) / 2 ≡ suc a = omega arith in rw (pairs, i, e)

convert_rows-none :
    (n k a plane : ℕ) (rgb yuv : List ℕ) (p y : ℕ)
    → length rgb ≤ p + n * ((a + 1) * (2 * k)) + a * (2 * k) + k + 2
    → convert_rows (suc n) (2 * a + 1) plane k rgb p yuv y ≡ none
convert_rows-none zero k a plane rgb yuv p y h = elim (Option-cases (mul_int y (2 * a + 1))) [
  | inl o ↦ convert_rows-overflow zero k a plane rgb yuv p y o
  | inr (line, i) ↦ convert_rows-fail zero k a plane rgb yuv p y line i (
      convert_row-none a k rgb yuv p line (plane + y / 2 * ((2 * a + 1) / 2))
        (plane + plane / 4 + y / 2 * ((2 * a + 1) / 2)) (omega arith))
]
convert_rows-none (suc n) k a plane rgb yuv p y h = elim (Option-cases (mul_int y (2 * a + 1))) [
  | inl o ↦ convert_rows-overflow (suc n) k a plane rgb yuv p y o
  | inr (line, i) ↦
      elim (convert_row-place (suc a) k rgb yuv p line (plane + y / 2 * ((2 * a + 1) / 2))
        (plane + plane / 4 + y / 2 * ((2 * a + 1) / 2))) [
          | inl e ↦ convert_rows-fail (suc n) k a plane rgb yuv p y line i e
          | inr (yuv', e) ↦
              convert_rows-next (suc n) k a plane rgb yuv p y line (p + suc a * (2 * k)) yuv' i e
              ∙ convert_rows-none n k a plane rgb yuv' (p + suc a * (2 * k)) (y + 1) (omega arith)
        ]
]

-- For a picture of an odd number of columns, at least one row and pixels of at least three bytes,
-- in a block of just its size, RGBtoYUV420 reads behind the end of the block.
pub rgb_to_yuv420-odd :
    (rgb yuv : List ℕ) (a n k : ℕ)
    → 3 ≤ k
    → length rgb ≡ (2 * a + 1) * suc n * k
    → rgb_to_yuv420 rgb yuv (2 * a + 1) (suc n) k ≡ none
unfolding rgb_to_yuv420
rgb_to_yuv420-odd rgb yuv a n k h e =
    bind-none (mul_int (2 * a + 1) (suc n)) _
      (λ plane. convert_rows-none n k a plane rgb yuv 0 0 (omega arith))
