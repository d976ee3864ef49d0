-- ===== src/YuvTools/Encode/Safety.antt =====
-- RGBtoYUV420 stays within its blocks.
use native.Mathlib.Nat.{mul-le-mul_right}
use ryulib_cpp.Common.{
  ℕ, zero, suc, ◌+◌, ◌*◌, ◌/◌, ◌^◌, ◌≤◌, ◌<◌, ◌≡◌, refl, ap, ◌∙◌, some, List, [], ◌∷◌, arith,
  length, le→leb, get_or,
}
use ryulib_cpp.Common.Blocks.{mul_int-some, write_at, splice, length-splice}
use ryulib_cpp.YuvTools.{rgbtoy, rgbtou, rgbtov}
use ryulib_cpp.YuvTools.Encode.{get_byte, convert_pixel, convert_row, convert_rows, rgb_to_yuv420}

pub get_byte-some :
    (block : List ℕ) (i : ℕ) → i < length block → get_byte block i ≡ some (get_or block i 0)
unfolding get_byte
get_byte-some block i h = rw (le→leb (i + 1) (length block) (omega arith))

pub write_at-some :
    (block : List ℕ) (i x : ℕ)
    → i < length block
    → (write_at block i (x ∷ []) ≡ some (splice block i (x ∷ [])))
      × (length (splice block i (x ∷ [])) ≡ length block)
unfolding write_at
write_at-some block i x h =
    (rw (le→leb (i + 1) (length block) (omega arith)), length-splice block i (x ∷ []) (omega arith))

convert_pixel-some :
    (rgb yuv : List ℕ) (p y u v : ℕ)
    → p + 2 < length rgb
    → y < length yuv
    → u < length yuv
    → v < length yuv
    → (yuv' : List ℕ) × (convert_pixel rgb p yuv y u v ≡ some yuv') × (length yuv' ≡ length yuv)
unfolding convert_pixel
convert_pixel-some rgb yuv p y u v hp hy hu hv =
    let b = get_or rgb p 0 in
    let g = get_or rgb (p + 1) 0 in
    let r = get_or rgb (p + 2) 0 in
    let (ey, ly) = write_at-some yuv y (rgbtoy b g r) hy in
    let (eu, lu) =
      write_at-some (splice yuv y (rgbtoy b g r ∷ [])) u (rgbtou b g r) (omega (arith, ly)) in
    let (ev, lv) =
      write_at-some (splice (splice yuv y (rgbtoy b g r ∷ [])) u (rgbtou b g r ∷ [])) v
        (rgbtov b g r) (omega (arith, ly, lu)) in
    (
      splice (splice (splice yuv y (rgbtoy b g r ∷ [])) u (rgbtou b g r ∷ [])) v
          (rgbtov b g r ∷ []),
      rw
          (
            get_byte-some rgb p (omega arith),
            get_byte-some rgb (p + 1) (omega arith),
            get_byte-some rgb (p + 2) hp,
            ey,
            eu,
          )
          ev,
      lv ∙ lu ∙ ly,
    )

convert_row-some :
    (n k : ℕ) (rgb yuv : List ℕ) (p y u v : ℕ)
    → 3 ≤ k
    → p + n * (2 * k) ≤ length rgb
    → y + 2 * n ≤ length yuv
    → u + n ≤ length yuv
    → v + n ≤ length yuv
    → (yuv' : List ℕ) × (convert_row n k rgb p yuv y u v ≡ some (p + n * (2 * k), yuv'))
      × (length yuv' ≡ length yuv)
unfolding convert_row
convert_row-some zero k rgb yuv p y u v hk hp hy hu hv =
    (yuv, ap (λ q. some (q, yuv)) (omega arith), refl)
convert_row-some (suc n) k rgb yuv p y u v hk hp hy hu hv =
    let (yuv₁, e₁, l₁) =
      convert_pixel-some rgb yuv p y u v (omega arith) (omega arith) (omega arith) (omega arith) in
    let (yuv₂, e₂, l₂) =
      convert_pixel-some rgb yuv₁ (p + k) (y + 1) u v (omega arith) (omega (arith, l₁))
        (omega (arith, l₁)) (omega (arith, l₁)) in
    let l₁₂ : length yuv₂ ≡ length yuv = l₂ ∙ l₁ in
    let (yuv₃, e₃, l₃) =
      convert_row-some n k rgb yuv₂ (p + k + k) (y + 2) (u + 1) (v + 1) hk (omega arith)
        (omega (arith, l₁₂)) (omega (arith, l₁₂)) (omega (arith, l₁₂)) in
    let place : p + k + k + n * (2 * k) ≡ p + suc n * (2 * k) = omega arith in
    (yuv₃, rw (e₁, e₂) (e₃ ∙ ap (λ q. some (q, yuv₃)) place), l₃ ∙ l₁₂)

-- Row `y` of a frame of 2a columns and 2b rows lies in its three planes.
row_fits : (a b y : ℕ) → y < 2 * b → (y * (2 * a) + 2 * a ≤ 4 * (a * b)) × (y / 2 * a + a ≤ a * b)
row_fits a b y h =
    let rows : (y + 1) * a ≤ 2 * b * a = mul-le-mul_right a (omega arith) in
    let half : (y / 2 + 1) * a ≤ b * a = mul-le-mul_right a (omega arith) in
    (omega (arith, rows), omega (arith, half))

convert_rows-next :
    (n k a b : ℕ) (rgb yuv : List ℕ) (p y : ℕ) (p' : ℕ) (yuv' : List ℕ)
    → y * (2 * a) < 2 ^ 31
    → convert_row a k rgb p yuv
        (y * (2 * a))
        (2 * a * (2 * b) + y / 2 * a)
        (2 * a * (2 * b) + 2 * a * (2 * b) / 4 + y / 2 * a)
      ≡ some (p', yuv')
    → convert_rows (suc n) (2 * a) (2 * a * (2 * b)) k rgb p yuv y
      ≡ convert_rows n (2 * a) (2 * a * (2 * b)) k rgb p' yuv' (y + 1)
unfolding convert_rows
convert_rows-next n k a b rgb yuv p y p' yuv' i e =
    let pairs : (2 * a + 1) / 2 ≡ a = omega arith in
    let half : 2 * a / 2 ≡ a = omega arith in rw (pairs, half, mul_int-some y (2 * a) i, e)

convert_rows-some :
    (n k a b : ℕ) (rgb yuv : List ℕ) (p y : ℕ)
    → 3 ≤ k
    → 2 * a * (2 * b) < 2 ^ 31
    → y + n ≡ 2 * b
    → p + n * (a * (2 * k)) ≤ length rgb
    → 6 * (a * b) ≤ length yuv
    → (yuv' : List ℕ) × (convert_rows n (2 * a) (2 * a * (2 * b)) k rgb p yuv y ≡ some yuv')
      × (length yuv' ≡ length yuv)
unfolding convert_rows
convert_rows-some zero k a b rgb yuv p y hk i hy hp h = (yuv, refl, refl)
convert_rows-some (suc n) k a b rgb yuv p y hk i hy hp h =
    let (yline, chroma) = row_fits a b y (omega arith) in
    let (yuv₁, e₁, l₁) =
      convert_row-some a k rgb yuv p (y * (2 * a)) (2 * a * (2 * b) + y / 2 * a)
        (2 * a * (2 * b) + 2 * a * (2 * b) / 4 + y / 2 * a) hk (omega arith) (omega (arith, yline))
        (omega (arith, chroma)) (omega (arith, chroma)) in
    let (yuv₂, e₂, l₂) =
      convert_rows-some n k a b rgb yuv₁ (p + a * (2 * k)) (y + 1) hk i (omega arith) (omega arith)
        (omega (arith, l₁)) in
    let row : y * (2 * a) < 2 ^ 31 = omega (arith, yline) in
    (yuv₂, convert_rows-next n k a b rgb yuv p y (p + a * (2 * k)) yuv₁ row e₁ ∙ e₂, l₂ ∙ l₁)

-- For a picture of 2a columns and 2b rows, whose number of pixels is below 2^31, pixels of at least
-- three bytes, a block that holds them all and a block of 6ab bytes for the result, RGBtoYUV420
-- ends without an overflow of its products and without an access outside its blocks.
pub rgb_to_yuv420-some :
    (rgb yuv : List ℕ) (a b k : ℕ)
    → 3 ≤ k
    → 2 * a * (2 * b) < 2 ^ 31
    → 2 * b * (a * (2 * k)) ≤ length rgb
    → 6 * (a * b) ≤ length yuv
    → (yuv' : List ℕ) × (rgb_to_yuv420 rgb yuv (2 * a) (2 * b) k ≡ some yuv')
      × (length yuv' ≡ length yuv)
unfolding rgb_to_yuv420
rgb_to_yuv420-some rgb yuv a b k hk i hr hy =
    let (yuv', e, l) =
      convert_rows-some (2 * b) k a b rgb yuv 0 0 hk i (omega arith) (omega arith) hy in
    (yuv', rw (mul_int-some (2 * a) (2 * b) i) e, l)
