-- ===== src/AudioIo/Volume.antt =====
-- What the loop over the samples does to a block.
use ryulib_cpp.Common.{
  lt_or_le, ℕ, zero, suc, ◌+◌, ◌*◌, ◌≤◌, ◌<◌, ◌≡◌, refl, sym, ap, ◌∙◌, true, false, none, some,
  List, [], ◌∷◌, ◌++◌, length, length-append, flatten, map, append_assoc, arith, ◌>>=◌, if-true,
  if-false, take, drop, inl, inr,
}
use ryulib_cpp.Common.Blocks.{
  read_at, read_at-some, read_at-middle, write_at-middle, read_at-none, write_at, write_at-some,
  splice, length-splice,
}
use ryulib_cpp.AudioIo.{Floats, scale_samples, apply_volume}

-- The arithmetic gives four bytes.
abbrev pub GivesFour : Floats → ℕ → Type 0
GivesFour f volume = (sample : List ℕ) → length (f.multiply volume sample) ≡ 4

scale_samples-next :
    (f : Floats) (volume n at : ℕ) (block sample block' : List ℕ)
    → read_at block at 4 ≡ some sample
    → write_at block at (f.multiply volume sample) ≡ some block'
    → scale_samples f volume (suc n) at block ≡ scale_samples f volume n (at + 4) block'
unfolding scale_samples
scale_samples-next f volume n at block sample block' er ew = rw (er, ew)

-- Where the samples lie in the block, the loop ends, and the size stays.
pub scale_samples-some :
    (f : Floats) (volume n at : ℕ) (block : List ℕ)
    → GivesFour f volume
    → at + 4 * n ≤ length block
    → (block' : List ℕ) × (scale_samples f volume n at block ≡ some block')
      × (length block' ≡ length block)
unfolding scale_samples
scale_samples-some f volume zero at block g h = (block, refl, refl)
scale_samples-some f volume (suc n) at block g h =
    let sample = take 4 (drop at block) in
    let scaled = f.multiply volume sample in
    let size : length scaled ≡ 4 = g sample in
    let same = length-splice block at scaled (omega (arith, size)) in
    let (block', e, l) =
      scale_samples-some f volume n (at + 4) (splice block at scaled) g (omega (arith, same)) in
    (
      block',
      scale_samples-next f volume n at block sample (splice block at scaled)
            (read_at-some block at 4 (omega arith))
            (write_at-some block at scaled (omega (arith, size)))
          ∙ e,
      l ∙ same,
    )

-- Where they do not, it reads past the end.
pub scale_samples-none :
    (f : Floats) (volume n at : ℕ) (block : List ℕ)
    → GivesFour f volume
    → length block < at + 4 * n
    → at ≤ length block
    → scale_samples f volume n at block ≡ none
unfolding scale_samples
scale_samples-none f volume zero at block g h k = absurd (omega arith)
scale_samples-none f volume (suc n) at block g h k =
    let sample = take 4 (drop at block) in
    let scaled = f.multiply volume sample in
    let size : length scaled ≡ 4 = g sample in
    elim (lt_or_le (length block) (at + 4)) [
      | inl short ↦
          ap
            (λ o. o >>= λ s.
              write_at block at (f.multiply volume s) >>= λ b. scale_samples f volume n (at + 4) b)
            (read_at-none block at 4 short)
      | inr fits ↦
          let same = length-splice block at scaled (omega (arith, size)) in
          scale_samples-next f volume n at block sample (splice block at scaled)
            (read_at-some block at 4 fits) (write_at-some block at scaled (omega (arith, size)))
          ∙ scale_samples-none f volume n (at + 4) (splice block at scaled) g (omega (arith, same))
              (omega (arith, same))
    ]

abbrev pub AllFour : List (List ℕ) → Type 0
AllFour [] = Unit {0}
AllFour (s ∷ ss) = (length s ≡ 4) × AllFour ss

-- The samples of a block, each times the volume.
pub scale_samples-map :
    (f : Floats) (volume : ℕ) (before rest : List ℕ) (samples : List (List ℕ))
    → GivesFour f volume
    → AllFour samples
    → scale_samples f volume (length samples) (length before) (before ++ flatten samples ++ rest)
      ≡ some (before ++ flatten (map (f.multiply volume) samples) ++ rest)
unfolding scale_samples
scale_samples-map f volume before rest [] g a = refl
scale_samples-map f volume before rest (s ∷ ss) g (a, rest_four) =
    let scaled = f.multiply volume s in
    let after = flatten ss ++ rest in
    let cut : before ++ (s ++ flatten ss) ++ rest ≡ before ++ s ++ after =
      ap (λ l. l ++ rest) (sym (append_assoc before s (flatten ss)))
      ∙ append_assoc (before ++ s) (flatten ss) rest in
    let at : length (before ++ scaled) ≡ length before + 4 =
      omega (arith, length-append before scaled, g s) in
    let others = flatten (map (f.multiply volume) ss) in
    ap (scale_samples f volume (suc (length ss)) (length before)) cut
    ∙ scale_samples-next f volume (length ss) (length before) (before ++ s ++ after) s
        (before ++ scaled ++ after)
        (ap (read_at (before ++ s ++ after) (length before)) (sym a)
          ∙ read_at-middle before s after)
        (write_at-middle before s after scaled (g s ∙ sym a))
    ∙ ap (λ k. scale_samples f volume (length ss) k (before ++ scaled ++ after)) (sym at)
    ∙ ap (scale_samples f volume (length ss) (length (before ++ scaled)))
        (sym (append_assoc (before ++ scaled) (flatten ss) rest))
    ∙ scale_samples-map f volume (before ++ scaled) rest ss g rest_four
    ∙ ap (λ l. some (l ++ rest)) (append_assoc before scaled others)

pub apply_volume-map :
    (f : Floats) (volume fpb : ℕ) (samples : List (List ℕ)) (rest : List ℕ)
    → GivesFour f volume
    → AllFour samples
    → f.is_changed volume ≡ true
    → fpb ≡ length samples
    → apply_volume f volume fpb (flatten samples ++ rest)
      ≡ some (flatten (map (f.multiply volume) samples) ++ rest)
unfolding apply_volume
apply_volume-map f volume fpb samples rest g four changed frames =
    if-true _ _ changed
    ∙ ap (λ n. scale_samples f volume n 0 (flatten samples ++ rest)) frames
    ∙ scale_samples-map f volume [] rest samples g four

pub apply_volume-none :
    (f : Floats) (volume fpb : ℕ) (block : List ℕ)
    → GivesFour f volume
    → f.is_changed volume ≡ true
    → length block < 4 * fpb
    → apply_volume f volume fpb block ≡ none
unfolding apply_volume
apply_volume-none f volume fpb block g changed short =
    if-true _ _ changed ∙ scale_samples-none f volume fpb 0 block g (omega arith) (omega arith)

pub apply_volume-same :
    (f : Floats) (volume fpb : ℕ) (block : List ℕ)
    → f.is_changed volume ≡ false
    → apply_volume f volume fpb block ≡ some block
unfolding apply_volume
apply_volume-same f volume fpb block same = if-false _ _ same
