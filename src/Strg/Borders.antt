-- ===== src/Strg/Borders.antt =====
-- What the functions on strings return.
use ryulib_cpp.Common.{
  ℕ, suc, ◌+◌, ◌-◌, ◌≤◌, ◌<◌, ◌≡◌, refl, sym, ap, ◌∙◌, true, false, none, some, List, [], ◌∷◌, ◌++◌,
  length, take, drop, length-append, length-drop, take-all, drop-append_self, take-append-drop,
  if◌then◌else◌, arith, Bool-cases, inl, inr, Option-cases, le→leb, lt→leb, if-true, if-false, ◌⊎◌,
}
use ryulib_cpp.Strg.{
  same, substr, find_from, delete_left_plus_at, delete_left_plus, set_last_string,
}

same_eq : (xs ys : List ℕ) → same xs ys ≡ true → xs ≡ ys
same_eq [] [] e = refl
same_eq [] (y ∷ ys) e = cc
same_eq (x ∷ xs) [] e = cc
same_eq (x ∷ xs) (y ∷ ys) e = ground (arith, same_eq xs ys)

same_refl : (xs : List ℕ) → same xs xs ≡ true
same_refl [] = refl
same_refl (x ∷ xs) = ground (arith, same_refl xs)

find_from-split :
    (k i : ℕ) (s dst : List ℕ)
    → find_from k s dst ≡ some i
    → (before : List ℕ) × (after : List ℕ) × (s ≡ before ++ dst ++ after) × (i ≡ k + length before)
unfolding find_from
find_from-split k i [] dst e = elim (Bool-cases (same [] dst)) [
  | inl h ↦ ([], [], ground (arith, same_eq [] dst), ground arith)
  | inr h ↦ absurd (found-none (rw h at e))
]
  where
    found-none : ¬ (none ≡ some i)
    found-none e' = cc
find_from-split k i (c ∷ s) dst e = elim (Bool-cases (same (take (length dst) (c ∷ s)) dst)) [
  | inl h ↦ (
    [],
    drop (length dst) (c ∷ s),
    sym (take-append-drop (length dst) (c ∷ s))
        ∙ ap (λ xs. xs ++ drop (length dst) (c ∷ s)) (same_eq (take (length dst) (c ∷ s)) dst h),
    ground arith,
  )
  | inr h ↦
      let (before, after, split, place) =
        find_from-split (suc k) i s dst (sym (if-false _ _ h) ∙ e) in
      (c ∷ before, after, ap (◌∷◌ c) split, omega arith)
]

substr-rest :
    (s before rest : List ℕ) → s ≡ before ++ rest → substr s (length before) (length s) ≡ some rest
unfolding substr
substr-rest s before rest e =
    if-true _ _
      (le→leb (length before) (length s) (omega (arith, ap length e, length-append before rest)))
    ∙ ap some (
        take-all (length s) (drop (length before) s) (omega (arith, length-drop (length before) s))
        ∙ ap (drop (length before)) e
        ∙ drop-append_self before rest)

-- With no ignore_case, deleteLeftPlus does not throw: where the border is not found it returns the
-- string, and where it is found it returns what stands behind it.
pub delete_left_plus-rest :
    (lower : ℕ → ℕ) (str border : List ℕ)
    → (result : List ℕ) × (delete_left_plus lower str border false ≡ some result)
      × (((find_from 0 str border ≡ none) × (result ≡ str))
          ⊎ ((before : List ℕ) × (find_from 0 str border ≡ some (length before))
              × (str ≡ before ++ border ++ result)))
unfolding delete_left_plus
delete_left_plus-rest lower str border = elim (Option-cases (find_from 0 str border)) [
  | inl e ↦ (str, ap (λ p. delete_left_plus_at p str border) e, inl (e, refl))
  | inr (i, e) ↦
      let (before, after, split, place) = find_from-split 0 i str border e in
      let at : i + length border ≡ length (before ++ border) =
        omega (arith, length-append before border) in
      (
        after,
        ap (λ p. delete_left_plus_at p str border) e
            ∙ ap (λ n. substr str n (length str)) at
            ∙ substr-rest str (before ++ border) after split,
        inr (before, e ∙ ap some (omega arith), split),
      )
]

tail-of :
    (str last before : List ℕ)
    → str ≡ before ++ last
    → substr str (length str - length last) (length last) ≡ some last
unfolding substr
tail-of str last before e =
    let size : length str ≡ length before + length last = ap length e ∙ length-append before last in
    let at : length str - length last ≡ length before = omega arith in
    if-true _ _ (le→leb (length str - length last) (length str) (omega arith))
    ∙ ap some (
        ap (λ n. take (length last) (drop n str)) at
        ∙ ap (λ xs. take (length last) (drop (length before) xs)) e
        ∙ ap (take (length last)) (drop-append_self before last)
        ∙ take-all (length last) last (omega arith))

set_last_string-tail :
    (str last tail : List ℕ)
    → length last ≤ length str
    → substr str (length str - length last) (length last) ≡ some tail
    → set_last_string str last ≡ some (if same tail last then str else str ++ last)
unfolding set_last_string
set_last_string-tail str last tail h e = rw (le→leb (length last) (length str) h, e)

tail-cut :
    (str : List ℕ) (n : ℕ)
    → n ≤ length str
    → substr str (length str - n) n ≡ some (drop (length str - n) str)
unfolding substr
tail-cut str n h =
    if-true _ _ (le→leb (length str - n) (length str) (omega arith))
    ∙ ap some
        (take-all n (drop (length str - n) str) (omega (arith, length-drop (length str - n) str)))

-- A string that ends with `last` stays as it is.
set_last_string-same :
    (str last before : List ℕ) → str ≡ before ++ last → set_last_string str last ≡ some str
set_last_string-same str last before e =
    set_last_string-tail str last last (omega (arith, ap length e, length-append before last))
      (tail-of str last before e)
    ∙ ap some (if-true _ _ (same_refl last))

-- For a string no shorter than the ending, setLastString returns a string with that ending, and
-- returns that string again when it is called with it.
pub set_last_string-ends :
    (str last : List ℕ)
    → length last ≤ length str
    → (result before : List ℕ) × (set_last_string str last ≡ some result)
      × (result ≡ before ++ last)
      × (set_last_string result last ≡ some result)
set_last_string-ends str last h =
    let n = length str - length last in
    let tail = drop n str in
    let cut : substr str n (length last) ≡ some tail = tail-cut str (length last) h in
    elim (Bool-cases (same tail last)) [
      | inl e ↦
          let split : str ≡ take n str ++ last =
            sym (take-append-drop n str) ∙ ap (λ xs. take n str ++ xs) (same_eq tail last e) in
          let whole = set_last_string-same str last (take n str) split in
          (str, take n str, whole, split, whole)
      | inr e ↦ (
        str ++ last,
        str,
        set_last_string-tail str last tail h cut ∙ ap some (if-false _ _ e),
        refl,
        set_last_string-same (str ++ last) last str refl,
      )
    ]

pub set_last_string-throws :
    (str last : List ℕ) → length str < length last → set_last_string str last ≡ none
unfolding set_last_string
set_last_string-throws str last h = if-false _ _ (lt→leb (length last) (length str) h)
