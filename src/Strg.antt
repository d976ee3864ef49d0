-- ===== src/Strg.antt =====
-- include/ryulib/strg.hpp: the functions that cut and extend strings. A string is the list of its
-- characters, of fewer than 2^31; `tolower` is a parameter; a `substr` that throws is `none`.
pub mod Borders
use ryulib_cpp.Common.{
  ℕ, zero, suc, ◌+◌, ◌-◌, Bool, true, false, ◌&&◌, Option, none, some, List, [], ◌∷◌, ◌++◌, map,
  length, take, drop, if◌then◌else◌, ◌==◌, leb, ◌>>=◌,
}

-- `==` on strings.
abbrev pub same : List ℕ → List ℕ → Bool
same [] [] = true
same [] (y ∷ ys) = false
same (x ∷ xs) [] = false
same (x ∷ xs) (y ∷ ys) = (x == y) && same xs ys

unfoldable pub substr : List ℕ → ℕ → ℕ → Option (List ℕ)
substr s i n = if leb i (length s) then some (take n (drop i s)) else none

-- `find` in what stands from `i` on; `none` is `npos`, which as an `int` is -1.
pub find_from : ℕ → List ℕ → List ℕ → Option ℕ
find_from i [] dst = if same [] dst then some i else none
find_from i (c ∷ s) dst =
    let later = find_from (suc i) s dst in
    if same (take (length dst) (c ∷ s)) dst then some i else later

abbrev pub lowered : (ℕ → ℕ) → Bool → List ℕ → List ℕ
lowered lower ignore_case s = if ignore_case then map lower s else s

-- What `deleteLeft` does with `pos`.
pub delete_left_at : Option ℕ → List ℕ → Option (List ℕ)
delete_left_at none str = some str
delete_left_at (some zero) str = some str
delete_left_at (some (suc i)) str = substr str (suc i) (length str)

pub delete_left : (ℕ → ℕ) → List ℕ → List ℕ → Bool → Option (List ℕ)
unfolding delete_left_at
delete_left lower str border ignore_case =
    delete_left_at (find_from 0 (lowered lower ignore_case str) (lowered lower ignore_case border))
      str

pub delete_left_plus_at : Option ℕ → List ℕ → List ℕ → Option (List ℕ)
delete_left_plus_at none str border = some str
delete_left_plus_at (some i) str border = substr str (i + length border) (length str)

pub delete_left_plus : (ℕ → ℕ) → List ℕ → List ℕ → Bool → Option (List ℕ)
unfolding delete_left_plus_at
delete_left_plus lower str border ignore_case =
    delete_left_plus_at
      (find_from 0 (lowered lower ignore_case str) (lowered lower ignore_case border)) str border

-- The loop of `deleteRight` below position `i`. The border is compared as it was given.
pub find_right : List ℕ → List ℕ → ℕ → Option ℕ
find_right src border zero = none
find_right src border (suc i) =
    let next = find_right src border i in
    if same (take (length border) (drop i src)) border then some i else next

pub delete_right_at : Option ℕ → List ℕ → ℕ → Option (List ℕ)
delete_right_at none str n = some str
delete_right_at (some i) str n = substr str 0 (i + n)

pub delete_right : (ℕ → ℕ) → List ℕ → List ℕ → Bool → Option (List ℕ)
unfolding delete_right_at find_right
delete_right lower str border ignore_case =
    delete_right_at (find_right (lowered lower ignore_case str) border (length str)) str
      (length border)

pub delete_right_plus : (ℕ → ℕ) → List ℕ → List ℕ → Bool → Option (List ℕ)
unfolding delete_right_at find_right
delete_right_plus lower str border ignore_case =
    delete_right_at (find_right (lowered lower ignore_case str) border (length str)) str 0

-- The difference of lengths is a `size_t`: below zero it is past every end, and `substr` throws.
pub set_last_string : List ℕ → List ℕ → Option (List ℕ)
set_last_string str last =
    let at_end = substr str (length str - length last) (length last) >>= λ tail.
    some (if same tail last then str else str ++ last) in
    if leb (length last) (length str) then at_end else none
