-- ===== src/ThreadQueue.antt =====
-- include/ryulib/ThreadQueue.hpp. Every method holds the mutex from its first to its last line, so
-- that calls of several threads happen one after the other: the state between calls is the list
-- in `queue_`, and a history is a list of calls. `T` is a pointer type, whose NULL is `none`.
pub mod History
use ryulib_cpp.Common.{ℕ, Bool, true, false, Option, none, some, List, [], ◌∷◌, ◌++◌, length}

module _ {ℓ} {A : Type ℓ} where
  unfoldable pub push : List A → A → List A
  push q item = q ++ item ∷ []

  -- `T pop()`.
  unfoldable pub pop : List A → Option A × List A
  pop [] = (none, [])
  pop (item ∷ q) = (some item, q)

  -- `bool pop(T& item)`: the answer, what `item` holds afterwards, and the queue.
  pub pop_into : List A → A → Bool × A × List A
  pop_into [] old = (false, old, [])
  pop_into (item ∷ q) old = (true, item, q)

  pub front : List A → Option A
  front [] = none
  front (item ∷ q) = some item

  pub back : List A → Option A
  back [] = none
  back (item ∷ []) = some item
  back (item ∷ next ∷ q) = back (next ∷ q)

  pub is_empty : List A → Bool
  is_empty [] = true
  is_empty (item ∷ q) = false

  unfoldable pub size : List A → ℕ
  size q = length q
