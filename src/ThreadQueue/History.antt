-- ===== src/ThreadQueue/History.antt =====
-- What the calls of any number of threads, in the order in which they get the mutex, take out.
use ryulib_cpp.Common.{
  ◌≡◌, refl, sym, ap, ◌∙◌, Bool, true, false, Option, none, some, List, [], ◌∷◌, ◌++◌, append_assoc,
  append-nil,
}
use ryulib_cpp.ThreadQueue.{push, pop, pop_into, front, back}

pub data Call {ℓ} (A : Type ℓ) : Type ℓ where
  pushes : A → Call A
  pops : Call A

module _ {ℓ} {A : Type ℓ} where
  abbrev pub pushed : List (Call A) → List A
  pushed [] = []
  pushed (pushes a ∷ cs) = a ∷ pushed cs
  pushed (pops ∷ cs) = pushed cs

  abbrev pub found : Option A → List A
  found none = []
  found (some a) = a ∷ []

  -- The items that the calls of `pop` return, and the queue that is left.
  pub run : List A → List (Call A) → List A × List A
  run q [] = ([], q)
  run q (pushes a ∷ cs) = run (push q a) cs
  run q (pops ∷ cs) =
      let (item, q') = pop q in let (items, last) = run q' cs in (found item ++ items, last)

  pop-found : (q : List A) → let (item, q') = pop q in found item ++ q' ≡ q
  unfolding pop
  pop-found [] = refl
  pop-found (a ∷ q) = refl

  -- In any interleaving of pushes and pops, the items that come out followed by those that are left
  -- are the items that were there followed by those pushed: in order, none lost, none twice.
  pub run-fifo :
      (q : List A) (cs : List (Call A))
      → let (items, last) = run q cs in items ++ last ≡ q ++ pushed cs
  unfolding run push
  run-fifo q [] = sym (append-nil q)
  run-fifo q (pushes a ∷ cs) = run-fifo (push q a) cs ∙ append_assoc q (a ∷ []) (pushed cs)
  run-fifo q (pops ∷ cs) =
      let (item, q') = pop q in
      let (items, last) = run q' cs in
      append_assoc (found item) items last
      ∙ ap (◌++◌ (found item)) (run-fifo q' cs)
      ∙ sym (append_assoc (found item) q' (pushed cs))
      ∙ ap (λ xs. xs ++ pushed cs) (pop-found q)

  abbrev pub if_done : Bool → A → Option A
  if_done false item = none
  if_done true item = some item

  -- The two forms of pop and front agree: each sees the same item or none, both pops leave the same
  -- queue, and pop(T&) leaves its argument alone where it answers false.
  pub pop_into-pop :
      (q : List A) (old : A)
      → let (done, item, q') = pop_into q old in
        (pop q ≡ (if_done done item, q'))
        × (front q ≡ if_done done item)
        × (done ≡ false → item ≡ old)
  unfolding pop_into pop front
  pop_into-pop [] old = (refl, refl, λ e. refl)
  pop_into-pop (a ∷ q) old = (refl, refl, λ e. cc)

  -- The item pushed last is the one that `back` returns.
  pub back-push : (q : List A) (a : A) → back (push q a) ≡ some a
  unfolding push back
  back-push [] a = refl
  back-push (b ∷ []) a = refl
  back-push (b ∷ c ∷ q) a = back-push (c ∷ q) a
