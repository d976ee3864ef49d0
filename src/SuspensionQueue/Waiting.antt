-- ===== src/SuspensionQueue/Waiting.antt =====
-- Which items come out of a SuspensionQueue, and who waits for what.
use ryulib_cpp.Common.{
  ◌≡◌, ◌≢◌, refl, sym, ap, ◌⊎◌, inl, inr, ◌<◌, ◌∙◌, true, false, List, [], ◌∷◌, ◌++◌, append_assoc,
  append-nil, arith,
}
use ryulib_cpp.SuspensionQueue.{
  Consumer, outside, waiting, returned, SuspensionQueue, wake, push, terminate, notify,
  take_or_wait, pop, resume_as, resume, wake_up, Action, pops, resumes, terminates, notifies, wakes,
  pushes, pop_as, act, run,
}

module _ {ℓ} {A : Type ℓ} where
  abbrev pub pushed : List (Action A) → List A
  pushed [] = []
  pushed (pushes a ∷ acts) = a ∷ pushed acts
  pushed (pops ∷ acts) = pushed acts
  pushed (resumes ∷ acts) = pushed acts
  pushed (terminates ∷ acts) = pushed acts
  pushed (wakes ∷ acts) = pushed acts
  pushed (notifies ∷ acts) = pushed acts

  abbrev pub items : SuspensionQueue A → List A
  items s = s.got ++ s.queue

  take_or_wait-items :
      (q : List A) (s : SuspensionQueue A) → s.queue ≡ q → items (take_or_wait q s) ≡ items s
  unfolding take_or_wait
  take_or_wait-items [] s e = refl
  take_or_wait-items (a ∷ q) s e = ground (arith, append_assoc s.got (a ∷ []) q)

  resume_as-items : (c : Consumer A) (s : SuspensionQueue A) → items (resume_as c s) ≡ items s
  unfolding resume_as
  resume_as-items (waiting true) s = ground (arith, take_or_wait-items s.queue s refl)
  resume_as-items (waiting false) s = refl
  resume_as-items outside s = refl
  resume_as-items (returned i) s = refl

  pop_as-items : (c : Consumer A) (s : SuspensionQueue A) → items (pop_as c s) ≡ items s
  unfolding pop_as pop
  pop_as-items outside s = take_or_wait-items s.queue s refl
  pop_as-items (returned i) s = take_or_wait-items s.queue s refl
  pop_as-items (waiting w) s = refl

  -- In any order of the actions of the threads, what pop returned followed by what waits is what
  -- was there followed by what was pushed.
  pub run-items :
      (s : SuspensionQueue A) (acts : List (Action A)) → items (run s acts) ≡ items s ++ pushed acts
  unfolding run act resume terminate notify wake_up push
  run-items s [] = sym (append-nil (items s))
  run-items s (pops ∷ acts) =
      run-items (act s pops) acts ∙ ap (λ xs. xs ++ pushed acts) (pop_as-items s.consumer s)
  run-items s (resumes ∷ acts) =
      run-items (act s resumes) acts ∙ ap (λ xs. xs ++ pushed acts) (resume_as-items s.consumer s)
  run-items s (terminates ∷ acts) = run-items (act s terminates) acts
  run-items s (notifies ∷ acts) = run-items (act s notifies) acts
  run-items s (wakes ∷ acts) = run-items (act s wakes) acts
  run-items s (pushes a ∷ acts) =
      run-items (act s (pushes a)) acts
      ∙ ap (λ xs. xs ++ pushed acts) (sym (append_assoc s.got s.queue (a ∷ [])))
      ∙ append_assoc (items s) (a ∷ []) (pushed acts)

  abbrev pub NoneMissed : SuspensionQueue A → Type ℓ
  NoneMissed s = s.consumer ≡ waiting false → (s.queue ≡ []) ⊎ (0 < s.owed)

  wake-ne-asleep : (c : Consumer A) → wake c ≢ waiting false
  unfolding wake
  wake-ne-asleep outside e = cc
  wake-ne-asleep (waiting w) e = cc
  wake-ne-asleep (returned i) e = cc

  take_or_wait-NoneMissed :
      (q : List A) (s : SuspensionQueue A) → s.queue ≡ q → NoneMissed (take_or_wait q s)
  unfolding take_or_wait
  take_or_wait-NoneMissed [] s e = λ _. inl e
  take_or_wait-NoneMissed (a ∷ q) s e = λ e'. cc

  resume_as-NoneMissed :
      (c : Consumer A) (s : SuspensionQueue A) → NoneMissed s → NoneMissed (resume_as c s)
  unfolding resume_as
  resume_as-NoneMissed (waiting true) s h = ground (arith, take_or_wait-NoneMissed s.queue s refl)
  resume_as-NoneMissed (waiting false) s h = h
  resume_as-NoneMissed outside s h = h
  resume_as-NoneMissed (returned i) s h = h

  pop_as-NoneMissed :
      (c : Consumer A) (s : SuspensionQueue A) → NoneMissed s → NoneMissed (pop_as c s)
  unfolding pop_as pop
  pop_as-NoneMissed outside s h = take_or_wait-NoneMissed s.queue s refl
  pop_as-NoneMissed (returned i) s h = take_or_wait-NoneMissed s.queue s refl
  pop_as-NoneMissed (waiting w) s h = h

  -- No wakeup for an item is lost, in any order of the actions of the threads: where it holds at
  -- the start that an unwoken consumer waits only while the queue is empty or a notify_all is still
  -- to come, it holds after the actions.
  pub run-NoneMissed :
      (s : SuspensionQueue A) (acts : List (Action A)) → NoneMissed s → NoneMissed (run s acts)
  unfolding run act resume terminate notify wake_up push
  run-NoneMissed s [] h = h
  run-NoneMissed s (pops ∷ acts) h =
      run-NoneMissed (act s pops) acts (pop_as-NoneMissed s.consumer s h)
  run-NoneMissed s (resumes ∷ acts) h =
      run-NoneMissed (act s resumes) acts (resume_as-NoneMissed s.consumer s h)
  run-NoneMissed s (terminates ∷ acts) h =
      run-NoneMissed (act s terminates) acts (λ e. inr (omega arith))
  run-NoneMissed s (notifies ∷ acts) h =
      run-NoneMissed (act s notifies) acts (λ e. absurd (wake-ne-asleep s.consumer e))
  run-NoneMissed s (wakes ∷ acts) h =
      run-NoneMissed (act s wakes) acts (λ e. absurd (wake-ne-asleep s.consumer e))
  run-NoneMissed s (pushes a ∷ acts) h =
      run-NoneMissed (act s (pushes a)) acts (λ e. inr (omega arith))

  -- Only the consumer acts.
  abbrev pub IsQuiet : List (Action A) → Type 0
  IsQuiet [] = Unit {0}
  IsQuiet (pops ∷ acts) = IsQuiet acts
  IsQuiet (resumes ∷ acts) = IsQuiet acts
  IsQuiet (terminates ∷ acts) = ⊥
  IsQuiet (notifies ∷ acts) = ⊥
  IsQuiet (wakes ∷ acts) = ⊥
  IsQuiet (pushes a ∷ acts) = ⊥

  pop_as-asleep : (c : Consumer A) (s : SuspensionQueue A) → c ≡ waiting false → pop_as c s ≡ s
  unfolding pop_as
  pop_as-asleep outside s e = cc
  pop_as-asleep (waiting w) s e = refl
  pop_as-asleep (returned i) s e = cc

  resume_as-asleep :
      (c : Consumer A) (s : SuspensionQueue A) → c ≡ waiting false → resume_as c s ≡ s
  unfolding resume_as
  resume_as-asleep outside s e = refl
  resume_as-asleep (waiting true) s e = cc
  resume_as-asleep (waiting false) s e = refl
  resume_as-asleep (returned i) s e = refl

  run-asleep :
      (s : SuspensionQueue A) (acts : List (Action A))
      → IsQuiet acts
      → s.consumer ≡ waiting false
      → run s acts ≡ s
  unfolding run act resume
  run-asleep s [] q e = refl
  run-asleep s (pops ∷ acts) q e =
      ap (λ t. run t acts) (pop_as-asleep s.consumer s e) ∙ run-asleep s acts q e
  run-asleep s (resumes ∷ acts) q e =
      ap (λ t. run t acts) (resume_as-asleep s.consumer s e) ∙ run-asleep s acts q e
  run-asleep s (terminates ∷ acts) q e = absurd q
  run-asleep s (notifies ∷ acts) q e = absurd q
  run-asleep s (wakes ∷ acts) q e = absurd q
  run-asleep s (pushes a ∷ acts) q e = absurd q

  pop-empty :
      (c : Consumer A) (q : List A) (s : SuspensionQueue A)
      → c ≡ outside
      → q ≡ []
      → (pop_as (wake c) (record s { queue = q })).consumer ≡ waiting false
  unfolding pop_as pop take_or_wait wake
  pop-empty outside [] s e n = refl
  pop-empty outside (a ∷ q) s e n = cc
  pop-empty (waiting w) q s e n = cc
  pop-empty (returned i) q s e n = cc

  -- A terminate that is over before the consumer calls pop is missed: on the empty queue pop waits
  -- all the same, unwoken after any actions of the consumer alone.
  pub pop_after_terminate :
      (s : SuspensionQueue A) (acts : List (Action A))
      → s.consumer ≡ outside
      → s.queue ≡ []
      → IsQuiet acts
      → (run s (terminates ∷ notifies ∷ pops ∷ acts)).consumer ≡ waiting false
  unfolding run act terminate notify
  pop_after_terminate s acts e n q =
      let stopped = notify (terminate s) in
      let asleep : (pop_as stopped.consumer stopped).consumer ≡ waiting false =
        pop-empty s.consumer s.queue stopped e n in
      ap (λ t. t.consumer) (run-asleep (pop_as stopped.consumer stopped) acts q asleep) ∙ asleep
