-- ===== src/Scheduler/Ending.antt =====
-- How the thread of a Scheduler waits and ends.
use ryulib_cpp.Common.{
  ℕ, zero, suc, ◌+◌, ◌-◌, ◌≤◌, ◌≡◌, ◌≢◌, refl, ap, subst, ◌∙◌, true, false, none, some, List, [],
  ◌∷◌, arith, length, inl, inr, Option-cases,
}
use mathlib.Core.Option.{some-injective}
use ryulib_cpp.SimpleThread
use ryulib_cpp.ThreadQueue
use ryulib_cpp.Scheduler.{
  TaskOfScheduler, Place, testing, popping, idle, sleeping, ended, Scheduler, new_scheduler,
  pop_step, place_step, place_after_sleep, thread_step, Action, steps, terminates, act, run,
}

none-ne-some : {s : Scheduler} → ¬ (none ≡ some s)
none-ne-some e = cc

pub run_thread : ℕ → Scheduler → Scheduler
run_thread zero s = s
run_thread (suc n) s = run_thread n (thread_step s)

-- How many more steps a thread that is asked to end takes.
abbrev pub steps_left : Place → List TaskOfScheduler → ℕ
steps_left ended q = 0
steps_left testing q = 1
steps_left sleeping q = 2
steps_left idle q = 3
steps_left popping q = 4 + length q

pop_step-left :
    (s : Scheduler) (q : List TaskOfScheduler)
    → s.place ≡ popping
    → let s' = pop_step s (ThreadQueue.pop q) in
      (s'.thread ≡ s.thread) × (steps_left s'.place s'.queue + 1 ≤ steps_left popping q)
unfolding pop_step ThreadQueue.pop
pop_step-left s [] e = (refl, omega arith)
pop_step-left s (t ∷ q) e = (refl, rw e (omega arith))

place_step-left :
    (p : Place) (s : Scheduler)
    → s.place ≡ p
    → s.thread.is_terminated ≡ true
    → let s' = place_step p s in
      (s'.thread ≡ s.thread) × (steps_left s'.place s'.queue ≤ steps_left p s.queue - 1)
unfolding place_step place_after_sleep SimpleThread.sleep
place_step-left testing s e t = (refl, rw t (omega arith))
place_step-left popping s e t = let (same, less) = pop_step-left s s.queue e in (same, omega arith)
place_step-left idle s e t = ground arith
place_step-left sleeping s e t = (refl, omega arith)
place_step-left ended s e t = (refl, rw e (omega arith))

left-ended : (p : Place) (q : List TaskOfScheduler) → steps_left p q ≤ 0 → p ≡ ended
left-ended testing q h = absurd (omega arith)
left-ended popping q h = absurd (omega arith)
left-ended idle q h = absurd (omega arith)
left-ended sleeping q h = absurd (omega arith)
left-ended ended q h = refl

-- The thread of a Scheduler that is asked to end is past its loop within steps_left steps if no
-- more tasks come: at most four more than there are tasks waiting.
pub run_thread-ended :
    (n : ℕ) (s : Scheduler)
    → s.thread.is_terminated ≡ true
    → steps_left s.place s.queue ≤ n
    → (run_thread n s).place ≡ ended
unfolding run_thread thread_step
run_thread-ended zero s t h = left-ended s.place s.queue h
run_thread-ended (suc n) s t h =
    let (same, less) = place_step-left s.place s refl t in
    run_thread-ended n (place_step s.place s) (ap (λ x. x.is_terminated) same ∙ t) (omega arith)

abbrev IsAwake : Scheduler → Type 0
IsAwake s = s.thread.is_terminated ≡ false → s.place ≢ sleeping

place_step-IsAwake :
    (p : Place) (s : Scheduler) → s.place ≡ p → IsAwake s → IsAwake (place_step p s)
unfolding place_step place_after_sleep SimpleThread.sleep pop_step ThreadQueue.pop
place_step-IsAwake testing s e w = ground arith
place_step-IsAwake popping s e w = pop_awake s.queue
  where
    pop_awake : (q : List TaskOfScheduler) → IsAwake (pop_step s (ThreadQueue.pop q))
    pop_awake [] = λ t e'. cc
    pop_awake (x ∷ q) = λ t e'. cc
place_step-IsAwake idle s e w = λ t. ground arith
place_step-IsAwake sleeping s e w = λ t e'. cc
place_step-IsAwake ended s e w = w

act-IsAwake :
    (s : Scheduler) (a : Action) {s' : Scheduler} → act s a ≡ some s' → IsAwake s → IsAwake s'
unfolding act thread_step SimpleThread.terminate
act-IsAwake s steps e w = subst IsAwake (some-injective _ _ e) (place_step-IsAwake s.place s refl w)
act-IsAwake s terminates e w = λ t. ground arith
act-IsAwake s a e w = λ t. ground (arith, w)

run-IsAwake :
    (s : Scheduler) (acts : List Action) {s' : Scheduler}
    → run s acts ≡ some s'
    → IsAwake s
    → IsAwake s'
unfolding run
run-IsAwake s [] e w = subst IsAwake (some-injective _ _ e) w
run-IsAwake s (a ∷ acts) {s'} e w = elim (Option-cases (act s a)) [
  | inl bad ↦ absurd (none-ne-some (rw bad at e))
  | inr (t, ok) ↦ run-IsAwake t acts (rw ok at e) (act-IsAwake s a ok w)
]

-- In no history of a new Scheduler does its thread sleep before it is asked to end: the sleep(1) of
-- its loop returns at once.
pub run_never_sleeps :
    (acts : List Action) {s : Scheduler}
    → run new_scheduler acts ≡ some s
    → s.thread.is_terminated ≡ false
    → s.place ≢ sleeping
unfolding new_scheduler
run_never_sleeps acts e = run-IsAwake new_scheduler acts e (λ t e'. cc)
