-- ===== src/Scheduler/Delivery.antt =====
-- Which tasks reach the handler, and in which order.
use ryulib_cpp.Common.{
  ◌≡◌, refl, sym, ap, ◌∙◌, none, some, List, [], ◌∷◌, ◌++◌, append_assoc, append-nil, arith,
  Option-cases, inl, inr,
}
use ryulib_cpp.SimpleThread
use ryulib_cpp.ThreadQueue
use ryulib_cpp.Scheduler.{
  TaskOfScheduler, Place, testing, popping, idle, sleeping, ended, Event, handled, discarded,
  repeated, Scheduler, pop_step, place_step, thread_step, Action, steps, starts, stops, terminates,
  adds, sets_on_task, sets_on_repeat, act, run,
}

none-ne-some : {s : Scheduler} → ¬ (none ≡ some s)
none-ne-some e = cc

-- The tasks that the thread has popped, in order.
abbrev pub taken : List Event → List TaskOfScheduler
taken [] = []
taken (handled t ∷ es) = t ∷ taken es
taken (discarded t ∷ es) = t ∷ taken es
taken (repeated ∷ es) = taken es

abbrev pub added : List Action → List TaskOfScheduler
added [] = []
added (adds t ∷ rest) = t ∷ added rest
added (_ ∷ rest) = added rest

taken-append : (es fs : List Event) → taken (es ++ fs) ≡ taken es ++ taken fs
taken-append [] fs = refl
taken-append (handled t ∷ es) fs = ap (◌∷◌ t) (taken-append es fs)
taken-append (discarded t ∷ es) fs = ap (◌∷◌ t) (taken-append es fs)
taken-append (repeated ∷ es) fs = taken-append es fs

-- The tasks that were taken, followed by those that wait.
abbrev pub tasks : Scheduler → List TaskOfScheduler
tasks s = taken s.log ++ s.queue

pop_step-tasks :
    (s : Scheduler) (q : List TaskOfScheduler)
    → taken (pop_step s (ThreadQueue.pop q)).log ++ (pop_step s (ThreadQueue.pop q)).queue
      ≡ taken s.log ++ q
unfolding pop_step ThreadQueue.pop
pop_step-tasks s [] = refl
pop_step-tasks s (t ∷ q) = ground (
  arith,
  taken-append s.log (handled t ∷ []),
  taken-append s.log (discarded t ∷ []),
  append_assoc (taken s.log) (t ∷ []) q,
)

place_step-tasks : (p : Place) (s : Scheduler) → tasks (place_step p s) ≡ tasks s
unfolding place_step
place_step-tasks testing s = refl
place_step-tasks popping s = pop_step-tasks s s.queue
place_step-tasks idle s =
    ground (arith, taken-append s.log (repeated ∷ []), append-nil (taken s.log))
place_step-tasks sleeping s = refl
place_step-tasks ended s = refl

act-tasks :
    (s : Scheduler) (a : Action) {s' : Scheduler}
    → act s a ≡ some s'
    → tasks s' ≡ tasks s ++ added (a ∷ [])
unfolding act thread_step SimpleThread.terminate ThreadQueue.push
act-tasks s steps e = ground (arith, e, place_step-tasks s.place s, append-nil (tasks s))
act-tasks s (adds t) e = ground (arith, e, append_assoc (taken s.log) s.queue (t ∷ []))
act-tasks s starts e = ground (arith, e, append-nil (tasks s))
act-tasks s stops e = ground (arith, e, append-nil (tasks s))
act-tasks s terminates e = ground (arith, e, append-nil (tasks s))
act-tasks s (sets_on_task v) e = ground (arith, e, append-nil (tasks s))
act-tasks s (sets_on_repeat v) e = ground (arith, e, append-nil (tasks s))

added-cons : (a : Action) (acts : List Action) → added (a ∷ acts) ≡ added (a ∷ []) ++ added acts
added-cons (adds t) acts = refl
added-cons steps acts = refl
added-cons _ acts = refl

-- In any history of the steps of the thread and of the calls of its clients, the tasks that the
-- thread has taken, in order, followed by those that wait, are those at the start followed by those
-- that add was given.
pub run-tasks :
    (s : Scheduler) (acts : List Action) {s' : Scheduler}
    → run s acts ≡ some s'
    → tasks s' ≡ tasks s ++ added acts
unfolding run
run-tasks s [] e = ground (arith, e, append-nil (tasks s))
run-tasks s (a ∷ acts) {s'} e = elim (Option-cases (act s a)) [
  | inl bad ↦ absurd (none-ne-some (rw bad at e))
  | inr (t, ok) ↦
      run-tasks t acts (rw ok at e)
      ∙ ap (λ xs. xs ++ added acts) (act-tasks s a ok)
      ∙ append_assoc (tasks s) (added (a ∷ [])) (added acts)
      ∙ ap (◌++◌ (tasks s)) (sym (added-cons a acts))
]
