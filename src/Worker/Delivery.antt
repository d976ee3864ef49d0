-- ===== src/Worker/Delivery.antt =====
-- Which tasks a Worker takes, and in which order.
use ryulib_cpp.Common.{
  ◌≡◌, refl, sym, ap, ◌∙◌, Bool, true, false, none, some, List, [], ◌∷◌, ◌++◌, append_assoc,
  append-nil, arith, Option-cases, inl, inr,
}
use ryulib_cpp.SuspensionQueue
use ryulib_cpp.SuspensionQueue.{SuspensionQueue, Consumer, outside, waiting, returned}
use ryulib_cpp.Worker.{
  TaskOfWorker, Worker, consumer_step, thread_step, Action, steps, asks_to_end, notifies, wakes,
  adds, sets_on_task, act, run,
}

none-ne-some : {w : Worker} → ¬ (none ≡ some w)
none-ne-some e = cc

abbrev pub finished : List (Bool × TaskOfWorker) → List TaskOfWorker
finished [] = []
finished ((handled, t) ∷ log) = t ∷ finished log

-- The task in the thread's hands.
abbrev pub held : Consumer TaskOfWorker → List TaskOfWorker
held (returned (some t)) = t ∷ []
held (returned none) = []
held (waiting woken) = []
held outside = []

abbrev pub added : List Action → List TaskOfWorker
added [] = []
added (adds t ∷ acts) = t ∷ added acts
added (_ ∷ acts) = added acts

abbrev pub tasks : Worker → List TaskOfWorker
tasks w = finished w.log ++ held w.queue.consumer ++ w.queue.queue

finished-append :
    (xs ys : List (Bool × TaskOfWorker)) → finished (xs ++ ys) ≡ finished xs ++ finished ys
finished-append [] ys = refl
finished-append ((handled, t) ∷ xs) ys = ap (◌∷◌ t) (finished-append xs ys)

held-wake : (c : Consumer TaskOfWorker) → held (SuspensionQueue.wake c) ≡ held c
unfolding SuspensionQueue.wake
held-wake (returned none) = refl
held-wake (returned (some t)) = refl
held-wake (waiting woken) = refl
held-wake outside = refl

-- A `pop` that looks at the queue takes its head into the hands.
take_or_wait-tasks :
    (done ts : List TaskOfWorker) (q : SuspensionQueue TaskOfWorker)
    → q.queue ≡ ts
    → let q' = SuspensionQueue.take_or_wait ts q in
      done ++ held q'.consumer ++ q'.queue ≡ done ++ ts
unfolding SuspensionQueue.take_or_wait
take_or_wait-tasks done [] q e = ground (arith, append-nil done)
take_or_wait-tasks done (t ∷ ts) q e = append_assoc done (t ∷ []) ts

resume_as-tasks :
    (done : List TaskOfWorker) (c : Consumer TaskOfWorker) (q : SuspensionQueue TaskOfWorker)
    → q.consumer ≡ c
    → let q' = SuspensionQueue.resume_as c q in
      done ++ held q'.consumer ++ q'.queue ≡ done ++ held c ++ q.queue
unfolding SuspensionQueue.resume_as
resume_as-tasks done (waiting true) q e =
    ground (arith, take_or_wait-tasks done q.queue q refl, append-nil done)
resume_as-tasks done (waiting false) q e = rw e
resume_as-tasks done (returned t) q e = rw e
resume_as-tasks done outside q e = rw e

consumer_step-tasks :
    (c : Consumer TaskOfWorker) (w w' : Worker)
    → w.queue.consumer ≡ c
    → consumer_step c w ≡ some w'
    → tasks w' ≡ finished w.log ++ held c ++ w.queue.queue
unfolding consumer_step SuspensionQueue.pop SuspensionQueue.resume
consumer_step-tasks outside w w' e h = ground (
  arith,
  h,
  e,
  take_or_wait-tasks (finished w.log) w.queue.queue w.queue refl,
  append-nil (finished w.log),
)
consumer_step-tasks (waiting woken) w w' e h =
    ground (arith, h, e, resume_as-tasks (finished w.log) w.queue.consumer w.queue refl)
consumer_step-tasks (returned none) w w' e h = ground (arith, h, e)
consumer_step-tasks (returned (some t)) w w' e h = ground (
  arith,
  h,
  e,
  finished-append w.log ((w.on_task, t) ∷ []),
  append-nil (finished w.log ++ t ∷ []),
)

act-tasks : (w w' : Worker) (a : Action) → act w a ≡ some w' → tasks w' ≡ tasks w ++ added (a ∷ [])
unfolding act thread_step SuspensionQueue.notify SuspensionQueue.wake_up SuspensionQueue.push
act-tasks w w' steps h =
    ground (arith, h, consumer_step-tasks w.queue.consumer w w' refl, append-nil (tasks w))
act-tasks w w' (adds t) h =
    ground (arith, h, append_assoc (finished w.log ++ held w.queue.consumer) w.queue.queue (t ∷ []))
act-tasks w w' notifies h = ground (arith, h, held-wake w.queue.consumer, append-nil (tasks w))
act-tasks w w' wakes h = ground (arith, h, held-wake w.queue.consumer, append-nil (tasks w))
act-tasks w w' asks_to_end h = ground (arith, h, append-nil (tasks w))
act-tasks w w' (sets_on_task value) h = ground (arith, h, append-nil (tasks w))

added-cons : (a : Action) (acts : List Action) → added (a ∷ acts) ≡ added (a ∷ []) ++ added acts
added-cons (adds t) acts = refl
added-cons steps acts = refl
added-cons _ acts = refl

-- In any history of a Worker, the tasks that its thread is done with, in order, followed by the one
-- in its hands and those that wait, are those at the start followed by those that add was given.
pub run-deliveries :
    (w w' : Worker) (acts : List Action) → run w acts ≡ some w' → tasks w' ≡ tasks w ++ added acts
unfolding run
run-deliveries w w' [] h = ground (arith, h, append-nil (tasks w))
run-deliveries w w' (a ∷ acts) h = elim (Option-cases (act w a)) [
  | inl bad ↦ absurd (none-ne-some (rw bad at h))
  | inr (v, ok) ↦
      run-deliveries v w' acts (rw ok at h)
      ∙ ap (λ ts. ts ++ added acts) (act-tasks w v a ok)
      ∙ append_assoc (tasks w) (added (a ∷ [])) (added acts)
      ∙ ap (◌++◌ (tasks w)) (sym (added-cons a acts))
]
