-- ===== src/Worker/Ending.antt =====
-- How the thread of a Worker ends, or does not.
use ryulib_cpp.Common.{
  ◌≡◌, refl, sym, subst, if-true, if-false, true, false, none, some, List, [], ◌∷◌, Bool-cases, inl,
  inr, ◌∙◌,
}
use ryulib_cpp.SuspensionQueue
use ryulib_cpp.SuspensionQueue.{SuspensionQueue, Consumer, outside, waiting, returned}
use ryulib_cpp.Worker.{
  TaskOfWorker, Worker, new_worker, consumer_step, thread_step, Action, steps, asks_to_end,
  notifies, wakes, adds, sets_on_task, act, run,
}

-- What `pop` can return to a Worker.
abbrev IsTask : Consumer TaskOfWorker → Type 0
IsTask (returned none) = ⊥
IsTask (returned (some t)) = Unit {0}
IsTask (waiting woken) = Unit {0}
IsTask outside = Unit {0}

-- The queue was not asked to end, and `pop` has not returned NULL.
record IsOpen (q : SuspensionQueue TaskOfWorker) : Type 0 where
  pub running : q.is_terminated ≡ false
  pub task : IsTask q.consumer

wake-IsTask : (c : Consumer TaskOfWorker) → IsTask c → IsTask (SuspensionQueue.wake c)
unfolding SuspensionQueue.wake
wake-IsTask (returned none) h = h
wake-IsTask (returned (some t)) h = h
wake-IsTask (waiting woken) h = h
wake-IsTask outside h = h

take_or_wait-IsOpen :
    (ts : List TaskOfWorker) (q : SuspensionQueue TaskOfWorker)
    → q.is_terminated ≡ false
    → IsOpen (SuspensionQueue.take_or_wait ts q)
unfolding SuspensionQueue.take_or_wait
take_or_wait-IsOpen [] q e = record { running = e; task = tt }
take_or_wait-IsOpen (t ∷ ts) q e = record { running = e; task = tt }

resume_as-IsOpen :
    (c : Consumer TaskOfWorker) (q : SuspensionQueue TaskOfWorker)
    → IsOpen q
    → IsOpen (SuspensionQueue.resume_as c q)
unfolding SuspensionQueue.resume_as
resume_as-IsOpen (waiting true) q o =
    subst IsOpen (sym (if-false _ _ o.running)) (take_or_wait-IsOpen q.queue q o.running)
resume_as-IsOpen (waiting false) q o = o
resume_as-IsOpen (returned t) q o = o
resume_as-IsOpen outside q o = o

consumer_step-some :
    (c : Consumer TaskOfWorker) (w : Worker)
    → w.queue.consumer ≡ c
    → IsOpen w.queue
    → (w' : Worker) × (consumer_step c w ≡ some w') × IsOpen w'.queue
unfolding consumer_step SuspensionQueue.pop SuspensionQueue.resume
consumer_step-some outside w e o = elim (Bool-cases w.is_terminated) [
  | inl t ↦ (record w { ended = true }, rw t, o)
  | inr t ↦ (
    record w { queue = SuspensionQueue.pop w.queue },
    rw t,
    take_or_wait-IsOpen w.queue.queue w.queue o.running,
  )
]
consumer_step-some (waiting woken) w e o = (
  record w { queue = SuspensionQueue.resume w.queue },
  refl,
  resume_as-IsOpen w.queue.consumer w.queue o,
)
consumer_step-some (returned none) w e o = absurd (subst IsTask e o.task)
consumer_step-some (returned (some t)) w e o = (_, refl, record { running = o.running; task = tt })

act-some :
    (w : Worker) (a : Action)
    → IsOpen w.queue
    → (w' : Worker) × (act w a ≡ some w') × IsOpen w'.queue
unfolding act thread_step SuspensionQueue.notify SuspensionQueue.wake_up SuspensionQueue.push
act-some w steps o =
    let (w', e, o') = consumer_step-some w.queue.consumer w refl o in
    elim (Bool-cases w.ended) [
      | inl d ↦ (w, if-true _ _ d, o)
      | inr d ↦ (w', if-false _ _ d ∙ e, o')
    ]
act-some w asks_to_end o = (_, refl, o)
act-some w notifies o =
    (_, refl, record { running = o.running; task = wake-IsTask w.queue.consumer o.task })
act-some w wakes o =
    (_, refl, record { running = o.running; task = wake-IsTask w.queue.consumer o.task })
act-some w (adds t) o = (_, refl, record { running = o.running; task = o.task })
act-some w (sets_on_task value) o = (_, refl, o)

run-some :
    (w : Worker) (acts : List Action) → IsOpen w.queue → (w' : Worker) × (run w acts ≡ some w')
unfolding run
run-some w [] o = (w, refl)
run-some w (a ∷ acts) o =
    let (w₁, e₁, o₁) = act-some w a o in let (w₂, e₂) = run-some w₁ acts o₁ in (w₂, rw e₁ e₂)

-- No history of a new Worker dereferences a null task: it runs without a fault.
pub run-new_worker : (acts : List Action) → (w : Worker) × (run new_worker acts ≡ some w)
unfolding new_worker SuspensionQueue.new_queue
run-new_worker acts = run-some new_worker acts (record { running = refl; task = tt })

-- The thread is in the wait of `pop`, woken or not.
abbrev IsWaiting : Consumer TaskOfWorker → Type 0
IsWaiting (waiting woken) = Unit {0}
IsWaiting (returned t) = ⊥
IsWaiting outside = ⊥

-- The thread has not ended and waits on an empty queue that was not asked to end.
pub record IsIdle (w : Worker) : Type 0 where
  pub alive : w.ended ≡ false
  pub empty : w.queue.queue ≡ []
  pub running : w.queue.is_terminated ≡ false
  pub wait : IsWaiting w.queue.consumer

abbrev pub NothingAdded : List Action → Type 0
NothingAdded [] = Unit {0}
NothingAdded (steps ∷ acts) = NothingAdded acts
NothingAdded (asks_to_end ∷ acts) = NothingAdded acts
NothingAdded (notifies ∷ acts) = NothingAdded acts
NothingAdded (wakes ∷ acts) = NothingAdded acts
NothingAdded (adds t ∷ acts) = ⊥
NothingAdded (sets_on_task value ∷ acts) = NothingAdded acts

wake-IsWaiting : (c : Consumer TaskOfWorker) → IsWaiting c → IsWaiting (SuspensionQueue.wake c)
unfolding SuspensionQueue.wake
wake-IsWaiting (waiting woken) h = tt
wake-IsWaiting (returned t) h = absurd h
wake-IsWaiting outside h = absurd h

-- A thread that waits looks at the queue, and waits again.
take_or_wait-IsIdle :
    (ts : List TaskOfWorker) (w : Worker)
    → ts ≡ []
    → IsIdle w
    → IsIdle (record w { queue = SuspensionQueue.take_or_wait ts w.queue })
unfolding SuspensionQueue.take_or_wait
take_or_wait-IsIdle [] w e i = record {
  alive = i.alive;
  empty = i.empty;
  running = i.running;
  wait = tt;
}
take_or_wait-IsIdle (t ∷ ts) w e i = cc

resume_as-IsIdle :
    (c : Consumer TaskOfWorker) (w : Worker)
    → IsIdle w
    → IsIdle (record w { queue = SuspensionQueue.resume_as c w.queue })
unfolding SuspensionQueue.resume_as
resume_as-IsIdle (waiting true) w i =
    subst (λ q. IsIdle (record w { queue = q })) (sym (if-false _ _ i.running))
      (take_or_wait-IsIdle w.queue.queue w i.empty i)
resume_as-IsIdle (waiting false) w i = i
resume_as-IsIdle (returned t) w i = i
resume_as-IsIdle outside w i = i

consumer_step-IsIdle :
    (c : Consumer TaskOfWorker) (w : Worker)
    → IsWaiting c
    → IsIdle w
    → (w' : Worker) × (consumer_step c w ≡ some w') × IsIdle w'
unfolding consumer_step SuspensionQueue.resume
consumer_step-IsIdle (waiting woken) w h i = (
  record w { queue = SuspensionQueue.resume w.queue },
  refl,
  resume_as-IsIdle w.queue.consumer w i,
)
consumer_step-IsIdle (returned t) w h i = absurd h
consumer_step-IsIdle outside w h i = absurd h

awake : (w : Worker) → IsIdle w → IsWaiting (SuspensionQueue.wake w.queue.consumer)
awake w i = wake-IsWaiting w.queue.consumer i.wait

act-IsIdle :
    (w : Worker) (a : Action)
    → NothingAdded (a ∷ [])
    → IsIdle w
    → (w' : Worker) × (act w a ≡ some w') × IsIdle w'
unfolding act thread_step SuspensionQueue.notify SuspensionQueue.wake_up
act-IsIdle w steps q i =
    let (w', e, i') = consumer_step-IsIdle w.queue.consumer w i.wait i in
    (w', if-false _ _ i.alive ∙ e, i')
act-IsIdle w asks_to_end q i =
    (_, refl, record { alive = i.alive; empty = i.empty; running = i.running; wait = i.wait })
act-IsIdle w notifies q i =
    (_, refl, record { alive = i.alive; empty = i.empty; running = i.running; wait = awake w i })
act-IsIdle w wakes q i =
    (_, refl, record { alive = i.alive; empty = i.empty; running = i.running; wait = awake w i })
act-IsIdle w (adds t) q i = absurd q
act-IsIdle w (sets_on_task value) q i =
    (_, refl, record { alive = i.alive; empty = i.empty; running = i.running; wait = i.wait })

NothingAdded-cons :
    (a : Action) (acts : List Action)
    → NothingAdded (a ∷ acts)
    → NothingAdded (a ∷ []) × NothingAdded acts
NothingAdded-cons steps acts q = (tt, q)
NothingAdded-cons asks_to_end acts q = (tt, q)
NothingAdded-cons notifies acts q = (tt, q)
NothingAdded-cons wakes acts q = (tt, q)
NothingAdded-cons (adds t) acts q = absurd q
NothingAdded-cons (sets_on_task value) acts q = (tt, q)

-- A thread of a Worker that waits on an empty queue still waits there after any actions without an
-- add, also after it was asked to end and woken: it does not end.
pub run-IsIdle :
    (w : Worker) (acts : List Action)
    → NothingAdded acts
    → IsIdle w
    → (w' : Worker) × (run w acts ≡ some w') × IsIdle w'
unfolding run
run-IsIdle w [] q i = (w, refl, i)
run-IsIdle w (a ∷ acts) q i =
    let (qa, qs) = NothingAdded-cons a acts q in
    let (w₁, e₁, i₁) = act-IsIdle w a qa i in
    let (w₂, e₂, i₂) = run-IsIdle w₁ acts qs i₁ in (w₂, rw e₁ e₂, i₂)
