-- ===== src/Worker.antt =====
-- include/ryulib/Worker.hpp: a thread that works off a SuspensionQueue of tasks. The state is that
-- between two actions of the thread and of its clients; numbers and pointers are only passed on.
pub mod Delivery
pub mod Ending
mod Tests
use ryulib_cpp.Common.{
  ℕ, Bool, true, false, Option, none, some, List, [], ◌∷◌, ◌++◌, if◌then◌else◌, ◌>>=◌,
}
use ryulib_cpp.SuspensionQueue
use ryulib_cpp.SuspensionQueue.{SuspensionQueue, Consumer, outside, waiting, returned}

pub record TaskOfWorker : Type 0 where
  pub task : ℕ
  pub text : List ℕ
  pub pointer : ℕ
  pub size : ℕ
  pub tag : ℕ

abbrev pub null_pointer : ℕ
null_pointer = 0

-- The five overloads of `add` make these tasks.
pub code_task : ℕ → TaskOfWorker
code_task task = record { task = task; text = []; pointer = null_pointer; size = 0; tag = 0 }

pub text_task : ℕ → List ℕ → TaskOfWorker
text_task task text = record { task = task; text = text; pointer = null_pointer; size = 0; tag = 0 }

pub pointer_task : ℕ → ℕ → TaskOfWorker
pointer_task task pointer = record { task = task; text = []; pointer = pointer; size = 0; tag = 0 }

pub sized_task : ℕ → ℕ → ℕ → TaskOfWorker
sized_task task pointer size = record {
  task = task;
  text = [];
  pointer = pointer;
  size = size;
  tag = 0;
}

pub full_task : ℕ → ℕ → ℕ → ℕ → TaskOfWorker
full_task task pointer size tag = record {
  task = task;
  text = [];
  pointer = pointer;
  size = size;
  tag = tag;
}

-- `is_terminated` is the flag of `thread_`. The consumer of the queue is the thread: `outside` is the
-- test of its loop, and `ended` is past it. `log` lists the tasks that were deleted, each with
-- whether a handler got it first.
pub record Worker : Type 0 where
  pub is_terminated : Bool
  pub ended : Bool
  pub on_task : Bool
  pub queue : SuspensionQueue TaskOfWorker
  pub log : List (Bool × TaskOfWorker)

pub new_worker : Worker
unfolding SuspensionQueue.new_queue
new_worker = record {
  is_terminated = false;
  ended = false;
  on_task = false;
  queue = SuspensionQueue.new_queue;
  log = [];
}

-- After a `pop`, at the test of the loop again.
abbrev pub at_test : SuspensionQueue TaskOfWorker → SuspensionQueue TaskOfWorker
at_test q = record q { consumer = outside }

-- The thread's next action. With a handler, a null task is dereferenced; `delete` takes it.
pub consumer_step : Consumer TaskOfWorker → Worker → Option Worker
consumer_step outside w = some (
    if w.is_terminated
    then record w { ended = true }
    else record w { queue = SuspensionQueue.pop w.queue })
consumer_step (waiting woken) w = some (record w { queue = SuspensionQueue.resume w.queue })
consumer_step (returned none) w =
    if w.on_task then none else some (record w { queue = at_test w.queue })
consumer_step (returned (some t)) w =
    some (record w { queue = at_test w.queue; log = w.log ++ (w.on_task, t) ∷ [] })

pub thread_step : Worker → Option Worker
thread_step w = let next = consumer_step w.queue.consumer w in if w.ended then some w else next

-- `asks_to_end` is what `terminate` and `terminateAndWait` do before the one detaches and the other
-- waits until the thread has ended; `notifies` is the last line of an `add`, `wakes` a spurious
-- wakeup.
pub data Action : Type 0 where
  steps asks_to_end notifies wakes : Action
  adds : TaskOfWorker → Action
  sets_on_task : Bool → Action

pub act : Worker → Action → Option Worker
act w steps = thread_step w
act w asks_to_end = some (record w { is_terminated = true })
act w notifies = some (record w { queue = SuspensionQueue.notify w.queue })
act w wakes = some (record w { queue = SuspensionQueue.wake_up w.queue })
act w (adds t) = some (record w { queue = SuspensionQueue.push w.queue t })
act w (sets_on_task value) = some (record w { on_task = value })

pub run : Worker → List Action → Option Worker
run w [] = some w
run w (a ∷ acts) = act w a >>= λ w'. run w' acts
