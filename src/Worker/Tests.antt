-- ===== src/Worker/Tests.antt =====
-- A Worker as it is made, and one that waits.
use ryulib_cpp.Common.{◌≡◌, refl, true, false, some, List, [], ◌∷◌, ◌++◌}
use ryulib_cpp.SuspensionQueue
use ryulib_cpp.SuspensionQueue.{SuspensionQueue, outside, waiting}
use ryulib_cpp.Worker.{
  TaskOfWorker, Worker, new_worker, Action, steps, asks_to_end, notifies, wakes, adds, sets_on_task,
  run, thread_step, consumer_step, act,
}
use ryulib_cpp.Worker.Delivery.{tasks, run-deliveries}
use ryulib_cpp.Worker.Ending.{IsIdle, run-IsIdle}

abbrev first : TaskOfWorker
first = record { task = 1; text = []; pointer = 0; size = 0; tag = 0 }

abbrev second : TaskOfWorker
second = record { task = 2; text = 65 ∷ []; pointer = 0; size = 0; tag = 0 }

abbrev acts : List Action
acts =
    sets_on_task true
    ∷ steps
    ∷ adds first
    ∷ adds second
    ∷ notifies
    ∷ steps
    ∷ steps
    ∷ asks_to_end
    ∷ []

abbrev after : Worker
after = record {
  is_terminated = true;
  ended = false;
  on_task = true;
  queue = record {
    is_terminated = false;
    queue = second ∷ [];
    consumer = outside;
    owed = 1;
    got = first ∷ [];
  };
  log = (true, first) ∷ [];
}

run-acts : run new_worker acts ≡ some after
unfolding run act new_worker thread_step consumer_step SuspensionQueue.new_queue
    SuspensionQueue.push SuspensionQueue.pop SuspensionQueue.notify SuspensionQueue.wake
    SuspensionQueue.resume SuspensionQueue.resume_as SuspensionQueue.take_or_wait
run-acts = refl

run-deliveries_example : tasks after ≡ tasks new_worker ++ first ∷ second ∷ []
run-deliveries_example = run-deliveries new_worker after acts run-acts

abbrev idle : Worker
idle = record {
  is_terminated = false;
  ended = false;
  on_task = true;
  queue = record {
    is_terminated = false;
    queue = [];
    consumer = waiting false;
    owed = 0;
    got = [];
  };
  log = [];
}

idle-IsIdle : IsIdle idle
idle-IsIdle = record { alive = refl; empty = refl; running = refl; wait = tt }

run-IsIdle_example :
    (w' : Worker) × (run idle (asks_to_end ∷ steps ∷ wakes ∷ steps ∷ []) ≡ some w') × IsIdle w'
run-IsIdle_example = run-IsIdle idle (asks_to_end ∷ steps ∷ wakes ∷ steps ∷ []) tt idle-IsIdle
