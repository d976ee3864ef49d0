-- ===== src/Scheduler/Tests.antt =====
-- A Scheduler as it is made, and what its clients and its thread do with it.
use ryulib_cpp.Common.{◌≡◌, refl, some, true, false, List, [], ◌∷◌, ◌++◌, arith}
use ryulib_cpp.SimpleThread
use ryulib_cpp.ThreadQueue
use ryulib_cpp.Scheduler.{
  TaskOfScheduler, popping, ended, handled, Scheduler, new_scheduler, steps, adds, sets_on_task,
  Action, act, run, thread_step, place_step, pop_step,
}
use ryulib_cpp.Scheduler.Delivery.{tasks, run-tasks}
use ryulib_cpp.Scheduler.Ending.{run_thread, run_thread-ended}

abbrev first : TaskOfScheduler
first = record { task = 1; text = []; pointer = 0; size = 0; tag = 0 }

abbrev second : TaskOfScheduler
second = record { task = 2; text = 65 ∷ []; pointer = 0; size = 0; tag = 0 }

abbrev acts : List Action
acts = sets_on_task true ∷ adds first ∷ adds second ∷ steps ∷ steps ∷ []

abbrev running : SimpleThread.SimpleThread
running = record { is_terminated = false; attached = true; on_terminated = false; fired = false }

abbrev asked_to_end : SimpleThread.SimpleThread
asked_to_end = record {
  is_terminated = true;
  attached = false;
  on_terminated = false;
  fired = false;
}

abbrev after : Scheduler
after = record {
  thread = running;
  place = popping;
  started = false;
  queue = second ∷ [];
  on_task = true;
  on_repeat = false;
  log = handled first ∷ [];
}

run-acts : run new_scheduler acts ≡ some after
unfolding run act new_scheduler SimpleThread.new_thread thread_step place_step pop_step
    ThreadQueue.push ThreadQueue.pop
run-acts = refl

run-tasks_example : tasks after ≡ tasks new_scheduler ++ first ∷ second ∷ []
run-tasks_example = run-tasks new_scheduler acts run-acts

run_thread-ended_example : (run_thread 5 (record after { thread = asked_to_end })).place ≡ ended
run_thread-ended_example =
    run_thread-ended 5 (record after { thread = asked_to_end }) refl (omega arith)
