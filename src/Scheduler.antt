-- ===== src/Scheduler.antt =====
-- include/ryulib/Scheduler.hpp: a thread that works off a queue of tasks and calls `on_repeat_`
-- while there are none. The state between two actions of the thread and of its clients; `log` is
-- what the thread has done. Numbers and pointers in a task are only passed on.
pub mod Delivery
pub mod Ending
mod Tests
use ryulib_cpp.Common.{
  ℕ, zero, suc, Bool, true, false, ◌&&◌, Option, none, some, List, [], ◌∷◌, ◌++◌, if◌then◌else◌,
  ◌>>=◌,
}
use ryulib_cpp.SimpleThread
use ryulib_cpp.SimpleThread.{SimpleThread, Sleep, returns, waits}
use ryulib_cpp.ThreadQueue

pub record TaskOfScheduler : Type 0 where
  pub task : ℕ
  pub text : List ℕ
  pub pointer : ℕ
  pub size : ℕ
  pub tag : ℕ

abbrev pub null_pointer : ℕ
null_pointer = 0

-- The four overloads of `add` make these tasks.
pub code_task : ℕ → TaskOfScheduler
code_task task = record { task = task; text = []; pointer = null_pointer; size = 0; tag = 0 }

pub text_task : ℕ → List ℕ → TaskOfScheduler
text_task task text = record { task = task; text = text; pointer = null_pointer; size = 0; tag = 0 }

pub pointer_task : ℕ → ℕ → TaskOfScheduler
pointer_task task pointer = record { task = task; text = []; pointer = pointer; size = 0; tag = 0 }

pub full_task : ℕ → List ℕ → ℕ → ℕ → ℕ → TaskOfScheduler
full_task task text pointer size tag = record {
  task = task;
  text = text;
  pointer = pointer;
  size = size;
  tag = tag;
}

-- Where `on_thread_execute` is: before the test of the outer loop, before a `pop`, after a `pop` that
-- returned NULL, in `sleep`, or past its end.
pub data Place : Type 0 where
  testing popping idle sleeping ended : Place

pub data Event : Type 0 where
  handled : TaskOfScheduler → Event
  discarded : TaskOfScheduler → Event
  repeated : Event

pub record Scheduler : Type 0 where
  pub thread : SimpleThread
  pub place : Place
  pub started : Bool
  pub queue : List TaskOfScheduler
  pub on_task : Bool
  pub on_repeat : Bool
  pub log : List Event

pub new_scheduler : Scheduler
unfolding SimpleThread.new_thread
new_scheduler = record {
  thread = SimpleThread.new_thread;
  place = testing;
  started = false;
  queue = [];
  on_task = false;
  on_repeat = false;
  log = [];
}

-- A task that was popped goes to the handler, if there is one, and is deleted.
pub pop_step : Scheduler → Option TaskOfScheduler × List TaskOfScheduler → Scheduler
pop_step s (none, q) = record s { place = idle; queue = q }
pop_step s (some t, q) = record s {
  queue = q;
  log = s.log ++ (if s.on_task then handled t else discarded t) ∷ [];
}

pub place_after_sleep : Sleep → Place
place_after_sleep returns = testing
place_after_sleep waits = sleeping

-- The thread's next action. A timed wait ends, at the latest, when its time is over.
pub place_step : Place → Scheduler → Scheduler
place_step testing s = record s { place = if s.thread.is_terminated then ended else popping }
place_step popping s = pop_step s (ThreadQueue.pop s.queue)
place_step idle s =
    if s.started && s.on_repeat
    then record s { place = testing; log = s.log ++ repeated ∷ [] }
    else record s { place = place_after_sleep (SimpleThread.sleep s.thread) }
place_step sleeping s = record s { place = testing }
place_step ended s = s

pub thread_step : Scheduler → Scheduler
thread_step s = place_step s.place s

pub data Action : Type 0 where
  steps starts stops terminates : Action
  adds : TaskOfScheduler → Action
  sets_on_task sets_on_repeat : Bool → Action

-- `wakeUp` in `add` only shortens a wait.
pub act : Scheduler → Action → Option Scheduler
act s steps = some (thread_step s)
act s starts = some (record s { started = true })
act s stops = some (record s { started = false })
act s terminates = SimpleThread.terminate s.thread >>= λ t. some (record s { thread = t })
act s (adds t) = some (record s { queue = ThreadQueue.push s.queue t })
act s (sets_on_task value) = some (record s { on_task = value })
act s (sets_on_repeat value) = some (record s { on_repeat = value })

pub run : Scheduler → List Action → Option Scheduler
run s [] = some s
run s (a ∷ rest) = act s a >>= λ s'. run s' rest
