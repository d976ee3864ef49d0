-- ===== src/PipeSender.antt =====
-- include/ryulib/PipeSender.hpp: the tasks that the Worker of a PipeSender works off. The answers of
-- the pipes are arguments; a Memory is its bytes.
pub mod Handles
use ryulib_cpp.Common.{
  ℕ, ◌+◌, ◌-◌, Bool, true, false, Option, none, some, List, [], ◌∷◌, ◌++◌, if◌then◌else◌,
}

pub data Task : Type 0 where
  opens : ℕ → Task
  closes : Task
  sends : List ℕ → Task

-- `pipe` is `none` for INVALID_HANDLE_VALUE. `handles` counts the pipes that were created and not
-- closed, `memories` the Memory objects that were made and not deleted; `tasks` is the queue of the
-- Worker, `written` what went into the pipe, and `greeted` how often OnConnected was called.
pub record PipeSender : Type 0 where
  pub pipe : Option ℕ
  pub is_connected : Bool
  pub handles : ℕ
  pub memories : ℕ
  pub tasks : List Task
  pub written : List (List ℕ)
  pub greeted : ℕ

pub new_sender : PipeSender
new_sender = record {
  pipe = none;
  is_connected = false;
  handles = 0;
  memories = 0;
  tasks = [];
  written = [];
  greeted = 0;
}

-- `open`, with what CreateNamedPipe gives.
pub open_pipe : Option ℕ → PipeSender → Bool × PipeSender
open_pipe none s = (false, s)
open_pipe (some pipe) s =
    (true, record s { handles = s.handles + 1; tasks = s.tasks ++ opens pipe ∷ [] })

pub close : PipeSender → PipeSender
close s = record s { tasks = s.tasks ++ closes ∷ [] }

pub send : List ℕ → PipeSender → PipeSender
send bytes s =
    if s.is_connected
    then record s { memories = s.memories + 1; tasks = s.tasks ++ sends bytes ∷ [] }
    else s

-- The handle is written over. With the answer of ConnectNamedPipe.
pub do_open : Bool → ℕ → PipeSender → PipeSender
do_open true pipe s = record s { pipe = some pipe; is_connected = true; greeted = s.greeted + 1 }
do_open false pipe s = record s { pipe = none; handles = s.handles - 1 }

pub close_handle : Option ℕ → PipeSender → PipeSender
close_handle none s = s
close_handle (some pipe) s = record s { pipe = none; handles = s.handles - 1 }

pub do_close : PipeSender → PipeSender
unfolding close_handle
do_close s = close_handle s.pipe (record s { is_connected = false })

pub write_pipe : Option ℕ → List ℕ → PipeSender → PipeSender
write_pipe none bytes s = s
write_pipe (some pipe) bytes s = record s {
  written = s.written ++ bytes ∷ [];
  memories = s.memories - 1;
}

pub do_send : List ℕ → PipeSender → PipeSender
unfolding write_pipe
do_send bytes s = write_pipe s.pipe bytes s

-- The handler of the Worker.
pub on_task : Bool → Task → PipeSender → PipeSender
unfolding do_open do_close do_send
on_task connects (opens pipe) s = do_open connects pipe s
on_task connects closes s = do_close s
on_task connects (sends bytes) s = do_send bytes s

-- The Worker takes its first task.
pub work_on : List Task → Bool → PipeSender → PipeSender
unfolding on_task
work_on [] connects s = s
work_on (t ∷ ts) connects s = on_task connects t (record s { tasks = ts })

pub work : Bool → PipeSender → PipeSender
unfolding work_on
work connects s = work_on s.tasks connects s
