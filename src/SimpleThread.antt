-- ===== src/SimpleThread.antt =====
-- include/ryulib/SimpleThread.hpp: a std::thread with a flag. A member function of std::thread that
-- throws because no thread is attached is `none`.
pub mod Lifecycle
mod Tests
use ryulib_cpp.Common.{Bool, true, false, Option, none, some, if◌then◌else◌, ◌>>=◌}

-- `attached` is `thread_.joinable()`, `on_terminated` whether a handler is set, `fired` whether it
-- was called.
pub record SimpleThread : Type 0 where
  pub is_terminated : Bool
  pub attached : Bool
  pub on_terminated : Bool
  pub fired : Bool

unfoldable pub new_thread : SimpleThread
new_thread = record { is_terminated = false; attached = true; on_terminated = false; fired = false }

unfoldable pub detach : SimpleThread → Option SimpleThread
detach t = if t.attached then some (record t { attached = false }) else none

-- `join`, which ends once the thread has.
pub join : SimpleThread → Option SimpleThread
join t = if t.attached then some (record t { attached = false }) else none

-- The destructor.
pub destroy : SimpleThread → Option SimpleThread
unfolding detach
destroy t = detach t

-- Whether a call of `sleep` or `sleepTight` returns at once or waits for the condition.
pub data Sleep : Type 0 where
  returns waits : Sleep

unfoldable pub sleep : SimpleThread → Sleep
sleep t = if t.is_terminated then waits else returns

unfoldable pub terminate : SimpleThread → Option SimpleThread
unfolding detach
terminate t = detach (record t { is_terminated = true })

unfoldable pub terminate_and_wait : SimpleThread → Option SimpleThread
unfolding join
terminate_and_wait t = join (record t { is_terminated = true })

unfoldable pub fire_terminated : SimpleThread → SimpleThread
fire_terminated t = if t.on_terminated then record t { fired = true } else t

-- The thread is killed, so that it does not fire the event itself.
unfoldable pub terminate_now : SimpleThread → SimpleThread
unfolding fire_terminated
terminate_now t = fire_terminated (record t { is_terminated = true })

pub set_on_terminated : SimpleThread → Bool → SimpleThread
set_on_terminated t value = record t { on_terminated = value }
