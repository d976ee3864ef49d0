-- ===== src/SuspensionQueue.antt =====
-- include/ryulib/SuspensionQueue.hpp with any number of threads that push and one that pops, as the
-- Worker uses it. `push` and `pop` hold the mutex except inside `condition_.wait` and for the
-- `notify_all`, so the state is that between two such sections. `T` is a pointer type, whose NULL is `none`.
pub mod Waiting
mod Tests
use ryulib_cpp.Common.{
  ℕ, ◌+◌, ◌-◌, Bool, true, false, Option, none, some, List, [], ◌∷◌, ◌++◌, if◌then◌else◌,
}

-- The consumer: not in `pop`; in `condition_.wait`, woken or not; or back from `pop` with its result.
pub data Consumer {ℓ} (A : Type ℓ) : Type ℓ where
  outside : Consumer A
  waiting : (woken : Bool) → Consumer A
  returned : Option A → Consumer A

-- `owed` counts the `notify_all` still to come after a `push` or a `terminate` whose first part is
-- done; `got` lists the items that `pop` returned.
pub record SuspensionQueue {ℓ} (A : Type ℓ) : Type ℓ where
  pub is_terminated : Bool
  pub queue : List A
  pub consumer : Consumer A
  pub owed : ℕ
  pub got : List A

module _ {ℓ} {A : Type ℓ} where
  unfoldable pub new_queue : SuspensionQueue A
  new_queue = record { is_terminated = false; queue = []; consumer = outside; owed = 0; got = [] }

  -- `notify_all` and a wakeup for no reason do the same to a thread that waits.
  unfoldable pub wake : Consumer A → Consumer A
  wake outside = outside
  wake (waiting woken) = waiting true
  wake (returned item) = returned item

  -- The section of `push` under the lock; `notify` is its last line.
  unfoldable pub push : SuspensionQueue A → A → SuspensionQueue A
  push s item = record s { queue = s.queue ++ item ∷ []; owed = s.owed + 1 }

  -- The first line of `terminate`, which takes no lock; `notify` is its other line.
  unfoldable pub terminate : SuspensionQueue A → SuspensionQueue A
  terminate s = record s { is_terminated = true; owed = s.owed + 1 }

  unfoldable pub notify : SuspensionQueue A → SuspensionQueue A
  unfolding wake
  notify s = record s { consumer = wake s.consumer; owed = s.owed - 1 }

  -- The test of the loop in `pop`, and what follows the loop.
  unfoldable pub take_or_wait : List A → SuspensionQueue A → SuspensionQueue A
  take_or_wait [] s = record s { consumer = waiting false }
  take_or_wait (item ∷ q) s = record s {
    queue = q;
    consumer = returned (some item);
    got = s.got ++ item ∷ [];
  }

  -- A call of `pop`, up to its return or to the wait.
  unfoldable pub pop : SuspensionQueue A → SuspensionQueue A
  unfolding take_or_wait
  pop s = take_or_wait s.queue s

  -- From the end of a wait on. The flag is tested before the queue.
  unfoldable pub resume_as : Consumer A → SuspensionQueue A → SuspensionQueue A
  unfolding take_or_wait
  resume_as (waiting true) s =
      let again = take_or_wait s.queue s in
      if s.is_terminated then record s { consumer = returned none } else again
  resume_as (waiting false) s = s
  resume_as outside s = s
  resume_as (returned item) s = s

  unfoldable pub resume : SuspensionQueue A → SuspensionQueue A
  unfolding resume_as
  resume s = resume_as s.consumer s

  unfoldable pub wake_up : SuspensionQueue A → SuspensionQueue A
  unfolding wake
  wake_up s = record s { consumer = wake s.consumer }

-- `pops` is for a consumer that is not in `pop` already; `wakes` is a spurious wakeup.
pub data Action {ℓ} (A : Type ℓ) : Type ℓ where
  pops resumes terminates notifies wakes : Action A
  pushes : A → Action A

module _ {ℓ} {A : Type ℓ} where
  unfoldable pub pop_as : Consumer A → SuspensionQueue A → SuspensionQueue A
  unfolding pop
  pop_as outside s = pop s
  pop_as (returned item) s = pop s
  pop_as (waiting woken) s = s

  unfoldable pub act : SuspensionQueue A → Action A → SuspensionQueue A
  unfolding pop_as resume terminate notify wake_up push
  act s pops = pop_as s.consumer s
  act s resumes = resume s
  act s terminates = terminate s
  act s notifies = notify s
  act s wakes = wake_up s
  act s (pushes item) = push s item

  unfoldable pub run : SuspensionQueue A → List (Action A) → SuspensionQueue A
  unfolding act
  run s [] = s
  run s (a ∷ acts) = run (act s a) acts
