-- ===== src/SuspensionQueue/Tests.antt =====
-- A SuspensionQueue of numbers, its consumer and the threads that push.
use ryulib_cpp.Common.{◌≡◌, refl, List, [], ◌∷◌, ℕ, inl}
use ryulib_cpp.SuspensionQueue.{
  SuspensionQueue, new_queue, outside, Action, pops, resumes, terminates, notifies, wakes, pushes,
  run,
}
use ryulib_cpp.SuspensionQueue.Waiting.{NoneMissed, run-NoneMissed}

abbrev acts : List (Action ℕ)
acts = pops ∷ wakes ∷ resumes ∷ pushes 1 ∷ pushes 2 ∷ notifies ∷ resumes ∷ terminates ∷ []

abbrev start : SuspensionQueue ℕ
start = new_queue

start-NoneMissed : NoneMissed start
unfolding new_queue
start-NoneMissed e = inl refl

run-NoneMissed_example : NoneMissed (run start acts)
run-NoneMissed_example = run-NoneMissed start acts start-NoneMissed

start-outside : start.consumer ≡ outside
unfolding new_queue
start-outside = refl

start-empty : start.queue ≡ []
unfolding new_queue
start-empty = refl
