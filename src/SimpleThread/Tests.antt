-- ===== src/SimpleThread/Tests.antt =====
-- A thread that was just made.
use ryulib_cpp.Common.{◌≡◌, refl, some, none, true, false, ◌>>=◌}
use ryulib_cpp.SimpleThread.{
  SimpleThread, new_thread, destroy, terminate, terminate_and_wait, terminate_now,
}
use ryulib_cpp.SimpleThread.Lifecycle.{destroy-terminate}

abbrev asked_to_end : SimpleThread
asked_to_end = record {
  is_terminated = true;
  attached = false;
  on_terminated = false;
  fired = false;
}

new_thread-attached : new_thread.attached ≡ true
unfolding new_thread
new_thread-attached = refl

new_thread-runs : new_thread.is_terminated ≡ false
unfolding new_thread
new_thread-runs = refl

terminate-new_thread : terminate new_thread ≡ some asked_to_end
unfolding terminate new_thread
terminate-new_thread = refl

destroy-terminate_example :
    ((terminate new_thread >>= destroy) ≡ none)
    × ((terminate_and_wait new_thread >>= destroy) ≡ none)
    × (destroy (terminate_now new_thread)
        ≡ some (record (terminate_now new_thread) { attached = false }))
destroy-terminate_example = destroy-terminate new_thread new_thread-attached
