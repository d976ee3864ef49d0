-- ===== src/SimpleThread/Lifecycle.antt =====
-- The calls that end a SimpleThread, one after another.
use ryulib_cpp.Common.{◌≡◌, true, false, none, some, arith, ◌>>=◌}
use ryulib_cpp.SimpleThread.{
  SimpleThread, destroy, returns, waits, sleep, terminate, terminate_and_wait, terminate_now,
}

-- After terminate or terminateAndWait on an attached thread, the destructor detaches a thread that
-- is no longer attached: std::thread throws. After terminateNow alone it does not.
pub destroy-terminate :
    (t : SimpleThread)
    → t.attached ≡ true
    → ((terminate t >>= destroy) ≡ none)
      × ((terminate_and_wait t >>= destroy) ≡ none)
      × (destroy (terminate_now t) ≡ some (record (terminate_now t) { attached = false }))
unfolding terminate terminate_and_wait terminate_now destroy
destroy-terminate t a = ground arith

-- On a thread that is not asked to end, sleep returns at once; after terminate it waits.
pub sleep-terminate :
    (t t' : SimpleThread)
    → t.is_terminated ≡ false
    → terminate t ≡ some t'
    → (sleep t ≡ returns) × (sleep t' ≡ waits)
unfolding terminate sleep
sleep-terminate t t' r e = ground arith
