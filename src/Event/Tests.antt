-- ===== src/Event/Tests.antt =====
-- aos/common/event.cc: thread 5 waits, thread 7 sets the event, and thread 6 clears it.
use miranda_dashboard.Base.{ℕ, ◌+◌, ◌≡◌, ◌≢◌, refl, arith, Bool, true, false, Option, none, some}
use miranda_dashboard.Mutex.{Ret, ok, timed_out, interrupted, would_block, other_error}
use miranda_dashboard.Event.{
  wait_result, nothing, waited, cleared, returned, checking, entering, asleep, waking, after_load,
  wait_ends, set_ends, futex_unset, clear, Queue, Kernel, System, go, put_queue, new_event, Step,
  calls_wait, checks, sleeps, leaves, stores, wakes, clears, Reach, here, next,
}
use miranda_dashboard.Event.Safety.{is_pending, wait_returns}
use miranda_dashboard.Event.Unset.{is_waking, Unset, stays, follows, waits_go_on}
use miranda_dashboard.Event.Counts.{set_level, Run, begins, goes_on, Run-sets}

-- A kernel that makes no other errors than interruptions.
abbrev pub Enters : ℕ → ℕ → Option Ret → Type 0
Enters v expected none = v ≡ expected
Enters v expected (some ok) = ⊥
Enters v expected (some would_block) = v ≢ expected
Enters v expected (some timed_out) = ⊥
Enters v expected (some interrupted) = Unit {0}
Enters v expected (some other_error) = ⊥

abbrev pub Leaves : Bool → Ret → Type 0
Leaves queued ok = queued ≡ false
Leaves queued would_block = ⊥
Leaves queued timed_out = ⊥
Leaves queued interrupted = Unit {0}
Leaves queued other_error = ⊥

abbrev pub Wakes : ℕ → Queue → Option ℕ → Queue → Type 0
Wakes number queue ret queue' = (i : ℕ) → queue' i ≡ false

pub not_ok : (v expected : ℕ) (ret : Ret) → Enters v expected (some ret) → ret ≢ ok
not_ok v expected ok h e = absurd h
not_ok v expected would_block h e = cc
not_ok v expected timed_out h e = cc
not_ok v expected interrupted h e = cc
not_ok v expected other_error h e = cc

pub not_would_block : (queued : Bool) (ret : Ret) → Leaves queued ret → ret ≢ would_block
not_would_block queued would_block h e = absurd h
not_would_block queued ok h e = cc
not_would_block queued timed_out h e = cc
not_would_block queued interrupted h e = cc
not_would_block queued other_error h e = cc

abbrev pub kernel : Kernel
kernel = record {
  Enter = Enters;
  Leave = Leaves;
  Wake = Wakes;
  enter_compares = λ v expected h. h;
  enter_blocks = λ v expected h. h;
  enter_sleeps = not_ok;
  enter_differs = λ v expected h. h;
  leave_woken = λ queued h. h;
  leave_compared = not_would_block;
  leave_goes_on = refl;
  wake_removes = λ number ret queue queue' h i no_one. h i;
  wake_all = λ number r queue queue' le h. h;
}

abbrev nobody : Queue
nobody i = false

-- Thread 5 sleeps, and thread 7 sets the event.
abbrev asked : System
asked = go new_event 5 0 nobody (checking false)

abbrev loaded : System
loaded = go asked 5 0 nobody (entering false)

abbrev slept : System
slept = go loaded 5 0 (put_queue nobody 5 true) (asleep false)

abbrev stored : System
stored = go slept 7 1 (put_queue nobody 5 true) waking

abbrev woken : System
woken = go stored 7 1 nobody (returned nothing)

woken-Reach : Reach kernel woken
unfolding after_load set_ends
woken-Reach =
    next
      (next
        (next (next (next here (calls_wait 5 nothing false refl)) (checks 5 false refl))
          (sleeps 5 false refl refl))
        (stores 7 1 nothing refl (omega arith)))
      (wakes 7 (some 1) nobody refl (λ i. refl))

none_pending : (i : ℕ) → is_pending (woken.pc i) ≡ false
none_pending i = ground arith

wait_returns_example : (t : System) × Step kernel woken t × (t.pc 5 ≡ returned (waited true))
wait_returns_example =
    wait_returns kernel {s = woken} woken-Reach (λ e. omega (arith, e)) none_pending 5 refl

-- Thread 5 is interrupted while the event is unset, and starts again.
none_waking : (i : ℕ) → is_waking (asked.pc i) ≡ false
none_waking i = ground arith

abbrev again : System
again = go slept 5 0 (put_queue (put_queue nobody 5 true) 5 false) (checking false)

slept_waking : (i : ℕ) → is_waking (slept.pc i) ≡ false
slept_waking i = ground arith

again_waking : (i : ℕ) → is_waking (again.pc i) ≡ false
again_waking i = ground arith

loaded_waking : (i : ℕ) → is_waking (loaded.pc i) ≡ false
loaded_waking i = ground arith

again-Unset : Unset kernel asked again
unfolding after_load wait_ends wait_result
again-Unset =
    follows
      (follows (follows stays (checks 5 false refl) (refl, loaded_waking))
        (sleeps 5 false refl refl) (refl, slept_waking))
      (leaves 5 false interrupted refl tt) (refl, again_waking)

waits_go_on_example : again.pc 5 ≢ returned (waited true)
waits_go_on_example =
    waits_go_on kernel {s = asked} {t = again} 5 false (refl, none_waking) refl again-Unset

-- Thread 6 clears the event between the two steps of the Set of thread 7; thread 5 starts to wait
-- after that, while the event is unset, and is told that it is set.
abbrev half_set : System
half_set = go new_event 7 1 nobody waking

abbrev cleared_early : System
cleared_early = go half_set 6 0 nobody (returned (cleared true))

abbrev late_asked : System
late_asked = go cleared_early 5 0 nobody (checking false)

abbrev late_loaded : System
late_loaded = go late_asked 5 0 nobody (entering false)

abbrev late_slept : System
late_slept = go late_loaded 5 0 (put_queue nobody 5 true) (asleep false)

abbrev late_woken : System
late_woken = go late_slept 7 0 nobody (returned nothing)

abbrev told : System
told = go late_woken 5 0 (put_queue nobody 5 false) (returned (waited true))

told-Reach : Reach kernel told
unfolding after_load wait_ends wait_result set_ends clear futex_unset
told-Reach =
    next
      (next
        (next
          (next
            (next (next (next here (stores 7 1 nothing refl (omega arith))) (clears 6 nothing refl))
              (calls_wait 5 nothing false refl))
            (checks 5 false refl))
          (sleeps 5 false refl refl))
        (wakes 7 (some 1) nobody refl (λ i. refl)))
      (leaves 5 false ok refl refl)

-- The event is set once, and cleared once.
cleared-Run : Run kernel new_event 1 1 cleared_early
unfolding clear futex_unset
cleared-Run =
    goes_on (goes_on begins (stores 7 1 nothing refl (omega arith))) (clears 6 nothing refl)

Run-sets_example : set_level 0 + 1 ≡ 1 + set_level 0
Run-sets_example = Run-sets kernel {s = new_event} {t = cleared_early} cleared-Run
