-- ===== src/Condition/Phases.antt =====
-- Where a thread stands in the mutex, in each phase of a call of the condition variable.
use miranda_dashboard.Base.{ℕ, ◌≡◌, refl, arith, Bool, true, false, ◌==◌, if◌then◌else◌}
use miranda_dashboard.Mutex.{
  Ret, ok, timed_out, interrupted, would_block, other_error, Pc, returned, getting, waiting,
  finishing, holding, unlocking, handing_over, fatal, exited, try_fast, after_wait, finish_lock,
  check_owner, release, after_unlock,
}
use miranda_dashboard.Condition.{
  Phase, outside, loaded, releasing, entering, asleep, relocks, relocking, waking, failed,
  in_unlock, in_get, is_free, is_idle,
}

-- Where a thread stands in the mutex while it relocks it: it never gives up, and gets it with 0, or
-- with 1 if the last owner died.
abbrev pub in_relock : Pc → Bool
in_relock (getting false false) = true
in_relock (waiting false false) = true
in_relock finishing = true
in_relock (holding r) = if r == 0 then true else r == 1
in_relock fatal = true
in_relock exited = true
in_relock _ = false

abbrev pub in_release : Pc → Bool
in_release unlocking = true
in_release handing_over = true
in_release (returned r) = r == 0
in_release fatal = true
in_release exited = true
in_release _ = false

abbrev pub has_returned : Pc → Bool
has_returned (returned r) = r == 0
has_returned _ = false

-- Where it stands in the mutex in each phase.
abbrev pub fits : Phase → Pc → Bool
fits outside p = true
fits (loaded wait_start) p = is_idle p
fits (releasing wait_start) p = in_release p
fits (entering wait_start) p = has_returned p
fits (asleep wait_start) p = has_returned p
fits relocks p = has_returned p
fits relocking p = in_relock p
fits (waking number) p = is_idle p
fits failed p = true

-- A thread moves in the mutex from `p` to `q`, and fits in what phase it may be.
abbrev pub Keeps : Pc → Pc → Type 0
Keeps p q = (h : Phase) → is_free h p ≡ true → fits h p ≡ true → fits h q ≡ true

-- From where it is free only outside.
pub free_outside : (p : Pc) → in_unlock p ≡ false → in_get p ≡ false → (q : Pc) → Keeps p q
free_outside p e e' q outside f h = refl
free_outside p e e' q (loaded w) f h = cc
free_outside p e e' q (releasing w) f h = cc
free_outside p e e' q (entering w) f h = cc
free_outside p e e' q (asleep w) f h = cc
free_outside p e e' q relocks f h = cc
free_outside p e e' q relocking f h = cc
free_outside p e e' q (waking n) f h = cc
free_outside p e e' q failed f h = cc

pub free_unlock : (p : Pc) → in_get p ≡ false → (q : Pc) → in_release q ≡ true → Keeps p q
free_unlock p e q e' outside f h = refl
free_unlock p e q e' (loaded w) f h = cc
free_unlock p e q e' (releasing w) f h = e'
free_unlock p e q e' (entering w) f h = cc
free_unlock p e q e' (asleep w) f h = cc
free_unlock p e q e' relocks f h = cc
free_unlock p e q e' relocking f h = cc
free_unlock p e q e' (waking n) f h = cc
free_unlock p e q e' failed f h = cc

pub free_get :
    (p : Pc)
    → in_unlock p ≡ false
    → (q : Pc) → (in_relock p ≡ true → in_relock q ≡ true)
    → Keeps p q
free_get p e q e' outside f h = refl
free_get p e q e' (loaded w) f h = cc
free_get p e q e' (releasing w) f h = cc
free_get p e q e' (entering w) f h = cc
free_get p e q e' (asleep w) f h = cc
free_get p e q e' relocks f h = cc
free_get p e q e' relocking f h = e' h
free_get p e q e' (waking n) f h = cc
free_get p e q e' failed f h = cc

pub try_fast-relock :
    (tid v : ℕ) (signals_fail timeout : Bool)
    → in_relock (getting signals_fail timeout) ≡ true
    → in_relock (try_fast tid v signals_fail timeout).1 ≡ true
unfolding try_fast
try_fast-relock tid v true timeout h = cc
try_fast-relock tid v false true h = cc
try_fast-relock tid v false false h = ground arith

pub after_wait-relock :
    (signals_fail timeout : Bool) (ret : Ret)
    → in_relock (waiting signals_fail timeout) ≡ true
    → in_relock (after_wait signals_fail timeout ret) ≡ true
unfolding after_wait
after_wait-relock true timeout ret h = cc
after_wait-relock false true ret h = cc
after_wait-relock false false ok h = refl
after_wait-relock false false timed_out h = refl
after_wait-relock false false interrupted h = refl
after_wait-relock false false would_block h = refl
after_wait-relock false false other_error h = refl

pub finish_lock-relock : (v : ℕ) → in_relock (finish_lock v).1 ≡ true
unfolding finish_lock
finish_lock-relock v = ground arith

pub release-release : (tid v : ℕ) → in_release (release tid v).1 ≡ true
unfolding release
release-release tid v = ground arith

pub after_unlock-release : (ret : Ret) → in_release (after_unlock ret) ≡ true
unfolding after_unlock
after_unlock-release ok = refl
after_unlock-release timed_out = refl
after_unlock-release interrupted = refl
after_unlock-release would_block = refl
after_unlock-release other_error = refl

pub check_owner-release : (tid v : ℕ) → in_release (check_owner tid v) ≡ true
unfolding check_owner
check_owner-release tid v = ground arith

pub free_exit : (p : Pc) → Keeps p exited
free_exit p outside f h = refl
free_exit p (loaded w) f h = cc
free_exit p (releasing w) f h = refl
free_exit p (entering w) f h = cc
free_exit p (asleep w) f h = cc
free_exit p relocks f h = cc
free_exit p relocking f h = refl
free_exit p (waking n) f h = cc
free_exit p failed f h = cc
