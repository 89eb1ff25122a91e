-- ===== src/Mutex/Safety.antt =====
-- What users of a mutex rely on, in every state that the threads can reach.
use native.Mathlib.Decide.{ℕ_discrete}
use miranda_dashboard.Base.{ℕ, ◌<◌, ◌≡◌, refl, sym, ap, ◌∙◌, ◌⊎◌, inl, inr, Bool, true, arith}
use miranda_dashboard.Mutex.{
  owner, owner_died, Ret, ok, finishing, holding, try_fast, finish_lock, try_lock, Kernel, System,
  Step, call_get, get, sleep, wake, finish, call_try, tried, call_unlock, unlock, unlocked, exit,
  Reach, here, next,
}
use miranda_dashboard.Mutex.Invariant.{owns, may_own, IsSafe, start-IsSafe, Step-IsSafe}

pub Reach-IsSafe : (k : Kernel) {s : System} → Reach k s → IsSafe s
Reach-IsSafe k here = start-IsSafe
Reach-IsSafe k (next r st) = Step-IsSafe k st (Reach-IsSafe k r)

-- With a kernel that does what the code relies on: of threads in any number, that lock, try, time out, are interrupted, unlock and die in any order,
-- never two are at once between locking the mutex and unlocking it.
pub mutual_exclusion :
    (k : Kernel) {s : System}
    → Reach k s
    → (i j : ℕ) → owns (s.pc i) ≡ true
    → owns (s.pc j) ≡ true
    → i ≡ j
mutual_exclusion k r i j in_i in_j =
    let h = Reach-IsSafe k r in sym (h.owning i in_i).0 ∙ (h.owning j in_j).0

-- With a kernel that does what the code relies on, in every state that threads can reach, a mutex
-- that has an owner is not lost: its owner is between locking and unlocking it, or waits in the
-- kernel, which has given it the mutex, or has crashed; it is not a thread with no call under way, nor
-- one that exited.
pub owner-may_own :
    (k : Kernel) {s : System}
    → Reach k s
    → 0 < owner s.futex
    → may_own (s.pc (owner s.futex)) ≡ true
owner-may_own k {s} r pos = (Reach-IsSafe k r).owned (owner s.futex) refl pos

-- The mark of an owner's death is in the futex after a step, or a call that locked the mutex has
-- just returned 1.
abbrev pub Reported : System → System → Type 0
Reported s t = (owner_died t.futex ≡ true) ⊎ ((i : ℕ) × (s.pc i ≡ finishing) × (t.pc i ≡ holding 1))

wake-died :
    (k : Kernel) (tid v : ℕ) (ret : Ret) (v' : ℕ)
    → k.LockPi tid v ret v'
    → owner_died v' ≡ owner_died v
wake-died k tid v ok v' call = (k.lock_takes tid v v' call).2
wake-died k tid v ret v' call = (k.lock_fails tid v ret v' call (λ e. cc)).2

try-died :
    (k : Kernel) (tid v : ℕ) (ret : Ret) (v' : ℕ)
    → k.TrylockPi tid v ret v'
    → owner_died v' ≡ owner_died v
try-died k tid v ok v' call = (k.try_takes tid v v' call).2
try-died k tid v ret v' call = (k.try_fails tid v ret v' call (λ e. cc)).1

exit-died :
    (k : Kernel) (Waits : ℕ → Type 0) (tid v v' : ℕ)
    → k.Exit Waits tid v v'
    → owner_died v ≡ true
    → owner_died v' ≡ true
exit-died k Waits tid v v' call d = elim (ℕ_discrete (owner v) tid) [
  | yes mine ↦ (k.exit_marks Waits tid v v' call mine).1
  | no other ↦ ap owner_died (k.exit_leaves Waits tid v v' call other) ∙ d
]

try_fast-died : (tid v : ℕ) (f t : Bool) → owner_died v ≡ true → (try_fast tid v f t).0 ≡ v
unfolding try_fast
try_fast-died tid v f t d = ground arith

try_lock-died : (tid v : ℕ) → owner_died v ≡ true → (try_lock tid v).0 ≡ v
unfolding try_lock
try_lock-died tid v d = ground arith

finish_lock-died : (v : ℕ) → owner_died v ≡ true → (finish_lock v).1 ≡ holding 1
unfolding finish_lock
finish_lock-died v d = rw (finish_lock, d)

-- With a kernel that does what the code relies on, in every state that threads can reach, the death
-- of an owner is not lost: a step in which the mark of it goes from the futex is one in
-- which a call that locks the mutex returns 1.
pub death-Reported :
    (k : Kernel) {s t : System} → Reach k s → Step k s t → owner_died s.futex ≡ true → Reported s t
death-Reported k {s} r (call_get tid r' f t is_tid at) d = inl d
death-Reported k {s} r (get tid f t is_tid at) d =
    inl (ap owner_died (try_fast-died tid s.futex f t d) ∙ d)
death-Reported k {s} r (sleep v call) d = inl ((k.sleep_keeps s.futex v call).1 ∙ d)
death-Reported k {s} r (wake tid f t ret v is_tid at call) d =
    inl (wake-died k tid s.futex ret v call ∙ d)
death-Reported k {s} r (finish tid is_tid at) d =
    inr (tid, at, ground (arith, finish_lock-died s.futex d))
death-Reported k {s} r (call_try tid r' is_tid at) d =
    inl (ap owner_died (try_lock-died tid s.futex d) ∙ d)
death-Reported k {s} r (tried tid ret v is_tid at call) d =
    inl (try-died k tid s.futex ret v call ∙ d)
death-Reported k {s} r (call_unlock tid r' is_tid at) d = inl d
death-Reported k {s} r (unlock tid is_tid at) d =
    absurd (ground (arith, (Reach-IsSafe k r).cleared tid))
death-Reported k {s} r (unlocked tid ret v is_tid at call) d =
    absurd (ground (arith, (Reach-IsSafe k r).cleared tid))
death-Reported k {s} r (exit tid v is_tid call) d = inl (exit-died k _ tid s.futex v call d)
