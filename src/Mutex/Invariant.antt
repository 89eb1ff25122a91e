-- ===== src/Mutex/Invariant.antt =====
-- What holds of the mutex and the threads in every state that they can reach.
use native.Mathlib.Decide.{ℕ_discrete}
use miranda_dashboard.Base.{
  ℕ, ◌-◌, ◌<◌, ◌≡◌, refl, sym, ap, subst, ◌∙◌, Bool-cases, ◌≢◌, ◌⊎◌, inl, inr, Bool, true, false,
  ◌==◌, arith,
}
use miranda_dashboard.Mutex.{
  died_bit, owner, owner_died, Ret, ok, Pc, returned, getting, waiting, trying, finishing, holding,
  unlocking, handing_over, fatal, exited, try_fast, after_wait, finish_lock, try_lock, after_try,
  check_owner, release, after_unlock, Kernel, System, go, start, in_lock_pi, IsTid, Step, call_get,
  get, sleep, wake, finish, call_try, tried, call_unlock, unlock, unlocked, exit,
}

-- Whether a thread is between locking the mutex and unlocking it.
abbrev pub owns : Pc → Bool
owns finishing = true
owns (holding r) = true
owns unlocking = true
owns handing_over = true
owns _ = false

-- Whether it can be the owner that the futex names: it also can while it waits, when it has been
-- given the mutex and not woken up yet, and after a LOG(FATAL).
abbrev pub may_own : Pc → Bool
may_own (waiting signals_fail timeout) = true
may_own fatal = true
may_own finishing = true
may_own (holding r) = true
may_own unlocking = true
may_own handing_over = true
may_own _ = false

-- Whether it has seen that no owner died, or that one did.
abbrev pub told : Pc → Bool
told (holding r) = true
told unlocking = true
told handing_over = true
told _ = false

pub record IsSafe (s : System) : Type 0 where
  pub owning : (i : ℕ) → owns (s.pc i) ≡ true → (owner s.futex ≡ i) × (0 < i)
  pub owned : (i : ℕ) → owner s.futex ≡ i → 0 < i → may_own (s.pc i) ≡ true
  pub cleared : (i : ℕ) → told (s.pc i) ≡ true → owner_died s.futex ≡ false

in_lock_pi-may_own : (p : Pc) → in_lock_pi p ≡ true → may_own p ≡ true
in_lock_pi-may_own p e = ground arith

owns-may_own : (p : Pc) → owns p ≡ true → may_own p ≡ true
owns-may_own p e = ground arith

told-owns : (p : Pc) → told p ≡ true → owns p ≡ true
told-owns p e = ground arith

pub start-IsSafe : IsSafe start
start-IsSafe = record {
  owning = λ i e. cc;
  owned = λ i e lt. absurd (omega arith);
  cleared = λ i e. cc;
}

-- A thread that did not have the mutex goes where it does not, and the owner stays.
IsSafe-quiet :
    (s : System) (tid v : ℕ) (p : Pc)
    → IsSafe s
    → owns p ≡ false
    → owner v ≡ owner s.futex
    → owner_died v ≡ owner_died s.futex
    → (owner v ≡ tid → 0 < tid → may_own p ≡ true)
    → IsSafe (go s tid v p)
IsSafe-quiet s tid v p h quiet same same' may = record {
  owning = λ i e. ground (arith, h.owning i);
  owned = λ i e lt. ground (arith, h.owned i, may);
  cleared = λ i e. ground (arith, h.cleared i, told-owns p);
}

-- A thread takes the mutex, which was nobody's or its own.
IsSafe-take :
    (s : System) (tid v : ℕ) (p : Pc)
    → IsSafe s
    → IsTid tid
    → (owner s.futex ≡ 0) ⊎ (owner s.futex ≡ tid)
    → owns p ≡ true
    → owner v ≡ tid
    → owner_died v ≡ false ⊎ told p ≡ false
    → IsSafe (go s tid v p)
IsSafe-take s tid v p h is_tid free has takes died = record {
  owning = λ i e. ground (arith, h.owning i);
  owned = λ i e lt. ground (arith, owns-may_own p);
  cleared = λ i e. ground (arith, h.owning i, told-owns (s.pc i));
}

-- A thread that has the mutex gives it up.
IsSafe-give :
    (s : System) (tid v : ℕ) (p : Pc)
    → IsSafe s
    → owner s.futex ≡ tid
    → 0 < tid
    → owns p ≡ false
    → (owner v ≡ 0) ⊎ ((owner v ≢ tid) × (in_lock_pi (s.pc (owner v)) ≡ true))
    → IsSafe (go s tid v p)
IsSafe-give s tid v p h own pos quiet gives = record {
  owning = λ i e. ground (arith, h.owning i);
  owned = λ i e lt. ground (arith, in_lock_pi-may_own (s.pc i));
  cleared = λ i e. ground (arith, h.owning i, told-owns (s.pc i), told-owns p);
}

-- A thread moves on with the mutex that it has.
IsSafe-keep :
    (s : System) (tid v : ℕ) (p : Pc)
    → IsSafe s
    → owns (s.pc tid) ≡ true
    → owns p ≡ true
    → owner v ≡ owner s.futex
    → (owner_died v ≡ false) ⊎ ((owner_died v ≡ owner_died s.futex) × (told (s.pc tid) ≡ true))
    → IsSafe (go s tid v p)
IsSafe-keep s tid v p h had has same died = record {
  owning = λ i e. ground (arith, h.owning i, h.owning tid);
  owned = λ i e lt. ground (arith, h.owned i, owns-may_own p, h.owning tid);
  cleared = λ i e. ground (arith, h.cleared tid, h.owning i, h.owning tid, told-owns (s.pc i));
}

-- What a step computes, computed.
IsSafe-result :
    (s : System) (tid : ℕ) {x y : ℕ × Pc}
    → x ≡ y
    → IsSafe (go s tid y.0 y.1)
    → IsSafe (go s tid x.0 x.1)
IsSafe-result s tid e h = subst (λ (z : ℕ × Pc). IsSafe (go s tid z.0 z.1)) (sym e) h

free-IsSafe :
    (s : System) (tid : ℕ)
    → IsSafe s
    → IsTid tid
    → (s.futex == 0) ≡ true
    → IsSafe (go s tid tid (holding 0))
free-IsSafe s tid h is_tid e =
    IsSafe-take s tid tid (holding 0) h is_tid (inl (ground arith)) refl (ground (arith, is_tid.1))
      (inl (ground (arith, is_tid.1)))

get-IsSafe :
    (s : System) (tid : ℕ) (f t : Bool)
    → IsSafe s
    → IsTid tid
    → IsSafe (go s tid (try_fast tid s.futex f t).0 (try_fast tid s.futex f t).1)
unfolding try_fast
get-IsSafe s tid f t h is_tid = elim (Bool-cases (s.futex == 0)) [
  | inl e ↦ IsSafe-result s tid (rw (try_fast, e)) (free-IsSafe s tid h is_tid e)
  | inr e ↦
      IsSafe-result s tid (rw (try_fast, e))
        (IsSafe-quiet s tid s.futex (waiting f t) h refl refl refl (λ _ _. refl))
]

try-IsSafe :
    (s : System) (tid r : ℕ)
    → IsSafe s
    → IsTid tid
    → s.pc tid ≡ returned r
    → IsSafe (go s tid (try_lock tid s.futex).0 (try_lock tid s.futex).1)
unfolding try_lock
try-IsSafe s tid r h is_tid at = elim (Bool-cases (s.futex == 0)) [
  | inl e ↦ IsSafe-result s tid (rw (try_lock, e)) (free-IsSafe s tid h is_tid e)
  | inr e ↦ elim (Bool-cases (owner_died s.futex)) [
    | inl d ↦ IsSafe-result s tid (rw (try_lock, e, d)) (
        IsSafe-quiet s tid s.futex trying h refl refl refl
          (λ o lt. absurd (ground (arith, h.owned tid))))
    | inr d ↦ IsSafe-result s tid (rw (try_lock, e, d)) (
        IsSafe-quiet s tid s.futex (returned 4) h refl refl refl
          (λ o lt. absurd (ground (arith, h.owned tid))))
  ]
]

finish-IsSafe :
    (s : System) (tid : ℕ)
    → IsSafe s
    → s.pc tid ≡ finishing
    → IsSafe (go s tid (finish_lock s.futex).0 (finish_lock s.futex).1)
unfolding finish_lock
finish-IsSafe s tid h at = elim (Bool-cases (owner_died s.futex)) [
  | inl d ↦ IsSafe-result s tid (rw (finish_lock, d)) (
      IsSafe-keep s tid (s.futex - died_bit) (holding 1) h (ground arith) refl (ground arith)
        (inl (ground arith)))
  | inr d ↦
      IsSafe-result s tid (rw (finish_lock, d))
        (IsSafe-keep s tid s.futex (holding 0) h (ground arith) refl refl (inl d))
]

call_unlock-IsSafe :
    (s : System) (tid r : ℕ)
    → IsSafe s
    → IsTid tid
    → (s.pc tid ≡ holding r) ⊎ (s.pc tid ≡ returned r)
    → IsSafe (go s tid s.futex (check_owner tid s.futex))
unfolding check_owner
call_unlock-IsSafe s tid r h is_tid at = elim (Bool-cases (owner s.futex == tid)) [
  | inl mine ↦ elim at [
    | inl held ↦
        subst (λ p. IsSafe (go s tid s.futex p)) (sym (rw (check_owner, mine)))
          (IsSafe-keep s tid s.futex unlocking h (ground arith) refl refl
            (inr (refl, ground arith)))
    | inr idle ↦ absurd (ground (arith, h.owned tid))
  ]
  | inr other ↦
      subst (λ p. IsSafe (go s tid s.futex p)) (sym (rw (check_owner, other)))
        (IsSafe-quiet s tid s.futex fatal h refl refl refl (λ _ _. refl))
]

unlock-IsSafe :
    (s : System) (tid : ℕ)
    → IsSafe s
    → IsTid tid
    → s.pc tid ≡ unlocking
    → IsSafe (go s tid (release tid s.futex).0 (release tid s.futex).1)
unfolding release
unlock-IsSafe s tid h is_tid at = elim (Bool-cases (s.futex == tid)) [
  | inl e ↦
      IsSafe-result s tid (rw (release, e))
        (IsSafe-give s tid 0 (returned 0) h (ground (arith, h.owning tid)) is_tid.0 refl (inl refl))
  | inr e ↦
      IsSafe-result s tid (rw (release, e)) (
        IsSafe-keep s tid s.futex handing_over h (ground arith) refl refl
          (inr (refl, ground arith)))
]

after_wait-quiet : (f t : Bool) (ret : Ret) → ret ≢ ok → owns (after_wait f t ret) ≡ false
unfolding after_wait
after_wait-quiet f t ok ne = absurd (ne refl)
after_wait-quiet f t ret ne = ground arith

after_try-quiet : (ret : Ret) → ret ≢ ok → owns (after_try ret) ≡ false
unfolding after_try
after_try-quiet ok ne = absurd (ne refl)
after_try-quiet ret ne = ground arith

after_unlock-fatal : (ret : Ret) → ret ≢ ok → after_unlock ret ≡ fatal
unfolding after_unlock
after_unlock-fatal ok ne = absurd (ne refl)
after_unlock-fatal ret ne = refl

module _ (k : Kernel) where
  wake-IsSafe :
      (s : System) (tid : ℕ) (f t : Bool) (ret : Ret) (v : ℕ)
      → IsSafe s
      → IsTid tid
      → s.pc tid ≡ waiting f t
      → k.LockPi tid s.futex ret v
      → IsSafe (go s tid v (after_wait f t ret))
  unfolding after_wait
  wake-IsSafe s tid f t ok v h is_tid at call =
      let (free, takes, died) = k.lock_takes tid s.futex v call in
      IsSafe-take s tid v finishing h is_tid free refl takes (inr refl)
  wake-IsSafe s tid f t ret v h is_tid at call =
      let (other, same, died) = k.lock_fails tid s.futex ret v call (λ e. cc) in
      IsSafe-quiet s tid v (after_wait f t ret) h (after_wait-quiet f t ret (λ e. cc)) same died
        (λ e lt. absurd (other (ground arith)))

  tried-IsSafe :
      (s : System) (tid : ℕ) (ret : Ret) (v : ℕ)
      → IsSafe s
      → IsTid tid
      → s.pc tid ≡ trying
      → k.TrylockPi tid s.futex ret v
      → IsSafe (go s tid v (after_try ret))
  unfolding after_try
  tried-IsSafe s tid ok v h is_tid at call =
      let (free, takes, died) = k.try_takes tid s.futex v call in
      IsSafe-take s tid v finishing h is_tid (inl free) refl takes (inr refl)
  tried-IsSafe s tid ret v h is_tid at call =
      let (same, died) = k.try_fails tid s.futex ret v call (λ e. cc) in
      IsSafe-quiet s tid v (after_try ret) h (after_try-quiet ret (λ e. cc)) same died
        (λ e lt. absurd (ground (arith, h.owned tid)))

  unlocked-IsSafe :
      (s : System) (tid : ℕ) (ret : Ret) (v : ℕ)
      → IsSafe s
      → IsTid tid
      → s.pc tid ≡ handing_over
      → k.UnlockPi (λ i. in_lock_pi (s.pc i) ≡ true) tid s.futex ret v
      → IsSafe (go s tid v (after_unlock ret))
  unfolding after_unlock
  unlocked-IsSafe s tid ok v h is_tid at call =
      let (gives, died) = k.unlock_gives _ tid s.futex v call in
      IsSafe-give s tid v (returned 0) h (ground (arith, h.owning tid)) is_tid.0 refl (ground arith)
  unlocked-IsSafe s tid ret v h is_tid at call =
      let (same, died) = k.unlock_fails _ tid s.futex ret v call (λ e. cc) in
      IsSafe-quiet s tid v fatal h refl same died (λ e lt. refl)

  exit-IsSafe :
      (s : System) (tid v : ℕ)
      → IsSafe s
      → IsTid tid
      → k.Exit (λ i. (i ≢ tid) × (in_lock_pi (s.pc i) ≡ true)) tid s.futex v
      → IsSafe (go s tid v exited)
  exit-IsSafe s tid v h is_tid call = elim (ℕ_discrete (owner s.futex) tid) [
    | yes mine ↦
        let (gives, died) = k.exit_marks _ tid s.futex v call mine in
        IsSafe-give s tid v exited h mine is_tid.0 refl gives
    | no other ↦
        let same = k.exit_leaves _ tid s.futex v call other in
        IsSafe-quiet s tid v exited h refl (ap owner same) (ap owner_died same)
          (λ e lt. absurd (other (ground arith)))
  ]

  -- Every step keeps the mutex safe.
  pub Step-IsSafe : {s t : System} → Step k s t → IsSafe s → IsSafe t
  Step-IsSafe {s} (call_get tid r f t is_tid at) h =
      IsSafe-quiet s tid s.futex (getting f t) h refl refl refl
        (λ e lt. absurd (ground (arith, h.owned tid)))
  Step-IsSafe {s} (get tid f t is_tid at) h = get-IsSafe s tid f t h is_tid
  Step-IsSafe {s} (sleep v call) h =
      let (same, died) = k.sleep_keeps s.futex v call in
      record {
        owning = λ i e. (same ∙ (h.owning i e).0, (h.owning i e).1);
        owned = λ i e lt. h.owned i (sym same ∙ e) lt;
        cleared = λ i e. died ∙ h.cleared i e;
      }
  Step-IsSafe {s} (wake tid f t ret v is_tid at call) h =
      wake-IsSafe s tid f t ret v h is_tid at call
  Step-IsSafe {s} (finish tid is_tid at) h = finish-IsSafe s tid h at
  Step-IsSafe {s} (call_try tid r is_tid at) h = try-IsSafe s tid r h is_tid at
  Step-IsSafe {s} (tried tid ret v is_tid at call) h = tried-IsSafe s tid ret v h is_tid at call
  Step-IsSafe {s} (call_unlock tid r is_tid at) h = call_unlock-IsSafe s tid r h is_tid at
  Step-IsSafe {s} (unlock tid is_tid at) h = unlock-IsSafe s tid h is_tid at
  Step-IsSafe {s} (unlocked tid ret v is_tid at call) h =
      unlocked-IsSafe s tid ret v h is_tid at call
  Step-IsSafe {s} (exit tid v is_tid call) h = exit-IsSafe s tid v h is_tid call
