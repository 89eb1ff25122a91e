-- ===== src/Condition/Moving.antt =====
-- What a step changes of where the threads stand, in the mutex and in the condition variable.
use native.Mathlib.Decide.{ℕ_discrete}
use miranda_dashboard.Base.{
  ℕ, ◌≡◌, ◌⊎◌, inl, inr, refl, sym, ap, subst, ◌∙◌, arith, true, false, ◌≢◌,
}
use miranda_dashboard.Mutex
use miranda_dashboard.Mutex.{
  Ret, ok, timed_out, interrupted, would_block, other_error, Pc, returned, getting, waiting, trying,
  finishing, holding, unlocking, handing_over, fatal, exited, try_fast, after_wait, finish_lock,
  try_lock, after_try, check_owner, release, after_unlock, call_get, get, sleep, wake, finish,
  call_try, tried, call_unlock, unlock, exit,
}
use miranda_dashboard.Condition.{Phase, System, go, in_unlock}
use miranda_dashboard.Condition.Phases.{
  in_relock, fits, Keeps, free_outside, free_unlock, free_get, free_exit, try_fast-relock,
  after_wait-relock, finish_lock-relock, release-release, after_unlock-release,
}

pub mutex_self : (m : Mutex.System) (tid v : ℕ) (p : Pc) → (Mutex.go m tid v p).pc tid ≡ p
mutex_self m tid v p = ground arith

pub mutex_other :
    (m : Mutex.System) (tid v : ℕ) (p : Pc) (i : ℕ) → i ≢ tid → (Mutex.go m tid v p).pc i ≡ m.pc i
mutex_other m tid v p i h = ground arith

abbrev pub Moves : Mutex.System → Mutex.System → ℕ → Type 0
Moves m m' i = (m'.pc i ≡ m.pc i) ⊎ Keeps (m.pc i) (m'.pc i)

-- A thread that moves keeps what it fits, and so do the others.
go-Moves :
    (m : Mutex.System) (tid : ℕ) (p q : Pc) (i : ℕ)
    → m.pc tid ≡ p
    → Keeps p q
    → Moves m (Mutex.go m tid 0 q) i
go-Moves m tid p q i e h = elim (ℕ_discrete i tid) [
  | yes same ↦ inr (
      subst (λ j. Keeps (m.pc j) ((Mutex.go m tid 0 q).pc j)) (sym same)
        (subst (λ r. Keeps (m.pc tid) r) (sym (mutex_self m tid 0 q))
          (subst (λ r. Keeps r q) (sym e) h)))
  | no other ↦ inl (mutex_other m tid 0 q i other)
]

finishes : (p q : Pc) → in_unlock p ≡ false → in_relock q ≡ true → Keeps p q
finishes p q e h = free_get p e q (λ _. h)

module _ (k : Mutex.Kernel) where
  pub Step-Moves : {m m' : Mutex.System} (i : ℕ) → Mutex.Step k m m' → Moves m m' i
  Step-Moves {m} i (call_get tid r signals_fail timeout t e) =
      go-Moves m tid _ _ i e (free_outside _ refl refl _)
  Step-Moves {m} i (get tid signals_fail timeout t e) =
      go-Moves m tid _ _ i e (free_get _ refl _ (try_fast-relock tid m.futex signals_fail timeout))
  Step-Moves {m} i (sleep v s) = inl refl
  Step-Moves {m} i (wake tid signals_fail timeout ret v t e call) =
      go-Moves m tid _ _ i e (free_get _ refl _ (after_wait-relock signals_fail timeout ret))
  Step-Moves {m} i (finish tid t e) =
      go-Moves m tid _ _ i e (finishes _ _ refl (finish_lock-relock m.futex))
  Step-Moves {m} i (call_try tid r t e) = go-Moves m tid _ _ i e (free_outside _ refl refl _)
  Step-Moves {m} i (tried tid ret v t e call) = go-Moves m tid _ _ i e (free_outside _ refl refl _)
  Step-Moves {m} i (call_unlock tid r t (inl e)) =
      go-Moves m tid _ _ i e (free_outside _ refl refl _)
  Step-Moves {m} i (call_unlock tid r t (inr e)) =
      go-Moves m tid _ _ i e (free_outside _ refl refl _)
  Step-Moves {m} i (unlock tid t e) =
      go-Moves m tid _ _ i e (free_unlock _ refl _ (release-release tid m.futex))
  Step-Moves {m} i (Mutex.Step.unlocked tid ret v t e call) =
      go-Moves m tid _ _ i e (free_unlock _ refl _ (after_unlock-release ret))
  Step-Moves {m} i (exit tid v t call) = go-Moves m tid _ _ i refl (free_exit _)

abbrev pub Fits : System → Type 0
Fits s = (i : ℕ) → fits (s.phase i) (s.mutex.pc i) ≡ true

pub phase_self : (s : System) (tid : ℕ) (h : Phase) → (go s tid h).phase tid ≡ h
phase_self s tid h = ground arith

pub phase_other :
    (s : System) (tid : ℕ) (h : Phase) (i : ℕ) → i ≢ tid → (go s tid h).phase i ≡ s.phase i
phase_other s tid h i other = ground arith

-- A thread goes to a phase that fits, with the mutex as it was or its own step in it.
pub go-Fits :
    (s : System) (tid : ℕ) (h : Phase) (mutex : Mutex.System)
    → Fits s
    → ((i : ℕ) → i ≢ tid → mutex.pc i ≡ s.mutex.pc i)
    → fits h (mutex.pc tid) ≡ true
    → (i : ℕ) → fits ((go s tid h).phase i) (mutex.pc i) ≡ true
go-Fits s tid h mutex f others own i = elim (ℕ_discrete i tid) [
  | yes same ↦
      subst (λ j. fits ((go s tid h).phase j) (mutex.pc j) ≡ true) (sym same)
        (ap (λ q. fits q (mutex.pc tid)) (phase_self s tid h) ∙ own)
  | no other ↦
      ap (λ q. fits q (mutex.pc i)) (phase_other s tid h i other)
      ∙ ap (fits (s.phase i)) (others i other)
      ∙ f i
]
