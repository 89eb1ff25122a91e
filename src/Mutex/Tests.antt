-- ===== src/Mutex/Tests.antt =====
-- Thread 5 locks the mutex and dies, and thread 7 finds out.
use miranda_dashboard.Base.{ℕ, ◌+◌, ◌-◌, ◌≡◌, refl, ◌≢◌, ◌⊎◌, inl, inr, true, false, arith}
use miranda_dashboard.Mutex.{
  died_bit, owner, owner_died, Ret, ok, Pc, holding, finishing, waiting, getting, try_fast,
  after_wait, Kernel, System, go, start, finish_lock, IsTid, Step, call_get, get, wake, finish,
  exit, Reach, here, next,
}
use miranda_dashboard.Mutex.Safety.{mutual_exclusion, Reported, death-Reported}

-- A kernel that never fails: an unlocked mutex is nobody's, and who waits for it takes it.
abbrev pub Takes : ℕ → ℕ → Ret → ℕ → Type 0
Takes tid v ret v' = (ret ≡ ok) × (owner v ≡ 0) × IsTid tid × (v' ≡ v + tid)

abbrev pub Leaves : (ℕ → Type 0) → ℕ → ℕ → ℕ → Type 0
Leaves Waits tid v v' = ((owner v ≡ tid) × (v' ≡ died_bit)) ⊎ ((owner v ≢ tid) × (v' ≡ v))

pub takes_lem :
    (tid v v' : ℕ)
    → Takes tid v ok v'
    → (owner v ≡ 0) × (owner v' ≡ tid) × (owner_died v' ≡ owner_died v)
takes_lem tid v v' h = ground arith

pub leaves_lem :
    (Waits : ℕ → Type 0) (tid v v' : ℕ)
    → Leaves Waits tid v v'
    → owner v ≡ tid
    → (owner v' ≡ 0) × (owner_died v' ≡ true)
leaves_lem Waits tid v v' (inl h) e = ground arith
leaves_lem Waits tid v v' (inr h) e = absurd (h.0 e)

pub stays_lem : (Waits : ℕ → Type 0) (tid v v' : ℕ) → Leaves Waits tid v v' → owner v ≢ tid → v' ≡ v
stays_lem Waits tid v v' (inl h) ne = absurd (ne h.0)
stays_lem Waits tid v v' (inr h) ne = h.1

pub releases_lem : (v v' : ℕ) → v' ≡ v - owner v → (owner v' ≡ 0) × (owner_died v' ≡ owner_died v)
releases_lem v v' e = ground arith

pub sleeps_lem : (v v' : ℕ) → v' ≡ v → (owner v' ≡ owner v) × (owner_died v' ≡ owner_died v)
sleeps_lem v v' e = ground arith

abbrev pub kernel : Kernel
kernel = record {
  Sleep = λ v v'. v' ≡ v;
  LockPi = Takes;
  TrylockPi = Takes;
  UnlockPi = λ Waits tid v ret v'. (ret ≡ ok) × (v' ≡ v - owner v);
  Exit = Leaves;
  sleep_keeps = sleeps_lem;
  lock_takes =
      λ tid v v' h. (let (free, takes, died) = takes_lem tid v v' h in (inl free, takes, died));
  lock_fails = λ tid v ret v' h ne. absurd (ne h.0);
  try_takes = takes_lem;
  try_fails = λ tid v ret v' h ne. absurd (ne h.0);
  unlock_gives = λ Waits tid v v' h. (inl (releases_lem v v' h.1).0, (releases_lem v v' h.1).1);
  unlock_fails = λ Waits tid v ret v' h ne. absurd (ne h.0);
  exit_marks = λ Waits tid v v' h e.
      (inl (leaves_lem Waits tid v v' h e).0, (leaves_lem Waits tid v v' h e).1);
  exit_leaves = stays_lem;
}

abbrev asked : System
asked = go start 5 0 (getting true false)

abbrev locked : System
locked = go asked 5 5 (holding 0)

locked-Reach : Reach kernel locked
unfolding try_fast
locked-Reach =
    next (next here (call_get 5 0 true false (omega arith) refl))
      (get 5 true false (omega arith) refl)

mutual_exclusion_example : ◌≡◌ {A = ℕ} 5 5
mutual_exclusion_example = mutual_exclusion kernel {s = locked} locked-Reach 5 5 refl refl

abbrev orphaned : System
orphaned = go locked 5 died_bit Pc.exited

abbrev asked_again : System
asked_again = go orphaned 7 died_bit (getting false false)

abbrev slept : System
slept = go asked_again 7 died_bit (waiting false false)

abbrev woken : System
woken = go slept 7 (died_bit + 7) finishing

abbrev told_of_it : System
told_of_it = go woken 7 7 (holding 1)

woken-Reach : Reach kernel woken
unfolding try_fast after_wait
woken-Reach =
    next
      (next
        (next (next locked-Reach (exit 5 died_bit (omega arith) (inl (refl, refl))))
          (call_get 7 0 false false (omega arith) refl))
        (get 7 false false (omega arith) refl))
      (wake 7 false false ok (died_bit + 7) (omega arith) refl (refl, refl, omega arith, refl))

reported-Step : Step kernel woken told_of_it
unfolding finish_lock
reported-Step = finish 7 (omega arith) refl

death-Reported_example : Reported woken told_of_it
death-Reported_example =
    death-Reported kernel {s = woken} {t = told_of_it} woken-Reach reported-Step refl
