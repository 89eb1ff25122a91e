-- ===== src/Mutex.antt =====
-- aos/linux_code/ipc_lib/aos_sync.cc: `mutex_lock`, `mutex_lock_timeout`, `mutex_grab`,
-- `mutex_trylock` and `mutex_unlock`, as the threads of all processes run them on one mutex. The
-- robust list of a thread is in `RobustList`; the kernel is a parameter. A thread that holds the mutex
-- only unlocks it or ends: what a second lock by the holder returns is not modelled. The load and
-- the and-fetch at the end of a lock are one step.
pub mod Invariant
pub mod Safety
pub mod Tests
use miranda_dashboard.Base.{
  ℕ, ◌+◌, ◌-◌, ◌/◌, ◌%◌, ◌^◌, ◌<◌, ◌≡◌, ◌≢◌, ◌⊎◌, Bool, true, false, not, ◌&&◌, ◌==◌, if◌then◌else◌,
}

-- The parts of `aos_mutex.futex`, a word of 32 bits: FUTEX_TID_MASK and FUTEX_OWNER_DIED; the bit
-- above is FUTEX_WAITERS.
abbrev pub died_bit : ℕ
died_bit = 2 ^ 30

abbrev pub owner : ℕ → ℕ
owner v = v % died_bit

abbrev pub owner_died : ℕ → Bool
owner_died v = v / died_bit % 2 == 1

-- What a system call returns: 0, or an error.
pub data Ret : Type 0 where
  ok timed_out interrupted would_block other_error : Ret

-- Where a thread stands. `returned r` has no call under way, and its last one, if that did not lock
-- the mutex, returned `r`; `holding r` has the mutex, which its call got with the result `r`.
pub data Pc : Type 0 where
  returned : ℕ → Pc
  getting : (signals_fail timeout : Bool) → Pc
  waiting : (signals_fail timeout : Bool) → Pc
  trying : Pc
  finishing : Pc
  holding : ℕ → Pc
  unlocking : Pc
  handing_over : Pc
  fatal : Pc
  exited : Pc

-- The start of a round of the loop of `mutex_do_get`: the transition from 0 to the TID.
unfoldable pub try_fast : ℕ → ℕ → Bool → Bool → ℕ × Pc
try_fast tid v signals_fail timeout =
    if v == 0 then (tid, holding 0) else (v, waiting signals_fail timeout)

-- The rest of the round, after FUTEX_LOCK_PI returned.
unfoldable pub after_wait : Bool → Bool → Ret → Pc
after_wait signals_fail timeout ok = finishing
after_wait signals_fail timeout timed_out = if timeout then returned 3 else fatal
after_wait signals_fail timeout interrupted =
    if signals_fail then returned 2 else getting signals_fail timeout
after_wait signals_fail timeout would_block = fatal
after_wait signals_fail timeout other_error = fatal

-- `mutex_finish_lock`
unfoldable pub finish_lock : ℕ → ℕ × Pc
finish_lock v = if owner_died v then (v - died_bit, holding 1) else (v, holding 0)

-- The transition of `mutex_trylock`.
unfoldable pub try_lock : ℕ → ℕ → ℕ × Pc
try_lock tid v =
    if v == 0 then (tid, holding 0) else if owner_died v then (v, trying) else (v, returned 4)

-- The rest of `mutex_trylock`, after FUTEX_TRYLOCK_PI returned.
unfoldable pub after_try : Ret → Pc
after_try ok = finishing
after_try would_block = returned 4
after_try timed_out = fatal
after_try interrupted = fatal
after_try other_error = fatal

-- The check of `mutex_unlock`; LOG(FATAL) if the mutex is not the thread's.
unfoldable pub check_owner : ℕ → ℕ → Pc
check_owner tid v = if owner v == tid then unlocking else fatal

-- The transition from the TID to 0.
unfoldable pub release : ℕ → ℕ → ℕ × Pc
release tid v = if v == tid then (0, returned 0) else (v, handing_over)

-- The rest of `mutex_unlock`, after FUTEX_UNLOCK_PI returned.
unfoldable pub after_unlock : Ret → Pc
after_unlock ok = returned 0
after_unlock timed_out = fatal
after_unlock interrupted = fatal
after_unlock would_block = fatal
after_unlock other_error = fatal

-- What the code relies on of the kernel. A relation holds of the TID of the calling thread, the
-- futex before, the result and the futex after the kernel's last access; `Waits` says which
-- threads are in FUTEX_LOCK_PI.
pub record Kernel : Type 1 where
  pub Sleep : ℕ → ℕ → Type 0
  pub LockPi : ℕ → ℕ → Ret → ℕ → Type 0
  pub TrylockPi : ℕ → ℕ → Ret → ℕ → Type 0
  pub UnlockPi : (ℕ → Type 0) → ℕ → ℕ → Ret → ℕ → Type 0
  pub Exit : (ℕ → Type 0) → ℕ → ℕ → ℕ → Type 0
  -- Going to sleep only marks that there are waiters.
  pub sleep_keeps : (v v' : ℕ) → Sleep v v' → (owner v' ≡ owner v) × (owner_died v' ≡ owner_died v)
  -- The lock is taken from nobody else, and FUTEX_OWNER_DIED stays for the caller to see.
  pub lock_takes :
      (tid v v' : ℕ)
      → LockPi tid v ok v'
      → ((owner v ≡ 0) ⊎ (owner v ≡ tid)) × (owner v' ≡ tid) × (owner_died v' ≡ owner_died v)
  -- A call that fails has not been given the lock.
  pub lock_fails :
      (tid v : ℕ) (ret : Ret) (v' : ℕ)
      → LockPi tid v ret v'
      → ret ≢ ok
      → (owner v ≢ tid) × (owner v' ≡ owner v) × (owner_died v' ≡ owner_died v)
  pub try_takes :
      (tid v v' : ℕ)
      → TrylockPi tid v ok v'
      → (owner v ≡ 0) × (owner v' ≡ tid) × (owner_died v' ≡ owner_died v)
  pub try_fails :
      (tid v : ℕ) (ret : Ret) (v' : ℕ)
      → TrylockPi tid v ret v'
      → ret ≢ ok
      → (owner v' ≡ owner v) × (owner_died v' ≡ owner_died v)
  -- An unlocked mutex is nobody's, or that of a thread that waits for it.
  pub unlock_gives :
      (Waits : ℕ → Type 0) (tid v v' : ℕ)
      → UnlockPi Waits tid v ok v'
      → ((owner v' ≡ 0) ⊎ Waits (owner v')) × (owner_died v' ≡ owner_died v)
  pub unlock_fails :
      (Waits : ℕ → Type 0) (tid v : ℕ) (ret : Ret) (v' : ℕ)
      → UnlockPi Waits tid v ret v'
      → ret ≢ ok
      → (owner v' ≡ owner v) × (owner_died v' ≡ owner_died v)
  -- The mutex of a thread that exits is marked, and is nobody's or that of a thread that waits.
  pub exit_marks :
      (Waits : ℕ → Type 0) (tid v v' : ℕ)
      → Exit Waits tid v v'
      → owner v ≡ tid
      → ((owner v' ≡ 0) ⊎ Waits (owner v')) × (owner_died v' ≡ true)
  pub exit_leaves :
      (Waits : ℕ → Type 0) (tid v v' : ℕ) → Exit Waits tid v v' → owner v ≢ tid → v' ≡ v

-- The mutex, and where each thread stands, by its TID.
pub record System : Type 0 where
  pub futex : ℕ
  pub pc : ℕ → Pc

abbrev pub go : System → ℕ → ℕ → Pc → System
go s tid v p = record { futex = v; pc = λ i. if i == tid then p else s.pc i }

abbrev pub start : System
start = record { futex = 0; pc = λ i. returned 0 }

-- Whether a thread is in FUTEX_LOCK_PI.
abbrev pub in_lock_pi : Pc → Bool
in_lock_pi (waiting signals_fail timeout) = true
in_lock_pi _ = false

abbrev pub IsTid : ℕ → Type 0
IsTid tid = (0 < tid) × (tid < died_bit)

module _ (k : Kernel) where
  open k use {Sleep, LockPi, TrylockPi, UnlockPi, Exit}

  -- A thread moves on by one access to the mutex, or by one system call that returns. A thread
  -- that has no call under way makes any but `mutex_unlock`, which it makes at any time: the check
  -- is the code's.
  pub data Step (s : System) : System → Type 0 where
    call_get :
        (tid r : ℕ) (signals_fail timeout : Bool)
        → IsTid tid
        → s.pc tid ≡ returned r
        → Step s (go s tid s.futex (getting signals_fail timeout))
    get :
        (tid : ℕ) (signals_fail timeout : Bool)
        → IsTid tid
        → s.pc tid ≡ getting signals_fail timeout
        → Step s (
            go s tid
              (try_fast tid s.futex signals_fail timeout).0
              (try_fast tid s.futex signals_fail timeout).1)
    sleep : (v : ℕ) → Sleep s.futex v → Step s (record s { futex = v })
    wake :
        (tid : ℕ) (signals_fail timeout : Bool) (ret : Ret) (v : ℕ)
        → IsTid tid
        → s.pc tid ≡ waiting signals_fail timeout
        → LockPi tid s.futex ret v
        → Step s (go s tid v (after_wait signals_fail timeout ret))
    finish :
        (tid : ℕ)
        → IsTid tid
        → s.pc tid ≡ finishing
        → Step s (go s tid (finish_lock s.futex).0 (finish_lock s.futex).1)
    call_try :
        (tid r : ℕ)
        → IsTid tid
        → s.pc tid ≡ returned r
        → Step s (go s tid (try_lock tid s.futex).0 (try_lock tid s.futex).1)
    tried :
        (tid : ℕ) (ret : Ret) (v : ℕ)
        → IsTid tid
        → s.pc tid ≡ trying
        → TrylockPi tid s.futex ret v
        → Step s (go s tid v (after_try ret))
    call_unlock :
        (tid r : ℕ)
        → IsTid tid
        → (s.pc tid ≡ holding r) ⊎ (s.pc tid ≡ returned r)
        → Step s (go s tid s.futex (check_owner tid s.futex))
    unlock :
        (tid : ℕ)
        → IsTid tid
        → s.pc tid ≡ unlocking
        → Step s (go s tid (release tid s.futex).0 (release tid s.futex).1)
    unlocked :
        (tid : ℕ) (ret : Ret) (v : ℕ)
        → IsTid tid
        → s.pc tid ≡ handing_over
        → UnlockPi (λ i. in_lock_pi (s.pc i) ≡ true) tid s.futex ret v
        → Step s (go s tid v (after_unlock ret))
    exit :
        (tid v : ℕ)
        → IsTid tid
        → Exit (λ i. (i ≢ tid) × (in_lock_pi (s.pc i) ≡ true)) tid s.futex v
        → Step s (go s tid v exited)

  pub data Reach : System → Type 0 where
    here : Reach start
    next : {s t : System} → Reach s → Step s t → Reach t
