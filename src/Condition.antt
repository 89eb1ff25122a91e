-- ===== src/Condition.antt =====
-- aos/linux_code/ipc_lib/aos_sync.cc: `condition_wait`, `condition_signal` and
-- `condition_broadcast`, as the threads of all processes use one condition variable and its mutex;
-- the mutex is `Mutex`. This is the code without USE_REQUEUE_PI. A step is one access to the
-- condition variable, one system call that starts to sleep or returns, or a step of the mutex.
-- Threads do not die within a call of the condition variable, but where it locks or unlocks.
pub mod Phases
pub mod Moving
pub mod Relocked
pub mod Broadcast
mod Tests
use miranda_dashboard.Base.{
  ℕ, min, max, ◌+◌, ◌-◌, ◌%◌, ◌^◌, ◌≡◌, ◌⊎◌, Bool, true, false, leb, ◌==◌, if◌then◌else◌, Option,
  none, some,
}
use miranda_dashboard.Mutex
use miranda_dashboard.Mutex.{
  Ret, ok, timed_out, interrupted, would_block, other_error, Pc, returned, getting, waiting,
  finishing, holding, unlocking, handing_over, check_owner, IsTid,
}
use miranda_dashboard.Event
use miranda_dashboard.Event.{Queue, put_queue, max_woken}

-- Where a thread stands, with the `wait_start` that it has loaded: not in a call of the condition
-- variable; before `mutex_unlock`, in it, before FUTEX_WAIT compares, in it, before `mutex_do_get`,
-- in it; before the FUTEX_WAKE of `condition_wake`, with `number_requeue`; and after a failure.
pub data Phase : Type 0 where
  outside : Phase
  loaded : ℕ → Phase
  releasing : ℕ → Phase
  entering : ℕ → Phase
  asleep : ℕ → Phase
  relocks : Phase
  relocking : Phase
  waking : ℕ → Phase
  failed : Phase

-- The rest of a round of `condition_wait`, after FUTEX_WAIT returned.
unfoldable pub wait_ends : ℕ → Ret → Phase
wait_ends wait_start ok = relocks
wait_ends wait_start would_block = relocks
wait_ends wait_start interrupted = entering wait_start
wait_ends wait_start timed_out = failed
wait_ends wait_start other_error = failed

-- INT_MAX; `condition_signal` requeues none, and `condition_broadcast` so many.
abbrev pub int_max : ℕ
int_max = 2 ^ 31 - 1

unfoldable pub number_woken : ℕ → ℕ
number_woken number_requeue = min (max number_requeue 1) max_woken

unfoldable pub wake_ends : Option ℕ → Phase
wake_ends none = failed
wake_ends (some woken) = outside

-- The generation counter has 32 bits.
unfoldable pub next_value : ℕ → ℕ
next_value value = (value + 1) % 2 ^ 32

-- The condition variable, its mutex, and where each thread stands.
pub record System : Type 0 where
  pub value : ℕ
  pub queue : Queue
  pub mutex : Mutex.System
  pub phase : ℕ → Phase

abbrev pub go : System → ℕ → Phase → System
go s tid p = record s { phase = λ i. if i == tid then p else s.phase i }

-- The mutex is unlocked, and nobody waits.
abbrev pub start : System
start = record { value = 0; queue = λ i. false; mutex = Mutex.start; phase = λ i. outside }

-- Whether the mutex is a thread's to use: outside the calls, and where they call its functions.
abbrev pub in_unlock : Pc → Bool
in_unlock unlocking = true
in_unlock handing_over = true
in_unlock _ = false

abbrev pub in_get : Pc → Bool
in_get (getting signals_fail timeout) = true
in_get (waiting signals_fail timeout) = true
in_get finishing = true
in_get _ = false

abbrev pub is_free : Phase → Pc → Bool
is_free outside p = true
is_free (loaded wait_start) p = false
is_free (releasing wait_start) p = in_unlock p
is_free (entering wait_start) p = false
is_free (asleep wait_start) p = false
is_free relocks p = false
is_free relocking p = in_get p
is_free (waking number) p = false
is_free failed p = false

abbrev pub is_idle : Pc → Bool
is_idle (returned r) = true
is_idle (holding r) = true
is_idle _ = false

module _ (k : Mutex.Kernel) (futexes : Event.Kernel) where
  open futexes use {Enter, Leave, Wake}

  pub data Step (s : System) : System → Type 0 where
    uses_mutex :
        (mutex : Mutex.System)
        → Mutex.Step k s.mutex mutex
        → ((i : ℕ) → (mutex.pc i ≡ s.mutex.pc i) ⊎ (is_free (s.phase i) (s.mutex.pc i) ≡ true))
        → Step s (record s { mutex = mutex })
    loads :
        (tid : ℕ)
        → s.phase tid ≡ outside
        → is_idle (s.mutex.pc tid) ≡ true
        → Step s (go s tid (loaded s.value))
    unlocks :
        (tid wait_start r : ℕ)
        → IsTid tid
        → s.phase tid ≡ loaded wait_start
        → (s.mutex.pc tid ≡ holding r) ⊎ (s.mutex.pc tid ≡ returned r)
        → Step s (
            go
              (record s {
                mutex = Mutex.go s.mutex tid s.mutex.futex (check_owner tid s.mutex.futex);
              })
              tid
              (releasing wait_start))
    unlocked :
        (tid wait_start : ℕ)
        → s.phase tid ≡ releasing wait_start
        → s.mutex.pc tid ≡ returned 0
        → Step s (go s tid (entering wait_start))
    sleeps :
        (tid wait_start : ℕ)
        → s.phase tid ≡ entering wait_start
        → Enter s.value wait_start none
        → Step s (go (record s { queue = put_queue s.queue tid true }) tid (asleep wait_start))
    refused :
        (tid wait_start : ℕ) (ret : Ret)
        → s.phase tid ≡ entering wait_start
        → Enter s.value wait_start (some ret)
        → Step s (go s tid (wait_ends wait_start ret))
    leaves :
        (tid wait_start : ℕ) (ret : Ret)
        → s.phase tid ≡ asleep wait_start
        → Leave (s.queue tid) ret
        → Step s
            (go (record s { queue = put_queue s.queue tid false }) tid (wait_ends wait_start ret))
    locks :
        (tid r : ℕ)
        → IsTid tid
        → s.phase tid ≡ relocks
        → s.mutex.pc tid ≡ returned r
        → Step s (
            go
              (record s { mutex = Mutex.go s.mutex tid s.mutex.futex (getting false false) })
              tid
              relocking)
    returns :
        (tid r : ℕ)
        → s.phase tid ≡ relocking
        → s.mutex.pc tid ≡ holding r
        → Step s (go s tid outside)
    adds :
        (tid number_requeue : ℕ)
        → s.phase tid ≡ outside
        → is_idle (s.mutex.pc tid) ≡ true
        → Step s (go (record s { value = next_value s.value }) tid (waking number_requeue))
    wakes :
        (tid number_requeue : ℕ) (ret : Option ℕ) (queue : Queue)
        → s.phase tid ≡ waking number_requeue
        → Wake (number_woken number_requeue) s.queue ret queue
        → Step s (go (record s { queue = queue }) tid (wake_ends ret))

  pub data Reach : System → Type 0 where
    here : Reach start
    next : {s t : System} → Reach s → Step s t → Reach t
