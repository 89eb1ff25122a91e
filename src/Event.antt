-- ===== src/Event.antt =====
-- aos/common/event.cc, and the futex_ functions of aos/linux_code/ipc_lib/aos_sync.cc: an event, as
-- the threads of all processes use it. A step is one access to the futex, or one system call that
-- starts to sleep or returns; the kernel is a parameter. Threads do not die within a call.
pub mod Safety
pub mod Unset
pub mod Counts
pub mod Tests
use miranda_dashboard.Base.{
  ℕ, ◌-◌, ◌^◌, ◌≤◌, ◌<◌, ◌≡◌, ◌≢◌, Bool, true, false, not, ◌==◌, if◌then◌else◌, Option, none, some,
}
use miranda_dashboard.Mutex.{Ret, ok, timed_out, interrupted, would_block, other_error}

-- What `futex_wait_timeout` returns: 0, 1, 2 and -1.
pub data Waited : Type 0 where
  is_set by_signal by_timeout failed : Waited

unfoldable pub wait_result : Ret → Waited
wait_result ok = is_set
wait_result would_block = is_set
wait_result interrupted = by_signal
wait_result timed_out = by_timeout
wait_result other_error = failed

-- What a call of the event returned.
pub data Result : Type 0 where
  nothing : Result
  waited : Bool → Result
  cleared : Bool → Result

-- Where a thread stands: between calls, before the load of `futex_wait_timeout`, before FUTEX_WAIT
-- compares, in it, and before FUTEX_WAKE. `Wait` is without timeout.
pub data Pc : Type 0 where
  returned : Result → Pc
  checking : (timeout : Bool) → Pc
  entering : (timeout : Bool) → Pc
  asleep : (timeout : Bool) → Pc
  waking : Pc
  fatal : Pc

-- The start of `futex_wait_timeout`.
unfoldable pub after_load : ℕ → Bool → Pc
after_load v timeout = if v == 0 then entering timeout else returned (waited true)

-- The loops of `Event::Wait` and `Event::WaitTimeout`.
unfoldable pub wait_ends : Bool → Waited → Pc
wait_ends timeout is_set = returned (waited true)
wait_ends timeout by_signal = checking timeout
wait_ends timeout by_timeout = if timeout then returned (waited false) else fatal
wait_ends timeout failed = fatal

-- The rest of `futex_set_value` and `Event::Set`, with the number of threads woken, or an error.
unfoldable pub set_ends : Option ℕ → Pc
set_ends none = fatal
set_ends (some woken) = returned nothing

-- `futex_unset`: what it returns, 0 or 1, and `Event::Clear`.
unfoldable pub futex_unset : ℕ → Bool
futex_unset v = v == 0

unfoldable pub clear : ℕ → Pc
unfolding futex_unset
clear v = returned (cleared (not (futex_unset v)))

-- How many waiters FUTEX_WAKE is to wake: INT_MAX - 4096.
abbrev pub max_woken : ℕ
max_woken = 2 ^ 31 - 1 - 4096

-- The threads in FUTEX_WAIT that have not been woken.
abbrev pub Queue : Type 0
Queue = ℕ → Bool

-- What the code relies on of the kernel. `Enter` holds of the futex, the value expected, and `none`
-- if the thread goes to sleep or what the call returns; `Leave` of whether the thread is in the
-- queue, and what its call returns; `Wake` of the number of threads to wake, the queue, the result,
-- and the queue that is left.
pub record Kernel : Type 1 where
  pub Enter : ℕ → ℕ → Option Ret → Type 0
  pub Leave : Bool → Ret → Type 0
  pub Wake : ℕ → Queue → Option ℕ → Queue → Type 0
  -- A thread sleeps only if the futex is as expected, and EWOULDBLOCK says that it is not.
  pub enter_compares : (v expected : ℕ) → Enter v expected none → v ≡ expected
  pub enter_blocks : (v expected : ℕ) → Enter v expected (some would_block) → v ≢ expected
  pub enter_sleeps : (v expected : ℕ) (ret : Ret) → Enter v expected (some ret) → ret ≢ ok
  pub enter_differs : (v expected : ℕ) → v ≢ expected → Enter v expected (some would_block)
  -- A sleeping call returns 0 if the thread is woken, and then it can return.
  pub leave_woken : (queued : Bool) → Leave queued ok → queued ≡ false
  pub leave_compared : (queued : Bool) (ret : Ret) → Leave queued ret → ret ≢ would_block
  pub leave_goes_on : Leave false ok
  -- Nobody is put in the queue by FUTEX_WAKE.
  pub wake_removes :
      (number : ℕ) (ret : Option ℕ) (queue queue' : Queue)
      → Wake number queue ret queue'
      → (i : ℕ) → queue i ≡ false
      → queue' i ≡ false
  -- There are no more than 2 ^ 22 threads, and so many are woken if that many are to be.
  pub wake_all :
      (number r : ℕ) (queue queue' : Queue)
      → 2 ^ 22 ≤ number
      → Wake number queue (some r) queue'
      → (i : ℕ) → queue' i ≡ false

-- The event, and where each thread stands.
pub record System : Type 0 where
  pub futex : ℕ
  pub queue : Queue
  pub pc : ℕ → Pc

abbrev pub go : System → ℕ → ℕ → Queue → Pc → System
go s tid v queue p = record { futex = v; queue = queue; pc = λ i. if i == tid then p else s.pc i }

abbrev pub put_queue : Queue → ℕ → Bool → Queue
put_queue queue tid queued = λ i. if i == tid then queued else queue i

-- An event that is made unset.
abbrev pub new_event : System
new_event = record { futex = 0; queue = λ i. false; pc = λ i. returned nothing }

module _ (k : Kernel) where
  open k use {Enter, Leave, Wake}

  -- `Event::Set` stores 1; other users of `futex_set_value` another value that is not 0.
  pub data Step (s : System) : System → Type 0 where
    calls_wait :
        (tid : ℕ) (result : Result) (timeout : Bool)
        → s.pc tid ≡ returned result
        → Step s (go s tid s.futex s.queue (checking timeout))
    checks :
        (tid : ℕ) (timeout : Bool)
        → s.pc tid ≡ checking timeout
        → Step s (go s tid s.futex s.queue (after_load s.futex timeout))
    sleeps :
        (tid : ℕ) (timeout : Bool)
        → s.pc tid ≡ entering timeout
        → Enter s.futex 0 none
        → Step s (go s tid s.futex (put_queue s.queue tid true) (asleep timeout))
    refused :
        (tid : ℕ) (timeout : Bool) (ret : Ret)
        → s.pc tid ≡ entering timeout
        → Enter s.futex 0 (some ret)
        → Step s (go s tid s.futex s.queue (wait_ends timeout (wait_result ret)))
    leaves :
        (tid : ℕ) (timeout : Bool) (ret : Ret)
        → s.pc tid ≡ asleep timeout
        → Leave (s.queue tid) ret
        → Step s
            (go s tid s.futex (put_queue s.queue tid false) (wait_ends timeout (wait_result ret)))
    stores :
        (tid value : ℕ) (result : Result)
        → s.pc tid ≡ returned result
        → 0 < value
        → Step s (go s tid value s.queue waking)
    wakes :
        (tid : ℕ) (ret : Option ℕ) (queue : Queue)
        → s.pc tid ≡ waking
        → Wake max_woken s.queue ret queue
        → Step s (go s tid s.futex queue (set_ends ret))
    clears :
        (tid : ℕ) (result : Result)
        → s.pc tid ≡ returned result
        → Step s (go s tid 0 s.queue (clear s.futex))

  pub data Reach : System → Type 0 where
    here : Reach new_event
    next : {s t : System} → Reach s → Step s t → Reach t
