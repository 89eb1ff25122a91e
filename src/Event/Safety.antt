-- ===== src/Event/Safety.antt =====
-- aos/common/event.cc: what the users of an event rely on.
use native.Mathlib.Decide.{ℕ_discrete}
use mathlib.Core.Bool.{false≢true}
use miranda_dashboard.Base.{
  ℕ, ◌≡◌, ◌≢◌, ◌⊎◌, inl, inr, refl, sym, ap, subst, ◌∙◌, arith, Bool, true, false, Option, none,
  some,
}
use miranda_dashboard.Mutex.{ok, would_block}
use miranda_dashboard.Event.{
  wait_result, waited, Pc, returned, checking, entering, asleep, waking, fatal, after_load,
  wait_ends, set_ends, max_woken, Queue, Kernel, System, go, put_queue, Step, calls_wait, checks,
  sleeps, refused, leaves, stores, wakes, clears, Reach, here, next,
}

-- Whether a thread has stored and not woken the others yet, or a call of it has failed.
abbrev pub is_pending : Pc → Bool
is_pending waking = true
is_pending fatal = true
is_pending _ = false

-- Whether it is in Wait or WaitTimeout.
abbrev pub is_waiting : Pc → Bool
is_waiting (checking timeout) = true
is_waiting (entering timeout) = true
is_waiting (asleep timeout) = true
is_waiting _ = false

pub go_self : (s : System) (tid v : ℕ) (queue : Queue) (p : Pc) → (go s tid v queue p).pc tid ≡ p
go_self s tid v queue p = ground arith

pub go_other :
    (s : System) (tid v : ℕ) (queue : Queue) (p : Pc) (i : ℕ)
    → i ≢ tid
    → (go s tid v queue p).pc i ≡ s.pc i
go_other s tid v queue p i h = ground arith

abbrev Pending : System → Type 0
Pending s = (i : ℕ) × (is_pending (s.pc i) ≡ true)

-- A thread that is not pending moves, and another one stays so.
Pending-go :
    (s : System) (tid v : ℕ) (queue : Queue) (p : Pc)
    → is_pending (s.pc tid) ≡ false
    → Pending s
    → Pending (go s tid v queue p)
Pending-go s tid v queue p h (i, e) = elim (ℕ_discrete i tid) [
  | yes same ↦ absurd (false≢true (sym h ∙ subst (λ j. is_pending (s.pc j) ≡ true) same e))
  | no other ↦ (i, ap is_pending (go_other s tid v queue p i other) ∙ e)
]

abbrev NoneQueued : System → Type 0
NoneQueued s = (i : ℕ) → s.queue i ≡ false

abbrev IsWoken : System → Type 0
IsWoken s = s.futex ≢ 0 → Pending s ⊎ NoneQueued s

IsWoken-go :
    (s : System) (tid : ℕ) (queue : Queue) (p p' : Pc)
    → s.pc tid ≡ p
    → is_pending p ≡ false
    → (NoneQueued s → (i : ℕ) → queue i ≡ false)
    → IsWoken s
    → IsWoken (go s tid s.futex queue p')
IsWoken-go s tid queue p p' e h q w d = elim (w d) [
  | inl pending ↦ inl (Pending-go s tid s.futex queue p' (ap is_pending e ∙ h) pending)
  | inr empty ↦ inr (q empty)
]

left_empty : (s : System) (tid : ℕ) → NoneQueued s → (i : ℕ) → put_queue s.queue tid false i ≡ false
left_empty s tid h i = ground (arith, h i)

differs : (v : ℕ) (timeout : Bool) → v ≢ 0 → after_load v timeout ≡ returned (waited true)
unfolding after_load
differs v timeout h = ground arith

module _ (k : Kernel) where
  open k use {
    Enter, Leave, Wake, enter_compares, enter_blocks, enter_sleeps, enter_differs, leave_woken,
    leave_compared, leave_goes_on, wake_all,
  }

  wakes-IsWoken :
      (s : System) (tid : ℕ) (ret : Option ℕ) (queue : Queue)
      → Wake max_woken s.queue ret queue
      → IsWoken (go s tid s.futex queue (set_ends ret))
  unfolding set_ends
  wakes-IsWoken s tid none queue w d = inl (tid, ap is_pending (go_self s tid s.futex queue _))
  wakes-IsWoken s tid (some r) queue w d = inr (wake_all max_woken r s.queue queue (omega arith) w)

  Step-IsWoken : {s t : System} → Step k s t → IsWoken s → IsWoken t
  Step-IsWoken {s} (calls_wait tid result timeout e) w =
      IsWoken-go s tid s.queue _ _ e refl (λ h. h) w
  Step-IsWoken {s} (checks tid timeout e) w = IsWoken-go s tid s.queue _ _ e refl (λ h. h) w
  Step-IsWoken {s} (sleeps tid timeout e enter) w = λ d. absurd (d (enter_compares s.futex 0 enter))
  Step-IsWoken {s} (refused tid timeout ret e enter) w =
      IsWoken-go s tid s.queue _ _ e refl (λ h. h) w
  Step-IsWoken {s} (leaves tid timeout ret e leave) w =
      IsWoken-go s tid _ _ _ e refl (left_empty s tid) w
  Step-IsWoken {s} (stores tid value result e lt) w =
      λ d. inl (tid, ap is_pending (go_self s tid value s.queue waking))
  Step-IsWoken {s} (wakes tid ret queue e wake) w = wakes-IsWoken s tid ret queue wake
  Step-IsWoken {s} (clears tid result e) w = λ d. absurd (d refl)

  Reach-IsWoken : {s : System} → Reach k s → IsWoken s
  Reach-IsWoken here = λ d. absurd (d refl)
  Reach-IsWoken (next r step) = Step-IsWoken step (Reach-IsWoken r)

  -- No wake-up is lost: when the event is set, no Set has still to wake the threads, and no call
  -- has failed, no thread is left sleeping in the queue of the kernel.
  pub set_wakes :
      {s : System}
      → Reach k s
      → s.futex ≢ 0
      → ((i : ℕ) → is_pending (s.pc i) ≡ false)
      → (i : ℕ) → s.queue i ≡ false
  set_wakes r d h = elim (Reach-IsWoken r d) [
    | inl (i, e) ↦ absurd (false≢true (sym (h i) ∙ e))
    | inr empty ↦ empty
  ]

  -- A thread can return from a wait with its next step.
  abbrev CanReturn : System → ℕ → Type 0
  CanReturn s tid = (t : System) × Step k s t × (t.pc tid ≡ returned (waited true))

  pc-CanReturn :
      (s : System) (tid : ℕ) (p : Pc)
      → s.futex ≢ 0
      → s.queue tid ≡ false
      → s.pc tid ≡ p
      → is_waiting p ≡ true
      → CanReturn s tid
  unfolding after_load wait_ends wait_result
  pc-CanReturn s tid (checking timeout) d q e h =
      (_, checks tid timeout e, go_self s tid s.futex s.queue _ ∙ differs s.futex timeout d)
  pc-CanReturn s tid (entering timeout) d q e h = (
    _,
    refused tid timeout would_block e (enter_differs s.futex 0 d),
    go_self s tid s.futex s.queue _,
  )
  pc-CanReturn s tid (asleep timeout) d q e h = (
    _,
    leaves tid timeout ok e (subst (λ queued. Leave queued ok) (sym q) leave_goes_on),
    go_self s tid s.futex (put_queue s.queue tid false) _,
  )
  pc-CanReturn s tid (returned result) d q e h = absurd (false≢true h)
  pc-CanReturn s tid waking d q e h = absurd (false≢true h)
  pc-CanReturn s tid fatal d q e h = absurd (false≢true h)

  -- When the event is set, no Set has still to wake the threads, and no call has failed, every
  -- thread in Wait or WaitTimeout, wherever it stands in it, can return true with its next step.
  pub wait_returns :
      {s : System}
      → Reach k s
      → s.futex ≢ 0
      → ((i : ℕ) → is_pending (s.pc i) ≡ false)
      → (tid : ℕ) → is_waiting (s.pc tid) ≡ true
      → (t : System) × Step k s t × (t.pc tid ≡ returned (waited true))
  wait_returns {s} r d h tid waits =
      pc-CanReturn s tid (s.pc tid) d (set_wakes r d h tid) refl waits
