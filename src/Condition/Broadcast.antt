-- ===== src/Condition/Broadcast.antt =====
-- condition_broadcast and the threads in condition_wait.
use native.Mathlib.Decide.{ℕ_discrete}
use miranda_dashboard.Base.{
  ℕ, ◌+◌, ◌%◌, ◌^◌, ◌≤◌, ◌<◌, ◌≡◌, ◌⊎◌, inl, inr, refl, sym, ap, subst, ◌∙◌, arith, Bool, true,
  false, ◌==◌, ==_iff, leb, Option, none, some, ◌≢◌, ◌&&◌, ◌||◌,
}
use miranda_dashboard.Mutex
use miranda_dashboard.Mutex.{Ret, ok, timed_out, interrupted, would_block, other_error}
use miranda_dashboard.Event
use miranda_dashboard.Event.{Queue, put_queue, max_woken}
use miranda_dashboard.Condition.{
  Phase, loaded, releasing, entering, asleep, relocks, wait_ends, next_value, int_max, number_woken,
  System, go, Step, uses_mutex, loads, unlocks, unlocked, sleeps, refused, leaves, locks, returns,
  adds, wakes,
}
use miranda_dashboard.Condition.Moving.{phase_self}

-- What a thread in a wait has loaded.
abbrev pub start_loaded : Phase → Option ℕ
start_loaded (loaded wait_start) = some wait_start
start_loaded (releasing wait_start) = some wait_start
start_loaded (entering wait_start) = some wait_start
start_loaded (asleep wait_start) = some wait_start
start_loaded _ = none

same_start : {v w : ℕ} → some v ≡ some w → v ≡ w
same_start e = cc

put_other : (queue : Queue) (tid i : ℕ) (b : Bool) → i ≢ tid → put_queue queue tid b i ≡ queue i
put_other queue tid i b h = ground arith

put_false : (queue : Queue) (tid i : ℕ) → queue i ≡ false → put_queue queue tid false i ≡ false
put_false queue tid i h = ground (arith, h)

-- A broadcast is to wake as many threads as there can be.
enough : (n : ℕ) → (n == int_max) ≡ true → 2 ^ 22 ≤ number_woken n
unfolding number_woken
enough n h = ground (arith, (==_iff n int_max).0 h)

woken_cases :
    (woken : Bool) (added : ℕ) (b : Bool)
    → (woken || (leb 1 added && b)) ≡ true
    → (woken ≡ true) ⊎ ((0 < added) × (b ≡ true))
woken_cases woken added b h = ground arith

module _ (k : Mutex.Kernel) (futexes : Event.Kernel) where
  open futexes use {
    Enter, Leave, Wake, enter_compares, enter_differs, leave_woken, leave_goes_on, wake_all,
    wake_removes,
  }

  -- How often a step adds to the counter, and whether it is the end of a broadcast.
  abbrev pub additions : {s t : System} → Step k futexes s t → ℕ
  additions (adds tid number_requeue e idle) = 1
  additions _ = 0

  abbrev pub ends_broadcast : {s t : System} → Step k futexes s t → Bool
  ends_broadcast (wakes tid number_requeue (some woken) queue e call) = number_requeue == int_max
  ends_broadcast _ = false

  -- The steps of all threads from the state in which a thread has just loaded the counter, before
  -- it unlocks the mutex, as long as it has not been woken or turned away: how many calls have added to
  -- the counter since, and whether a broadcast has ended after such a call.
  pub data Waits (tid wait_start : ℕ) : ℕ → Bool → System → Type 0 where
    begins :
        (s : System)
        → s.phase tid ≡ loaded wait_start
        → s.value ≡ wait_start
        → Waits tid wait_start 0 false s
    goes_on :
        {added : ℕ} {woken : Bool} {s t : System}
        → Waits tid wait_start added woken s
        → start_loaded (s.phase tid) ≡ some wait_start
        → (step : Step k futexes s t)
        → Waits tid wait_start
            (added + additions step)
            (woken || (leb 1 added && ends_broadcast step))
            t

  step_value :
      {s t : System}
      → (step : Step k futexes s t) → s.value < 2 ^ 32
      → t.value ≡ (s.value + additions step) % 2 ^ 32
  unfolding next_value
  step_value (uses_mutex mutex step free) h = omega arith
  step_value (loads tid e idle) h = omega arith
  step_value (unlocks tid w r t e pc) h = omega arith
  step_value (unlocked tid w e pc) h = omega arith
  step_value (sleeps tid w e enter) h = omega arith
  step_value (refused tid w ret e enter) h = omega arith
  step_value (leaves tid w ret e leave) h = omega arith
  step_value (locks tid r t e pc) h = omega arith
  step_value (returns tid r e pc) h = omega arith
  step_value (adds tid n e idle) h = omega arith
  step_value (wakes tid n ret queue e call) h = omega arith

  Waits-value :
      {tid w added : ℕ} {woken : Bool} {t : System}
      → w < 2 ^ 32
      → Waits tid w added woken t
      → t.value ≡ (w + added) % 2 ^ 32
  Waits-value h (begins s e v) = omega (arith, v)
  Waits-value {w = w} h (goes_on {added} {woken} {s} run e step) =
      let before = Waits-value h run in
      omega (arith, before, step_value step (omega (arith, before)))

  -- A thread whose counter has changed does not go to sleep.
  step_queue :
      {s t : System} (tid w : ℕ)
      → start_loaded (s.phase tid) ≡ some w
      → s.value ≢ w
      → (step : Step k futexes s t) → s.queue tid ≡ false
      → t.queue tid ≡ false
  step_queue tid w h d (uses_mutex mutex step free) q = q
  step_queue tid w h d (loads j e idle) q = q
  step_queue tid w h d (unlocks j v r t e pc) q = q
  step_queue tid w h d (unlocked j v e pc) q = q
  step_queue {s} tid w h d (sleeps j v e enter) q = elim (ℕ_discrete tid j) [
    | yes same ↦ absurd (
        d (
          enter_compares s.value v enter
          ∙ same_start
              (sym (ap start_loaded (subst (λ i. s.phase i ≡ entering v) (sym same) e)) ∙ h)))
    | no other ↦ put_other s.queue j tid true other ∙ q
  ]
  step_queue tid w h d (refused j v ret e enter) q = q
  step_queue {s} tid w h d (leaves j v ret e leave) q = put_false s.queue j tid q
  step_queue tid w h d (locks j r t e pc) q = q
  step_queue tid w h d (returns j r e pc) q = q
  step_queue tid w h d (adds j n e idle) q = q
  step_queue {s} tid w h d (wakes j n ret queue e call) q =
      wake_removes _ ret s.queue queue call tid q

  broadcast_queue :
      {s t : System} (tid : ℕ)
      → (step : Step k futexes s t) → ends_broadcast step ≡ true
      → t.queue tid ≡ false
  broadcast_queue {s} tid (wakes j n (some r) queue e call) b =
      wake_all (number_woken n) r s.queue queue (enough n b) call tid
  broadcast_queue tid (wakes j n none queue e call) b = cc
  broadcast_queue tid (uses_mutex mutex step free) b = cc
  broadcast_queue tid (loads j e idle) b = cc
  broadcast_queue tid (unlocks j v r t e pc) b = cc
  broadcast_queue tid (unlocked j v e pc) b = cc
  broadcast_queue tid (sleeps j v e enter) b = cc
  broadcast_queue tid (refused j v ret e enter) b = cc
  broadcast_queue tid (leaves j v ret e leave) b = cc
  broadcast_queue tid (locks j r t e pc) b = cc
  broadcast_queue tid (returns j r e pc) b = cc
  broadcast_queue tid (adds j n e idle) b = cc

  changed :
      {tid w added : ℕ} {woken : Bool} {t : System}
      → w < 2 ^ 32
      → 0 < added
      → added < 2 ^ 32
      → Waits tid w added woken t
      → t.value ≢ w
  changed h pos few run e = absurd (omega (arith, Waits-value h run))

  Waits-queue :
      {tid w added : ℕ} {woken : Bool} {t : System}
      → w < 2 ^ 32
      → added < 2 ^ 32
      → Waits tid w added woken t
      → woken ≡ true
      → (0 < added) × (t.queue tid ≡ false)
  Waits-queue h few (begins s e v) b = cc
  Waits-queue {tid} {w} h few (goes_on {added} {woken} {s} run e step) b =
      elim (woken_cases woken added (ends_broadcast step) b) [
        | inl before ↦
            let (pos, q) = Waits-queue h (omega (arith, few)) run before in
            (omega (arith, pos), step_queue tid w e (changed h pos (omega (arith, few)) run) step q)
        | inr (pos, now) ↦ (omega (arith, pos), broadcast_queue tid step now)
      ]

  -- No broadcast is lost: once a broadcast that added to the counter after a thread had loaded it
  -- has ended, with less than 2 ^ 32 additions since, the thread is not left in FUTEX_WAIT, and
  -- does not go there: wherever it stands before that or in it, whatever the threads did since,
  -- it can go on to lock the mutex with its next step.
  pub broadcast_relocks :
      {tid wait_start added : ℕ} {t : System}
      → wait_start < 2 ^ 32
      → added < 2 ^ 32
      → Waits tid wait_start added true t
      → (t.phase tid ≡ entering wait_start) ⊎ (t.phase tid ≡ asleep wait_start)
      → (t.queue tid ≡ false) × (u : System) × Step k futexes t u × (u.phase tid ≡ relocks)
  unfolding wait_ends
  broadcast_relocks {tid} {wait_start} {t = t} h few run (inl e) =
      let (pos, q) = Waits-queue h few run refl in
      (
        q,
        go t tid relocks,
        refused tid wait_start would_block e
            (enter_differs t.value wait_start (changed h pos few run)),
        phase_self t tid relocks,
      )
  broadcast_relocks {tid} {wait_start} {t = t} h few run (inr e) =
      let (pos, q) = Waits-queue h few run refl in
      (
        q,
        go (record t { queue = put_queue t.queue tid false }) tid relocks,
        leaves tid wait_start ok e (subst (λ queued. Leave queued ok) (sym q) leave_goes_on),
        phase_self (record t { queue = put_queue t.queue tid false }) tid relocks,
      )
