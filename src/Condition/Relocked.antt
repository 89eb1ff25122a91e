-- ===== src/Condition/Relocked.antt =====
-- condition_wait and its mutex, in every state that the threads can reach.
use miranda_dashboard.Base.{ℕ, ◌≡◌, inl, inr, refl, sym, ap, ◌∙◌, true, false, none, some}
use miranda_dashboard.Mutex
use miranda_dashboard.Mutex.{
  Ret, ok, timed_out, interrupted, would_block, other_error, Pc, returned, getting, waiting, trying,
  finishing, holding, unlocking, handing_over, fatal, exited, try_fast, after_wait, finish_lock,
  try_lock, after_try, check_owner, release, after_unlock, call_get, get, sleep, wake, finish,
  call_try, tried, call_unlock, unlock, exit,
}
use miranda_dashboard.Event
use miranda_dashboard.Condition.{
  wait_ends, wake_ends, System, Step, uses_mutex, loads, unlocks, unlocked, sleeps, refused, leaves,
  locks, returns, adds, wakes, Reach, here, next,
}
use miranda_dashboard.Condition.Phases.{
  has_returned, in_release, in_relock, fits, check_owner-release,
}
use miranda_dashboard.Condition.Moving.{mutex_self, mutex_other, Step-Moves, Fits, go-Fits}

ends_fit : (w : ℕ) (ret : Ret) (p : Pc) → has_returned p ≡ true → fits (wait_ends w ret) p ≡ true
unfolding wait_ends
ends_fit w ok p h = h
ends_fit w would_block p h = h
ends_fit w interrupted p h = h
ends_fit w timed_out p h = refl
ends_fit w other_error p h = refl

module _ (k : Mutex.Kernel) (futexes : Event.Kernel) where
  Step-Fits : {s t : System} → Step k futexes s t → Fits s → Fits t
  unfolding wait_ends wake_ends
  Step-Fits {s} (uses_mutex mutex step free) f i = elim (free i) [
    | inl same ↦ ap (fits (s.phase i)) same ∙ f i
    | inr is_so ↦ elim (Step-Moves k i step) [
      | inl same ↦ ap (fits (s.phase i)) same ∙ f i
      | inr keeps ↦ keeps (s.phase i) is_so (f i)
    ]
  ]
  Step-Fits {s} (loads tid e idle) f i = go-Fits s tid _ s.mutex f (λ j other. refl) idle i
  Step-Fits {s} (unlocks tid w r t e pc) f i =
      go-Fits s tid _ (Mutex.go s.mutex tid s.mutex.futex (check_owner tid s.mutex.futex)) f
        (mutex_other s.mutex tid s.mutex.futex _)
        (ap in_release (mutex_self s.mutex tid s.mutex.futex _)
          ∙ check_owner-release tid s.mutex.futex)
        i
  Step-Fits {s} (unlocked tid w e pc) f i =
      go-Fits s tid _ s.mutex f (λ j other. refl) (ap has_returned pc) i
  Step-Fits {s} (sleeps tid w e enter) f i =
      go-Fits s tid _ s.mutex f (λ j other. refl)
        (sym (ap (λ h. fits h (s.mutex.pc tid)) e) ∙ f tid) i
  Step-Fits {s} (refused tid w ret e enter) f i =
      go-Fits s tid _ s.mutex f (λ j other. refl)
        (ends_fit w ret _ (sym (ap (λ h. fits h (s.mutex.pc tid)) e) ∙ f tid)) i
  Step-Fits {s} (leaves tid w ret e leave) f i =
      go-Fits s tid _ s.mutex f (λ j other. refl)
        (ends_fit w ret _ (sym (ap (λ h. fits h (s.mutex.pc tid)) e) ∙ f tid)) i
  Step-Fits {s} (locks tid r t e pc) f i =
      go-Fits s tid _ (Mutex.go s.mutex tid s.mutex.futex (getting false false)) f
        (mutex_other s.mutex tid s.mutex.futex _)
        (ap in_relock (mutex_self s.mutex tid s.mutex.futex _)) i
  Step-Fits {s} (returns tid r e pc) f i = go-Fits s tid _ s.mutex f (λ j other. refl) refl i
  Step-Fits {s} (adds tid n e idle) f i = go-Fits s tid _ s.mutex f (λ j other. refl) idle i
  Step-Fits {s} (wakes tid n none queue e call) f i =
      go-Fits s tid _ s.mutex f (λ j other. refl) refl i
  Step-Fits {s} (wakes tid n (some r) queue e call) f i =
      go-Fits s tid _ s.mutex f (λ j other. refl) refl i

  -- In every state that the threads can reach, a thread stands in the mutex where the phase of its
  -- call of the condition variable needs it. It has given the mutex back before it sleeps and until
  -- it relocks it; relocking never gives up or returns anything but 0 or 1, with the mutex locked.
  pub phase_fits :
      {s : System} → Reach k futexes s → (tid : ℕ) → fits (s.phase tid) (s.mutex.pc tid) ≡ true
  phase_fits here tid = refl
  phase_fits (next r step) tid = Step-Fits step (phase_fits r) tid
