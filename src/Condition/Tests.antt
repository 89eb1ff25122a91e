-- ===== src/Condition/Tests.antt =====
-- Thread 5 waits, and thread 7 broadcasts between its load of the counter and its FUTEX_WAIT.
use native.Mathlib.Decide.{ℕ_discrete}
use miranda_dashboard.Base.{ℕ, ◌≡◌, ◌⊎◌, inl, inr, refl, sym, subst, arith, true, false, some}
use miranda_dashboard.Mutex
use miranda_dashboard.Mutex.{
  returned, getting, holding, unlocking, try_fast, check_owner, release, call_get, get, unlock,
}
use miranda_dashboard.Mutex.Tests.{kernel}
use miranda_dashboard.Event.Tests.{kernel as futexes}
use miranda_dashboard.Condition.{
  outside, loaded, releasing, entering, relocks, waking, is_free, int_max, wake_ends, next_value,
  System, go, start, Step, uses_mutex, loads, unlocks, unlocked, adds, wakes, Reach, here, next,
}
use miranda_dashboard.Condition.Phases.{fits}
use miranda_dashboard.Condition.Moving.{mutex_other}
use miranda_dashboard.Condition.Relocked.{phase_fits}
use miranda_dashboard.Condition.Broadcast.{Waits, begins, goes_on, broadcast_relocks}

abbrev asked : System
asked = record start { mutex = Mutex.go Mutex.start 5 0 (getting true false) }

abbrev locked : System
locked = record start { mutex = Mutex.go (asked.mutex) 5 5 (holding 0) }

abbrev waits : System
waits = go locked 5 (loaded 0)

abbrev has_added : System
has_added = go (record waits { value = 1 }) 7 (waking int_max)

abbrev unlocks_it : System
unlocks_it =
    go (record has_added { mutex = Mutex.go (has_added.mutex) 5 5 unlocking }) 5 (releasing 0)

abbrev gave_up : System
gave_up = record unlocks_it { mutex = Mutex.go (unlocks_it.mutex) 5 0 (returned 0) }

abbrev woken : System
woken = go (record gave_up { queue = λ i. false }) 7 outside

abbrev enters : System
enters = go woken 5 (entering 0)

locked-Reach : Reach kernel futexes locked
unfolding try_fast
locked-Reach =
    next
      (next here
        (uses_mutex (asked.mutex) (call_get 5 0 true false (omega arith) refl) (λ i. inr refl)))
      (uses_mutex (locked.mutex) (get 5 true false (omega arith) refl) (λ i. inr refl))

only_5 :
    (i : ℕ)
    → (gave_up.mutex.pc i ≡ unlocks_it.mutex.pc i)
      ⊎ (is_free (unlocks_it.phase i) (unlocks_it.mutex.pc i) ≡ true)
only_5 i = elim (ℕ_discrete i 5) [
  | yes same ↦
      inr (subst (λ j. is_free (unlocks_it.phase j) (unlocks_it.mutex.pc j) ≡ true) (sym same) refl)
  | no other ↦ inl (mutex_other (unlocks_it.mutex) 5 0 (returned 0) i other)
]

enters-Waits : Waits kernel futexes 5 0 1 true enters
unfolding check_owner release next_value wake_ends
enters-Waits =
    goes_on
      (goes_on
        (goes_on
          (goes_on (goes_on (begins waits refl refl) refl (adds 7 int_max refl refl)) refl
            (unlocks 5 0 0 (omega arith) refl (inl refl)))
          refl (uses_mutex (gave_up.mutex) (unlock 5 (omega arith) refl) only_5))
        refl (wakes 7 int_max (some 0) (λ i. false) refl (λ i. refl)))
      refl (unlocked 5 0 refl refl)

broadcast_relocks_example :
    (enters.queue 5 ≡ false) × (u : System) × Step kernel futexes enters u × (u.phase 5 ≡ relocks)
broadcast_relocks_example =
    broadcast_relocks kernel futexes {tid = 5} {wait_start = 0} {added = 1} {t = enters}
      (omega arith) (omega arith) enters-Waits (inl refl)

phase_fits_example : fits (waits.phase 5) (waits.mutex.pc 5) ≡ true
phase_fits_example = phase_fits kernel futexes {s = waits} (next locked-Reach (loads 5 refl refl)) 5
