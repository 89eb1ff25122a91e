-- ===== src/Event/Counts.antt =====
-- aos/common/event.cc: how often an event is set, and found to be by Clear.
use miranda_dashboard.Base.{ℕ, ◌+◌, ◌<◌, ◌≡◌, arith, true, ◌==◌, if◌then◌else◌}
use miranda_dashboard.Event.{
  cleared, Pc, returned, futex_unset, clear, Kernel, System, Step, calls_wait, checks, sleeps,
  refused, leaves, stores, wakes, clears,
}

-- Whether the event is set, as a number.
abbrev pub set_level : ℕ → ℕ
set_level v = if v == 0 then 0 else 1

abbrev pub told_set : Pc → ℕ
told_set (returned (cleared true)) = 1
told_set _ = 0

set_level-positive : (v : ℕ) → 0 < v → set_level v ≡ 1
set_level-positive v h = ground arith

told_set-clear : (v : ℕ) → told_set (clear v) ≡ set_level v
unfolding clear futex_unset
told_set-clear v = ground arith

module _ (k : Kernel) where
  -- Whether a step sets an event that was not set, and whether it is a Clear that returns true.
  abbrev pub sets : {s t : System} → Step k s t → ℕ
  sets {s} (stores tid value result e lt) = if s.futex == 0 then 1 else 0
  sets _ = 0

  abbrev pub finds_set : {s t : System} → Step k s t → ℕ
  finds_set {s} (clears tid result e) = told_set (clear s.futex)
  finds_set _ = 0

  -- Steps, how many of them set the event, and how many found and cleared it.
  pub data Run (s : System) : ℕ → ℕ → System → Type 0 where
    begins : Run s 0 0 s
    goes_on :
        {a b : ℕ} {t u : System}
        → Run s a b t
        → (step : Step k t u) → Run s (a + sets step) (b + finds_set step) u

  step-level :
      {s t : System} (step : Step k s t)
      → set_level s.futex + sets step ≡ finds_set step + set_level t.futex
  step-level (calls_wait tid result timeout e) = omega arith
  step-level (checks tid timeout e) = omega arith
  step-level (sleeps tid timeout e enter) = omega arith
  step-level (refused tid timeout ret e enter) = omega arith
  step-level (leaves tid timeout ret e leave) = omega arith
  step-level {s} (stores tid value result e lt) = ground arith
  step-level (wakes tid ret queue e wake) = omega arith
  step-level {s} (clears tid result e) = omega (arith, told_set-clear s.futex)

  -- Each time the event goes from unset to set, just one Clear returns true, or none yet: in any
  -- run, the times it was set and the Clears that returned true differ by whether it is set
  -- after and before.
  pub Run-sets :
      {s t : System} {a b : ℕ} → Run s a b t → set_level s.futex + a ≡ b + set_level t.futex
  Run-sets begins = omega arith
  Run-sets (goes_on run step) = omega (arith, Run-sets run, step-level step)
