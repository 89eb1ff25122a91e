-- ===== src/LogInterval/Tests.antt =====
-- Something that happens three times in half a second, logged every tenth of a second.
use miranda_dashboard.Base.{List, [], ◌∷◌, ◌≡◌, refl, arith, ℕ, ◌<◌}
use miranda_dashboard.Base.Int.{int_laws, ℤ, pos, ◌+ℤ◌, ◌*ℤ◌, ◌-ℤ◌}
use miranda_dashboard.Time.{Time, time_zero, to_nsec, sub_time, ge_time}
use miranda_dashboard.Time.Arith.{IsTime}
use miranda_dashboard.LogInterval.{new_log_interval, want_to_log, is_due, should_log, take_count}
use miranda_dashboard.LogInterval.Spaced.{
  Call, wants, asks, takes, logs, InOrder, Spaced, Spaced-new_log_interval,
}

abbrev at : ℤ → Time
at n = record { sec = pos 0; nsec = n }

abbrev calls : List Call
calls =
    wants (at (pos 200000000))
    ∷ asks (at (pos 250000000))
    ∷ asks (at (pos 300000000))
    ∷ takes
    ∷ wants (at (pos 310000000))
    ∷ asks (at (pos 500000000))
    ∷ []

calls_logged :
    logs (new_log_interval (at (pos 100000000))) calls
    ≡ at (pos 300000000) ∷ at (pos 500000000) ∷ []
unfolding want_to_log is_due should_log take_count sub_time ge_time ◌+ℤ◌ ◌*ℤ◌ ◌-ℤ◌
calls_logged = refl

at-IsTime : (n : ℕ) → n < 1000000000 → IsTime (at (pos n))
at-IsTime n h = record { nonnegative = omega int_laws; below = omega int_laws }

calls-InOrder : InOrder time_zero calls
unfolding to_nsec ◌+ℤ◌ ◌*ℤ◌
calls-InOrder = (
  omega arith,
  at-IsTime 200000000 (omega arith),
  (
    omega arith,
    at-IsTime 250000000 (omega arith),
    (
      omega arith,
      at-IsTime 300000000 (omega arith),
      (
        omega arith,
        at-IsTime 310000000 (omega arith),
        (omega arith, at-IsTime 500000000 (omega arith), tt),
      ),
    ),
  ),
)

Spaced-new_log_interval_example :
    Spaced
      (to_nsec (at (pos 100000000)))
      time_zero
      (logs (new_log_interval (at (pos 100000000))) calls)
Spaced-new_log_interval_example =
    Spaced-new_log_interval (at (pos 100000000)) calls (at-IsTime 100000000 (omega arith))
      calls-InOrder
