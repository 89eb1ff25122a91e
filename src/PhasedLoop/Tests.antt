-- ===== src/PhasedLoop/Tests.antt =====
-- A loop of a tenth of a second, from a hundredth.
use miranda_dashboard.Base.{refl, arith}
use miranda_dashboard.Base.Int.{ℤ, pos, ◌+ℤ◌, ◌-ℤ◌, ◌*ℤ◌}
use miranda_dashboard.Time.{Time, to_nsec}
use miranda_dashboard.Time.Arith.{IsTime}
use miranda_dashboard.PhasedLoop.{PhasedLoop}
use miranda_dashboard.PhasedLoop.Arrive.{IsAt}
use miranda_dashboard.PhasedLoop.Iterate.{Arrives, TooLate, iterate-on_time, iterate-one_early}

abbrev tenth : Time
tenth = record { sec = pos 0; nsec = pos 100000000 }

abbrev hundredth : Time
hundredth = record { sec = pos 0; nsec = pos 10000000 }

-- A time within the first second.
abbrev early : ℤ → Time
early n = record { sec = pos 0; nsec = n }

tenth-IsTime : IsTime tenth
unfolding ◌+ℤ◌
tenth-IsTime = record { nonnegative = omega arith; below = omega arith }

hundredth-IsTime : IsTime hundredth
unfolding ◌+ℤ◌
hundredth-IsTime = record { nonnegative = omega arith; below = omega arith }

-- The last time is the first one of the loop.
abbrev first : PhasedLoop
first = record { interval = tenth; offset = hundredth; last_time = hundredth }

first-IsAt : IsAt first (pos 0)
unfolding to_nsec ◌+ℤ◌ ◌*ℤ◌
first-IsAt = record {
  interval_IsTime = tenth-IsTime;
  offset_IsTime = hundredth-IsTime;
  last_IsTime = hundredth-IsTime;
  positive = omega arith;
  last_tick = refl;
}

early-IsTime : IsTime (early (pos 350000000))
unfolding ◌+ℤ◌
early-IsTime = record { nonnegative = omega arith; below = omega arith }

edge-IsTime : IsTime (early (pos 309999999))
unfolding ◌+ℤ◌
edge-IsTime = record { nonnegative = omega arith; below = omega arith }

iterate-on_time_example : Arrives first (early (pos 350000000)) 4 (pos 4 -ℤ pos 0)
unfolding to_nsec ◌+ℤ◌ ◌*ℤ◌ ◌-ℤ◌
iterate-on_time_example =
    iterate-on_time first (early (pos 350000000)) (pos 0) 3 first-IsAt early-IsTime (omega arith)
      (omega arith, omega arith) (omega arith) (omega arith)

iterate-one_early_example : TooLate first (early (pos 309999999)) 4
unfolding to_nsec ◌+ℤ◌ ◌*ℤ◌ ◌-ℤ◌
iterate-one_early_example =
    iterate-one_early first (early (pos 309999999)) (pos 0) 2 first-IsAt edge-IsTime (omega arith)
      (omega arith, omega arith) refl
