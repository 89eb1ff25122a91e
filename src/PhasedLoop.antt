-- ===== src/PhasedLoop.antt =====
-- aos/common/util/phased_loop.{h,cc}: the times at which a loop of a fixed interval runs. A failed
-- CHECK, or a failed check of `Time`, is an outcome that says which one. Integers of 64 bits do not wrap here, for their
-- overflow is undefined; the count of the iterations is cut to an `int`, as the source does.
mod Rounding
mod Arrive
pub mod Iterate
pub mod Start
mod Tests
use miranda_dashboard.Base.{none, some, Bool, not, ◌&&◌, if◌then◌else◌}
use miranda_dashboard.Base.Int.{ℤ, pos, ◌+ℤ◌, ◌*ℤ◌, eqb_ℤ, tdiv, trem, to_int}
use miranda_dashboard.Time.{
  Time, time_zero, to_nsec, in_ns, add_time, sub_time, mul_time, eq_time, lt_time, ge_time, gt_time,
  le_time,
}

-- What can fail: the check of `Time`, the CHECKs of `Iterate` in their order, those of the
-- constructor.
pub data Failure : Type 0 where
  bad_time not_whole_intervals off_phase too_early too_late bad_arguments : Failure

pub data Checked {ℓ} (A : Type ℓ) : Type ℓ where
  passed : A → Checked A
  failed : Failure → Checked A

abbrev pub map_passed {ℓ κ} : {A : Type ℓ} {B : Type κ} → (A → B) → Checked A → Checked B
map_passed f (passed a) = passed (f a)
map_passed f (failed e) = failed e

pub record PhasedLoop : Type 0 where
  pub interval : Time
  pub offset : Time
  pub last_time : Time

-- `Iterate`, after `next_time` is computed.
unfoldable pub arrive : PhasedLoop → Time → Time → Checked (PhasedLoop × ℤ)
arrive loop now next_time =
    let difference = sub_time next_time loop.last_time in
    let result = to_int (tdiv (to_nsec difference) (to_nsec loop.interval)) in
    if not (eq_time difference (mul_time loop.interval result))
    then failed not_whole_intervals
    else if not
        (eqb_ℤ (pos 0) (trem (to_nsec (sub_time next_time loop.offset)) (to_nsec loop.interval)))
    then failed off_phase
    else if not (ge_time next_time now)
    then failed too_early
    else if not (le_time (sub_time next_time now) loop.interval)
    then failed too_late
    else passed
        (record { interval = loop.interval; offset = loop.offset; last_time = next_time }, result)

-- The multiple of the interval that `Iterate` gives to `InNS`.
unfoldable pub whole_intervals : PhasedLoop → Time → ℤ
whole_intervals loop now =
    tdiv (to_nsec (sub_time now loop.offset) +ℤ pos 1) (to_nsec loop.interval)
    *ℤ to_nsec loop.interval

-- The sum that makes `next_time`.
unfoldable pub next_after : PhasedLoop → Time → Time → Time
next_after loop now start =
    add_time (add_time start (if lt_time now loop.offset then time_zero else loop.interval))
      loop.offset

unfoldable pub iterate : PhasedLoop → Time → Checked (PhasedLoop × ℤ)
unfolding arrive whole_intervals next_after
iterate loop now = elim (in_ns (whole_intervals loop now)) [
  | none ↦ failed bad_time
  | some start ↦ arrive loop now (next_after loop now start)
]

-- `Reset`, which leaves the result out.
unfoldable pub reset : PhasedLoop → Time → Checked PhasedLoop
unfolding iterate
reset loop now = map_passed (λ out. out.0) (iterate loop (sub_time now loop.interval))

-- The constructor, at the time `now`.
unfoldable pub new_phased_loop : Time → Time → Time → Checked PhasedLoop
unfolding reset
new_phased_loop interval offset now =
    if ge_time offset time_zero && gt_time interval time_zero && lt_time offset interval
    then reset (record { interval = interval; offset = offset; last_time = offset }) now
    else failed bad_arguments
