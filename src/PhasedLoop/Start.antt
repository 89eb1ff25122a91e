-- ===== src/PhasedLoop/Start.antt =====
-- A loop that starts: `Reset` and the constructor.
use miranda_dashboard.Base.{ℕ, suc, ◌+◌, ◌<◌, ◌≡◌, ◌∙◌, ap, refl, subst, arith, true, ltb}
use miranda_dashboard.Base.Int.{
  ℤ, pos, ◌+ℤ◌, ◌-ℤ◌, ◌*ℤ◌, ◌≤ℤ◌, int_laws, *ℤ_parts, parts_of_eq, ltb_ℤ, leb_ℤ, pos_part, neg_part,
}
use miranda_dashboard.Time.{Time, time_zero, to_nsec, sub_time, lt_time, gt_time, ge_time}
use miranda_dashboard.Time.Arith.{IsTime, to_nsec-sub_time, sub_time-IsTime}
use miranda_dashboard.Time.Order.{compare_correct}
use miranda_dashboard.PhasedLoop.{PhasedLoop, passed, reset, new_phased_loop}
use miranda_dashboard.PhasedLoop.Arrive.{tick, IsInt, IsAt, InSeconds, moved, interval_suc}
use miranda_dashboard.PhasedLoop.Iterate.{Arrives, leb-true, tick-suc, iterate-on_time}

one_more : (a : ℕ) → pos (suc (suc a)) -ℤ pos (suc a) ≡ pos 1
one_more a = omega int_laws

ltb_parts : (a b : ℕ) → a < b → ltb a b ≡ true
ltb_parts a b h = ground arith

-- With `now` from a time of the loop, the first after the offset or a later one, to two nanoseconds
-- before the next, and a count that fits an `int`, whatever the last time was: after `Reset` the
-- last time is that one, and `Iterate` at the same `now` returns 1 and goes on to the next.
pub reset-iterate :
    (loop : PhasedLoop) (now : Time) (j : ℤ) (a : ℕ)
    → IsAt loop j
    → IsTime now
    → InSeconds loop now
    → IsInt (pos (suc a) -ℤ j)
    → tick loop (pos (suc a)) ≤ℤ to_nsec now
    → to_nsec now +ℤ pos 2 ≤ℤ tick loop (pos (suc (suc a)))
    → (t : Time) × (reset loop now ≡ passed (moved loop t))
      × IsAt (moved loop t) (pos (suc a))
      × Arrives (moved loop t) now (suc (suc a)) (pos 1)
unfolding reset
reset-iterate loop now j a v w seconds f h g =
    let (i, e) = interval_suc (to_nsec loop.interval) v.positive in
    let before = to_nsec-sub_time now loop.interval in
    let (t, out, at) =
      iterate-on_time loop (sub_time now loop.interval) j a v
        (sub_time-IsTime _ _ w v.interval_IsTime)
        (omega (int_laws, parts_of_eq _ _ before, v.positive, seconds)) f
        (omega (int_laws, parts_of_eq _ _ before, parts_of_eq _ _ (tick-suc loop a i e)))
        (omega (int_laws, parts_of_eq _ _ before, parts_of_eq _ _ (tick-suc loop (suc a) i e))) in
    (
      t,
      rw out refl,
      at,
      subst (Arrives (moved loop t) now (suc (suc a))) (one_more a) (
          iterate-on_time (moved loop t) now (pos (suc a)) (suc a) at w seconds
            (omega int_laws, omega int_laws) h g),
    )

ltb-true : (a b : ℤ) → a +ℤ pos 1 ≤ℤ b → ltb_ℤ a b ≡ true
ltb-true a b h = ltb_parts (pos_part a + neg_part b) (pos_part b + neg_part a) (omega int_laws)

to_nsec-time_zero : to_nsec time_zero ≡ pos 0
unfolding to_nsec ◌+ℤ◌ ◌*ℤ◌
to_nsec-time_zero = refl

time_zero-IsTime : IsTime time_zero
unfolding ◌+ℤ◌
time_zero-IsTime = record { nonnegative = omega arith; below = omega arith }

no_intervals : (o m : ℤ) → o ≡ o +ℤ pos 0 *ℤ m
no_intervals o m = omega (int_laws, *ℤ_parts (pos 0) m)

module _ (interval offset : Time) (p : IsTime interval) (q : IsTime offset) where
  abbrev unstarted : PhasedLoop
  unstarted = record { interval = interval; offset = offset; last_time = offset }

  unstarted-IsAt : pos 1 ≤ℤ to_nsec interval → IsAt unstarted (pos 0)
  unstarted-IsAt h = record {
    interval_IsTime = p;
    offset_IsTime = q;
    last_IsTime = q;
    positive = h;
    last_tick = no_intervals (to_nsec offset) (to_nsec interval);
  }

  from_zero : pos 0 ≤ℤ to_nsec offset → ge_time offset time_zero ≡ true
  from_zero h =
      (compare_correct _ _ q time_zero-IsTime).4
      ∙ ap (λ z. leb_ℤ z (to_nsec offset)) to_nsec-time_zero
      ∙ leb-true (pos 0) (to_nsec offset) h

  is_positive : pos 1 ≤ℤ to_nsec interval → gt_time interval time_zero ≡ true
  is_positive h =
      (compare_correct _ _ p time_zero-IsTime).2
      ∙ ap (λ z. ltb_ℤ z (to_nsec interval)) to_nsec-time_zero
      ∙ ltb-true (pos 0) (to_nsec interval) (omega int_laws)

  is_below : to_nsec offset +ℤ pos 1 ≤ℤ to_nsec interval → lt_time offset interval ≡ true
  is_below h = (compare_correct _ _ q p).1 ∙ ltb-true (to_nsec offset) (to_nsec interval) h

-- With an offset from zero to below the interval, `now` from a time of the loop after the offset to
-- two nanoseconds before the next, and an uptime of fewer intervals than an `int` holds: the
-- constructor passes its checks, the last time is the last one of the loop at or before `now`, and
-- `Iterate` at the same `now` returns 1.
pub new_phased_loop-IsAt :
    (interval offset now : Time) (a : ℕ)
    → IsTime interval
    → IsTime offset
    → IsTime now
    → to_nsec now ≤ℤ to_nsec offset +ℤ pos 2147483647999999998
    → pos 0 ≤ℤ to_nsec offset
    → to_nsec offset +ℤ pos 1 ≤ℤ to_nsec interval
    → IsInt (pos (suc a))
    → to_nsec offset +ℤ pos (suc a) *ℤ to_nsec interval ≤ℤ to_nsec now
    → to_nsec now +ℤ pos 2 ≤ℤ to_nsec offset +ℤ pos (suc (suc a)) *ℤ to_nsec interval
    → (loop : PhasedLoop) × (new_phased_loop interval offset now ≡ passed loop)
      × IsAt loop (pos (suc a))
      × Arrives loop now (suc (suc a)) (pos 1)
unfolding new_phased_loop
new_phased_loop-IsAt interval offset now a p q w seconds low below f h g =
    let positive : pos 1 ≤ℤ to_nsec interval = omega int_laws in
    let (t, out, at, next) =
      reset-iterate (unstarted interval offset p q) now (pos 0) a
        (unstarted-IsAt interval offset p q positive) w seconds (omega int_laws, omega int_laws) h
        g in
    (
      moved (unstarted interval offset p q) t,
      rw
          (
            from_zero interval offset p q low,
            is_positive interval offset p q positive,
            is_below interval offset p q below,
          )
          out,
      at,
      next,
    )
