-- ===== src/PhasedLoop/Iterate.antt =====
-- `Iterate` from the offset on, between two times of the loop and one nanosecond before one.
use miranda_dashboard.Base.{
  ℕ, zero, suc, ◌+◌, ◌*◌, ◌≡◌, ◌<◌, ◌∙◌, ap, ap₂, refl, sym, arith, Option, some, none, true, false,
}
use miranda_dashboard.Base.Int.{
  ℤ, pos, negsuc, ◌+ℤ◌, ◌-ℤ◌, ◌*ℤ◌, ◌≤ℤ◌, int_laws, parts_of_eq, eq_of_parts, leb_ℤ, pos_part,
  neg_part, tdiv,
}
use miranda_dashboard.Time.{Time, to_nsec, in_ns, sub_time, lt_time, ge_time, le_time}
use miranda_dashboard.Time.Arith.{
  IsTime, to_nsec-sub_time, sub_time-IsTime, to_nsec-add_time, add_time-IsTime,
}
use miranda_dashboard.Time.Order.{compare_correct}
use miranda_dashboard.Time.Convert.{in_ns-pos}
use miranda_dashboard.PhasedLoop.{
  PhasedLoop, Checked, passed, failed, bad_time, too_late, arrive, whole_intervals, next_after,
  iterate,
}
use miranda_dashboard.PhasedLoop.Rounding.{times_pos, tdiv_between}
use miranda_dashboard.PhasedLoop.Arrive.{
  tick, IsInt, IsAt, InSeconds, moved, interval_suc, arrive-tick,
}

natural : (x : ℤ) → pos 0 ≤ℤ x → (d : ℕ) × (x ≡ pos d)
natural (pos d) h = (d, refl)
natural (negsuc d) h = (zero, eq_of_parts _ _ (omega arith))

pub leb-true : (a b : ℤ) → a ≤ℤ b → leb_ℤ a b ≡ true
leb-true a b h = ground arith

leb-false : (a b : ℤ) → pos_part b + neg_part a < pos_part a + neg_part b → leb_ℤ a b ≡ false
leb-false a b h = ground arith

-- The loop goes on to its time of number `k`, and counts `n` iterations.
abbrev pub Arrives : PhasedLoop → Time → ℕ → ℤ → Type 0
Arrives loop now k n =
    (t : Time) × (iterate loop now ≡ passed (moved loop t, n)) × IsAt (moved loop t) (pos k)

-- The next time that `Iterate` computes is the time of number `k`, and it passes all CHECKs but the
-- last, that this is within an interval of `now`.
abbrev pub TooLate : PhasedLoop → Time → ℕ → Type 0
TooLate loop now k =
    (start : Time) × (in_ns (whole_intervals loop now) ≡ some start)
    × (to_nsec (next_after loop now start) ≡ tick loop (pos k))
    × (iterate loop now ≡ failed too_late)

plus_one : (d : ℕ) → pos d +ℤ pos 1 ≡ pos (d + 1)
plus_one d = omega int_laws

tick_mono :
    (loop : PhasedLoop) (a : ℕ) (i : ℕ)
    → to_nsec loop.interval ≡ pos (suc i)
    → to_nsec loop.offset ≤ℤ tick loop (pos a)
tick_mono loop a i e = omega (int_laws, parts_of_eq _ _ (ap (λ m. pos a *ℤ m) e ∙ times_pos a i))

pub tick-suc :
    (loop : PhasedLoop) (a : ℕ) (i : ℕ)
    → to_nsec loop.interval ≡ pos (suc i)
    → tick loop (pos (suc a)) ≡ tick loop (pos a) +ℤ to_nsec loop.interval
tick-suc loop a i e = omega (
  int_laws,
  parts_of_eq _ _ (ap (λ m. pos a *ℤ m) e ∙ times_pos a i),
  parts_of_eq _ _ (ap (λ m. pos (suc a) *ℤ m) e ∙ times_pos (suc a) i),
  parts_of_eq _ _ e,
)

module _ (loop : PhasedLoop) (now : Time) (j : ℤ) (b i : ℕ) (v : IsAt loop j) (w : IsTime now)
    (seconds : InSeconds loop now) (e : to_nsec loop.interval ≡ pos (suc i))
    (since : to_nsec loop.offset ≤ℤ to_nsec now) (from : tick loop (pos b) ≤ℤ to_nsec now +ℤ pos 1)
    (to : to_nsec now +ℤ pos 2 ≤ℤ tick loop (pos (suc b))) where
  product : (a : ℕ) → pos a *ℤ to_nsec loop.interval ≡ pos (a * suc i)
  product a = ap (λ m. pos a *ℤ m) e ∙ times_pos a i

  whole_intervals-between : whole_intervals loop now ≡ pos b *ℤ to_nsec loop.interval
  unfolding whole_intervals
  whole_intervals-between =
      let (d, is_d) = natural (to_nsec now -ℤ to_nsec loop.offset) (omega int_laws) in
      ap (λ q. q *ℤ to_nsec loop.interval)
        (ap₂ (λ x m. tdiv (x +ℤ pos 1) m) (to_nsec-sub_time now loop.offset ∙ is_d) e
          ∙ ap (λ x. tdiv x (pos (suc i))) (plus_one d)
          ∙ tdiv_between d b i
              (omega (
                int_laws,
                parts_of_eq _ _ (product b),
                parts_of_eq _ _ (product (suc b)),
                parts_of_eq _ _ is_d,
              ))
              (omega (
                int_laws,
                parts_of_eq _ _ (product b),
                parts_of_eq _ _ (product (suc b)),
                parts_of_eq _ _ is_d,
              )))

  not_before : lt_time now loop.offset ≡ false
  not_before = (compare_correct _ _ w v.offset_IsTime).1 ∙ ground arith

  next_after-tick :
      (start : Time)
      → to_nsec start ≡ pos b *ℤ to_nsec loop.interval
      → to_nsec (next_after loop now start) ≡ tick loop (pos (suc b))
  unfolding next_after
  next_after-tick start at = rw not_before (
      to_nsec-add_time _ _
      ∙ ap (λ x. x +ℤ to_nsec loop.offset) (to_nsec-add_time _ _)
      ∙ omega (
        int_laws,
        parts_of_eq _ _ (product b),
        parts_of_eq _ _ (product (suc b)),
        parts_of_eq _ _ at,
        parts_of_eq _ _ e,
      ))

  next_after-IsTime : (start : Time) → IsTime start → IsTime (next_after loop now start)
  unfolding next_after
  next_after-IsTime start u =
      rw not_before (add_time-IsTime _ _ (add_time-IsTime _ _ u v.interval_IsTime) v.offset_IsTime)

  few_seconds : b * suc i < 2147483648000000000
  few_seconds = omega (int_laws, parts_of_eq _ _ (product b), parts_of_eq _ _ (product (suc b)))

  -- `InNS` gives a time here, and `Iterate` goes on to the next time of the loop.
  iterate-made :
      (start : Time)
      → in_ns (whole_intervals loop now) ≡ some start
      → iterate loop now ≡ arrive loop now (next_after loop now start)
  unfolding iterate
  iterate-made start made = ap made_of made
    where
      made_of : Option Time → Checked (PhasedLoop × ℤ)
      made_of r = elim r [
        | none ↦ failed bad_time
        | some start ↦ arrive loop now (next_after loop now start)
      ]

  iterate-tick :
      (start : Time) × (in_ns (whole_intervals loop now) ≡ some start)
      × IsTime (next_after loop now start)
      × (to_nsec (next_after loop now start) ≡ tick loop (pos (suc b)))
      × (iterate loop now ≡ arrive loop now (next_after loop now start))
  iterate-tick =
      let (start, made, at, u) = in_ns-pos (b * suc i) few_seconds in
      let at_b : to_nsec start ≡ pos b *ℤ to_nsec loop.interval = at ∙ sym (product b) in
      let made_here = ap in_ns (whole_intervals-between ∙ product b) ∙ made in
      (
        start,
        made_here,
        next_after-IsTime start u,
        next_after-tick start at_b,
        iterate-made start made_here,
      )

  not_late : (t : Time) → IsTime t → to_nsec t ≡ tick loop (pos (suc b)) → ge_time t now ≡ true
  not_late t u at =
      (compare_correct _ _ u w).4
      ∙ leb-true (to_nsec now) (to_nsec t) (
          omega (
            int_laws,
            parts_of_eq _ _ (product b),
            parts_of_eq _ _ (product (suc b)),
            parts_of_eq _ _ at,
          ))

  within_interval :
      (t : Time)
      → IsTime t
      → to_nsec t ≡ tick loop (pos (suc b))
      → le_time (sub_time t now) loop.interval
        ≡ leb_ℤ (to_nsec t -ℤ to_nsec now) (to_nsec loop.interval)
  within_interval t u at =
      (compare_correct _ _ (sub_time-IsTime _ _ u w) v.interval_IsTime).3
      ∙ ap (λ x. leb_ℤ x (to_nsec loop.interval)) (to_nsec-sub_time t now)

  moved-IsAt :
      (t : Time)
      → IsTime t
      → to_nsec t ≡ tick loop (pos (suc b))
      → IsAt (moved loop t) (pos (suc b))
  moved-IsAt t u at = record {
    interval_IsTime = v.interval_IsTime;
    offset_IsTime = v.offset_IsTime;
    last_IsTime = u;
    positive = v.positive;
    last_tick = at;
  }

  iterate-started :
      IsInt (pos (suc b) -ℤ j)
      → tick loop (pos b) ≤ℤ to_nsec now
      → Arrives loop now (suc b) (pos (suc b) -ℤ j)
  iterate-started f h =
      let (start, made, u, at, out) = iterate-tick in
      let t = next_after loop now start in
      let fits =
        within_interval t u at
        ∙ leb-true (to_nsec t -ℤ to_nsec now) (to_nsec loop.interval)
            (omega (int_laws, parts_of_eq _ _ (tick-suc loop b i e), parts_of_eq _ _ at)) in
      (
        t,
        out ∙ arrive-tick loop now t j (pos (suc b)) i v u e at f ∙ rw (not_late t u at, fits) refl,
        moved-IsAt t u at,
      )

  iterate-stopped :
      IsInt (pos (suc b) -ℤ j)
      → to_nsec now +ℤ pos 1 ≤ℤ tick loop (pos b)
      → TooLate loop now (suc b)
  iterate-stopped f h =
      let (start, made, u, at, out) = iterate-tick in
      let t = next_after loop now start in
      let fits =
        within_interval t u at
        ∙ leb-false (to_nsec t -ℤ to_nsec now) (to_nsec loop.interval)
            (omega (int_laws, parts_of_eq _ _ (tick-suc loop b i e), parts_of_eq _ _ at)) in
      (
        start,
        made,
        at,
        out ∙ arrive-tick loop now t j (pos (suc b)) i v u e at f ∙ rw (not_late t u at, fits) refl,
      )

-- From the offset on, and not in the nanosecond before a time of the loop: for a loop whose last
-- time is the one of number `j`, at `now` from the time of number `a` to two nanoseconds before the
-- next one, with a count of iterations that fits an `int` and seconds since the offset that fit an
-- `int32_t`, `Iterate` passes its checks and goes on to the time of number `a + 1`, exactly, with
-- the count `a + 1 - j`.
pub iterate-on_time :
    (loop : PhasedLoop) (now : Time) (j : ℤ) (a : ℕ)
    → IsAt loop j
    → IsTime now
    → InSeconds loop now
    → IsInt (pos (suc a) -ℤ j)
    → tick loop (pos a) ≤ℤ to_nsec now
    → to_nsec now +ℤ pos 2 ≤ℤ tick loop (pos (suc a))
    → Arrives loop now (suc a) (pos (suc a) -ℤ j)
iterate-on_time loop now j a v w seconds f h g =
    let (i, e) = interval_suc (to_nsec loop.interval) v.positive in
    let m = tick_mono loop a i e in
    iterate-started loop now j a i v w seconds e (omega int_laws) (omega int_laws) g f h

-- One nanosecond before a time of the loop that is not the first one, with a count of iterations
-- that fits an `int` and seconds since the offset that fit an `int32_t`, the next time that
-- `Iterate` computes is the time after that one, and it passes all CHECKs but the last: it fails the
-- one that the next time is within an interval of `now`.
pub iterate-one_early :
    (loop : PhasedLoop) (now : Time) (j : ℤ) (a : ℕ)
    → IsAt loop j
    → IsTime now
    → InSeconds loop now
    → IsInt (pos (suc (suc a)) -ℤ j)
    → to_nsec now +ℤ pos 1 ≡ tick loop (pos (suc a))
    → TooLate loop now (suc (suc a))
iterate-one_early loop now j a v w seconds f h =
    let (i, e) = interval_suc (to_nsec loop.interval) v.positive in
    let m = tick_mono loop a i e in
    let s = tick-suc loop a i e in
    let s' = tick-suc loop (suc a) i e in
    iterate-stopped loop now j (suc a) i v w seconds e
      (omega (int_laws, parts_of_eq _ _ h, parts_of_eq _ _ s, v.positive))
      (omega (int_laws, parts_of_eq _ _ h))
      (omega (int_laws, parts_of_eq _ _ h, parts_of_eq _ _ s', v.positive)) f
      (omega (int_laws, parts_of_eq _ _ h))
