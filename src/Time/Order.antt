-- ===== src/Time/Order.antt =====
-- Comparisons, negation and absolute value of times against those of their nanoseconds.
use miranda_dashboard.Base.{
  ◌≡◌, ◌≢◌, ◌⊎◌, Option, none, some, if◌then◌else◌, arith, true, refl, Bool-cases, inl, inr,
}
use miranda_dashboard.Base.Int.{ℤ, pos, ◌-ℤ◌, ◌≤ℤ◌, ltb_ℤ, leb_ℤ, eqb_ℤ}
use miranda_dashboard.Time.{
  Time, make_time, nsec_in_sec, time_zero, to_nsec, eq_time, lt_time, gt_time, le_time, ge_time,
  neg_time, abs_time,
}
use miranda_dashboard.Time.Arith.{IsTime, time_laws}

-- On times whose nanoseconds are in range, each comparison is that of their values.
pub compare_correct :
    (a b : Time)
    → IsTime a
    → IsTime b
    → (eq_time a b ≡ eqb_ℤ (to_nsec a) (to_nsec b))
      × (lt_time a b ≡ ltb_ℤ (to_nsec a) (to_nsec b))
      × (gt_time a b ≡ ltb_ℤ (to_nsec b) (to_nsec a))
      × (le_time a b ≡ leb_ℤ (to_nsec a) (to_nsec b))
      × (ge_time a b ≡ leb_ℤ (to_nsec b) (to_nsec a))
unfolding eq_time lt_time gt_time le_time ge_time to_nsec
compare_correct a b u v = grind time_laws

-- An outcome that is a time of a given value.
abbrev pub HasValue : ℤ → Option Time → Type 0
HasValue value out = (m : Time) × (out ≡ some m) × (to_nsec m ≡ value) × IsTime m

-- A fraction of a second that is not zero is positive.
fraction : (t : Time) → IsTime t → t.nsec ≢ pos 0 → pos 1 ≤ℤ t.nsec
fraction t v h = grind time_laws

module _ (t : Time) (v : IsTime t) (h : pos 1 ≤ℤ t.nsec) where
  abbrev negated : Time
  negated = record { sec = pos 0 -ℤ t.sec -ℤ pos 1; nsec = nsec_in_sec -ℤ t.nsec }

  make-negated : make_time (pos 0 -ℤ t.sec -ℤ pos 1) (nsec_in_sec -ℤ t.nsec) ≡ some negated
  unfolding make_time
  make-negated = grind time_laws

  to_nsec-negated : to_nsec negated ≡ pos 0 -ℤ to_nsec t
  unfolding to_nsec
  to_nsec-negated = omega time_laws

  negated-IsTime : IsTime negated
  negated-IsTime = omega time_laws

neg_time-whole : (t : Time) → t.nsec ≡ pos 0 → neg_time t ≡ none
unfolding neg_time ◌-ℤ◌
neg_time-whole t e = rw e

-- Negation of a time whose nanoseconds are in range gives the negated value, except that it dies
-- on every time of whole seconds.
pub neg_correct :
    (t : Time)
    → IsTime t
    → ((t.nsec ≡ pos 0) × (neg_time t ≡ none))
      ⊎ ((t.nsec ≢ pos 0) × HasValue (pos 0 -ℤ to_nsec t) (neg_time t))
unfolding neg_time
neg_correct t v = elim (Bool-cases (eqb_ℤ t.nsec (pos 0))) [
  | inl e ↦ let whole : t.nsec ≡ pos 0 = grind time_laws in inl (whole, neg_time-whole t whole)
  | inr e ↦
      let h : t.nsec ≢ pos 0 = grind time_laws in
      let f = fraction t v h in
      inr (h, (negated t v f, make-negated t v f, to_nsec-negated t v f, negated-IsTime t v f))
]

gt_time-zero : (t : Time) → IsTime t → gt_time t time_zero ≡ ltb_ℤ (pos 0) (to_nsec t)
unfolding gt_time to_nsec
gt_time-zero t v = grind time_laws

-- A time with no fraction, negated.
abbrev whole_negated : Time → Time
whole_negated t = record { sec = pos 0 -ℤ t.sec; nsec = pos 0 }

to_nsec-whole_negated :
    (t : Time) → eqb_ℤ t.nsec (pos 0) ≡ true → to_nsec (whole_negated t) ≡ pos 0 -ℤ to_nsec t
unfolding to_nsec
to_nsec-whole_negated t e = grind time_laws

abs_nonpositive :
    (t : Time)
    → IsTime t
    → HasValue (pos 0 -ℤ to_nsec t) (
        if eqb_ℤ t.nsec (pos 0)
        then make_time (pos 0 -ℤ t.sec) (pos 0)
        else make_time (pos 0 -ℤ t.sec -ℤ pos 1) (nsec_in_sec -ℤ t.nsec))
unfolding make_time
abs_nonpositive t v = elim (Bool-cases (eqb_ℤ t.nsec (pos 0))) [
  | inl e ↦ rw e (
    whole_negated t,
    refl,
    to_nsec-whole_negated t e,
    record { nonnegative = omega arith; below = omega time_laws },
  )
  | inr e ↦
      let f : pos 1 ≤ℤ t.nsec = grind time_laws in
      rw e (negated t v f, make-negated t v f, to_nsec-negated t v f, negated-IsTime t v f)
]

-- The absolute value of a time whose nanoseconds are in range has the absolute value of its
-- value in nanoseconds, for whole seconds too.
pub abs_correct :
    (t : Time)
    → IsTime t
    → HasValue (if ltb_ℤ (pos 0) (to_nsec t) then to_nsec t else pos 0 -ℤ to_nsec t) (abs_time t)
unfolding abs_time
abs_correct t v = elim (Bool-cases (ltb_ℤ (pos 0) (to_nsec t))) [
  | inl h ↦ rw (gt_time-zero t v, h) (t, refl, refl, v)
  | inr h ↦ rw (gt_time-zero t v, h) (abs_nonpositive t v)
]
