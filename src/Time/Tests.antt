-- ===== src/Time/Tests.antt =====
-- Times on both sides of zero.
use miranda_dashboard.Base.{◌≡◌, refl, ap, ◌≢◌, ◌⊎◌, none, ◌<◌, ◌≤◌, ◌%◌, arith}
use miranda_dashboard.Base.Int.{
  pos, negsuc, pos_part, tdiv, trem, ◌+ℤ◌, ◌-ℤ◌, ◌*ℤ◌, ltb_ℤ, leb_ℤ, eqb_ℤ,
}
use miranda_dashboard.Time.{
  Time, nsec_in_sec, div_time, to_nsec, neg_time, in_ns, eq_time, lt_time, gt_time, le_time,
  ge_time,
}
use miranda_dashboard.Time.Divide.{div_correct}
use miranda_dashboard.Time.Arith.{IsTime}
use miranda_dashboard.Time.Order.{HasValue, compare_correct, neg_correct}
use miranda_dashboard.Time.Convert.{in_ns_correct}

-- Two seconds and nine tenths, and a tenth short of minus one.
abbrev late : Time
late = record { sec = pos 2; nsec = pos 900000000 }

abbrev early : Time
early = record { sec = negsuc 1; nsec = pos 900000000 }

late-IsTime : IsTime late
unfolding ◌+ℤ◌
late-IsTime = record { nonnegative = omega arith; below = omega arith }

early-IsTime : IsTime early
unfolding ◌+ℤ◌
early-IsTime = record { nonnegative = omega arith; below = omega arith }

compare_correct_example :
    (eq_time early late ≡ eqb_ℤ (to_nsec early) (to_nsec late))
    × (lt_time early late ≡ ltb_ℤ (to_nsec early) (to_nsec late))
    × (gt_time early late ≡ ltb_ℤ (to_nsec late) (to_nsec early))
    × (le_time early late ≡ leb_ℤ (to_nsec early) (to_nsec late))
    × (ge_time early late ≡ leb_ℤ (to_nsec late) (to_nsec early))
compare_correct_example = compare_correct early late early-IsTime late-IsTime

neg_correct_example :
    ((early.nsec ≡ pos 0) × (neg_time early ≡ none))
    ⊎ ((early.nsec ≢ pos 0) × HasValue (pos 0 -ℤ to_nsec early) (neg_time early))
neg_correct_example = neg_correct early early-IsTime

in_ns_correct_example :
    HasValue (pos 1500000000) (in_ns (pos 1500000000))
    × (((2 ≤ 1500000002 % 1000000000) × HasValue (negsuc 1500000000) (in_ns (negsuc 1500000000)))
        ⊎ ((1500000002 % 1000000000 < 2) × (in_ns (negsuc 1500000000) ≡ none)))
in_ns_correct_example = in_ns_correct 1500000000 (omega arith)

sevenths : (div_time (record { sec = pos 6; nsec = pos 0 }) (pos 7)).nsec ≡ pos 857142852
unfolding div_time tdiv trem ◌*ℤ◌ ◌+ℤ◌ ◌-ℤ◌
sevenths = refl

div_correct_example :
    (to_nsec (div_time early (pos 7)) *ℤ pos 7
        +ℤ (trem nsec_in_sec (pos 7) *ℤ trem early.sec (pos 7) +ℤ trem early.nsec (pos 7))
      ≡ to_nsec early)
    × IsTime (div_time early (pos 7))
div_correct_example = div_correct early (pos 7) early-IsTime (λ e. omega (arith, ap pos_part e))
