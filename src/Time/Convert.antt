-- ===== src/Time/Convert.antt =====
-- Times made from counts of nanoseconds, microseconds and milliseconds.
use miranda_dashboard.Base.{
  tests, ltb, Bool-cases, inl, inr, ℕ, zero, suc, ◌+◌, ◌-◌, ◌≤◌, ◌*◌, ◌%◌, ◌/◌, ◌≡◌, ◌⊎◌, ◌<◌, none,
  some, true, arith,
}
use miranda_dashboard.Base.Int.{ℤ, pos, negsuc, ◌+ℤ◌, ◌-ℤ◌, ◌*ℤ◌, sub_ℕ, ltb_ℤ, tdiv, trem, to_int}
use miranda_dashboard.Time.{
  Time, make_time, nsec_in_sec, nsec_in_usec, nsec_in_msec, to_nsec, in_ns, in_us, in_ms,
}
use miranda_dashboard.Time.Arith.{IsTime, time_laws}
use miranda_dashboard.Time.Order.{HasValue}

ranged : (s : ℤ) (n : ℕ) → n < 1000000000 → IsTime (record { sec = s; nsec = pos n })
ranged s n h = omega time_laws

module _ (n : ℕ) where
  abbrev later_part : Time
  later_part = record { sec = pos (n / 1000000000); nsec = pos (n % 1000000000) }

  -- A count that is not negative.
  pub in_ns-pos : n < 2147483648000000000 → HasValue (pos n) (in_ns (pos n))
  unfolding in_ns make_time to_int tdiv trem to_nsec ◌+ℤ◌ ◌*ℤ◌
  in_ns-pos small = (later_part, ground arith, ground arith, ranged _ _ (omega arith))

  abbrev earlier_part : Time
  earlier_part = record {
    sec = negsuc ((n + 2) / 1000000000);
    nsec = pos (1000000001 - (n + 2) % 1000000000);
  }

  in_ns-negsuc :
      n + 2 < 2147483648000000000
      → 2 ≤ (n + 2) % 1000000000
      → HasValue (negsuc n) (in_ns (negsuc n))
  unfolding in_ns make_time to_int tdiv trem to_nsec ◌+ℤ◌ ◌*ℤ◌ ◌-ℤ◌
  in_ns-negsuc small h = (earlier_part, ground arith, ground arith, ranged _ _ (omega arith))

  in_ns-none : (n + 2) % 1000000000 < 2 → in_ns (negsuc n) ≡ none
  unfolding in_ns make_time to_int tdiv trem to_nsec ◌+ℤ◌ ◌*ℤ◌ ◌-ℤ◌
  in_ns-none h = ground arith

-- Of a count whose seconds fit 32 bits, `InNS` gives a time of the right value if it is zero or
-- more; on a negative count -(n + 1) it dies if n + 1 or n + 2 is a whole number of seconds, and
-- gives a time of the right value otherwise.
pub in_ns_correct :
    (n : ℕ)
    → n + 2 < 2147483648000000000
    → HasValue (pos n) (in_ns (pos n))
      × (((2 ≤ (n + 2) % 1000000000) × HasValue (negsuc n) (in_ns (negsuc n)))
          ⊎ (((n + 2) % 1000000000 < 2) × (in_ns (negsuc n) ≡ none)))
in_ns_correct n small = (
  in_ns-pos n (omega (arith, small)),
  elim (Bool-cases (ltb ((n + 2) % 1000000000) 2)) [
    | inl lt ↦ let h : (n + 2) % 1000000000 < 2 = omega tests in inr (h, in_ns-none n h)
    | inr ge ↦ let h : 2 ≤ (n + 2) % 1000000000 = ground arith in inl (h, in_ns-negsuc n small h)
  ],
)

is_negative : (n : ℕ) → ltb_ℤ (negsuc n) (pos 0) ≡ true
is_negative n = ground arith

plus_one : (n : ℕ) → negsuc n +ℤ pos 1 ≡ sub_ℕ 0 n
unfolding ◌+ℤ◌
plus_one n = ground arith

minus_one : (n : ℕ) → sub_ℕ 0 n -ℤ pos 1 ≡ negsuc n
unfolding ◌-ℤ◌
minus_one n = ground arith

tdiv_neg : (n b : ℕ) → tdiv (sub_ℕ 0 n) (pos (suc b)) ≡ sub_ℕ 0 (n / suc b)
unfolding tdiv
tdiv_neg zero b = ground arith
tdiv_neg (suc n) b = ground arith

trem_neg : (n b : ℕ) → trem (sub_ℕ 0 n) (pos (suc b)) ≡ sub_ℕ 0 (n % suc b)
unfolding trem
trem_neg zero b = ground arith
trem_neg (suc n) b = ground arith

-- The nanoseconds that a negative count leaves of the second that it borrows.
left_over :
    (r k : ℕ)
    → (r + 1) * k ≤ 1000000000
    → negsuc r *ℤ pos k +ℤ nsec_in_sec ≡ pos (1000000000 - (r + 1) * k)
unfolding ◌*ℤ◌ ◌+ℤ◌
left_over r k h = ground arith

make_ranged :
    (s : ℤ) (n : ℕ) → n < 1000000000 → make_time s (pos n) ≡ some (record { sec = s; nsec = pos n })
unfolding make_time
make_ranged s n h = ground arith

module _ (n : ℕ) where
  abbrev earlier_us : Time
  earlier_us = record {
    sec = negsuc (n / 1000000);
    nsec = pos (1000000000 - (n % 1000000 + 1) * 1000);
  }

  abbrev later_us : Time
  later_us = record { sec = pos (n / 1000000); nsec = pos (n % 1000000 * 1000) }

  in_us-pos : HasValue (pos (n * 1000)) (in_us (pos n))
  unfolding in_us make_time tdiv trem to_nsec ◌+ℤ◌ ◌*ℤ◌
  in_us-pos = (later_us, ground arith, ground arith, ranged _ _ (omega arith))

  in_us-earlier : in_us (negsuc n) ≡ some earlier_us
  unfolding in_us
  in_us-earlier =
      rw
        (
          is_negative n,
          plus_one n,
          tdiv_neg n 999999,
          trem_neg n 999999,
          minus_one (n / 1000000),
          minus_one (n % 1000000),
          left_over (n % 1000000) 1000 (omega arith),
        )
        (make_ranged _ _ (omega arith))

  to_nsec-earlier_us : to_nsec earlier_us ≡ negsuc (n * 1000 + 999)
  unfolding to_nsec ◌+ℤ◌ ◌*ℤ◌
  to_nsec-earlier_us = ground arith

  in_us-negsuc : HasValue (negsuc (n * 1000 + 999)) (in_us (negsuc n))
  in_us-negsuc = (earlier_us, in_us-earlier, to_nsec-earlier_us, ranged _ _ (omega arith))

  abbrev earlier_ms : Time
  earlier_ms = record {
    sec = negsuc (n / 1000);
    nsec = pos (1000000000 - (n % 1000 + 1) * 1000000);
  }

  abbrev later_ms : Time
  later_ms = record { sec = pos (n / 1000); nsec = pos (n % 1000 * 1000000) }

  in_ms-pos : HasValue (pos (n * 1000000)) (in_ms (pos n))
  unfolding in_ms make_time tdiv trem to_nsec ◌+ℤ◌ ◌*ℤ◌
  in_ms-pos = (later_ms, ground arith, ground arith, ranged _ _ (omega arith))

  in_ms-earlier : in_ms (negsuc n) ≡ some earlier_ms
  unfolding in_ms
  in_ms-earlier =
      rw
        (
          is_negative n,
          plus_one n,
          tdiv_neg n 999,
          trem_neg n 999,
          minus_one (n / 1000),
          minus_one (n % 1000),
          left_over (n % 1000) 1000000 (omega arith),
        )
        (make_ranged _ _ (omega arith))

  to_nsec-earlier_ms : to_nsec earlier_ms ≡ negsuc (n * 1000000 + 999999)
  unfolding to_nsec ◌+ℤ◌ ◌*ℤ◌
  to_nsec-earlier_ms = ground arith

  in_ms-negsuc : HasValue (negsuc (n * 1000000 + 999999)) (in_ms (negsuc n))
  in_ms-negsuc = (earlier_ms, in_ms-earlier, to_nsec-earlier_ms, ranged _ _ (omega arith))

scaled_neg : (n k : ℕ) → negsuc n *ℤ pos (suc k) ≡ negsuc (n * suc k + k)
unfolding ◌*ℤ◌
scaled_neg n k = ground arith

scaled_pos : (n k : ℕ) → pos n *ℤ pos k ≡ pos (n * k)
unfolding ◌*ℤ◌
scaled_pos n k = ground arith

-- `InUS` and `InMS` give a time of the right value for every count, negative or not.
pub in_us-in_ms_correct :
    (k : ℤ) → HasValue (k *ℤ nsec_in_usec) (in_us k) × HasValue (k *ℤ nsec_in_msec) (in_ms k)
in_us-in_ms_correct (pos n) =
    rw (scaled_pos n 1000, scaled_pos n 1000000) (in_us-pos n, in_ms-pos n)
in_us-in_ms_correct (negsuc n) =
    rw (scaled_neg n 999, scaled_neg n 999999) (in_us-negsuc n, in_ms-negsuc n)
