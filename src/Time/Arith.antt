-- ===== src/Time/Arith.antt =====
-- The arithmetic of times is that of their nanoseconds.
use miranda_dashboard.Base.{ℕ, ◌+◌, ◌*◌, ◌≡◌, arith, ◌<◌, ◌≤◌, ◌∙◌, ap, if◌then◌else◌}
use miranda_dashboard.Base.Int.{
  ℤ, pos, negsuc, pos_part, neg_part, ◌+ℤ◌, ◌-ℤ◌, ◌*ℤ◌, ◌≤ℤ◌, +ℤ_parts, -ℤ_parts, eq_of_parts,
  parts_of_eq, *ℤ_add, *ℤ_parts, tdiv, trem,
}
use miranda_dashboard.Time.{Time, nsec_in_sec, to_nsec, add_time, sub_time, mul_time, borrowed}

-- The nanoseconds of a second are within it.
pub record IsTime (t : Time) : Type 0 where
  pub nonnegative : pos 0 ≤ℤ t.nsec
  pub below : t.nsec +ℤ pos 1 ≤ℤ nsec_in_sec

-- A product with the nanoseconds of a second, for `omega`.
pub seconds_parts :
    (a : ℤ)
    → pos_part (a *ℤ nsec_in_sec) + neg_part a * 1000000000
      ≡ neg_part (a *ℤ nsec_in_sec) + pos_part a * 1000000000
unfolding ◌*ℤ◌
seconds_parts a = ground arith

pub ruleset time_laws = (arith, +ℤ_parts, -ℤ_parts, eq_of_parts, seconds_parts)

pub unborrowed :
    (s n : ℤ) → (borrowed s n).sec *ℤ nsec_in_sec +ℤ (borrowed s n).nsec ≡ s *ℤ nsec_in_sec +ℤ n
unborrowed s n = grind time_laws

-- A sum of times has the sum of their nanoseconds, and is a time if they are.
pub to_nsec-add_time : (a b : Time) → to_nsec (add_time a b) ≡ to_nsec a +ℤ to_nsec b
unfolding to_nsec add_time
to_nsec-add_time a b = grind time_laws

pub add_time-IsTime : (a b : Time) → IsTime a → IsTime b → IsTime (add_time a b)
unfolding add_time
add_time-IsTime a b u v = grind time_laws

pub to_nsec-sub_time : (a b : Time) → to_nsec (sub_time a b) ≡ to_nsec a -ℤ to_nsec b
unfolding to_nsec sub_time
to_nsec-sub_time a b = grind time_laws

pub sub_time-IsTime : (a b : Time) → IsTime a → IsTime b → IsTime (sub_time a b)
unfolding sub_time
sub_time-IsTime a b u v = grind time_laws

-- Quotient and remainder by the nanoseconds of a second, sign by sign.
pub whole_parts :
    (n : ℤ)
    → (pos_part n ≡ pos_part (tdiv n nsec_in_sec) * 1000000000 + pos_part (trem n nsec_in_sec))
      × (neg_part n ≡ neg_part (tdiv n nsec_in_sec) * 1000000000 + neg_part (trem n nsec_in_sec))
      × (pos_part (trem n nsec_in_sec) < 1000000000)
      × (neg_part (trem n nsec_in_sec) < 1000000000)
unfolding tdiv trem
whole_parts (pos n) = ground arith
whole_parts (negsuc n) = ground arith

-- The carry of a product is exact.
carry :
    (temp : ℤ)
    → tdiv (temp -ℤ trem temp nsec_in_sec) nsec_in_sec *ℤ nsec_in_sec +ℤ trem temp nsec_in_sec
      ≡ temp
carry temp = omega (time_laws, whole_parts temp, whole_parts (temp -ℤ trem temp nsec_in_sec))

pub swap_factors : (a b c : ℤ) → a *ℤ b *ℤ c ≡ a *ℤ c *ℤ b
swap_factors a b c = eq_of_parts _ _ (
    omega (
      arith,
      *ℤ_parts (a *ℤ b) c,
      *ℤ_parts (a *ℤ c) b,
      ap (λ x. x * pos_part c) (*ℤ_parts a b),
      ap (λ x. x * neg_part c) (*ℤ_parts a b),
      ap (λ x. x * pos_part b) (*ℤ_parts a c),
      ap (λ x. x * neg_part b) (*ℤ_parts a c),
    ))

pub to_nsec-mul_time : (t : Time) (k : ℤ) → to_nsec (mul_time t k) ≡ to_nsec t *ℤ k
unfolding mul_time to_nsec
to_nsec-mul_time t k =
    unborrowed (t.sec *ℤ k +ℤ tdiv (t.nsec *ℤ k -ℤ trem (t.nsec *ℤ k) nsec_in_sec) nsec_in_sec)
      (trem (t.nsec *ℤ k) nsec_in_sec)
    ∙ omega (
      time_laws,
      parts_of_eq _ _ (carry (t.nsec *ℤ k)),
      parts_of_eq _ _ (*ℤ_add (t.sec *ℤ nsec_in_sec) t.nsec k),
      parts_of_eq _ _ (swap_factors t.sec nsec_in_sec k),
    )

pub mul_time-IsTime : (t : Time) (k : ℤ) → IsTime (mul_time t k)
unfolding mul_time
mul_time-IsTime t k = grind (time_laws, whole_parts (t.nsec *ℤ k))

-- The sum and the difference of two times whose nanoseconds are in range have the sum and the
-- difference of their values in nanoseconds, with their own nanoseconds in range.
pub add_sub_correct :
    (a b : Time)
    → IsTime a
    → IsTime b
    → (to_nsec (add_time a b) ≡ to_nsec a +ℤ to_nsec b)
      × IsTime (add_time a b)
      × (to_nsec (sub_time a b) ≡ to_nsec a -ℤ to_nsec b)
      × IsTime (sub_time a b)
add_sub_correct a b u v =
    (to_nsec-add_time a b, add_time-IsTime a b u v, to_nsec-sub_time a b, sub_time-IsTime a b u v)

-- A product by any integer has the product of the values in nanoseconds, exactly, and its
-- nanoseconds are in range.
pub mul_correct :
    (t : Time) (k : ℤ) → (to_nsec (mul_time t k) ≡ to_nsec t *ℤ k) × IsTime (mul_time t k)
mul_correct t k = (to_nsec-mul_time t k, mul_time-IsTime t k)
