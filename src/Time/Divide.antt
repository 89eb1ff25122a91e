-- ===== src/Time/Divide.antt =====
-- aos/common/time.cc: what a time divided by an integer leaves over.
use miranda_dashboard.Base.{
  ℕ, zero, suc, refl, subst, ◌+◌, ◌*◌, ◌/◌, ◌%◌, ◌≡◌, ◌≢◌, ◌<◌, ◌≤◌, ◌-◌, ◌⊎◌, inl, inr, arith, ◌∙◌,
  sym, ap,
}
use miranda_dashboard.Base.Int.{
  ℤ, pos, negsuc, pos_part, neg_part, ◌+ℤ◌, ◌*ℤ◌, ◌≤ℤ◌, eq_of_parts, int_laws, sub_ℕ, parts_of_eq,
  *ℤ_add, *ℤ_comm, *ℤ_parts, tdiv, trem,
}
use miranda_dashboard.Time.{Time, nsec_in_sec, to_nsec, div_time, borrowed}
use miranda_dashboard.Time.Arith.{IsTime, swap_factors, unborrowed, time_laws}

quotient : (a k : ℕ) → a / suc k * suc k + a % suc k ≡ a
quotient a k = omega arith

negated : (n : ℕ) → (pos_part (sub_ℕ 0 n) ≡ 0) × (neg_part (sub_ℕ 0 n) ≡ n)
negated n = ground arith

-- A product and a sum of parts that are known.
whole :
    (q k r a : ℤ)
    → pos_part q * pos_part k + neg_part q * neg_part k + pos_part r + neg_part a
      ≡ pos_part q * neg_part k + neg_part q * pos_part k + neg_part r + pos_part a
    → q *ℤ k +ℤ r ≡ a
whole q k r a h = eq_of_parts _ _ (omega (int_laws, *ℤ_parts q k, h))

-- The quotient and the remainder of C++ give back what is divided.
tdiv-trem : (a k : ℤ) → k ≢ pos 0 → tdiv a k *ℤ k +ℤ trem a k ≡ a
unfolding tdiv trem
tdiv-trem (pos a) (pos zero) h = absurd (h refl)
tdiv-trem (pos a) (pos (suc k)) h = whole _ _ _ _ (omega (arith, quotient a k))
tdiv-trem (pos a) (negsuc k) h = whole _ _ _ _ (
    omega (
      arith,
      quotient a k,
      ap (λ x. x * suc k) (negated (a / suc k)).0,
      ap (λ x. x * suc k) (negated (a / suc k)).1,
    ))
tdiv-trem (negsuc a) (pos zero) h = absurd (h refl)
tdiv-trem (negsuc a) (pos (suc k)) h = whole _ _ _ _ (
    omega (
      arith,
      quotient (suc a) k,
      negated (suc a % suc k),
      ap (λ x. x * suc k) (negated (suc a / suc k)).0,
      ap (λ x. x * suc k) (negated (suc a / suc k)).1,
    ))
tdiv-trem (negsuc a) (negsuc k) h =
    whole _ _ _ _ (omega (arith, quotient (suc a) k, negated (suc a % suc k)))

-- The three quotients of a division, times the divisor.
gathered :
    (s n e k q r a b c d : ℤ)
    → q *ℤ k +ℤ r ≡ s
    → a *ℤ k +ℤ b ≡ e
    → c *ℤ k +ℤ d ≡ n
    → (q *ℤ e +ℤ (r *ℤ a +ℤ c)) *ℤ k +ℤ (b *ℤ r +ℤ d) ≡ s *ℤ e +ℤ n
gathered s n e k q r a b c d hs he hn = eq_of_parts _ _ (
    omega (
      int_laws,
      parts_of_eq _ _ (*ℤ_add (q *ℤ e) (r *ℤ a +ℤ c) k),
      parts_of_eq _ _ (*ℤ_add (r *ℤ a) c k),
      parts_of_eq _ _ (swap_factors q e k),
      parts_of_eq _ _ (ap (λ x. x *ℤ e) (sym hs) ∙ *ℤ_add (q *ℤ k) r e),
      parts_of_eq _ _ (ap (λ x. x *ℤ k) (*ℤ_comm r a) ∙ swap_factors a r k),
      parts_of_eq _ _ (*ℤ_comm r e ∙ ap (λ x. x *ℤ r) (sym he) ∙ *ℤ_add (a *ℤ k) b r),
      parts_of_eq _ _ hn,
    ))

gap : (x y : ℕ) → x ≤ y → x + (y - x) ≡ y
gap x y h = omega arith

three_ways : (x y : ℕ) → (x < y) ⊎ (x ≡ y) ⊎ (y < x)
three_ways x y = omega arith

scaled : (x y k : ℕ) → x ≤ y → x * k ≤ y * k
scaled x y k h = omega (arith, ap (λ z. z * k) (gap x y h))

-- A rest of seconds times what a second has, all in parts of `k`, and a number of nanoseconds.
rest_below :
    (second r part m k n : ℕ)
    → r < k
    → part * k ≤ second
    → second < part * k + k
    → m * k ≤ n
    → n < second
    → r * part + m < second
rest_below second r part m k n lt a b c d = elim (three_ways m part) [
  | inl below ↦ omega (arith, a, below, scaled (suc r) k part lt)
  | inr (inl same) ↦
      omega (arith, c, d, ap (λ z. z * k) same, ap (λ z. z) same, scaled (suc r) k part lt)
  | inr (inr above) ↦ absurd (omega (arith, b, c, d, scaled (suc part) m k above))
]

below_part : (a k : ℕ) → a / suc k * suc k ≤ a
below_part a k = omega (arith, quotient a k)

above_part : (a k : ℕ) → a < a / suc k * suc k + suc k
above_part a k = omega (arith, quotient a k)

rest_lt : (a k : ℕ) → a % suc k < suc k
rest_lt a k = omega arith

borrowed-IsTime :
    (s n : ℤ)
    → pos_part n < 1000000000 + neg_part n
    → neg_part n < 1000000000 + pos_part n
    → IsTime (borrowed s n)
borrowed-IsTime s n h h' = grind time_laws

abbrev abs_ℤ : ℤ → ℕ
abs_ℤ a = pos_part a + neg_part a

-- A rest times a part, and another part, of any signs.
rest-IsTime :
    (s r part m : ℤ)
    → abs_ℤ r * abs_ℤ part + abs_ℤ m < 1000000000
    → IsTime (borrowed s (r *ℤ part +ℤ m))
rest-IsTime s r part m h =
    borrowed-IsTime s (r *ℤ part +ℤ m) (omega (int_laws, *ℤ_parts r part, h))
      (omega (int_laws, *ℤ_parts r part, h))

abbrev second : ℕ
second = 1000000000

parts_below : (r k n : ℕ) → r < suc k → n < second → r * (second / suc k) + n / suc k < second
parts_below r k n h lt =
    rest_below second r (second / suc k) (n / suc k) (suc k) n h (below_part second k)
      (above_part second k) (below_part n k) lt

-- A divisor that is not 0, by its absolute value.
abs_trem : (s k : ℤ) → k ≢ pos 0 → abs_ℤ (trem s k) < abs_ℤ k
unfolding trem
abs_trem s (pos zero) h = absurd (h refl)
abs_trem (pos a) (pos (suc k)) h = omega (arith, rest_lt a k)
abs_trem (pos a) (negsuc k) h = omega (arith, rest_lt a k)
abs_trem (negsuc a) (pos (suc k)) h = omega (arith, rest_lt (suc a) k, negated (suc a % suc k))
abs_trem (negsuc a) (negsuc k) h = omega (arith, rest_lt (suc a) k, negated (suc a % suc k))

abs_pos : (n : ℕ) → abs_ℤ (pos n) ≡ n
abs_pos n = omega arith

abs_negsuc : (n : ℕ) → abs_ℤ (negsuc n) ≡ suc n
abs_negsuc n = omega arith

abs_tdiv : (n : ℕ) (k : ℤ) → k ≢ pos 0 → abs_ℤ (tdiv (pos n) k) ≡ n / abs_ℤ k
unfolding tdiv
abs_tdiv n (pos zero) h = absurd (h refl)
abs_tdiv n (pos (suc k)) h = omega (arith, ap (λ d. n / d) (abs_pos (suc k)))
abs_tdiv n (negsuc k) h = omega (arith, negated (n / suc k), ap (λ d. n / d) (abs_negsuc k))

abs_suc : (k : ℤ) → k ≢ pos 0 → abs_ℤ k ≡ suc (abs_ℤ k - 1)
abs_suc (pos zero) h = absurd (h refl)
abs_suc (pos (suc k)) h = omega arith
abs_suc (negsuc k) h = omega arith

abs_below :
    (s k : ℤ) (n : ℕ)
    → k ≢ pos 0
    → n < second
    → abs_ℤ (trem s k) * (second / abs_ℤ k) + n / abs_ℤ k < second
abs_below s k n h lt =
    subst (λ d. abs_ℤ (trem s k) * (second / d) + n / d < second) (sym (abs_suc k h))
      (parts_below (abs_ℤ (trem s k)) (abs_ℤ k - 1) n
        (subst (λ d. abs_ℤ (trem s k) < d) (abs_suc k h) (abs_trem s k h)) lt)

div_rest :
    (s n k : ℤ)
    → k ≢ pos 0
    → pos 0 ≤ℤ n
    → n +ℤ pos 1 ≤ℤ nsec_in_sec
    → IsTime (div_time (record { sec = s; nsec = n }) k)
unfolding div_time
div_rest s (pos n) k d h h' =
    rest-IsTime (tdiv s k) (trem s k) (tdiv nsec_in_sec k) (tdiv (pos n) k)
      (rw (abs_tdiv second k d, abs_tdiv n k d) (abs_below s k n d (omega (int_laws, h'))))
div_rest s (negsuc n) k d h h' = absurd (omega (arith, h))

-- A time whose nanoseconds are in range, divided by any integer but 0, has its nanoseconds in
-- range, and rounds: times the divisor, the quotient falls short of the nanoseconds by the
-- remainder of the seconds times that of the nanoseconds of a second, and the remainder of the
-- nanoseconds.
pub div_correct :
    (t : Time) (k : ℤ)
    → IsTime t
    → k ≢ pos 0
    → (to_nsec (div_time t k) *ℤ k +ℤ (trem nsec_in_sec k *ℤ trem t.sec k +ℤ trem t.nsec k)
        ≡ to_nsec t)
      × IsTime (div_time t k)
unfolding div_time to_nsec
div_correct t k u h = (
  ap (λ x. x *ℤ k +ℤ (trem nsec_in_sec k *ℤ trem t.sec k +ℤ trem t.nsec k))
        (unborrowed (tdiv t.sec k) (trem t.sec k *ℤ tdiv nsec_in_sec k +ℤ tdiv t.nsec k))
      ∙ gathered t.sec t.nsec nsec_in_sec k _ _ _ _ _ _ (tdiv-trem t.sec k h)
          (tdiv-trem nsec_in_sec k h) (tdiv-trem t.nsec k h),
  div_rest t.sec t.nsec k h u.nonnegative u.below,
)
