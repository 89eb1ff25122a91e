-- ===== src/PhasedLoop/Rounding.antt =====
-- The rounding of a count of nanoseconds to whole intervals.
use native.Mathlib.Nat.{mul-div_cancel, le-div_iff_mul-le, div-lt_iff_lt-mul, mul-mod_left}
use miranda_dashboard.Base.{ℕ, suc, ◌+◌, ◌*◌, ◌/◌, ◌≡◌, ◌<◌, ◌≤◌, arith, refl, ap}
use miranda_dashboard.Base.Int.{ℤ, pos, negsuc, ◌*ℤ◌, ◌≤ℤ◌, tdiv, trem, to_int}

-- A product with an interval, sign by sign.
pub times_pos : (a i : ℕ) → pos a *ℤ pos (suc i) ≡ pos (a * suc i)
unfolding ◌*ℤ◌
times_pos a i = ground arith

times_negsuc : (a i : ℕ) → negsuc a *ℤ pos (suc i) ≡ negsuc (a * suc i + i)
unfolding ◌*ℤ◌
times_negsuc a i = ground arith

whole : (a i : ℕ) → suc (a * suc i + i) ≡ suc a * suc i
whole a i = omega arith

-- A whole number of intervals divides into that number, with nothing left over.
pub tdiv-times : (k : ℤ) (i : ℕ) → tdiv (k *ℤ pos (suc i)) (pos (suc i)) ≡ k
unfolding tdiv
tdiv-times (pos a) i = rw (times_pos a i, mul-div_cancel a {n = suc i} (omega arith)) refl
tdiv-times (negsuc a) i =
    rw (times_negsuc a i, whole a i, mul-div_cancel (suc a) {n = suc i} (omega arith))
      (ground arith)

pub trem-times : (k : ℤ) (i : ℕ) → trem (k *ℤ pos (suc i)) (pos (suc i)) ≡ pos 0
unfolding trem
trem-times (pos a) i = rw (times_pos a i, mul-mod_left a (suc i)) refl
trem-times (negsuc a) i = rw (times_negsuc a i, whole a i, mul-mod_left (suc a) (suc i)) refl

-- A count between two multiples has the lower one for its quotient.
quotient : (n a i : ℕ) → a * suc i ≤ n → n < suc a * suc i → n / suc i ≡ a
quotient n a i h g = omega (
  arith,
  (le-div_iff_mul-le {k = suc i} {x = a} {y = n} (omega arith)).1 h,
  (div-lt_iff_lt-mul {k = suc i} {x = n} {y = suc a} (omega arith)).1 g,
)

pub tdiv_between :
    (d a i : ℕ)
    → a * suc i ≤ d + 1
    → d + 1 < suc a * suc i
    → tdiv (pos (d + 1)) (pos (suc i)) ≡ pos a
unfolding tdiv
tdiv_between d a i h g = ap pos (quotient (d + 1) a i h g)

-- An `int` is not cut.
pub to_int-small : (k : ℤ) → negsuc 2147483647 ≤ℤ k → k ≤ℤ pos 2147483647 → to_int k ≡ k
unfolding to_int
to_int-small (pos a) h g = ground arith
to_int-small (negsuc a) h g = ground arith
