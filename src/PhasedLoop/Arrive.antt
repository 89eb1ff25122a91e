-- ===== src/PhasedLoop/Arrive.antt =====
-- The end of `Iterate`: the count of the iterations, and the checks.
use miranda_dashboard.Base.{
  ℕ, zero, suc, ◌≡◌, ◌∙◌, ap, ap₂, sym, refl, arith, true, not, if◌then◌else◌,
}
use miranda_dashboard.Base.Int.{
  ℤ, pos, negsuc, ◌+ℤ◌, ◌-ℤ◌, ◌*ℤ◌, ◌≤ℤ◌, int_laws, parts_of_eq, eq_of_parts, *ℤ_add, *ℤ_comm,
  eqb_ℤ, tdiv, trem, to_int,
}
use miranda_dashboard.Time.{Time, to_nsec, sub_time, mul_time, eq_time, ge_time, le_time}
use miranda_dashboard.Time.Arith.{
  IsTime, to_nsec-sub_time, sub_time-IsTime, to_nsec-mul_time, mul_time-IsTime,
}
use miranda_dashboard.Time.Order.{compare_correct}
use miranda_dashboard.PhasedLoop.{PhasedLoop, failed, passed, too_early, too_late, arrive}
use miranda_dashboard.PhasedLoop.Rounding.{tdiv-times, trem-times, to_int-small}

-- The nanoseconds at which the loop runs, counted from its offset.
abbrev pub tick : PhasedLoop → ℤ → ℤ
tick loop k = to_nsec loop.offset +ℤ k *ℤ to_nsec loop.interval

-- The seconds since the offset fit an `int32_t`, and the nanosecond that `Iterate` adds does so too.
abbrev pub InSeconds : PhasedLoop → Time → Type 0
InSeconds loop now = to_nsec now ≤ℤ to_nsec loop.offset +ℤ pos 2147483647999999998

-- The count of iterations fits an `int`.
abbrev pub IsInt : ℤ → Type 0
IsInt k = (negsuc 2147483647 ≤ℤ k) × (k ≤ℤ pos 2147483647)

-- A loop with an interval, whose last time is the one of number `j`.
pub record IsAt (loop : PhasedLoop) (j : ℤ) : Type 0 where
  pub interval_IsTime : IsTime loop.interval
  pub offset_IsTime : IsTime loop.offset
  pub last_IsTime : IsTime loop.last_time
  pub positive : pos 1 ≤ℤ to_nsec loop.interval
  pub last_tick : to_nsec loop.last_time ≡ tick loop j

-- The loop after it has gone on to the time `t`.
abbrev pub moved : PhasedLoop → Time → PhasedLoop
moved loop t = record { interval = loop.interval; offset = loop.offset; last_time = t }

pub interval_suc : (m : ℤ) → pos 1 ≤ℤ m → (i : ℕ) × (m ≡ pos (suc i))
interval_suc (pos (suc i)) h = (i, refl)
interval_suc (pos zero) h = (zero, eq_of_parts _ _ (omega arith))
interval_suc (negsuc i) h = (zero, eq_of_parts _ _ (omega arith))

restored : (k j : ℤ) → k -ℤ j +ℤ j ≡ k
restored k j = omega int_laws

between-ticks : (o k j m : ℤ) → o +ℤ k *ℤ m -ℤ (o +ℤ j *ℤ m) ≡ (k -ℤ j) *ℤ m
between-ticks o k j m =
    omega (int_laws, parts_of_eq _ _ (ap (λ x. x *ℤ m) (sym (restored k j)) ∙ *ℤ_add (k -ℤ j) j m))

past_offset : (o p : ℤ) → o +ℤ p -ℤ o ≡ p
past_offset o p = omega int_laws

eqb_self : (a : ℤ) → eqb_ℤ a a ≡ true
eqb_self a = ground arith

module _ (loop : PhasedLoop) (now t : Time) (j k : ℤ) (i : ℕ) (v : IsAt loop j) (u : IsTime t)
    (e : to_nsec loop.interval ≡ pos (suc i)) (at : to_nsec t ≡ tick loop k) where
  since_last : to_nsec (sub_time t loop.last_time) ≡ (k -ℤ j) *ℤ pos (suc i)
  since_last =
      to_nsec-sub_time t loop.last_time
      ∙ ap₂ (λ x y. x -ℤ y) at v.last_tick
      ∙ between-ticks (to_nsec loop.offset) k j (to_nsec loop.interval)
      ∙ ap (λ m. (k -ℤ j) *ℤ m) e

  since_offset : to_nsec (sub_time t loop.offset) ≡ k *ℤ pos (suc i)
  since_offset =
      to_nsec-sub_time t loop.offset
      ∙ ap (λ x. x -ℤ to_nsec loop.offset) at
      ∙ past_offset (to_nsec loop.offset) (k *ℤ to_nsec loop.interval)
      ∙ ap (λ m. k *ℤ m) e

  pub counted :
      IsInt (k -ℤ j)
      → to_int (tdiv (to_nsec (sub_time t loop.last_time)) (to_nsec loop.interval)) ≡ k -ℤ j
  counted f =
      ap₂ (λ x y. to_int (tdiv x y)) since_last e
      ∙ ap to_int (tdiv-times (k -ℤ j) i)
      ∙ to_int-small (k -ℤ j) f.0 f.1

  whole_multiple : eq_time (sub_time t loop.last_time) (mul_time loop.interval (k -ℤ j)) ≡ true
  whole_multiple =
      (compare_correct _ _ (sub_time-IsTime _ _ u v.last_IsTime) (mul_time-IsTime _ _)).0
      ∙ ap₂ (λ x y. eqb_ℤ x y) since_last
          (to_nsec-mul_time loop.interval (k -ℤ j)
            ∙ *ℤ_comm (to_nsec loop.interval) (k -ℤ j)
            ∙ ap (λ m. (k -ℤ j) *ℤ m) e)
      ∙ eqb_self ((k -ℤ j) *ℤ pos (suc i))

  on_tick : trem (to_nsec (sub_time t loop.offset)) (to_nsec loop.interval) ≡ pos 0
  on_tick = ap₂ (λ x y. trem x y) since_offset e ∙ trem-times k i

  -- On a time of the loop the end of `Iterate` fails only in the comparisons with `now`.
  pub arrive-tick :
      IsInt (k -ℤ j)
      → arrive loop now t ≡ (
          if not (ge_time t now)
          then failed too_early
          else if not (le_time (sub_time t now) loop.interval)
          then failed too_late
          else passed (moved loop t, k -ℤ j))
  unfolding arrive
  arrive-tick f = rw (counted f, whole_multiple, on_tick) refl
