-- ===== src/LogInterval/Spaced.antt =====
-- How often a log interval logs, in any use.
use miranda_dashboard.Base.{
  ℕ, ◌+◌, Bool, true, false, ◌&&◌, if◌then◌else◌, ltb, ◌==◌, List, [], ◌∷◌, ◌≡◌, ◌∙◌, ap, sym,
  arith, Bool-cases, inl, inr, refl,
}
use miranda_dashboard.Base.Int.{ℤ, ◌+ℤ◌, ◌-ℤ◌, ◌≤ℤ◌, leb_ℤ, int_laws}
use miranda_dashboard.Time.{Time, time_zero, to_nsec, sub_time, ge_time}
use miranda_dashboard.Time.Arith.{IsTime, to_nsec-sub_time, sub_time-IsTime}
use miranda_dashboard.Time.Order.{compare_correct}
use miranda_dashboard.LogInterval.{
  LogInterval, want_to_log, is_due, should_log, take_count, new_log_interval,
}

-- A call, with the time of the clock where it asks for it.
pub data Call : Type 0 where
  wants : Time → Call
  asks : Time → Call
  takes : Call

-- The times at which `ShouldLog` returns true.
abbrev pub logs : LogInterval → List Call → List Time
logs l [] = []
logs l (wants now ∷ calls) = logs (want_to_log l now) calls
logs l (asks now ∷ calls) =
    let rest = logs (should_log l now).1 calls in if (should_log l now).0 then now ∷ rest else rest
logs l (takes ∷ calls) = logs (take_count l).1 calls

-- The clock shows `t` or later at the first call, and does not go back after it.
abbrev pub InOrder : Time → List Call → Type 0
InOrder t [] = Unit {0}
InOrder t (wants now ∷ calls) = (to_nsec t ≤ℤ to_nsec now) × IsTime now × InOrder now calls
InOrder t (asks now ∷ calls) = (to_nsec t ≤ℤ to_nsec now) × IsTime now × InOrder now calls
InOrder t (takes ∷ calls) = InOrder t calls

-- Each time is at least `d` nanoseconds after the one before it, the first one after `t`.
abbrev pub Spaced : ℤ → Time → List Time → Type 0
Spaced d t [] = Unit {0}
Spaced d t (u ∷ us) = (to_nsec t +ℤ d ≤ℤ to_nsec u) × Spaced d u us

-- A state whose last time is from `t` to `now`.
record IsDone (t : Time) (now : Time) (l : LogInterval) : Type 0 where
  interval_IsTime : IsTime l.interval
  last_IsTime : IsTime l.last_done
  after : to_nsec t ≤ℤ to_nsec l.last_done
  before : to_nsec l.last_done ≤ℤ to_nsec now

le_of_leb : (a b : ℤ) → leb_ℤ a b ≡ true → a ≤ℤ b
le_of_leb a b h = grind arith

and_true : (a b : Bool) → a && b ≡ true → a ≡ true
and_true true b h = refl
and_true false b h = h

is_due-late :
    (l : LogInterval) (now : Time)
    → IsTime l.interval
    → IsTime l.last_done
    → IsTime now
    → is_due l now ≡ true
    → to_nsec l.last_done +ℤ to_nsec l.interval ≤ℤ to_nsec now
unfolding is_due
is_due-late l now u v w h =
    let due : leb_ℤ (to_nsec l.interval) (to_nsec now -ℤ to_nsec l.last_done) ≡ true =
      ap (λ x. leb_ℤ (to_nsec l.interval) x) (sym (to_nsec-sub_time now l.last_done))
      ∙ sym ((compare_correct _ _ (sub_time-IsTime _ _ w v) u).4)
      ∙ and_true (ge_time (sub_time now l.last_done) l.interval) (ltb 0 l.count) h in
    omega (int_laws, le_of_leb (to_nsec l.interval) (to_nsec now -ℤ to_nsec l.last_done) due)

-- The state after the clock has gone on: the last time is as it was, or is `u` now.
abbrev state : ℕ → LogInterval → Time → LogInterval
state n l last = record { count = n; interval = l.interval; last_done = last }

module _ (t now u : Time) (l : LogInterval) (v : IsDone t now l)
    (h : to_nsec now ≤ℤ to_nsec u) where
  kept-IsDone : (n : ℕ) → IsDone t u (state n l l.last_done)
  kept-IsDone n = record {
    interval_IsTime = v.interval_IsTime;
    last_IsTime = v.last_IsTime;
    after = v.after;
    before = omega (arith, v.before, h);
  }

  set-IsDone : (n : ℕ) → IsTime u → IsDone t u (state n l u)
  set-IsDone n w = record {
    interval_IsTime = v.interval_IsTime;
    last_IsTime = w;
    after = omega (arith, v.after, v.before, h);
    before = omega arith;
  }

  logged-IsDone : (n : ℕ) → IsTime u → IsDone u u (state n l u)
  logged-IsDone n w = record {
    interval_IsTime = v.interval_IsTime;
    last_IsTime = w;
    after = omega arith;
    before = omega arith;
  }

  want_to_log-IsDone : IsTime u → IsDone t u (want_to_log l u)
  unfolding want_to_log
  want_to_log-IsDone w = elim (Bool-cases (l.count == 0)) [
    | inl first ↦ rw first (set-IsDone (l.count + 1) w)
    | inr more ↦ rw more (kept-IsDone (l.count + 1))
  ]

Spaced-logs :
    (calls : List Call) (l : LogInterval) (t now : Time)
    → IsDone t now l
    → InOrder now calls
    → Spaced (to_nsec l.interval) t (logs l calls)
unfolding should_log want_to_log take_count
Spaced-logs [] l t now v h = tt
Spaced-logs (wants u ∷ calls) l t now v h =
    Spaced-logs calls (want_to_log l u) t u (want_to_log-IsDone t now u l v h.0 h.1) h.2
Spaced-logs (asks u ∷ calls) l t now v h = elim (Bool-cases (is_due l u)) [
  | inl due ↦
      let late = is_due-late l u v.interval_IsTime v.last_IsTime h.1 due in
      rw due (
        omega (int_laws, late, v.after),
        Spaced-logs calls (state l.count l u) u u (logged-IsDone t now u l v h.0 l.count h.1) h.2,
      )
  | inr quiet ↦ rw quiet (
      Spaced-logs calls (state l.count l l.last_done) t u (kept-IsDone t now u l v h.0 l.count) h.2)
]
Spaced-logs (takes ∷ calls) l t now v h =
    Spaced-logs calls (take_count l).1 t now (kept-IsDone t now now l v (omega arith) 0) h

time_zero-IsTime : IsTime time_zero
unfolding ◌+ℤ◌
time_zero-IsTime = record { nonnegative = omega arith; below = omega arith }

-- With a clock that does not go back: however `WantToLog`, `ShouldLog` and `Count` are called on a
-- new log interval, the times at which `ShouldLog` returns true are at least the interval apart, and
-- the first is at least the interval after zero.
pub Spaced-new_log_interval :
    (interval : Time) (calls : List Call)
    → IsTime interval
    → InOrder time_zero calls
    → Spaced (to_nsec interval) time_zero (logs (new_log_interval interval) calls)
Spaced-new_log_interval interval calls u h =
    Spaced-logs calls (new_log_interval interval) time_zero time_zero
      (record {
        interval_IsTime = u;
        last_IsTime = time_zero-IsTime;
        after = omega arith;
        before = omega arith;
      })
      h
