-- ===== src/WrappingCounter/Tracks.antt =====
-- A counter that is read often enough.
use miranda_dashboard.Base.{
  tests, ℕ, ◌+◌, ◌-◌, ◌%◌, ◌^◌, ◌<◌, ◌≤◌, ◌≡◌, ◌∙◌, ap, refl, arith, List, [], ◌∷◌, Bool-cases, inl,
  inr, ltb,
}
use miranda_dashboard.Base.Int.{ℤ, pos, ◌+ℤ◌, to_int}
use miranda_dashboard.WrappingCounter.{WrappingCounter, update, with_low_byte, to_unsigned}

-- The counter after it was last given the low byte of `v`, in step with it.
abbrev pub tracking : ℕ → WrappingCounter
tracking v = record { count = pos v; last_count = v % 256 }

with_low_byte-pos :
    (v c : ℕ) → c < 256 → v - v % 256 + c < 2 ^ 31 → with_low_byte (pos v) c ≡ pos (v - v % 256 + c)
unfolding with_low_byte to_unsigned to_int
with_low_byte-pos v c h g = ground arith

next_block : (v : ℕ) → pos v +ℤ pos 256 ≡ pos (v + 256)
unfolding ◌+ℤ◌
next_block v = ground arith

abbrev given : ℤ → ℕ → WrappingCounter
given c current = record { count = c; last_count = current }

with_byte :
    (v w : ℕ)
    → v - v % 256 + w % 256 ≡ w
    → w < 2 ^ 31
    → given (with_low_byte (pos v) (w % 256)) (w % 256) ≡ tracking w
with_byte v w same k =
    ap (λ c. given c (w % 256))
      (with_low_byte-pos v (w % 256) (omega arith) (omega arith) ∙ ap pos same)

update-tracking :
    (v w : ℕ) → v ≤ w → w < v + 256 → w < 2 ^ 31 → update (tracking v) (w % 256) ≡ tracking w
unfolding update
update-tracking v w h g k = elim (Bool-cases (ltb (w % 256) (v % 256))) [
  | inl less ↦
      let same : v + 256 - (v + 256) % 256 + w % 256 ≡ w = grind tests in
      rw (less, next_block v) (with_byte (v + 256) w same k)
  | inr more ↦ let same : v - v % 256 + w % 256 ≡ w = grind tests in rw more (with_byte v w same k)
]

-- The readings of a count that goes through the values of `ws`, one by one.
abbrev pub update_all : WrappingCounter → List ℕ → WrappingCounter
update_all counter [] = counter
update_all counter (w ∷ ws) = update_all (update counter (w % 256)) ws

-- A count from `v` on that gains less than 256 between two readings, and ends below 2 ^ 31.
abbrev pub Gains : ℕ → List ℕ → Type 0
Gains v [] = v < 2 ^ 31
Gains v (w ∷ ws) = (v ≤ w) × (w < v + 256) × Gains w ws

abbrev pub last_of : ℕ → List ℕ → ℕ
last_of v [] = v
last_of v (w ∷ ws) = last_of w ws

Gains-bound : (v : ℕ) (ws : List ℕ) → Gains v ws → v < 2 ^ 31
Gains-bound v [] h = h
Gains-bound v (w ∷ ws) h = let rest = Gains-bound w ws h.2 in omega (arith, h.0)

-- A counter in step with a count stays in step with it, through any number of readings of its low
-- byte, if the count never falls, gains less than 256 between two readings and stays below 2 ^ 31.
pub update_all-tracking :
    (v : ℕ) (ws : List ℕ) → Gains v ws → update_all (tracking v) ws ≡ tracking (last_of v ws)
update_all-tracking v [] h = refl
update_all-tracking v (w ∷ ws) h =
    rw (update-tracking v w h.0 h.1 (Gains-bound w ws h.2)) (update_all-tracking w ws h.2)
