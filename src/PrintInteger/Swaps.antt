-- ===== src/PrintInteger/Swaps.antt =====
-- aos/common/print_field_helpers.h: the swaps turn the characters around.
use native.Mathlib.Decide.{ℕ_discrete}
use miranda_dashboard.Base.{
  ℕ, zero, suc, ◌+◌, ◌-◌, ◌/◌, ◌≤◌, ◌<◌, ◌≡◌, ◌≢◌, ◌⊎◌, inl, inr, refl, sym, ap, ◌∙◌, arith,
}
use miranda_dashboard.WorkStack.{Memory, set_memory}
use miranda_dashboard.PrintInteger.{swap, swap_all}

swap_other : (a b p : ℕ) (buf : Memory) → p ≢ a → p ≢ b → swap a b buf p ≡ buf p
unfolding swap set_memory
swap_other a b p buf h h' = ground arith

swap_second : (a b : ℕ) (buf : Memory) → swap a b buf b ≡ buf a
unfolding swap set_memory
swap_second a b buf = ground arith

swap_first : (a b : ℕ) (buf : Memory) → swap a b buf a ≡ buf b
unfolding swap set_memory
swap_first a b buf = ground arith

-- A place before the first that are swapped, between, or after the last.
abbrev Outside : ℕ → ℕ → ℕ → ℕ → Type 0
Outside rounds i len p = (p < i) ⊎ ((i + rounds ≤ p) × (p + i + rounds < len)) ⊎ (len ≤ p + i)

swap_all-Outside :
    (rounds i len p : ℕ) (buf : Memory)
    → i + i + rounds + rounds ≤ len
    → Outside rounds i len p
    → swap_all rounds i len buf p ≡ buf p
unfolding swap_all
swap_all-Outside zero i len p buf h o = refl
swap_all-Outside (suc rounds) i len p buf h o =
    swap_all-Outside rounds (suc i) len p (swap (len - 1 - i) i buf) (omega (arith, h))
      (omega (arith, h, o))
    ∙ swap_other (len - 1 - i) i p buf (omega (arith, h, o)) (omega (arith, h, o))

abbrev Inside : ℕ → ℕ → ℕ → ℕ → Type 0
Inside rounds i len p = ((i ≤ p) × (p < i + rounds)) ⊎ ((len ≤ p + i + rounds) × (p + i < len))

swap_all-Inside :
    (rounds i len p : ℕ) (buf : Memory)
    → i + i + rounds + rounds ≤ len
    → Inside rounds i len p
    → swap_all rounds i len buf p ≡ buf (len - 1 - p)
unfolding swap_all
swap_all-Inside zero i len p buf h o = absurd (omega (arith, h, o))
swap_all-Inside (suc rounds) i len p buf h o =
    let a : ℕ = len - 1 - i in
    elim (ℕ_discrete p i) [
      | yes e ↦
          swap_all-Outside rounds (suc i) len p (swap a i buf) (omega (arith, h))
            (omega (arith, h, e))
          ∙ ap (swap a i buf) e
          ∙ swap_second a i buf
          ∙ ap (λ q. buf (len - 1 - q)) (sym e)
      | no d ↦ elim (ℕ_discrete p a) [
        | yes e ↦
            swap_all-Outside rounds (suc i) len p (swap a i buf) (omega (arith, h))
              (omega (arith, h, e))
            ∙ ap (swap a i buf) e
            ∙ swap_first a i buf
            ∙ ap buf (omega (arith, h, e))
        | no d' ↦
            swap_all-Inside rounds (suc i) len p (swap a i buf) (omega (arith, h))
              (omega (arith, h, o, d, d'))
            ∙ swap_other a i (len - 1 - p) buf (omega (arith, h, o, d, d'))
                (omega (arith, h, o, d, d'))
      ]
    ]

-- Half of the characters are swapped with the others.
pub swap_all-turned :
    (len p : ℕ) (buf : Memory) → p < len → swap_all (len / 2) 0 len buf p ≡ buf (len - 1 - p)
swap_all-turned len p buf lt = elim (halves len p lt) [
  | inl inside ↦ swap_all-Inside (len / 2) 0 len p buf (omega arith) inside
  | inr (outside, middle) ↦
      swap_all-Outside (len / 2) 0 len p buf (omega arith) outside ∙ ap buf middle
]
  where
    halves :
        (len p : ℕ)
        → p < len
        → Inside (len / 2) 0 len p ⊎ (Outside (len / 2) 0 len p × (p ≡ len - 1 - p))
    halves len p lt = omega arith
