-- ===== src/PrintInteger/Placed.antt =====
-- aos/common/print_field_helpers.h: the text in the buffer, when there is room for it.
use miranda_dashboard.Base.{
  ℕ, suc, ◌+◌, ◌-◌, ◌/◌, ◌≤◌, ◌<◌, ◌≡◌, ◌≢◌, ◌⊎◌, inl, inr, refl, sym, ap, ap₂, ◌∙◌, arith, Bool,
  true, false, ◌==◌, List, ◌∷◌, length,
}
use native.Mathlib.Decide.{ℕ_discrete}
use miranda_dashboard.WorkStack.{Memory, set_memory}
use miranda_dashboard.Printing.{Printed, not_printed, printed, ◌>>=◌}
use miranda_dashboard.PrintInteger.{write_digits, write_sign, swap_all}
use miranda_dashboard.PrintInteger.Digits.{
  signed, digit_at, count_digits, write_digits-WritesDigits, set_self, set_other,
}
use miranda_dashboard.PrintInteger.Swaps.{swap_all-turned}
use miranda_dashboard.PrintInteger.Decimal.{
  chars_of, chars_of-first, chars_of-digits, decimal, length-decimal,
}

abbrev pub with_sign : Bool → List ℕ → List ℕ
with_sign true cs = b'-' ∷ cs
with_sign false cs = cs

-- The text is at the start of the buffer and `*output` is what is left of it.
pub record HasText (text : List ℕ) (result : Printed (Memory × ℕ)) (output : ℕ) : Type 0 where
  pub after : Memory
  pub returned : result ≡ printed (after, output - length text)
  pub chars : chars_of after (length text) ≡ text

abbrev pub PrintsText : List ℕ → Printed (Memory × ℕ) → ℕ → Type 0
PrintsText text result output =
    ((length text ≤ output) × HasText text result output)
    ⊎ ((output < length text) × (result ≡ not_printed))

abbrev pub sign_and_swaps : Bool → ℕ → Memory × ℕ → Printed (Memory × ℕ)
sign_and_swaps negative output b =
    write_sign negative b.0 b.1 output >>= λ b. printed (swap_all (b.1 / 2) 0 b.1 b.0, output - b.1)

abbrev pub printing : Bool → ℕ → ℕ → Memory → ℕ → Printed (Memory × ℕ)
printing negative rounds m buf output =
    write_digits negative rounds (signed negative m) buf 0 output >>= λ b.
    sign_and_swaps negative output b

turned_digits :
    (buf : Memory) (n m : ℕ)
    → ((i : ℕ) → i < n → buf i ≡ digit_at i m)
    → chars_of (swap_all (n / 2) 0 n buf) n ≡ decimal n m
turned_digits buf n m h =
    chars_of-digits (swap_all (n / 2) 0 n buf) n m
      λ i lt. swap_all-turned n i buf lt ∙ h (n - 1 - i) (omega (arith, lt))

-- The sign is written last, and so comes first.
turned_sign :
    (buf : Memory) (n m : ℕ)
    → ((i : ℕ) → i < n → buf i ≡ digit_at i m)
    → chars_of (swap_all (suc n / 2) 0 (suc n) (set_memory buf n b'-')) (suc n) ≡ b'-' ∷ decimal n m
turned_sign buf n m h =
    let f : Memory = swap_all (suc n / 2) 0 (suc n) (set_memory buf n b'-') in
    chars_of-first f n
    ∙ ap₂ (λ x xs. x ∷ xs)
        (swap_all-turned (suc n) 0 (set_memory buf n b'-') (omega arith)
          ∙ ap (set_memory buf n b'-') (last_index n)
          ∙ set_self buf n b'-')
        (chars_of-digits (λ i. f (suc i)) n m
          λ i lt.
            swap_all-turned (suc n) (suc i) (set_memory buf n b'-') (omega (arith, lt))
            ∙ ap (set_memory buf n b'-') (index n i lt)
            ∙ set_other buf n b'-' (n - 1 - i) (omega (arith, lt))
            ∙ h (n - 1 - i) (omega (arith, lt)))
  where
    last_index : (n : ℕ) → suc n - 1 - 0 ≡ n
    last_index n = omega arith

    index : (n i : ℕ) → i < n → suc n - 1 - suc i ≡ n - 1 - i
    index n i lt = omega arith

-- What follows when the digits fit.
module _ (m n output : ℕ) (after : Memory) (fits : n ≤ output)
    (h : (i : ℕ) → i < n → after i ≡ digit_at i m) where
  unsigned_text : PrintsText (decimal n m) (sign_and_swaps false output (after, n)) output
  unfolding write_sign
  unsigned_text = inl (
    omega (arith, fits, length-decimal n m),
    record {
      after = swap_all (n / 2) 0 n after;
      returned =
          ap (λ k. printed (swap_all (n / 2) 0 n after, output - k)) (sym (length-decimal n m));
      chars =
          ap (chars_of (swap_all (n / 2) 0 n after)) (length-decimal n m)
          ∙ turned_digits after n m h;
    },
  )

  no_sign : n ≡ output → sign_and_swaps true output (after, n) ≡ not_printed
  unfolding write_sign
  no_sign e = rw (same n output e) refl
    where
      same : (a b : ℕ) → a ≡ b → (a == b) ≡ true
      same a b e = ground arith

  sign_written :
      n ≢ output
      → sign_and_swaps true output (after, n)
        ≡ printed (swap_all (suc n / 2) 0 (suc n) (set_memory after n b'-'), output - suc n)
  unfolding write_sign
  sign_written d = rw (differ n output d) refl
    where
      differ : (a b : ℕ) → a ≢ b → (a == b) ≡ false
      differ a b d = ground arith

  signed_text : PrintsText (b'-' ∷ decimal n m) (sign_and_swaps true output (after, n)) output
  signed_text = elim (ℕ_discrete n output) [
    | yes e ↦ inr (omega (arith, e, length-decimal n m), no_sign e)
    | no d ↦ inl (
      omega (arith, d, fits, length-decimal n m),
      record {
        after = swap_all (suc n / 2) 0 (suc n) (set_memory after n b'-');
        returned =
            sign_written d
            ∙ ap
                (λ k.
                  printed
                    (swap_all (suc n / 2) 0 (suc n) (set_memory after n b'-'), output - suc k))
                (sym (length-decimal n m));
        chars =
            ap (λ k. chars_of (swap_all (suc n / 2) 0 (suc n) (set_memory after n b'-')) (suc k))
              (length-decimal n m)
            ∙ turned_sign after n m h;
      },
    )
  ]

  any_text :
      (negative : Bool)
      → PrintsText
          (with_sign negative (decimal n m))
          (sign_and_swaps negative output (after, n))
          output
  any_text true = signed_text
  any_text false = unsigned_text

digits_fit :
    (negative : Bool) (n m output : ℕ)
    → output < n
    → output < length (with_sign negative (decimal n m))
digits_fit true n m output full = omega (arith, full, length-decimal n m)
digits_fit false n m output full = omega (arith, full, length-decimal n m)

pub PrintsText-same :
    (text : List ℕ) (r r' : Printed (Memory × ℕ)) (output : ℕ)
    → r ≡ r'
    → PrintsText text r' output
    → PrintsText text r output
PrintsText-same text r r' output e (inl (fits, t)) =
    inl (fits, record { after = t.after; returned = e ∙ t.returned; chars = t.chars })
PrintsText-same text r r' output e (inr (full, none_printed)) = inr (full, e ∙ none_printed)

pub printing-PrintsText :
    (negative : Bool) (rounds m : ℕ) (buf : Memory) (output : ℕ)
    → m < rounds
    → PrintsText
        (with_sign negative (decimal (count_digits rounds m) m))
        (printing negative rounds m buf output)
        output
printing-PrintsText negative rounds m buf output h =
    elim (write_digits-WritesDigits negative rounds m buf 0 output h (omega arith)) [
      | inl (fits, w) ↦
          PrintsText-same _ _ _ output
            (ap (λ r. r >>= λ b. sign_and_swaps negative output b) w.result
              ∙ ap (λ n. sign_and_swaps negative output (w.after, n))
                  (from_zero (count_digits rounds m)))
            (any_text m (count_digits rounds m) output w.after (omega (arith, fits))
              (λ i few. ap w.after (sym (from_zero i)) ∙ w.digits i few) negative)
      | inr (full, none_printed) ↦ inr (
        digits_fit negative (count_digits rounds m) m output (omega (arith, full)),
        ap (λ r. r >>= λ b. sign_and_swaps negative output b) none_printed,
      )
    ]
  where
    from_zero : (n : ℕ) → 0 + n ≡ n
    from_zero n = omega arith
