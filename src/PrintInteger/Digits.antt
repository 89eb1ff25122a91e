-- ===== src/PrintInteger/Digits.antt =====
-- aos/common/print_field_helpers.h: the digits that the loop writes, the last one first.
use native.Mathlib.Decide.{ℕ_discrete}
use miranda_dashboard.Base.{
  ℕ, zero, suc, ◌+◌, ◌/◌, ◌%◌, ◌≤◌, ◌<◌, ◌≡◌, ◌≢◌, ◌⊎◌, inl, inr, refl, ap, ◌∙◌, arith, Bool, true,
  false, ◌==◌, if◌then◌else◌,
}
use miranda_dashboard.Base.Int.{ℤ, pos, sub_ℕ, ◌+ℤ◌, ◌-ℤ◌, tdiv, trem, eqb_ℤ}
use miranda_dashboard.WorkStack.{Memory, set_memory}
use miranda_dashboard.Printing.{not_printed, printed}
use miranda_dashboard.PrintInteger.{digit_char, write_digits}

-- The integer with a magnitude and a sign.
abbrev pub signed : Bool → ℕ → ℤ
signed true m = sub_ℕ 0 m
signed false m = pos m

digit_char-signed :
    (negative : Bool) (m : ℕ) → digit_char negative (signed negative m) ≡ b'0' + m % 10
unfolding digit_char trem ◌+ℤ◌ ◌-ℤ◌
digit_char-signed true zero = refl
digit_char-signed true (suc m) = ground arith
digit_char-signed false m = ground arith

tdiv-signed :
    (negative : Bool) (m : ℕ) → tdiv (signed negative m) (pos 10) ≡ signed negative (m / 10)
unfolding tdiv
tdiv-signed true zero = refl
tdiv-signed true (suc m) = ground arith
tdiv-signed false m = refl

signed-zero : (negative : Bool) (m : ℕ) → eqb_ℤ (signed negative m) (pos 0) ≡ (m == 0)
signed-zero true m = ground arith
signed-zero false m = ground arith

abbrev pub digit_at : ℕ → ℕ → ℕ
digit_at zero m = b'0' + m % 10
digit_at (suc i) m = digit_at i (m / 10)

-- How many digits a number has that is less than `rounds`.
abbrev pub count_digits : ℕ → ℕ → ℕ
count_digits zero m = 0
count_digits (suc rounds) m =
    let rest = count_digits rounds (m / 10) in if m / 10 == 0 then 1 else suc rest

-- The digits from `len` on; what was written before stays.
pub record HasDigits (negative : Bool) (rounds m : ℕ) (buf : Memory) (len output : ℕ) : Type 0 where
  pub after : Memory
  pub result :
      write_digits negative rounds (signed negative m) buf len output
      ≡ printed (after, len + count_digits rounds m)
  pub digits : (i : ℕ) → i < count_digits rounds m → after (len + i) ≡ digit_at i m
  pub before : (p : ℕ) → p < len → after p ≡ buf p

abbrev pub WritesDigits : Bool → ℕ → ℕ → Memory → ℕ → ℕ → Type 0
WritesDigits negative rounds m buf len output =
    ((len + count_digits rounds m ≤ output) × HasDigits negative rounds m buf len output)
    ⊎ ((output < len + count_digits rounds m)
        × (write_digits negative rounds (signed negative m) buf len output ≡ not_printed))

pub set_self : (buf : Memory) (p v : ℕ) → set_memory buf p v p ≡ v
unfolding set_memory
set_self buf p v = ground arith

pub set_other : (buf : Memory) (p v q : ℕ) → q ≢ p → set_memory buf p v q ≡ buf q
unfolding set_memory
set_other buf p v q h = ground arith

abbrev written : Bool → ℕ → Memory → ℕ → Memory
written negative m buf len = set_memory buf len (digit_char negative (signed negative m))

written_digit :
    (negative : Bool) (m : ℕ) (buf : Memory) (len : ℕ)
    → written negative m buf len len ≡ b'0' + m % 10
written_digit negative m buf len = set_self buf len _ ∙ digit_char-signed negative m

pub count_last : (rounds m : ℕ) → m / 10 ≡ 0 → count_digits (suc rounds) m ≡ 1
count_last rounds m e = ground (arith, e)

pub count_next :
    (rounds m : ℕ) → m / 10 ≢ 0 → count_digits (suc rounds) m ≡ suc (count_digits rounds (m / 10))
count_next rounds m e = ground arith

pub count_some : (rounds m : ℕ) → 1 ≤ count_digits (suc rounds) m
count_some rounds m = ground arith

-- One round, in which there is room.
module _ (negative : Bool) (rounds m : ℕ) (buf : Memory) (len output : ℕ) (lt : len < output) where
  more_room : (len == output) ≡ false
  more_room = ground (arith, lt)

  equals : m / 10 ≡ 0 → (m / 10 == 0) ≡ true
  equals e = ground (arith, e)

  differs : m / 10 ≢ 0 → (m / 10 == 0) ≡ false
  differs e = ground arith

  ended : (b : Bool) → (m / 10 == 0) ≡ b → eqb_ℤ (tdiv (signed negative m) (pos 10)) (pos 0) ≡ b
  ended b h = ap (λ z. eqb_ℤ z (pos 0)) (tdiv-signed negative m) ∙ signed-zero negative (m / 10) ∙ h

  last_round :
      m / 10 ≡ 0
      → write_digits negative (suc rounds) (signed negative m) buf len output
        ≡ printed (written negative m buf len, suc len)
  unfolding write_digits
  last_round e = rw (more_room, ended true (equals e)) refl

  next_round :
      m / 10 ≢ 0
      → write_digits negative (suc rounds) (signed negative m) buf len output
        ≡ write_digits negative rounds
            (signed negative (m / 10))
            (written negative m buf len)
            (suc len)
            output
  unfolding write_digits
  next_round e = rw (more_room, ended false (differs e), tdiv-signed negative m) refl

no_room_left :
    (negative : Bool) (rounds m : ℕ) (buf : Memory) (len output : ℕ)
    → len ≡ output
    → write_digits negative (suc rounds) (signed negative m) buf len output ≡ not_printed
unfolding write_digits
no_room_left negative rounds m buf len output e = rw (same len output e) refl
  where
    same : (a b : ℕ) → a ≡ b → (a == b) ≡ true
    same a b e = ground arith

one_digit :
    (negative : Bool) (rounds m : ℕ) (buf : Memory) (len i : ℕ)
    → m / 10 ≡ 0
    → i < count_digits (suc rounds) m
    → written negative m buf len (len + i) ≡ digit_at i m
one_digit negative rounds m buf len zero e few =
    ap (written negative m buf len) (omega arith) ∙ written_digit negative m buf len
one_digit negative rounds m buf len (suc i) e few =
    absurd (omega (arith, count_last rounds m e, few))

more_digits :
    (negative : Bool) (rounds m : ℕ) (buf : Memory) (len : ℕ) (after : Memory)
    → m / 10 ≢ 0
    → ((i : ℕ) → i < count_digits rounds (m / 10) → after (suc len + i) ≡ digit_at i (m / 10))
    → ((p : ℕ) → p < suc len → after p ≡ written negative m buf len p)
    → (i : ℕ) → i < count_digits (suc rounds) m
    → after (len + i) ≡ digit_at i m
more_digits negative rounds m buf len after d digits before zero few =
    ap after (omega arith) ∙ before len (omega arith) ∙ written_digit negative m buf len
more_digits negative rounds m buf len after d digits before (suc i) few =
    ap after (omega arith) ∙ digits i (omega (arith, few, count_next rounds m d))

pub write_digits-WritesDigits :
    (negative : Bool) (rounds m : ℕ) (buf : Memory) (len output : ℕ)
    → m < rounds
    → len ≤ output
    → WritesDigits negative rounds m buf len output
write_digits-WritesDigits negative zero m buf len output h le = absurd (omega arith)
write_digits-WritesDigits negative (suc rounds) m buf len output h le =
    elim (ℕ_discrete len output) [
      | yes full ↦ inr (
        omega (arith, full, count_some rounds m),
        no_room_left negative rounds m buf len output full,
      )
      | no room ↦ elim (ℕ_discrete (m / 10) 0) [
        | yes e ↦ inl (
          omega (arith, count_last rounds m e),
          record {
            after = written negative m buf len;
            result =
                last_round negative rounds m buf len output (omega arith) e
                ∙ ap (λ n. printed (written negative m buf len, n))
                    (omega (arith, count_last rounds m e));
            digits = λ i few. one_digit negative rounds m buf len i e few;
            before = λ p below. set_other buf len _ p (omega arith);
          },
        )
        | no d ↦
            let step = next_round negative rounds m buf len output (omega arith) d in
            elim (write_digits-WritesDigits negative rounds (m / 10) (written negative m buf len)
              (suc len) output (omega (arith, h, d)) (omega arith)) [
                | inl (fits, w) ↦ inl (
                  omega (arith, count_next rounds m d),
                  record {
                    after = w.after;
                    result =
                        step
                        ∙ w.result
                        ∙ ap (λ n. printed (w.after, n)) (omega (arith, count_next rounds m d));
                    digits = more_digits negative rounds m buf len w.after d w.digits w.before;
                    before =
                        λ p below. w.before p (omega arith) ∙ set_other buf len _ p (omega arith);
                  },
                )
                | inr (full, none_printed) ↦
                    inr (omega (arith, count_next rounds m d), step ∙ none_printed)
              ]
      ]
    ]
