-- ===== src/PrintInteger/Decimal.antt =====
-- aos/common/print_field_helpers.h: decimal texts, and what they say.
use miranda_dashboard.Base.{
  ℕ, zero, suc, ◌+◌, ◌-◌, ◌*◌, ◌/◌, ◌%◌, ◌≤◌, ◌<◌, ◌≡◌, ◌≢◌, refl, sym, ap, ap₂, ◌∙◌, arith, List,
  [], ◌∷◌, ◌++◌, length, length-append,
}
use miranda_dashboard.WorkStack.{Memory}
use miranda_dashboard.PrintInteger.Digits.{
  digit_at, count_digits, count_last, count_next, count_some,
}
use native.Mathlib.Decide.{ℕ_discrete}

-- The first characters of a buffer.
abbrev pub chars_of : Memory → ℕ → List ℕ
chars_of buf zero = []
chars_of buf (suc n) = chars_of buf n ++ (buf n ∷ [])

-- The last `n` digits, in the order in which they are read.
abbrev pub decimal : ℕ → ℕ → List ℕ
decimal zero m = []
decimal (suc n) m = decimal n (m / 10) ++ ((b'0' + m % 10) ∷ [])

-- The number that digits say.
abbrev pub value_from : ℕ → List ℕ → ℕ
value_from acc [] = acc
value_from acc (c ∷ cs) = value_from (10 * acc + (c - b'0')) cs

abbrev pub AreDigits : List ℕ → Type 0
AreDigits [] = Unit {0}
AreDigits (c ∷ cs) = (b'0' ≤ c) × (c ≤ b'9') × AreDigits cs

abbrev pub first_of : List ℕ → ℕ
first_of [] = 0
first_of (c ∷ cs) = c

value_from-append :
    (acc c : ℕ) (cs : List ℕ)
    → value_from acc (cs ++ (c ∷ [])) ≡ 10 * value_from acc cs + (c - b'0')
value_from-append acc c [] = refl
value_from-append acc c (d ∷ cs) = value_from-append (10 * acc + (d - b'0')) c cs

AreDigits-append :
    (cs : List ℕ) (c : ℕ) → AreDigits cs → b'0' ≤ c → c ≤ b'9' → AreDigits (cs ++ (c ∷ []))
AreDigits-append [] c h low high = (low, high, tt)
AreDigits-append (d ∷ cs) c (l, g, h) low high = (l, g, AreDigits-append cs c h low high)

pub decimal-AreDigits : (n m : ℕ) → AreDigits (decimal n m)
decimal-AreDigits zero m = tt
decimal-AreDigits (suc n) m =
    AreDigits-append (decimal n (m / 10)) _ (decimal-AreDigits n (m / 10)) (omega arith)
      (omega arith)

pub length-decimal : (n m : ℕ) → length (decimal n m) ≡ n
length-decimal zero m = refl
length-decimal (suc n) m =
    omega
      (arith, length-append (decimal n (m / 10)) ((b'0' + m % 10) ∷ []), length-decimal n (m / 10))

-- All the digits of a number say it.
pub value_from-decimal :
    (rounds m : ℕ) → m < rounds → value_from 0 (decimal (count_digits rounds m) m) ≡ m
value_from-decimal zero m h = absurd (omega arith)
value_from-decimal (suc rounds) m h = elim (ℕ_discrete (m / 10) 0) [
  | yes e ↦ ap (λ n. value_from 0 (decimal n m)) (count_last rounds m e) ∙ omega (arith, e)
  | no d ↦
      ap (λ n. value_from 0 (decimal n m)) (count_next rounds m d)
      ∙ value_from-append 0 (b'0' + m % 10) (decimal (count_digits rounds (m / 10)) (m / 10))
      ∙ omega (arith, value_from-decimal rounds (m / 10) (omega (arith, h, d)))
]

count_positive : (rounds m : ℕ) → 0 < rounds → 1 ≤ count_digits rounds m
count_positive zero m h = absurd (omega arith)
count_positive (suc rounds) m h = count_some rounds m

-- The first digit is not 0, unless the number is.
top_digit : (rounds m : ℕ) → m < rounds → m ≢ 0 → digit_at (count_digits rounds m - 1) m ≢ b'0'
top_digit zero m h nonzero = absurd (omega arith)
top_digit (suc rounds) m h nonzero = elim (ℕ_discrete (m / 10) 0) [
  | yes e ↦
      λ is_0. absurd (omega (arith, e, nonzero, sym (ap (λ i. digit_at i m) (alone e)) ∙ is_0))
  | no d ↦ λ is_0.
      top_digit rounds (m / 10) (omega (arith, h, d)) d
        (sym (ap (λ i. digit_at i m) (under d)) ∙ is_0)
]
  where
    alone : m / 10 ≡ 0 → count_digits (suc rounds) m - 1 ≡ 0
    alone e = omega (arith, count_last rounds m e)

    under : m / 10 ≢ 0 → count_digits (suc rounds) m - 1 ≡ suc (count_digits rounds (m / 10) - 1)
    under d =
        omega (arith, count_next rounds m d, count_positive rounds (m / 10) (omega (arith, h, d)))

chars_of-same : (f g : Memory) (n : ℕ) → ((i : ℕ) → i < n → f i ≡ g i) → chars_of f n ≡ chars_of g n
chars_of-same f g zero h = refl
chars_of-same f g (suc n) h =
    ap₂ (λ xs x. xs ++ (x ∷ [])) (chars_of-same f g n (λ i lt. h i (omega arith)))
      (h n (omega arith))

pub chars_of-first : (f : Memory) (n : ℕ) → chars_of f (suc n) ≡ f 0 ∷ chars_of (λ i. f (suc i)) n
chars_of-first f zero = refl
chars_of-first f (suc n) = ap (λ xs. xs ++ (f (suc n) ∷ [])) (chars_of-first f n)

-- The digits turned around.
pub chars_of-digits :
    (f : Memory) (n m : ℕ)
    → ((i : ℕ) → i < n → f i ≡ digit_at (n - 1 - i) m)
    → chars_of f n ≡ decimal n m
chars_of-digits f zero m h = refl
chars_of-digits f (suc n) m h =
    ap₂ (λ xs x. xs ++ (x ∷ []))
      (chars_of-digits f n (m / 10)
        (λ i lt. h i (omega arith) ∙ ap (λ j. digit_at j m) (next_index n i lt)))
      (h n (omega arith) ∙ ap (λ j. digit_at j m) (no_index n))
  where
    next_index : (n i : ℕ) → i < n → suc n - 1 - i ≡ suc (n - 1 - i)
    next_index n i lt = omega arith

    no_index : (n : ℕ) → suc n - 1 - n ≡ 0
    no_index n = omega arith

first_of-chars_of : (f : Memory) (n : ℕ) → 0 < n → first_of (chars_of f n) ≡ f 0
first_of-chars_of f zero h = absurd (omega arith)
first_of-chars_of f (suc n) h = ap first_of (chars_of-first f n)

pub first_of-decimal :
    (rounds m : ℕ) → m < rounds → m ≢ 0 → first_of (decimal (count_digits rounds m) m) ≢ b'0'
first_of-decimal rounds m h nonzero = λ is_0.
    let n : ℕ = count_digits rounds m in
    let f : Memory = λ i. digit_at (n - 1 - i) m in
    top_digit rounds m h nonzero (
      ap (λ i. digit_at i m) (minus_zero n)
      ∙ sym (first_of-chars_of f n (count_positive rounds m (omega (arith, h))))
      ∙ ap first_of (chars_of-digits f n m (λ i lt. refl))
      ∙ is_0)
  where
    minus_zero : (n : ℕ) → n - 1 ≡ n - 1 - 0
    minus_zero n = omega arith
