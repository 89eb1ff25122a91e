-- ===== src/PrintInteger/Whole.antt =====
-- aos/common/print_field_helpers.h: all of PrintInteger.
use miranda_dashboard.Base.{ℕ, suc, ◌≡◌, ◌≢◌, refl, ap, arith, true, false, List, [], ◌∷◌}
use miranda_dashboard.Base.Int.{ℤ, pos, negsuc}
use miranda_dashboard.WorkStack.{Memory}
use miranda_dashboard.Printing.{◌>>=◌}
use miranda_dashboard.PrintInteger.{has_sign_bit, write_digits, enough_rounds, print_integer}
use miranda_dashboard.PrintInteger.Digits.{signed, count_digits}
use miranda_dashboard.PrintInteger.Decimal.{
  decimal, value_from, value_from-decimal, AreDigits, decimal-AreDigits, first_of, first_of-decimal,
}
use miranda_dashboard.PrintInteger.Placed.{
  with_sign, PrintsText, PrintsText-same, sign_and_swaps, printing-PrintsText,
}

abbrev pub magnitude : ℤ → ℕ
magnitude (pos n) = n
magnitude (negsuc n) = suc n

-- The text of an integer: a '-' if it is negative, then decimal digits that say how large it is. A
-- 0 comes first in no number but 0.
pub record IsDecimal (val : ℤ) (text : List ℕ) : Type 0 where
  pub numeral : List ℕ
  pub sign : text ≡ with_sign (has_sign_bit val) numeral
  pub all_digits : AreDigits numeral
  pub value : value_from 0 numeral ≡ magnitude val
  pub no_zero_first : magnitude val ≢ 0 → first_of numeral ≢ b'0'
  pub zero_is_short : magnitude val ≡ 0 → numeral ≡ b'0' ∷ []

abbrev pub numeral_of : ℕ → ℕ → List ℕ
numeral_of rounds m = decimal (count_digits rounds m) m

zero_alone : (m : ℕ) → m ≡ 0 → numeral_of (suc m) m ≡ b'0' ∷ []
zero_alone m e = ap (λ m. numeral_of (suc m) m) e

numeral-IsDecimal :
    (val : ℤ)
    → IsDecimal val (with_sign (has_sign_bit val) (numeral_of (enough_rounds val) (magnitude val)))
unfolding has_sign_bit
numeral-IsDecimal (pos n) = record {
  numeral = numeral_of (suc n) n;
  sign = refl;
  all_digits = decimal-AreDigits (count_digits (suc n) n) n;
  value = value_from-decimal (suc n) n (omega arith);
  no_zero_first = first_of-decimal (suc n) n (omega arith);
  zero_is_short = zero_alone n;
}
numeral-IsDecimal (negsuc n) = record {
  numeral = numeral_of (suc (suc n)) (suc n);
  sign = refl;
  all_digits = decimal-AreDigits (count_digits (suc (suc n)) (suc n)) (suc n);
  value = value_from-decimal (suc (suc n)) (suc n) (omega arith);
  no_zero_first = first_of-decimal (suc (suc n)) (suc n) (omega arith);
  zero_is_short = zero_alone (suc n);
}

numeral-PrintsText :
    (buf : Memory) (val : ℤ) (output : ℕ)
    → PrintsText
        (with_sign (has_sign_bit val) (numeral_of (enough_rounds val) (magnitude val)))
        (print_integer buf val output)
        output
unfolding has_sign_bit print_integer
numeral-PrintsText buf (pos n) output = printing-PrintsText false (suc n) n buf output (omega arith)
numeral-PrintsText buf (negsuc n) output =
    PrintsText-same _ _ _ output
      (ap
        (λ z. write_digits true (suc (suc n)) z buf 0 output >>= λ b. sign_and_swaps true output b)
        (below_zero n))
      (printing-PrintsText true (suc (suc n)) (suc n) buf output (omega arith))
  where
    below_zero : (n : ℕ) → negsuc n ≡ signed true (suc n)
    below_zero n = ground arith

-- PrintInteger, of any integer, with any buffer: there is a text of the integer (a '-' just if it
-- is negative, then decimal digits that say how large it is and do not start with a 0 unless it is
-- 0) such that, if `*output` has room for the text, the text is at the start of the buffer
-- afterwards and `*output` is less by its length, and if there is no room it returns false.
pub print_integer_lem :
    (buf : Memory) (val : ℤ) (output : ℕ)
    → (text : List ℕ) × IsDecimal val text × PrintsText text (print_integer buf val output) output
print_integer_lem buf val output = (_, numeral-IsDecimal val, numeral-PrintsText buf val output)
