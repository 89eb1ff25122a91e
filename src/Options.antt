-- ===== src/Options.antt =====
-- aos/common/util/options.h: sets of option bits, with the tests that validate them.
-- `unsigned int` is 32 bits wide; an option is a word with one bit set.
use Prim.Native.Nat.{bit_and, bit_or, bit_xor}
use miranda_dashboard.Base.{ℕ, zero, suc, ◌+◌, ◌-◌, ◌/◌, ◌%◌, ◌^◌, Bool, not, ◌==◌}

-- `Options<Owner>`; an `Option` is one of these with a single bit.
pub record Options : Type 0 where
  pub bits : ℕ

abbrev pub all_ones : ℕ
all_ones = 2 ^ 32 - 1

unfoldable pub union : Options → Options → Options
union o p = record { bits = bit_or o.bits p.bits }

-- `operator&`
unfoldable pub has : Options → Options → Bool
has o option = not (bit_and o.bits option.bits == 0)

unfoldable pub no_others_set : Options → Options → Bool
no_others_set o allowed = bit_and o.bits (bit_xor allowed.bits all_ones) == 0

-- `__builtin_popcount` over the `k` lowest bits
popcount_low : ℕ → ℕ → ℕ
popcount_low zero x = 0
popcount_low (suc k) x = x % 2 + popcount_low k (x / 2)

unfoldable pub popcount : ℕ → ℕ
unfolding popcount_low
popcount x = popcount_low 32 x

unfoldable pub exactly_one_set : Options → Options → Bool
unfolding popcount
exactly_one_set o choices = popcount (bit_and o.bits choices.bits) == 1

unfoldable pub all_set : Options → Options → Bool
all_set o wanted = bit_and o.bits wanted.bits == wanted.bits
