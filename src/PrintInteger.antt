-- ===== src/PrintInteger.antt =====
-- aos/common/print_field_helpers.h: PrintInteger, for integers of any type. The buffer is a memory
-- of numbered places. `/` and `%` are those of C++.
pub mod Digits
pub mod Swaps
pub mod Decimal
pub mod Placed
pub mod Whole
mod Tests
use miranda_dashboard.Base.{ℕ, zero, suc, ◌+◌, ◌-◌, ◌/◌, Bool, true, false, ◌==◌, if◌then◌else◌}
use miranda_dashboard.Base.Int.{ℤ, pos, negsuc, pos_part, ◌+ℤ◌, ◌-ℤ◌, tdiv, trem, eqb_ℤ}
use miranda_dashboard.WorkStack.{Memory, set_memory}
use miranda_dashboard.Printing.{Printed, not_printed, too_deep, printed, ◌>>=◌}

-- The sign bit.
unfoldable pub has_sign_bit : ℤ → Bool
has_sign_bit (pos n) = false
has_sign_bit (negsuc n) = true

-- `'0' - (val % 10)` or `'0' + (val % 10)`
unfoldable pub digit_char : Bool → ℤ → ℕ
unfolding trem ◌+ℤ◌ ◌-ℤ◌
digit_char true val = pos_part (pos b'0' -ℤ trem val (pos 10))
digit_char false val = pos_part (pos b'0' +ℤ trem val (pos 10))

-- The `do` loop, with `buf` and `len`.
unfoldable pub write_digits : Bool → ℕ → ℤ → Memory → ℕ → ℕ → Printed (Memory × ℕ)
unfolding digit_char tdiv set_memory
write_digits negative zero val buf len output = too_deep
write_digits negative (suc rounds) val buf len output =
    let buf' = set_memory buf len (digit_char negative val) in
    let rest = write_digits negative rounds (tdiv val (pos 10)) buf' (suc len) output in
    if len == output
    then not_printed
    else if eqb_ℤ (tdiv val (pos 10)) (pos 0)
    then printed (buf', suc len)
    else rest

unfoldable pub write_sign : Bool → Memory → ℕ → ℕ → Printed (Memory × ℕ)
unfolding set_memory
write_sign false buf len output = printed (buf, len)
write_sign true buf len output =
    if len == output then not_printed else printed (set_memory buf len b'-', suc len)

-- `::std::swap`, and the loop of swaps, so many rounds from `i` on.
unfoldable pub swap : ℕ → ℕ → Memory → Memory
unfolding set_memory
swap a b buf = set_memory (set_memory buf a (buf b)) b (buf a)

unfoldable pub swap_all : ℕ → ℕ → ℕ → Memory → Memory
unfolding swap
swap_all zero i len buf = buf
swap_all (suc rounds) i len buf = swap_all rounds (suc i) len (swap (len - 1 - i) i buf)

-- The loop has more rounds than `val` has units.
abbrev pub enough_rounds : ℤ → ℕ
enough_rounds (pos n) = suc n
enough_rounds (negsuc n) = suc (suc n)

unfoldable pub print_integer : Memory → ℤ → ℕ → Printed (Memory × ℕ)
unfolding has_sign_bit write_digits write_sign swap_all
print_integer buf val output =
    write_digits (has_sign_bit val) (enough_rounds val) val buf 0 output >>= λ b.
    write_sign (has_sign_bit val) b.0 b.1 output >>= λ b.
    printed (swap_all (b.1 / 2) 0 b.1 b.0, output - b.1)
