-- ===== src/PrintInteger/Tests.antt =====
-- aos/common/print_field_helpers.h: integers, printed.
use miranda_dashboard.Base.{ℕ, ◌≡◌, refl, List, [], ◌∷◌}
use miranda_dashboard.Base.Int.{pos, negsuc}
use miranda_dashboard.WorkStack.{Memory}
use miranda_dashboard.Printing.{Printed, not_printed, printed, ◌>>=◌}
use miranda_dashboard.PrintInteger.{print_integer}
use miranda_dashboard.PrintInteger.Decimal.{chars_of}
use miranda_dashboard.PrintInteger.Placed.{PrintsText}
use miranda_dashboard.PrintInteger.Whole.{IsDecimal, print_integer_lem}

abbrev empty : Memory
empty p = 0

-- The first three characters, and `*output`.
abbrev three_of : Printed (Memory × ℕ) → Printed (List ℕ × ℕ)
three_of r = r >>= λ b. printed (chars_of b.0 3, b.1)

forty_two_below :
    three_of (print_integer empty (negsuc 41) 5) ≡ printed (b'-' ∷ b'4' ∷ b'2' ∷ [], 2)
unfolding print_integer
forty_two_below = refl

no_room : three_of (print_integer empty (pos 100) 2) ≡ not_printed
unfolding print_integer
no_room = refl

no_room_for_sign : three_of (print_integer empty (negsuc 41) 2) ≡ not_printed
unfolding print_integer
no_room_for_sign = refl

print_integer_lem_example :
    (text : List ℕ) × IsDecimal (negsuc 41) text
    × PrintsText text (print_integer empty (negsuc 41) 5) 5
print_integer_lem_example = print_integer_lem empty (negsuc 41) 5
