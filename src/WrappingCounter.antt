-- ===== src/WrappingCounter.antt =====
-- aos/common/util/wrapping_counter.{h,cc}: a count of 32 bits from one of 8 bits that wraps. The
-- overflow of the addition is undefined in the source, so the sum does not wrap here.
mod Tracks
mod Tests
use miranda_dashboard.Base.{ℕ, ◌+◌, ◌-◌, ◌%◌, ◌^◌, ltb, if◌then◌else◌}
use miranda_dashboard.Base.Int.{ℤ, pos, negsuc, ◌+ℤ◌, to_int}

pub record WrappingCounter : Type 0 where
  pub count : ℤ
  pub last_count : ℕ

-- The constructor.
abbrev pub new_wrapping_counter : ℤ → WrappingCounter
new_wrapping_counter initial_count = record { count = initial_count; last_count = 0 }

-- The conversion of an `int32_t` to an unsigned one.
unfoldable pub to_unsigned : ℤ → ℕ
to_unsigned (pos n) = n % 2 ^ 32
to_unsigned (negsuc n) = 2 ^ 32 - 1 - n % 2 ^ 32

-- `(count & 0xffffff00) | current`
unfoldable pub with_low_byte : ℤ → ℕ → ℤ
unfolding to_unsigned to_int
with_low_byte count current =
    let bits = to_unsigned count in to_int (pos (bits - bits % 256 + current))

-- `Update`, which returns the new count too.
unfoldable pub update : WrappingCounter → ℕ → WrappingCounter
unfolding with_low_byte
update counter current =
    let count =
      if ltb current counter.last_count then counter.count +ℤ pos 256 else counter.count in
    record { count = with_low_byte count current; last_count = current }

abbrev pub reset : WrappingCounter → ℤ → WrappingCounter
reset counter value = record { count = value; last_count = counter.last_count }
