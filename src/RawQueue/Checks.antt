-- ===== src/RawQueue/Checks.antt =====
-- Which words `CheckWriteOptions` and `CheckReadOptions` let through.
use miranda_dashboard.Base.{
  ℕ, ◌<◌, ◌≡◌, Bool, true, not, refl, arith, ◌||◌, ◌&&◌, ◌==◌, leb, if◌then◌else◌,
}
use miranda_dashboard.Base.Table.{holds_under, holds_under-test}
use miranda_dashboard.RawQueue.Write.{check_write_options}
use miranda_dashboard.RawQueue.Read.{check_read_options}

abbrev same : Bool → Bool → Bool
same a b = if a then b else not b

same_eq : (a b : Bool) → same a b ≡ true → a ≡ b
same_eq a b h = ground arith

abbrev writes : ℕ → Bool
writes b = b == 4 || b == 8 || b == 16

abbrev reads : ℕ → Bool
reads b = leb 4 b && leb b 11

write_table :
    holds_under (λ b. same (check_write_options (record { bits = b })) (writes b)) 256 ≡ true
unfolding holds_under check_write_options
write_table = refl

read_table : holds_under (λ b. same (check_read_options (record { bits = b })) (reads b)) 256 ≡ true
unfolding holds_under check_read_options
read_table = refl

-- Of the words whose bits are among the lowest eight, a write takes exactly the three that are
-- one of `kNonBlock`, `kBlock` and `kOverride`, alone.
pub check_write_options-words :
    (bits : ℕ)
    → bits < 256
    → check_write_options (record { bits = bits }) ≡ (bits == 4 || bits == 8 || bits == 16)
check_write_options-words b h = same_eq _ _ (
    holds_under-test (λ b. same (check_write_options (record { bits = b })) (writes b)) h
      write_table)

-- Of the words whose bits are among the lowest eight, a read takes exactly those from 4 to 11: one
-- of `kNonBlock` and `kBlock`, with or without `kPeek` and `kFromEnd`.
pub check_read_options-words :
    (bits : ℕ)
    → bits < 256
    → check_read_options (record { bits = bits }) ≡ (leb 4 bits && leb bits 11)
check_read_options-words b h =
    same_eq _ _ (
      holds_under-test (λ b. same (check_read_options (record { bits = b })) (reads b)) h
        read_table)
