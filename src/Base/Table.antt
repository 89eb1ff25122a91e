-- ===== src/Base/Table.antt =====
-- Facts about small numbers, checked value by value.
use miranda_dashboard.Base.{ℕ, zero, suc, ◌<◌, ◌≡◌, Bool, true, ◌&&◌, arith}

-- Whether a test holds of every number under a limit.
unfoldable pub holds_under : (ℕ → Bool) → ℕ → Bool
holds_under test zero = true
holds_under test (suc last) = holds_under test last && test last

pub holds_under-test :
    (test : ℕ → Bool) {limit k : ℕ} → k < limit → holds_under test limit ≡ true → test k ≡ true
unfolding holds_under
holds_under-test test {limit = zero} below h = absurd (omega arith)
holds_under-test test {limit = suc last} {k = k} below h =
    ground (arith, holds_under-test test {limit = last} {k = k})
