-- ===== src/Base/Bytes.antt =====
-- Bytes in memory as lists: words in network and in host (little-endian) order.
use miranda_dashboard.Base.{
  ℕ, zero, suc, ◌+◌, ◌*◌, ◌/◌, ◌%◌, ◌<◌, ◌≡◌, refl, ap, List, [], ◌∷◌, ◌++◌, Option, none, some,
  arith, length,
}

-- `to_network` of a `uint16_t` and of a `uint32_t`.
abbrev pub be16 : ℕ → List ℕ
be16 v = v / 256 % 256 ∷ v % 256 ∷ []

abbrev pub be32 : ℕ → List ℕ
be32 v = v / 16777216 % 256 ∷ v / 65536 % 256 ∷ v / 256 % 256 ∷ v % 256 ∷ []

-- A `uint16_t` and a `uint32_t` as `memcpy` copies them.
abbrev pub le16 : ℕ → List ℕ
le16 v = v % 256 ∷ v / 256 % 256 ∷ []

abbrev pub le32 : ℕ → List ℕ
le32 v = v % 256 ∷ v / 256 % 256 ∷ v / 65536 % 256 ∷ v / 16777216 % 256 ∷ []

-- `to_host`, with the pointer moved past what was read; `none` is a read past the end.
abbrev pub read_be16 : List ℕ → Option (ℕ × List ℕ)
read_be16 [] = none
read_be16 (a ∷ []) = none
read_be16 (a ∷ b ∷ r) = some (a * 256 + b, r)

abbrev pub read_be32 : List ℕ → Option (ℕ × List ℕ)
read_be32 [] = none
read_be32 (a ∷ []) = none
read_be32 (a ∷ b ∷ []) = none
read_be32 (a ∷ b ∷ c ∷ []) = none
read_be32 (a ∷ b ∷ c ∷ d ∷ r) = some (a * 16777216 + b * 65536 + c * 256 + d, r)

-- A `memcpy` into a `uint16_t` or a `uint32_t`.
abbrev pub read_le16 : List ℕ → Option (ℕ × List ℕ)
read_le16 [] = none
read_le16 (a ∷ []) = none
read_le16 (a ∷ b ∷ r) = some (a + b * 256, r)

abbrev pub read_le32 : List ℕ → Option (ℕ × List ℕ)
read_le32 [] = none
read_le32 (a ∷ []) = none
read_le32 (a ∷ b ∷ []) = none
read_le32 (a ∷ b ∷ c ∷ []) = none
read_le32 (a ∷ b ∷ c ∷ d ∷ r) = some (a + b * 256 + c * 65536 + d * 16777216, r)

pub read_le16-le16 : (v : ℕ) (r : List ℕ) → v < 65536 → read_le16 (le16 v ++ r) ≡ some (v, r)
read_le16-le16 v r h = ap (λ n. some (n, r)) (omega arith)

pub read_le32-le32 : (v : ℕ) (r : List ℕ) → v < 4294967296 → read_le32 (le32 v ++ r) ≡ some (v, r)
read_le32-le32 v r h = ap (λ n. some (n, r)) (omega arith)

pub read_be16-be16 : (v : ℕ) (r : List ℕ) → v < 65536 → read_be16 (be16 v ++ r) ≡ some (v, r)
read_be16-be16 v r h = ap (λ n. some (n, r)) (omega arith)

pub read_be32-be32 : (v : ℕ) (r : List ℕ) → v < 4294967296 → read_be32 (be32 v ++ r) ≡ some (v, r)
read_be32-be32 v r h = ap (λ n. some (n, r)) (omega arith)

-- A `memcpy` of `n` bytes out of a buffer.
abbrev pub read_bytes : ℕ → List ℕ → Option (List ℕ × List ℕ)
read_bytes zero r = some ([], r)
read_bytes (suc n) [] = none
read_bytes (suc n) (b ∷ r) = elim (read_bytes n r) [
  | none ↦ none
  | some (bs, rest) ↦ some (b ∷ bs, rest)
]

pub read_bytes-append : (xs r : List ℕ) → read_bytes (length xs) (xs ++ r) ≡ some (xs, r)
read_bytes-append [] r = refl
read_bytes-append (x ∷ xs) r = rw (read_bytes-append xs r)
