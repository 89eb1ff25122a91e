-- ===== src/MessageType/Safety.antt =====
-- `Deserialize` never reads past the bytes that it was given.
use miranda_dashboard.Base.{
  ℕ, zero, suc, ◌+◌, ◌≤◌, ◌≡◌, refl, ◌≢◌, List, [], ◌∷◌, some, Bool, true, false, arith, length,
  subst,
}
use miranda_dashboard.Base.Bytes.{read_be16, read_be32, read_bytes}
use miranda_dashboard.MessageType.{
  Parsed, overread, null, parsed, P, ◌>>=◌, ◌>>◌, need, spend, read, length_size, read_length,
  deserialize_field, deserialize_fields, deserialize,
}

-- At least `lo` bytes are still to be spent, and the buffer holds all of those and `k` more.
abbrev St : ℕ → ℕ → List ℕ → ℕ → Type 0
St lo k buffer bytes = (lo ≤ bytes) × (bytes + k ≤ length buffer)

abbrev Ensures : {A : Type 0} → ℕ → ℕ → Parsed A → Type 0
Ensures lo k overread = ⊥
Ensures lo k null = Unit {0}
Ensures lo k (parsed a buffer bytes) = St lo k buffer bytes

-- A program that leads from one such state to another.
abbrev Safe : {A : Type 0} → ℕ → ℕ → P A → ℕ → ℕ → Type 0
Safe lo k m lo' k' =
    (buffer : List ℕ) (bytes : ℕ) → St lo k buffer bytes → Ensures lo' k' (m buffer bytes)

bind_Ensures :
    {A B : Type 0} (r : Parsed A) (f : A → P B) (lo k lo' k' : ℕ)
    → Ensures lo k r
    → ((a : A) → Safe lo k (f a) lo' k')
    → Ensures lo' k' (
        (elim r [
          | overread ↦ overread
          | null ↦ null
          | parsed a buffer' bytes' ↦ f a buffer' bytes'
        ]))
bind_Ensures overread f lo k lo' k' h g = h
bind_Ensures null f lo k lo' k' h g = tt
bind_Ensures (parsed a b n) f lo k lo' k' h g = g a b n h

bind_Safe :
    {A B : Type 0} (m : P A) (f : A → P B) (lo k mid j lo' k' : ℕ)
    → Safe lo k m mid j
    → ((a : A) → Safe mid j (f a) lo' k')
    → Safe lo k (m >>= f) lo' k'
bind_Safe m f lo k mid j lo' k' h g b n s = bind_Ensures (m b n) f mid j lo' k' (h b n s) g

need-Safe : (n k : ℕ) → Safe 0 k (need n) n k
unfolding need
need-Safe n k b bytes s = ground arith

spend-Safe : (n lo k : ℕ) → Safe (n + lo) k (spend n) lo (n + k)
unfolding spend
spend-Safe n lo k b bytes s = omega arith

spend_all-Safe : (n : ℕ) → Safe n 0 (spend n) 0 n
unfolding spend
spend_all-Safe n b bytes s = omega arith

read_be16-Safe : (lo k : ℕ) → Safe lo (2 + k) (read read_be16) lo k
unfolding read
read_be16-Safe lo k [] n s = absurd (omega arith)
read_be16-Safe lo k (a ∷ []) n s = absurd (omega arith)
read_be16-Safe lo k (a ∷ b ∷ r) n s = omega arith

read_be32-Safe : (lo k : ℕ) → Safe lo (4 + k) (read read_be32) lo k
unfolding read
read_be32-Safe lo k [] n s = absurd (omega arith)
read_be32-Safe lo k (a ∷ []) n s = absurd (omega arith)
read_be32-Safe lo k (a ∷ b ∷ []) n s = absurd (omega arith)
read_be32-Safe lo k (a ∷ b ∷ c ∷ []) n s = absurd (omega arith)
read_be32-Safe lo k (a ∷ b ∷ c ∷ d ∷ r) n s = omega arith

-- What a `memcpy` of `n` bytes leaves.
read_bytes-some :
    (n : ℕ) (b : List ℕ)
    → n ≤ length b
    → (x : List ℕ × List ℕ) × (read_bytes n b ≡ some x) × (length x.1 + n ≡ length b)
read_bytes-some zero b h = (([], b), refl, omega arith)
read_bytes-some (suc n) [] h = absurd (omega arith)
read_bytes-some (suc n) (b ∷ bs) h =
    let (x, e, l) = read_bytes-some n bs (omega arith) in ((b ∷ x.0, x.1), rw (e), omega arith)

read_bytes-Safe : (count : ℕ) → Safe 0 count (read (read_bytes count)) 0 0
unfolding read
read_bytes-Safe count b n s =
    let (x, e, l) = read_bytes-some count b (omega arith) in rw (e, Ensures) (s.0, omega arith)

read_length-Safe : (lengths : Bool) (k : ℕ) → Safe (length_size lengths) k (read_length lengths) 0 k
unfolding read_length read spend
read_length-Safe true k [] n s = absurd (omega arith)
read_length-Safe true k (a ∷ []) n s = absurd (omega arith)
read_length-Safe true k (a ∷ b ∷ []) n s = absurd (omega arith)
read_length-Safe true k (a ∷ b ∷ c ∷ []) n s = absurd (omega arith)
read_length-Safe true k (a ∷ b ∷ c ∷ d ∷ r) n s = omega arith
read_length-Safe false k b n s = s

-- A name: its length is checked, spent and read.
read_name-Safe :
    {A : Type 0} (count : ℕ) (f : List ℕ → P A)
    → ((name : List ℕ) → Safe 0 0 (f name) 0 0)
    → Safe 0 0 (need count >> (spend count >> (read (read_bytes count) >>= f))) 0 0
read_name-Safe count f h = bind_Safe (need count) _ 0 0 count 0 0 0 (need-Safe count 0) λ _.
    bind_Safe (spend count) _ count 0 0 count 0 0 (spend_all-Safe count)
      λ _. bind_Safe (read (read_bytes count)) f 0 count 0 0 0 0 (read_bytes-Safe count) h

deserialize_field-Safe : (lengths : Bool) → Safe 0 0 (deserialize_field lengths) 0 0
unfolding deserialize_field
deserialize_field-Safe lengths =
    bind_Safe (need (6 + length_size lengths)) _ 0 0 (6 + length_size lengths) 0 0 0
      (need-Safe (6 + length_size lengths) 0)
      λ _.
        bind_Safe (spend 6) _ (6 + length_size lengths) 0 (length_size lengths) 6 0 0
          (spend-Safe 6 (length_size lengths) 0)
          λ _.
            bind_Safe (read read_be32) _ (length_size lengths) 6 (length_size lengths) 2 0 0
              (read_be32-Safe (length_size lengths) 2)
              λ type.
                bind_Safe (read_length lengths) _ (length_size lengths) 2 0 2 0 0
                  (read_length-Safe lengths 2)
                  λ n.
                    bind_Safe (read read_be16) _ 0 2 0 0 0 0 (read_be16-Safe 0 0)
                      λ count. read_name-Safe count _ λ name b m s. s

deserialize_fields-Safe : (lengths : Bool) (n : ℕ) → Safe 0 0 (deserialize_fields lengths n) 0 0
unfolding deserialize_fields
deserialize_fields-Safe lengths zero = λ b m s. s
deserialize_fields-Safe lengths (suc n) =
    bind_Safe (deserialize_field lengths) _ 0 0 0 0 0 0 (deserialize_field-Safe lengths) λ f.
      bind_Safe (deserialize_fields lengths n) _ 0 0 0 0 0 0 (deserialize_fields-Safe lengths n)
        λ fs b m s. s

deserialize-Safe : (lengths : Bool) → Safe 0 0 (deserialize lengths) 0 0
unfolding deserialize
deserialize-Safe lengths = bind_Safe (need 10) _ 0 0 10 0 0 0 (need-Safe 10 0) λ _.
    bind_Safe (spend 10) _ 10 0 0 10 0 0 (spend-Safe 10 0 0) λ _.
      bind_Safe (read read_be16) _ 0 10 0 8 0 0 (read_be16-Safe 0 8) λ super_size.
        bind_Safe (read read_be32) _ 0 8 0 4 0 0 (read_be32-Safe 0 4) λ id.
          bind_Safe (read read_be16) _ 0 4 0 2 0 0 (read_be16-Safe 0 2) λ count.
            bind_Safe (read read_be16) _ 0 2 0 0 0 0 (read_be16-Safe 0 0) λ number.
              read_name-Safe count _ λ name.
                bind_Safe (deserialize_fields lengths number) _ 0 0 0 0 0 0
                  (deserialize_fields-Safe lengths number) λ fs b m s. s

not_overread : {A : Type 0} (r : Parsed A) → Ensures 0 0 r → r ≢ overread
not_overread r h e = subst (Ensures 0 0) e h

-- Given no more bytes than the buffer holds, and whatever these are, `Deserialize` does not read
-- past the end of the buffer, with or without lengths in the fields.
pub deserialize-no_overread :
    (lengths : Bool) (buffer : List ℕ) (bytes : ℕ)
    → bytes ≤ length buffer
    → deserialize lengths buffer bytes ≢ overread
deserialize-no_overread lengths b n h =
    not_overread (deserialize lengths b n) (deserialize-Safe lengths b n (omega arith, omega arith))
