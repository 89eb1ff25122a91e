-- ===== src/MessageType/RoundTrip.antt =====
-- `Deserialize` reads back what `Serialize` wrote.
use miranda_dashboard.Base.{
  ℕ, suc, ◌+◌, ◌-◌, ◌<◌, ◌≤◌, ◌%◌, ◌≡◌, refl, sym, ap, ap₂, ◌∙◌, List, [], ◌∷◌, ◌++◌, append_assoc,
  Option, some, true, arith, length, length-append, append-nil, take,
}
use miranda_dashboard.Base.Bytes.{
  be16, be32, read_be16, read_be32, read_bytes, read_be16-be16, read_be32-be32, read_bytes-append,
}
use miranda_dashboard.MessageType.{
  MessageType, Field, parsed, P, ◌>>=◌, ◌>>◌, need, spend, read, read_length, deserialize_field,
  deserialize_fields, deserialize, serialize_field, serialize_fields, serialized, serialize,
  fields_size,
}

bind_parsed :
    {A B : Type 0} (m : P A) (f : A → P B) {a : A} {b c : List ℕ} {n k : ℕ}
    → m b n ≡ parsed a c k
    → (m >>= f) b n ≡ f a c k
bind_parsed m f e = rw (e, ◌>>=◌)

need-some : (n : ℕ) (b : List ℕ) (k : ℕ) → n ≤ k → need n b k ≡ parsed tt b k
unfolding need
need-some n b k h = ground arith

spend-some : (n : ℕ) (b : List ℕ) {k j : ℕ} → k ≡ n + j → spend n b k ≡ parsed tt b j
unfolding spend
spend-some n b e = ap (λ k. parsed tt b k) (omega arith)

read-some :
    {A : Type 0} (r : List ℕ → Option (A × List ℕ)) {a : A} {b c : List ℕ} (k : ℕ)
    → r b ≡ some (a, c)
    → read r b k ≡ parsed a c k
unfolding read
read-some r k e = rw (e, read)

in_uint16 : (n : ℕ) → n < 65536 → n % 65536 ≡ n
in_uint16 n h = omega arith

no_gap : (n : ℕ) → n < 65536 → n - n % 65536 ≡ 0
no_gap n h = omega arith

take_all : (xs : List ℕ) → take (length xs) xs ≡ xs
take_all [] = refl
take_all (x ∷ xs) = ap (λ r. x ∷ r) (take_all xs)

-- What the words of a field hold.
abbrev pub FieldInRange : Field → Type 0
FieldInRange f =
    (f.field_type < 4294967296) × (f.field_length < 4294967296) × (length f.field_name < 65536)

abbrev pub FieldsInRange : List Field → Type 0
FieldsInRange [] = Unit {0}
FieldsInRange (f ∷ fs) = FieldInRange f × FieldsInRange fs

-- What the words of a type hold.
abbrev pub InRange : MessageType → Type 0
InRange t =
    (t.super_size < 65536)
    × (t.id < 4294967296)
    × (length t.name < 65536)
    × (length t.fields < 65536)
    × FieldsInRange t.fields

field_bytes : Field → ℕ
field_bytes f = 10 + length f.field_name

-- The name and the rest of it all.
read_name :
    {A : Type 0} (name rest : List ℕ) (extra : ℕ) (f : List ℕ → P A)
    → (need (length name) >> (spend (length name) >> (read (read_bytes (length name)) >>= f)))
        (name ++ rest)
        (length name + extra)
      ≡ f name rest extra
read_name name rest extra f =
    bind_parsed (need (length name)) _ (need-some (length name) _ _ (omega arith))
    ∙ bind_parsed (spend (length name)) _ (spend-some (length name) _ refl)
    ∙ bind_parsed (read (read_bytes (length name))) f
        (read-some (read_bytes (length name)) extra (read_bytes-append name rest))

read_length_some :
    (v : ℕ) (r : List ℕ) (k : ℕ)
    → v < 4294967296
    → read_length true (be32 v ++ r) (4 + k) ≡ parsed v r k
unfolding read_length
read_length_some v r k h =
    bind_parsed (read read_be32) _ (read-some read_be32 _ (read_be32-be32 v r h))
    ∙ bind_parsed (spend 4) _ (spend-some 4 _ refl)

deserialize_field_bytes :
    (f : Field) (rest : List ℕ) (extra : ℕ)
    → FieldInRange f
    → deserialize_field true
        (be32 f.field_type
          ++ (be32 f.field_length ++ (be16 (length f.field_name) ++ (f.field_name ++ rest))))
        (10 + (length f.field_name + extra))
      ≡ parsed f rest extra
unfolding deserialize_field
deserialize_field_bytes f rest extra h =
    bind_parsed (need 10) _ (need-some 10 _ _ (omega arith))
    ∙ bind_parsed (spend 6) _ (spend-some 6 _ {j = 4 + (length f.field_name + extra)} (omega arith))
    ∙ bind_parsed (read read_be32) _ (read-some read_be32 _ (read_be32-be32 f.field_type _ h.0))
    ∙ bind_parsed (read_length true) _ (read_length_some f.field_length _ _ h.1)
    ∙ bind_parsed (read read_be16) _
        (read-some read_be16 _ (read_be16-be16 (length f.field_name) _ h.2))
    ∙ read_name f.field_name rest extra _

-- A field in range, as `Serialize` writes it.
serialize_field-append :
    (f : Field) (rest : List ℕ)
    → FieldInRange f
    → serialize_field f ++ rest
      ≡ be32 f.field_type
        ++ (be32 f.field_length ++ (be16 (length f.field_name) ++ (f.field_name ++ rest)))
serialize_field-append f rest h =
    ap
      (λ k. be32 f.field_type ++ (be32 f.field_length ++ (be16 k ++ (take k f.field_name ++ rest))))
      (in_uint16 (length f.field_name) h.2)
    ∙ ap
        (λ n.
          be32 f.field_type ++ (be32 f.field_length ++ (be16 (length f.field_name) ++ (n ++ rest))))
        (take_all f.field_name)

regroup : (a b c : ℕ) → 10 + (a + b) + c ≡ 10 + (a + (b + c))
regroup a b c = omega arith

abbrev pub fields_bytes : List Field → ℕ
fields_bytes [] = 0
fields_bytes (f ∷ fs) = 10 + (length f.field_name + fields_bytes fs)

deserialize_fields_bytes :
    (fs : List Field) (rest : List ℕ) (extra : ℕ)
    → FieldsInRange fs
    → deserialize_fields true (length fs) (serialize_fields fs ++ rest) (fields_bytes fs + extra)
      ≡ parsed fs rest extra
unfolding deserialize_fields serialize_fields
deserialize_fields_bytes [] rest extra h = ap (λ n. parsed [] rest n) (omega arith)
deserialize_fields_bytes (f ∷ fs) rest extra h =
    ap₂ (λ b n. deserialize_fields true (suc (length fs)) b n)
      (append_assoc (serialize_field f) (serialize_fields fs) rest
        ∙ serialize_field-append f (serialize_fields fs ++ rest) h.0)
      (regroup (length f.field_name) (fields_bytes fs) extra)
    ∙ bind_parsed (deserialize_field true) _
        (deserialize_field_bytes f (serialize_fields fs ++ rest) (fields_bytes fs + extra) h.0)
    ∙ bind_parsed (deserialize_fields true (length fs)) _
        (deserialize_fields_bytes fs rest extra h.1)

-- The bytes of a type in range.
abbrev pub type_bytes : MessageType → ℕ
type_bytes t = 10 + (length t.name + fields_bytes t.fields)

serialized-append :
    (gap : ℕ → List ℕ) (t : MessageType) (rest : List ℕ)
    → InRange t
    → gap 0 ≡ []
    → serialized gap t ++ rest
      ≡ be16 t.super_size
        ++ (be32 t.id
            ++ (be16 (length t.name)
                ++ (be16 (length t.fields) ++ (t.name ++ (serialize_fields t.fields ++ rest)))))
unfolding serialized
serialized-append gap t rest h g =
    ap₂ (λ n k. head_bytes n ++ ((take n t.name ++ (gap k ++ serialize_fields t.fields)) ++ rest))
      (in_uint16 (length t.name) h.2) (no_gap (length t.name) h.2)
    ∙ ap₂ (λ n x. head_bytes (length t.name) ++ ((n ++ (x ++ serialize_fields t.fields)) ++ rest))
        (take_all t.name) g
    ∙ ap (λ x. head_bytes (length t.name) ++ x)
        (append_assoc t.name (serialize_fields t.fields) rest)
  where
    head_bytes : ℕ → List ℕ
    head_bytes n = be16 t.super_size ++ (be32 t.id ++ (be16 n ++ be16 (length t.fields)))

deserialize-serialized :
    (gap : ℕ → List ℕ) (t : MessageType) (rest : List ℕ) (extra : ℕ)
    → InRange t
    → gap 0 ≡ []
    → deserialize true (serialized gap t ++ rest) (type_bytes t + extra) ≡ parsed t rest extra
unfolding deserialize
deserialize-serialized gap t rest extra h g =
    ap₂ (λ b n. deserialize true b n) (serialized-append gap t rest h g)
      (regroup (length t.name) (fields_bytes t.fields) extra)
    ∙ bind_parsed (need 10) _ (need-some 10 _ _ (omega arith))
    ∙ bind_parsed (spend 10) _ (spend-some 10 _ refl)
    ∙ bind_parsed (read read_be16) _ (read-some read_be16 _ (read_be16-be16 t.super_size _ h.0))
    ∙ bind_parsed (read read_be32) _ (read-some read_be32 _ (read_be32-be32 t.id _ h.1))
    ∙ bind_parsed (read read_be16) _ (read-some read_be16 _ (read_be16-be16 (length t.name) _ h.2))
    ∙ bind_parsed (read read_be16) _
        (read-some read_be16 _ (read_be16-be16 (length t.fields) _ h.3))
    ∙ read_name t.name _ _ _
    ∙ bind_parsed (deserialize_fields true (length t.fields)) _
        (deserialize_fields_bytes t.fields rest extra h.4)

length-serialize_fields :
    (fs : List Field) → FieldsInRange fs → length (serialize_fields fs) ≡ fields_bytes fs
unfolding serialize_fields
length-serialize_fields [] h = refl
length-serialize_fields (f ∷ fs) h =
    ap length (serialize_field-append f (serialize_fields fs) h.0)
    ∙ omega
        (arith, length-append f.field_name (serialize_fields fs), length-serialize_fields fs h.1)

length-serialized :
    (gap : ℕ → List ℕ) (t : MessageType)
    → InRange t
    → gap 0 ≡ []
    → length (serialized gap t) ≡ type_bytes t
length-serialized gap t h g =
    ap length (sym (append-nil (serialized gap t)))
    ∙ ap length (serialized-append gap t [] h g)
    ∙ omega (
      arith,
      length-append t.name (serialize_fields t.fields ++ []),
      length-append (serialize_fields t.fields) [],
      length-serialize_fields t.fields h.4,
    )

fields_size-fields_bytes :
    (acc : ℕ) (fs : List Field)
    → acc + fields_bytes fs < 65536
    → fields_size acc fs ≡ acc + fields_bytes fs
unfolding fields_size
fields_size-fields_bytes acc [] h = omega arith
fields_size-fields_bytes acc (f ∷ fs) h =
    ap (λ a. fields_size a fs) (in_uint16 (acc + 10 + length f.field_name) (omega arith))
    ∙ fields_size-fields_bytes (acc + 10 + length f.field_name) fs (omega arith)
    ∙ omega arith

-- For a type whose members fit their words, and whose fields take less than 2 ^ 16 bytes in all,
-- given room for it: `Serialize` writes exactly as many bytes as the type takes, and `Deserialize`
-- with lengths, of those bytes and whatever follows them, returns the type, and leaves the pointer
-- and the count of bytes at what follows.
pub serialize-deserialize :
    (gap : ℕ → List ℕ) (t : MessageType) (max_bytes : ℕ) (rest : List ℕ) (extra : ℕ)
    → InRange t
    → gap 0 ≡ []
    → fields_bytes t.fields < 65536
    → type_bytes t ≤ max_bytes
    → (bytes : List ℕ) × (serialize gap t max_bytes ≡ some bytes)
      × (length bytes ≡ type_bytes t)
      × (deserialize true (bytes ++ rest) (type_bytes t + extra) ≡ parsed t rest extra)
unfolding serialize
serialize-deserialize gap t max_bytes rest extra h g small room = (
  serialized gap t,
  ground (arith, fields_size-fields_bytes 0 t.fields (omega arith)),
  length-serialized gap t h g,
  deserialize-serialized gap t rest extra h g,
)
