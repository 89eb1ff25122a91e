-- ===== src/MessageType.antt =====
-- aos/common/queue_types.{h,cc}: `MessageType`, its serialized form and the ids of types.
pub mod RoundTrip
pub mod Safety
mod Tests
use Prim.Native.Nat.{bit_and}
use miranda_dashboard.Base.{
  ℕ, zero, suc, ◌+◌, ◌-◌, ◌%◌, ◌^◌, List, [], ◌∷◌, ◌++◌, Option, none, some, Bool, true, false, not,
  ◌==◌, if◌then◌else◌, ltb, length, take,
}
use miranda_dashboard.Base.Bytes.{be16, be32, read_be16, read_be32, read_bytes}

-- `MessageType::Field`
pub record Field : Type 0 where
  pub field_type : ℕ
  pub field_length : ℕ
  pub field_name : List ℕ

pub record MessageType : Type 0 where
  pub super_size : ℕ
  pub id : ℕ
  pub name : List ℕ
  pub fields : List Field

unfoldable pub is_primitive : ℕ → Bool
is_primitive type_id = not (bit_and type_id 0x2000 == 0)

-- `unsigned int` subtraction wraps.
unfoldable pub size_of : ℕ → ℕ
unfolding is_primitive
size_of type_id =
    if is_primitive type_id
    then (bit_and type_id 0xFFFF + 2 ^ 32 - 0x2000) % 2 ^ 32
    else bit_and type_id 0xFFFF

-- `fields_size`, a `uint16_t`.
unfoldable pub fields_size : ℕ → List Field → ℕ
fields_size acc [] = acc
fields_size acc (f ∷ fs) = fields_size ((acc + 10 + length f.field_name) % 65536) fs

abbrev pub serialize_field : Field → List ℕ
serialize_field f =
    be32 f.field_type
    ++ (be32 f.field_length
        ++ (be16 (length f.field_name % 65536) ++ take (length f.field_name % 65536) f.field_name))

unfoldable pub serialize_fields : List Field → List ℕ
serialize_fields [] = []
serialize_fields (f ∷ fs) = serialize_field f ++ serialize_fields fs

-- What `Serialize` writes. A name of 2 ^ 16 bytes or more leaves a gap of bytes that `gap` gives.
unfoldable pub serialized : (ℕ → List ℕ) → MessageType → List ℕ
serialized gap t =
    be16 t.super_size
    ++ (be32 t.id
        ++ (be16 (length t.name % 65536)
            ++ (be16 (length t.fields)
                ++ (take (length t.name % 65536) t.name
                    ++ (gap (length t.name - length t.name % 65536)
                        ++ serialize_fields t.fields)))))

-- `Serialize`; `none` is -1.
unfoldable pub serialize : (ℕ → List ℕ) → MessageType → ℕ → Option (List ℕ)
serialize gap t max_bytes =
    if ltb max_bytes (10 + length t.name + fields_size 0 t.fields)
    then none
    else some (serialized gap t)

-- `overread` is a read past the end of the buffer, `null` the return of nullptr. The result comes
-- with what is left of the buffer and of `*bytes`.
pub data Parsed (A : Type 0) : Type 0 where
  overread null : Parsed A
  parsed : A → List ℕ → ℕ → Parsed A

-- The parser's state is the buffer pointer and `*bytes`.
abbrev pub P : Type 0 → Type 0
P A = List ℕ → ℕ → Parsed A

infixl 5 ◌>>=◌ ◌>>◌
abbrev pub ◌>>=◌ : {A B : Type 0} → P A → (A → P B) → P B
◌>>=◌ parser rest buffer bytes = elim (parser buffer bytes) [
  | overread ↦ overread
  | null ↦ null
  | parsed a buffer' bytes' ↦ rest a buffer' bytes'
]

abbrev pub ◌>>◌ : {B : Type 0} → P (Unit {0}) → P B → P B
parser >> rest = parser >>= λ done. rest

abbrev pub pure : {A : Type 0} → A → P A
pure a buffer bytes = parsed a buffer bytes

-- `if (*bytes < n) return nullptr;`
unfoldable pub need : ℕ → P (Unit {0})
need n buffer bytes = if ltb bytes n then null else parsed tt buffer bytes

-- `*bytes -= n`
unfoldable pub spend : ℕ → P (Unit {0})
spend n buffer bytes = parsed tt buffer (bytes - n)

-- A read that moves the buffer pointer.
unfoldable pub read : {A : Type 0} → (List ℕ → Option (A × List ℕ)) → P A
read reader buffer bytes = elim (reader buffer) [
  | none ↦ overread
  | some (a, rest) ↦ parsed a rest bytes
]

-- `deserialize_length ? sizeof(length) : 0`
abbrev pub length_size : Bool → ℕ
length_size b = if b then 4 else 0

-- Reads the length of a field, if there is one; a new field has 0.
unfoldable pub read_length : Bool → P ℕ
read_length true = do n ← read read_be32; spend 4; pure n
read_length false = pure 0

-- One round of the loop of `Deserialize`.
unfoldable pub deserialize_field : Bool → P Field
deserialize_field lengths = do
  need (6 + length_size lengths)
  spend 6
  type ← read read_be32
  n ← read_length lengths
  name_length ← read read_be16
  need name_length
  spend name_length
  name ← read (read_bytes name_length)
  pure (record { field_type = type; field_length = n; field_name = name })

unfoldable pub deserialize_fields : Bool → ℕ → P (List Field)
deserialize_fields lengths zero = pure []
deserialize_fields lengths (suc n) = do
  f ← deserialize_field lengths
  fs ← deserialize_fields lengths n
  pure (f ∷ fs)

-- `Deserialize`
unfoldable pub deserialize : Bool → P MessageType
deserialize lengths = do
  need 10
  spend 10
  super_size ← read read_be16
  id ← read read_be32
  name_length ← read read_be16
  number_fields ← read read_be16
  need name_length
  spend name_length
  name ← read (read_bytes name_length)
  fields ← deserialize_fields lengths number_fields
  pure (record { super_size = super_size; id = id; name = name; fields = fields })
