-- ===== src/MessageType/Tests.antt =====
-- The type of a message with a number and a text in it.
use miranda_dashboard.Base.{
  ℕ, ◌+◌, ◌≡◌, ◌≢◌, refl, List, [], ◌∷◌, ◌++◌, some, true, false, arith, length,
}
use miranda_dashboard.MessageType.{MessageType, Field, overread, parsed, serialize, deserialize}
use miranda_dashboard.MessageType.RoundTrip.{type_bytes, serialize-deserialize}
use miranda_dashboard.MessageType.Safety.{deserialize-no_overread}

abbrev number : Field
number = record { field_type = 0x2004; field_length = 4; field_name = 120 ∷ 121 ∷ [] }

abbrev text : Field
text = record { field_type = 70000; field_length = 300; field_name = 116 ∷ [] }

abbrev sample : MessageType
sample = record { super_size = 300; id = 0x10203; name = 77 ∷ []; fields = number ∷ text ∷ [] }

abbrev no_gap : ℕ → List ℕ
no_gap n = []

serialize-deserialize_example :
    (bytes : List ℕ) × (serialize no_gap sample 64 ≡ some bytes)
    × (length bytes ≡ type_bytes sample)
    × (deserialize true (bytes ++ (9 ∷ [])) (type_bytes sample + 1) ≡ parsed sample (9 ∷ []) 1)
serialize-deserialize_example =
    serialize-deserialize no_gap sample 64 (9 ∷ []) 1
      (
        omega arith,
        omega arith,
        omega arith,
        omega arith,
        ((omega arith, omega arith, omega arith), ((omega arith, omega arith, omega arith), tt)),
      )
      refl (omega arith) (omega arith)

-- A name that claims to be longer than the buffer.
abbrev truncated : List ℕ
truncated = 0 ∷ 4 ∷ 0 ∷ 0 ∷ 0 ∷ 9 ∷ 255 ∷ 255 ∷ 0 ∷ 1 ∷ 77 ∷ []

deserialize-no_overread_example : deserialize false truncated 11 ≢ overread
deserialize-no_overread_example = deserialize-no_overread false truncated 11 (omega arith)
