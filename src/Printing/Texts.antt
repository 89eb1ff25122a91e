-- ===== src/Printing/Texts.antt =====
-- aos/common/queue_types.cc: the text of a message, as the printers are to write it, and how many
-- bytes of the input it is about.
use miranda_dashboard.Base.{
  ℕ, zero, suc, ◌+◌, ◌*◌, ◌≡◌, ◌⊎◌, Bool, true, false, ltb, if◌then◌else◌, Option, none, some, List,
  [], ◌∷◌, ◌++◌, drop,
}
use miranda_dashboard.MessageType.{Field, MessageType, is_primitive, size_of}
use miranda_dashboard.Printing.{FieldPrinter}
use miranda_dashboard.Printing.Parts.{separator}

-- `]` after so many values, with `", "` between them.
abbrev pub elements_text : (List ℕ → List ℕ) → ℕ → ℕ → Bool → List ℕ → List ℕ
elements_text text size zero first input = b']' ∷ []
elements_text text size (suc n) first input =
    separator first ++ (text input ++ elements_text text size n false (drop size input))

abbrev pub array_text : (List ℕ → List ℕ) → ℕ → ℕ → List ℕ → List ℕ
array_text text size n input = b'[' ∷ elements_text text size n true input

module _ (field : FieldPrinter) (get : ℕ → Option MessageType) where
  open field use {knows, field_text}

  -- Texts and sizes of values, by those of messages.
  abbrev pub value_text : (MessageType → List ℕ → List ℕ) → ℕ → List ℕ → List ℕ
  value_text message type_id input =
      if is_primitive type_id
      then field_text type_id input
      else elim (get type_id) [ none ↦ [] | some t ↦ message t input ]

  abbrev pub value_size : (MessageType → ℕ) → ℕ → ℕ
  value_size message type_id =
      if is_primitive type_id
      then size_of type_id
      else elim (get type_id) [ none ↦ 0 | some t ↦ message t ]

  abbrev pub field_value_text :
      (MessageType → List ℕ → List ℕ) → (MessageType → ℕ) → Field → List ℕ → List ℕ
  field_value_text message size f input =
      if ltb 0 f.field_length
      then array_text (value_text message f.field_type) (value_size size f.field_type)
          f.field_length input
      else value_text message f.field_type input

  abbrev pub field_value_size : (MessageType → ℕ) → Field → ℕ
  field_value_size size f =
      if ltb 0 f.field_length
      then f.field_length * value_size size f.field_type
      else value_size size f.field_type

  -- `}` after the fields.
  abbrev pub fields_text :
      (MessageType → List ℕ → List ℕ) → (MessageType → ℕ) → List Field → Bool → List ℕ → List ℕ
  fields_text message size [] first input = b'}' ∷ []
  fields_text message size (f ∷ fs) first input =
      separator first
      ++ (f.field_name
          ++ (b':'
              ∷ (field_value_text message size f input
                  ++ fields_text message size fs false (drop (field_value_size size f) input))))

  abbrev pub all_fields_size : (MessageType → ℕ) → List Field → ℕ
  all_fields_size size [] = 0
  all_fields_size size (f ∷ fs) = field_value_size size f + all_fields_size size fs

  -- A message, whose types nest in so many levels.
  abbrev pub message_size : ℕ → MessageType → ℕ
  message_size zero t = 0
  message_size (suc levels) t = t.super_size + all_fields_size (message_size levels) t.fields

  abbrev pub message_text : ℕ → MessageType → List ℕ → List ℕ
  message_text zero t input = []
  message_text (suc levels) t input =
      t.name
      ++ (b'{'
          ∷ fields_text (message_text levels) (message_size levels) t.fields true
              (drop t.super_size input))

  -- A primitive type that PrintField knows, or a type that the type cache has.
  abbrev pub IsKnown : (MessageType → Type 0) → ℕ → Type 0
  IsKnown P type_id =
      ((is_primitive type_id ≡ true) × (knows type_id ≡ true))
      ⊎ ((is_primitive type_id ≡ false) × (t : MessageType) × (get type_id ≡ some t) × P t)

  abbrev pub AreKnown : (MessageType → Type 0) → List Field → Type 0
  AreKnown P [] = Unit {0}
  AreKnown P (f ∷ fs) = IsKnown P f.field_type × AreKnown P fs

  -- The type cache has the types of the fields, and of their fields, and these nest in fewer levels.
  abbrev pub Nests : ℕ → MessageType → Type 0
  Nests zero t = ⊥
  Nests (suc levels) t = AreKnown (Nests levels) t.fields
