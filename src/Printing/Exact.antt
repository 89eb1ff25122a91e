-- ===== src/Printing/Exact.antt =====
-- aos/common/queue_types.cc: the printers of arrays and of the fields of a message, by that of the
-- messages in them.
use miranda_dashboard.Base.{
  ℕ, ◌+◌, ◌-◌, ◌*◌, ◌≤◌, ◌≡◌, inl, inr, refl, sym, ap, ◌∙◌, arith, Bool, true, false, Bool-cases,
  ltb, leb, if◌then◌else◌, Option, List, [], ◌∷◌, ◌++◌, length, drop, append-nil,
}
use miranda_dashboard.MessageType.{Field, MessageType, is_primitive, size_of}
use miranda_dashboard.Printing.{
  not_printed, printed, ◌>>=◌, Printer, put, separate, FieldPrinter, print_value, print_elements,
  print_array, print_field_value, print_fields,
}
use miranda_dashboard.Printing.Emits.{Emits, Exact, Roomy, Emits-then, Emits-same, Exact-finish}
use miranda_dashboard.Printing.Parts.{
  put-Emits, separate-Emits, separator, nested-Roomy, nested-Emits,
}
use miranda_dashboard.Printing.Texts.{
  elements_text, array_text, value_text, value_size, field_value_text, field_value_size,
  fields_text, all_fields_size, IsKnown, AreKnown,
}
use miranda_dashboard.Printing.Loops.{
  le_two, last_two, print_elements-Emits, fields_end, fields_close,
}

module _ (field : FieldPrinter) (get : ℕ → Option MessageType) where
  open field use {print_field, knows, field_text, spare, spare_le, prints}

  -- A printer of messages, and the texts and sizes that it prints.
  module _ (message : MessageType → Printer) (text : MessageType → List ℕ → List ℕ)
      (size : MessageType → ℕ) where
    abbrev pub Prints : MessageType → Type 0
    Prints t = Exact (message t) (λ input. text t input ++ (0 ∷ [])) (size t)

    abbrev slack_of : ℕ → ℕ
    slack_of type_id = if is_primitive type_id then 0 + spare type_id else 1

    slack_le : (type_id : ℕ) → slack_of type_id ≤ 2
    slack_le type_id = ground (arith, spare_le type_id)

    field-Roomy :
        (type_id : ℕ)
        → knows type_id ≡ true
        → Roomy
            (print_field type_id)
            (λ input. field_text type_id input ++ [])
            (size_of type_id)
            (spare type_id)
    field-Roomy type_id known o input i h few =
        prints type_id o input i known h
        ∙ ap
            (λ c.
              if leb (length c + spare type_id) o
              then printed (record {
                chars = c;
                output_bytes = o - length c;
                input_bytes = i - size_of type_id;
              })
              else not_printed)
            (sym (append-nil (field_text type_id input)))

    print_value-Emits :
        (type_id : ℕ)
        → IsKnown field get Prints type_id
        → Emits
            (print_value field get message type_id)
            (value_text field get text type_id)
            (value_size field get size type_id)
            (slack_of type_id)
    unfolding print_value
    print_value-Emits type_id (inl (e, known)) = rw e (
        nested-Roomy (print_field type_id) (field_text type_id) [] (size_of type_id) (spare type_id)
          (field-Roomy type_id known))
    print_value-Emits type_id (inr (e, t, g, h)) =
        rw (e, g) (nested-Emits (message t) (text t) (size t) h)

    pub print_array-Exact :
        (type_id n : ℕ)
        → IsKnown field get Prints type_id
        → Exact
            (print_array field get message type_id n)
            (λ input.
              array_text
                (value_text field get text type_id)
                (value_size field get size type_id)
                n
                input
              ++ (0 ∷ []))
            (n * value_size field get size type_id)
    unfolding print_array
    print_array-Exact type_id n h =
        let value = value_text field get text type_id in
        let size_each = value_size field get size type_id in
        let chars = λ (input : List ℕ). array_text value size_each n input ++ (0 ∷ []) in
        let values = print_elements field get (print_value field get message type_id) n true in
        Exact-finish (λ s. put (b'[' ∷ []) s >>= values) chars (n * size_each)
          (Emits-same (λ s. put (b'[' ∷ []) s >>= values) chars chars (0 + n * size_each)
            (n * size_each) 0 (λ input. refl) (omega arith)
            (Emits-then (put (b'[' ∷ [])) values (λ input. b'[' ∷ [])
              (λ input. elements_text value size_each n true input ++ (0 ∷ [])) 0 (n * size_each) 0
              0 (put-Emits (b'[' ∷ []))
              (print_elements-Emits field get (print_value field get message type_id) value
                size_each (slack_of type_id) n true (slack_le type_id)
                (print_value-Emits type_id h))
              (λ input. omega arith)))

    abbrev field_slack : Field → ℕ
    field_slack f = if ltb 0 f.field_length then 1 else slack_of f.field_type

    print_field_value-Emits :
        (f : Field)
        → IsKnown field get Prints f.field_type
        → Emits
            (print_field_value field get message f)
            (field_value_text field get text size f)
            (field_value_size field get size f)
            (field_slack f)
    unfolding print_field_value
    print_field_value-Emits f h = elim (Bool-cases (ltb 0 f.field_length)) [
      | inl e ↦ rw e (
          nested-Emits (print_array field get message f.field_type f.field_length)
            (array_text (value_text field get text f.field_type)
              (value_size field get size f.field_type) f.field_length)
            (f.field_length * value_size field get size f.field_type)
            (print_array-Exact f.field_type f.field_length h))
      | inr e ↦ rw e (print_value-Emits f.field_type h)
    ]

    field_slack_le : (f : Field) → field_slack f ≤ 2
    field_slack_le f = ground (arith, slack_le f.field_type)

    pub print_fields-Emits :
        (fs : List Field) (first : Bool)
        → AreKnown field get Prints fs
        → Emits
            (print_fields field get message fs first)
            (λ input. fields_text field get text size fs first input ++ (0 ∷ []))
            (all_fields_size field get size fs)
            0
    unfolding print_fields
    print_fields-Emits [] first h = put-Emits (b'}' ∷ 0 ∷ [])
    print_fields-Emits (f ∷ fs) first (h, hs) =
        let name = f.field_name ++ (b':' ∷ []) in
        let value = print_field_value field get message f in
        let value_chars = field_value_text field get text size f in
        let rest_chars =
          λ (input : List ℕ). fields_text field get text size fs false input ++ (0 ∷ []) in
        let n = field_value_size field get size f in
        Emits-same (print_fields field get message (f ∷ fs) first)
          (λ input.
            separator first ++ name ++ value_chars input ++ rest_chars (drop (0 + 0 + n) input))
          (λ input. fields_text field get text size (f ∷ fs) first input ++ (0 ∷ []))
          (0 + 0 + n + all_fields_size field get size fs) (all_fields_size field get size (f ∷ fs))
          0 (λ input. fields_close field get text size f fs first input) (omega arith)
          (Emits-then (λ s. separate first s >>= put name >>= value)
            (print_fields field get message fs false)
            (λ input. separator first ++ name ++ value_chars input) rest_chars (0 + 0 + n)
            (all_fields_size field get size fs) (field_slack f) 0
            (Emits-then (λ s. separate first s >>= put name) value
              (λ input. separator first ++ name) value_chars 0 n 0 (field_slack f)
              (Emits-then (separate first) (put name) (λ input. separator first) (λ input. name) 0 0
                0 0 (separate-Emits first) (put-Emits name) (λ input. omega arith))
              (print_field_value-Emits f h) (λ input. omega arith))
            (print_fields-Emits fs false hs)
            (λ input.
              le_two (field_slack f) _ (field_slack_le f)
                (last_two _ (fields_end field get text size fs false input))))
