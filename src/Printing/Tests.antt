-- ===== src/Printing/Tests.antt =====
-- aos/common/queue_types.cc: a message with an array and another message in it, printed.
use miranda_dashboard.Base.{
  ℕ, ◌+◌, ◌-◌, ◌*◌, ◌≤◌, ◌≡◌, inl, inr, refl, arith, Bool, ◌||◌, leb, ◌==◌, if◌then◌else◌, Option,
  none, some, List, [], ◌∷◌, length,
}
use miranda_dashboard.MessageType.{MessageType, is_primitive, size_of}
use miranda_dashboard.Printing.{
  not_printed, died, printed, Printer, FieldPrinter, print_array, print_message, print_matrix,
}
use miranda_dashboard.Printing.Texts.{
  message_text, message_size, array_text, value_text, value_size, Nests,
}
use miranda_dashboard.Printing.Emits.{printed_text}
use miranda_dashboard.Printing.Messages.{print_message_lem, print_array_lem}
use miranda_dashboard.Printing.Matrix.{matrix_text, print_matrix_lem}

-- Two of the cases that aos/build/queues/print_field.rb generates: that of a bool, which writes one
-- character if there is room for it, and that of a char, which `snprintf` writes with a '\0'.
abbrev bool_type : ℕ
bool_type = 0x12001

abbrev char_type : ℕ
char_type = 0x22001

abbrev is_char : ℕ → Bool
is_char type_id = type_id == 0x22001

abbrev is_bool : ℕ → Bool
is_bool type_id = type_id == 0x12001

abbrev one_char : ℕ → List ℕ → List ℕ
one_char type_id [] = b'f' ∷ []
one_char type_id (x ∷ xs) = (if is_char type_id then x else if x == 0 then b'f' else b'T') ∷ []

abbrev print_one : ℕ → Printer
print_one type_id output_bytes input input_bytes =
    if is_char type_id || is_bool type_id
    then (if leb (1 + (if is_char type_id then 1 else 0)) output_bytes
        then printed (record {
          chars = one_char type_id input;
          output_bytes = output_bytes - 1;
          input_bytes = input_bytes - size_of type_id;
        })
        else not_printed)
    else not_printed

one_long : (type_id : ℕ) (input : List ℕ) → length (one_char type_id input) ≡ 1
one_long type_id [] = refl
one_long type_id (x ∷ xs) = refl

at_most_one : (type_id : ℕ) → (if is_char type_id then 1 else 0) ≤ 1
at_most_one type_id = ground arith

abbrev chars : FieldPrinter
chars = record {
  print_field = print_one;
  knows = λ type_id. is_char type_id || is_bool type_id;
  field_text = one_char;
  spare = λ type_id. if is_char type_id then 1 else 0;
  spare_le = at_most_one;
  prints =
      λ type_id output_bytes input input_bytes known h. rw (known, one_long type_id input) refl;
}

abbrev inner : MessageType
inner = record {
  super_size = 0;
  id = 5;
  name = b'I' ∷ [];
  fields = record { field_type = bool_type; field_length = 0; field_name = b'c' ∷ [] } ∷ [];
}

abbrev outer : MessageType
outer = record {
  super_size = 2;
  id = 6;
  name = b'T' ∷ [];
  fields =
      record { field_type = char_type; field_length = 2; field_name = b'a' ∷ [] }
      ∷ record { field_type = 5; field_length = 0; field_name = b'b' ∷ [] }
      ∷ [];
}

abbrev cached : ℕ → Option MessageType
cached type_id = if type_id == 5 then some inner else none

abbrev message : List ℕ
message = 9 ∷ 9 ∷ b'1' ∷ b'2' ∷ 3 ∷ []

-- `T{a:[1, 2], b:I{c:T}}`
outer_text :
    message_text chars cached 2 outer message
    ≡ b'T' ∷ b'{' ∷ b'a' ∷ b':' ∷ b'[' ∷ b'1' ∷ b',' ∷ b' ' ∷ b'2' ∷ b']' ∷ b',' ∷ b' ' ∷ b'b'
      ∷ b':' ∷ b'I' ∷ b'{' ∷ b'c' ∷ b':' ∷ b'T' ∷ b'}' ∷ b'}' ∷ []
unfolding is_primitive size_of
outer_text = refl

outer-Nests : Nests chars cached 2 outer
unfolding is_primitive
outer-Nests = (inl (refl, refl), (inr (refl, inner, refl, (inl (refl, refl), tt)), tt))

print_message_lem_example :
    print_message chars cached 2 outer 22 message 5
    ≡ printed_text 22
        (message_text chars cached 2 outer message)
        5
        (message_size chars cached 2 outer)
unfolding is_primitive size_of
print_message_lem_example =
    print_message_lem chars cached 2 outer 22 message 5 outer-Nests (omega arith) (omega arith)

no_room : print_message chars cached 2 outer 21 message 5 ≡ not_printed
unfolding print_message size_of
no_room = refl

print_array_lem_example :
    print_array chars cached (print_message chars cached 1) 5 2 20 message 5
    ≡ printed_text 20
        (array_text
          (value_text chars cached (message_text chars cached 1) 5)
          (value_size chars cached (message_size chars cached 1) 5)
          2
          message)
        5
        (2 * value_size chars cached (message_size chars cached 1) 5)
unfolding is_primitive size_of
print_array_lem_example =
    print_array_lem chars cached 1 5 2 20 message 5
      (inr (refl, inner, refl, (inl (refl, refl), tt))) (omega arith) (omega arith)

-- Two rows, stored by columns.
matrix_rows :
    matrix_text chars char_type 2 2 (b'1' ∷ b'3' ∷ b'2' ∷ b'4' ∷ [])
    ≡ b'[' ∷ b'[' ∷ b'1' ∷ b',' ∷ b' ' ∷ b'2' ∷ b']' ∷ b',' ∷ b' ' ∷ b'[' ∷ b'3' ∷ b',' ∷ b' '
      ∷ b'4' ∷ b']' ∷ b']' ∷ []
unfolding is_primitive size_of
matrix_rows = refl

print_matrix_lem_example : print_matrix chars char_type 2 2 20 (b'1' ∷ b'3' ∷ b'2' ∷ b'4' ∷ []) ≡ (
    if is_primitive char_type
    then printed_text 20 (matrix_text chars char_type 2 2 (b'1' ∷ b'3' ∷ b'2' ∷ b'4' ∷ [])) 0 0
    else died)
print_matrix_lem_example =
    print_matrix_lem chars char_type 2 2 20 (b'1' ∷ b'3' ∷ b'2' ∷ b'4' ∷ []) (inr refl)
