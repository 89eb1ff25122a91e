-- ===== src/Printing.antt =====
-- aos/common/queue_types.cc: PrintArray, PrintMessage and PrintMatrix, that write the text of a
-- message into a buffer. PrintField, which the build generates, and the type cache are parameters;
-- a type is followed through as many levels as its fields nest. A pointer into the output is what
-- is written before it, and a pointer into the input is what comes after it.
pub mod Emits
pub mod Parts
pub mod Texts
pub mod Loops
pub mod Exact
pub mod Messages
pub mod Matrix
mod Tests
use miranda_dashboard.Base.{
  ℕ, zero, suc, ◌+◌, ◌-◌, ◌*◌, ◌%◌, ◌^◌, ◌≤◌, ◌≡◌, Bool, true, false, ltb, leb, ◌==◌, if◌then◌else◌,
  Option, none, some, List, [], ◌∷◌, ◌++◌, length, take, drop,
}
use miranda_dashboard.MessageType.{Field, MessageType, is_primitive, size_of}

-- `not_printed` is `false`, `died` LOG(FATAL) or a failed CHECK; `too_deep` is not an outcome of
-- the source.
pub data Printed {ℓ} (A : Type ℓ) : Type ℓ where
  not_printed died too_deep : Printed A
  printed : A → Printed A

infixl 5 ◌>>=◌
abbrev pub ◌>>=◌ {ℓ κ} : {A : Type ℓ} {B : Type κ} → Printed A → (A → Printed B) → Printed B
not_printed >>= rest = not_printed
died >>= rest = died
too_deep >>= rest = too_deep
printed a >>= rest = rest a

-- What a call leaves: the characters that it wrote, `*output_bytes` and `*input_bytes`.
pub record Output : Type 0 where
  pub chars : List ℕ
  pub output_bytes : ℕ
  pub input_bytes : ℕ

-- A call with `*output_bytes`, the input and `*input_bytes`.
abbrev pub Printer : Type 0
Printer = ℕ → List ℕ → ℕ → Printed Output

-- The pointers and the counts within a call.
pub record State : Type 0 where
  pub written : List ℕ
  pub output_bytes : ℕ
  pub input : List ℕ
  pub input_bytes : ℕ

abbrev pub start : ℕ → List ℕ → ℕ → State
start output_bytes input input_bytes = record {
  written = [];
  output_bytes = output_bytes;
  input = input;
  input_bytes = input_bytes;
}

abbrev pub finish : State → Printed Output
finish s =
    printed
      (record { chars = s.written; output_bytes = s.output_bytes; input_bytes = s.input_bytes })

-- `if (*output_bytes < n) return false; *output_bytes -= n;`, and the writes of n characters.
unfoldable pub put : List ℕ → State → Printed State
put text s =
    if ltb s.output_bytes (length text)
    then not_printed
    else printed
        (record s { written = s.written ++ text; output_bytes = s.output_bytes - length text })

-- The start of PrintMessage; `size_t` wraps.
unfoldable pub skip : ℕ → State → State
skip super_size s = record s {
  input = drop super_size s.input;
  input_bytes = (s.input_bytes + 2 ^ 64 - super_size) % 2 ^ 64;
}

-- The update of the pointers after a call; `trailing` is 1 to ignore the '\0' that it put on.
unfoldable pub resume : ℕ → State → Output → State
resume trailing s o = record {
  written = s.written ++ take (s.output_bytes - (o.output_bytes + trailing)) o.chars;
  output_bytes = o.output_bytes + trailing;
  input = drop (s.input_bytes - o.input_bytes) s.input;
  input_bytes = o.input_bytes;
}

unfoldable pub nested : ℕ → Printer → State → Printed State
unfolding resume
nested trailing printer s =
    printer s.output_bytes s.input s.input_bytes >>= λ o. printed (resume trailing s o)

-- `", "`, but before the first.
unfoldable pub separate : Bool → State → Printed State
unfolding put
separate true s = printed s
separate false s = put (b',' ∷ b' ' ∷ []) s

-- PrintField, by the id of the type, of which it knows some. Of these it writes the text of the value at the start of the input, if the input has the bytes of the type and the
-- output has room for the text, and for the '\0' of `snprintf` too where it calls that.
pub record FieldPrinter : Type 0 where
  pub print_field : ℕ → Printer
  pub knows : ℕ → Bool
  pub field_text : ℕ → List ℕ → List ℕ
  pub spare : ℕ → ℕ
  pub spare_le : (type_id : ℕ) → spare type_id ≤ 1
  pub prints :
      (type_id output_bytes : ℕ) (input : List ℕ) (input_bytes : ℕ)
      → knows type_id ≡ true
      → size_of type_id ≤ input_bytes
      → print_field type_id output_bytes input input_bytes ≡ (
          if leb (length (field_text type_id input) + spare type_id) output_bytes
          then printed (record {
            chars = field_text type_id input;
            output_bytes = output_bytes - length (field_text type_id input);
            input_bytes = input_bytes - size_of type_id;
          })
          else not_printed)

module _ (field : FieldPrinter) (get : ℕ → Option MessageType) where
  open field use {print_field}

  -- A value of a type that is not an array; `message` prints a message.
  unfoldable pub print_value : (MessageType → Printer) → ℕ → State → Printed State
  unfolding nested is_primitive
  print_value message type_id s =
      if is_primitive type_id
      then nested 0 (print_field type_id) s
      else elim (get type_id) [ none ↦ died | some t ↦ nested 1 (message t) s ]

  -- The loop of PrintArray and what follows it.
  unfoldable pub print_elements : (State → Printed State) → ℕ → Bool → State → Printed State
  unfolding put separate
  print_elements value zero first s = put (b']' ∷ 0 ∷ []) s
  print_elements value (suc n) first s = separate first s >>= value >>= print_elements value n false

  unfoldable pub print_array : (MessageType → Printer) → ℕ → ℕ → Printer
  unfolding put print_elements print_value
  print_array message type_id count output_bytes input input_bytes =
      put (b'[' ∷ []) (start output_bytes input input_bytes)
      >>= print_elements (print_value message type_id) count true
      >>= finish

  -- One field, after its name.
  unfoldable pub print_field_value : (MessageType → Printer) → Field → State → Printed State
  unfolding nested print_array print_value
  print_field_value message f s =
      if ltb 0 f.field_length
      then nested 1 (print_array message f.field_type f.field_length) s
      else print_value message f.field_type s

  -- The loop of PrintMessage and what follows it.
  unfoldable pub print_fields : (MessageType → Printer) → List Field → Bool → State → Printed State
  unfolding put separate print_field_value
  print_fields message [] first s = put (b'}' ∷ 0 ∷ []) s
  print_fields message (f ∷ fs) first s =
      separate first s
      >>= put (f.field_name ++ (b':' ∷ []))
      >>= print_field_value message f
      >>= print_fields message fs false

  unfoldable pub print_message : ℕ → MessageType → Printer
  unfolding put skip print_fields
  print_message zero t output_bytes input input_bytes = too_deep
  print_message (suc levels) t output_bytes input input_bytes =
      put (t.name ++ (b'{' ∷ [])) (skip t.super_size (start output_bytes input input_bytes))
      >>= print_fields (print_message levels) t.fields true
      >>= finish

module _ (field : FieldPrinter) where
  open field use {print_field}

  -- An element of a matrix, that is stored by columns; CHECK_EQ on the bytes that are left.
  unfoldable pub print_element : ℕ → ℕ → State → Printed State
  unfolding size_of
  print_element type_id index s =
      print_field type_id s.output_bytes (drop (index * size_of type_id) s.input) (size_of type_id)
      >>= λ o.
          if o.input_bytes == 0
          then printed (record s {
            written = s.written ++ take (s.output_bytes - o.output_bytes) o.chars;
            output_bytes = o.output_bytes;
          })
          else died

  -- The loop over the columns from `col` on, and what follows it; then that over the rows.
  unfoldable pub print_columns : ℕ → ℕ → ℕ → ℕ → ℕ → Bool → State → Printed State
  unfolding put separate print_element
  print_columns type_id rows row col zero first s = put (b']' ∷ []) s
  print_columns type_id rows row col (suc n) first s =
      separate first s
      >>= print_element type_id (row + col * rows)
      >>= print_columns type_id rows row (col + 1) n false

  unfoldable pub print_rows : ℕ → ℕ → ℕ → ℕ → ℕ → Bool → State → Printed State
  unfolding put separate print_columns
  print_rows type_id rows cols row zero first s = put (b']' ∷ 0 ∷ []) s
  print_rows type_id rows cols row (suc n) first s =
      separate first s
      >>= put (b'[' ∷ [])
      >>= print_columns type_id rows row 0 cols true
      >>= print_rows type_id rows cols (row + 1) n false

  unfoldable pub print_matrix : ℕ → ℕ → ℕ → ℕ → List ℕ → Printed Output
  unfolding is_primitive put print_rows
  print_matrix type_id rows cols output_bytes input =
      if is_primitive type_id
      then put (b'[' ∷ []) (start output_bytes input 0)
        >>= print_rows type_id rows cols 0 rows true
        >>= finish
      else died
