-- ===== src/Printing/Matrix.antt =====
-- aos/common/queue_types.cc: PrintMatrix.
use miranda_dashboard.Base.{
  ℕ, zero, suc, ◌+◌, ◌-◌, ◌*◌, ◌≤◌, ◌≡◌, ◌⊎◌, inl, inr, refl, sym, ap, ◌∙◌, arith, Bool, true,
  false, Bool-cases, ◌==◌, if◌then◌else◌, List, [], ◌∷◌, ◌++◌, length, take, drop, append_assoc,
  length-append,
}
use miranda_dashboard.MessageType.{is_primitive, size_of}
use miranda_dashboard.Printing.{
  Printed, died, printed, ◌>>=◌, Output, State, put, separate, FieldPrinter, print_element,
  print_columns, print_rows, print_matrix,
}
use miranda_dashboard.Printing.Emits.{
  printed_text, advance, Emits, Emits-then, Emits-same, Exact-finish, State-eq, if_true, if_false,
  has_room, room_le,
}
use miranda_dashboard.Printing.Parts.{put-Emits, separate-Emits, separator}

no_slack : (n : ℕ) → n ≡ n + 0
no_slack n = omega arith

less_nothing : (n : ℕ) → n ≡ n - 0
less_nothing n = omega arith

all_read : (n : ℕ) → (n - n == 0) ≡ true
all_read n = ground arith

take_all : (xs : List ℕ) → take (length xs) xs ≡ xs
take_all [] = refl
take_all (x ∷ xs) = ap (λ zs. x ∷ zs) (take_all xs)

kept_all : (xs : List ℕ) (o : ℕ) → length xs ≤ o → take (o - (o - length xs)) xs ≡ xs
kept_all xs o h = ap (λ n. take n xs) (omega (arith, h)) ∙ take_all xs

regroup_row :
    (a c d e : List ℕ) (x : ℕ) → a ++ (x ∷ []) ++ c ++ (d ++ e) ≡ (a ++ (x ∷ (c ++ d))) ++ e
regroup_row a c d e x = simp append_assoc

-- What follows the call that prints an element.
abbrev resume_element : State → Output → Printed State
resume_element s o =
    if o.input_bytes == 0
    then printed (record s {
      written = s.written ++ take (s.output_bytes - o.output_bytes) o.chars;
      output_bytes = o.output_bytes;
    })
    else died

module _ (field : FieldPrinter) where
  open field use {print_field, knows, field_text, spare, spare_le, prints}

  -- The element of a matrix that is stored by columns.
  abbrev pub element_text : ℕ → ℕ → List ℕ → List ℕ
  element_text type_id index input = field_text type_id (drop (index * size_of type_id) input)

  abbrev pub columns_text : ℕ → ℕ → ℕ → ℕ → ℕ → Bool → List ℕ → List ℕ
  columns_text type_id rows row col zero first input = b']' ∷ []
  columns_text type_id rows row col (suc n) first input =
      separator first
      ++ (element_text type_id (row + col * rows) input
          ++ columns_text type_id rows row (col + 1) n false input)

  abbrev pub rows_text : ℕ → ℕ → ℕ → ℕ → ℕ → Bool → List ℕ → List ℕ
  rows_text type_id rows cols row zero first input = b']' ∷ []
  rows_text type_id rows cols row (suc n) first input =
      separator first
      ++ (b'['
          ∷ (columns_text type_id rows row 0 cols true input
              ++ rows_text type_id rows cols (row + 1) n false input))

  abbrev pub matrix_text : ℕ → ℕ → ℕ → List ℕ → List ℕ
  matrix_text type_id rows cols input = b'[' ∷ rows_text type_id rows cols 0 rows true input

  columns_end :
      (type_id rows row col n : ℕ) (first : Bool) (input : List ℕ)
      → 1 ≤ length (columns_text type_id rows row col n first input)
  columns_end type_id rows row col zero first input = omega arith
  columns_end type_id rows row col (suc n) first input =
      let text = element_text type_id (row + col * rows) input in
      let rest = columns_text type_id rows row (col + 1) n false input in
      omega (
        arith,
        length-append (separator first) (text ++ rest),
        length-append text rest,
        columns_end type_id rows row (col + 1) n false input,
      )

  -- PrintField knows the type.
  module _ (type_id : ℕ) (known : knows type_id ≡ true) where
    print_element-Emits :
        (index : ℕ)
        → Emits (print_element field type_id index) (element_text type_id index) 0 (spare type_id)
    unfolding print_element
    print_element-Emits index s h few =
        let chars = element_text type_id index s.input in
        let size = size_of type_id in
        let o : Output = record {
          chars = chars;
          output_bytes = s.output_bytes - length chars;
          input_bytes = size - size;
        } in
        let after : State = record s {
          written = s.written ++ take (s.output_bytes - o.output_bytes) chars;
          output_bytes = o.output_bytes;
        } in
        let tested =
          prints type_id s.output_bytes (drop (index * size) s.input) size known (omega arith) in
        elim (Bool-cases (has_room chars (spare type_id) s)) [
          | inl room ↦
              ap (λ r. r >>= resume_element s) (tested ∙ if_true _ o room)
              ∙ ap (λ b. if b then printed after else died) (all_read size)
              ∙ ap printed (
                  State-eq
                    (ap (λ t. s.written ++ t)
                      (kept_all chars s.output_bytes
                        (room_le (length chars) (spare type_id) s.output_bytes room)))
                    refl refl (less_nothing s.input_bytes))
              ∙ sym (if_true _ (advance chars 0 s) room)
          | inr full ↦
              ap (λ r. r >>= resume_element s) (tested ∙ if_false _ o full)
              ∙ sym (if_false _ (advance chars 0 s) full)
        ]

    print_columns-Emits :
        (rows row col n : ℕ) (first : Bool)
        → Emits
            (print_columns field type_id rows row col n first)
            (columns_text type_id rows row col n first)
            0
            0
    unfolding print_columns
    print_columns-Emits rows row col zero first = put-Emits (b']' ∷ [])
    print_columns-Emits rows row col (suc n) first =
        let element = print_element field type_id (row + col * rows) in
        let text = element_text type_id (row + col * rows) in
        let rest = columns_text type_id rows row (col + 1) n false in
        Emits-same (print_columns field type_id rows row col (suc n) first)
          (λ input. separator first ++ text input ++ rest input)
          (columns_text type_id rows row col (suc n) first) 0 0 0
          (λ input. append_assoc (separator first) (text input) (rest input)) refl
          (Emits-then (λ s. separate first s >>= element)
            (print_columns field type_id rows row (col + 1) n false)
            (λ input. separator first ++ text input) rest 0 0 (spare type_id) 0
            (Emits-then (separate first) element (λ input. separator first) text 0 0 0
              (spare type_id) (separate-Emits first) (print_element-Emits (row + col * rows))
              (λ input. omega arith))
            (print_columns-Emits rows row (col + 1) n false)
            (λ input.
              omega
                (arith, spare_le type_id, columns_end type_id rows row (col + 1) n false input)))

    print_rows-Emits :
        (rows cols row n : ℕ) (first : Bool)
        → Emits
            (print_rows field type_id rows cols row n first)
            (λ input. rows_text type_id rows cols row n first input ++ (0 ∷ []))
            0
            0
    unfolding print_rows
    print_rows-Emits rows cols row zero first = put-Emits (b']' ∷ 0 ∷ [])
    print_rows-Emits rows cols row (suc n) first =
        let columns = print_columns field type_id rows row 0 cols true in
        let text = columns_text type_id rows row 0 cols true in
        let rest = rows_text type_id rows cols (row + 1) n false in
        let opening : List ℕ = b'[' ∷ [] in
        Emits-same (print_rows field type_id rows cols row (suc n) first)
          (λ input. separator first ++ opening ++ text input ++ (rest input ++ (0 ∷ [])))
          (λ input. rows_text type_id rows cols row (suc n) first input ++ (0 ∷ [])) 0 0 0
          (λ input. regroup_row (separator first) (text input) (rest input) (0 ∷ []) b'[') refl
          (Emits-then (λ s. separate first s >>= put opening >>= columns)
            (print_rows field type_id rows cols (row + 1) n false)
            (λ input. separator first ++ opening ++ text input) (λ input. rest input ++ (0 ∷ [])) 0
            0 0 0
            (Emits-then (λ s. separate first s >>= put opening) columns
              (λ input. separator first ++ opening) text 0 0 0 0
              (Emits-then (separate first) (put opening) (λ input. separator first)
                (λ input. opening) 0 0 0 0 (separate-Emits first) (put-Emits opening)
                (λ input. omega arith))
              (print_columns-Emits rows row 0 cols true) (λ input. omega arith))
            (print_rows-Emits rows cols (row + 1) n false) (λ input. omega arith))

  -- PrintMatrix dies of a type that is not primitive. Of one that PrintField knows, if the buffer
  -- has room for the text of the matrix, row by row, from the elements that are stored column by
  -- column, and for a '\0', it writes just these and returns true; else it returns false.
  pub print_matrix_lem :
      (type_id rows cols output_bytes : ℕ) (input : List ℕ)
      → (is_primitive type_id ≡ false) ⊎ (knows type_id ≡ true)
      → print_matrix field type_id rows cols output_bytes input ≡ (
          if is_primitive type_id
          then printed_text output_bytes (matrix_text type_id rows cols input) 0 0
          else died)
  unfolding print_matrix
  print_matrix_lem type_id rows cols output_bytes input (inl other) = rw other refl
  print_matrix_lem type_id rows cols output_bytes input (inr known) =
      ap (λ r. if is_primitive type_id then r else died)
        (Exact-finish (λ s. put (b'[' ∷ []) s >>= print_rows field type_id rows cols 0 rows true)
          (λ i. matrix_text type_id rows cols i ++ (0 ∷ [])) 0
          (Emits-then (put (b'[' ∷ [])) (print_rows field type_id rows cols 0 rows true)
            (λ i. b'[' ∷ []) (λ i. rows_text type_id rows cols 0 rows true i ++ (0 ∷ [])) 0 0 0 0
            (put-Emits (b'[' ∷ [])) (print_rows-Emits type_id known rows cols 0 rows true)
            (λ i. omega arith))
          output_bytes input 0 (omega arith) (omega arith))
