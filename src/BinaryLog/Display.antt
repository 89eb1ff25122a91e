-- ===== src/BinaryLog/Display.antt =====
-- aos/common/logging/log_displayer.cc: what it takes out of a message of the log before it prints it.
use miranda_dashboard.Base.{
  ℕ, ◌+◌, ◌-◌, ◌*◌, ◌%◌, ◌^◌, ◌<◌, ◌≡◌, sym, ap, ap₂, Bool, true, ◌==◌, ◌&&◌, if◌then◌else◌, ◌∙◌,
  arith, List, [], ◌∷◌, ◌++◌, length, append-nil, Option, none, some, ◌>>=◌,
}
use miranda_dashboard.Base.Bytes.{
  le16, le32, read_le16, read_le32, read_le16-le16, read_le32-le32, read_bytes, read_bytes-append,
}
use miranda_dashboard.MessageType.{is_primitive, size_of}
use miranda_dashboard.LogFile.{
  LogFileMessageHeader, LogFileMessageType, k_string, k_struct_type, k_struct, k_matrix,
}
use miranda_dashboard.LogFile.Writing.{Fits}
use miranda_dashboard.BinaryLog.{
  LogMessage, LogMessageType, string, structure, matrix, message_length, extra_length,
  message_bytes, header_type, message_header, matrix_fits, output_length,
}
use miranda_dashboard.BinaryLog.Publish.{marked}

-- A text of a length, and the bytes after it.
unfoldable pub display_text : ℕ → ℕ → List ℕ → Option (List ℕ × List ℕ)
display_text string_length input_length position = read_bytes string_length position >>= λ text.
    read_bytes input_length text.1 >>= λ rest. some (text.0, rest.0)

unfoldable pub display_struct : ℕ → List ℕ → Option LogMessageType
unfolding display_text
display_struct message_size position = read_le32 position >>= λ type_id.
    read_le32 type_id.1 >>= λ string_length.
    display_text string_length.0 (message_size - (4 + 4 + string_length.0)) string_length.1 >>= λ r.
    some (structure type_id.0 r.0 r.1)

unfoldable pub display_matrix : ℕ → List ℕ → Option LogMessageType
unfolding display_text size_of
display_matrix message_size position = read_le32 position >>= λ type.
    read_le32 type.1 >>= λ string_length. read_le16 string_length.1 >>= λ rows.
    read_le16 rows.1 >>= λ cols.
    let matrix_bytes = message_size - (4 + 4 + 2 + 2 + string_length.0) in
    if matrix_bytes == size_of type.0 * rows.0 * cols.0 % 2 ^ 32
    then (display_text string_length.0 matrix_bytes cols.1 >>= λ r.
        some (matrix type.0 rows.0 cols.0 r.0 r.1))
    else none

-- The `switch`; `kStructType` is fatal.
unfoldable pub display_type : LogFileMessageType → ℕ → List ℕ → Option LogMessageType
unfolding display_struct display_matrix
display_type k_string message_size position =
    read_bytes message_size position >>= λ text. some (string text.0)
display_type k_struct message_size position = display_struct message_size position
display_type k_matrix message_size position = display_matrix message_size position
display_type k_struct_type message_size position = none

unfoldable pub display : LogFileMessageHeader → Option LogMessage
unfolding display_type
display msg = read_bytes msg.name_size msg.bytes >>= λ name.
    display_type msg.type msg.message_size name.1 >>= λ type. some (record {
      seconds = msg.time_sec;
      nseconds = msg.time_nsec;
      source = msg.source;
      sequence = msg.sequence;
      level = msg.level;
      name = name.0;
      type = type;
    })

abbrev pub display_all : List LogFileMessageHeader → Option (List LogMessage)
display_all [] = some []
display_all (h ∷ hs) = display h >>= λ m. display_all hs >>= λ ms. some (m ∷ ms)

-- The ids, the rows and the columns fit the words that they are logged in.
abbrev pub InWords : LogMessageType → Type 0
InWords (string text) = Unit {0}
InWords (structure type_id text serialized) = type_id < 4294967296
InWords (matrix type_id rows cols text data_bytes) =
    (type_id < 4294967296) × (rows < 65536) × (cols < 65536)

read_whole : (n : ℕ) (xs : List ℕ) → n ≡ length xs → read_bytes n xs ≡ some (xs, [])
read_whole n xs e =
    ap (λ k. read_bytes k xs) e
    ∙ ap (read_bytes (length xs)) (sym (append-nil xs))
    ∙ read_bytes-append xs []

display_text-append :
    (xs ys : List ℕ) (n : ℕ) → n ≡ length ys → display_text (length xs) n (xs ++ ys) ≡ some (xs, ys)
unfolding display_text
display_text-append xs ys n e =
    ap (λ r. r >>= λ text. read_bytes n text.1 >>= λ rest. some (text.0, rest.0))
      (read_bytes-append xs ys)
    ∙ ap (λ r. r >>= λ rest. some (xs, rest.0)) (read_whole n ys e)

display_struct-bytes :
    (type_id : ℕ) (text serialized : List ℕ)
    → type_id < 4294967296
    → length text < 4294967296
    → display_struct
        (length serialized + (4 + 4 + length text))
        (message_bytes (structure type_id text serialized))
      ≡ some (structure type_id text serialized)
unfolding display_struct message_bytes
display_struct-bytes type_id text serialized h short =
    let size = length serialized + (4 + 4 + length text) in
    let last = λ (t : ℕ) (n : ℕ × List ℕ).
      display_text n.0 (size - (4 + 4 + n.0)) n.1 >>= λ r. some (structure t r.0 r.1) in
    ap (λ r. r >>= λ t. read_le32 t.1 >>= last t.0)
      (read_le32-le32 type_id (le32 (length text) ++ (text ++ serialized)) h)
    ∙ ap (λ r. r >>= last type_id) (read_le32-le32 (length text) (text ++ serialized) short)
    ∙ ap (λ r. r >>= λ d. some (structure type_id d.0 d.1))
        (display_text-append text serialized _ (omega arith))

display_matrix-bytes :
    (type_id rows cols : ℕ) (text data_bytes : List ℕ)
    → InWords (matrix type_id rows cols text data_bytes)
    → length text < 4294967296
    → (length data_bytes == size_of type_id * rows * cols % 2 ^ 32) ≡ true
    → display_matrix
        (length data_bytes + (4 + 4 + 2 + 2 + length text))
        (message_bytes (matrix type_id rows cols text data_bytes))
      ≡ some (matrix type_id rows cols text data_bytes)
unfolding display_matrix message_bytes
display_matrix-bytes type_id rows cols text data_bytes (h, r, c) short same =
    let dims = le16 rows ++ (le16 cols ++ (text ++ data_bytes)) in
    let size = length data_bytes + (4 + 4 + 2 + 2 + length text) in
    let checked = λ (b : Bool) (t n rs : ℕ) (cs : ℕ × List ℕ).
      if b
      then (display_text n (size - (4 + 4 + 2 + 2 + n)) cs.1 >>= λ d.
          some (matrix t rs cs.0 d.0 d.1))
      else none in
    let last = λ (t n rs : ℕ) (cs : ℕ × List ℕ).
      checked (size - (4 + 4 + 2 + 2 + n) == size_of t * rs * cs.0 % 2 ^ 32) t n rs cs in
    ap
      (λ x. x >>= λ t.
        read_le32 t.1 >>= λ n. read_le16 n.1 >>= λ rs. read_le16 rs.1 >>= last t.0 n.0 rs.0)
      (read_le32-le32 type_id (le32 (length text) ++ dims) h)
    ∙ ap (λ x. x >>= λ n. read_le16 n.1 >>= λ rs. read_le16 rs.1 >>= last type_id n.0 rs.0)
        (read_le32-le32 (length text) dims short)
    ∙ ap (λ x. x >>= λ rs. read_le16 rs.1 >>= last type_id (length text) rs.0)
        (read_le16-le16 rows (le16 cols ++ (text ++ data_bytes)) r)
    ∙ ap (λ x. x >>= last type_id (length text) rows) (read_le16-le16 cols (text ++ data_bytes) c)
    ∙ ap (λ b. checked b type_id (length text) rows (cols, text ++ data_bytes))
        (ap (λ n. n == size_of type_id * rows * cols % 2 ^ 32) (omega arith) ∙ same)
    ∙ ap (λ x. x >>= λ d. some (matrix type_id rows cols d.0 d.1))
        (display_text-append text data_bytes _ (omega arith))

matrix_bytes :
    (type_id rows cols : ℕ) (text data_bytes : List ℕ)
    → InWords (matrix type_id rows cols text data_bytes)
    → matrix_fits (matrix type_id rows cols text data_bytes) ≡ true
    → (length data_bytes == size_of type_id * rows * cols % 2 ^ 32) ≡ true
unfolding matrix_fits
matrix_bytes type_id rows cols text data_bytes (h, r, c) fits =
    ap₂ (λ x y. length data_bytes == size_of type_id * x * y % 2 ^ 32) (in_word rows r)
      (in_word cols c)
    ∙ second (is_primitive type_id) _ fits
  where
    in_word : (n : ℕ) → n < 65536 → n ≡ n % 65536
    in_word n h = omega arith

    second : (a b : Bool) → (a && b) ≡ true → b ≡ true
    second a b h = ground arith

display_type-bytes :
    (t : LogMessageType)
    → InWords t
    → extra_length t < 4294967296
    → matrix_fits t ≡ true
    → display_type (header_type t) (message_length t + extra_length t) (message_bytes t) ≡ some t
unfolding display_type message_bytes
display_type-bytes (string text) h short fits =
    ap (λ r. r >>= λ t. some (string t.0)) (read_whole (length text + 0) text (omega arith))
display_type-bytes (structure type_id text serialized) h short fits =
    display_struct-bytes type_id text serialized h (omega (arith, short))
display_type-bytes (matrix type_id rows cols text data_bytes) h short fits =
    display_matrix-bytes type_id rows cols text data_bytes h (omega (arith, short))
      (matrix_bytes type_id rows cols text data_bytes h fits)

-- A message that fits a page is read back as it was.
pub display-header :
    (m : LogMessage)
    → Fits (output_length m)
    → InWords m.type
    → matrix_fits m.type ≡ true
    → display (marked (message_header m)) ≡ some m
unfolding display message_header output_length
display-header m fits h right =
    ap
      (λ r. r >>= λ name.
        display_type (header_type m.type) (message_length m.type + extra_length m.type) name.1
        >>= λ t. some (record m { name = name.0; type = t }))
      (read_bytes-append m.name (message_bytes m.type))
    ∙ ap (λ r. r >>= λ t. some (record m { type = t }))
        (display_type-bytes m.type h (omega (arith, fits)) right)
