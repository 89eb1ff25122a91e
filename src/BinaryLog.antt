-- ===== src/BinaryLog.antt =====
-- aos/common/logging/binary_log_writer.cc: the process that writes the log messages to a file, with
-- the types of the structures before them. The types come from the cache of types, which is a
-- parameter; their nesting is followed for as many levels as `rounds`. LOG(FATAL) and a failed
-- CHECK are `none`. The choice of the file and the reading of the queue are not modelled.
pub mod Publish
pub mod Follow
pub mod Described
pub mod Written
pub mod Clear
pub mod Loop
pub mod Display
pub mod ReadBack
mod Tests
use miranda_dashboard.Base.{
  ℕ, zero, suc, ◌+◌, ◌-◌, ◌*◌, ◌%◌, ◌^◌, ◌==◌, ◌&&◌, Bool, true, false, if◌then◌else◌, Option, none,
  some, ◌>>=◌, List, [], ◌∷◌, ◌++◌, length,
}
use miranda_dashboard.Base.Bytes.{le16, le32}
use miranda_dashboard.MessageType.{MessageType, Field, is_primitive, size_of, serialize}
use miranda_dashboard.LogFile.{
  File, LogFileAccessor, LogFileMessageHeader, LogFileMessageType, Reserved, k_string,
  k_struct_type, k_struct, k_matrix, header_size, store, set_marker, get_write_position,
  force_new_page, should_clear_seekable_data, open_writer,
}

-- The fields and the bytes of a message are filled in at its place; the marker stays.
unfoldable pub fill : File → ℕ → ℕ → LogFileMessageHeader → File
unfolding store
fill f page place header = store f page place (record header { marker = (f.at page place).marker })

-- They are filled in, and then the marker is set.
unfoldable pub publish : File → ℕ → ℕ → LogFileMessageHeader → File
unfolding set_marker fill
publish f page place header = set_marker (fill f page place header) page place 1

-- The variables of the main loop.
pub record Log : Type 0 where
  pub file : File
  pub writer : LogFileAccessor
  pub written_type_ids : List ℕ
  pub clear_type_ids_cookie : ℕ

-- A place is taken, and a message published there.
unfoldable pub put : Log → ℕ → LogFileMessageHeader → Log
unfolding publish
put s size header =
    let r = get_write_position s.file s.writer size in
    record s { file = publish r.file r.page r.place header; writer = r.writer }

-- `written_type_ids->count(type_id) > 0`
unfoldable pub is_written : List ℕ → ℕ → Bool
is_written [] type_id = false
is_written (t ∷ ts) type_id = if t == type_id then true else is_written ts type_id

abbrev pub fatal_level : ℕ
fatal_level = 4

-- The header of a type, with its serialized form.
abbrev pub type_header : ℕ → List ℕ → LogFileMessageHeader
type_header pid buffer = record {
  marker = 0;
  time_sec = 0;
  time_nsec = 0;
  source = pid;
  name_size = 0;
  message_size = length buffer;
  sequence = 0;
  type = k_struct_type;
  level = fatal_level;
  bytes = buffer;
}

-- `LogMessage`; the lengths in it are those of the lists.
pub data LogMessageType : Type 0 where
  string : List ℕ → LogMessageType
  structure : ℕ → List ℕ → List ℕ → LogMessageType
  matrix : ℕ → ℕ → ℕ → List ℕ → List ℕ → LogMessageType

pub record LogMessage : Type 0 where
  pub seconds : ℕ
  pub nseconds : ℕ
  pub source : ℕ
  pub sequence : ℕ
  pub level : ℕ
  pub name : List ℕ
  pub type : LogMessageType

-- `message_length`
abbrev pub message_length : LogMessageType → ℕ
message_length (string text) = length text
message_length (structure type_id text serialized) = length serialized
message_length (matrix type_id rows cols text data_bytes) = length data_bytes

-- What is added to `output_length` and, by the memcpys, to `message_size`.
abbrev pub extra_length : LogMessageType → ℕ
extra_length (string text) = 0
extra_length (structure type_id text serialized) = 4 + 4 + length text
extra_length (matrix type_id rows cols text data_bytes) = 4 + 4 + 2 + 2 + length text

unfoldable pub output_length : LogMessage → ℕ
output_length m = header_size + length m.name + message_length m.type + extra_length m.type

-- What is copied to after the name.
unfoldable pub message_bytes : LogMessageType → List ℕ
message_bytes (string text) = text
message_bytes (structure type_id text serialized) =
    le32 type_id ++ (le32 (length text) ++ (text ++ serialized))
message_bytes (matrix type_id rows cols text data_bytes) =
    le32 type_id ++ (le32 (length text) ++ (le16 rows ++ (le16 cols ++ (text ++ data_bytes))))

abbrev pub header_type : LogMessageType → LogFileMessageType
header_type (string text) = k_string
header_type (structure type_id text serialized) = k_struct
header_type (matrix type_id rows cols text data_bytes) = k_matrix

-- The header that is filled in for a message.
unfoldable pub message_header : LogMessage → LogFileMessageHeader
unfolding message_bytes
message_header m = record {
  marker = 0;
  time_sec = m.seconds;
  time_nsec = m.nseconds;
  source = m.source;
  name_size = length m.name;
  message_size = message_length m.type + extra_length m.type;
  sequence = m.sequence;
  type = header_type m.type;
  level = m.level;
  bytes = m.name ++ message_bytes m.type;
}

-- `raw_output_length`, and the check at the end that both counts of what is added agree.
abbrev pub raw_output_length : LogMessage → ℕ
raw_output_length m = header_size + length m.name + message_length m.type

unfoldable pub lengths_agree : LogMessage → Bool
unfolding message_header output_length
lengths_agree m =
    (message_header m).message_size - message_length m.type == output_length m - raw_output_length m

-- The checks of a matrix; the one of the lengths is made when the message has its place.
unfoldable pub matrix_fits : LogMessageType → Bool
matrix_fits (matrix type_id rows cols text data_bytes) =
    is_primitive type_id
    && length data_bytes == size_of type_id * (rows % 65536) * (cols % 65536) % 2 ^ 32
matrix_fits _ = true

-- The cached types are forgotten where `ShouldClearSeekableData` says so.
unfoldable pub clear_types : Log → ℕ → Option Log
clear_types s size = do
  (clear, cookie) ← should_clear_seekable_data s.writer s.clear_type_ids_cookie size
  some (
      if clear
      then record {
        file = (force_new_page s.file s.writer).0;
        writer = (force_new_page s.file s.writer).1;
        written_type_ids = [];
        clear_type_ids_cookie = cookie;
      }
      else record s { clear_type_ids_cookie = cookie })

-- The loop over the fields of a type.
unfoldable pub check_fields : (ℕ → Log → Option Log) → List Field → Log → Option Log
check_fields check [] s = some s
check_fields check (f ∷ fs) s = check f.field_type s >>= check_fields check fs

module _ (get : ℕ → MessageType) (gap : ℕ → List ℕ) (pid : ℕ) where
  -- The end of `CheckTypeWritten`, after the types of the fields.
  unfoldable pub write_type : ℕ → Log → Log
  unfolding put
  write_type type_id s = elim (serialize gap (get type_id) 1024) [
    | none ↦ s
    | some buffer ↦
        let t = put s (header_size + length buffer) (type_header pid buffer) in
        record t { written_type_ids = type_id ∷ t.written_type_ids }
  ]

  -- `CheckTypeWritten`
  unfoldable pub check_type_written : ℕ → ℕ → Log → Option Log
  unfolding check_fields write_type
  check_type_written zero type_id s = none
  check_type_written (suc rounds) type_id s = elim (is_written s.written_type_ids type_id) [
    | true ↦ some s
    | false ↦ elim (is_primitive type_id) [
      | true ↦ some s
      | false ↦ check_fields (check_type_written rounds) (get type_id).fields s >>= λ t.
          some (write_type type_id t)
    ]
  ]

  -- What is done before a message with so many bytes, for its type.
  unfoldable pub prepare : ℕ → LogMessageType → ℕ → Log → Option Log
  unfolding clear_types
  prepare rounds (structure type_id text serialized) size s =
      clear_types s size >>= check_type_written rounds type_id
  prepare rounds _ size s = some s

  -- One round of the main loop, with a message from the queue.
  unfoldable pub write_message : ℕ → LogMessage → Log → Option Log
  unfolding prepare put output_length message_header matrix_fits lengths_agree
  write_message rounds m s = do
    t ← prepare rounds m.type (output_length m) s
    if matrix_fits m.type && lengths_agree m
        then some (put t (output_length m) (message_header m))
        else none

  unfoldable pub write_messages : ℕ → List LogMessage → Log → Option Log
  unfolding write_message
  write_messages rounds [] s = some s
  write_messages rounds (m ∷ ms) s = write_message rounds m s >>= write_messages rounds ms

-- The variables when the loop starts, on a file that has been opened.
unfoldable pub new_log : File → Log
unfolding open_writer
new_log f = record {
  file = (open_writer f).0;
  writer = (open_writer f).1;
  written_type_ids = [];
  clear_type_ids_cookie = 0;
}
