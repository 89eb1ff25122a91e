-- ===== src/LogFile.antt =====
-- aos/common/logging/binary_log_file.{h,cc}: a log file that one process writes while others read
-- it, page by page. The file is the memory that all map: what stands at each place of each page.
-- A failed CHECK, LOG(FATAL) and a fault on a page that the file does not have are `none`. Files
-- that cannot be mapped are not modelled, nor are the failures of system calls.
pub mod Segments
pub mod Reader
pub mod Seeking
pub mod Writing
mod Tests
use miranda_dashboard.Base.{
  ℕ, ◌+◌, ◌-◌, ◌*◌, ◌/◌, ◌%◌, Bool, true, false, not, ◌&&◌, if◌then◌else◌, ltb, leb, ◌==◌, min,
  Option, none, some, List, [], ◌>>=◌,
}

abbrev pub page_size : ℕ
page_size = 16384

abbrev pub alignment : ℕ
alignment = 8

abbrev pub seek_pages : ℕ
seek_pages = 256

-- `sizeof(LogFileMessageHeader)` and `sizeof(aos_futex)`
abbrev pub header_size : ℕ
header_size = 32

abbrev pub futex_size : ℕ
futex_size = 4

pub data LogFileMessageType : Type 0 where
  k_string k_struct_type k_struct k_matrix : LogFileMessageType

-- The header, and the bytes of the name and the message that follow it.
pub record LogFileMessageHeader : Type 0 where
  pub marker : ℕ
  pub time_sec : ℕ
  pub time_nsec : ℕ
  pub source : ℕ
  pub name_size : ℕ
  pub message_size : ℕ
  pub sequence : ℕ
  pub type : LogFileMessageType
  pub level : ℕ
  pub bytes : List ℕ

-- What ftruncate puts into a new page.
abbrev pub blank : LogFileMessageHeader
blank = record {
  marker = 0;
  time_sec = 0;
  time_nsec = 0;
  source = 0;
  name_size = 0;
  message_size = 0;
  sequence = 0;
  type = k_string;
  level = 0;
  bytes = [];
}

-- The number of pages, and what stands on a page at a position.
pub record File : Type 0 where
  pub pages : ℕ
  pub at : ℕ → ℕ → LogFileMessageHeader

unfoldable pub store : File → ℕ → ℕ → LogFileMessageHeader → File
store f page position header = record f {
  at = λ c p. if c == page && p == position then header else f.at c p;
}

unfoldable pub ftruncate : File → ℕ → File
ftruncate f pages = record {
  pages = pages;
  at = λ c p. if ltb c (min pages f.pages) then f.at c p else blank;
}

-- `futex_set` and `futex_set_value`, on the marker of a header.
unfoldable pub set_marker : File → ℕ → ℕ → ℕ → File
unfolding store
set_marker f page position value =
    store f page position (record (f.at page position) { marker = value })

pub data Maybe : Type 0 where
  unknown yes no : Maybe

-- `current` is the number of the page that `current_` maps.
pub record LogFileAccessor : Type 0 where
  pub offset : ℕ
  pub current : ℕ
  pub position : ℕ
  pub is_last_page : Maybe

unfoldable pub align_position : LogFileAccessor → LogFileAccessor
align_position a = record a { position = a.position + (alignment - a.position % alignment) }

unfoldable pub increment_position : LogFileAccessor → ℕ → LogFileAccessor
unfolding align_position
increment_position a size = align_position (record a { position = a.position + size })

-- `MapNextPage`, on the side of the accessor; the writer extends the file too.
unfoldable pub map_next_page : LogFileAccessor → LogFileAccessor
map_next_page a = record a { current = a.offset / page_size; offset = a.offset + page_size }

unfoldable pub unmap : LogFileAccessor → LogFileAccessor
unmap a = record a { is_last_page = unknown; position = 0 }

abbrev pub unopened : LogFileAccessor
unopened = record { offset = 0; current = 0; position = 0; is_last_page = unknown }

-- The part of `MapNextPage` for a writer.
unfoldable pub extend : File → LogFileAccessor → File
unfolding ftruncate
extend f a = ftruncate f ((a.offset + page_size) / page_size)

-- The constructors.
unfoldable pub open_reader : LogFileAccessor
unfolding map_next_page
open_reader = map_next_page unopened

unfoldable pub open_writer : File → File × LogFileAccessor
unfolding map_next_page extend
open_writer f = (extend f unopened, map_next_page unopened)

unfoldable pub need_new_page_for : LogFileAccessor → ℕ → Bool
need_new_page_for a bytes =
    ltb page_size (a.position + bytes + (alignment - bytes % alignment) + futex_size)

-- `ForceNewPage`, once `MapNextPage` has extended the file: the mark that sends readers to the page
-- after is set, and the page is unmapped.
unfoldable pub leave_page : File → LogFileAccessor → File × LogFileAccessor
unfolding map_next_page set_marker unmap
leave_page f w = (set_marker f w.current w.position 2, unmap (map_next_page w))

-- `ForceNewPage`
unfoldable pub force_new_page : File → LogFileAccessor → File × LogFileAccessor
unfolding extend leave_page
force_new_page f w = leave_page (extend f w) w

pub record Reserved : Type 0 where
  pub page : ℕ
  pub place : ℕ
  pub file : File
  pub writer : LogFileAccessor

-- The end of `GetWritePosition`.
unfoldable pub take_position : ℕ → File × LogFileAccessor → Reserved
unfolding increment_position
take_position message_size (f, w) = record {
  page = w.current;
  place = w.position;
  file = f;
  writer = increment_position w message_size;
}

-- `GetWritePosition` up to the `ftruncate`, if it comes to one, and from there on.
unfoldable pub begin_write : File → LogFileAccessor → ℕ → File
unfolding need_new_page_for extend
begin_write f w message_size = if need_new_page_for w message_size then extend f w else f

unfoldable pub end_write : File → LogFileAccessor → ℕ → Reserved
unfolding need_new_page_for leave_page take_position
end_write f w message_size =
    take_position message_size (if need_new_page_for w message_size then leave_page f w else (f, w))

unfoldable pub get_write_position : File → LogFileAccessor → ℕ → Reserved
unfolding begin_write end_write
get_write_position f w message_size = end_write (begin_write f w message_size) w message_size

-- `ShouldClearSeekableData`, with the cookie.
unfoldable pub should_clear_seekable_data : LogFileAccessor → ℕ → ℕ → Option (Bool × ℕ)
unfolding need_new_page_for
should_clear_seekable_data w cookie next_message_size =
    let next_message_page =
      w.offset / page_size - 1 + (if need_new_page_for w next_message_size then 1 else 0) in
    let current_seekable_page = next_message_page / seek_pages in
    if leb cookie current_seekable_page
    then some (not (cookie == current_seekable_page), current_seekable_page)
    else none

-- What `ReadNextMessage` returns. `waits` is a call with `wait` that sleeps until the marker is set.
pub data Reading : Type 0 where
  message : LogFileMessageHeader → Reading
  null : Reading
  waits : Reading

-- The end of `ReadNextMessage`, at the header `r`.
unfoldable pub finish_read :
    Bool → LogFileMessageHeader → LogFileAccessor → Option (Reading × LogFileAccessor)
unfolding increment_position
finish_read wait r a =
    if r.marker == 0
    then some (if wait then waits else null, a)
    else let a' = increment_position a (header_size + r.name_size + r.message_size) in
      if leb page_size a'.position then none else some (message r, a')

-- The page after, if the file has it.
unfoldable pub turn_page : File → LogFileAccessor → Option LogFileAccessor
unfolding map_next_page unmap
turn_page f a = let a' = map_next_page (unmap a) in if ltb a'.current f.pages then some a' else none

-- Where the header to read is: after a mark, at the start of the page after.
unfoldable pub find_header : File → LogFileAccessor → Option LogFileAccessor
unfolding turn_page
find_header f a = if (f.at a.current a.position).marker == 2 then turn_page f a else some a

unfoldable pub read_next_message :
    File → Bool → LogFileAccessor → Option (Reading × LogFileAccessor)
unfolding find_header finish_read
read_next_message f wait a = do
  a' ← find_header f a
  finish_read wait (f.at a'.current a'.position) a'

-- `IsLastPage`, with what it caches.
unfoldable pub is_last_page : File → LogFileAccessor → Bool × LogFileAccessor
is_last_page f a = elim (a.is_last_page) [
  | yes ↦ (true, a)
  | no ↦ (false, a)
  | unknown ↦
      let r = a.offset == f.pages * page_size - page_size in
      (r, record a { is_last_page = if r then yes else no })
]

unfoldable pub skip_to_last_seekable_page : File → LogFileAccessor → LogFileAccessor
unfolding map_next_page unmap
skip_to_last_seekable_page f a =
    let last_readable_page_number = f.pages - 1 in
    let last_seekable_page_number = last_readable_page_number / seek_pages * seek_pages in
    let new_offset = last_seekable_page_number * page_size in
    if ltb a.offset new_offset then map_next_page (record (unmap a) { offset = new_offset }) else a
