-- ===== src/BinaryLog/Follow.antt =====
-- A reader that follows the log while it is written.
use miranda_dashboard.Base.{
  ℕ, ◌≡◌, refl, sym, ap, subst, ◌∙◌, List, [], ◌∷◌, ◌++◌, Bool, Option, some, ◌>>=◌, arith,
}
use miranda_dashboard.LogFile.{
  File, LogFileMessageHeader, LogFileAccessor, Reading, blank, open_reader, open_writer, Reserved,
  set_marker, begin_write, end_write, get_write_position, read_next_message, map_next_page, extend,
  ftruncate,
}
use miranda_dashboard.LogFile.Segments.{Segment, Segment-Grows, bytes_of, here}
use miranda_dashboard.LogFile.Writing.{
  IsWriting, IsReserved, IsGiven, Fits, begin-Grows, marker-begin, end_write-IsGiven,
}
use miranda_dashboard.LogFile.Reader.{IsMapped, expected, read_next_message-Reads}
use miranda_dashboard.BinaryLog.{fill, publish}
use miranda_dashboard.BinaryLog.Publish.{
  marked, filled_unset, fill-Segment, mark-Segment, publish-IsWriting,
}

-- Where the writer is: between two messages, in GetWritePosition with the file extended if need be,
-- with a place of a size, and with a message filled in there.
pub data Stage : Type 0 where
  idle : Stage
  extended reserved : ℕ → Stage
  filled : ℕ → LogFileMessageHeader → Stage

-- The steps of a writer, each message with the size that its place was taken for, and the reads of
-- a reader anywhere between them, waiting or not.
pub data Schedule : Stage → Type 0 where
  stops : {p : Stage} → Schedule p
  extends : (n : ℕ) → Fits n → Schedule (extended n) → Schedule idle
  takes : {n : ℕ} → Schedule (reserved n) → Schedule (extended n)
  fills :
      {n : ℕ} (m : LogFileMessageHeader)
      → bytes_of m ≡ n
      → Schedule (filled n m)
      → Schedule (reserved n)
  publishes : {n : ℕ} {m : LogFileMessageHeader} → Schedule idle → Schedule (filled n m)
  reads : {p : Stage} → Bool → Schedule p → Schedule p

pub record Session : Type 0 where
  pub file : File
  pub writer : LogFileAccessor
  pub reader : LogFileAccessor
  pub page : ℕ
  pub place : ℕ

-- What the reads return, in order; `none` if one of them is fatal.
abbrev pub follow : (p : Stage) → Session → Schedule p → Option (List Reading)
follow p s stops = some []
follow idle s (extends n fits es) =
    follow (extended n) (record s { file = begin_write s.file s.writer n }) es
follow (extended n) s (takes es) =
    let r = end_write s.file s.writer n in
    follow (reserved n)
      (record s { file = r.file; writer = r.writer; page = r.page; place = r.place }) es
follow (reserved n) s (fills m size es) =
    follow (filled n m) (record s { file = fill s.file s.page s.place m }) es
follow (filled n m) s (publishes es) =
    follow idle (record s { file = set_marker s.file s.page s.place 1 }) es
follow p s (reads wait es) = do
  (r, a) ← read_next_message s.file wait s.reader
  rest ← follow p (record s { reader = a }) es
  some (r ∷ rest)

-- The same with a queue of the messages that are published and not read.
abbrev pub follow_fifo : (p : Stage) → List LogFileMessageHeader → Schedule p → List Reading
follow_fifo p ms stops = []
follow_fifo idle ms (extends n fits es) = follow_fifo (extended n) ms es
follow_fifo (extended n) ms (takes es) = follow_fifo (reserved n) ms es
follow_fifo (reserved n) ms (fills m size es) = follow_fifo (filled n m) ms es
follow_fifo (filled n m) ms (publishes es) = follow_fifo idle (ms ++ marked m ∷ []) es
follow_fifo p ms (reads wait es) = (expected wait ms).0 ∷ follow_fifo p (expected wait ms).1 es

-- The place that the reader is led to next, by phase.
abbrev end_page : Stage → Session → ℕ
end_page idle s = s.writer.current
end_page (extended n) s = s.writer.current
end_page (reserved n) s = s.page
end_page (filled n m) s = s.page

abbrev end_place : Stage → Session → ℕ
end_place idle s = s.writer.position
end_place (extended n) s = s.writer.position
end_place (reserved n) s = s.place
end_place (filled n m) s = s.place

-- The file was one in which the writer is between messages, or has a place.
abbrev Writes : Stage → Session → Type 0
Writes idle s = IsWriting s.file s.writer
Writes (extended n) s =
    (f : File) × (s.file ≡ begin_write f s.writer n) × Fits n × IsWriting f s.writer
Writes (reserved n) s = IsReserved s.file s.writer s.page s.place n
Writes (filled n m) s =
    (f : File) × (s.file ≡ fill f s.page s.place m)
    × (bytes_of m ≡ n)
    × IsReserved f s.writer s.page s.place n

record IsReady (p : Stage) (ms : List LogFileMessageHeader) (s : Session) : Type 0 where
  pub writes : Writes p s
  pub mapped : IsMapped s.reader
  pub left : Segment s.file s.reader.current s.reader.position ms (end_page p s) (end_place p s)

-- Nothing is set yet where the reader is led to.
end_unset :
    (p : Stage) (s : Session) → Writes p s → (s.file.at (end_page p s) (end_place p s)).marker ≡ 0
end_unset idle s v = v.ahead s.writer.position (omega arith)
end_unset (extended n) s (f, e, fits, v) =
    ap (λ (g : File). (g.at s.writer.current s.writer.position).marker) e
    ∙ marker-begin f s.writer n v
end_unset (reserved n) s v = v.unset s.place (omega arith)
end_unset (filled n m) s (f, e, size, v) =
    ap (λ (g : File). (g.at s.page s.place).marker) e ∙ filled_unset f s.writer s.page s.place n m v

-- The place is given as if the file had been extended just before.
module _ (n : ℕ) (ms : List LogFileMessageHeader) (s : Session) (f : File)
    (e : s.file ≡ begin_write f s.writer n) (fits : Fits n) (v : IsWriting f s.writer) where
  abbrev taken : Reserved
  taken = end_write s.file s.writer n

  given : IsGiven s.file s.writer n taken
  unfolding get_write_position
  given =
      subst (λ g. IsGiven g s.writer n (end_write g s.writer n)) (sym e)
        (end_write-IsGiven f s.writer n v fits)

  takes-IsReady :
      IsMapped s.reader
      → Segment s.file s.reader.current s.reader.position ms s.writer.current s.writer.position
      → IsReady (reserved n) ms (record s {
        file = taken.file;
        writer = taken.writer;
        page = taken.page;
        place = taken.place;
      })
  takes-IsReady mapped left = record {
    writes = given.reserved;
    mapped = mapped;
    left = given.led _ _ ms left;
  }

module _ (n : ℕ) (m : LogFileMessageHeader) (ms : List LogFileMessageHeader) (s : Session)
    (f : File) (e : s.file ≡ fill f s.page s.place m) (size : bytes_of m ≡ n)
    (v : IsReserved f s.writer s.page s.place n) where
  published : publish f s.page s.place m ≡ set_marker s.file s.page s.place 1
  unfolding publish
  published = ap (λ g. set_marker g s.page s.place 1) (sym e)

  publishes-IsReady :
      IsMapped s.reader
      → Segment s.file s.reader.current s.reader.position ms s.page s.place
      → IsReady idle (ms ++ marked m ∷ []) (record s { file = set_marker s.file s.page s.place 1 })
  publishes-IsReady mapped left = record {
    writes =
        subst (λ g. IsWriting g s.writer) published
          (publish-IsWriting f s.writer s.page s.place n m v);
    mapped = mapped;
    left =
        subst
          (λ g.
            Segment g s.reader.current s.reader.position (ms ++ marked m ∷ []) s.writer.current
              s.writer.position)
          published
          (mark-Segment f s.writer s.page s.place n m v _ _ ms size
            (subst (λ g. Segment g s.reader.current s.reader.position ms s.page s.place) e left));
  }

follow-fifo :
    (p : Stage) (es : Schedule p) (ms : List LogFileMessageHeader) (s : Session)
    → IsReady p ms s
    → follow p s es ≡ some (follow_fifo p ms es)
follow-fifo p stops ms s v = refl
follow-fifo idle (extends n fits es) ms s v = follow-fifo (extended n) es ms _ (record {
  writes = (s.file, refl, fits, v.writes);
  mapped = v.mapped;
  left = Segment-Grows _ _ _ _ ms (begin-Grows s.file s.writer n v.writes) v.left;
})
follow-fifo (extended n) (takes es) ms s v =
    let (f, e, fits, w) = v.writes in
    follow-fifo (reserved n) es ms _ (takes-IsReady n ms s f e fits w v.mapped v.left)
follow-fifo (reserved n) (fills m size es) ms s v = follow-fifo (filled n m) es ms _ (record {
  writes = (s.file, refl, size, v.writes);
  mapped = v.mapped;
  left = fill-Segment s.file s.writer s.page s.place n m v.writes _ _ ms v.left;
})
follow-fifo (filled n m) (publishes es) ms s v =
    let (f, e, size, w) = v.writes in
    follow-fifo idle es (ms ++ marked m ∷ []) _
      (publishes-IsReady n m ms s f e size w v.mapped v.left)
follow-fifo p (reads wait es) ms s v =
    let out =
      read_next_message-Reads s.file wait s.reader ms _ _ v.mapped (end_unset p s v.writes)
        v.left in
    rw
      (
        out.result,
        follow-fifo p es (expected wait ms).1 (record s { reader = out.reader })
            (record {
              writes = stays p s out.reader v.writes;
              mapped = out.mapped;
              left = led p s out.reader _ out.left;
            }),
      )
      refl
  where
    stays :
        (p : Stage) (s : Session) (a : LogFileAccessor)
        → Writes p s
        → Writes p (record s { reader = a })
    stays idle s a w = w
    stays (extended n) s a w = w
    stays (reserved n) s a w = w
    stays (filled n m) s a w = w

    led :
        (p : Stage) (s : Session) (a : LogFileAccessor) (ms : List LogFileMessageHeader)
        → Segment s.file a.current a.position ms (end_page p s) (end_place p s)
        → Segment s.file a.current a.position ms
            (end_page p (record s { reader = a }))
            (end_place p (record s { reader = a }))
    led idle s a ms left = left
    led (extended n) s a ms left = left
    led (reserved n) s a ms left = left
    led (filled n m) s a ms left = left

-- A new file, which a writer and a reader have open.
abbrev pub created : File
created = record { pages = 0; at = λ c p. blank }

abbrev pub opened : Session
opened = record {
  file = (open_writer created).0;
  writer = (open_writer created).1;
  reader = open_reader;
  page = 0;
  place = 0;
}

pub opened-IsWriting : IsWriting opened.file opened.writer
unfolding open_writer map_next_page extend ftruncate
opened-IsWriting = record {
  mapped = refl;
  last = refl;
  aligned = refl;
  inside = omega arith;
  ahead = λ p h. ground arith;
  beyond = λ c p h. ground arith;
}

pub opened-left :
    Segment opened.file opened.reader.current opened.reader.position [] opened.writer.current
      opened.writer.position
unfolding open_writer open_reader map_next_page
opened-left = here refl refl

-- A reader that follows the log of a new file, however its reads come between the steps of the
-- writer, gets the messages whose markers are set, each once and in order, across the pages; with
-- none left it returns NULL or waits, and no read is fatal. The steps are: to extend the file, if
-- the message needs a new page; to mark the end of the old page, if so, and take the place; to fill
-- in the message; and to set its marker. Each message is to fit a page, and to have the size that
-- its place was taken for.
pub follow_refines : (es : Schedule idle) → follow idle opened es ≡ some (follow_fifo idle [] es)
unfolding open_reader map_next_page
follow_refines es =
    follow-fifo idle es [] opened
      (record { writes = opened-IsWriting; mapped = refl; left = opened-left })
