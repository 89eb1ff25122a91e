-- ===== src/BinaryLog/ReadBack.antt =====
-- A finished log, read from its start, as the loop of aos/common/logging/log_displayer.cc does when
-- it does not follow the log.
use miranda_dashboard.Base.{
  ℕ, zero, suc, ◌≡◌, ◌∙◌, ap, refl, inr, List, [], ◌∷◌, false, Option, none, some, ◌>>=◌, arith,
  length,
}
use miranda_dashboard.MessageType.{MessageType}
use miranda_dashboard.LogFile.{
  File, LogFileMessageHeader, LogFileAccessor, message, null, waits, open_reader, open_writer,
  read_next_message,
}
use miranda_dashboard.LogFile.Segments.{Segment}
use miranda_dashboard.LogFile.Reader.{IsMapped, read_next_message-Reads}
use miranda_dashboard.BinaryLog.{Log, LogMessage, is_written, new_log, write_messages}
use miranda_dashboard.BinaryLog.Follow.{created, opened-IsWriting, opened-left}
use miranda_dashboard.BinaryLog.Described.{messages, Described}
use miranda_dashboard.BinaryLog.Written.{IsLogged}
use miranda_dashboard.BinaryLog.Clear.{IsInUse}
use miranda_dashboard.BinaryLog.Display.{InWords, display_all, display-header}
use miranda_dashboard.BinaryLog.Loop.{CanLogAll, matrix-fits, headers, write_messages-Logs}

-- The messages up to the one that is NULL, in so many rounds at most.
unfoldable pub read_all : ℕ → File → LogFileAccessor → Option (List LogFileMessageHeader)
read_all zero f a = none
read_all (suc rounds) f a = do
  (r, a') ← read_next_message f false a
  elim r [
    | message m ↦ read_all rounds f a' >>= λ ms. some (m ∷ ms)
    | null ↦ some []
    | waits ↦ none
  ]

read_all-Segment :
    (log : List LogFileMessageHeader) (f : File) (a : LogFileAccessor) (ec ep : ℕ)
    → IsMapped a
    → (f.at ec ep).marker ≡ 0
    → Segment f a.current a.position log ec ep
    → read_all (suc (length log)) f a ≡ some log
unfolding read_all
read_all-Segment [] f a ec ep v e s =
    let out = read_next_message-Reads f false a [] ec ep v e s in rw out.result refl
read_all-Segment (m ∷ log) f a ec ep v e s =
    let out = read_next_message-Reads f false a (m ∷ log) ec ep v e s in
    rw (out.result, read_all-Segment log f out.reader ec ep out.mapped e out.left) refl

module _ (get : ℕ → MessageType) (gap : ℕ → List ℕ) (pid rounds : ℕ) where
  new_log-IsLogged : IsLogged get gap pid (new_log created) []
  unfolding new_log is_written open_reader
  new_log-IsLogged = record {
    writing = opened-IsWriting;
    left = opened-left;
    described = tt;
    written = λ id h. cc;
    cookie = omega arith;
  }

  new_log-IsInUse : IsInUse get gap pid (new_log created)
  unfolding new_log open_writer
  new_log-IsInUse = inr refl

  -- All of them are in words.
  abbrev pub AllInWords : List LogMessage → Type 0
  AllInWords [] = Unit {0}
  AllInWords (m ∷ ms) = InWords m.type × AllInWords ms

  display_all-headers :
      (ms : List LogMessage)
      → CanLogAll get gap pid rounds ms
      → AllInWords ms
      → display_all (headers get gap pid rounds ms) ≡ some ms
  display_all-headers [] h w = refl
  display_all-headers (m ∷ ms) ((fits, can), hs) (w, ws) =
      rw
        (
          display-header m fits w (matrix-fits get gap pid rounds m.type can),
          display_all-headers ms hs ws,
        )
        refl

  -- The log of a file: it is what a reader gets from its start, every structure and every type in
  -- it stands after the types that it needs, and without the types it is read as the messages.
  pub record IsLogOf (s : Log) (ms : List LogMessage) : Type 0 where
    pub log : List LogFileMessageHeader
    pub reads_back : read_all (suc (length log)) s.file open_reader ≡ some log
    pub described : Described get gap [] log
    pub displayed : display_all (messages log) ≡ some ms

  -- The writer, on a new file, logs any messages that fit a page and whose numbers fit their words,
  -- the matrices of the right size and the structures of types that can be written in so many levels,
  -- and nothing is fatal. The file, read from its start, then has before each structure its type and
  -- all the types that it is made of, and what the displayer takes out of the other headers is the
  -- messages, in order, with all their fields.
  pub write_messages-IsLogOf :
      (ms : List LogMessage)
      → CanLogAll get gap pid rounds ms
      → AllInWords ms
      → (s : Log) × (write_messages get gap pid rounds ms (new_log created) ≡ some s) × IsLogOf s ms
  unfolding open_reader
  write_messages-IsLogOf ms h words =
      let w =
        write_messages-Logs get gap pid rounds ms (new_log created) [] h new_log-IsLogged
          new_log-IsInUse in
      let v = w.logged in
      (
        w.state,
        w.result,
        record {
          log = w.after;
          reads_back =
              read_all-Segment w.after w.state.file open_reader w.state.writer.current
                w.state.writer.position refl (v.writing.ahead w.state.writer.position (omega arith))
                v.left;
          described = v.described;
          displayed = ap display_all w.same ∙ display_all-headers ms h words;
        },
      )
