-- ===== src/BinaryLog/Loop.antt =====
-- The main loop of the writer: every message is in the log, each structure after its type.
use miranda_dashboard.Base.{
  ℕ, ◌≡◌, inl, refl, sym, ap, ap₂, ◌∙◌, arith, List, [], ◌∷◌, ◌++◌, true, false, Option, some,
  length, append-nil, append_assoc,
}
use miranda_dashboard.Base.Bytes.{le32}
use miranda_dashboard.MessageType.{MessageType}
use miranda_dashboard.LogFile.{LogFileMessageHeader}
use miranda_dashboard.LogFile.Segments.{bytes_of}
use miranda_dashboard.LogFile.Writing.{Fits}
use miranda_dashboard.BinaryLog.{
  Log, LogMessage, LogMessageType, string, structure, matrix, put, output_length, message_header,
  message_bytes, header_type, matrix_fits, lengths_agree, prepare, write_message, write_messages,
}
use miranda_dashboard.BinaryLog.Clear.{IsInUse, clear_types-Writes}
use miranda_dashboard.BinaryLog.Publish.{marked}
use miranda_dashboard.BinaryLog.Described.{
  is_type, messages, messages-append, Known, Explained, plain, grid, structured,
}
use miranda_dashboard.BinaryLog.Written.{
  IsLogged, Grown-refl, Loggable, Writes, Writes-after, put-IsLogged, check_type_written-Writes,
}

module _ (get : ℕ → MessageType) (gap : ℕ → List ℕ) (pid : ℕ) (rounds : ℕ) where
  -- A message that fits a page, of a type that can be written, or a matrix of the right size.
  abbrev pub CanPrepare : LogMessageType → Type 0
  CanPrepare (string text) = Unit {0}
  CanPrepare (structure type_id text serialized) = Loggable get gap pid rounds type_id
  CanPrepare (matrix type_id rows cols text data_bytes) =
      matrix_fits (matrix type_id rows cols text data_bytes) ≡ true

  abbrev pub CanLog : LogMessage → Type 0
  CanLog m = Fits (output_length m) × CanPrepare m.type

  -- What the log has to hold before the message.
  abbrev Needs : LogMessageType → List LogFileMessageHeader → Type 0
  Needs (structure type_id text serialized) l = Known get gap l type_id
  Needs _ l = Unit {0}

  nothing_to_do :
      (s : Log) (log : List LogFileMessageHeader)
      → IsLogged get gap pid s log
      → Writes get gap pid log (some s) (λ l. Unit {0})
  nothing_to_do s log v = record {
    state = s;
    result = refl;
    after = log;
    logged = v;
    grown = Grown-refl get gap pid log;
    holds = tt;
  }

  prepare-Writes :
      (t : LogMessageType) (n : ℕ) (s : Log) (log : List LogFileMessageHeader)
      → CanPrepare t
      → IsLogged get gap pid s log
      → IsInUse get gap pid s
      → Writes get gap pid log (prepare get gap pid rounds t n s) (Needs t)
  unfolding prepare
  prepare-Writes (string text) n s log h v used = nothing_to_do s log v
  prepare-Writes (matrix type_id rows cols text data_bytes) n s log h v used = nothing_to_do s log v
  prepare-Writes (structure type_id text serialized) n s log h v used =
      let a = clear_types-Writes get gap pid s log n v used in
      Writes-after get gap pid (rw a.result refl) a.grown
        (check_type_written-Writes get gap pid rounds type_id h a.state a.after a.logged)

  pub matrix-fits : (t : LogMessageType) → CanPrepare t → matrix_fits t ≡ true
  unfolding matrix_fits
  matrix-fits (string text) h = refl
  matrix-fits (structure type_id text serialized) h = refl
  matrix-fits (matrix type_id rows cols text data_bytes) h = h

  lengths-agree : (m : LogMessage) → lengths_agree m ≡ true
  unfolding lengths_agree message_header output_length
  lengths-agree m = ground arith

  -- The header of a message is explained by what is before it.
  explained :
      (t : LogMessageType) (name : List ℕ) (h : LogFileMessageHeader)
      (l : List LogFileMessageHeader)
      → h.type ≡ header_type t
      → h.bytes ≡ name ++ message_bytes t
      → length name ≡ h.name_size
      → Needs t l
      → Explained get gap l h
  unfolding message_bytes
  explained (string text) name h l e d size k = plain e
  explained (structure type_id text serialized) name h l e d size k =
      structured type_id name (le32 (length text) ++ (text ++ serialized)) e d size k
  explained (matrix type_id rows cols text data_bytes) name h l e d size k = grid e

  header-Explained :
      (m : LogMessage) (l : List LogFileMessageHeader)
      → Needs m.type l
      → Explained get gap l (marked (message_header m))
  unfolding message_header
  header-Explained m l h = explained m.type m.name (marked (message_header m)) l refl refl refl h

  header-size : (m : LogMessage) → bytes_of (message_header m) ≡ output_length m
  unfolding message_header output_length
  header-size m = omega arith

  is_type-header : (t : LogMessageType) → is_type (header_type t) ≡ false
  is_type-header (string text) = refl
  is_type-header (structure type_id text serialized) = refl
  is_type-header (matrix type_id rows cols text data_bytes) = refl

  keep_header :
      (m : LogMessage) → messages (marked (message_header m) ∷ []) ≡ marked (message_header m) ∷ []
  unfolding message_header
  keep_header m = rw (is_type-header m.type) refl

  -- The log has gone on to hold `more` messages, and the page of the writer is in use.
  pub record Logs (log : List LogFileMessageHeader) (out : Option Log)
      (more : List LogFileMessageHeader) : Type 0 where
    pub state : Log
    pub result : out ≡ some state
    pub after : List LogFileMessageHeader
    pub logged : IsLogged get gap pid state after
    pub used : IsInUse get gap pid state
    pub same : messages after ≡ messages log ++ more

  write_message-Logs :
      (m : LogMessage) (s : Log) (log : List LogFileMessageHeader)
      → CanLog m
      → IsLogged get gap pid s log
      → IsInUse get gap pid s
      → Logs log (write_message get gap pid rounds m s) (marked (message_header m) ∷ [])
  unfolding write_message
  write_message-Logs m s log h v used =
      let a = prepare-Writes m.type (output_length m) s log h.1 v used in
      let b =
        put-IsLogged get gap pid a.state a.after (output_length m) (message_header m) a.logged h.0
          (header-size m) (header-Explained m a.after a.holds) in
      record {
        state = put a.state (output_length m) (message_header m);
        result = rw (write_message, a.result, matrix-fits m.type h.1, lengths-agree m) refl;
        after = a.after ++ marked (message_header m) ∷ [];
        logged = b.0;
        used = inl b.1;
        same =
            messages-append a.after (marked (message_header m) ∷ [])
            ∙ ap₂ (λ x y. x ++ y) a.grown.same (keep_header m);
      }

  -- The main loop, over any messages that it can log.
  abbrev pub CanLogAll : List LogMessage → Type 0
  CanLogAll [] = Unit {0}
  CanLogAll (m ∷ ms) = CanLog m × CanLogAll ms

  abbrev pub headers : List LogMessage → List LogFileMessageHeader
  headers [] = []
  headers (m ∷ ms) = marked (message_header m) ∷ headers ms

  pub write_messages-Logs :
      (ms : List LogMessage) (s : Log) (log : List LogFileMessageHeader)
      → CanLogAll ms
      → IsLogged get gap pid s log
      → IsInUse get gap pid s
      → Logs log (write_messages get gap pid rounds ms s) (headers ms)
  unfolding write_messages
  write_messages-Logs [] s log h v used = record {
    state = s;
    result = refl;
    after = log;
    logged = v;
    used = used;
    same = sym (append-nil (messages log));
  }
  write_messages-Logs (m ∷ ms) s log h v used =
      let a = write_message-Logs m s log h.0 v used in
      let b = write_messages-Logs ms a.state a.after h.1 a.logged a.used in
      record {
        state = b.state;
        result = rw a.result b.result;
        after = b.after;
        logged = b.logged;
        used = b.used;
        same =
            b.same
            ∙ ap (λ x. x ++ headers ms) a.same
            ∙ append_assoc (messages log) (marked (message_header m) ∷ []) (headers ms);
      }
