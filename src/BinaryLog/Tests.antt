-- ===== src/BinaryLog/Tests.antt =====
-- A log of a few messages.
use miranda_dashboard.Base.{
  ℕ, suc, ◌≡◌, refl, arith, List, [], ◌∷◌, some, inl, inr, true, false, ◌==◌, if◌then◌else◌,
}
use miranda_dashboard.LogFile.{LogFileMessageHeader, blank}
use miranda_dashboard.MessageType.{
  MessageType, Field, is_primitive, size_of, serialize, fields_size, serialized, serialize_fields,
}
use miranda_dashboard.BinaryLog.{
  Log, LogMessage, LogMessageType, string, structure, matrix, output_length, matrix_fits, new_log,
  write_messages,
}
use miranda_dashboard.BinaryLog.Written.{Loggable}
use miranda_dashboard.BinaryLog.Loop.{CanLogAll}
use miranda_dashboard.BinaryLog.ReadBack.{IsLogOf, write_messages-IsLogOf}
use miranda_dashboard.BinaryLog.Follow.{
  created, Schedule, idle, stops, extends, takes, fills, publishes, reads, follow, follow_fifo,
  opened, follow_refines,
}

-- A message with a name and a text of sizes.
abbrev text : ℕ → ℕ → LogFileMessageHeader
text name_size message_size = record blank { name_size = name_size; message_size = message_size }

-- The third message does not fit the first page.
abbrev schedule : Schedule idle
schedule = reads false (
    extends 8232 (omega arith) (
      reads true (
        takes (
          fills (text 200 8000) refl (
            reads false (
              publishes (
                reads true (
                  extends 8032 (omega arith) (
                    takes (
                      fills (text 0 8000) refl (
                        publishes (
                          extends 8000 (omega arith) (
                            reads false (
                              takes (
                                reads false (
                                  fills (text 8 7960) refl
                                    (publishes (reads true (reads true stops)))))))))))))))))))

follow_refines_example : follow idle opened schedule ≡ some (follow_fifo idle [] schedule)
follow_refines_example = follow_refines schedule

-- A type with a number and a point in it, and a point of two numbers.
abbrev field : ℕ → Field
field type = record { field_type = type; field_length = 0; field_name = 120 ∷ [] }

abbrev number : ℕ
number = 0x2004

abbrev point : MessageType
point = record {
  super_size = 8;
  id = 0x0102;
  name = 112 ∷ [];
  fields = field number ∷ field number ∷ [];
}

abbrev target : MessageType
target = record {
  super_size = 12;
  id = 0x0101;
  name = 116 ∷ [];
  fields = field number ∷ field 0x0102 ∷ [];
}

abbrev get : ℕ → MessageType
get id = if id == 0x0101 then target else point

abbrev no_gap : ℕ → List ℕ
no_gap n = []

abbrev log_message : LogMessageType → LogMessage
log_message type = record {
  seconds = 5;
  nseconds = 7;
  source = 300;
  sequence = 1;
  level = 1;
  name = 110 ∷ [];
  type = type;
}

abbrev log_messages : List LogMessage
log_messages =
    log_message (string (104 ∷ 105 ∷ []))
    ∷ log_message (structure 0x0101 (115 ∷ []) (0 ∷ 0 ∷ 0 ∷ 1 ∷ 0 ∷ 0 ∷ 0 ∷ 2 ∷ 0 ∷ 0 ∷ 0 ∷ 3 ∷ []))
    ∷ log_message (matrix number 1 1 (109 ∷ []) (0 ∷ 0 ∷ 0 ∷ 9 ∷ []))
    ∷ log_message (structure 0x0102 [] (0 ∷ 0 ∷ 0 ∷ 1 ∷ 0 ∷ 0 ∷ 0 ∷ 2 ∷ []))
    ∷ []

numbers-Loggable : (rounds : ℕ) → Loggable get no_gap 400 (suc rounds) number
unfolding is_primitive
numbers-Loggable rounds = inl refl

point-Loggable : (rounds : ℕ) → Loggable get no_gap 400 (suc (suc rounds)) 0x0102
unfolding serialize fields_size serialized serialize_fields
point-Loggable rounds =
    inr (_, refl, omega arith, (numbers-Loggable rounds, (numbers-Loggable rounds, tt)))

target-Loggable : (rounds : ℕ) → Loggable get no_gap 400 (suc (suc (suc rounds))) 0x0101
unfolding serialize fields_size serialized serialize_fields
target-Loggable rounds =
    inr (_, refl, omega arith, (numbers-Loggable (suc rounds), (point-Loggable rounds, tt)))

can_log : CanLogAll get no_gap 400 3 log_messages
unfolding output_length matrix_fits is_primitive size_of
can_log = (
  (omega arith, tt),
  ((omega arith, target-Loggable 0), ((omega arith, refl), ((omega arith, point-Loggable 1), tt))),
)

write_messages-IsLogOf_example :
    (s : Log) × (write_messages get no_gap 400 3 log_messages (new_log created) ≡ some s)
    × IsLogOf get no_gap 400 3 s log_messages
write_messages-IsLogOf_example =
    write_messages-IsLogOf get no_gap 400 3 log_messages can_log
      (tt, (omega arith, ((omega arith, omega arith, omega arith), (omega arith, tt))))
