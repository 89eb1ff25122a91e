-- ===== src/RawQueue/Write.antt =====
-- `WriteMessage`, `DoWriteMessage`, `DoFreeMessage` and what calls them.
use miranda_dashboard.Base.{
  ℕ, zero, suc, ◌+◌, Option, none, some, Bool, true, false, not, ◌&&◌, ◌==◌, if◌then◌else◌, set,
  get_or,
}
use miranda_dashboard.Options.{Options, union, has, no_others_set, exactly_one_set}
use miranda_dashboard.RawQueue.Shm.{
  Ring, RawQueue, Shm, Outcome, died, stuck, blocked, done, M, ◌>>=◌, ◌>>◌, pure, with_ring,
  non_block, block, override, index_add1,
}
use miranda_dashboard.RawQueue.Messages.{increment, push_free, get_message, decrement_with}

-- `data_[data_end_] = msg; ++messages_; data_end_ = new_end;`
abbrev pub placed : ℕ → Ring → Ring
placed msg r = record r {
  entries = set r.entries r.data_end msg;
  messages = r.messages + 1;
  data_end = index_add1 r r.data_end;
}

-- The end of `DoWriteMessage`: a waiting reader is woken.
unfoldable pub place : ℕ → M Bool
place msg s = done true (record s {
  self = record s.self {
    ring = placed msg s.self.ring;
    readable = if s.self.readable_waiting then s.self.readable + 1 else s.self.readable;
    readable_waiting = false;
  };
})

abbrev pub dropped : Ring → Ring
dropped r = record r { data_start = index_add1 r r.data_start }

-- `data_start_ = index_add1(data_start_)`
unfoldable pub advance_start : M (Unit {0})
advance_start s = done tt (record s { self = with_ring s.self (dropped s.self.ring) })

-- The loop of `DoWriteMessage`, for a number of rounds.
unfoldable pub write_loop : (ℕ → M (Unit {0})) → ℕ → ℕ → Options → M Bool
write_loop free zero msg o s = stuck
write_loop free (suc rounds) msg o s =
    if not (index_add1 s.self.ring s.self.data_end == s.self.data_start)
    then place msg s
    else if has o non_block
    then (do decrement_with free msg; pure false) s
    else if has o override
    then (do
      decrement_with free (get_or s.self.entries s.self.data_start 0)
      advance_start
      write_loop free rounds msg o)
        s
    else blocked s

-- `DoWriteMessage`: one override makes room, so the loop has two rounds at most.
unfoldable pub do_write_message : (ℕ → M (Unit {0})) → ℕ → Options → M Bool
do_write_message free msg o = write_loop free 2 msg o

abbrev pub write_failure_options : Options
write_failure_options = union (union non_block block) override

-- The checks of `WriteMessage`: illegal or invalid options are LOG(FATAL).
unfoldable pub check_write_options : Options → Bool
unfolding union no_others_set exactly_one_set
check_write_options o =
    no_others_set o write_failure_options && exactly_one_set o write_failure_options

unfoldable pub write_message_with : (ℕ → M (Unit {0})) → ℕ → Options → M Bool
write_message_with free msg o s =
    if check_write_options o then do_write_message free msg o s else died

-- What `DoFreeMessage` does on the recycle queue: it takes a message in exchange for `msg`.
unfoldable pub recycle_message : ℕ → M ℕ
recycle_message msg = do
  new_msg ← get_message
  increment msg
  written ← write_message_with push_free msg override
  if written then pure new_msg else (λ _. died)

-- A call on the recycle queue `r` of `s`.
unfoldable pub on_recycle : {A : Type 0} → Shm → RawQueue → M A → Outcome A
on_recycle s r m = elim (m (record { headers = s.headers; self = r; recycle = none })) [
  | died ↦ died
  | stuck ↦ stuck
  | blocked t ↦ blocked (record { headers = t.headers; self = s.self; recycle = some t.self })
  | done a t ↦ done a (record { headers = t.headers; self = s.self; recycle = some t.self })
]

unfoldable pub free_into : Shm → ℕ → Option RawQueue → Outcome (Unit {0})
free_into s msg none = push_free msg s
free_into s msg (some r) = ((λ _. on_recycle s r (recycle_message msg)) >>= push_free) s

-- `DoFreeMessage`
unfoldable pub do_free_message : ℕ → M (Unit {0})
do_free_message msg s = free_into s msg s.recycle

-- `DecrementMessageReferenceCount`
unfoldable pub decrement : ℕ → M (Unit {0})
decrement = decrement_with do_free_message

-- `FreeMessage`; NULL is ignored.
unfoldable pub free_message : Option ℕ → M (Unit {0})
free_message none = pure tt
free_message (some msg) = decrement msg

-- `WriteMessage`
unfoldable pub write_message : ℕ → Options → M Bool
write_message = write_message_with do_free_message
