-- ===== src/RawQueue/Messages.antt =====
-- Reference counts and the free list of queue.cc. A compare/exchange loop is one step here: no
-- other task touches the list between its load and its exchange.
use miranda_dashboard.Base.{ℕ, ◌+◌, ◌-◌, ◌%◌, ◌^◌, none, some, ◌==◌, if◌then◌else◌}
use miranda_dashboard.RawQueue.Shm.{died, done, M, ◌>>◌, pure, set_header}

-- `int32_t` arithmetic on bit patterns.
abbrev pub add_ref : ℕ → ℕ
add_ref c = (c + 1) % 2 ^ 32

abbrev pub sub_ref : ℕ → ℕ
sub_ref c = (c + (2 ^ 32 - 1)) % 2 ^ 32

unfoldable pub set_ref_count : ℕ → ℕ → M (Unit {0})
set_ref_count msg val s =
    done tt
      (record s { headers = set_header s.headers msg (record (s.headers msg) { ref_count = val }) })

-- `IncrementMessageReferenceCount`
unfoldable pub increment : ℕ → M (Unit {0})
unfolding set_ref_count
increment msg s = set_ref_count msg (add_ref (s.headers msg).ref_count) s

-- The loop at the end of `DoFreeMessage`: the message becomes the head of the free list.
unfoldable pub push_free : ℕ → M (Unit {0})
push_free msg s = done tt (record s {
  headers = set_header s.headers msg (record (s.headers msg) { next = s.self.free_messages });
  self = record s.self { free_messages = some msg };
})

-- `GetMessage`: an empty pool is LOG(FATAL).
unfoldable pub get_message : M ℕ
unfolding set_ref_count
get_message s = elim s.self.free_messages [
  | none ↦ died
  | some header ↦
      (do set_ref_count header 1; pure header)
        (record s { self = record s.self { free_messages = (s.headers header).next } })
]

-- `DecrementMessageReferenceCount`, over what `DoFreeMessage` does.
unfoldable pub decrement_with : (ℕ → M (Unit {0})) → ℕ → M (Unit {0})
unfolding set_ref_count
decrement_with free msg s =
    let c = sub_ref (s.headers msg).ref_count in
    (do set_ref_count msg c; if c == 0 then free msg else pure tt) s
