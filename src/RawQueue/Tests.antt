-- ===== src/RawQueue/Tests.antt =====
-- A queue of two messages, full, whose ring has wrapped, and a new one.
use miranda_dashboard.Base.{ℕ, ◌≡◌, refl, ◌+◌, ◌*◌, List, [], ◌∷◌, Option, none, some, false, arith}
use miranda_dashboard.RawQueue.Shm.{MessageHeader, Ring, RawQueue, Shm, override, non_block, block}
use miranda_dashboard.RawQueue.Write.{write_message}
use miranda_dashboard.RawQueue.Read.{read_message, read_message_index}
use miranda_dashboard.RawQueue.View.{IsValid, contents, window}
use miranda_dashboard.RawQueue.Fifo.{view, fifo_write, fifo_read, fifo_read_index}
use miranda_dashboard.RawQueue.Refine.Writes.{write_refines}
use miranda_dashboard.RawQueue.Refine.Sound.{IsSound}
use miranda_dashboard.RawQueue.Refine.Reads.{read_refines}
use miranda_dashboard.RawQueue.Refine.Indexed.{read_index_refines}
use miranda_dashboard.RawQueue.Create.{new_queue, link_free, extra_messages}
use miranda_dashboard.RawQueue.History.{Call, run, run-new_queue-IsSound}

abbrev no_headers : ℕ → MessageHeader
no_headers m = record { next = none; ref_count = 1 }

abbrev full_ring : Ring
full_ring = record {
  entries = 20 ∷ 0 ∷ 10 ∷ [];
  data_length = 3;
  data_start = 2;
  data_end = 1;
  messages = 5;
}

abbrev full_queue : RawQueue
full_queue = record {
  name = [];
  message_length = 8;
  hash = 1;
  queue_length = 2;
  ring = full_ring;
  free_messages = none;
  writable_start = false;
  readable_waiting = false;
  readable = 0;
  writable = 0;
}

abbrev full : Shm
full = record { headers = no_headers; self = full_queue; recycle = none }

full_ring-IsValid : IsValid full_ring
full_ring-IsValid = record {
  sized = refl;
  roomy = omega arith;
  start_in = omega arith;
  end_in = omega arith;
  counted = omega arith;
}

full-IsSound : IsSound full
full-IsSound = record { valid = full_ring-IsValid; alone = refl }

contents-full : contents full_ring ≡ 10 ∷ 20 ∷ []
unfolding contents window
contents-full = refl

write_refines_example :
    view (write_message 30 override full) ≡ fifo_write 2 (contents full_ring) 30 override
write_refines_example = write_refines 30 override full full_ring-IsValid refl

read_refines_example : view (read_message block full) ≡ fifo_read (contents full_ring) block
read_refines_example = read_refines block full full-IsSound

read_index_refines_example :
    view (read_message_index non_block 3 full) ≡ fifo_read_index (contents full_ring) 5 3 non_block
read_index_refines_example = read_index_refines non_block 3 full full-IsSound

abbrev address : ℕ → ℕ
address i = 100 + 8 * i

address-injective : (i j : ℕ) → address i ≡ address j → i ≡ j
address-injective i j e = omega arith

abbrev linked : Option ℕ × (ℕ → MessageHeader)
linked = link_free address 0 (2 + extra_messages) none no_headers

abbrev fresh_ring : Ring
fresh_ring = record {
  entries = 0 ∷ 0 ∷ 0 ∷ [];
  data_length = 3;
  data_start = 0;
  data_end = 0;
  messages = 0;
}

-- A queue for two messages, as the constructor makes it.
abbrev fresh : Shm
fresh = record {
  headers = linked.1;
  self = record full_queue { ring = fresh_ring; free_messages = linked.0 };
  recycle = none;
}

fresh-new_queue : new_queue address (0 ∷ 0 ∷ 0 ∷ []) no_headers [] 8 1 2 ≡ some fresh
unfolding new_queue
fresh-new_queue = refl

abbrev calls : List Call
calls = Call.writes 30 override ∷ Call.reads block ∷ Call.reads_index non_block 0 ∷ []

run-new_queue-IsSound_example : IsSound (run fresh calls)
run-new_queue-IsSound_example =
    run-new_queue-IsSound address (0 ∷ 0 ∷ 0 ∷ []) no_headers [] 8 1 2 {s = fresh} calls refl
      fresh-new_queue
