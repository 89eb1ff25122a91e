-- ===== src/RawQueue/Create.antt =====
-- The constructor of `RawQueue`, and `FreeMessages`.
use miranda_dashboard.Base.{ℕ, zero, suc, ◌+◌, List, Option, none, some, false, ltb, if◌then◌else◌}
use mathlib.Core.Option
use miranda_dashboard.RawQueue.Shm.{MessageHeader, Shm, set_header}

abbrev pub extra_messages : ℕ
extra_messages = 20

-- The loop that makes the free list. The `k`-th allocation gives the address `addresses k`.
unfoldable pub link_free :
    (ℕ → ℕ) → ℕ → ℕ → Option ℕ → (ℕ → MessageHeader) → Option ℕ × (ℕ → MessageHeader)
link_free addresses i zero previous h = (previous, h)
link_free addresses i (suc n) previous h =
    let message = addresses i in
    link_free addresses (i + 1) n (some message)
      (set_header h message (record (h message) { next = previous }))

-- The constructor, over what `shm_malloc` returns: the addresses of the messages, the uninitialised
-- array and the uninitialised headers. `none` is LOG(FATAL).
unfoldable pub new_queue : (ℕ → ℕ) → List ℕ → (ℕ → MessageHeader) → List ℕ → ℕ → ℕ → ℕ → Option Shm
new_queue addresses storage h name message_length hash queue_length =
    if ltb queue_length 1
    then none
    else some (record {
      headers = (link_free addresses 0 (queue_length + extra_messages) none h).1;
      self = record {
        name = name;
        message_length = message_length;
        hash = hash;
        queue_length = queue_length;
        ring = record {
          entries = storage;
          data_length = queue_length + 1;
          data_start = 0;
          data_end = 0;
          messages = 0;
        };
        free_messages = (link_free addresses 0 (queue_length + extra_messages) none h).0;
        writable_start = false;
        readable_waiting = false;
        readable = 0;
        writable = 0;
      };
      recycle = none;
    })

-- `FreeMessages`, for a number of rounds; `none` if the list is longer.
unfoldable pub count_free : ℕ → (ℕ → MessageHeader) → Option ℕ → Option ℕ
count_free rounds h none = some 0
count_free zero h (some m) = none
count_free (suc rounds) h (some m) = Option.map suc (count_free rounds h (h m).next)
