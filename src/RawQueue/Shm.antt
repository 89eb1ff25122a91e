-- ===== src/RawQueue/Shm.antt =====
-- The state of a `RawQueue` in shared memory, and what a call on it can come to.
use miranda_dashboard.Base.{ℕ, ◌+◌, ◌≡◌, Bool, List, Option, ◌==◌, if◌then◌else◌}
use miranda_dashboard.Options.{Options}

-- `RawQueue::MessageHeader`; a message is named by the address of its header.
-- `ref_count` is the bit pattern of the `int32_t`.
pub record MessageHeader : Type 0 where
  pub next : Option ℕ
  pub ref_count : ℕ

-- The members under `data_lock_` that hold the messages in the queue.
pub record Ring : Type 0 where
  pub entries : List ℕ
  pub data_length : ℕ
  pub data_start : ℕ
  pub data_end : ℕ
  pub messages : ℕ

-- `readable` and `writable` count the broadcasts made on the two conditions.
pub record RawQueue : Type 0 where
  pub name : List ℕ
  pub message_length : ℕ
  pub hash : ℕ
  pub queue_length : ℕ
  pub ring : Ring
  pub open ring use *
  pub free_messages : Option ℕ
  pub writable_start : Bool
  pub readable_waiting : Bool
  pub readable : ℕ
  pub writable : ℕ

-- The message headers, the queue that the calls are made on, and its recycle queue, which has
-- none of its own.
pub record Shm : Type 0 where
  pub headers : ℕ → MessageHeader
  pub self : RawQueue
  pub open self use *
  pub recycle : Option RawQueue

-- `died` is LOG(FATAL) or abort(); `blocked` is a Wait() on a condition, after which the call
-- starts over; `stuck` is a loop that runs out of its rounds.
pub data Outcome (A : Type 0) : Type 0 where
  died stuck : Outcome A
  blocked : Shm → Outcome A
  done : A → Shm → Outcome A

abbrev pub M : Type 0 → Type 0
M A = Shm → Outcome A

infixl 5 ◌>>=◌ ◌>>◌
abbrev pub ◌>>=◌ : {A B : Type 0} → M A → (A → M B) → M B
◌>>=◌ step rest s = elim (step s) [
  | died ↦ died
  | stuck ↦ stuck
  | blocked s' ↦ blocked s'
  | done a s' ↦ rest a s'
]

abbrev pub ◌>>◌ : {B : Type 0} → M (Unit {0}) → M B → M B
step >> rest = step >>= λ ended. rest

-- A step that is done hands its result to the rest.
pub bind_done :
    {A B : Type 0} (m : M A) (f : A → M B) {a : A} {s t : Shm}
    → m s ≡ done a t
    → (m >>= f) s ≡ f a t
bind_done m f e = rw (e, ◌>>=◌)

-- A step that waits does not go on.
pub bind_blocked :
    {A B : Type 0} (m : M A) (f : A → M B) {s t : Shm} → m s ≡ blocked t → (m >>= f) s ≡ blocked t
bind_blocked m f e = rw (e, ◌>>=◌)

abbrev pub pure : {A : Type 0} → A → M A
pure a s = done a s

-- A write of one header.
abbrev pub set_header : (ℕ → MessageHeader) → ℕ → MessageHeader → ℕ → MessageHeader
set_header h p v q = if q == p then v else h q

abbrev pub with_ring : RawQueue → Ring → RawQueue
with_ring q r = record q { ring = r }

-- The bits of the five options.
abbrev pub peek : Options
peek = record { bits = 1 }

abbrev pub from_end : Options
from_end = record { bits = 2 }

abbrev pub non_block : Options
non_block = record { bits = 4 }

abbrev pub block : Options
block = record { bits = 8 }

abbrev pub override : Options
override = record { bits = 16 }

-- `index_add1`; its assertion is compiled out.
abbrev pub index_add1 : Ring → ℕ → ℕ
index_add1 r index = if index + 1 == r.data_length then 0 else index + 1

abbrev pub is_readable : Ring → Bool
is_readable r = if r.data_end == r.data_start then Bool.false else Bool.true

abbrev pub is_writable : Ring → Bool
is_writable r = if index_add1 r r.data_end == r.data_start then Bool.false else Bool.true
