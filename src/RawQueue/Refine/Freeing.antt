-- ===== src/RawQueue/Refine/Freeing.antt =====
-- Giving up a reference changes the headers and the free list, and nothing else.
use miranda_dashboard.Base.{
  ℕ, ◌≡◌, none, some, arith, ◌==◌, if◌then◌else◌, inl, inr, Bool-cases, ap,
}
use miranda_dashboard.RawQueue.Shm.{Shm, done, set_header}
use miranda_dashboard.RawQueue.Messages.{sub_ref, set_ref_count, push_free, decrement_with}
use miranda_dashboard.RawQueue.Write.{free_into, do_free_message, decrement}

-- The state after the count of `msg` went down to `c`.
abbrev pub recounted : ℕ → ℕ → Shm → Shm
recounted msg c s = record s {
  headers = set_header s.headers msg (record (s.headers msg) { ref_count = c });
}

abbrev pub pushed : ℕ → Shm → Shm
pushed msg s = record s {
  headers = set_header s.headers msg (record (s.headers msg) { next = s.self.free_messages });
  self = record s.self { free_messages = some msg };
}

pub decremented : ℕ → Shm → Shm
decremented msg s =
    let c = sub_ref (s.headers msg).ref_count in
    if c == 0 then pushed msg (recounted msg c s) else recounted msg c s

do_free_message-push_free :
    (msg : ℕ) (s : Shm) → s.recycle ≡ none → do_free_message msg s ≡ push_free msg s
unfolding do_free_message free_into
do_free_message-push_free msg s e = ap (free_into s msg) e

pub decrement-decremented :
    (msg : ℕ) (s : Shm) → s.recycle ≡ none → decrement msg s ≡ done tt (decremented msg s)
unfolding decrement decrement_with set_ref_count push_free decremented
decrement-decremented msg s e = elim (Bool-cases (sub_ref (s.headers msg).ref_count == 0)) [
  | inl last ↦ rw last (do_free_message-push_free msg _ e)
  | inr held ↦ rw held
]

pub ring-decremented : (msg : ℕ) (s : Shm) → (decremented msg s).self.ring ≡ s.self.ring
unfolding decremented
ring-decremented msg s = ground arith

pub recycle-decremented : (msg : ℕ) (s : Shm) → (decremented msg s).recycle ≡ s.recycle
unfolding decremented
recycle-decremented msg s = ground arith
