-- ===== src/RawQueue/Refine/Sound.antt =====
-- The invariant of a `RawQueue`, and that the calls which write keep it.
use miranda_dashboard.Base.{ℕ, ◌≡◌, ◌∙◌, none, true, false, inl, inr, Bool-cases, get_or}
use miranda_dashboard.Options.{Options, has}
use miranda_dashboard.RawQueue.Shm.{Shm, non_block, override, is_writable}
use miranda_dashboard.RawQueue.Write.{
  place, write_loop, do_write_message, do_free_message, write_message, write_message_with,
  check_write_options,
}
use miranda_dashboard.RawQueue.View.{IsValid, placed-IsValid}
use miranda_dashboard.RawQueue.Refine.Writes.{
  write_loop_room, writable-overridden, overridden-IsValid, write_loop_refused, write_loop_waits,
  write_loop_overrides, overridden,
}
use miranda_dashboard.RawQueue.Fifo.{Ensures}
use miranda_dashboard.RawQueue.Refine.Freeing.{decremented, ring-decremented, recycle-decremented}

-- The invariant of a queue that has no recycle queue.
pub record IsSound (s : Shm) : Type 0 where
  pub valid : IsValid s.self.ring
  pub alone : s.recycle ≡ none

place-IsSound :
    (msg : ℕ) (s : Shm) → IsSound s → is_writable s.self.ring ≡ true → Ensures IsSound (place msg s)
unfolding place
place-IsSound msg s v w = record { valid = placed-IsValid msg v.valid w; alone = v.alone }

pub decremented-IsSound : (msg : ℕ) (s : Shm) → IsSound s → IsSound (decremented msg s)
decremented-IsSound msg s v = record {
  valid = rw (ring-decremented msg s) v.valid;
  alone = recycle-decremented msg s ∙ v.alone;
}

overridden-IsSound :
    (s : Shm) → IsSound s → is_writable s.self.ring ≡ false → IsSound (overridden s)
unfolding overridden
overridden-IsSound s v full = record {
  valid = unfold overridden in overridden-IsValid 0 (record { bits = 0 }) s v.alone full v.valid;
  alone = recycle-decremented (get_or s.self.entries s.self.data_start 0) s ∙ v.alone;
}

module _ (msg : ℕ) (o : Options) (s : Shm) (v : IsSound s)
    (full : is_writable s.self.ring ≡ false) where
  full_loop-IsSound : Ensures IsSound (write_loop do_free_message 2 msg o s)
  full_loop-IsSound = elim (Bool-cases (has o non_block)) [
    | inl nb ↦ rw (write_loop_refused msg o s v.alone full nb) (decremented-IsSound msg s v)
    | inr nb ↦ elim (Bool-cases (has o override)) [
      | inl ov ↦ rw (write_loop_overrides msg o s v.alone full v.valid nb ov) (
          place-IsSound msg (overridden s) (overridden-IsSound s v full)
            (writable-overridden msg o s v.alone full v.valid))
      | inr ov ↦ rw (write_loop_waits msg o s v.alone full nb ov) v
    ]
  ]

loop-IsSound :
    (msg : ℕ) (o : Options) (s : Shm)
    → IsSound s
    → Ensures IsSound (write_loop do_free_message 2 msg o s)
loop-IsSound msg o s v = elim (Bool-cases (is_writable s.self.ring)) [
  | inl room ↦ rw (write_loop_room do_free_message 1 msg o s room) (place-IsSound msg s v room)
  | inr full ↦ full_loop-IsSound msg o s v full
]

-- A call of `WriteMessage` leaves the queue sound, whatever the options and however it ends, and
-- it does end.
pub write-IsSound :
    (msg : ℕ) (o : Options) (s : Shm) → IsSound s → Ensures IsSound (write_message msg o s)
unfolding write_message write_message_with do_write_message
write-IsSound msg o s v = elim (Bool-cases (check_write_options o)) [
  | inl valid ↦ rw valid (loop-IsSound msg o s v)
  | inr invalid ↦ rw invalid tt
]
