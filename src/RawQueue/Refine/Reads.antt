-- ===== src/RawQueue/Refine/Reads.antt =====
-- `ReadMessage` against `fifo_read`.
use miranda_dashboard.Base.{
  ℕ, ◌+◌, ◌-◌, ◌≡◌, ◌≢◌, ◌∙◌, refl, sym, List, [], Option, none, some, true, false, not, ◌&&◌, ap₂,
  arith, ◌==◌, if◌then◌else◌, inl, inr, Bool-cases, length, drop, get_elem?,
}
use miranda_dashboard.Options.{Options, has}
use miranda_dashboard.RawQueue.Shm.{
  bind_done, Shm, Outcome, blocked, done, ◌>>◌, pure, non_block, is_writable, peek, from_end,
}
use miranda_dashboard.RawQueue.Messages.{increment, set_ref_count}
use miranda_dashboard.RawQueue.Write.{advance_start}
use miranda_dashboard.RawQueue.Read.{
  check_read_options, must_wait, read_common_start, read_common_end, last_message_index, entry,
  drain, pick_message, read_picked, do_read_message, read_message, current_messages,
}
use miranda_dashboard.RawQueue.View.{
  contents, length-contents, contents-dropped, contents-empty, get_elem?-last,
}
use miranda_dashboard.RawQueue.Fifo.{Reply, view, fifo_read, Ensures}
use miranda_dashboard.RawQueue.Refine.Sound.{IsSound}
use miranda_dashboard.RawQueue.Refine.Drain.{
  advanced, advance_start-advanced, ring-advanced, advanced-IsSound, Drained, drain-Drained, unread,
}
use native.Mathlib.Decide.{ℕ_discrete}

-- What `pick_message` comes to on a queue that holds something.
record Picked (o : Options) (s : Shm) (out : Outcome ℕ) : Type 0 where
  msg : ℕ
  after : Shm
  returned : out ≡ done msg after
  chosen :
      get_elem?
        (contents s.self.ring)
        (if has o from_end then current_messages s.self.ring - 1 else 0)
      ≡ some msg
  left : contents after.self.ring ≡ (
      if has o peek
      then contents s.self.ring
      else if has o from_end
      then []
      else drop 1 (contents s.self.ring))
  sound : IsSound after

module _ (o : Options) (s : Shm) (v : IsSound s) (ne : s.self.data_start ≢ s.self.data_end) where
  oldest : get_elem? (contents s.self.ring) 0 ≡ some (entry s.self.ring s.self.data_start)
  oldest = rw (contents-dropped v.valid ne)

  pick-peek_end : has o from_end ≡ true → has o peek ≡ true → Picked o s (pick_message o s)
  unfolding pick_message increment set_ref_count
  pick-peek_end fe pk =
      rw (fe, pk)
        (record {
          msg = entry s.self.ring (last_message_index s.self.ring);
          after = _;
          returned = refl;
          chosen = rw fe (get_elem?-last v.valid ne);
          left = rw pk;
          sound = record { valid = v.valid; alone = v.alone };
        })

  pick-peek : has o from_end ≡ false → has o peek ≡ true → Picked o s (pick_message o s)
  unfolding pick_message increment set_ref_count
  pick-peek fe pk =
      rw (fe, pk)
        (record {
          msg = entry s.self.ring s.self.data_start;
          after = _;
          returned = refl;
          chosen = rw fe oldest;
          left = rw pk;
          sound = record { valid = v.valid; alone = v.alone };
        })

  pick-take : has o from_end ≡ false → has o peek ≡ false → Picked o s (pick_message o s)
  unfolding pick_message
  pick-take fe pk =
      rw (fe, pk)
        (record {
          msg = entry s.self.ring s.self.data_start;
          after = advanced s;
          returned =
              bind_done advance_start (λ _. pure (entry s.self.ring s.self.data_start))
                (advance_start-advanced s);
          chosen = rw fe oldest;
          left = rw (pk, fe, ring-advanced s, contents-dropped v.valid ne);
          sound = advanced-IsSound s v ne;
        })

  pick-drain : has o from_end ≡ true → has o peek ≡ false → Picked o s (pick_message o s)
  unfolding pick_message
  pick-drain fe pk =
      rw (fe, pk)
        (record {
          msg = entry s.self.ring (last_message_index s.self.ring);
          after = drained.after;
          returned = drained.returned;
          chosen = rw fe (get_elem?-last v.valid ne);
          left = rw (pk, fe, drained.emptied) (contents-empty _ refl);
          sound = drained.sound;
        })
    where
      drained : Drained s (drain s.self.data_length s)
      drained = drain-Drained s.self.data_length s v ne (ground (arith, v.valid))

  pick-Picked : Picked o s (pick_message o s)
  pick-Picked = elim (Bool-cases (has o from_end)) [
    | inl fe ↦ elim (Bool-cases (has o peek)) [
      | inl pk ↦ pick-peek_end fe pk
      | inr pk ↦ pick-drain fe pk
    ]
    | inr fe ↦ elim (Bool-cases (has o peek)) [
      | inl pk ↦ pick-peek fe pk
      | inr pk ↦ pick-take fe pk
    ]
  ]

abbrev pub ended : Shm → Shm
ended s = record s {
  self = record s.self {
    writable =
        if is_writable s.self.ring && not s.self.writable_start
        then s.self.writable + 1
        else s.self.writable;
  };
}

read_common_end-ended : (s : Shm) → read_common_end s ≡ done tt (ended s)
unfolding read_common_end
read_common_end-ended s = refl

read_picked-done :
    (o : Options) (s : Shm) (p : Picked o s (pick_message o s))
    → read_picked o s ≡ done (some p.msg) (ended p.after)
unfolding read_picked
read_picked-done o s p =
    bind_done (pick_message o) (λ msg. read_common_end >> pure (some msg)) p.returned
    ∙ bind_done read_common_end (λ _. pure (some p.msg)) (read_common_end-ended p.after)

-- The reply of `fifo_read` where there is a message.
abbrev taken : List ℕ → Options → Reply (Option ℕ)
taken q o =
    Reply.returns (get_elem? q (if has o from_end then length q - 1 else 0))
      (if has o peek then q else if has o from_end then [] else drop 1 q)

view-read_picked :
    (o : Options) (s : Shm)
    → IsSound s
    → s.self.data_start ≢ s.self.data_end
    → (view (read_picked o s) ≡ taken (contents s.self.ring) o) × Ensures IsSound (read_picked o s)
view-read_picked o s v ne = rw (read_picked-done o s p) (seen, sound)
  where
    p : Picked o s (pick_message o s)
    p = pick-Picked o s v ne

    seen : view (done (some p.msg) (ended p.after)) ≡ taken (contents s.self.ring) o
    seen = rw length-contents (ap₂ Reply.returns (sym p.chosen) p.left)

    sound : IsSound (ended p.after)
    sound = record { valid = p.sound.valid; alone = p.sound.alone }

-- The state once `ReadCommonStart` has found a message.
abbrev pub started : Shm → Shm
started s = record s { self = record s.self { writable_start = is_writable s.self.ring } }

do_read-found :
    (o : Options) (s : Shm)
    → s.self.data_start ≢ s.self.data_end
    → do_read_message o s ≡ read_picked o (started s)
unfolding do_read_message read_common_start must_wait
do_read-found o s ne = ground arith

do_read-empty :
    (o : Options) (s : Shm)
    → s.self.data_start ≡ s.self.data_end
    → do_read_message o s ≡ (
        if has o non_block
        then done none s
        else blocked (record s { self = record s.self { readable_waiting = true } }))
unfolding do_read_message read_common_start must_wait
do_read-empty o s e = ground arith

do_read_view :
    (o : Options) (s : Shm)
    → IsSound s
    → (view (do_read_message o s) ≡ (
        if length (contents s.self.ring) == 0
        then (if has o non_block
            then Reply.returns none (contents s.self.ring)
            else Reply.waits (contents s.self.ring))
        else taken (contents s.self.ring) o))
      × Ensures IsSound (do_read_message o s)
do_read_view o s v = elim (ℕ_discrete s.self.data_start s.self.data_end) [
  | yes e ↦ rw (do_read-empty o s e) (ground (arith, contents-empty s.self.ring e))
  | no ne ↦ rw (do_read-found o s ne) (
      ground (
        arith,
        view-read_picked o (started s) (record { valid = v.valid; alone = v.alone }) ne,
        length-contents s.self.ring,
        unread s.self.ring v.valid ne,
      ))
]

-- A call of `ReadMessage` does to the queue what `fifo_read` does to its messages, for any options:
-- it crashes on options that are not valid, and it returns the oldest or the newest message,
-- leaving all, all but the oldest or none in the queue; on an empty queue it returns NULL or waits.
-- It always ends.
pub read_refines :
    (o : Options) (s : Shm)
    → IsSound s
    → view (read_message o s) ≡ fifo_read (contents s.self.ring) o
unfolding read_message fifo_read
read_refines o s v = elim (Bool-cases (check_read_options o)) [
  | inl valid ↦ rw valid (do_read_view o s v).0
  | inr invalid ↦ rw invalid
]

-- A call of `ReadMessage` leaves the queue sound, whatever the options and however it ends, and it
-- does end.
pub read-IsSound : (o : Options) (s : Shm) → IsSound s → Ensures IsSound (read_message o s)
unfolding read_message
read-IsSound o s v = elim (Bool-cases (check_read_options o)) [
  | inl valid ↦ rw valid (do_read_view o s v).1
  | inr invalid ↦ rw invalid tt
]
