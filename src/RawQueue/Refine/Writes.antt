-- ===== src/RawQueue/Refine/Writes.antt =====
-- `WriteMessage` against `fifo_write`.
use miranda_dashboard.Base.{
  ℕ, ◌-◌, ◌≡◌, ◌≢◌, ◌∙◌, [], ◌∷◌, ◌++◌, none, true, false, arith, if◌then◌else◌, inl, inr,
  Bool-cases, ap, drop, get_or,
}
use miranda_dashboard.Options.{Options, has}
use miranda_dashboard.RawQueue.Shm.{
  bind_done, Ring, Shm, blocked, done, ◌>>◌, pure, non_block, override, is_writable,
}
use miranda_dashboard.RawQueue.Write.{
  dropped, place, advance_start, write_loop, do_write_message, do_free_message, decrement,
  write_message, write_message_with,
}
use miranda_dashboard.RawQueue.View.{
  IsValid, contents, length-contents, contents-placed, contents-dropped, dropped-IsValid,
}
use miranda_dashboard.RawQueue.Fifo.{Reply, view, fifo_write}
use miranda_dashboard.RawQueue.Refine.Freeing.{decremented, decrement-decremented, ring-decremented}

-- How many messages the queue can hold.
abbrev pub capacity : Ring → ℕ
capacity r = r.data_length - 1

pub view-place :
    (msg : ℕ) (s : Shm)
    → IsValid s.self.ring
    → is_writable s.self.ring ≡ true
    → view (place msg s) ≡ Reply.returns true (contents s.self.ring ++ (msg ∷ []))
unfolding place
view-place msg s v w = ap (Reply.returns true) (contents-placed msg v w)

-- A loop that finds room stores the message.
pub write_loop_room :
    (free : _) (rounds msg : ℕ) (o : Options) (s : Shm)
    → is_writable s.self.ring ≡ true
    → write_loop free (ℕ.suc rounds) msg o s ≡ place msg s
unfolding write_loop
write_loop_room free rounds msg o s w = ground arith

-- The oldest message is given up to make room.
unfoldable pub overridden : Shm → Shm
overridden s =
    let t = decremented (get_or s.self.entries s.self.data_start 0) s in
    record t { self = record t.self { ring = dropped t.self.ring } }

pub ring-overridden : (s : Shm) → (overridden s).self.ring ≡ dropped s.self.ring
unfolding overridden
ring-overridden s = ap dropped (ring-decremented (get_or s.self.entries s.self.data_start 0) s)

module _ (msg : ℕ) (o : Options) (s : Shm) (alone : s.recycle ≡ none)
    (full : is_writable s.self.ring ≡ false) where
  pub unequal : IsValid s.self.ring → s.self.data_start ≢ s.self.data_end
  unequal v = ground arith

  pub writable-overridden : IsValid s.self.ring → is_writable (overridden s).self.ring ≡ true
  writable-overridden v = rw (ring-overridden s) (ground arith)

  pub overridden-IsValid : IsValid s.self.ring → IsValid (overridden s).self.ring
  overridden-IsValid v = rw (ring-overridden s) (dropped-IsValid v (unequal v))

  pub write_loop_refused :
      has o non_block ≡ true → write_loop do_free_message 2 msg o s ≡ done false (decremented msg s)
  unfolding write_loop decrement
  write_loop_refused nb =
      ground
        (arith, bind_done (decrement msg) (λ _. pure false) (decrement-decremented msg s alone))

  pub write_loop_waits :
      has o non_block ≡ false
      → has o override ≡ false
      → write_loop do_free_message 2 msg o s ≡ blocked s
  unfolding write_loop
  write_loop_waits nb ov = ground arith

  write_loop_full :
      has o non_block ≡ false
      → has o override ≡ true
      → write_loop do_free_message 2 msg o s
        ≡ (do
          decrement (get_or s.self.entries s.self.data_start 0)
          advance_start
          write_loop do_free_message 1 msg o)
            s
  unfolding write_loop decrement
  write_loop_full nb ov = ground arith

  pub write_loop_overrides :
      IsValid s.self.ring
      → has o non_block ≡ false
      → has o override ≡ true
      → write_loop do_free_message 2 msg o s ≡ place msg (overridden s)
  unfolding overridden advance_start
  write_loop_overrides v nb ov =
      write_loop_full nb ov
      ∙ bind_done (decrement _) (λ _. advance_start >> write_loop do_free_message 1 msg o)
          (decrement-decremented (get_or s.self.entries s.self.data_start 0) s alone)
      ∙ write_loop_room do_free_message 0 msg o (overridden s) (writable-overridden v)

  -- What a client sees of a write to a full queue.
  view_full :
      IsValid s.self.ring
      → view (write_loop do_free_message 2 msg o s) ≡ (
          if has o non_block
          then Reply.returns false (contents s.self.ring)
          else if has o override
          then Reply.returns true (drop 1 (contents s.self.ring) ++ (msg ∷ []))
          else Reply.waits (contents s.self.ring))
  view_full v = elim (Bool-cases (has o non_block)) [
    | inl nb ↦
        ap view (write_loop_refused nb)
        ∙ rw nb (ap (λ r. Reply.returns false (contents r)) (ring-decremented msg s))
    | inr nb ↦ elim (Bool-cases (has o override)) [
      | inl ov ↦
          ap view (write_loop_overrides v nb ov)
          ∙ view-place msg (overridden s) (overridden-IsValid v) (writable-overridden v)
          ∙ rw (nb, ov, ring-overridden s, contents-dropped v (unequal v))
      | inr ov ↦ ap view (write_loop_waits nb ov) ∙ rw (nb, ov)
    ]
  ]

-- A call of `WriteMessage` does to the queue what `fifo_write` does to its messages, for any
-- options, full or not: it crashes on options that are not valid, it appends the message where
-- there is room, and where there is none it fails, drops the oldest message or waits. It always
-- ends.
pub write_refines :
    (msg : ℕ) (o : Options) (s : Shm)
    → IsValid s.self.ring
    → s.recycle ≡ none
    → view (write_message msg o s) ≡ fifo_write (capacity s.self.ring) (contents s.self.ring) msg o
unfolding write_message write_message_with do_write_message fifo_write
write_refines msg o s v alone = elim (Bool-cases (is_writable s.self.ring)) [
  | inl room ↦ ground (
    arith,
    ap view (write_loop_room do_free_message 1 msg o s room),
    view-place msg s v room,
    length-contents s.self.ring,
  )
  | inr full ↦ ground (arith, length-contents s.self.ring, view_full msg o s alone full v)
]
