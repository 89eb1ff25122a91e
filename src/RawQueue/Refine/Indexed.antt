-- ===== src/RawQueue/Refine/Indexed.antt =====
-- `ReadMessageIndex` against `fifo_read_index`.
use miranda_dashboard.Base.{
  ℕ, max, ◌<◌, ◌+◌, ◌-◌, ◌≡◌, ◌≢◌, ◌∙◌, refl, sym, List, Option, none, some, Bool, true, false, not,
  leb, ◌||◌, ◌&&◌, ap₂, arith, ◌==◌, if◌then◌else◌, inl, inr, Bool-cases, ap, length, get_elem?,
}
use miranda_dashboard.Options.{Options, has, all_set, union}
use miranda_dashboard.RawQueue.Shm.{
  set_header, bind_blocked, M, bind_done, Ring, Shm, blocked, done, pure, non_block, peek, from_end,
}
use miranda_dashboard.RawQueue.Messages.{add_ref, increment, set_ref_count}
use miranda_dashboard.RawQueue.Read.{
  check_read_options, must_wait, read_common_start, read_common_end, entry, current_messages, seek,
  read_at, read_message_index, do_read_message_index,
}
use miranda_dashboard.RawQueue.View.{
  IsValid, contents, length-contents, get_elem?-last, get_elem?-contents, wrap,
}
use miranda_dashboard.RawQueue.Fifo.{Reply, view, fifo_read_index, Ensures}
use miranda_dashboard.RawQueue.Refine.Sound.{IsSound}
use miranda_dashboard.RawQueue.Refine.Reads.{ended, started}

-- Where a reader that is not at the end starts: at the oldest message that it has not seen.
module _ (o : Options) (r : Ring) (v : IsValid r) (ne : r.data_start ≢ r.data_end) (index : ℕ)
    (unseen : index < r.messages) (fe : has o from_end ≡ false) where
  abbrev gone : ℕ
  gone = r.messages - current_messages r

  seek-start : (seek o r index).0 ≡ wrap r.data_length (r.data_start + (max gone index - gone))
  unfolding seek
  seek-start = ground arith

  seek-entry : get_elem? (contents r) (max gone index - gone) ≡ some (entry r (seek o r index).0)
  seek-entry = rw seek-start (get_elem?-contents (max gone index - gone) v (ground (arith, v)))

  seek-index : (seek o r index).1 ≡ (if has o peek then max gone index else max gone index + 1)
  unfolding seek
  seek-index = ground arith

-- The state once `msg` has one reference more.
abbrev held : ℕ → Shm → Shm
held msg s = record s {
  headers =
      set_header s.headers msg
        (record (s.headers msg) { ref_count = add_ref (s.headers msg).ref_count });
}

read_at-done :
    (i index : ℕ) (s : Shm)
    → read_at (i, index) s
      ≡ done (some (entry s.self.ring i), index) (ended (held (entry s.self.ring i) s))
unfolding read_at increment set_ref_count read_common_end
read_at-done i index s = refl

start-found :
    (o : Options) (index : ℕ) (s : Shm)
    → must_wait s.self.ring (some index) ≡ false
    → read_common_start o (some index) s ≡ done true (started s)
unfolding read_common_start
start-found o index s found = rw found

-- The state in which a reader waits.
abbrev waiting : Shm → Shm
waiting s = record s { self = record s.self { readable_waiting = true } }

start-refused :
    (o : Options) (index : ℕ) (s : Shm)
    → must_wait s.self.ring (some index) ≡ true
    → has o non_block ≡ true
    → read_common_start o (some index) s ≡ done false s
unfolding read_common_start
start-refused o index s e nb = rw (e, nb)

start-waits :
    (o : Options) (index : ℕ) (s : Shm)
    → must_wait s.self.ring (some index) ≡ true
    → has o non_block ≡ false
    → read_common_start o (some index) s ≡ blocked (waiting s)
unfolding read_common_start
start-waits o index s e nb = rw (e, nb)

-- What `DoReadMessageIndex` does after `ReadCommonStart`.
abbrev resume : Options → ℕ → Bool → M (Option ℕ × ℕ)
resume o index ready =
    if ready then (λ t. read_at (seek o t.self.ring index) t) else pure (none, index)

do_index-found :
    (o : Options) (index : ℕ) (s : Shm)
    → must_wait s.self.ring (some index) ≡ false
    → do_read_message_index o index s ≡ read_at (seek o s.self.ring index) (started s)
unfolding do_read_message_index
do_index-found o index s found =
    bind_done (read_common_start o (some index)) (resume o index) (start-found o index s found)

do_index-none :
    (o : Options) (index : ℕ) (s : Shm)
    → must_wait s.self.ring (some index) ≡ true
    → do_read_message_index o index s
      ≡ (if has o non_block then done (none, index) s else blocked (waiting s))
unfolding do_read_message_index
do_index-none o index s e = elim (Bool-cases (has o non_block)) [
  | inl nb ↦
      rw nb (
        bind_done (read_common_start o (some index)) (resume o index)
          (start-refused o index s e nb))
  | inr nb ↦ rw nb (
      bind_blocked (read_common_start o (some index)) (resume o index) (start-waits o index s e nb))
]

-- The reply of `fifo_read_index` where there is a message that the reader has not seen.
abbrev taken_index : List ℕ → ℕ → ℕ → Options → Reply (Option ℕ × ℕ)
taken_index q messages index o =
    if has o from_end
    then Reply.returns (get_elem? q (length q - 1), messages) q
    else let gone = messages - length q in
      let next = max gone index in
      Reply.returns (get_elem? q (next - gone), if has o peek then next else next + 1) q

module _ (o : Options) (s : Shm) (v : IsSound s) (ne : s.self.data_start ≢ s.self.data_end)
    (index : ℕ) (unseen : index < s.self.messages) where
  abbrev seen_at : ℕ × ℕ → Reply (Option ℕ × ℕ)
  seen_at (i, next) = Reply.returns (some (entry s.self.ring i), next) (contents s.self.ring)

  seek-taken_end :
      has o from_end ≡ true
      → seen_at (seek o s.self.ring index)
        ≡ taken_index (contents s.self.ring) s.self.messages index o
  unfolding seek
  seek-taken_end fe =
      rw (fe, length-contents)
        (ap (λ m. Reply.returns (m, s.self.messages) (contents s.self.ring))
          (sym (get_elem?-last v.valid ne)))

  seek-taken_next :
      has o from_end ≡ false
      → seen_at (seek o s.self.ring index)
        ≡ taken_index (contents s.self.ring) s.self.messages index o
  seek-taken_next fe =
      rw (length-contents, fe)
        (ap₂ (λ m i. Reply.returns (m, i) (contents s.self.ring))
          (sym (seek-entry o s.self.ring v.valid ne index unseen fe))
          (seek-index o s.self.ring v.valid ne index unseen fe))

  view-read_at :
      view (read_at (seek o s.self.ring index) (started s))
      ≡ taken_index (contents s.self.ring) s.self.messages index o
  view-read_at =
      ap view (read_at-done (seek o s.self.ring index).0 (seek o s.self.ring index).1 (started s))
      ∙ elim (Bool-cases (has o from_end)) [
        | inl fe ↦ seek-taken_end fe
        | inr fe ↦ seek-taken_next fe
      ]

-- The wait of `ReadCommonStart`, told from the contents.
must_wait-contents :
    (r : Ring) (index : ℕ)
    → IsValid r
    → must_wait r (some index) ≡ (length (contents r) == 0 || leb r.messages index)
unfolding must_wait
must_wait-contents r index v = rw length-contents (ground (arith, v))

read_at-IsSound : (p : ℕ × ℕ) (s : Shm) → IsSound s → Ensures IsSound (read_at p (started s))
read_at-IsSound (i, next) s v =
    rw (read_at-done i next (started s)) (record { valid = v.valid; alone = v.alone })

readable_index :
    (r : Ring) (index : ℕ)
    → must_wait r (some index) ≡ false
    → (r.data_start ≢ r.data_end) × (index < r.messages)
unfolding must_wait
readable_index r index h = ground arith

do_index_view :
    (o : Options) (index : ℕ) (s : Shm)
    → IsSound s
    → (view (do_read_message_index o index s) ≡ (
        if must_wait s.self.ring (some index)
        then (if has o non_block
            then Reply.returns (none, index) (contents s.self.ring)
            else Reply.waits (contents s.self.ring))
        else taken_index (contents s.self.ring) s.self.messages index o))
      × Ensures IsSound (do_read_message_index o index s)
do_index_view o index s v = elim (Bool-cases (must_wait s.self.ring (some index))) [
  | inl e ↦ rw (do_index-none o index s e, e) (ground arith)
  | inr e ↦
      let (ne, unseen) = readable_index s.self.ring index e in
      rw (do_index-found o index s e, e)
        (view-read_at o s v ne index unseen, read_at-IsSound (seek o s.self.ring index) s v)
]

-- A call of `ReadMessageIndex` returns what `fifo_read_index` does, for any options and any index
-- from zero on: the oldest message in the queue that the reader has not seen, or the newest, or NULL
-- or a wait if there is none; it takes nothing out of the queue, and crashes on options that are not
-- valid. After the oldest unseen message the index is past it; with `kPeek` it is at it, and so it
-- is moved there if the reader has fallen behind what the queue still has.
pub read_index_refines :
    (o : Options) (index : ℕ) (s : Shm)
    → IsSound s
    → view (read_message_index o index s)
      ≡ fifo_read_index (contents s.self.ring) s.self.messages index o
unfolding read_message_index fifo_read_index
read_index_refines o index s v =
    elim (Bool-cases (check_read_options o && not (all_set o (union from_end peek)))) [
      | inl valid ↦
          rw (valid, ← must_wait-contents s.self.ring index v.valid) (do_index_view o index s v).0
      | inr invalid ↦ rw invalid
    ]

pub read_index-IsSound :
    (o : Options) (index : ℕ) (s : Shm) → IsSound s → Ensures IsSound (read_message_index o index s)
unfolding read_message_index
read_index-IsSound o index s v =
    elim (Bool-cases (check_read_options o && not (all_set o (union from_end peek)))) [
      | inl valid ↦ rw valid (do_index_view o index s v).1
      | inr invalid ↦ rw invalid tt
    ]
