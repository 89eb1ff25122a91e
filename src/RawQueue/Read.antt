-- ===== src/RawQueue/Read.antt =====
-- `ReadMessage`, `ReadMessageIndex` and what they share.
use miranda_dashboard.Base.{
  ℕ, zero, suc, ◌+◌, ◌-◌, Option, none, some, Bool, true, false, not, ◌&&◌, ◌||◌, ◌==◌,
  if◌then◌else◌, ltb, leb, get_or,
}
use miranda_dashboard.Options.{Options, union, has, no_others_set, exactly_one_set, all_set}
use miranda_dashboard.RawQueue.Shm.{
  Ring, died, stuck, blocked, done, M, ◌>>=◌, ◌>>◌, pure, peek, from_end, non_block, block,
  index_add1, is_writable,
}
use miranda_dashboard.RawQueue.Messages.{increment}
use miranda_dashboard.RawQueue.Write.{advance_start, decrement}

-- The checks of `CheckReadOptions`.
unfoldable pub check_read_options : Options → Bool
unfolding union no_others_set exactly_one_set
check_read_options o =
    no_others_set o (union (union (union peek from_end) non_block) block)
    && exactly_one_set o (union non_block block)

-- Whether the loop of `ReadCommonStart` goes on; `index` is the caller's, if it has one.
unfoldable pub must_wait : Ring → Option ℕ → Bool
must_wait r none = r.data_start == r.data_end
must_wait r (some index) = r.data_start == r.data_end || leb r.messages index

-- `ReadCommonStart`
unfoldable pub read_common_start : Options → Option ℕ → M Bool
read_common_start o index s =
    if must_wait s.self.ring index
    then if has o non_block
      then done false s
      else blocked (record s { self = record s.self { readable_waiting = true } })
    else done true (record s { self = record s.self { writable_start = is_writable s.self.ring } })

-- `ReadCommonEnd`: a queue that became writable wakes the writers.
unfoldable pub read_common_end : M (Unit {0})
read_common_end s = done tt (record s {
  self = record s.self {
    writable =
        if is_writable s.self.ring && not s.self.writable_start
        then s.self.writable + 1
        else s.self.writable;
  };
})

unfoldable pub last_message_index : Ring → ℕ
last_message_index r = if r.data_end == 0 then r.data_length - 1 else r.data_end - 1

abbrev pub entry : Ring → ℕ → ℕ
entry r i = get_or r.entries i 0

-- The loop of `DoReadMessage` for `kFromEnd`, for a number of rounds.
unfoldable pub drain : ℕ → M ℕ
drain zero s = stuck
drain (suc rounds) s =
    let pos = s.self.data_start in
    if index_add1 s.self.ring pos == s.self.data_end
    then (do advance_start; pure (entry s.self.ring pos)) s
    else (do advance_start; decrement (entry s.self.ring pos); drain rounds) s

-- The message that `DoReadMessage` picks, between the two common parts.
unfoldable pub pick_message : Options → M ℕ
pick_message o s =
    if has o from_end
    then if has o peek
      then (do
        increment (entry s.self.ring (last_message_index s.self.ring))
        pure (entry s.self.ring (last_message_index s.self.ring)))
          s
      else drain s.self.data_length s
    else if has o peek
    then (do
      increment (entry s.self.ring s.self.data_start)
      pure (entry s.self.ring s.self.data_start))
        s
    else (do advance_start; pure (entry s.self.ring s.self.data_start)) s

-- The rest of `DoReadMessage`, once there is a message.
unfoldable pub read_picked : Options → M (Option ℕ)
read_picked o = do msg ← pick_message o; read_common_end; pure (some msg)

-- `DoReadMessage`; `none` is NULL.
unfoldable pub do_read_message : Options → M (Option ℕ)
do_read_message o = do
  started ← read_common_start o none
  if started then read_picked o else pure none

-- `ReadMessage`
unfoldable pub read_message : Options → M (Option ℕ)
read_message o s = if check_read_options o then do_read_message o s else died

-- How many messages the ring holds, `current_messages` in the source.
abbrev pub current_messages : Ring → ℕ
current_messages r =
    if ltb r.data_end r.data_start
    then r.data_end + r.data_length - r.data_start
    else r.data_end - r.data_start

-- Where a reader that has seen `index` messages starts, and what becomes of its index, an `int` that
-- starts as 0.
unfoldable pub seek : Options → Ring → ℕ → ℕ × ℕ
seek o r index =
    if has o from_end
    then (last_message_index r, r.messages)
    else if ltb (current_messages r) (r.messages - index)
    then (r.data_start, bump (r.messages - current_messages r))
    else (start, bump index)
  where
    bump : ℕ → ℕ
    bump i = if has o peek then i else i + 1

    start : ℕ
    start =
        if ltb r.data_end (r.messages - index)
        then r.data_end + r.data_length - (r.messages - index)
        else r.data_end - (r.messages - index)

-- The end of `DoReadMessageIndex`, once there is a message.
unfoldable pub read_at : ℕ × ℕ → M (Option ℕ × ℕ)
read_at (my_start, index) s =
    let msg = entry s.self.ring my_start in
    (do increment msg; read_common_end; pure (some msg, index)) s

-- `DoReadMessageIndex`: the message, and the new value of `*index`.
unfoldable pub do_read_message_index : Options → ℕ → M (Option ℕ × ℕ)
do_read_message_index o index = do
  started ← read_common_start o (some index)
  if started then (λ s. read_at (seek o s.self.ring index) s) else pure (none, index)

-- `ReadMessageIndex`
unfoldable pub read_message_index : Options → ℕ → M (Option ℕ × ℕ)
unfolding union all_set
read_message_index o index s =
    if check_read_options o && not (all_set o (union from_end peek))
    then do_read_message_index o index s
    else died
