-- ===== src/RawQueue/Fifo.antt =====
-- What a client may rely on: a bounded first-in first-out queue of messages, with the same
-- options as `RawQueue`.
use miranda_dashboard.Base.{
  ℕ, ◌+◌, ◌-◌, List, [], ◌∷◌, ◌++◌, Option, none, Bool, true, false, not, ◌&&◌, ◌==◌, if◌then◌else◌,
  ◌||◌, leb, max, ltb, length, get_elem?, drop,
}
use miranda_dashboard.Options.{Options, has, union, all_set}
use miranda_dashboard.RawQueue.Shm.{
  Shm, Outcome, died, stuck, blocked, done, peek, from_end, non_block, override,
}
use miranda_dashboard.RawQueue.Write.{check_write_options}
use miranda_dashboard.RawQueue.Read.{check_read_options}
use miranda_dashboard.RawQueue.View.{contents}

-- How a call ends: it never ends, it crashes, it waits for another task, or it returns.
pub data Reply (A : Type 0) : Type 0 where
  hangs crashes : Reply A
  waits : List ℕ → Reply A
  returns : A → List ℕ → Reply A

-- What a client sees of an outcome: the reply, and the messages left in the queue.
abbrev pub view : {A : Type 0} → Outcome A → Reply A
view died = crashes
view stuck = hangs
view (blocked s) = waits (contents s.self.ring)
view (done a s) = returns a (contents s.self.ring)

unfoldable pub fifo_write : ℕ → List ℕ → ℕ → Options → Reply Bool
fifo_write capacity q msg o =
    if not (check_write_options o)
    then crashes
    else if ltb (length q) capacity
    then returns true (q ++ (msg ∷ []))
    else if has o non_block
    then returns false q
    else if has o override
    then returns true (drop 1 q ++ (msg ∷ []))
    else waits q

-- `kFromEnd` takes the newest message, and drops the older ones; `kPeek` takes nothing out.
unfoldable pub fifo_read : List ℕ → Options → Reply (Option ℕ)
fifo_read q o =
    if not (check_read_options o)
    then crashes
    else if length q == 0
    then (if has o non_block then returns none q else waits q)
    else returns (get_elem? q (if has o from_end then length q - 1 else 0))
        (if has o peek then q else if has o from_end then [] else drop 1 q)

-- `messages` have been written so far, and the reader has seen `index` of them: it gets the oldest
-- of those left that it has not seen. `kPeek` leaves its index at that message.
unfoldable pub fifo_read_index : List ℕ → ℕ → ℕ → Options → Reply (Option ℕ × ℕ)
fifo_read_index q messages index o =
    if not (check_read_options o && not (all_set o (union from_end peek)))
    then crashes
    else if length q == 0 || leb messages index
    then (if has o non_block then returns (none, index) q else waits q)
    else if has o from_end
    then returns (get_elem? q (length q - 1), messages) q
    else let gone = messages - length q in
      let next = max gone index in
      returns (get_elem? q (next - gone), if has o peek then next else next + 1) q

-- An outcome that leaves every state that it shows with `P`, and does not run for ever.
abbrev pub Ensures : {A : Type 0} → (Shm → Type 0) → Outcome A → Type 0
Ensures P died = Unit {0}
Ensures P stuck = ⊥
Ensures P (blocked s) = P s
Ensures P (done a s) = P s
