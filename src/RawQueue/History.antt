-- ===== src/RawQueue/History.antt =====
-- Any history of calls on a queue that was just made.
use miranda_dashboard.Base.{ℕ, ◌+◌, ◌≡◌, List, [], ◌∷◌, some, arith, length}
use miranda_dashboard.Options.{Options}
use miranda_dashboard.RawQueue.Shm.{MessageHeader, Shm, Outcome, died, stuck, blocked, done}
use miranda_dashboard.RawQueue.Write.{write_message}
use miranda_dashboard.RawQueue.Read.{read_message, read_message_index}
use miranda_dashboard.RawQueue.View.{contents, contents-empty}
use miranda_dashboard.RawQueue.Fifo.{Ensures}
use miranda_dashboard.RawQueue.Refine.Sound.{IsSound, write-IsSound}
use miranda_dashboard.RawQueue.Refine.Reads.{read-IsSound}
use miranda_dashboard.RawQueue.Refine.Indexed.{read_index-IsSound}
use miranda_dashboard.RawQueue.Create.{new_queue}

-- The calls that tasks make on a queue.
pub data Call : Type 0 where
  writes : ℕ → Options → Call
  reads : Options → Call
  reads_index : Options → ℕ → Call

-- The queue after a call; one that crashed or never ended shows no state.
abbrev pub after : {A : Type 0} → Shm → Outcome A → Shm
after s died = s
after s stuck = s
after s (blocked t) = t
after s (done a t) = t

unfoldable pub call : Shm → Call → Shm
call s (writes msg o) = after s (write_message msg o s)
call s (reads o) = after s (read_message o s)
call s (reads_index o index) = after s (read_message_index o index s)

unfoldable pub run : Shm → List Call → Shm
run s [] = s
run s (c ∷ cs) = run (call s c) cs

pub new_queue-IsSound :
    (addresses : ℕ → ℕ) (storage : List ℕ) (h : ℕ → MessageHeader) (name : List ℕ) (len hash n : ℕ)
    {s : Shm}
    → length storage ≡ n + 1
    → new_queue addresses storage h name len hash n ≡ some s
    → IsSound s × (contents s.self.ring ≡ [])
unfolding new_queue
new_queue-IsSound addresses storage h name len hash n {s} e made =
    ground (arith, contents-empty s.self.ring)

after-IsSound :
    {A : Type 0} (s : Shm) (out : Outcome A)
    → IsSound s
    → Ensures IsSound out
    → IsSound (after s out)
after-IsSound s died v w = v
after-IsSound s stuck v w = v
after-IsSound s (blocked t) v w = w
after-IsSound s (done a t) v w = w

call-IsSound : (s : Shm) (c : Call) → IsSound s → IsSound (call s c)
unfolding call
call-IsSound s (writes msg o) v = after-IsSound s _ v (write-IsSound msg o s v)
call-IsSound s (reads o) v = after-IsSound s _ v (read-IsSound o s v)
call-IsSound s (reads_index o index) v = after-IsSound s _ v (read_index-IsSound o index s v)

run-IsSound : (s : Shm) (cs : List Call) → IsSound s → IsSound (run s cs)
unfolding run
run-IsSound s [] v = v
run-IsSound s (c ∷ cs) v = run-IsSound (call s c) cs (call-IsSound s c v)

-- After any sequence of writes, reads and indexed reads, with any options, a queue made by the
-- constructor over an array of the right size is sound: its indices are in range, and it has
-- counted at least as many messages as it holds.
pub run-new_queue-IsSound :
    (addresses : ℕ → ℕ) (storage : List ℕ) (h : ℕ → MessageHeader) (name : List ℕ) (len hash n : ℕ)
    {s : Shm} (cs : List Call)
    → length storage ≡ n + 1
    → new_queue addresses storage h name len hash n ≡ some s
    → IsSound (run s cs)
run-new_queue-IsSound addresses storage h name len hash n {s} cs e made =
    run-IsSound s cs (new_queue-IsSound addresses storage h name len hash n e made).0
