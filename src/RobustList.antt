-- ===== src/RobustList.antt =====
-- aos/linux_code/ipc_lib/aos_sync.cc, namespace my_robust_list: the list of the mutexes that a thread
-- holds, which the kernel walks when the thread dies.
pub mod Chained
pub mod Locking
pub mod Offsets
mod Tests
use miranda_dashboard.Base.{
  ℕ, zero, suc, ◌+◌, ◌-◌, ◌%◌, ◌^◌, Bool, true, false, not, ◌&&◌, Option, none, some, ◌==◌,
  if◌then◌else◌,
}

-- The links of an `aos_mutex`, at its address; `next` is a `uintptr_t`.
pub record Links : Type 0 where
  pub next : ℕ
  pub previous : ℕ

-- The memory, in which the `next` of the head stands at the address `head`; its `previous` is not
-- there and never used. `offset` is `robust_list_offset`.
pub record Thread : Type 0 where
  pub mem : ℕ → Links
  pub head : ℕ
  pub pending_next : ℕ
  pub offset : ℕ

-- Addresses are words of 64 bits.
abbrev pub word : ℕ
word = 2 ^ 64

abbrev pub set_next : (ℕ → Links) → ℕ → ℕ → ℕ → Links
set_next mem p v q = if q == p then record (mem q) { next = v } else mem q

abbrev pub set_previous : (ℕ → Links) → ℕ → ℕ → ℕ → Links
set_previous mem p v q = if q == p then record (mem q) { previous = v } else mem q

-- `x | kRobustListOr` and `x & ~kRobustListOr`
abbrev pub mark : ℕ → ℕ
mark x = x - x % 2 + 1

abbrev pub unmark : ℕ → ℕ
unmark x = x - x % 2

abbrev pub next_is_head : ℕ → ℕ → Bool
next_is_head head next = next == head

unfoldable pub mutex_to_next : ℕ → ℕ → ℕ
mutex_to_next offset m = mark ((m + offset) % word)

unfoldable pub next_to_mutex : ℕ → ℕ → ℕ → ℕ
next_to_mutex head offset next =
    if not (offset == 0) && next_is_head head next
    then next
    else (unmark next + word - offset) % word

-- `Init`, less the call that tells the kernel of the head.
unfoldable pub init : Thread → Thread
init t = record t { mem = set_next t.mem t.head t.head; pending_next = 0 }

unfoldable pub have_locked_mutexes : Thread → Bool
have_locked_mutexes t = not ((t.mem t.head).next == t.head)

-- The constructor and the destructor of `Adder`; the assertions are compiled out.
unfoldable pub begin_add : Thread → ℕ → Thread
begin_add t m = record t { pending_next = mutex_to_next t.offset m }

unfoldable pub end_add : Thread → Thread
end_add t = record t { pending_next = 0 }

-- The mutex that comes next, if there is one, points back to `m`.
unfoldable pub set_back : ℕ → ℕ → ℕ → ℕ → (ℕ → Links) → ℕ → Links
set_back head offset next_value m mem =
    if next_is_head head next_value
    then mem
    else set_previous mem (next_to_mutex head offset next_value) m

-- What `Adder::Add` writes.
unfoldable pub added : ℕ → ℕ → ℕ → (ℕ → Links) → ℕ → Links
added head offset m mem =
    let old_head_next_value = (mem head).next in
    let first = set_next (set_next mem m old_head_next_value) head (mutex_to_next offset m) in
    set_back head offset old_head_next_value m (set_previous first m head)

unfoldable pub add : Thread → ℕ → Thread
unfolding added
add t m = record t { mem = added t.head t.offset m t.mem }

-- What the constructor of `Remover` writes.
unfoldable pub removed : ℕ → ℕ → ℕ → (ℕ → Links) → ℕ → Links
removed head offset m mem =
    let previous = (mem m).previous in
    let next_value = (mem m).next in
    set_back head offset next_value previous (set_next mem previous next_value)

unfoldable pub remove : Thread → ℕ → Thread
unfolding removed
remove t m = record t {
  mem = removed t.head t.offset m t.mem;
  pending_next = mutex_to_next t.offset m;
}

unfoldable pub end_remove : Thread → Thread
end_remove t = record t { pending_next = 0 }

-- The loop of `SetRobustListOffset`, for a number of rounds.
unfoldable pub shift : ℕ → ℕ → ℕ → ℕ → (ℕ → Links) → ℕ → Option (ℕ → Links)
shift zero head offset change mem m = none
shift (suc rounds) head offset change mem m = elim (next_is_head head (mem m).next) [
  | true ↦ some mem
  | false ↦
      let moved = ((mem m).next + change) % word in
      shift rounds head offset change (set_next mem m moved) (next_to_mutex head offset moved)
]

-- `SetRobustListOffset`
unfoldable pub set_robust_list_offset : ℕ → ℕ → Thread → Option Thread
set_robust_list_offset rounds offset t =
    elim (shift rounds t.head offset ((offset + word - t.offset) % word) t.mem t.head) [
      | none ↦ none
      | some mem ↦ some (record t { mem = mem; offset = offset })
    ]
