-- ===== src/WorkStack/Tests.antt =====
-- aos/common/transaction.h: a run of `WorkStack`, and a change that is undone.
use miranda_dashboard.Base.{
  ℕ, ◌≡◌, inl, inr, refl, arith, false, if◌then◌else◌, ◌==◌, Option, none, some, List, [], ◌∷◌,
  take,
}
use miranda_dashboard.WorkStack.{
  Memory, Step, assigns, State, steps, add_work, complete_work, has_work, drop_work,
}
use miranda_dashboard.WorkStack.Rollback.{interrupt_all, rollback}

abbrev two_places : Memory
two_places p = if p == 5 then 50 else 7

abbrev empty_stack : State
empty_stack = record {
  memory = two_places;
  works = record { stack_index = 0; stack = λ i. record { pointer = 0; value = 0 } };
}

-- The first place is written after it is added, the second one is read from it.
abbrev two_writes : List Step
two_writes = add_work 5 (assigns 5 70 ∷ add_work 0 (assigns 0 5 ∷ assigns 5 1 ∷ []))

memory_at : ℕ → Option State → Option ℕ
memory_at p none = none
memory_at p (some s) = some (s.memory p)

written : memory_at 5 (steps 2 two_writes empty_stack) ≡ some 1
unfolding memory_at steps
written = refl

too_many_works : steps 1 two_writes empty_stack ≡ none
unfolding steps
too_many_works = refl

all_dropped : has_work (drop_work (empty_stack.works)) ≡ false
unfolding has_work drop_work
all_dropped = refl

-- The change stops between the steps of the second AddWork, and CompleteWork twice on its way.
rollback_example :
    (t : State) × (steps 2 (take 4 two_writes) empty_stack ≡ some t)
    × ((complete_work (interrupt_all (1 ∷ 0 ∷ []) t)).memory ≡ empty_stack.memory)
    × (has_work (complete_work (interrupt_all (1 ∷ 0 ∷ []) t)).works ≡ false)
rollback_example =
    rollback 2 4 two_writes empty_stack (1 ∷ 0 ∷ []) (inl refl, (inl refl, (inr (inl refl), tt)))
      refl (omega arith)
