-- ===== src/WorkStack.antt =====
-- aos/common/transaction.h: a stack of works that restore the values of pointers. A place in memory
-- and what it holds are numbers. `none` is LOG(FATAL). The compiler's barriers keep the order of
-- the steps, which is the order here; a step is what an interruption cannot split.
pub mod Undo
pub mod Rollback
mod Tests
use miranda_dashboard.Base.{
  ℕ, zero, suc, ◌+◌, ◌-◌, Bool, true, false, if◌then◌else◌, leb, ltb, ◌==◌, not, Option, none, some,
  ◌>>=◌, List, [], ◌∷◌,
}

-- What all the places hold.
abbrev pub Memory : Type 0
Memory = ℕ → ℕ

unfoldable pub set_memory : Memory → ℕ → ℕ → Memory
set_memory memory pointer value = λ p. if p == pointer then value else memory p

-- `RestoreValueWork`
pub record RestoreWork : Type 0 where
  pub pointer : ℕ
  pub value : ℕ

unfoldable pub create : ℕ → Memory → RestoreWork
create pointer memory = record { pointer = pointer; value = memory pointer }

unfoldable pub do_work : RestoreWork → Memory → Memory
unfolding set_memory
do_work w memory = set_memory memory w.pointer w.value

-- `WorkStack`, for works that restore values.
pub record WorkStack : Type 0 where
  pub stack_index : ℕ
  pub stack : ℕ → RestoreWork

unfoldable pub has_work : WorkStack → Bool
has_work s = not (s.stack_index == 0)

unfoldable pub drop_work : WorkStack → WorkStack
drop_work s = record s { stack_index = 0 }

-- The two steps of `AddWork` on a stack of `number_works`, and a write through a pointer.
pub data Step : Type 0 where
  creates : ℕ → Step
  pushes : Step
  assigns : ℕ → ℕ → Step

pub record State : Type 0 where
  pub memory : Memory
  pub works : WorkStack

unfoldable pub create_at : State → ℕ → WorkStack
unfolding create
create_at s pointer = record (s.works) {
  stack = λ i. if i == s.works.stack_index then create pointer s.memory else s.works.stack i;
}

unfoldable pub step : ℕ → Step → State → Option State
unfolding create_at set_memory
step number_works (creates pointer) s =
    if leb number_works s.works.stack_index
    then none
    else some (record s { works = create_at s pointer })
step number_works pushes s =
    some (record s { works = record (s.works) { stack_index = suc s.works.stack_index } })
step number_works (assigns pointer value) s =
    some (record s { memory = set_memory s.memory pointer value })

unfoldable pub steps : ℕ → List Step → State → Option State
unfolding step
steps number_works [] s = some s
steps number_works (a ∷ rest) s = step number_works a s >>= steps number_works rest

-- `AddWork`
abbrev pub add_work : ℕ → List Step → List Step
add_work pointer rest = creates pointer ∷ pushes ∷ rest

-- The loop of `CompleteWork` on the memory, from so many works on down, and its first rounds.
unfoldable pub undo : (ℕ → RestoreWork) → ℕ → Memory → Memory
unfolding do_work
undo stack zero memory = memory
undo stack (suc current) memory = undo stack current (do_work (stack current) memory)

unfoldable pub undo_partly : (ℕ → RestoreWork) → ℕ → ℕ → Memory → Memory
unfolding do_work
undo_partly stack zero current memory = memory
undo_partly stack (suc rounds) zero memory = memory
undo_partly stack (suc rounds) (suc current) memory =
    undo_partly stack rounds current (do_work (stack current) memory)

unfoldable pub complete_work : State → State
unfolding undo
complete_work s = record {
  memory = undo s.works.stack s.works.stack_index s.memory;
  works = record (s.works) { stack_index = 0 };
}

-- A `CompleteWork` that is interrupted before it drops the works.
unfoldable pub interrupted_work : ℕ → State → State
unfolding undo_partly
interrupted_work rounds s = record s {
  memory = undo_partly s.works.stack rounds s.works.stack_index s.memory;
}
