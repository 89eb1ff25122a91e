-- ===== src/LinkedList.antt =====
-- aos/common/util/linked_list.h: an intrusive list, whose changes a stack of works can revert. An
-- element is named by a number that is not 0, the null pointer; the place of its `next` by the same
-- number, and that of `head_` by 0.
pub mod Chain
pub mod Finding
pub mod Reverting
mod Tests
use miranda_dashboard.Base.{
  ℕ, zero, suc, Bool, true, false, if◌then◌else◌, ◌==◌, Option, none, some, ◌>>=◌, List, [], ◌∷◌,
  ◌++◌,
}
use miranda_dashboard.WorkStack.{Memory, Step, assigns, add_work}

-- `restore_pointers->AddWork`, if there are any.
abbrev pub restoring : Bool → ℕ → List Step → List Step
restoring restore pointer rest = if restore then add_work pointer rest else rest

-- `Add`
unfoldable pub add : Bool → ℕ → Memory → List Step
add restore t memory =
    restoring restore t (assigns t (memory 0) ∷ restoring restore 0 (assigns 0 t ∷ []))

-- `missing` is LOG(FATAL); the loop gives up after so many rounds.
pub data Found : Type 0 where
  found : ℕ → Found
  missing : Found
  out_of_rounds : Found

-- The loop of `Remove`, for the pointer that holds `t`.
unfoldable pub find_pointer : ℕ → Memory → ℕ → ℕ → Found
find_pointer zero memory t pointer = out_of_rounds
find_pointer (suc rounds) memory t pointer =
    let rest = find_pointer rounds memory t (memory pointer) in
    if memory pointer == 0 then missing else if memory pointer == t then found pointer else rest

-- What `Remove` does: its steps, or LOG(FATAL).
pub data Removal : Type 0 where
  removing : List Step → Removal
  fatal : Removal
  unfinished : Removal

-- `Remove`
unfoldable pub remove : Bool → ℕ → ℕ → Memory → Removal
unfolding find_pointer
remove restore rounds t memory = elim (find_pointer rounds memory t 0) [
  | found pointer ↦ removing (restoring restore pointer (assigns pointer (memory t) ∷ []))
  | missing ↦ fatal
  | out_of_rounds ↦ unfinished
]

unfoldable pub empty : Memory → Bool
empty memory = memory 0 == 0

-- `Each`, from the element `c` on: `function` changes what it likes but the list.
unfoldable pub each : {A : Type 0} → ℕ → Memory → (ℕ → A → A) → ℕ → A → Option A
each zero memory function c a = none
each (suc rounds) memory function c a =
    if c == 0 then some a else each rounds memory function (memory c) (function c a)

-- `Find`, with 0 for nullptr.
unfoldable pub find : ℕ → Memory → (ℕ → Bool) → ℕ → Option ℕ
find zero memory function c = none
find (suc rounds) memory function c =
    let rest = find rounds memory function (memory c) in
    if c == 0 then some 0 else if function c then some c else rest
