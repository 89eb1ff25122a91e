-- ===== src/LinkedList/Tests.antt =====
-- aos/common/util/linked_list.h: a list of two elements, and one more.
use miranda_dashboard.Base.{
  ◌≡◌, ◌⊎◌, refl, arith, Bool, true, false, if◌then◌else◌, ◌==◌, some, List, [], ◌∷◌,
}
use miranda_dashboard.WorkStack.{Memory, Step, State, steps}
use miranda_dashboard.WorkStack.Rollback.{In}
use miranda_dashboard.LinkedList.{add, remove, removing, fatal, empty, each, find}
use miranda_dashboard.LinkedList.Chain.{IsList, NotIn, erase}
use miranda_dashboard.LinkedList.Reverting.{Makes, Reverts, add_lem, remove_lem}

-- 2, and then 1.
abbrev two_elements : Memory
two_elements p = if p == 0 then 2 else if p == 2 then 1 else if p == 1 then 0 else 77

abbrev listed : State
listed = record {
  memory = two_elements;
  works = record { stack_index = 0; stack = λ i. record { pointer = 0; value = 0 } };
}

listed-IsList : IsList two_elements (2 ∷ 1 ∷ [])
listed-IsList = (
  (refl, (refl, refl)),
  (
    ((λ e. omega (arith, e)), ((λ e. omega (arith, e)), tt)),
    (((λ e. omega (arith, e)), tt), (tt, tt)),
  ),
)

not_empty : empty two_elements ≡ false
unfolding empty
not_empty = refl

all_in_turn : each 3 two_elements (λ t ts. t ∷ ts) (two_elements 0) [] ≡ some (1 ∷ 2 ∷ [])
unfolding each
all_in_turn = refl

found_second : find 3 two_elements (λ t. t == 1) (two_elements 0) ≡ some 1
unfolding find
found_second = refl

add_lem_example :
    Makes (steps 2 (add false 5 two_elements) listed) (5 ∷ 2 ∷ 1 ∷ [])
    × Makes (steps 2 (add true 5 two_elements) listed) (5 ∷ 2 ∷ 1 ∷ [])
    × Reverts 2 (add true 5 two_elements) listed
add_lem_example =
    add_lem 2 5 (2 ∷ 1 ∷ []) listed listed-IsList
      ((λ e. omega (arith, e)), ((λ e. omega (arith, e)), ((λ e. omega (arith, e)), tt))) refl
      (omega arith)

remove_lem_example :
    (NotIn 1 (2 ∷ 1 ∷ []) × ((restore : Bool) → remove restore 3 1 two_elements ≡ fatal))
    ⊎ (In 1 (2 ∷ 1 ∷ [])
        × ((restore : Bool)
            → (acts : List Step) × (remove restore 3 1 two_elements ≡ removing acts)
              × Makes (steps 1 acts listed) (erase 1 (2 ∷ 1 ∷ [])))
        × ((acts : List Step) × (remove true 3 1 two_elements ≡ removing acts)
            × Reverts 1 acts listed))
remove_lem_example =
    remove_lem 1 3 1 (2 ∷ 1 ∷ []) listed listed-IsList (omega arith) refl (omega arith)
