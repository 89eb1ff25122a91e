-- ===== src/LinkedList/Reverting.antt =====
-- aos/common/util/linked_list.h: Add and Remove, run to their end or interrupted and reverted.
use mathlib.Core.Bool.{false≢true}
use native.Mathlib.Decide.{ℕ_discrete}
use miranda_dashboard.Base.{
  ℕ, suc, ◌+◌, ◌≤◌, ◌<◌, ◌≡◌, ◌⊎◌, inl, inr, refl, sym, subst, ◌∙◌, arith, Bool, true, false,
  Option, some, List, [], ◌∷◌, length, take,
}
use miranda_dashboard.WorkStack.{
  Memory, set_memory, Step, assigns, State, create_at, step, steps, complete_work, has_work,
}
use miranda_dashboard.WorkStack.Rollback.{In, created, pushed, has_room, interrupt_all, rollback}
use miranda_dashboard.LinkedList.{restoring, add, remove, removing, fatal}
use miranda_dashboard.LinkedList.Chain.{
  NotIn, IsList, IsList-front, erase, erase-Distinct, erase-NotIn,
}
use miranda_dashboard.LinkedList.Finding.{find_pointer-Finds, find_pointer-missing}

-- The works that are added, if any, have room.
abbrev pub Room : Bool → ℕ → State → ℕ → Type 0
Room restore number_works s works = restore ≡ true → s.works.stack_index + works ≤ number_works

-- The state after a work that is added, if any.
record Restoring (n : ℕ) (restore : Bool) (p : ℕ) (s : State) : Type 0 where
  pub state : State
  pub memory : state.memory ≡ s.memory
  pub room : (works : ℕ) → Room restore n s (suc works) → Room restore n state works
  pub result : (rest : List Step) → steps n (restoring restore p rest) s ≡ steps n rest state

steps-Restoring :
    (n : ℕ) (restore : Bool) (p works : ℕ) (s : State)
    → Room restore n s (suc works)
    → Restoring n restore p s
unfolding steps step create_at
steps-Restoring n false p works s h = record {
  state = s;
  memory = refl;
  room = λ works r not_restored. absurd (false≢true not_restored);
  result = λ rest. refl;
}
steps-Restoring n true p works s h = record {
  state = pushed (created s p);
  memory = refl;
  room = λ works r e. omega (arith, r refl);
  result = λ rest. rw (has_room n s.works.stack_index _ (h refl)) refl;
}

-- A list that the steps make of a state.
abbrev pub Makes : Option State → List ℕ → Type 0
Makes out ts = (t : State) × (out ≡ some t) × IsList t.memory ts

pub add-Makes :
    (n : ℕ) (restore : Bool) (t : ℕ) (ts : List ℕ) (s : State)
    → IsList s.memory ts
    → NotIn t (0 ∷ ts)
    → Room restore n s 2
    → Makes (steps n (add restore t s.memory) s) (t ∷ ts)
unfolding add steps step
add-Makes n restore t ts s l h room =
    let a = steps-Restoring n restore t 1 s room in
    let v : ℕ = s.memory 0 in
    let u : State = record (a.state) { memory = set_memory a.state.memory t v } in
    let b = steps-Restoring n restore 0 0 u (a.room 1 room) in
    (
      record (b.state) { memory = set_memory b.state.memory 0 t },
      a.result _ ∙ b.result _,
      subst (λ m. IsList (set_memory m 0 t) (t ∷ ts)) (sym b.memory)
          (subst (λ m. IsList (set_memory (set_memory m t v) 0 t) (t ∷ ts)) (sym a.memory)
            (IsList-front s.memory t ts l h)),
    )

-- An element that the list has, or not.
In-cases : (t : ℕ) (ts : List ℕ) → In t ts ⊎ NotIn t ts
In-cases t [] = inr tt
In-cases t (s ∷ ts) = elim (ℕ_discrete s t) [
  | yes same ↦ inl (inl same)
  | no other ↦ elim (In-cases t ts) [ inl i ↦ inl (inr i) | inr n ↦ inr (other, n) ]
]

-- A write through a pointer that is restored, if any is.
abbrev pub Writes : ℕ → Memory → ℕ → List ℕ → Type 0
Writes rounds m t ts =
    (p : ℕ) × ((restore : Bool)
      → remove restore rounds t m ≡ removing (restoring restore p (assigns p (m t) ∷ [])))
    × IsList (set_memory m p (m t)) (erase t ts)

remove-Writes :
    (rounds t : ℕ) (ts : List ℕ) (m : Memory)
    → IsList m ts
    → In t ts
    → length ts < rounds
    → Writes rounds m t ts
unfolding remove
remove-Writes rounds t ts m (chain, d) i h =
    let (p, f, member, after) = find_pointer-Finds rounds m t 0 ts chain d d.0 i h in
    (
      p,
      (λ restore. rw (remove, f) refl),
      (after, (erase-NotIn 0 t ts d.0, erase-Distinct t ts d.1)),
    )

remove-missing :
    (restore : Bool) (rounds t : ℕ) (ts : List ℕ) (m : Memory)
    → IsList m ts
    → NotIn t ts
    → length ts < rounds
    → remove restore rounds t m ≡ fatal
unfolding remove
remove-missing restore rounds t ts m (chain, d) i h =
    rw (remove, find_pointer-missing rounds m t 0 ts chain d.0 i h) refl

write-Makes :
    (n : ℕ) (restore : Bool) (p v : ℕ) (ts : List ℕ) (s : State)
    → IsList (set_memory s.memory p v) ts
    → Room restore n s 1
    → Makes (steps n (restoring restore p (assigns p v ∷ [])) s) ts
unfolding steps step
write-Makes n restore p v ts s l room =
    let a = steps-Restoring n restore p 0 s room in
    (
      record (a.state) { memory = set_memory a.state.memory p v },
      a.result _,
      subst (λ m. IsList (set_memory m p v) ts) (sym a.memory) l,
    )

-- The steps can be interrupted after any of them, and be undone by CompleteWork, that is interrupted
-- itself any number of times.
abbrev pub Reverts : ℕ → List Step → State → Type 0
Reverts number_works acts s =
    (k : ℕ) (more : List ℕ)
    → (t : State) × (steps number_works (take k acts) s ≡ some t)
      × ((complete_work (interrupt_all more t)).memory ≡ s.memory)
      × (has_work (complete_work (interrupt_all more t)).works ≡ false)

-- Add, on a well-formed list that the element is not in, puts it in front. If it is to be able to
-- be reverted, on an empty stack with room for two works, it can be interrupted after any step, and
-- CompleteWork, itself interrupted any number of times, in the end leaves the memory as it was.
pub add_lem :
    (number_works t : ℕ) (ts : List ℕ) (s : State)
    → IsList s.memory ts
    → NotIn t (0 ∷ ts)
    → s.works.stack_index ≡ 0
    → 2 ≤ number_works
    → Makes (steps number_works (add false t s.memory) s) (t ∷ ts)
      × Makes (steps number_works (add true t s.memory) s) (t ∷ ts)
      × Reverts number_works (add true t s.memory) s
unfolding add
add_lem n t ts s l h e r = (
  add-Makes n false t ts s l h (λ not_restored. absurd (false≢true not_restored)),
  add-Makes n true t ts s l h (λ _. omega (arith, e, r)),
  λ k more. rollback n k (add true t s.memory) s more (inl refl, (inl refl, tt)) e r,
)

-- Remove, on a well-formed list, with enough rounds for its elements, is fatal for an element that
-- the list does not have, and else leaves the list without it. If it is to be able to be
-- reverted, on an empty stack with room for a work, it can be interrupted after any step, and
-- CompleteWork, itself interrupted any number of times, in the end leaves the memory as it was.
pub remove_lem :
    (number_works rounds t : ℕ) (ts : List ℕ) (s : State)
    → IsList s.memory ts
    → length ts < rounds
    → s.works.stack_index ≡ 0
    → 1 ≤ number_works
    → (NotIn t ts × ((restore : Bool) → remove restore rounds t s.memory ≡ fatal))
      ⊎ (In t ts
          × ((restore : Bool)
              → (acts : List Step) × (remove restore rounds t s.memory ≡ removing acts)
                × Makes (steps number_works acts s) (erase t ts))
          × ((acts : List Step) × (remove true rounds t s.memory ≡ removing acts)
              × Reverts number_works acts s))
remove_lem n rounds t ts s l h e r = elim (In-cases t ts) [
  | inr none_such ↦
      inl (none_such, λ restore. remove-missing restore rounds t ts s.memory l none_such h)
  | inl i ↦
      let (p, f, after) = remove-Writes rounds t ts s.memory l i h in
      inr (
        i,
        (λ restore. (
          restoring restore p (assigns p (s.memory t) ∷ []),
          f restore,
          write-Makes n restore p (s.memory t) (erase t ts) s after (λ _. omega (arith, e, r)),
        )),
        (_, f true, λ k more. rollback n k _ s more (inl refl, tt) e r),
      )
]
