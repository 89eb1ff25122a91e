-- ===== src/WorkStack/Rollback.antt =====
-- A change of memory that is interrupted anywhere, and undone.
use miranda_dashboard.Base.{
  ℕ, zero, suc, ◌+◌, ◌≤◌, ◌<◌, ◌≡◌, ◌⊎◌, inl, inr, refl, sym, ap, ◌∙◌, arith, false, leb, Option,
  some, List, [], ◌∷◌, take,
}
use miranda_dashboard.WorkStack.{
  Memory, set_memory, RestoreWork, create, do_work, Step, creates, pushes, assigns, State,
  create_at, step, steps, undo, complete_work, interrupted_work, has_work,
}
use miranda_dashboard.WorkStack.Undo.{Covers, undo-set, undo-below, undo-undo_partly, set_own}

abbrev pub In : ℕ → List ℕ → Type 0
In p [] = ⊥
In p (q ∷ qs) = (q ≡ p) ⊎ In p qs

-- Every write is through a pointer of `ps`, or one that was added before.
abbrev pub Guarded : List ℕ → List Step → Type 0
Guarded ps [] = Unit {0}
Guarded ps (creates p ∷ pushes ∷ rest) = Guarded (p ∷ ps) rest
Guarded ps (creates p ∷ _) = ⊥
Guarded ps (pushes ∷ rest) = ⊥
Guarded ps (assigns p v ∷ rest) = In p ps × Guarded ps rest

-- The works that are added.
abbrev pub count_works : List Step → ℕ
count_works [] = 0
count_works (creates p ∷ rest) = suc (count_works rest)
count_works (pushes ∷ rest) = count_works rest
count_works (assigns p v ∷ rest) = count_works rest

-- What `CompleteWork` makes of the memory.
abbrev pub undone : State → Memory
undone s = undo s.works.stack s.works.stack_index s.memory

abbrev IsCovered : State → List ℕ → Type 0
IsCovered s ps = (p : ℕ) → In p ps → Covers s.works.stack s.works.stack_index p

-- The states after the steps of `AddWork`.
abbrev pub created : State → ℕ → State
created s p = record s { works = create_at s p }

abbrev pub pushed : State → State
pushed s = record s { works = record (s.works) { stack_index = suc s.works.stack_index } }

stack-create_at :
    (s : State) (p i : ℕ) → i < s.works.stack_index → s.works.stack i ≡ (create_at s p).stack i
unfolding create_at create
stack-create_at s p i h = ground arith

top-create_at : (s : State) (p : ℕ) → (create_at s p).stack s.works.stack_index ≡ create p s.memory
unfolding create_at create
top-create_at s p = ground arith

index-create_at : (s : State) (p : ℕ) → (create_at s p).stack_index ≡ s.works.stack_index
unfolding create_at
index-create_at s p = refl

undone-created : (s : State) (p : ℕ) → undone (created s p) ≡ undone s
unfolding create_at
undone-created s p = sym (
    undo-below s.works.stack (create_at s p).stack s.works.stack_index s.memory
      (λ i h. stack-create_at s p i h))

undo-own :
    (stack : ℕ → RestoreWork) (n p : ℕ) (m : Memory)
    → stack n ≡ create p m
    → undo stack (suc n) m ≡ undo stack n m
unfolding undo do_work create
undo-own stack n p m e =
    ap (λ w. undo stack n (set_memory m w.pointer w.value)) e ∙ ap (undo stack n) (set_own m p)

undone-pushed : (s : State) (p : ℕ) → undone (pushed (created s p)) ≡ undone s
unfolding create_at
undone-pushed s p =
    undo-own (create_at s p).stack s.works.stack_index p s.memory (top-create_at s p)
    ∙ undone-created s p

pushed-IsCovered :
    (s : State) (p : ℕ) (ps : List ℕ) → IsCovered s ps → IsCovered (pushed (created s p)) (p ∷ ps)
unfolding create_at create
pushed-IsCovered s p ps v q (inl e) =
    (s.works.stack_index, omega arith, ap (λ (w : RestoreWork). w.pointer) (top-create_at s p) ∙ e)
pushed-IsCovered s p ps v q (inr h) =
    let (i, lt, e) = v q h in
    (i, omega arith, ap (λ (w : RestoreWork). w.pointer) (sym (stack-create_at s p i lt)) ∙ e)

-- The states that a run of some first steps leads to, from which undoing gives the same memory.
record Undoes (out : Option State) (m : Memory) : Type 0 where
  pub state : State
  pub result : out ≡ some state
  pub same : undone state ≡ m

Undoes-by : {out : Option State} {m m' : Memory} → Undoes out m → m ≡ m' → Undoes out m'
Undoes-by a e = record { state = a.state; result = a.result; same = a.same ∙ e }

undo-assigned :
    (s : State) (p v : ℕ)
    → Covers s.works.stack s.works.stack_index p
    → undone (record s { memory = set_memory s.memory p v }) ≡ undone s
undo-assigned s p v c = undo-set s.works.stack s.works.stack_index p v s.memory c

pub has_room : (n i c : ℕ) → i + suc c ≤ n → leb n i ≡ false
has_room n i c h = ground arith

more_room :
    (n : ℕ) (s : State) (p c : ℕ)
    → s.works.stack_index + suc c ≤ n
    → (pushed (created s p)).works.stack_index + c ≤ n
unfolding create_at
more_room n s p c h = omega arith

steps-Undoes :
    (number_works : ℕ) (k : ℕ) (acts : List Step) (ps : List ℕ) (s : State)
    → Guarded ps acts
    → s.works.stack_index + count_works acts ≤ number_works
    → IsCovered s ps
    → Undoes (steps number_works (take k acts) s) (undone s)
unfolding steps step
steps-Undoes n zero acts ps s g h v = record { state = s; result = refl; same = refl }
steps-Undoes n (suc k) [] ps s g h v = record { state = s; result = refl; same = refl }
steps-Undoes n (suc k) (pushes ∷ rest) ps s g h v = absurd g
steps-Undoes n (suc k) (assigns p w ∷ rest) ps s (covered, g) h v =
    let t : State = record s { memory = set_memory s.memory p w } in
    let a = steps-Undoes n k rest ps t g h v in Undoes-by a (undo-assigned s p w (v p covered))
steps-Undoes n (suc k) (creates p ∷ []) ps s g h v = absurd g
steps-Undoes n (suc k) (creates p ∷ creates q ∷ rest) ps s g h v = absurd g
steps-Undoes n (suc k) (creates p ∷ assigns q w ∷ rest) ps s g h v = absurd g
steps-Undoes n (suc zero) (creates p ∷ pushes ∷ rest) ps s g h v =
    rw (has_room n s.works.stack_index _ h)
      (record { state = created s p; result = refl; same = undone-created s p })
steps-Undoes n (suc (suc k)) (creates p ∷ pushes ∷ rest) ps s g h v =
    rw (has_room n s.works.stack_index _ h) (
      Undoes-by
        (steps-Undoes n k rest (p ∷ ps) (pushed (created s p)) g (more_room n s p _ h)
          (pushed-IsCovered s p ps v))
        (undone-pushed s p))

-- One `CompleteWork` after another, each interrupted after some rounds.
unfoldable pub interrupt_all : List ℕ → State → State
unfolding interrupted_work
interrupt_all [] s = s
interrupt_all (rounds ∷ more) s = interrupt_all more (interrupted_work rounds s)

undone-interrupt_all : (more : List ℕ) (s : State) → undone (interrupt_all more s) ≡ undone s
unfolding interrupt_all interrupted_work
undone-interrupt_all [] s = refl
undone-interrupt_all (rounds ∷ more) s =
    undone-interrupt_all more (interrupted_work rounds s)
    ∙ undo-undo_partly s.works.stack rounds s.works.stack_index s.works.stack_index s.memory
        (omega arith)

memory-complete_work : (s : State) → (complete_work s).memory ≡ undone s
unfolding complete_work
memory-complete_work s = refl

has_work-complete_work : (s : State) → has_work (complete_work s).works ≡ false
unfolding complete_work has_work
has_work-complete_work s = refl

undone-empty : (s : State) → s.works.stack_index ≡ 0 → undone s ≡ s.memory
unfolding undo
undone-empty s e = ap (λ n. undo s.works.stack n s.memory) e

-- Steps that write only through pointers that they have added before, on an empty stack with room
-- for their works, can be interrupted after any of them: none is fatal, and CompleteWork, itself
-- interrupted any number of times after any rounds, in the end leaves the memory as it was before
-- the first step, and the stack empty.
pub rollback :
    (number_works k : ℕ) (acts : List Step) (s : State) (more : List ℕ)
    → Guarded [] acts
    → s.works.stack_index ≡ 0
    → count_works acts ≤ number_works
    → (t : State) × (steps number_works (take k acts) s ≡ some t)
      × ((complete_work (interrupt_all more t)).memory ≡ s.memory)
      × (has_work (complete_work (interrupt_all more t)).works ≡ false)
rollback n k acts s more g e h =
    let a = steps-Undoes n k acts [] s g (omega (arith, e)) (λ p none. absurd none) in
    (
      a.state,
      a.result,
      memory-complete_work (interrupt_all more a.state)
          ∙ undone-interrupt_all more a.state
          ∙ a.same
          ∙ undone-empty s e,
      has_work-complete_work (interrupt_all more a.state),
    )
