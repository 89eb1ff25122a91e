-- ===== src/WorkStack/Undo.antt =====
-- What CompleteWork restores, whenever it is called.
use native.Mathlib.Decide.{ℕ_discrete}
use miranda_dashboard.Base.{
  ℕ, zero, suc, ◌≤◌, ◌<◌, ◌≡◌, ◌≢◌, inl, inr, refl, sym, ap, subst, ◌∙◌, arith, Bool-cases,
  if◌then◌else◌, ◌==◌, ==_iff,
}
use miranda_dashboard.WorkStack.{Memory, set_memory, RestoreWork, do_work, undo, undo_partly}

set_at : (m : Memory) (p v q : ℕ) → set_memory m p v q ≡ (if q == p then v else m q)
unfolding set_memory
set_at m p v q = refl

set_same_at : (m : Memory) (p u v q : ℕ) → set_memory (set_memory m p u) p v q ≡ set_memory m p v q
unfolding set_memory
set_same_at m p u v q = ground arith

set_swap_at :
    (m : Memory) (p q u v r : ℕ)
    → p ≢ q
    → set_memory (set_memory m p u) q v r ≡ set_memory (set_memory m q v) p u r
unfolding set_memory
set_swap_at m p q u v r h = ground arith

set_own_at : (m : Memory) (p q : ℕ) → set_memory m p (m p) q ≡ m q
unfolding set_memory
set_own_at m p q = elim (Bool-cases (q == p)) [
  | inl e ↦ rw (e, (==_iff q p).0 e) refl
  | inr d ↦ rw d refl
]

set_same : (m : Memory) (p u v : ℕ) → set_memory (set_memory m p u) p v ≡ set_memory m p v
set_same m p u v = λ i. λ q. set_same_at m p u v q i

set_swap :
    (m : Memory) (p q u v : ℕ)
    → p ≢ q
    → set_memory (set_memory m p u) q v ≡ set_memory (set_memory m q v) p u
set_swap m p q u v h = λ i. λ r. set_swap_at m p q u v r h i

pub set_own : (m : Memory) (p : ℕ) → set_memory m p (m p) ≡ m
set_own m p = λ i. λ q. set_own_at m p q i

-- One of the first works restores the place.
abbrev pub Covers : (ℕ → RestoreWork) → ℕ → ℕ → Type 0
Covers stack n p = (i : ℕ) × (i < n) × ((stack i).pointer ≡ p)

Covers-before :
    (stack : ℕ → RestoreWork) (n p : ℕ)
    → Covers stack (suc n) p
    → (stack n).pointer ≢ p
    → Covers stack n p
Covers-before stack n p (i, h, e) d = elim (ℕ_discrete i n) [
  | yes same ↦ absurd (d (subst (λ j. (stack j).pointer ≡ p) same e))
  | no other ↦ (i, omega arith, e)
]

-- A place that is restored can be written before.
pub undo-set :
    (stack : ℕ → RestoreWork) (n p v : ℕ) (m : Memory)
    → Covers stack n p
    → undo stack n (set_memory m p v) ≡ undo stack n m
unfolding undo do_work
undo-set stack zero p v m (i, h, e) = absurd (omega arith)
undo-set stack (suc n) p v m c = elim (ℕ_discrete (stack n).pointer p) [
  | yes e ↦ ap (undo stack n) (
      subst
        (λ q.
          set_memory (set_memory m q v) (stack n).pointer (stack n).value
          ≡ set_memory m (stack n).pointer (stack n).value)
        e (set_same m (stack n).pointer v (stack n).value))
  | no d ↦
      ap (undo stack n) (set_swap m p (stack n).pointer v (stack n).value (λ e. d (sym e)))
      ∙ undo-set stack n p v (set_memory m (stack n).pointer (stack n).value)
          (Covers-before stack n p c d)
]

-- Works above the first ones do not matter to them.
pub undo-below :
    (stack stack' : ℕ → RestoreWork) (n : ℕ) (m : Memory)
    → ((i : ℕ) → i < n → stack i ≡ stack' i)
    → undo stack n m ≡ undo stack' n m
unfolding undo do_work
undo-below stack stack' zero m h = refl
undo-below stack stack' (suc n) m h =
    ap (λ w. undo stack n (set_memory m w.pointer w.value)) (h n (omega arith))
    ∙ undo-below stack stack' n _ (λ i lt. h i (omega arith))

-- The first rounds of an undoing do not matter to another one.
pub undo-undo_partly :
    (stack : ℕ → RestoreWork) (rounds current n : ℕ) (m : Memory)
    → current ≤ n
    → undo stack n (undo_partly stack rounds current m) ≡ undo stack n m
unfolding undo_partly do_work
undo-undo_partly stack zero current n m h = refl
undo-undo_partly stack (suc rounds) zero n m h = refl
undo-undo_partly stack (suc rounds) (suc current) n m h =
    undo-undo_partly stack rounds current n _ (omega arith)
    ∙ undo-set stack n (stack current).pointer (stack current).value m (current, omega arith, refl)
