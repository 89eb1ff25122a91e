-- ===== src/LinkedList/Finding.antt =====
-- The loops over a list, and the elements that they come to.
use native.Mathlib.Decide.{ℕ_discrete}
use miranda_dashboard.Base.{
  ℕ, zero, suc, ◌<◌, ◌≡◌, ◌≢◌, inl, inr, refl, sym, subst, ◌∙◌, arith, Bool, true, false,
  Bool-cases, if◌then◌else◌, ◌==◌, some, List, [], ◌∷◌, length,
}
use miranda_dashboard.WorkStack.{Memory, set_memory}
use miranda_dashboard.WorkStack.Rollback.{In}
use miranda_dashboard.LinkedList.{found, missing, find_pointer, each, find}
use miranda_dashboard.LinkedList.Chain.{
  NotIn, Distinct, Chain, set_other, Chain-redirect, NotIn-In, erase,
}

-- The pointer to `t`, among the places from `c` on, and what a write through it makes of them.
abbrev pub Finds : ℕ → Memory → ℕ → ℕ → List ℕ → Type 0
Finds rounds m t c ts =
    (p : ℕ) × (find_pointer rounds m t c ≡ found p)
    × In p (c ∷ ts)
    × Chain (set_memory m p (m t)) c (erase t ts)

differs : (a b : ℕ) → a ≢ b → (a == b) ≡ false
differs a b h = ground arith

equals : (a b : ℕ) → a ≡ b → (a == b) ≡ true
equals a b h = ground arith

find_pointer-here :
    (rounds : ℕ) (m : Memory) (t c : ℕ)
    → m c ≡ t
    → t ≢ 0
    → find_pointer (suc rounds) m t c ≡ found c
unfolding find_pointer
find_pointer-here rounds m t c e h = ground arith

find_pointer-next :
    (rounds : ℕ) (m : Memory) (t c s : ℕ)
    → m c ≡ s
    → s ≢ 0
    → s ≢ t
    → find_pointer (suc rounds) m t c ≡ find_pointer rounds m t s
unfolding find_pointer
find_pointer-next rounds m t c s e h d = rw (e, differs s 0 h, differs s t d) refl

erase-here : (t s : ℕ) (ts : List ℕ) → s ≡ t → erase t (s ∷ ts) ≡ ts
erase-here t s ts e = rw (equals s t e) refl

erase-next : (t s : ℕ) (ts : List ℕ) → s ≢ t → erase t (s ∷ ts) ≡ s ∷ erase t ts
erase-next t s ts d = rw (differs s t d) refl

In-tail : (t s : ℕ) (ts : List ℕ) → s ≢ t → In t (s ∷ ts) → In t ts
In-tail t s ts h (inl e) = absurd (h e)
In-tail t s ts h (inr i) = i

pub find_pointer-Finds :
    (rounds : ℕ) (m : Memory) (t c : ℕ) (ts : List ℕ)
    → Chain m c ts
    → Distinct (c ∷ ts)
    → NotIn 0 ts
    → In t ts
    → length ts < rounds
    → Finds rounds m t c ts
find_pointer-Finds rounds m t c [] chain d z i h = absurd i
find_pointer-Finds zero m t c (s ∷ ts) chain d z i h = absurd (omega arith)
find_pointer-Finds (suc rounds) m t c (s ∷ ts) (e, chain) d z i h = elim (ℕ_discrete s t) [
  | yes same ↦ (
    c,
    find_pointer-here rounds m t c (e ∙ same) (λ null. z.0 (same ∙ null)),
    inl refl,
    subst (Chain (set_memory m c (m t)) c) (sym (erase-here t s ts same))
        (Chain-redirect m c t ts d.0.1 (subst (λ q. Chain m q ts) same chain)),
  )
  | no other ↦
      let (p, f, member, after) =
        find_pointer-Finds rounds m t s ts chain d.1 z.1 (In-tail t s ts other i) (omega arith) in
      (
        p,
        find_pointer-next rounds m t c s e z.0 other ∙ f,
        inr member,
        subst (Chain (set_memory m p (m t)) c) (sym (erase-next t s ts other)) (
          set_other m p (m t) c (λ same. NotIn-In p c (s ∷ ts) d.0 member (sym same)) ∙ e,
          after,
        ),
      )
]

-- Without the element, the loop ends with the list.
pub find_pointer-missing :
    (rounds : ℕ) (m : Memory) (t c : ℕ) (ts : List ℕ)
    → Chain m c ts
    → NotIn 0 ts
    → NotIn t ts
    → length ts < rounds
    → find_pointer rounds m t c ≡ missing
unfolding find_pointer
find_pointer-missing zero m t c ts chain z n h = absurd (omega arith)
find_pointer-missing (suc rounds) m t c [] e z n h = rw (equals (m c) 0 e) refl
find_pointer-missing (suc rounds) m t c (s ∷ ts) (e, chain) z n h =
    find_pointer-next rounds m t c s e z.0 n.0
    ∙ find_pointer-missing rounds m t s ts chain z.1 n.1 (omega arith)

abbrev pub fold_all : {A : Type 0} → (ℕ → A → A) → List ℕ → A → A
fold_all function [] a = a
fold_all function (t ∷ ts) a = fold_all function ts (function t a)

-- The first one that a test holds for, or null.
abbrev pub first_of : (ℕ → Bool) → List ℕ → ℕ
first_of function [] = 0
first_of function (t ∷ ts) = let rest = first_of function ts in if function t then t else rest

pub each-Chain :
    {A : Type 0} (rounds : ℕ) (m : Memory) (function : ℕ → A → A) (c : ℕ) (ts : List ℕ) (a : A)
    → Chain m c ts
    → NotIn 0 ts
    → length ts < rounds
    → each rounds m function (m c) a ≡ some (fold_all function ts a)
unfolding each
each-Chain zero m function c ts a chain z h = absurd (omega arith)
each-Chain (suc rounds) m function c [] a e z h = rw (equals (m c) 0 e) refl
each-Chain (suc rounds) m function c (t ∷ ts) a (e, chain) z h =
    rw (e, differs t 0 z.0)
      (each-Chain rounds m function t ts (function t a) chain z.1 (omega arith))

pub find-Chain :
    (rounds : ℕ) (m : Memory) (function : ℕ → Bool) (c : ℕ) (ts : List ℕ)
    → Chain m c ts
    → NotIn 0 ts
    → length ts < rounds
    → find rounds m function (m c) ≡ some (first_of function ts)
unfolding find
find-Chain zero m function c ts chain z h = absurd (omega arith)
find-Chain (suc rounds) m function c [] e z h = rw (equals (m c) 0 e) refl
find-Chain (suc rounds) m function c (t ∷ ts) (e, chain) z h = elim (Bool-cases (function t)) [
  | inl holds ↦ rw (e, differs t 0 z.0, holds) refl
  | inr not_it ↦
      rw (e, differs t 0 z.0, not_it) (find-Chain rounds m function t ts chain z.1 (omega arith))
]
