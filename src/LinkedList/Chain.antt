-- ===== src/LinkedList/Chain.antt =====
-- The operations on the list as those on the list of its elements.
use miranda_dashboard.Base.{
  ℕ, ◌≡◌, ◌≢◌, inl, inr, sym, ◌∙◌, arith, Bool-cases, if◌then◌else◌, ◌==◌, List, [], ◌∷◌,
}
use miranda_dashboard.WorkStack.{Memory, set_memory}
use miranda_dashboard.WorkStack.Rollback.{In}

abbrev pub NotIn : ℕ → List ℕ → Type 0
NotIn t [] = Unit {0}
NotIn t (s ∷ ts) = (s ≢ t) × NotIn t ts

abbrev pub Distinct : List ℕ → Type 0
Distinct [] = Unit {0}
Distinct (t ∷ ts) = NotIn t ts × Distinct ts

-- From the place `c` on, the elements are these.
abbrev pub Chain : Memory → ℕ → List ℕ → Type 0
Chain m c [] = m c ≡ 0
Chain m c (t ∷ ts) = (m c ≡ t) × Chain m t ts

-- No element is null, and none stands there twice.
abbrev pub IsList : Memory → List ℕ → Type 0
IsList m ts = Chain m 0 ts × Distinct (0 ∷ ts)

pub set_other : (m : Memory) (p v q : ℕ) → q ≢ p → set_memory m p v q ≡ m q
unfolding set_memory
set_other m p v q h = ground arith

set_self : (m : Memory) (p v : ℕ) → set_memory m p v p ≡ v
unfolding set_memory
set_self m p v = ground arith

-- A write elsewhere leaves the elements.
pub Chain-set :
    (m : Memory) (p v c : ℕ) (ts : List ℕ)
    → NotIn p (c ∷ ts)
    → Chain m c ts
    → Chain (set_memory m p v) c ts
Chain-set m p v c [] h e = set_other m p v c h.0 ∙ e
Chain-set m p v c (t ∷ ts) h (e, rest) = (set_other m p v c h.0 ∙ e, Chain-set m p v t ts h.1 rest)

pub NotIn-In : (p t : ℕ) (ts : List ℕ) → NotIn t ts → In p ts → p ≢ t
NotIn-In p t [] h i e = absurd i
NotIn-In p t (s ∷ ts) h (inl d) e = h.0 (d ∙ e)
NotIn-In p t (s ∷ ts) h (inr i) e = NotIn-In p t ts h.1 i e

-- What comes after one place, after another one that takes over its pointer.
pub Chain-redirect :
    (m : Memory) (c a : ℕ) (ts : List ℕ)
    → NotIn c ts
    → Chain m a ts
    → Chain (set_memory m c (m a)) c ts
Chain-redirect m c a [] h e = set_self m c (m a) ∙ e
Chain-redirect m c a (t ∷ ts) h (e, rest) =
    (set_self m c (m a) ∙ e, Chain-set m c (m a) t ts h rest)

-- The element is put in front.
pub IsList-front :
    (m : Memory) (t : ℕ) (ts : List ℕ)
    → IsList m ts
    → NotIn t (0 ∷ ts)
    → IsList (set_memory (set_memory m t (m 0)) 0 t) (t ∷ ts)
IsList-front m t ts (chain, d) h = (
  (
    set_self (set_memory m t (m 0)) 0 t,
    Chain-set (set_memory m t (m 0)) 0 t t ts ((λ e. h.0 (sym e)), d.0)
        (Chain-redirect m t 0 ts h.1 chain),
  ),
  (((λ e. h.0 (sym e)), d.0), (h.1, d.1)),
)

abbrev pub erase : ℕ → List ℕ → List ℕ
erase t [] = []
erase t (s ∷ ts) = let rest = erase t ts in if s == t then ts else s ∷ rest

pub erase-NotIn : (c t : ℕ) (ts : List ℕ) → NotIn c ts → NotIn c (erase t ts)
erase-NotIn c t [] h = h
erase-NotIn c t (s ∷ ts) h = elim (Bool-cases (s == t)) [
  | inl e ↦ rw e h.1
  | inr e ↦ rw e (h.0, erase-NotIn c t ts h.1)
]

pub erase-Distinct : (t : ℕ) (ts : List ℕ) → Distinct ts → Distinct (erase t ts)
erase-Distinct t [] h = h
erase-Distinct t (s ∷ ts) h = elim (Bool-cases (s == t)) [
  | inl e ↦ rw e h.1
  | inr e ↦ rw e (erase-NotIn s t ts h.0, erase-Distinct t ts h.1)
]
