-- ===== src/FindBlob/Forest.antt =====
-- `DisjointSet`: paths to the roots, what `find` keeps while it shortens them, and that it ends.
use native.Mathlib.Decide.{ℕ_discrete}
use miranda_dashboard.Base.{
  ℕ, zero, suc, ◌+◌, ◌≤◌, ◌<◌, ◌≡◌, refl, sym, ap, subst, ◌∙◌, some, List, [], ◌∷◌, length,
  length-set, get_elem?, get_elem?-set_self, get_elem?-set_ne, lt_of_get_elem?, set, arith,
}
use miranda_dashboard.Base.Int.{ℤ, pos, negsuc}
use miranda_dashboard.FindBlob.{BlobBuilder, find}

abbrev pub IsRoot : List ℤ → ℕ → Type 0
IsRoot l r = (n : ℕ) × (get_elem? l r ≡ some (negsuc n))

-- From `b` it is `k` steps to the root `r`.
abbrev pub Chain : List ℤ → ℕ → ℕ → ℕ → Type 0
Chain l zero b r = (b ≡ r) × IsRoot l r
Chain l (suc k) b r = (p : ℕ) × (get_elem? l b ≡ some (pos p)) × Chain l k p r

-- How many entries have a parent.
abbrev pub nonroots : List ℤ → ℕ
nonroots [] = 0
nonroots (pos _ ∷ l) = suc (nonroots l)
nonroots (negsuc _ ∷ l) = nonroots l

-- A sum over the items of the roots.
abbrev pub roots_sum : (BlobBuilder → ℕ) → List ℤ → List BlobBuilder → ℕ
roots_sum w [] items = 0
roots_sum w (tid ∷ l) [] = 0
roots_sum w (pos _ ∷ l) (item ∷ items) = roots_sum w l items
roots_sum w (negsuc _ ∷ l) (item ∷ items) = w item + roots_sum w l items

-- Shorter paths to the same roots.
pub record Compressed (l l' : List ℤ) : Type 0 where
  pub same_length : length l' ≡ length l
  pub same_nonroots : nonroots l' ≡ nonroots l
  pub roots : (r : ℕ) → IsRoot l r → IsRoot l' r
  pub links : (b p : ℕ) → get_elem? l b ≡ some (pos p) → (q : ℕ) × (get_elem? l' b ≡ some (pos q))
  pub chains : (k b r : ℕ) → Chain l k b r → (j : ℕ) × (j ≤ k) × Chain l' j b r
  pub sums :
      (w : BlobBuilder → ℕ) (items : List BlobBuilder) → roots_sum w l' items ≡ roots_sum w l items

pub Compressed-refl : (l : List ℤ) → Compressed l l
Compressed-refl l = record {
  same_length = refl;
  same_nonroots = refl;
  roots = λ r h. h;
  links = λ b p e. (p, e);
  chains = λ k b r h. (k, omega arith, h);
  sums = λ w items. refl;
}

pub Compressed-trans : {a b c : List ℤ} → Compressed a b → Compressed b c → Compressed a c
Compressed-trans p q = record {
  same_length = q.same_length ∙ p.same_length;
  same_nonroots = q.same_nonroots ∙ p.same_nonroots;
  roots = λ r h. q.roots r (p.roots r h);
  links = λ b t e. (let m = p.links b t e in q.links b m.0 m.1);
  chains = λ k b r h.
      (let m = p.chains k b r h in
        let n = q.chains m.0 b r m.2 in (n.0, omega (arith, m.1, n.1), n.2));
  sums = λ w items. q.sums w items ∙ p.sums w items;
}

parent_unique :
    (l : List ℤ) (b p q : ℕ) → get_elem? l b ≡ some (pos p) → get_elem? l b ≡ some (pos q) → p ≡ q
parent_unique l b p q e e' = cc

pub root-without-parent : (l : List ℤ) (b p : ℕ) → IsRoot l b → get_elem? l b ≡ some (pos p) → ⊥
root-without-parent l b p (n, h) e = cc

Chain-unique : (l : List ℤ) (k j b r s : ℕ) → Chain l k b r → Chain l j b s → r ≡ s
Chain-unique l zero zero b r s h m = sym h.0 ∙ m.0
Chain-unique l zero (suc j) b r s h m =
    absurd (root-without-parent l b m.0 (subst (IsRoot l) (sym h.0) h.1) m.1)
Chain-unique l (suc k) zero b r s h m =
    absurd (root-without-parent l b h.0 (subst (IsRoot l) (sym m.0) m.1) h.1)
Chain-unique l (suc k) (suc j) b r s h m =
    Chain-unique l k j h.0 r s h.2
      (subst (λ p. Chain l j p s) (parent_unique l b m.0 h.0 m.1 h.1) m.2)

pub Chain-IsRoot : (l : List ℤ) (k b r : ℕ) → Chain l k b r → IsRoot l r
Chain-IsRoot l zero b r h = h.1
Chain-IsRoot l (suc k) b r h = Chain-IsRoot l k h.0 r h.2

-- An entry with a parent gets another parent.
nonroots-set :
    (l : List ℤ) (b p q : ℕ)
    → get_elem? l b ≡ some (pos p)
    → nonroots (set l b (pos q)) ≡ nonroots l
nonroots-set [] b p q e = refl
nonroots-set (pos t ∷ l) zero p q e = refl
nonroots-set (negsuc t ∷ l) zero p q e = cc
nonroots-set (pos t ∷ l) (suc b) p q e = ap suc (nonroots-set l b p q e)
nonroots-set (negsuc t ∷ l) (suc b) p q e = nonroots-set l b p q e

roots_sum-set :
    (w : BlobBuilder → ℕ) (l : List ℤ) (items : List BlobBuilder) (b p q : ℕ)
    → get_elem? l b ≡ some (pos p)
    → roots_sum w (set l b (pos q)) items ≡ roots_sum w l items
roots_sum-set w [] items b p q e = refl
roots_sum-set w (t ∷ l) [] zero p q e = refl
roots_sum-set w (t ∷ l) [] (suc b) p q e = refl
roots_sum-set w (pos t ∷ l) (x ∷ items) zero p q e = refl
roots_sum-set w (negsuc t ∷ l) (x ∷ items) zero p q e = cc
roots_sum-set w (pos t ∷ l) (x ∷ items) (suc b) p q e = roots_sum-set w l items b p q e
roots_sum-set w (negsuc t ∷ l) (x ∷ items) (suc b) p q e =
    ap (λ (n : ℕ). w x + n) (roots_sum-set w l items b p q e)

-- A path is shortened to one step.
module _ (l : List ℤ) (b q r k : ℕ) (parent : get_elem? l b ≡ some (pos q)) (chain : Chain l k b r)
    (root : IsRoot l r) where
  IsRoot-short : (a : ℕ) → IsRoot l a → IsRoot (set l b (pos r)) a
  IsRoot-short a (n, e) = (
    n,
    get_elem?-set_ne l (pos r) (λ (same : b ≡ a). root-without-parent l b q (n, rw same e) parent)
        ∙ e,
  )

  links-short :
      (a p : ℕ)
      → get_elem? l a ≡ some (pos p)
      → (t : ℕ) × (get_elem? (set l b (pos r)) a ≡ some (pos t))
  links-short a p e = elim (ℕ_discrete b a) [
    | yes same ↦ (r, rw (← same) (get_elem?-set_self l b (pos r) (lt_of_get_elem? l b parent)))
    | no other ↦ (p, get_elem?-set_ne l (pos r) other ∙ e)
  ]

  chains-short : (j a s : ℕ) → Chain l j a s → (i : ℕ) × (i ≤ j) × Chain (set l b (pos r)) i a s
  chains-short zero a s h = (0, omega arith, (h.0, IsRoot-short s h.1))
  chains-short (suc j) a s h = elim (ℕ_discrete b a) [
    | yes same ↦ (
      1,
      omega arith,
      (
        r,
        rw (← same) (get_elem?-set_self l b (pos r) (lt_of_get_elem? l b parent)),
        (
          Chain-unique l k (suc j) b r s chain (subst (λ t. Chain l (suc j) t s) (sym same) h),
          IsRoot-short s (Chain-IsRoot l (suc j) a s h),
        ),
      ),
    )
    | no other ↦
        let (p, e, m) = h in
        let (i, le, rest) = chains-short j p s m in
        (suc i, omega arith, (p, get_elem?-set_ne l (pos r) other ∙ e, rest))
  ]

  pub Compressed-short : Compressed l (set l b (pos r))
  Compressed-short = record {
    same_length = length-set l b (pos r);
    same_nonroots = nonroots-set l b q r parent;
    roots = IsRoot-short;
    links = links-short;
    chains = chains-short;
    sums = λ w items. roots_sum-set w l items b q r parent;
  }

-- `find` gives the root that a path leads to, within more rounds than the path has steps, and
-- only shortens paths.
pub find-Chain :
    (l : List ℤ) (k rounds b r : ℕ)
    → Chain l k b r
    → k < rounds
    → (l' : List ℤ) × (find rounds l b ≡ some (r, l')) × Compressed l l'
unfolding find
find-Chain l k zero b r h lt = absurd (omega arith)
find-Chain l zero (suc rounds) b r (same, (n, e)) lt =
    (l, rw (same, find, e) (ap (λ (t : ℕ). some (t, l)) same), Compressed-refl l)
find-Chain l (suc k) (suc rounds) b r (p, e, m) lt =
    let (l', found, shorter) = find-Chain l k rounds p r m (omega arith) in
    let (q, e') = shorter.links b p e in
    let (j, le, chain) = shorter.chains (suc k) b r (p, e, m) in
    (
      set l' b (pos r),
      rw (e, find, found),
      Compressed-trans shorter
          (Compressed-short l' b q r j e' chain (shorter.roots r (Chain-IsRoot l k p r m))),
    )
