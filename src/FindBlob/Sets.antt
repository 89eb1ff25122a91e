-- ===== src/FindBlob/Sets.antt =====
-- `BlobDisjointSet`: when it is in order, and what joining two trees and adding one do to the paths.
use native.Mathlib.Decide.{ℕ_discrete}
use miranda_dashboard.Base.{
  ℕ, zero, suc, ◌+◌, ◌≤◌, ◌<◌, ◌≡◌, ◌≢◌, refl, ap, subst, ◌∙◌, some, List, [], ◌∷◌, ◌++◌, length,
  length-append, length-set, get_elem?, get_elem?-set_self, get_elem?-set_ne, lt_of_get_elem?,
  get_elem?-append_left, get_elem?-append_last, set, arith,
}
use miranda_dashboard.Base.Int.{ℤ, pos, negsuc}
use miranda_dashboard.FindBlob.{BlobBuilder}
use miranda_dashboard.FindBlob.Forest.{IsRoot, Chain, nonroots, roots_sum, root-without-parent}

-- Every entry leads to a root, in no more steps than entries have a parent.
abbrev pub IsForest : List ℤ → Type 0
IsForest l = (b : ℕ) → b < length l → (k : ℕ) × (r : ℕ) × (k ≤ nonroots l) × Chain l k b r

pub nonroots-le : (l : List ℤ) → nonroots l ≤ length l
nonroots-le [] = omega arith
nonroots-le (pos _ ∷ l) = omega (arith, nonroots-le l)
nonroots-le (negsuc _ ∷ l) = omega (arith, nonroots-le l)

nonroots-link : (l : List ℤ) (p c : ℕ) → IsRoot l p → nonroots (set l p (pos c)) ≡ suc (nonroots l)
nonroots-link [] p c (n, e) = cc
nonroots-link (pos t ∷ l) zero c (n, e) = cc
nonroots-link (negsuc t ∷ l) zero c (n, e) = refl
nonroots-link (pos t ∷ l) (suc p) c h = ap suc (nonroots-link l p c h)
nonroots-link (negsuc t ∷ l) (suc p) c h = nonroots-link l p c h

-- The item of a root that is put under another no longer counts.
pub roots_sum-link :
    (w : BlobBuilder → ℕ) (l : List ℤ) (items : List BlobBuilder) (p c : ℕ) {item : BlobBuilder}
    → IsRoot l p
    → get_elem? items p ≡ some item
    → roots_sum w (set l p (pos c)) items + w item ≡ roots_sum w l items
roots_sum-link w [] items p c (n, h) e = cc
roots_sum-link w (t ∷ l) [] p c h e = cc
roots_sum-link w (pos t ∷ l) (x ∷ items) zero c (n, h) e = cc
roots_sum-link w (negsuc t ∷ l) (x ∷ items) zero c h e = ground arith
roots_sum-link w (pos t ∷ l) (x ∷ items) (suc p) c h e = roots_sum-link w l items p c h e
roots_sum-link w (negsuc t ∷ l) (x ∷ items) (suc p) c h e =
    omega (arith, roots_sum-link w l items p c h e)

-- The item of a root is replaced.
pub roots_sum-item :
    (w : BlobBuilder → ℕ) (l : List ℤ) (items : List BlobBuilder) (r : ℕ) {item : BlobBuilder}
    (new : BlobBuilder)
    → IsRoot l r
    → get_elem? items r ≡ some item
    → roots_sum w l (set items r new) + w item ≡ roots_sum w l items + w new
roots_sum-item w [] items r new (n, h) e = cc
roots_sum-item w (t ∷ l) [] r new h e = cc
roots_sum-item w (pos t ∷ l) (x ∷ items) zero new (n, h) e = cc
roots_sum-item w (negsuc t ∷ l) (x ∷ items) zero new h e = ground arith
roots_sum-item w (pos t ∷ l) (x ∷ items) (suc r) new h e = roots_sum-item w l items r new h e
roots_sum-item w (negsuc t ∷ l) (x ∷ items) (suc r) new h e =
    omega (arith, roots_sum-item w l items r new h e)

pub roots_sum-append :
    (w : BlobBuilder → ℕ) (l : List ℤ) (items : List BlobBuilder) (new : BlobBuilder)
    → length items ≡ length l
    → roots_sum w (l ++ (negsuc 0 ∷ [])) (items ++ (new ∷ [])) ≡ roots_sum w l items + w new
roots_sum-append w [] [] new h = omega arith
roots_sum-append w [] (x ∷ items) new h = absurd (omega arith)
roots_sum-append w (t ∷ l) [] new h = absurd (omega arith)
roots_sum-append w (pos t ∷ l) (x ∷ items) new h = roots_sum-append w l items new (omega arith)
roots_sum-append w (negsuc t ∷ l) (x ∷ items) new h =
    omega (arith, roots_sum-append w l items new (omega arith))

-- A root `p` is put under another root `c`.
module _ (l : List ℤ) (p c : ℕ) (p_root : IsRoot l p) (c_root : IsRoot l c) (apart : p ≢ c) where
  pub IsRoot-link : (r : ℕ) → p ≢ r → IsRoot l r → IsRoot (set l p (pos c)) r
  IsRoot-link r other (n, e) = (n, get_elem?-set_ne l (pos c) other ∙ e)

  Chain-link :
      (k b r : ℕ) → Chain l k b r → (j : ℕ) × (s : ℕ) × (j ≤ suc k) × Chain (set l p (pos c)) j b s
  Chain-link zero b r (same, root) = elim (ℕ_discrete p r) [
    | yes here ↦ (
      1,
      c,
      omega arith,
      (
        c,
        rw (same, ← here) (get_elem?-set_self l p (pos c) (lt_of_get_elem? l p p_root.1)),
        (refl, IsRoot-link c apart c_root),
      ),
    )
    | no other ↦ (0, r, omega arith, (same, IsRoot-link r other root))
  ]
  Chain-link (suc k) b r (t, e, m) =
      let (j, s, le, rest) = Chain-link k t r m in
      (
        suc j,
        s,
        omega arith,
        (
          t,
          get_elem?-set_ne l (pos c)
                (λ (same : p ≡ b). root-without-parent l b t (subst (IsRoot l) same p_root) e)
              ∙ e,
          rest,
        ),
      )

  pub IsForest-link : IsForest l → IsForest (set l p (pos c))
  IsForest-link h b lt =
      let (k, r, le, chain) = h b (omega (arith, length-set l p (pos c))) in
      let (j, s, le', chain') = Chain-link k b r chain in
      (j, s, omega (arith, nonroots-link l p c p_root), chain')

Chain-append : (l : List ℤ) (k b r : ℕ) → Chain l k b r → Chain (l ++ (negsuc 0 ∷ [])) k b r
Chain-append l zero b r (same, (n, e)) =
    (same, (n, get_elem?-append_left l _ r (lt_of_get_elem? l r e) ∙ e))
Chain-append l (suc k) b r (t, e, m) =
    (t, get_elem?-append_left l _ b (lt_of_get_elem? l b e) ∙ e, Chain-append l k t r m)

nonroots-append : (l : List ℤ) → nonroots (l ++ (negsuc 0 ∷ [])) ≡ nonroots l
nonroots-append [] = refl
nonroots-append (pos t ∷ l) = ap suc (nonroots-append l)
nonroots-append (negsuc t ∷ l) = nonroots-append l

pub IsForest-append : (l : List ℤ) → IsForest l → IsForest (l ++ (negsuc 0 ∷ []))
IsForest-append l h b lt = elim (ℕ_discrete b (length l)) [
  | yes last ↦ (0, length l, omega arith, (last, (0, get_elem?-append_last l (negsuc 0))))
  | no other ↦
      let (k, r, le, chain) = h b (omega (arith, length-append l (negsuc 0 ∷ []))) in
      (k, r, omega (arith, nonroots-append l), Chain-append l k b r chain)
]
