-- ===== src/RobustList/Chained.antt =====
-- The mutexes on a robust list, in order, and what `Add` and `Remover` do to them.
use miranda_dashboard.Base.{ℕ, ◌%◌, ◌<◌, ◌≡◌, ◌≢◌, sym, subst, ◌∙◌, false, List, [], ◌∷◌, arith}
use miranda_dashboard.RobustList.{
  Links, word, set_next, set_previous, next_is_head, mutex_to_next, next_to_mutex, set_back,
}

abbrev pub Outside : ℕ → List ℕ → Type 0
Outside m [] = Unit {0}
Outside m (x ∷ xs) = (m ≢ x) × Outside m xs

abbrev pub Distinct : List ℕ → Type 0
Distinct [] = Unit {0}
Distinct (x ∷ xs) = Outside x xs × Distinct xs

-- An address of something that is aligned.
abbrev pub IsAligned : ℕ → Type 0
IsAligned p = (p < word) × (p % 2 ≡ 0)

abbrev pub AllAligned : List ℕ → Type 0
AllAligned [] = Unit {0}
AllAligned (x ∷ xs) = IsAligned x × AllAligned xs

module _ (head offset : ℕ) where
  -- From `prev` on the `next` pointers lead through the mutexes and back to the head, and the
  -- `previous` pointers back.
  abbrev pub Chained : (ℕ → Links) → ℕ → List ℕ → Type 0
  Chained mem prev [] = (mem prev).next ≡ head
  Chained mem prev (m ∷ ms) =
      ((mem prev).next ≡ mutex_to_next offset m) × ((mem m).previous ≡ prev) × Chained mem m ms

  -- A chain does not see a write elsewhere.
  pub Chained-set_next :
      (mem : ℕ → Links) (p v prev : ℕ) (ms : List ℕ)
      → Outside p (prev ∷ ms)
      → Chained mem prev ms
      → Chained (set_next mem p v) prev ms
  Chained-set_next mem p v prev [] out h = ground arith
  Chained-set_next mem p v prev (m ∷ ms) out h =
      (ground (arith, out.0, h.0), ground (arith, h.1), Chained-set_next mem p v m ms out.1 h.2)

  pub Chained-set_previous :
      (mem : ℕ → Links) (p v prev : ℕ) (ms : List ℕ)
      → Outside p ms
      → Chained mem prev ms
      → Chained (set_previous mem p v) prev ms
  Chained-set_previous mem p v prev [] out h = ground arith
  Chained-set_previous mem p v prev (m ∷ ms) out h =
      (ground (arith, h.0), ground (arith, out.0, h.1), Chained-set_previous mem p v m ms out.1 h.2)

  -- A `next` pointer with these mutexes from it on.
  abbrev pub Follows : (ℕ → Links) → ℕ → List ℕ → Type 0
  Follows mem v [] = v ≡ head
  Follows mem v (m ∷ ms) = (v ≡ mutex_to_next offset m) × Chained mem m ms

  pub Follows-next :
      (mem : ℕ → Links) (prev : ℕ) (ms : List ℕ)
      → Chained mem prev ms
      → Follows mem (mem prev).next ms
  Follows-next mem prev [] h = h
  Follows-next mem prev (m ∷ ms) h = (h.0, h.2)

  pub Follows-set_next :
      (mem : ℕ → Links) (p w v : ℕ) (ms : List ℕ)
      → Outside p ms
      → Follows mem v ms
      → Follows (set_next mem p w) v ms
  Follows-set_next mem p w v [] out h = h
  Follows-set_next mem p w v (m ∷ ms) out h = (h.0, Chained-set_next mem p w m ms out h.1)

  pub Follows-set_previous :
      (mem : ℕ → Links) (p w v : ℕ) (ms : List ℕ)
      → Outside p ms
      → Follows mem v ms
      → Follows (set_previous mem p w) v ms
  Follows-set_previous mem p w v [] out h = h
  Follows-set_previous mem p w v (m ∷ ms) out h = (h.0, Chained-set_previous mem p w m ms out.1 h.1)

  module _ (head_aligned : IsAligned head) (offset_aligned : IsAligned offset) where
    -- A `next` pointer leads to the mutex that it was made of, and is not mistaken for the head.
    pub to_next_not_head : (m : ℕ) → next_is_head head (mutex_to_next offset m) ≡ false
    unfolding mutex_to_next
    to_next_not_head m = ground arith

    pub next_to_mutex-mutex_to_next :
        (m : ℕ) → IsAligned m → next_to_mutex head offset (mutex_to_next offset m) ≡ m
    unfolding next_to_mutex mutex_to_next
    next_to_mutex-mutex_to_next m a = ground arith

    set_back-cons :
        (mem : ℕ → Links) (new v m : ℕ)
        → IsAligned m
        → v ≡ mutex_to_next offset m
        → set_back head offset v new mem ≡ set_previous mem m new
    unfolding set_back
    set_back-cons mem new v m a e = rw (e, to_next_not_head m, next_to_mutex-mutex_to_next m a)

    set_back-nil : (mem : ℕ → Links) (new v : ℕ) → v ≡ head → set_back head offset v new mem ≡ mem
    unfolding set_back
    set_back-nil mem new v e = ground arith

    -- The first of the mutexes from a pointer on comes to point back to where the pointer stands.
    pub Chained-set_back :
        (mem : ℕ → Links) (new v : ℕ) (ms : List ℕ)
        → Distinct ms
        → AllAligned ms
        → (mem new).next ≡ v
        → Follows mem v ms
        → Chained (set_back head offset v new mem) new ms
    Chained-set_back mem new v [] d a e h = rw (set_back-nil mem new v h) (e ∙ h)
    Chained-set_back mem new v (m ∷ ms) d a e h =
        subst (λ k. Chained k new (m ∷ ms)) (sym (set_back-cons mem new v m a.0 h.0))
          (ground (arith, h.0), ground arith, Chained-set_previous mem m new m ms d.0 h.1)

    -- A cell that is none of these keeps its links, but for `previous` of none.
    pub set_back-Outside :
        (mem : ℕ → Links) (new v p : ℕ) (ms : List ℕ)
        → AllAligned ms
        → Outside p ms
        → Follows mem v ms
        → set_back head offset v new mem p ≡ mem p
    set_back-Outside mem new v p [] a out h = rw (set_back-nil mem new v h)
    set_back-Outside mem new v p (m ∷ ms) a out h =
        rw (set_back-cons mem new v m a.0 h.0) (ground (arith, out.0))
