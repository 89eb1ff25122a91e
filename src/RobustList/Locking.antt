-- ===== src/RobustList/Locking.antt =====
-- `Adder::Add` and `Remover`: the mutexes that a thread holds.
use miranda_dashboard.Base.{ℕ, ◌≡◌, ◌≢◌, sym, ap, subst, ◌∙◌, List, [], ◌∷◌, ◌++◌, arith}
use miranda_dashboard.RobustList.{
  Links, Thread, set_next, set_previous, mutex_to_next, added, add, begin_add, end_add, removed,
  remove, end_remove,
}
use miranda_dashboard.RobustList.Chained.{
  Outside, Distinct, IsAligned, AllAligned, Chained, Follows, Follows-next, Follows-set_next,
  Follows-set_previous, Chained-set_back, set_back-Outside,
}

-- The thread holds these mutexes, the one locked last first.
pub record Holds (t : Thread) (ms : List ℕ) : Type 0 where
  pub chained : Chained t.head t.offset t.mem t.head ms
  pub distinct : Distinct (t.head ∷ ms)
  pub aligned : AllAligned ms
  pub head_aligned : IsAligned t.head
  pub offset_aligned : IsAligned t.offset

-- `Adder`, from its constructor to its destructor, with `Add`.
abbrev pub with_added : Thread → ℕ → Thread
with_added t m = end_add (add (begin_add t m) m)

-- `Remover`, from its constructor to its destructor.
abbrev pub with_removed : Thread → ℕ → Thread
with_removed t m = end_remove (remove t m)

-- The links after `added`, for a mutex that the thread does not hold.
module _ (t : Thread) (m : ℕ) (ms : List ℕ) (h : Holds t ms) (a : IsAligned m) (apart : m ≢ t.head)
    (out : Outside m ms) where
  before_back : ℕ → Links
  before_back =
      set_previous
        (set_next (set_next t.mem m (t.mem t.head).next) t.head (mutex_to_next t.offset m)) m t.head

  before_back-Follows : Follows t.head t.offset before_back (t.mem t.head).next ms
  unfolding before_back
  before_back-Follows = Follows-set_previous t.head t.offset _ m t.head _ ms out (
      Follows-set_next t.head t.offset _ t.head (mutex_to_next t.offset m) _ ms h.distinct.0 (
        Follows-set_next t.head t.offset t.mem m _ _ ms out
          (Follows-next t.head t.offset t.mem t.head ms h.chained)))

  added-Chained : Chained t.head t.offset (added t.head t.offset m t.mem) t.head (m ∷ ms)
  unfolding added before_back
  added-Chained =
      let v = (t.mem t.head).next in
      let at_head =
        set_back-Outside t.head t.offset h.head_aligned h.offset_aligned before_back m v t.head ms
          h.aligned h.distinct.0 before_back-Follows in
      let at_new =
        set_back-Outside t.head t.offset h.head_aligned h.offset_aligned before_back m v m ms
          h.aligned out before_back-Follows in
      (
        ap (λ (l : Links). l.next) at_head ∙ ground arith,
        ap (λ (l : Links). l.previous) at_new ∙ ground arith,
        Chained-set_back t.head t.offset h.head_aligned h.offset_aligned before_back m v ms
            h.distinct.1 h.aligned (ground arith) before_back-Follows,
      )

-- An aligned mutex that the thread does not hold yet, and that is not the head, is put in front of
-- those that it does: with their links in order before, they are after Adder and Add, with no mutex
-- twice.
pub Holds-add :
    (t : Thread) (m : ℕ) (ms : List ℕ)
    → Holds t ms
    → IsAligned m
    → m ≢ t.head
    → Outside m ms
    → Holds (with_added t m) (m ∷ ms)
unfolding add begin_add end_add
Holds-add t m ms h a apart out = record {
  chained = added-Chained t m ms h a apart out;
  distinct = ((λ e. apart (sym e), h.distinct.0), (out, h.distinct.1));
  aligned = (a, h.aligned);
  head_aligned = h.head_aligned;
  offset_aligned = h.offset_aligned;
}

-- Without one of the mutexes.
Outside-remove : (q m : ℕ) (xs ys : List ℕ) → Outside q (xs ++ (m ∷ ys)) → Outside q (xs ++ ys)
Outside-remove q m [] ys h = h.1
Outside-remove q m (x ∷ xs) ys h = (h.0, Outside-remove q m xs ys h.1)

Outside-rest : (q m : ℕ) (xs ys : List ℕ) → Outside q (xs ++ (m ∷ ys)) → Outside q ys
Outside-rest q m [] ys h = h.1
Outside-rest q m (x ∷ xs) ys h = Outside-rest q m xs ys h.1

Distinct-remove : (m : ℕ) (xs ys : List ℕ) → Distinct (xs ++ (m ∷ ys)) → Distinct (xs ++ ys)
Distinct-remove m [] ys h = h.1
Distinct-remove m (x ∷ xs) ys h = (Outside-remove x m xs ys h.0, Distinct-remove m xs ys h.1)

AllAligned-remove :
    (m : ℕ) (xs ys : List ℕ)
    → AllAligned (xs ++ (m ∷ ys))
    → AllAligned (xs ++ ys) × AllAligned ys × IsAligned m
AllAligned-remove m [] ys h = (h.1, h.1, h.0)
AllAligned-remove m (x ∷ xs) ys h =
    let (all, rest, one) = AllAligned-remove m xs ys h.1 in ((h.0, all), rest, one)

module _ (head offset : ℕ) (mem : ℕ → Links) (m : ℕ) (ys : List ℕ) where
  rest-Chained :
      (prev : ℕ) (xs : List ℕ)
      → Chained head offset mem prev (xs ++ (m ∷ ys))
      → Chained head offset mem m ys
  rest-Chained prev [] h = h.2
  rest-Chained prev (x ∷ xs) h = rest-Chained x xs h.2

  -- The mutex before `m` is none of these.
  previous-Outside :
      (prev : ℕ) (xs : List ℕ)
      → Chained head offset mem prev (xs ++ (m ∷ ys))
      → Distinct (prev ∷ (xs ++ (m ∷ ys)))
      → Outside (mem m).previous ys
  previous-Outside prev [] h d = rw h.1 d.0.1
  previous-Outside prev (x ∷ xs) h d = previous-Outside x xs h.2 d.1

  previous_ne :
      (q prev : ℕ) (xs : List ℕ)
      → Chained head offset mem prev (xs ++ (m ∷ ys))
      → q ≢ prev
      → Outside q (xs ++ (m ∷ ys))
      → q ≢ (mem m).previous
  previous_ne q prev [] h ne out = rw h.1 ne
  previous_ne q prev (x ∷ xs) h ne out = previous_ne q x xs h.2 out.0 out.1

  module _ (head_aligned : IsAligned head) (offset_aligned : IsAligned offset)
      (aligned : AllAligned ys) (distinct : Distinct ys) (apart : Outside (mem m).previous ys)
      (rest : Chained head offset mem m ys) where
    unlinked : ℕ → Links
    unlinked = set_next mem (mem m).previous (mem m).next

    unlinked-Follows : Follows head offset unlinked (mem m).next ys
    unfolding unlinked
    unlinked-Follows =
        Follows-set_next head offset mem (mem m).previous (mem m).next (mem m).next ys apart
          (Follows-next head offset mem m ys rest)

    -- A cell that is none of those after `m`.
    removed-Outside : (q : ℕ) → Outside q ys → removed head offset m mem q ≡ unlinked q
    unfolding removed unlinked
    removed-Outside q out =
        set_back-Outside head offset head_aligned offset_aligned unlinked (mem m).previous
          (mem m).next q ys aligned out unlinked-Follows

    removed-Chained :
        (prev : ℕ) (xs : List ℕ)
        → Chained head offset mem prev (xs ++ (m ∷ ys))
        → Distinct (prev ∷ (xs ++ (m ∷ ys)))
        → Chained head offset (removed head offset m mem) prev (xs ++ ys)
    unfolding removed unlinked
    removed-Chained prev [] h d =
        subst (λ p. Chained head offset (removed head offset m mem) p ys) h.1
          (Chained-set_back head offset head_aligned offset_aligned unlinked (mem m).previous
            (mem m).next ys distinct aligned (ground arith) unlinked-Follows)
    removed-Chained prev (x ∷ xs) h d = (
      ap (λ (l : Links). l.next) (removed-Outside prev (Outside-rest prev m (x ∷ xs) ys d.0))
          ∙ ground (arith, previous_ne prev x xs h.2 d.0.0 d.0.1, h.0),
      ap (λ (l : Links). l.previous) (removed-Outside x (Outside-rest x m xs ys d.1.0))
          ∙ ground (arith, h.1),
      removed-Chained x xs h.2 d.1,
    )

Distinct-rest : (m : ℕ) (xs ys : List ℕ) → Distinct (xs ++ (m ∷ ys)) → Distinct ys
Distinct-rest m [] ys h = h.1
Distinct-rest m (x ∷ xs) ys h = Distinct-rest m xs ys h.1

-- A mutex anywhere among those that the thread holds is taken out by Remover, and the others keep
-- their order, their links in order.
pub Holds-remove :
    (t : Thread) (m : ℕ) (xs ys : List ℕ)
    → Holds t (xs ++ (m ∷ ys))
    → Holds (with_removed t m) (xs ++ ys)
unfolding remove end_remove
Holds-remove t m xs ys h =
    let (all, aligned, one) = AllAligned-remove m xs ys h.aligned in
    record {
      chained =
          removed-Chained t.head t.offset t.mem m ys h.head_aligned h.offset_aligned aligned
            (Distinct-rest m xs ys h.distinct.1)
            (previous-Outside t.head t.offset t.mem m ys t.head xs h.chained h.distinct)
            (rest-Chained t.head t.offset t.mem m ys t.head xs h.chained) t.head xs h.chained
            h.distinct;
      distinct = Distinct-remove m (t.head ∷ xs) ys h.distinct;
      aligned = all;
      head_aligned = h.head_aligned;
      offset_aligned = h.offset_aligned;
    }
