-- ===== src/RobustList/Offsets.antt =====
-- `SetRobustListOffset`, `Init` and `HaveLockedMutexes`.
use miranda_dashboard.Base.{
  ℕ, zero, suc, ◌+◌, ◌-◌, ◌%◌, ◌<◌, ◌≡◌, refl, ap, ◌∙◌, Bool, true, false, not, some, List, [], ◌∷◌,
  length, arith,
}
use miranda_dashboard.RobustList.{
  Links, Thread, word, set_next, next_is_head, mutex_to_next, init, shift, set_robust_list_offset,
  have_locked_mutexes,
}
use miranda_dashboard.RobustList.Chained.{
  Outside, Distinct, IsAligned, AllAligned, Chained, Chained-set_next, to_next_not_head,
  next_to_mutex-mutex_to_next,
}
use miranda_dashboard.RobustList.Locking.{Holds}

-- A pointer made with one offset, moved by the change, is the pointer made with the other.
moved_to_next :
    (old new m : ℕ)
    → IsAligned old
    → IsAligned new
    → IsAligned m
    → (mutex_to_next old m + (new + word - old) % word) % word ≡ mutex_to_next new m
unfolding mutex_to_next
moved_to_next old new m o n a = omega arith

module _ (head old new : ℕ) (head_aligned : IsAligned head) (old_aligned : IsAligned old)
    (new_aligned : IsAligned new) where
  shift-Chained :
      (rounds : ℕ) (mem : ℕ → Links) (prev : ℕ) (ms : List ℕ)
      → length ms < rounds
      → Distinct (prev ∷ ms)
      → AllAligned ms
      → Chained head old mem prev ms
      → (mem' : ℕ → Links) × (shift rounds head new ((new + word - old) % word) mem prev
          ≡ some mem')
        × Chained head new mem' prev ms
        × ((q : ℕ) → Outside q (prev ∷ ms) → mem' q ≡ mem q)
        × ((q : ℕ) → (mem' q).previous ≡ (mem q).previous)
  unfolding shift
  shift-Chained zero mem prev ms lt d a h = absurd (omega arith)
  shift-Chained (suc rounds) mem prev [] lt d a h =
      let at_head : next_is_head head (mem prev).next ≡ true = ground arith in
      (mem, rw (shift, at_head), h, λ q out. refl, λ q. refl)
  shift-Chained (suc rounds) mem prev (m ∷ ms) lt d a h =
      let moved = mutex_to_next new m in
      let not_head : next_is_head head (mem prev).next ≡ false =
        ap (next_is_head head) h.0 ∙ to_next_not_head head old head_aligned old_aligned m in
      let moves : ((mem prev).next + (new + word - old) % word) % word ≡ moved =
        ap (λ (n : ℕ). (n + (new + word - old) % word) % word) h.0
        ∙ moved_to_next old new m old_aligned new_aligned a.0 in
      let leads = next_to_mutex-mutex_to_next head new head_aligned new_aligned m a.0 in
      let mem₁ = set_next mem prev moved in
      let (mem', shifted, chained, same, back) =
        shift-Chained rounds mem₁ m ms (omega arith) d.1 a.1
          (Chained-set_next head old mem prev moved m ms d.0 h.2) in
      (
        mem',
        rw (shift, not_head, moves, leads) shifted,
        (
          ap (λ (l : Links). l.next) (same prev d.0) ∙ ground arith,
          back m ∙ ground (arith, h.1),
          chained,
        ),
        λ q out. (same q out.1 ∙ ground (arith, out.0)),
        λ q. (back q ∙ ground arith),
      )

-- A change of the offset to another aligned one, with one round more than there are mutexes on the list, ends, and the
-- thread holds the same mutexes in the same order, by the pointers of the new offset.
pub set_robust_list_offset-Holds :
    (t : Thread) (offset rounds : ℕ) (ms : List ℕ)
    → Holds t ms
    → IsAligned offset
    → length ms < rounds
    → (t' : Thread) × (set_robust_list_offset rounds offset t ≡ some t')
      × (t'.offset ≡ offset)
      × Holds t' ms
unfolding set_robust_list_offset
set_robust_list_offset-Holds t offset rounds ms h a enough =
    let (mem, shifted, chained, same, back) =
      shift-Chained t.head t.offset offset h.head_aligned h.offset_aligned a rounds t.mem t.head ms
        enough h.distinct h.aligned h.chained in
    (
      record t { mem = mem; offset = offset },
      rw (set_robust_list_offset, shifted),
      refl,
      record {
        chained = chained;
        distinct = h.distinct;
        aligned = h.aligned;
        head_aligned = h.head_aligned;
        offset_aligned = a;
      },
    )

-- A thread starts with no mutexes.
pub Holds-init : (t : Thread) → IsAligned t.head → IsAligned t.offset → Holds (init t) []
unfolding init
Holds-init t a o = record {
  chained = ground arith;
  distinct = (tt, tt);
  aligned = tt;
  head_aligned = a;
  offset_aligned = o;
}

abbrev pub is_empty : List ℕ → Bool
is_empty [] = true
is_empty (m ∷ ms) = false

-- `HaveLockedMutexes` is true just if the thread holds a mutex.
pub have_locked_mutexes-Holds :
    (t : Thread) (ms : List ℕ) → Holds t ms → have_locked_mutexes t ≡ not (is_empty ms)
unfolding have_locked_mutexes
have_locked_mutexes-Holds t [] h = ground (arith, h.chained)
have_locked_mutexes-Holds t (m ∷ ms) h =
    ground (arith, h.chained.0, to_next_not_head t.head t.offset h.head_aligned h.offset_aligned m)
