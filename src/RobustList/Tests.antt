-- ===== src/RobustList/Tests.antt =====
-- A thread with its head at 4096 and mutexes at 8, 16 and 24.
use miranda_dashboard.Base.{◌≡◌, some, [], ◌∷◌, arith}
use miranda_dashboard.RobustList.{
  Links, Thread, init, set_robust_list_offset, have_locked_mutexes, mutex_to_next,
}
use miranda_dashboard.RobustList.Locking.{Holds, with_added, with_removed, Holds-add, Holds-remove}
use miranda_dashboard.RobustList.Offsets.{set_robust_list_offset-Holds, Holds-init}

abbrev fresh : Thread
fresh = record {
  mem = λ p. record { next = 0; previous = 0 };
  head = 4096;
  pending_next = 0;
  offset = 0;
}

begun-Holds : Holds (init fresh) []
begun-Holds = Holds-init fresh (omega arith) (omega arith)

abbrev one : Thread
one = with_added (init fresh) 8

abbrev two : Thread
two = with_added one 16

one-Holds : Holds one (8 ∷ [])
unfolding init miranda_dashboard.RobustList.add miranda_dashboard.RobustList.begin_add
    miranda_dashboard.RobustList.end_add
one-Holds = Holds-add (init fresh) 8 [] begun-Holds (omega arith) (omega arith) tt

two-Holds : Holds two (16 ∷ 8 ∷ [])
unfolding init miranda_dashboard.RobustList.add miranda_dashboard.RobustList.begin_add
    miranda_dashboard.RobustList.end_add
two-Holds = Holds-add one 16 (8 ∷ []) one-Holds (omega arith) (omega arith) (omega arith)

Holds-add_example : Holds (with_added two 24) (24 ∷ 16 ∷ 8 ∷ [])
unfolding init miranda_dashboard.RobustList.add miranda_dashboard.RobustList.begin_add
    miranda_dashboard.RobustList.end_add
Holds-add_example =
    Holds-add two 24 (16 ∷ 8 ∷ []) two-Holds (omega arith) (omega arith) (omega arith)

Holds-remove_example : Holds (with_removed two 8) (16 ∷ [])
Holds-remove_example = Holds-remove two 8 (16 ∷ []) [] two-Holds

set_robust_list_offset-Holds_example :
    (t : Thread) × (set_robust_list_offset 3 64 two ≡ some t)
    × (t.offset ≡ 64)
    × Holds t (16 ∷ 8 ∷ [])
set_robust_list_offset-Holds_example =
    set_robust_list_offset-Holds two 64 3 (16 ∷ 8 ∷ []) two-Holds (omega arith) (omega arith)
