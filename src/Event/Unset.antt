-- ===== src/Event/Unset.antt =====
-- aos/common/event.cc: waits for an event that stays unset.
use native.Mathlib.Decide.{ℕ_discrete}
use mathlib.Core.Bool.{false≢true}
use miranda_dashboard.Base.{ℕ, ◌≡◌, ◌≢◌, refl, sym, ap, subst, ◌∙◌, arith, Bool, true, false, some}
use miranda_dashboard.Mutex.{Ret, ok, timed_out, interrupted, would_block, other_error}
use miranda_dashboard.Event.Safety.{go_self, go_other}
use miranda_dashboard.Event.{
  wait_result, waited, Pc, returned, checking, entering, asleep, waking, after_load, wait_ends,
  clear, Queue, Kernel, System, go, put_queue, Step, calls_wait, checks, sleeps, refused, leaves,
  stores, wakes, clears,
}

-- Whether a thread has stored a value, and not woken the others yet.
abbrev pub is_waking : Pc → Bool
is_waking waking = true
is_waking _ = false

-- The event is unset, and no Set is under way.
abbrev pub IsUnset : System → Type 0
IsUnset s = (s.futex ≡ 0) × ((i : ℕ) → is_waking (s.pc i) ≡ false)

abbrev has_waited : Pc → Bool
has_waited (returned (waited true)) = true
has_waited _ = false

abbrev sleeping : Pc → Bool
sleeping (asleep timeout) = true
sleeping _ = false

-- A thread has not returned true, and has not been woken.
record IsKept (queued : Bool) (p : Pc) : Type 0 where
  pub unreturned : has_waited p ≡ false
  pub queued_asleep : sleeping p ≡ true → queued ≡ true

kept : (queued : Bool) (p : Pc) → has_waited p ≡ false → sleeping p ≡ false → IsKept queued p
kept queued p h e = record { unreturned = h; queued_asleep = λ a. absurd (false≢true (sym e ∙ a)) }

go-IsKept :
    (s : System) (tid v : ℕ) (queue : Queue) (p : Pc) (i : ℕ)
    → (i ≢ tid → queue i ≡ s.queue i)
    → IsKept (s.queue i) (s.pc i)
    → (i ≡ tid → IsKept (queue i) p)
    → IsKept (queue i) ((go s tid v queue p).pc i)
go-IsKept s tid v queue p i q before after = elim (ℕ_discrete i tid) [
  | yes same ↦
      subst (IsKept (queue i))
        (sym (subst (λ j. (go s tid v queue p).pc j ≡ p) (sym same) (go_self s tid v queue p)))
        (after same)
  | no other ↦
      subst (IsKept (queue i)) (sym (go_other s tid v queue p i other))
        (subst (λ queued. IsKept queued (s.pc i)) (sym (q other)) before)
]

put_other : (queue : Queue) (tid i : ℕ) (b : Bool) → i ≢ tid → put_queue queue tid b i ≡ queue i
put_other queue tid i b h = ground arith

put_self : (queue : Queue) (tid i : ℕ) (b : Bool) → i ≡ tid → put_queue queue tid b i ≡ b
put_self queue tid i b h = ground arith

load_unset : (v : ℕ) (timeout : Bool) → v ≡ 0 → after_load v timeout ≡ entering timeout
unfolding after_load
load_unset v timeout h = ground arith

-- A call that is neither woken nor told that the event is set.
wait_ends-IsKept :
    (queued timeout : Bool) (ret : Ret)
    → ret ≢ ok
    → ret ≢ would_block
    → IsKept queued (wait_ends timeout (wait_result ret))
unfolding wait_ends wait_result
wait_ends-IsKept queued timeout ok h h' = absurd (h refl)
wait_ends-IsKept queued timeout would_block h h' = absurd (h' refl)
wait_ends-IsKept queued timeout interrupted h h' = kept queued _ refl refl
wait_ends-IsKept queued true timed_out h h' = kept queued _ refl refl
wait_ends-IsKept queued false timed_out h h' = kept queued _ refl refl
wait_ends-IsKept queued timeout other_error h h' = kept queued _ refl refl

module _ (k : Kernel) where
  open k use {Enter, Leave, enter_blocks, enter_sleeps, leave_woken, leave_compared}

  not_woken :
      (s : System) (i : ℕ) (timeout : Bool) (ret : Ret)
      → IsKept (s.queue i) (s.pc i)
      → s.pc i ≡ asleep timeout
      → Leave (s.queue i) ret
      → ret ≢ ok
  not_woken s i timeout ret a e leave is_ok = false≢true (
      sym (leave_woken (s.queue i) (subst (Leave (s.queue i)) is_ok leave))
      ∙ a.queued_asleep (ap sleeping e))

  Step-IsKept :
      {s t : System} (i : ℕ)
      → IsUnset s
      → Step k s t
      → IsUnset t
      → IsKept (s.queue i) (s.pc i)
      → IsKept (t.queue i) (t.pc i)
  unfolding clear
  Step-IsKept {s} i u (calls_wait tid result timeout e) u' a =
      go-IsKept s tid s.futex s.queue _ i (λ _. refl) a (λ _. kept _ _ refl refl)
  Step-IsKept {s} i u (checks tid timeout e) u' a =
      go-IsKept s tid s.futex s.queue _ i (λ _. refl) a
        (λ _.
          subst (IsKept (s.queue i)) (sym (load_unset s.futex timeout u.0)) (kept _ _ refl refl))
  Step-IsKept {s} i u (sleeps tid timeout e enter) u' a =
      go-IsKept s tid s.futex (put_queue s.queue tid true) _ i (put_other s.queue tid i true) a
        (λ same. record {
          unreturned = refl;
          queued_asleep = λ _. put_self s.queue tid i true same;
        })
  Step-IsKept {s} i u (refused tid timeout ret e enter) u' a =
      go-IsKept s tid s.futex s.queue _ i (λ _. refl) a
        (λ _.
          wait_ends-IsKept (s.queue i) timeout ret (enter_sleeps s.futex 0 ret enter) (λ blocked.
            enter_blocks s.futex 0 (subst (λ r. Enter s.futex 0 (some r)) blocked enter) u.0))
  Step-IsKept {s} i u (leaves tid timeout ret e leave) u' a =
      go-IsKept s tid s.futex (put_queue s.queue tid false) _ i (put_other s.queue tid i false) a
        (λ same.
          wait_ends-IsKept _ timeout ret
            (not_woken s i timeout ret a (subst (λ j. s.pc j ≡ asleep timeout) (sym same) e)
              (subst (λ j. Leave (s.queue j) ret) (sym same) leave))
            (leave_compared (s.queue tid) ret leave))
  Step-IsKept {s} i u (stores tid value result e lt) u' a = absurd (omega (arith, lt, u'.0))
  Step-IsKept {s} i u (wakes tid ret queue e wake) u' a =
      absurd (false≢true (sym (u.1 tid) ∙ ap is_waking e))
  Step-IsKept {s} i u (clears tid result e) u' a =
      go-IsKept s tid 0 s.queue _ i (λ _. refl) a (λ _. kept _ _ refl refl)

  -- Steps, after each of which the event is unset and no Set under way.
  pub data Unset (s : System) : System → Type 0 where
    stays : Unset s s
    follows : {t u : System} → Unset s t → Step k t u → IsUnset u → Unset s u

  Unset-IsUnset : {s t : System} → IsUnset s → Unset s t → IsUnset t
  Unset-IsUnset u stays = u
  Unset-IsUnset u (follows run step u') = u'

  Unset-IsKept :
      {s t : System} (i : ℕ)
      → IsUnset s
      → Unset s t
      → IsKept (s.queue i) (s.pc i)
      → IsKept (t.queue i) (t.pc i)
  Unset-IsKept i u stays a = a
  Unset-IsKept i u (follows run step u') a =
      Step-IsKept i (Unset-IsUnset u run) step u' (Unset-IsKept i u run a)

  -- As long as the event is unset and no Set is under way, no thread that starts to wait, with or
  -- without a timeout, is told that the event is set.
  pub waits_go_on :
      {s t : System} (tid : ℕ) (timeout : Bool)
      → IsUnset s
      → s.pc tid ≡ checking timeout
      → Unset s t
      → t.pc tid ≢ returned (waited true)
  waits_go_on {s} {t} tid timeout u e run told =
      let a =
        Unset-IsKept tid u run (
          subst (IsKept (s.queue tid)) (sym e) (kept (s.queue tid) (checking timeout) refl refl)) in
      false≢true (sym a.unreturned ∙ ap has_waited told)
