-- ===== src/RawQueue/Refine/Drain.antt =====
-- The loop with which `DoReadMessage` takes the newest message.
use miranda_dashboard.Base.{
  ℕ, zero, suc, ◌≤◌, ◌≡◌, ◌≢◌, ◌∙◌, refl, sym, true, false, arith, ◌==◌, inl, inr, Bool-cases, ap,
}
use miranda_dashboard.RawQueue.Shm.{bind_done, Ring, Shm, Outcome, done, ◌>>◌, pure, index_add1}
use miranda_dashboard.RawQueue.Write.{dropped, advance_start, decrement}
use miranda_dashboard.RawQueue.Read.{last_message_index, entry, drain, current_messages}
use miranda_dashboard.RawQueue.View.{IsValid, dropped-IsValid}
use miranda_dashboard.RawQueue.Refine.Freeing.{decremented, decrement-decremented, ring-decremented}
use miranda_dashboard.RawQueue.Refine.Sound.{IsSound, decremented-IsSound}

pub advanced : Shm → Shm
advanced s = record s { self = record s.self { ring = dropped s.self.ring } }

pub advance_start-advanced : (s : Shm) → advance_start s ≡ done tt (advanced s)
unfolding advance_start advanced
advance_start-advanced s = refl

pub ring-advanced : (s : Shm) → (advanced s).self.ring ≡ dropped s.self.ring
unfolding advanced
ring-advanced s = refl

pub advanced-IsSound :
    (s : Shm) → IsSound s → s.self.data_start ≢ s.self.data_end → IsSound (advanced s)
unfolding advanced
advanced-IsSound s v ne = record { valid = dropped-IsValid v.valid ne; alone = v.alone }

-- What `drain` comes to: the newest message, and an empty queue.
pub record Drained (s : Shm) (out : Outcome ℕ) : Type 0 where
  pub after : Shm
  pub returned : out ≡ done (entry s.self.ring (last_message_index s.self.ring)) after
  pub emptied : after.self.ring ≡ record s.self.ring { data_start = s.self.data_end }
  pub sound : IsSound after

abbrev with_start_at_end : Ring → Ring
with_start_at_end r = record r { data_start = r.data_end }

-- One round more at the start of a drain.
Drained-step :
    (s t : Shm) {out : Outcome ℕ}
    → t.self.ring ≡ dropped s.self.ring
    → Drained t out
    → Drained s out
unfolding last_message_index
Drained-step s t e d = record {
  after = d.after;
  returned = d.returned ∙ ap (λ r. done (entry r (last_message_index r)) d.after) e;
  emptied = d.emptied ∙ ap (with_start_at_end) e;
  sound = d.sound;
}

last_message_index-start :
    (r : Ring)
    → IsValid r
    → (index_add1 r r.data_start == r.data_end) ≡ true
    → last_message_index r ≡ r.data_start
unfolding last_message_index
last_message_index-start r v h = ground arith

pub unread : (r : Ring) → IsValid r → r.data_start ≢ r.data_end → current_messages r ≢ 0
unread r v ne = ground arith

-- The state after a message left the queue and its reference was given up.
discarded : Shm → Shm
discarded s = decremented (entry s.self.ring s.self.data_start) (advanced s)

ring-discarded : (s : Shm) → (discarded s).self.ring ≡ dropped s.self.ring
unfolding discarded
ring-discarded s =
    ring-decremented (entry s.self.ring s.self.data_start) (advanced s) ∙ ring-advanced s

discarded-IsSound :
    (s : Shm) → IsSound s → s.self.data_start ≢ s.self.data_end → IsSound (discarded s)
unfolding discarded
discarded-IsSound s v ne =
    decremented-IsSound (entry s.self.ring s.self.data_start) (advanced s) (advanced-IsSound s v ne)

drain-discarded :
    (rounds : ℕ) (s : Shm)
    → IsSound s
    → s.self.data_start ≢ s.self.data_end
    → (index_add1 s.self.ring s.self.data_start == s.self.data_end) ≡ false
    → drain (suc rounds) s ≡ drain rounds (discarded s)
unfolding drain discarded
drain-discarded rounds s v ne more = rw more (
    bind_done advance_start (λ _. decrement (entry s.self.ring s.self.data_start) >> drain rounds)
      (advance_start-advanced s)
    ∙ bind_done (decrement (entry s.self.ring s.self.data_start)) (λ _. drain rounds)
        (decrement-decremented (entry s.self.ring s.self.data_start) (advanced s)
          (advanced-IsSound s v ne).alone))

drain-last :
    (rounds : ℕ) (s : Shm)
    → IsSound s
    → (index_add1 s.self.ring s.self.data_start == s.self.data_end) ≡ true
    → drain (suc rounds) s ≡ done (entry s.self.ring (last_message_index s.self.ring)) (advanced s)
unfolding drain
drain-last rounds s v last = rw last (
    bind_done advance_start (λ _. pure (entry s.self.ring s.self.data_start))
      (advance_start-advanced s)
    ∙ ap (λ i. done (entry s.self.ring i) (advanced s))
        (sym (last_message_index-start s.self.ring v.valid last)))

pub drain-Drained :
    (rounds : ℕ) (s : Shm)
    → IsSound s
    → s.self.data_start ≢ s.self.data_end
    → current_messages s.self.ring ≤ rounds
    → Drained s (drain rounds s)
drain-Drained zero s v ne h = absurd (unread s.self.ring v.valid ne (omega arith))
drain-Drained (suc rounds) s v ne h =
    elim (Bool-cases (index_add1 s.self.ring s.self.data_start == s.self.data_end)) [
      | inl last ↦ record {
        after = advanced s;
        returned = drain-last rounds s v last;
        emptied = ring-advanced s ∙ ap (λ i. record s.self.ring { data_start = i }) (ground arith);
        sound = advanced-IsSound s v ne;
      }
      | inr more ↦ rw (drain-discarded rounds s v ne more) (
          Drained-step s (discarded s) (ring-discarded s) (
            drain-Drained rounds (discarded s) (discarded-IsSound s v ne)
              (rw (ring-discarded s) (ground arith))
              (rw (ring-discarded s) (ground (arith, v.valid)))))
    ]
