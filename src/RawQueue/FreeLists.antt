-- ===== src/RawQueue/FreeLists.antt =====
-- The free list as a chain of headers: how the constructor builds it, and how `FreeMessages` counts it.
use miranda_dashboard.Base.{
  ℕ, zero, suc, ◌+◌, ◌<◌, ◌≤◌, ◌≡◌, ◌≢◌, sym, subst, refl, ◌∙◌, List, [], ◌∷◌, Option, none, some,
  arith, ap, length,
}
use miranda_dashboard.RawQueue.Shm.{MessageHeader, Shm, set_header}
use miranda_dashboard.RawQueue.Create.{new_queue, extra_messages, link_free, count_free}

-- A chain of free messages from a head pointer.
abbrev pub FreeList : (ℕ → MessageHeader) → Option ℕ → List ℕ → Type 0
FreeList h o [] = o ≡ none
FreeList h o (m ∷ ms) = (o ≡ some m) × FreeList h (h m).next ms

-- `FreeMessages` returns the length of the chain, if it has as many rounds.
count_free-length :
    (rounds : ℕ) (h : ℕ → MessageHeader) (o : Option ℕ) (ms : List ℕ)
    → FreeList h o ms
    → length ms ≤ rounds
    → count_free rounds h o ≡ some (length ms)
unfolding count_free
count_free-length zero h o [] e r = rw e
count_free-length (suc rounds) h o [] e r = rw e
count_free-length zero h o (m ∷ ms) e r = absurd (omega arith)
count_free-length (suc rounds) h o (m ∷ ms) (e, rest) r =
    rw (e, count_free-length rounds h (h m).next ms rest (omega arith))

-- Every member satisfies `P`.
abbrev pub All {ℓ} : {A : Type 0} → (A → Type ℓ) → List A → Type ℓ
All P [] = Unit
All P (x ∷ xs) = P x × All P xs

pub All-imp {ℓ κ} :
    {A : Type 0} (P : A → Type ℓ) (Q : A → Type κ) (xs : List A)
    → ((x : A) → P x → Q x)
    → All P xs
    → All Q xs
All-imp P Q [] f h = tt
All-imp P Q (x ∷ xs) f h = (f x h.0, All-imp P Q xs f h.1)

set_header_ne :
    (h : ℕ → MessageHeader) (p q : ℕ) (v : MessageHeader) → q ≢ p → set_header h p v q ≡ h q
set_header_ne h p q v ne = ground arith

set_header_self : (h : ℕ → MessageHeader) (p : ℕ) (v : MessageHeader) → set_header h p v p ≡ v
set_header_self h p v = ground arith

-- A write to a header that is not in the chain leaves the chain alone.
pub FreeList-set_header :
    (h : ℕ → MessageHeader) (p : ℕ) (v : MessageHeader) (o : Option ℕ) (ms : List ℕ)
    → All (λ m. m ≢ p) ms
    → FreeList h o ms
    → FreeList (set_header h p v) o ms
FreeList-set_header h p v o [] a f = f
FreeList-set_header h p v o (m ∷ ms) (ne, a) (e, f) =
    (e, rw (set_header_ne h p m v ne) (FreeList-set_header h p v (h m).next ms a f))

module _ (addresses : ℕ → ℕ) (distinct : (i j : ℕ) → addresses i ≡ addresses j → i ≡ j) where
  -- The addresses in the order of the free list, the last first.
  chain_of : ℕ → ℕ → List ℕ → List ℕ
  chain_of i zero ms = ms
  chain_of i (suc n) ms = chain_of (i + 1) n (addresses i ∷ ms)

  length-chain_of : (i n : ℕ) (ms : List ℕ) → length (chain_of i n ms) ≡ n + length ms
  unfolding chain_of
  length-chain_of i zero ms = omega arith
  length-chain_of i (suc n) ms = omega (arith, length-chain_of (i + 1) n (addresses i ∷ ms))

  abbrev Earlier : ℕ → ℕ → Type 0
  Earlier i m = (j : ℕ) × (j < i) × (m ≡ addresses j)

  FreeList-link_free :
      (i n : ℕ) (previous : Option ℕ) (h : ℕ → MessageHeader) (ms : List ℕ)
      → All (Earlier i) ms
      → FreeList h previous ms
      → let made = link_free addresses i n previous h in FreeList made.1 made.0 (chain_of i n ms)
  unfolding link_free chain_of
  FreeList-link_free i zero previous h ms old f = f
  FreeList-link_free i (suc n) previous h ms old f =
      FreeList-link_free (i + 1) n (some (addresses i)) _ (addresses i ∷ ms)
        (
          (i, omega arith, refl),
          All-imp (Earlier i) (Earlier (i + 1)) ms (λ m (j, lt, e). (j, omega arith, e)) old,
        )
        (
          refl,
          subst (λ o. FreeList (set_header h (addresses i) linked) o ms)
              (ap (λ (v : MessageHeader). v.next) (sym (set_header_self h (addresses i) linked)))
              (FreeList-set_header h (addresses i) linked previous ms
                (All-imp (Earlier i) (λ m. m ≢ addresses i) ms later old) f),
        )
    where
      linked : MessageHeader
      linked = record (h (addresses i)) { next = previous }

      later : (m : ℕ) → Earlier i m → m ≢ addresses i
      later m (j, lt, e) same = omega (arith, distinct j i (sym e ∙ same))

  count_free-link_free :
      (n : ℕ) (h : ℕ → MessageHeader)
      → let made = link_free addresses 0 n none h in count_free n made.1 made.0 ≡ some n
  count_free-link_free n h =
      count_free-length n _ _ (chain_of 0 n []) (FreeList-link_free 0 n none h [] tt refl)
        (omega (arith, length-chain_of 0 n []))
      ∙ ap some (omega (arith, length-chain_of 0 n []))

  -- A queue made by the constructor for messages at distinct addresses has its length and
  -- `kExtraMessages` of them free, by the count of `FreeMessages`.
  pub count_free-new_queue :
      (storage : List ℕ) (h : ℕ → MessageHeader) (name : List ℕ) (len hash n : ℕ) {s : Shm}
      → new_queue addresses storage h name len hash n ≡ some s
      → count_free (n + extra_messages) s.headers s.self.free_messages ≡ some (n + extra_messages)
  unfolding new_queue
  count_free-new_queue storage h name len hash n {s} made =
      ground (arith, count_free-link_free (n + extra_messages) h)
