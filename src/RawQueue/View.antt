-- ===== src/RawQueue/View.antt =====
-- The messages that a ring holds, oldest first, and what each move of its two ends does to them.
use miranda_dashboard.Base.{
  ℕ, zero, suc, ◌+◌, ◌-◌, ◌≤◌, ◌<◌, ◌≡◌, ◌≢◌, refl, ap, ap₂, ◌∙◌, List, [], ◌∷◌, ◌++◌, true, some,
  arith, ltb, if◌then◌else◌, length, length-set, set, get_or, get_elem?,
}
use miranda_dashboard.RawQueue.Shm.{Ring, is_writable}
use miranda_dashboard.RawQueue.Write.{placed, dropped}
use miranda_dashboard.RawQueue.Read.{entry, current_messages, last_message_index}

pub record IsValid (r : Ring) : Type 0 where
  pub sized : length r.entries ≡ r.data_length
  pub roomy : 2 ≤ r.data_length
  pub start_in : r.data_start < r.data_length
  pub end_in : r.data_end < r.data_length
  pub counted : current_messages r ≤ r.messages

-- `k` reduced by one turn round an array of `n`.
abbrev pub wrap : ℕ → ℕ → ℕ
wrap n k = if ltb k n then k else k - n

module _ {ℓ} {A : Type ℓ} (d : A) where
  pub get_or-set_self : (xs : List A) (i : ℕ) (v : A) → i < length xs → get_or (set xs i v) i d ≡ v
  get_or-set_self [] i v h = absurd (omega arith)
  get_or-set_self (x ∷ xs) zero v h = refl
  get_or-set_self (x ∷ xs) (suc i) v h = get_or-set_self xs i v (omega arith)

  pub get_or-set_ne :
      (xs : List A) (i j : ℕ) (v : A) → i ≢ j → get_or (set xs i v) j d ≡ get_or xs j d
  get_or-set_ne [] i j v h = refl
  get_or-set_ne (x ∷ xs) zero zero v h = absurd (h refl)
  get_or-set_ne (x ∷ xs) zero (suc j) v h = refl
  get_or-set_ne (x ∷ xs) (suc i) zero v h = refl
  get_or-set_ne (x ∷ xs) (suc i) (suc j) v h = get_or-set_ne xs i j v (λ e. h (ap suc e))

-- `count` entries from index `h` on.
unfoldable pub window : ℕ → List ℕ → ℕ → ℕ → List ℕ
window n xs h zero = []
window n xs h (suc count) = get_or xs h 0 ∷ window n xs (wrap n (h + 1)) count

unfoldable pub contents : Ring → List ℕ
contents r = window r.data_length r.entries r.data_start (current_messages r)

length-window : (n : ℕ) (xs : List ℕ) (h count : ℕ) → length (window n xs h count) ≡ count
unfolding window
length-window n xs h zero = refl
length-window n xs h (suc count) = ap suc (length-window n xs (wrap n (h + 1)) count)

pub length-contents : (r : Ring) → length (contents r) ≡ current_messages r
unfolding contents
length-contents r = length-window r.data_length r.entries r.data_start (current_messages r)

pub window-set :
    (n : ℕ) (xs : List ℕ) (x h count i : ℕ)
    → length xs ≡ n
    → h < n
    → count < n
    → i ≡ wrap n (h + count)
    → window n (set xs i x) h (suc count) ≡ window n xs h count ++ (x ∷ [])
unfolding window
window-set n xs x h zero i len hh hc e = ground (arith, get_or-set_self 0 xs i x)
window-set n xs x h (suc count) i len hh hc e =
    ap₂ ◌∷◌ (get_or-set_ne 0 xs i h x (ground arith))
      (window-set n xs x (wrap n (h + 1)) count i len (ground arith) (omega arith) (ground arith))

pub get_elem?-window :
    (n : ℕ) (xs : List ℕ) (h count k : ℕ)
    → h < n
    → count ≤ n
    → k < count
    → get_elem? (window n xs h count) k ≡ some (get_or xs (wrap n (h + k)) 0)
unfolding window
get_elem?-window n xs h zero k hh hc hk = absurd (omega arith)
get_elem?-window n xs h (suc count) zero hh hc hk = ap (λ j. some (get_or xs j 0)) (ground arith)
get_elem?-window n xs h (suc count) (suc k) hh hc hk =
    get_elem?-window n xs (wrap n (h + 1)) count k (ground arith) (omega arith) (omega arith)
    ∙ ap (λ j. some (get_or xs j 0)) (ground arith)

window-suc :
    (n : ℕ) (xs : List ℕ) (h count m : ℕ)
    → count ≡ suc m
    → window n xs h count ≡ get_or xs h 0 ∷ window n xs (wrap n (h + 1)) m
unfolding window
window-suc n xs h count m e = rw e

pub placed-IsValid :
    (msg : ℕ) {r : Ring} → IsValid r → is_writable r ≡ true → IsValid (placed msg r)
placed-IsValid msg {r} v w = ground (arith, length-set r.entries r.data_end msg)

pub dropped-IsValid : {r : Ring} → IsValid r → r.data_start ≢ r.data_end → IsValid (dropped r)
dropped-IsValid v ne = ground arith

pub contents-placed :
    (msg : ℕ) {r : Ring}
    → IsValid r
    → is_writable r ≡ true
    → contents (placed msg r) ≡ contents r ++ (msg ∷ [])
unfolding contents
contents-placed msg {r} v w =
    ap (window data_length (set entries data_end msg) data_start) (ground arith)
    ∙ window-set data_length entries msg data_start (current_messages r) data_end v.sized v.start_in
        (ground arith) (ground arith)
  where
    open r use {entries, data_length, data_start, data_end}

pub contents-dropped :
    {r : Ring}
    → IsValid r
    → r.data_start ≢ r.data_end
    → contents r ≡ entry r r.data_start ∷ contents (dropped r)
unfolding contents
contents-dropped {r} v ne =
    window-suc data_length entries data_start (current_messages r) (current_messages (dropped r))
      (ground arith)
    ∙ ap (λ h. entry r data_start ∷ window data_length entries h (current_messages (dropped r)))
        (ground arith)
  where
    open r use {entries, data_length, data_start, data_end}

-- The message at place `k` of the queue.
pub get_elem?-contents :
    {r : Ring} (k : ℕ)
    → IsValid r
    → k < current_messages r
    → get_elem? (contents r) k ≡ some (entry r (wrap r.data_length (r.data_start + k)))
unfolding contents
get_elem?-contents {r} k v h =
    get_elem?-window r.data_length r.entries r.data_start (current_messages r) k v.start_in
      (ground arith) h

-- The message just before `data_end` is the newest.
pub get_elem?-last :
    {r : Ring}
    → IsValid r
    → r.data_start ≢ r.data_end
    → get_elem? (contents r) (current_messages r - 1) ≡ some (entry r (last_message_index r))
unfolding last_message_index
get_elem?-last {r} v ne =
    get_elem?-contents (current_messages r - 1) v (ground arith)
    ∙ ap (λ j. some (entry r j)) (ground arith)

pub contents-empty : (r : Ring) → r.data_start ≡ r.data_end → contents r ≡ []
unfolding contents window
contents-empty r e = ap (window r.data_length r.entries r.data_start) {y = 0} (ground arith)
