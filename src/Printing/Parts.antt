-- ===== src/Printing/Parts.antt =====
-- aos/common/queue_types.cc: the parts of the printers.
use miranda_dashboard.Base.{
  ℕ, ◌+◌, ◌-◌, ◌%◌, ◌^◌, ◌≤◌, ◌<◌, ◌≡◌, refl, sym, ap, ◌∙◌, arith, Bool, true, false, Bool-cases,
  ltb, leb, if◌then◌else◌, List, [], ◌∷◌, ◌++◌, length, take, drop, append-nil, length-append, inl,
  inr,
}
use miranda_dashboard.Printing.{
  not_printed, printed, ◌>>=◌, Output, Printer, State, put, skip, resume, nested, separate,
}
use miranda_dashboard.Printing.Emits.{
  advance, Emits, Exact, Roomy, State-eq, if_room, if_true, if_false, has_room,
}

room_lt : (l o : ℕ) → leb (l + 0) o ≡ true → ltb o l ≡ false
room_lt l o h = ground arith

full_lt : (l o : ℕ) → leb (l + 0) o ≡ false → ltb o l ≡ true
full_lt l o h = ground arith

less_nothing : (n : ℕ) → n ≡ n - 0
less_nothing n = omega arith

put-advance :
    (text : List ℕ) (s : State)
    → ◌≡◌ {A = State}
        (record s { written = s.written ++ text; output_bytes = s.output_bytes - length text })
        (advance text 0 s)
put-advance text s = State-eq refl refl refl (less_nothing s.input_bytes)

pub put-Emits : (text : List ℕ) → Emits (put text) (λ input. text) 0 0
unfolding put
put-Emits text s h few =
    let after : State = record s {
      written = s.written ++ text;
      output_bytes = s.output_bytes - length text;
    } in
    elim (Bool-cases (has_room text 0 s)) [
      | inl room ↦
          ap (λ b. if b then not_printed else printed after)
            (room_lt (length text) s.output_bytes room)
          ∙ ap printed (put-advance text s)
          ∙ sym (if_true _ (advance text 0 s) room)
      | inr full ↦
          ap (λ b. if b then not_printed else printed after)
            (full_lt (length text) s.output_bytes full)
          ∙ sym (if_false _ (advance text 0 s) full)
    ]

empty_room : (o : ℕ) → leb 0 o ≡ true
empty_room o = ground arith

-- Nothing is written or read.
pub nothing-Emits : Emits printed (λ input. []) 0 0
nothing-Emits s h few =
    ap printed (
      State-eq (sym (append-nil s.written)) (less_nothing s.output_bytes) refl
        (less_nothing s.input_bytes))
    ∙ sym (if_true _ (advance [] 0 s) (empty_room s.output_bytes))

abbrev pub separator : Bool → List ℕ
separator true = []
separator false = b',' ∷ b' ' ∷ []

pub separate-Emits : (first : Bool) → Emits (separate first) (λ input. separator first) 0 0
unfolding separate
separate-Emits true = nothing-Emits
separate-Emits false = put-Emits (b',' ∷ b' ' ∷ [])

take_front : (xs ys : List ℕ) → take (length xs) (xs ++ ys) ≡ xs
take_front [] ys = refl
take_front (x ∷ xs) ys = ap (λ zs. x ∷ zs) (take_front xs ys)

kept_front :
    (xs ys : List ℕ) (o : ℕ)
    → length xs + length ys ≤ o
    → take (o - (o - length (xs ++ ys) + length ys)) (xs ++ ys) ≡ xs
kept_front xs ys o h =
    ap (λ n. take n (xs ++ ys)) (omega (arith, h, length-append xs ys)) ∙ take_front xs ys

rest_bytes :
    (xs ys : List ℕ) (o : ℕ)
    → length xs + length ys ≤ o
    → o - length (xs ++ ys) + length ys ≡ o - length xs
rest_bytes xs ys o h = omega (arith, h, length-append xs ys)

leb_le : (a b : ℕ) → leb a b ≡ true → a ≤ b
leb_le a b h = ground arith

read_bytes : (size n : ℕ) → size ≤ n → n - (n - size) ≡ size
read_bytes size n h = omega arith

-- A call, without the '\0' that it puts on.
pub nested-Roomy :
    (printer : Printer) (text : List ℕ → List ℕ) (zeros : List ℕ) (size spare : ℕ)
    → Roomy printer (λ input. text input ++ zeros) size spare
    → Emits (nested (length zeros) printer) text size (length zeros + spare)
unfolding nested resume
nested-Roomy printer text zeros size spare e s h few =
    let chars = text s.input in
    let o : Output = record {
      chars = chars ++ zeros;
      output_bytes = s.output_bytes - length (chars ++ zeros);
      input_bytes = s.input_bytes - size;
    } in
    let tested =
      e s.output_bytes s.input s.input_bytes h few
      ∙ ap (λ l. if_room (leb l s.output_bytes) o) (needed chars zeros spare) in
    elim (Bool-cases (has_room chars (length zeros + spare) s)) [
      | inl room ↦
          let fit = leb_le (length chars + (length zeros + spare)) s.output_bytes room in
          let le : length chars + length zeros ≤ s.output_bytes = omega (arith, fit) in
          ap (λ r. r >>= λ p. printed (resume (length zeros) s p)) (tested ∙ if_true _ o room)
          ∙ ap printed (
              State-eq (ap (λ t. s.written ++ t) (kept_front chars zeros s.output_bytes le))
                (rest_bytes chars zeros s.output_bytes le)
                (ap (λ n. drop n s.input) (read_bytes size s.input_bytes h)) refl)
          ∙ sym (if_true _ (advance chars size s) room)
      | inr full ↦
          ap (λ r. r >>= λ p. printed (resume (length zeros) s p)) (tested ∙ if_false _ o full)
          ∙ sym (if_false _ (advance chars size s) full)
    ]
  where
    needed : (t z : List ℕ) (k : ℕ) → length (t ++ z) + k ≡ length t + (length z + k)
    needed t z k = omega (arith, length-append t z)

pub nested-Emits :
    (printer : Printer) (text : List ℕ → List ℕ) (size : ℕ)
    → Exact printer (λ input. text input ++ (0 ∷ [])) size
    → Emits (nested 1 printer) text size 1
nested-Emits printer text size e = nested-Roomy printer text (0 ∷ []) size 0 λ o input i h few.
    e o input i h few
    ∙ ap
        (λ l. if_room (leb l o) (record {
          chars = text input ++ (0 ∷ []);
          output_bytes = o - length (text input ++ (0 ∷ []));
          input_bytes = i - size;
        }))
        (less_slack (length (text input ++ (0 ∷ []))))
  where
    less_slack : (n : ℕ) → n ≡ n + 0
    less_slack n = omega arith

skip_bytes : (n b : ℕ) → n ≤ b → b < 2 ^ 64 → (b + 2 ^ 64 - n) % 2 ^ 64 ≡ b - n
skip_bytes n b h few = omega arith

-- The start of PrintMessage, if the input has the bytes.
pub skip-Emits : (n : ℕ) → Emits (λ s. printed (skip n s)) (λ input. []) n 0
unfolding skip
skip-Emits n s h few =
    ap printed (
      State-eq (sym (append-nil s.written)) (less_nothing s.output_bytes) refl
        (skip_bytes n s.input_bytes h few))
    ∙ sym (if_true _ (advance [] n s) (empty_room s.output_bytes))
