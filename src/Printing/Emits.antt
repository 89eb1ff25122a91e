-- ===== src/Printing/Emits.antt =====
-- aos/common/queue_types.cc: what a part of a printer writes and reads, when that fits, and how parts follow one another.
use miranda_dashboard.Base.{
  ℕ, zero, suc, ◌+◌, ◌-◌, ◌^◌, ◌≤◌, ◌<◌, ◌≡◌, refl, sym, ap, ap₂, ◌∙◌, arith, Bool, true, false,
  Bool-cases, leb, if◌then◌else◌, List, [], ◌∷◌, ◌++◌, length, drop, append_assoc, length-append,
  inl, inr,
}
use miranda_dashboard.Printing.{
  Printed, not_printed, printed, ◌>>=◌, Output, Printer, State, start, finish,
}

abbrev pub advance : List ℕ → ℕ → State → State
advance text size s = record {
  written = s.written ++ text;
  output_bytes = s.output_bytes - length text;
  input = drop size s.input;
  input_bytes = s.input_bytes - size;
}

-- It writes the text and reads so many bytes, if there is room for the text and `slack` more
-- characters; else it prints nothing.
abbrev pub fits : ℕ → List ℕ → ℕ → State → Printed State
fits slack text size s =
    if leb (length text + slack) s.output_bytes then printed (advance text size s) else not_printed

-- The text depends on the input. The input has the bytes, which are counted in 64 bits.
abbrev pub Emits : (State → Printed State) → (List ℕ → List ℕ) → ℕ → ℕ → Type 0
Emits part text size slack =
    (s : State)
    → size ≤ s.input_bytes
    → s.input_bytes < 2 ^ 64
    → part s ≡ fits slack (text s.input) size s

-- The same of a whole printer: `chars` are all the characters, the last '\\0' with them.
abbrev pub Exact : Printer → (List ℕ → List ℕ) → ℕ → Type 0
Exact printer chars size =
    (output_bytes : ℕ) (input : List ℕ) (input_bytes : ℕ)
    → size ≤ input_bytes
    → input_bytes < 2 ^ 64
    → printer output_bytes input input_bytes ≡ (
        if leb (length (chars input)) output_bytes
        then printed (record {
          chars = chars input;
          output_bytes = output_bytes - length (chars input);
          input_bytes = input_bytes - size;
        })
        else not_printed)

-- The same of a printer that needs room for `spare` more characters.
abbrev pub Roomy : Printer → (List ℕ → List ℕ) → ℕ → ℕ → Type 0
Roomy printer chars size spare =
    (output_bytes : ℕ) (input : List ℕ) (input_bytes : ℕ)
    → size ≤ input_bytes
    → input_bytes < 2 ^ 64
    → printer output_bytes input input_bytes ≡ (
        if leb (length (chars input) + spare) output_bytes
        then printed (record {
          chars = chars input;
          output_bytes = output_bytes - length (chars input);
          input_bytes = input_bytes - size;
        })
        else not_printed)

drop_nil : (n : ℕ) → drop {A = ℕ} n [] ≡ []
drop_nil zero = refl
drop_nil (suc n) = refl

pub drop-drop : (m n : ℕ) (xs : List ℕ) → drop n (drop m xs) ≡ drop (m + n) xs
drop-drop zero n xs = ap (λ k. drop k xs) (omega arith)
drop-drop (suc m) n [] = drop_nil n ∙ sym (drop_nil (suc m + n))
drop-drop (suc m) n (x ∷ xs) = drop-drop m n xs ∙ sym (ap (λ k. drop k (x ∷ xs)) (suc_sum m n))
  where
    suc_sum : (m n : ℕ) → suc m + n ≡ suc (m + n)
    suc_sum m n = omega arith

pub State-eq :
    {a a' c c' : List ℕ} {b b' d d' : ℕ}
    → a ≡ a'
    → b ≡ b'
    → c ≡ c'
    → d ≡ d'
    → ◌≡◌ {A = State}
        (record { written = a; output_bytes = b; input = c; input_bytes = d })
        (record { written = a'; output_bytes = b'; input = c'; input_bytes = d' })
State-eq p q r s = λ i. record { written = p i; output_bytes = q i; input = r i; input_bytes = s i }

advance-advance :
    (t u : List ℕ) (m n : ℕ) (s : State) → advance u n (advance t m s) ≡ advance (t ++ u) (m + n) s
advance-advance t u m n s =
    State-eq (append_assoc s.written t u) (omega (arith, length-append t u)) (drop-drop m n s.input)
      (omega arith)

fits-advance :
    (k : ℕ) (t u : List ℕ) (m n : ℕ) (s : State)
    → length t ≤ s.output_bytes
    → fits k u n (advance t m s) ≡ fits k (t ++ u) (m + n) s
fits-advance k t u m n s h =
    ap₂ (λ b p. if b then printed p else not_printed)
      (same_room (length t) (length u + k) s.output_bytes h
        ∙ ap (λ l. leb l s.output_bytes) (total k t u))
      (advance-advance t u m n s)
  where
    same_room : (a b o : ℕ) → a ≤ o → leb b (o - a) ≡ leb (a + b) o
    same_room a b o h = ground arith

    total : (k : ℕ) (t u : List ℕ) → length t + (length u + k) ≡ length (t ++ u) + k
    total k t u = omega (arith, length-append t u)

pub room_le : (a j o : ℕ) → leb (a + j) o ≡ true → a ≤ o
room_le a j o h = ground arith

no_room : (a b j k o : ℕ) → leb (a + j) o ≡ false → j ≤ b + k → leb (a + b + k) o ≡ false
no_room a b j k o h le = ground arith

-- A value that is printed if there is room.
abbrev pub if_room {ℓ} : {A : Type ℓ} → Bool → A → Printed A
if_room room a = if room then printed a else not_printed

pub if_true {ℓ} : {A : Type ℓ} (b : Bool) (a : A) → b ≡ true → if_room b a ≡ printed a
if_true b a h = ap (λ c. if_room c a) h

pub if_false {ℓ} : {A : Type ℓ} (b : Bool) (a : A) → b ≡ false → if_room b a ≡ not_printed
if_false b a h = ap (λ c. if_room c a) h

abbrev pub has_room : List ℕ → ℕ → State → Bool
has_room text slack s = leb (length text + slack) s.output_bytes

-- One part after another, that writes at least as much as the first one needs room for.
pub Emits-then :
    (f g : State → Printed State) (t u : List ℕ → List ℕ) (m n j k : ℕ)
    → Emits f t m j
    → Emits g u n k
    → ((input : List ℕ) → j ≤ length (u input) + k)
    → Emits (λ s. f s >>= g) (λ input. t input ++ u (drop m input)) (m + n) k
Emits-then f g t u m n j k e e' le s h few =
    let text = t s.input in
    let rest = u (drop m s.input) in
    elim (Bool-cases (has_room text j s)) [
      | inl room ↦
          ap (λ r. r >>= g) (e s (omega (arith, h)) few ∙ if_true _ (advance text m s) room)
          ∙ e' (advance text m s) (omega (arith, h)) (omega (arith, few))
          ∙ fits-advance k text rest m n s (room_le (length text) j s.output_bytes room)
      | inr full ↦
          ap (λ r. r >>= g) (e s (omega (arith, h)) few ∙ if_false _ (advance text m s) full)
          ∙ sym (
              if_false _ (advance (text ++ rest) (m + n) s) (
                ap (λ l. leb (l + k) s.output_bytes) (length-append text rest)
                ∙ no_room (length text) (length rest) j k s.output_bytes full
                    (le (drop m s.input))))
    ]

-- The text and the size in another form.
pub Emits-same :
    (f : State → Printed State) (t u : List ℕ → List ℕ) (m n k : ℕ)
    → ((input : List ℕ) → t input ≡ u input)
    → m ≡ n
    → Emits f t m k
    → Emits f u n k
Emits-same f t u m n k same size e s h few =
    e s (omega (arith, size, h)) few ∙ ap₂ (λ x y. fits k x y s) (same s.input) size

abbrev output_of : State → Output
output_of s = record {
  chars = s.written;
  output_bytes = s.output_bytes;
  input_bytes = s.input_bytes;
}

-- A whole printer, from what its parts do.
pub Exact-finish :
    (f : State → Printed State) (chars : List ℕ → List ℕ) (size : ℕ)
    → Emits f chars size 0
    → Exact
        (λ output_bytes input input_bytes. f (start output_bytes input input_bytes) >>= finish)
        chars
        size
Exact-finish f chars size e output_bytes input input_bytes h few =
    ap (λ r. r >>= finish) (e (start output_bytes input input_bytes) h few)
    ∙ finish_if _ _
    ∙ ap
        (λ l.
          if_room (leb l output_bytes)
            (output_of (advance (chars input) size (start output_bytes input input_bytes))))
        (no_slack (length (chars input)))
  where
    finish_if : (b : Bool) (s : State) → (if_room b s >>= finish) ≡ if_room b (output_of s)
    finish_if true s = refl
    finish_if false s = refl

    no_slack : (n : ℕ) → n + 0 ≡ n
    no_slack n = omega arith

-- The text with a '\0' after it, if there is room.
abbrev pub printed_text : ℕ → List ℕ → ℕ → ℕ → Printed Output
printed_text output_bytes text input_bytes size =
    if leb (length (text ++ (0 ∷ []))) output_bytes
    then printed (record {
      chars = text ++ (0 ∷ []);
      output_bytes = output_bytes - length (text ++ (0 ∷ []));
      input_bytes = input_bytes - size;
    })
    else not_printed
