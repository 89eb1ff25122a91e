-- ===== src/Printing/Loops.antt =====
-- aos/common/queue_types.cc: the loops over elements and fields, as texts.
use miranda_dashboard.Base.{
  ℕ, zero, suc, ◌+◌, ◌*◌, ◌≤◌, ◌≡◌, refl, ap, ◌∙◌, arith, Bool, false, Option, List, [], ◌∷◌, ◌++◌,
  length, drop, append_assoc, length-append,
}
use miranda_dashboard.MessageType.{Field, MessageType}
use miranda_dashboard.Printing.{Printed, ◌>>=◌, State, separate, FieldPrinter, print_elements}
use miranda_dashboard.Printing.Emits.{Emits, Emits-then, Emits-same}
use miranda_dashboard.Printing.Parts.{put-Emits, separate-Emits, separator}
use miranda_dashboard.Printing.Texts.{
  elements_text, field_value_text, field_value_size, fields_text,
}

elements_end :
    (text : List ℕ → List ℕ) (size n : ℕ) (first : Bool) (input : List ℕ)
    → 1 ≤ length (elements_text text size n first input)
elements_end text size zero first input = omega arith
elements_end text size (suc n) first input = omega (
  arith,
  length-append (separator first) (text input ++ elements_text text size n false (drop size input)),
  length-append (text input) (elements_text text size n false (drop size input)),
  elements_end text size n false (drop size input),
)

pub last_two : (xs : List ℕ) → 1 ≤ length xs → 2 ≤ length (xs ++ (0 ∷ [])) + 0
last_two xs h = omega (arith, h, length-append xs (0 ∷ []))

pub le_two : (a b : ℕ) → a ≤ 2 → 2 ≤ b → a ≤ b
le_two a b h h' = omega (arith, h, h')

regroup : (a b c d : List ℕ) → a ++ b ++ (c ++ d) ≡ a ++ (b ++ c) ++ d
regroup a b c d = simp append_assoc

elements_close :
    (text : List ℕ → List ℕ) (size n : ℕ) (first : Bool) (input : List ℕ)
    → separator first
        ++ text input
        ++ (elements_text text size n false (drop (0 + size) input) ++ (0 ∷ []))
      ≡ elements_text text size (suc n) first input ++ (0 ∷ [])
elements_close text size n first input =
    ap
      (λ k.
        separator first
        ++ text input
        ++ (elements_text text size n false (drop k input) ++ (0 ∷ [])))
      (omega arith)
    ∙ regroup (separator first) (text input) (elements_text text size n false (drop size input))
        (0 ∷ [])

-- A value that needs room for no more than a '\\0', so many times.
pub print_elements-Emits :
    (field : FieldPrinter) (get : ℕ → Option MessageType) (value : State → Printed State)
    (text : List ℕ → List ℕ) (size slack n : ℕ) (first : Bool)
    → slack ≤ 2
    → Emits value text size slack
    → Emits
        (print_elements field get value n first)
        (λ input. elements_text text size n first input ++ (0 ∷ []))
        (n * size)
        0
unfolding print_elements
print_elements-Emits field get value text size slack zero first h e =
    Emits-same _ (λ input. b']' ∷ 0 ∷ []) _ 0 (0 * size) 0 (λ input. refl) (omega arith)
      (put-Emits (b']' ∷ 0 ∷ []))
print_elements-Emits field get value text size slack (suc n) first h e =
    Emits-same _ _ _ _ (suc n * size) 0 (λ input. elements_close text size n first input)
      (omega arith)
      (Emits-then (λ s. separate first s >>= value) (print_elements field get value n false) _ _ _ _
        slack 0
        (Emits-then (separate first) value _ text 0 size 0 slack (separate-Emits first) e
          (λ input. omega arith))
        (print_elements-Emits field get value text size slack n false h e)
        (λ input. le_two slack _ h (last_two _ (elements_end text size n false input))))

regroup_named :
    (a b c d e : List ℕ) (x : ℕ)
    → a ++ (b ++ (x ∷ [])) ++ c ++ (d ++ e) ≡ (a ++ (b ++ (x ∷ (c ++ d)))) ++ e
regroup_named a b c d e x = simp append_assoc

module _ (field : FieldPrinter) (get : ℕ → Option MessageType)
    (text : MessageType → List ℕ → List ℕ) (size : MessageType → ℕ) where
  pub fields_end :
      (fs : List Field) (first : Bool) (input : List ℕ)
      → 1 ≤ length (fields_text field get text size fs first input)
  fields_end [] first input = omega arith
  fields_end (f ∷ fs) first input =
      let rest =
        field_value_text field get text size f input
        ++ fields_text field get text size fs false
            (drop (field_value_size field get size f) input) in
      omega (
        arith,
        length-append (separator first) (f.field_name ++ (b':' ∷ rest)),
        length-append f.field_name (b':' ∷ rest),
      )

  pub fields_close :
      (f : Field) (fs : List Field) (first : Bool) (input : List ℕ)
      → separator first
          ++ (f.field_name ++ (b':' ∷ []))
          ++ field_value_text field get text size f input
          ++ (fields_text field get text size fs false
                (drop (0 + 0 + field_value_size field get size f) input)
              ++ (0 ∷ []))
        ≡ fields_text field get text size (f ∷ fs) first input ++ (0 ∷ [])
  fields_close f fs first input =
      let n = field_value_size field get size f in
      let value = field_value_text field get text size f input in
      ap
        (λ k.
          separator first
          ++ (f.field_name ++ (b':' ∷ []))
          ++ value
          ++ (fields_text field get text size fs false (drop k input) ++ (0 ∷ [])))
        (omega arith)
      ∙ regroup_named (separator first) f.field_name value
          (fields_text field get text size fs false (drop n input)) (0 ∷ []) b':'
