-- ===== src/BinaryLog/Described.antt =====
-- A log in which every structure, and every type, stands after the types that it needs.
use miranda_dashboard.Base.{
  ℕ, ◌≡◌, ◌⊎◌, inl, inr, refl, sym, ap, subst, ◌∙◌, List, [], ◌∷◌, ◌++◌, append_assoc, append-nil,
  Bool, true, false, some, length,
}
use miranda_dashboard.Base.Bytes.{le32}
use miranda_dashboard.MessageType.{MessageType, Field, is_primitive, serialize}
use miranda_dashboard.LogFile.{
  LogFileMessageHeader, LogFileMessageType, k_string, k_struct_type, k_struct, k_matrix,
}

abbrev pub AllFields : (ℕ → Type 0) → List Field → Type 0
AllFields P [] = Unit {0}
AllFields P (f ∷ fs) = P f.field_type × AllFields P fs

pub AllFields-map :
    (P Q : ℕ → Type 0) → ((t : ℕ) → P t → Q t) → (fs : List Field) → AllFields P fs → AllFields Q fs
AllFields-map P Q step [] h = tt
AllFields-map P Q step (f ∷ fs) h = (step f.field_type h.0, AllFields-map P Q step fs h.1)

abbrev pub is_type : LogFileMessageType → Bool
is_type k_struct_type = true
is_type _ = false

-- The messages of a log, without the types.
abbrev pub keep_message :
    Bool → LogFileMessageHeader → List LogFileMessageHeader → List LogFileMessageHeader
keep_message true h hs = hs
keep_message false h hs = h ∷ hs

abbrev pub messages : List LogFileMessageHeader → List LogFileMessageHeader
messages [] = []
messages (h ∷ hs) = keep_message (is_type h.type) h (messages hs)

keep_message-append :
    (b : Bool) (h : LogFileMessageHeader) (xs ys : List LogFileMessageHeader)
    → keep_message b h (xs ++ ys) ≡ keep_message b h xs ++ ys
keep_message-append true h xs ys = refl
keep_message-append false h xs ys = refl

pub messages-append :
    (xs ys : List LogFileMessageHeader) → messages (xs ++ ys) ≡ messages xs ++ messages ys
messages-append [] ys = refl
messages-append (x ∷ xs) ys =
    ap (keep_message (is_type x.type) x) (messages-append xs ys)
    ∙ keep_message-append (is_type x.type) x (messages xs) (messages ys)

module _ (get : ℕ → MessageType) (gap : ℕ → List ℕ) where
  abbrev pub IsTypeOf : LogFileMessageHeader → ℕ → Type 0
  IsTypeOf h id = (h.type ≡ k_struct_type) × (serialize gap (get id) 1024 ≡ some h.bytes)

  abbrev pub Has : List LogFileMessageHeader → ℕ → Type 0
  Has [] id = ⊥
  Has (h ∷ hs) id = IsTypeOf h id ⊎ Has hs id

  -- A reader that has seen this much of the log can print a value of the type.
  abbrev pub Known : List LogFileMessageHeader → ℕ → Type 0
  Known log id = (is_primitive id ≡ true) ⊎ Has log id

  -- A structure starts, after its name, with the id of its type.
  pub data Explained (log : List LogFileMessageHeader) (h : LogFileMessageHeader) : Type 0 where
    plain : h.type ≡ k_string → Explained log h
    grid : h.type ≡ k_matrix → Explained log h
    structured :
        (id : ℕ) (name rest : List ℕ)
        → h.type ≡ k_struct
        → h.bytes ≡ name ++ (le32 id ++ rest)
        → length name ≡ h.name_size
        → Known log id
        → Explained log h
    defined : (id : ℕ) → IsTypeOf h id → AllFields (Known log) (get id).fields → Explained log h

  abbrev pub Described : List LogFileMessageHeader → List LogFileMessageHeader → Type 0
  Described seen [] = Unit {0}
  Described seen (h ∷ hs) = Explained seen h × Described (seen ++ h ∷ []) hs

  pub Described-snoc :
      (seen hs : List LogFileMessageHeader) (h : LogFileMessageHeader)
      → Described seen hs
      → Explained (seen ++ hs) h
      → Described seen (hs ++ h ∷ [])
  Described-snoc seen [] h d e = (subst (λ l. Explained l h) (append-nil seen) e, tt)
  Described-snoc seen (x ∷ hs) h d e = (
    d.0,
    Described-snoc (seen ++ x ∷ []) hs h d.1
        (subst (λ l. Explained l h) (sym (append_assoc seen (x ∷ []) hs)) e),
  )

  pub Has-append :
      (log more : List LogFileMessageHeader) (id : ℕ) → Has log id → Has (log ++ more) id
  Has-append [] more id h = absurd h
  Has-append (x ∷ log) more id (inl e) = inl e
  Has-append (x ∷ log) more id (inr h) = inr (Has-append log more id h)

  pub Known-append :
      (log more : List LogFileMessageHeader) (id : ℕ) → Known log id → Known (log ++ more) id
  Known-append log more id (inl p) = inl p
  Known-append log more id (inr h) = inr (Has-append log more id h)

  pub Has-last :
      (log : List LogFileMessageHeader) (h : LogFileMessageHeader) (id : ℕ)
      → IsTypeOf h id
      → Has (log ++ h ∷ []) id
  Has-last [] h id e = inl e
  Has-last (x ∷ log) h id e = inr (Has-last log h id e)
