-- ===== src/Printing/Messages.antt =====
-- aos/common/queue_types.cc: PrintMessage and PrintArray, whole.
use miranda_dashboard.Base.{
  ℕ, zero, suc, ◌+◌, ◌*◌, ◌^◌, ◌≤◌, ◌<◌, ◌≡◌, inl, inr, ap, ◌∙◌, arith, true, Option, List, [], ◌∷◌,
  ◌++◌, drop, append_assoc,
}
use miranda_dashboard.MessageType.{Field, MessageType}
use miranda_dashboard.Printing.{
  printed, ◌>>=◌, put, skip, FieldPrinter, print_array, print_fields, print_message,
}
use miranda_dashboard.Printing.Emits.{printed_text, Exact, Emits-then, Emits-same, Exact-finish}
use miranda_dashboard.Printing.Parts.{skip-Emits, put-Emits}
use miranda_dashboard.Printing.Texts.{
  array_text, value_text, value_size, fields_text, all_fields_size, message_size, message_text,
  IsKnown, AreKnown, Nests,
}
use miranda_dashboard.Printing.Exact.{Prints, print_array-Exact, print_fields-Emits}

message_close :
    (name : List ℕ) (rest : ℕ → List ℕ) (n : ℕ)
    → name ++ (b'{' ∷ []) ++ (rest (n + 0) ++ (0 ∷ [])) ≡ name ++ (b'{' ∷ rest n) ++ (0 ∷ [])
message_close name rest n =
    ap (λ k. name ++ (b'{' ∷ []) ++ (rest k ++ (0 ∷ []))) (omega arith)
    ∙ close_up name (rest n) (0 ∷ []) b'{'
  where
    close_up : (a b c : List ℕ) (x : ℕ) → a ++ (x ∷ []) ++ (b ++ c) ≡ a ++ (x ∷ b) ++ c
    close_up a b c x = simp append_assoc

module _ (field : FieldPrinter) (get : ℕ → Option MessageType) where
  AreKnown-map :
      {P Q : MessageType → Type 0}
      → ((t : MessageType) → P t → Q t)
      → (fs : List Field) → AreKnown field get P fs
      → AreKnown field get Q fs
  AreKnown-map f [] h = tt
  AreKnown-map {P = P} {Q = Q} f (x ∷ xs) (inl e, hs) =
      (inl e, AreKnown-map {P = P} {Q = Q} f xs hs)
  AreKnown-map {P = P} {Q = Q} f (x ∷ xs) (inr (e, t, g, h), hs) =
      (inr (e, t, g, f t h), AreKnown-map {P = P} {Q = Q} f xs hs)

  print_message-Exact :
      (levels : ℕ) (t : MessageType)
      → Nests field get levels t
      → Exact
          (print_message field get levels t)
          (λ input. message_text field get levels t input ++ (0 ∷ []))
          (message_size field get levels t)
  unfolding print_message
  print_message-Exact zero t h = absurd h
  print_message-Exact (suc levels) t h =
      let message = print_message field get levels in
      let text = message_text field get levels in
      let size = message_size field get levels in
      let n = t.super_size in
      let fields = print_fields field get message t.fields true in
      let opening = t.name ++ (b'{' ∷ []) in
      let fields_chars =
        λ (input : List ℕ). fields_text field get text size t.fields true input ++ (0 ∷ []) in
      let chars = λ (input : List ℕ). message_text field get (suc levels) t input ++ (0 ∷ []) in
      let known =
        AreKnown-map {P = Nests field get levels} {Q = Prints field get message text size}
          (print_message-Exact levels) t.fields h in
      Exact-finish (λ s. printed (skip n s) >>= put opening >>= fields) chars
        (message_size field get (suc levels) t)
        (Emits-same (λ s. printed (skip n s) >>= put opening >>= fields)
          (λ input. opening ++ fields_chars (drop (n + 0) input)) chars
          (n + 0 + all_fields_size field get size t.fields) (message_size field get (suc levels) t)
          0
          (λ input.
            message_close t.name (λ k. fields_text field get text size t.fields true (drop k input))
              n)
          (omega arith)
          (Emits-then (λ s. printed (skip n s) >>= put opening) fields (λ input. opening)
            fields_chars (n + 0) (all_fields_size field get size t.fields) 0 0
            (Emits-then (λ s. printed (skip n s)) (put opening) (λ input. []) (λ input. opening) n 0
              0 0 (skip-Emits n) (put-Emits opening) (λ input. omega arith))
            (print_fields-Emits field get message text size t.fields true known)
            (λ input. omega arith)))

  -- PrintMessage, with a type that the type cache has with all the types that it is made of, on an
  -- input that has the bytes of the message: if the buffer has room for the text of the message and
  -- a '\0', it writes just these, says how many bytes are left of both, and returns true; else it
  -- returns false.
  pub print_message_lem :
      (levels : ℕ) (t : MessageType) (output_bytes : ℕ) (input : List ℕ) (input_bytes : ℕ)
      → Nests field get levels t
      → message_size field get levels t ≤ input_bytes
      → input_bytes < 2 ^ 64
      → print_message field get levels t output_bytes input input_bytes
        ≡ printed_text output_bytes
            (message_text field get levels t input)
            input_bytes
            (message_size field get levels t)
  print_message_lem levels t output_bytes input input_bytes h =
      print_message-Exact levels t h output_bytes input input_bytes

  -- PrintArray, of so many values of a primitive type or of one that the type cache has with all the
  -- types that it is made of, on an input that has their bytes: if the buffer has room for the text
  -- of the array and a '\0', it writes just these, says how many bytes are left of both, and returns
  -- true; else it returns false.
  pub print_array_lem :
      (levels type_id n output_bytes : ℕ) (input : List ℕ) (input_bytes : ℕ)
      → IsKnown field get (Nests field get levels) type_id
      → n * value_size field get (message_size field get levels) type_id ≤ input_bytes
      → input_bytes < 2 ^ 64
      → print_array field get
          (print_message field get levels)
          type_id
          n
          output_bytes
          input
          input_bytes
        ≡ printed_text output_bytes
            (array_text
              (value_text field get (message_text field get levels) type_id)
              (value_size field get (message_size field get levels) type_id)
              n
              input)
            input_bytes
            (n * value_size field get (message_size field get levels) type_id)
  print_array_lem levels type_id n output_bytes input input_bytes h =
      print_array-Exact field get (print_message field get levels) (message_text field get levels)
        (message_size field get levels) type_id n (known type_id h) output_bytes input input_bytes
    where
      known :
          (type_id : ℕ)
          → IsKnown field get (Nests field get levels) type_id
          → IsKnown field get
              (Prints field get
                (print_message field get levels)
                (message_text field get levels)
                (message_size field get levels))
              type_id
      known type_id (inl e) = inl e
      known type_id (inr (e, t, g, nests)) = inr (e, t, g, print_message-Exact levels t nests)
