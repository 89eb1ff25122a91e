-- ===== src/Blob/Spans.antt =====
-- The spans that `do_threshold` makes of a row: their order, and the gaps between them.
use mathlib.Core.List.{foldl}
use miranda_dashboard.Base.{
  ℕ, ◌+◌, ◌≡◌, ◌∙◌, Bool, true, false, List, [], ◌∷◌, ◌++◌, length, arith, ◌⊎◌, inl, inr,
  Bool-cases,
}
use miranda_dashboard.Base.Int.{ℤ, pos, ◌+ℤ◌, ◌≤ℤ◌, parts_of_eq, +ℤ_parts}
use miranda_dashboard.Blob.{ImageRange}
use miranda_dashboard.Blob.Covering.{x-foldl}
use miranda_dashboard.Blob.Threshold.{Scan, start_scan, scan_px, threshold_row}

-- Spans in order, each with a pixel, each at least one pixel after the one before it, and the
-- first at `lo` or later.
abbrev pub SpansFrom : ℤ → List ImageRange → Type 0
SpansFrom lo [] = Unit {0}
SpansFrom lo (r ∷ rngs) = (lo ≤ℤ r.st) × (r.st +ℤ pos 1 ≤ℤ r.ed) × SpansFrom (r.ed +ℤ pos 1) rngs

-- Where a span after these may start.
abbrev pub next_start : ℤ → List ImageRange → ℤ
next_start lo [] = lo
next_start lo (r ∷ rngs) = next_start (r.ed +ℤ pos 1) rngs

SpansFrom-append :
    (lo : ℤ) (rngs : List ImageRange) (r : ImageRange)
    → SpansFrom lo rngs
    → next_start lo rngs ≤ℤ r.st
    → r.st +ℤ pos 1 ≤ℤ r.ed
    → SpansFrom lo (rngs ++ (r ∷ []))
SpansFrom-append lo [] r h p q = (p, q, tt)
SpansFrom-append lo (y ∷ rngs) r h p q = (h.0, h.1, SpansFrom-append (y.ed +ℤ pos 1) rngs r h.2 p q)

next_start-append :
    (lo : ℤ) (rngs : List ImageRange) (r : ImageRange)
    → next_start lo (rngs ++ (r ∷ [])) ≡ r.ed +ℤ pos 1
next_start-append lo [] r = λ _. r.ed +ℤ pos 1
next_start-append lo (y ∷ rngs) r = next_start-append (y.ed +ℤ pos 1) rngs r

-- What a scan has written, and the span that it has open, are in order.
record InOrder (s : Scan) : Type 0 where
  spans : SpansFrom (pos 0) s.rngs
  closed : s.p_score ≡ false → next_start (pos 0) s.rngs ≤ℤ pos s.x
  opened : s.p_score ≡ true → next_start (pos 0) s.rngs ≤ℤ s.pstart
  begun : s.p_score ≡ true → s.pstart +ℤ pos 1 ≤ℤ pos s.x

start_scan-InOrder : InOrder start_scan
start_scan-InOrder = record { spans = tt; closed = omega arith; opened = λ e. cc; begun = λ e. cc }

closed_row :
    (s : Scan)
    → InOrder s
    → (s.p_score ≡ false)
      ⊎ (SpansFrom (pos 0) (s.rngs ++ (record { st = s.pstart; ed = pos s.x } ∷ []))
          × (next_start (pos 0) (s.rngs ++ (record { st = s.pstart; ed = pos s.x } ∷ []))
              ≤ℤ pos (s.x + 1))
          × (s.p_score ≡ true))
closed_row s h = elim (Bool-cases s.p_score) [
  | inl p ↦ inr (
    SpansFrom-append (pos 0) s.rngs _ h.spans (h.opened p) (h.begun p),
    omega (
      arith,
      parts_of_eq _ _ (next_start-append (pos 0) s.rngs (record { st = s.pstart; ed = pos s.x })),
      +ℤ_parts (pos s.x) (pos 1),
    ),
    p,
  )
  | inr p ↦ inl p
]

module _ {A : Type 0} (fn : A → Bool) where
  spans-scan_px : (s : Scan) (px : A) → InOrder s → SpansFrom (pos 0) (scan_px fn s px).rngs
  unfolding scan_px
  spans-scan_px s px h = elim (Bool-cases (fn px)) [
    | inl e ↦ elim (Bool-cases s.p_score) [ inl p ↦ rw (e, p) h.spans | inr p ↦ rw (e, p) h.spans ]
    | inr e ↦ elim (Bool-cases s.p_score) [
      | inl p ↦ rw (e, p) (SpansFrom-append (pos 0) s.rngs _ h.spans (h.opened p) (h.begun p))
      | inr p ↦ rw (e, p) h.spans
    ]
  ]

  scan_px-InOrder : (s : Scan) (px : A) → InOrder s → InOrder (scan_px fn s px)
  unfolding scan_px
  scan_px-InOrder s px h = record {
    spans = spans-scan_px s px h;
    closed = ground (
      arith,
      h.closed,
      h.opened,
      h.begun,
      next_start-append (pos 0) s.rngs (record { st = s.pstart; ed = pos s.x }),
      +ℤ_parts (pos s.x) (pos 1),
    );
    opened = ground (arith, h.closed, h.opened);
    begun = ground (arith, h.begun, +ℤ_parts s.pstart (pos 1), +ℤ_parts (pos s.x) (pos 1));
  }

  foldl-InOrder : (s : Scan) (row : List A) → InOrder s → InOrder (foldl (scan_px fn) s row)
  foldl-InOrder s [] h = h
  foldl-InOrder s (px ∷ row) h = foldl-InOrder (scan_px fn s px) row (scan_px-InOrder s px h)

  -- The spans that a row is made into are in order, none empty, with a pixel at least between two,
  -- and all within the row.
  pub threshold_row-SpansFrom :
      (w : ℕ) (row : List A)
      → length row ≡ w
      → SpansFrom (pos 0) (threshold_row fn w row)
        × (next_start (pos 0) (threshold_row fn w row) ≤ℤ pos (w + 1))
  unfolding threshold_row
  threshold_row-SpansFrom w row e =
      let s = foldl (scan_px fn) start_scan row in
      let h = foldl-InOrder start_scan row start_scan-InOrder in
      let at : s.x ≡ w = x-foldl fn start_scan row ∙ omega arith in
      elim (closed_row s h) [
        | inl p ↦ rw p (h.spans, omega (arith, h.closed p))
        | inr (spans, next, p) ↦ rw (p, ← at) (spans, next)
      ]
