-- ===== src/FindBlob/Weights.antt =====
-- Sums over the spans of a blob, each weighted by its row and itself: what `add` and `merge` do to
-- them. With a weight of 1 for one span in one row, and 0 for the others, a sum counts that span.
use native.Mathlib.Nat.{add_assoc}
use miranda_dashboard.Base.{
  ℕ, zero, suc, ◌+◌, ◌-◌, ◌≤◌, ◌<◌, ◌≡◌, refl, ap, ◌∙◌, some, List, [], ◌∷◌, ◌++◌, length,
  length-append, length-replicate, get_or, set, replicate, arith,
}
use miranda_dashboard.Blob.{ImageRange}
use miranda_dashboard.FindBlob.{BlobBuilder, grown, with_ranges, add, merge_row, merge_rows, merge}

abbrev pub Weight : Type 0
Weight = ℕ → ImageRange → ℕ

module _ (f : Weight) where
  abbrev pub row_weight : ℕ → List ImageRange → ℕ
  row_weight i [] = 0
  row_weight i (r ∷ row) = f i r + row_weight i row

  -- The rows of an image from row `i` on.
  abbrev pub rows_weight : ℕ → List (List ImageRange) → ℕ
  rows_weight i [] = 0
  rows_weight i (row ∷ rows) = row_weight i row + rows_weight (i + 1) rows

  row_weight-append :
      (i : ℕ) (xs ys : List ImageRange)
      → row_weight i (xs ++ ys) ≡ row_weight i xs + row_weight i ys
  row_weight-append i [] ys = omega arith
  row_weight-append i (x ∷ xs) ys = omega (arith, row_weight-append i xs ys)

  rows_weight-append :
      (i : ℕ) (xs ys : List (List ImageRange))
      → rows_weight i (xs ++ ys) ≡ rows_weight i xs + rows_weight (i + length xs) ys
  rows_weight-append i [] ys = ground arith
  rows_weight-append i (x ∷ xs) ys = ground (arith, rows_weight-append (i + 1) xs ys)

  rows_weight-replicate : (i n : ℕ) → rows_weight i (replicate n []) ≡ 0
  rows_weight-replicate i zero = refl
  rows_weight-replicate i (suc n) = omega (arith, rows_weight-replicate (i + 1) n)

  rows_weight-grown :
      (i n : ℕ) (rows : List (List ImageRange)) → rows_weight i (grown n rows) ≡ rows_weight i rows
  rows_weight-grown i n rows = omega (
    arith,
    rows_weight-append i rows (replicate (n + 1 - length rows) []),
    rows_weight-replicate (i + length rows) (n + 1 - length rows),
  )

  length-grown : (n : ℕ) (rows : List (List ImageRange)) → n < length (grown n rows)
  length-grown n rows = omega (
    arith,
    length-append rows (replicate (n + 1 - length rows) []),
    length-replicate {A = List ImageRange} (n + 1 - length rows) [],
  )

  -- A row put in the place of another.
  rows_weight-set :
      (i n : ℕ) (rows : List (List ImageRange)) (row : List ImageRange)
      → n < length rows
      → rows_weight i (set rows n row) + row_weight (i + n) (get_or rows n [])
        ≡ rows_weight i rows + row_weight (i + n) row
  rows_weight-set i n [] row h = elim h [ ]
  rows_weight-set i zero (x ∷ rows) row h = ground arith
  rows_weight-set i (suc n) (x ∷ rows) row h = ground (arith, rows_weight-set (i + 1) n rows row)

  row_weight-merge_row :
      (i : ℕ) (cur prev : List ImageRange)
      → row_weight i (merge_row cur prev) ≡ row_weight i cur + row_weight i prev
  unfolding merge_row
  row_weight-merge_row i [] prev = omega arith
  row_weight-merge_row i (c ∷ cur) [] = omega arith
  row_weight-merge_row i (c ∷ cur) (p ∷ prev) =
      ground (arith, row_weight-merge_row i cur (p ∷ prev), row_weight-merge_row i (c ∷ cur) prev)

  rows_weight-merge_rows :
      (i n : ℕ) (rows other : List (List ImageRange))
      → rows_weight i (merge_rows n rows other) ≡ rows_weight i rows + rows_weight (i + n) other
  unfolding merge_rows
  rows_weight-merge_rows i n rows [] = omega arith
  rows_weight-merge_rows i n rows (prev ∷ other) =
      let g = grown n rows in
      omega (
        arith,
        rows_weight-merge_rows i (n + 1) (set g n (merge_row (get_or g n []) prev)) other,
        rows_weight-set i n g (merge_row (get_or g n []) prev) (length-grown n rows),
        row_weight-merge_row (i + n) (get_or g n []) prev,
        rows_weight-grown i n rows,
        ap (λ (k : ℕ). rows_weight k other) (add_assoc i n 1),
      )

  -- What a blob weighs, in the rows that its spans stand in.
  abbrev pub builder_weight : BlobBuilder → ℕ
  builder_weight b = rows_weight b.mini b.img.ranges

  added_weight :
      (i n : ℕ) (rows : List (List ImageRange)) (rng : ImageRange)
      → rows_weight i (set (grown n rows) n (get_or (grown n rows) n [] ++ (rng ∷ [])))
        ≡ rows_weight i rows + f (i + n) rng
  added_weight i n rows rng = omega (
    arith,
    rows_weight-set i n (grown n rows) (get_or (grown n rows) n [] ++ (rng ∷ []))
        (length-grown n rows),
    row_weight-append (i + n) (get_or (grown n rows) n []) (rng ∷ []),
    rows_weight-grown i n rows,
  )

  -- A span goes to a row that is not above the blob.
  pub builder_weight-add :
      (b : BlobBuilder) (i : ℕ) (rng : ImageRange)
      → b.mini ≤ i
      → (b' : BlobBuilder) × (add b i rng ≡ some b')
        × (b'.mini ≡ b.mini)
        × (b'.img.mini ≡ b.img.mini)
        × (builder_weight b' ≡ builder_weight b + f i rng)
  unfolding add
  builder_weight-add b i rng h =
      let rows = grown (i - b.mini) b.img.ranges in
      (
        with_ranges b (set rows (i - b.mini) (get_or rows (i - b.mini) [] ++ (rng ∷ []))),
        ground arith,
        refl,
        refl,
        added_weight b.mini (i - b.mini) b.img.ranges rng
            ∙ ap (λ (k : ℕ). rows_weight b.mini b.img.ranges + f k rng) (omega arith),
      )

  -- A blob takes over another that does not start above it.
  pub builder_weight-merge :
      (b o : BlobBuilder)
      → b.mini ≤ o.mini
      → (b' : BlobBuilder) × (merge b o ≡ some b')
        × (b'.mini ≡ b.mini)
        × (b'.img.mini ≡ b.img.mini)
        × (builder_weight b' ≡ builder_weight b + builder_weight o)
  unfolding merge
  builder_weight-merge b o h = (
    with_ranges b (merge_rows (o.mini - b.mini) b.img.ranges o.img.ranges),
    ground arith,
    refl,
    refl,
    rows_weight-merge_rows b.mini (o.mini - b.mini) b.img.ranges o.img.ranges
        ∙ ap (λ (k : ℕ). rows_weight b.mini b.img.ranges + rows_weight k o.img.ranges)
            (omega arith),
  )
