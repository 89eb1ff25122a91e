-- ===== src/FindBlob/Tests.antt =====
-- Two columns that meet in the third row, and a span apart.
use miranda_dashboard.Base.{ℕ, ◌≡◌, ◌+◌, List, refl, some, [], ◌∷◌}
use miranda_dashboard.Base.Int.{pos, negsuc, ◌-ℤ◌}
use miranda_dashboard.Blob.{ImageRange, RangeImage}
use miranda_dashboard.FindBlob.Weights.{Weight, rows_weight}
use miranda_dashboard.FindBlob.Conserved.{blobs_weight, find_blobs-weight}
use miranda_dashboard.FindBlob.{
  find_blobs, first_row, start_blob, add_blob, add_to_item, add, find_rows, find_row, sweep_row,
  step_row, join, add_to_blob, find_in, find, close_span, finish_row, merge_in_blob, get_blobs,
  link, merge, merge_row, merge_rows,
}

abbrev span : ℕ → ℕ → ImageRange
span st ed = record { st = pos st; ed = pos ed }

abbrev columns : RangeImage
columns = record {
  npixelsc = negsuc 0;
  mini = pos 0;
  ranges =
      (span 0 2 ∷ span 5 7 ∷ []) ∷ (span 0 2 ∷ span 5 7 ∷ span 9 10 ∷ []) ∷ (span 0 7 ∷ []) ∷ [];
}

-- The two columns are one blob, and the span apart is another.
two_blobs :
    find_blobs columns
    ≡ some (
        (record {
          npixelsc = negsuc 0;
          mini = pos 0;
          ranges = (span 0 2 ∷ span 5 7 ∷ []) ∷ (span 0 2 ∷ span 5 7 ∷ []) ∷ (span 0 7 ∷ []) ∷ [];
        })
        ∷ (record { npixelsc = negsuc 0; mini = pos 1; ranges = (span 9 10 ∷ []) ∷ [] })
        ∷ [])
unfolding find_blobs first_row start_blob add_blob add_to_item add find_rows find_row sweep_row
    step_row ◌-ℤ◌ join add_to_blob find_in find close_span finish_row merge_in_blob get_blobs link
    merge merge_row merge_rows
two_blobs = refl

abbrev row_count : Weight
row_count i rng = i + 1

find_blobs-weight_example :
    (blobs : List RangeImage) × (find_blobs columns ≡ some blobs)
    × (blobs_weight row_count blobs ≡ rows_weight row_count 0 columns.ranges)
find_blobs-weight_example =
    find_blobs-weight row_count (span 0 2 ∷ span 5 7 ∷ [])
      ((span 0 2 ∷ span 5 7 ∷ span 9 10 ∷ []) ∷ (span 0 7 ∷ []) ∷ []) columns refl
