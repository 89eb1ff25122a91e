-- ===== src/Blob/Tests.antt =====
-- A blob of three spans, and an image of three by two pixels.
use miranda_dashboard.Base.{ℕ, ◌≡◌, refl, ◌++◌, ◌==◌, List, [], ◌∷◌, some, map, get_or, inl, arith}
use miranda_dashboard.Base.Int.{pos, negsuc, ◌-ℤ◌, ◌≤ℤ◌}
use miranda_dashboard.Blob.{ImageRange, RangeImage, calc_area, row_area, rows_area}
use miranda_dashboard.Blob.Codec.{serialize_blob, parse_blob_list, predict_size}
use miranda_dashboard.Blob.RoundTrip.{parse-serialize_blob, predict_size-serialize_blob, uncached}
use miranda_dashboard.Blob.Threshold.{
  Image, do_threshold, by_row, split_rows, threshold_row, scan_px, get_px, covers,
}
use miranda_dashboard.Blob.Covering.{passes, covers-do_threshold}
use miranda_dashboard.Base.{length}

abbrev span : ℕ → ℕ → ImageRange
span st ed = record { st = pos st; ed = pos ed }

abbrev blob : RangeImage
blob = record {
  npixelsc = negsuc 0;
  mini = pos 3;
  ranges = (span 1 4 ∷ span 6 7 ∷ []) ∷ (span 0 9 ∷ []) ∷ [];
}

area : calc_area blob ≡ pos 13
unfolding calc_area row_area rows_area ◌-ℤ◌ miranda_dashboard.Base.Int.◌+ℤ◌
area = refl

abbrev image : Image ℕ
image = record { w = 3; h = 2; pixels = 0 ∷ 1 ∷ 1 ∷ 1 ∷ 0 ∷ 1 ∷ [] }

thresholded :
    (do_threshold (λ px. px == 1) image).ranges ≡ (span 1 3 ∷ []) ∷ (span 0 1 ∷ span 2 3 ∷ []) ∷ []
unfolding do_threshold by_row split_rows threshold_row scan_px
thresholded = refl

covers-do_threshold_example :
    covers 2 (get_or (do_threshold (λ px. px == 1) image).ranges 1 [])
    ≡ passes (λ px. px == 1) (get_px image 2 1)
covers-do_threshold_example = covers-do_threshold (λ px. px == 1) image 2 1 refl

predict_size-serialize_blob_example :
    predict_size (blob ∷ []) ≡ pos (length (serialize_blob (blob ∷ [])))
unfolding serialize_blob
predict_size-serialize_blob_example = predict_size-serialize_blob (blob ∷ []) (omega arith)

parse-serialize_blob_example :
    parse_blob_list (serialize_blob (blob ∷ []) ++ (7 ∷ []))
    ≡ some (map uncached (blob ∷ []), 7 ∷ [])
parse-serialize_blob_example = parse-serialize_blob (blob ∷ []) (7 ∷ []) (omega arith) (omega arith)
