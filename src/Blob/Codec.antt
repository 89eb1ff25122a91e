-- ===== src/Blob/Codec.antt =====
-- aos/vision/blob/codec.{h,cc}: blobs as bytes, in words of 16 bits in the order of the host, which
-- has the low byte first.
use miranda_dashboard.Base.{
  ℕ, zero, suc, ◌+◌, ◌-◌, ◌*◌, ◌/◌, ◌%◌, List, [], ◌∷◌, ◌++◌, Option, none, some, length,
}
use miranda_dashboard.Base.Int.{ℤ, pos, negsuc, ◌+ℤ◌, to_int}
use miranda_dashboard.Blob.{ImageRange, RangeImage}

-- `static_cast<uint16_t>`
abbrev pub uint16 : ℤ → ℕ
uint16 (pos n) = n % 65536
uint16 (negsuc n) = 65535 - n % 65536

-- `WriteInt16`
abbrev pub write_int16 : ℕ → List ℕ
write_int16 v = v % 256 ∷ v / 256 % 256 ∷ []

-- `count` grows by what the rows of a blob take. Each sum with a `size_t` is cut to an `int`; a sum
-- of two `int`s is not, for its overflow is undefined.
unfoldable pub predict_rows : ℤ → List (List ImageRange) → ℤ
unfolding to_int ◌+ℤ◌
predict_rows count [] = count
predict_rows count (range ∷ rest) = predict_rows (to_int (count +ℤ pos (2 + 4 * length range))) rest

unfoldable pub predict_blobs : ℤ → List RangeImage → ℤ
unfolding predict_rows
predict_blobs count [] = count
predict_blobs count (blob ∷ rest) = predict_blobs (predict_rows (count +ℤ pos 4) blob.ranges) rest

-- `PredictSize`
unfoldable pub predict_size : List RangeImage → ℤ
unfolding predict_blobs
predict_size blob_list = predict_blobs (pos 2) blob_list

-- The loops of `SerializeBlob`, from the innermost on.
abbrev pub write_spans : List ImageRange → List ℕ
write_spans [] = []
write_spans (range ∷ rest) =
    write_int16 (uint16 range.st) ++ (write_int16 (uint16 range.ed) ++ write_spans rest)

abbrev pub write_rows : List (List ImageRange) → List ℕ
write_rows [] = []
write_rows (range ∷ rest) =
    write_int16 (length range % 65536) ++ (write_spans range ++ write_rows rest)

abbrev pub write_blobs : List RangeImage → List ℕ
write_blobs [] = []
write_blobs (blob ∷ rest) =
    write_int16 (uint16 blob.mini)
    ++ (write_int16 (length blob.ranges % 65536) ++ (write_rows blob.ranges ++ write_blobs rest))

-- `SerializeBlob`: the bytes that it writes from `data` on.
unfoldable pub serialize_blob : List RangeImage → List ℕ
serialize_blob blob_list = write_int16 (length blob_list % 65536) ++ write_blobs blob_list

-- What a reader makes of the bytes from `data` on, and those it leaves; `none` is a read past the end.
abbrev pub Reader : Type 0 → Type 0
Reader A = List ℕ → Option (A × List ℕ)

abbrev pub and_then : {A B : Type 0} → Reader A → (A → Reader B) → Reader B
and_then reader next bytes = elim (reader bytes) [
  | none ↦ none
  | some (value, left) ↦ next value left
]

-- `ReadInt16`
unfoldable pub read_int16 : Reader ℕ
read_int16 [] = none
read_int16 (low ∷ []) = none
read_int16 (low ∷ high ∷ left) = some (low + high * 256, left)

-- The loops of `ParseBlobList`, from the innermost on.
unfoldable pub read_spans : ℕ → Reader (List ImageRange)
read_spans zero bytes = some ([], bytes)
read_spans (suc n) bytes =
    and_then read_int16
      (λ st. and_then read_int16 (λ ed.
        and_then (read_spans n)
          (λ rest left. some (record { st = pos st; ed = pos ed } ∷ rest, left))))
      bytes

unfoldable pub read_rows : ℕ → Reader (List (List ImageRange))
read_rows zero bytes = some ([], bytes)
read_rows (suc n) bytes =
    and_then read_int16
      (λ num_sub_ranges.
        and_then (read_spans num_sub_ranges)
          (λ range. and_then (read_rows n) (λ rest left. some (range ∷ rest, left))))
      bytes

unfoldable pub read_blobs : ℕ → Reader (List RangeImage)
read_blobs zero bytes = some ([], bytes)
read_blobs (suc n) bytes =
    and_then read_int16
      (λ mini. and_then read_int16 (λ num_ranges. and_then (read_rows num_ranges) (λ ranges.
        and_then (read_blobs n) (λ rest left.
          some (record { npixelsc = negsuc 0; mini = pos mini; ranges = ranges } ∷ rest, left)))))
      bytes

-- `ParseBlobList`, on an empty list of blobs: the blobs, and the bytes from the returned pointer on.
unfoldable pub parse_blob_list : Reader (List RangeImage)
parse_blob_list = and_then read_int16 read_blobs
