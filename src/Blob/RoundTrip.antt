-- ===== src/Blob/RoundTrip.antt =====
-- `ParseBlobList` reads back what `SerializeBlob` wrote, which fills what `PredictSize` asks for.
use miranda_dashboard.Base.{
  ℕ, ◌+◌, ◌*◌, ◌%◌, ◌<◌, ◌≡◌, refl, ap, ap₂, ◌∙◌, List, [], ◌∷◌, ◌++◌, append_assoc, map, some,
  length, length-append, arith,
}
use miranda_dashboard.Base.Int.{ℤ, pos, negsuc, ◌+ℤ◌, to_int}
use miranda_dashboard.Blob.{ImageRange, RangeImage}
use miranda_dashboard.Blob.Codec.{
  uint16, write_int16, predict_rows, predict_blobs, predict_size, write_spans, write_rows,
  write_blobs, serialize_blob, Reader, and_then, read_int16, read_spans, read_rows, read_blobs,
  parse_blob_list,
}

abbrev pub IsUint16 : ℤ → Type 0
IsUint16 (pos n) = n < 65536
IsUint16 (negsuc n) = ⊥

abbrev pub SpansFit : List ImageRange → Type 0
SpansFit [] = Unit {0}
SpansFit (range ∷ rest) = IsUint16 range.st × IsUint16 range.ed × SpansFit rest

abbrev pub RowsFit : List (List ImageRange) → Type 0
RowsFit [] = Unit {0}
RowsFit (range ∷ rest) = (length range < 65536) × SpansFit range × RowsFit rest

-- Every number of every blob fits a word.
abbrev pub BlobsFit : List RangeImage → Type 0
BlobsFit [] = Unit {0}
BlobsFit (blob ∷ rest) =
    IsUint16 blob.mini × (length blob.ranges < 65536) × RowsFit blob.ranges × BlobsFit rest

-- A blob with nothing in its cache.
abbrev pub uncached : RangeImage → RangeImage
uncached blob = record { npixelsc = negsuc 0; mini = blob.mini; ranges = blob.ranges }

and_then-some :
    {A B : Type 0} (reader : Reader A) (next : A → Reader B) {bytes left : List ℕ} {value : A}
    → reader bytes ≡ some (value, left)
    → and_then reader next bytes ≡ next value left
and_then-some reader next e = rw (e, and_then)

read-write :
    (v : ℕ) (left : List ℕ) → v < 65536 → read_int16 (write_int16 v ++ left) ≡ some (v, left)
unfolding read_int16
read-write v left h = ap (λ n. some (n, left)) (omega arith)

pos-uint16 : (v : ℤ) → IsUint16 v → pos (uint16 v) ≡ v
pos-uint16 (pos n) h = ap pos (omega arith)
pos-uint16 (negsuc n) h = absurd h

uint16-bound : (v : ℤ) → uint16 v < 65536
uint16-bound (pos n) = omega arith
uint16-bound (negsuc n) = omega arith

in_word : (n : ℕ) → n < 65536 → n % 65536 ≡ n
in_word n h = omega arith

read_spans-write :
    (row : List ImageRange) (left : List ℕ)
    → SpansFit row
    → read_spans (length row) (write_spans row ++ left) ≡ some (row, left)
unfolding read_spans
read_spans-write [] left h = refl
read_spans-write (r ∷ row) left h =
    and_then-some read_int16 _ (read-write (uint16 r.st) _ (uint16-bound r.st))
    ∙ and_then-some read_int16 _ (read-write (uint16 r.ed) _ (uint16-bound r.ed))
    ∙ and_then-some (read_spans (length row)) _ (read_spans-write row left h.2)
    ∙ ap₂ (λ a b. some ((record { st = a; ed = b }) ∷ row, left)) (pos-uint16 r.st h.0)
        (pos-uint16 r.ed h.1)

read_rows-write :
    (rows : List (List ImageRange)) (left : List ℕ)
    → RowsFit rows
    → read_rows (length rows) (write_rows rows ++ left) ≡ some (rows, left)
unfolding read_rows
read_rows-write [] left h = refl
read_rows-write (row ∷ rows) left h =
    and_then-some read_int16 _ (read-write (length row % 65536) _ (omega arith))
    ∙ and_then-some (read_spans (length row % 65536)) _ (
        ap₂ read_spans (in_word (length row) h.0)
          (append_assoc (write_spans row) (write_rows rows) left)
        ∙ read_spans-write row (write_rows rows ++ left) h.1)
    ∙ and_then-some (read_rows (length rows)) _ (read_rows-write rows left h.2)

read_blobs-write :
    (blobs : List RangeImage) (left : List ℕ)
    → BlobsFit blobs
    → read_blobs (length blobs) (write_blobs blobs ++ left) ≡ some (map uncached blobs, left)
unfolding read_blobs
read_blobs-write [] left h = refl
read_blobs-write (b ∷ blobs) left h =
    and_then-some read_int16 _ (read-write (uint16 b.mini) _ (uint16-bound b.mini))
    ∙ and_then-some read_int16 _ (read-write (length b.ranges % 65536) _ (omega arith))
    ∙ and_then-some (read_rows (length b.ranges % 65536)) _ (
        ap₂ read_rows (in_word (length b.ranges) h.1)
          (append_assoc (write_rows b.ranges) (write_blobs blobs) left)
        ∙ read_rows-write b.ranges (write_blobs blobs ++ left) h.2)
    ∙ and_then-some (read_blobs (length blobs)) _ (read_blobs-write blobs left h.3)
    ∙ ap
        (λ m. some (
          (record { npixelsc = negsuc 0; mini = m; ranges = b.ranges }) ∷ map uncached blobs,
          left,
        ))
        (pos-uint16 b.mini h.0)

length-write_spans : (row : List ImageRange) → length (write_spans row) ≡ 4 * length row
length-write_spans [] = refl
length-write_spans (r ∷ row) = omega (arith, length-write_spans row)

fits_int : (a b : ℕ) → a + b < 2147483648 → to_int (pos a +ℤ pos b) ≡ pos (a + b)
unfolding to_int ◌+ℤ◌
fits_int a b h = ground arith

predict_rows-write :
    (count : ℕ) (rows : List (List ImageRange))
    → count + length (write_rows rows) < 2147483648
    → predict_rows (pos count) rows ≡ pos (count + length (write_rows rows))
unfolding predict_rows
predict_rows-write count [] h = ap pos (omega arith)
predict_rows-write count (row ∷ rows) h =
    let size = length-append (write_spans row) (write_rows rows) in
    let spans = length-write_spans row in
    ap (λ c. predict_rows c rows)
      (fits_int count (2 + 4 * length row) (omega (arith, h, size, spans)))
    ∙ predict_rows-write (count + (2 + 4 * length row)) rows (omega (arith, h, size, spans))
    ∙ ap pos (omega (arith, size, spans))

plus_four : (a : ℕ) → pos a +ℤ pos 4 ≡ pos (a + 4)
unfolding ◌+ℤ◌
plus_four a = ground arith

predict_blobs-write :
    (count : ℕ) (blobs : List RangeImage)
    → count + length (write_blobs blobs) < 2147483648
    → predict_blobs (pos count) blobs ≡ pos (count + length (write_blobs blobs))
unfolding predict_blobs
predict_blobs-write count [] h = ap pos (omega arith)
predict_blobs-write count (b ∷ blobs) h =
    let size = length-append (write_rows b.ranges) (write_blobs blobs) in
    ap (λ c. predict_blobs c blobs)
      (ap (λ c. predict_rows c b.ranges) (plus_four count)
        ∙ predict_rows-write (count + 4) b.ranges (omega (arith, h, size)))
    ∙ predict_blobs-write (count + 4 + length (write_rows b.ranges)) blobs (omega (arith, h, size))
    ∙ ap pos (omega (arith, size))

-- For blobs whose bytes an `int` can count, `SerializeBlob` writes exactly as many bytes as
-- `PredictSize` says.
pub predict_size-serialize_blob :
    (blobs : List RangeImage)
    → length (serialize_blob blobs) < 2147483648
    → predict_size blobs ≡ pos (length (serialize_blob blobs))
unfolding predict_size serialize_blob
predict_size-serialize_blob blobs h =
    predict_blobs-write 2 blobs (omega (arith, h)) ∙ ap pos (omega arith)

-- Where every count and number of the blobs fits 16 bits, `ParseBlobList` reads, from the bytes that
-- `SerializeBlob` wrote and whatever follows them, the same blobs, with nothing in their caches,
-- and stops at what follows.
pub parse-serialize_blob :
    (blobs : List RangeImage) (left : List ℕ)
    → length blobs < 65536
    → BlobsFit blobs
    → parse_blob_list (serialize_blob blobs ++ left) ≡ some (map uncached blobs, left)
unfolding parse_blob_list serialize_blob
parse-serialize_blob blobs left small fit =
    and_then-some read_int16 read_blobs (read-write (length blobs % 65536) _ (omega arith))
    ∙ ap (λ n. read_blobs n (write_blobs blobs ++ left)) (in_word (length blobs) small)
    ∙ read_blobs-write blobs left fit
