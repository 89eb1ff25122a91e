-- ===== src/Blob/Flips.antt =====
-- `Flip`, `calc_area` and `npixels`: what a flip keeps, and when the cached count is right.
use mathlib.Core.List.{reverse, reverse-cons, reverse-reverse, map-append, map-map, map-id}
use miranda_dashboard.Base.{
  ℕ, ◌≡◌, ◌⊎◌, refl, sym, ap, ◌∙◌, List, [], ◌∷◌, ◌++◌, map, length, length-append, length-map,
  arith,
}
use miranda_dashboard.Base.Int.{ℤ, pos, ◌+ℤ◌, ◌-ℤ◌, ◌≤ℤ◌, int_laws, eq_of_parts}
use miranda_dashboard.Blob.{
  ImageRange, RangeImage, row_area, rows_area, calc_area, npixels, flip_range, flip_row, flip,
}

map-reverse {ℓ κ} :
    {A : Type ℓ} {B : Type κ} (f : A → B) (xs : List A) → map f (reverse xs) ≡ reverse (map f xs)
map-reverse f [] = refl
map-reverse f (x ∷ xs) =
    ap (map f) (reverse-cons x xs)
    ∙ map-append f (reverse xs) (x ∷ [])
    ∙ ap (λ ys. ys ++ (f x ∷ [])) (map-reverse f xs)
    ∙ sym (reverse-cons (f x) (map f xs))

length-reverse {ℓ} : {A : Type ℓ} (xs : List A) → length (reverse xs) ≡ length xs
length-reverse [] = refl
length-reverse (x ∷ xs) =
    ap length (reverse-cons x xs)
    ∙ length-append (reverse xs) (x ∷ [])
    ∙ omega (arith, length-reverse xs)

-- Turning a list round and mapping over it, twice, for a map that undoes itself.
twice {ℓ} :
    {A : Type ℓ} (f : A → A) (xs : List A)
    → ((a : A) → f (f a) ≡ a)
    → map f (reverse (map f (reverse xs))) ≡ xs
twice f xs undo =
    map-reverse f (map f (reverse xs))
    ∙ ap reverse (map-map f f (reverse xs))
    ∙ ap (λ g. reverse (map g (reverse xs))) (λ i a. undo a i)
    ∙ ap reverse (map-id (reverse xs))
    ∙ reverse-reverse xs

flip_range-flip_range : (w : ℤ) (r : ImageRange) → flip_range w (flip_range w r) ≡ r
flip_range-flip_range w r i = record {
  st = eq_of_parts (w -ℤ (w -ℤ r.st)) r.st (omega int_laws) i;
  ed = eq_of_parts (w -ℤ (w -ℤ r.ed)) r.ed (omega int_laws) i;
}

flip_row-flip_row : (w : ℤ) (row : List ImageRange) → flip_row w (flip_row w row) ≡ row
flip_row-flip_row w row = twice (flip_range w) row (flip_range-flip_range w)

mini_back : (h n m : ℤ) → h -ℤ n -ℤ (h -ℤ n -ℤ m) ≡ m
mini_back h n m = eq_of_parts _ _ (omega int_laws)

length-flipped :
    (w : ℤ) (rows : List (List ImageRange)) → length (map (flip_row w) (reverse rows)) ≡ length rows
length-flipped w rows = length-map (reverse rows) (flip_row w) ∙ length-reverse rows

-- A blob that is flipped twice, in an image of any size, is the blob it was: its spans, its first
-- row and its cached count.
pub flip-flip : (w h : ℤ) (image : RangeImage) → flip w h (flip w h image) ≡ image
unfolding flip
flip-flip w h image i = record {
  npixelsc = image.npixelsc;
  mini =
      (ap (λ (n : ℕ). h -ℤ pos n -ℤ (h -ℤ pos (length image.ranges) -ℤ image.mini))
            (length-flipped w image.ranges)
          ∙ mini_back h (pos (length image.ranges)) image.mini)
        i;
  ranges = twice (flip_row w) image.ranges (flip_row-flip_row w) i;
}

-- What the loops have added up before only shifts the sum.
row_area-shift :
    (area : ℤ) (row : List ImageRange) → row_area area row ≡ area +ℤ row_area (pos 0) row
unfolding row_area
row_area-shift area [] = eq_of_parts _ _ (omega int_laws)
row_area-shift area (r ∷ row) =
    row_area-shift (area +ℤ (r.ed -ℤ r.st)) row
    ∙ eq_of_parts _ _ (omega int_laws)
    ∙ ap (λ n. area +ℤ n) (sym (row_area-shift (pos 0 +ℤ (r.ed -ℤ r.st)) row))

rows_area-shift :
    (area : ℤ) (rows : List (List ImageRange))
    → rows_area area rows ≡ area +ℤ rows_area (pos 0) rows
unfolding rows_area
rows_area-shift area [] = eq_of_parts _ _ (omega int_laws)
rows_area-shift area (row ∷ rows) =
    rows_area-shift (row_area area row) rows
    ∙ ap (λ n. n +ℤ rows_area (pos 0) rows) (row_area-shift area row)
    ∙ eq_of_parts _ _ (omega int_laws)
    ∙ ap (λ n. area +ℤ n) (sym (rows_area-shift (row_area (pos 0) row) rows))

row_area-append :
    (area : ℤ) (row row' : List ImageRange)
    → row_area area (row ++ row') ≡ row_area (row_area area row) row'
unfolding row_area
row_area-append area [] row' = refl
row_area-append area (r ∷ row) row' = row_area-append (area +ℤ (r.ed -ℤ r.st)) row row'

rows_area-append :
    (area : ℤ) (rows rows' : List (List ImageRange))
    → rows_area area (rows ++ rows') ≡ rows_area (rows_area area rows) rows'
unfolding rows_area
rows_area-append area [] rows' = refl
rows_area-append area (r ∷ rows) rows' = rows_area-append (row_area area r) rows rows'

row_area-flip_row :
    (w area : ℤ) (row : List ImageRange) → row_area area (flip_row w row) ≡ row_area area row
unfolding row_area
row_area-flip_row w area [] = refl
row_area-flip_row w area (r ∷ row) =
    ap (λ l. row_area area (map (flip_range w) l)) (reverse-cons r row)
    ∙ ap (row_area area) (map-append (flip_range w) (reverse row) (r ∷ []))
    ∙ row_area-append area (flip_row w row) (flip_range w r ∷ [])
    ∙ ap (λ n. n +ℤ (w -ℤ r.st -ℤ (w -ℤ r.ed)))
        (row_area-flip_row w area row ∙ row_area-shift area row)
    ∙ eq_of_parts _ _ (omega int_laws)
    ∙ sym (row_area-shift (area +ℤ (r.ed -ℤ r.st)) row)

rows_area-flipped :
    (w area : ℤ) (rows : List (List ImageRange))
    → rows_area area (map (flip_row w) (reverse rows)) ≡ rows_area area rows
unfolding rows_area
rows_area-flipped w area [] = refl
rows_area-flipped w area (row ∷ rows) =
    ap (λ l. rows_area area (map (flip_row w) l)) (reverse-cons row rows)
    ∙ ap (rows_area area) (map-append (flip_row w) (reverse rows) (row ∷ []))
    ∙ rows_area-append area (map (flip_row w) (reverse rows)) (flip_row w row ∷ [])
    ∙ row_area-flip_row w (rows_area area (map (flip_row w) (reverse rows))) row
    ∙ ap (λ n. row_area n row) (rows_area-flipped w area rows ∙ rows_area-shift area rows)
    ∙ row_area-shift (area +ℤ rows_area (pos 0) rows) row
    ∙ ap (λ n. n) (eq_of_parts _ _ (omega int_laws))
    ∙ ap (λ n. n +ℤ rows_area (pos 0) rows) (sym (row_area-shift area row))
    ∙ sym (rows_area-shift (row_area area row) rows)

-- A flip keeps the number of pixels of a blob, whatever its spans.
pub calc_area-flip : (w h : ℤ) (image : RangeImage) → calc_area (flip w h image) ≡ calc_area image
unfolding calc_area flip
calc_area-flip w h image = rows_area-flipped w (pos 0) image.ranges

-- Of a blob whose cache is empty or right, `npixels` gives the area, and leaves the spans as they
-- are and the cache so that it gives the area again.
pub npixels-calc_area :
    (image : RangeImage)
    → (image.npixelsc ≤ℤ pos 0) ⊎ (image.npixelsc ≡ calc_area image)
    → ((npixels image).0 ≡ calc_area image)
      × ((npixels (npixels image).1).0 ≡ calc_area image)
      × ((npixels image).1.ranges ≡ image.ranges)
unfolding npixels calc_area
npixels-calc_area image h = ground arith
