-- ===== src/Blob/Covering.antt =====
-- The spans that `do_threshold` makes cover exactly the pixels that pass the test.
use mathlib.Core.List.{foldl}
use miranda_dashboard.Base.{
  ℕ, zero, suc, ◌+◌, ◌-◌, ◌*◌, ◌≤◌, ◌≡◌, refl, ◌∙◌, Bool, true, false, ◌&&◌, ◌||◌, List, [], ◌∷◌,
  ◌++◌, Option, none, some, length, take, drop, get_elem?, get_elem?-cons, get_elem?-take,
  get_elem?-drop, get_or, length-take, length-drop, map, ltb, ◌==◌, if◌then◌else◌, arith,
}
use miranda_dashboard.Base.Int.{pos, ◌≤ℤ◌}
use miranda_dashboard.Blob.{ImageRange}
use miranda_dashboard.Blob.Threshold.{
  Image, Scan, start_scan, split_rows, by_row, get_px, scan_px, threshold_row, do_threshold,
  in_span, covers,
}

-- Whether the test holds of the pixel at an index, if there is one.
abbrev pub passes : {A : Type 0} → (A → Bool) → Option A → Bool
passes fn none = false
passes fn (some px) = fn px

-- Whether a pixel lies in what a scan has found so far, the open span included.
abbrev found : ℕ → Scan → Bool
found i s = covers i s.rngs || (s.p_score && in_span i (record { st = s.pstart; ed = pos s.x }))

covers-append :
    (i : ℕ) (xs : List ImageRange) (r : ImageRange)
    → covers i (xs ++ (r ∷ [])) ≡ (covers i xs || in_span i r)
covers-append i [] r = ground arith
covers-append i (y ∷ xs) r = ground (arith, covers-append i xs r)

-- A scan is somewhere in its row: nothing that it has found lies ahead of it.
record Sound (s : Scan) : Type 0 where
  started : s.p_score ≡ true → s.pstart ≤ℤ pos s.x
  behind : (i : ℕ) → s.x ≤ i → covers i s.rngs ≡ false

start_scan-Sound : Sound start_scan
start_scan-Sound = record { started = λ e. cc; behind = λ i le. refl }

module _ {A : Type 0} (fn : A → Bool) where
  x-scan_px : (s : Scan) (px : A) → (scan_px fn s px).x ≡ s.x + 1
  unfolding scan_px
  x-scan_px s px = ground arith

  scan_px-Sound : (s : Scan) (px : A) → Sound s → Sound (scan_px fn s px)
  unfolding scan_px
  scan_px-Sound s px h = record {
    started = ground (arith, h.started);
    behind = λ i le.
        ground (arith, h.behind i, covers-append i s.rngs (record { st = s.pstart; ed = pos s.x }));
  }

  found-scan_px :
      (i : ℕ) (s : Scan) (px : A)
      → Sound s
      → found i (scan_px fn s px) ≡ (if i == s.x then fn px else found i s)
  unfolding scan_px
  found-scan_px i s px h = ground (
    arith,
    h.started,
    h.behind i,
    covers-append i s.rngs (record { st = s.pstart; ed = pos s.x }),
  )

  found-foldl :
      (i : ℕ) (s : Scan) (row : List A)
      → Sound s
      → found i (foldl (scan_px fn) s row)
        ≡ (if ltb i s.x then found i s else passes fn (get_elem? row (i - s.x)))
  found-foldl i s [] h = ground (arith, h.behind i)
  found-foldl i s (px ∷ row) h = ground (
    arith,
    found-foldl i (scan_px fn s px) row (scan_px-Sound s px h),
    found-scan_px i s px h,
    x-scan_px s px,
    get_elem?-cons px row (i - s.x),
  )

  pub x-foldl : (s : Scan) (row : List A) → (foldl (scan_px fn) s row).x ≡ s.x + length row
  x-foldl s [] = omega arith
  x-foldl s (px ∷ row) = ground (arith, x-scan_px s px, x-foldl (scan_px fn s px) row)

  covers-threshold_row :
      (i w : ℕ) (row : List A)
      → length row ≡ w
      → covers i (threshold_row fn w row) ≡ passes fn (get_elem? row i)
  unfolding threshold_row
  covers-threshold_row i w row e = ground (
    arith,
    found-foldl i start_scan row start_scan-Sound,
    x-foldl start_scan row,
    covers-append i (foldl (scan_px fn) start_scan row).rngs
        (record { st = (foldl (scan_px fn) start_scan row).pstart; ed = pos w }),
  )

  covers-split_rows :
      (x y w h : ℕ) (pixels : List A)
      → length pixels ≡ w * h
      → covers x (get_or (map (threshold_row fn w) (split_rows w h pixels)) y [])
        ≡ passes fn (if ltb x w && ltb y h then get_elem? pixels (x + y * w) else none)
  unfolding split_rows
  covers-split_rows x y w zero pixels e = ground arith
  covers-split_rows x zero w (suc h) pixels e = ground (
    arith,
    covers-threshold_row x w (take w pixels) (length-take w pixels ∙ omega arith),
    get_elem?-take w pixels x,
  )
  covers-split_rows x (suc y) w (suc h) pixels e = ground (
    arith,
    covers-split_rows x y w h (drop w pixels) (length-drop w pixels ∙ omega arith),
    get_elem?-drop w pixels (x + y * w),
  )

  -- In an image of the right size, a pixel is covered by the spans of its row just if the test
  -- holds of what `get_px` reads there, for every row and column, in range or not.
  pub covers-do_threshold :
      (img : Image A) (x y : ℕ)
      → length img.pixels ≡ img.w * img.h
      → covers x (get_or (do_threshold fn img).ranges y []) ≡ passes fn (get_px img x y)
  unfolding do_threshold by_row get_px
  covers-do_threshold img x y e = ground (arith, covers-split_rows x y img.w img.h img.pixels)
