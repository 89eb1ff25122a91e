-- ===== src/Blob/Threshold.antt =====
-- aos/vision/blob/threshold.h: `do_threshold`, over the rows of an image
-- (aos/vision/image/image_types.h).
use mathlib.Core.List.{foldl}
use miranda_dashboard.Base.{
  ℕ, zero, suc, ◌+◌, ◌*◌, Bool, true, false, ◌&&◌, ◌||◌, List, [], ◌∷◌, ◌++◌, Option, none, map,
  take, drop, get_elem?, ltb, ◌==◌, if◌then◌else◌,
}
use miranda_dashboard.Base.Int.{ℤ, pos, negsuc, leb_ℤ, ltb_ℤ}
use miranda_dashboard.Blob.{ImageRange, RangeImage}

-- `ImagePtr`: an image of `w` by `h` pixels, whose rows follow one another in `pixels`.
pub record Image (A : Type 0) : Type 0 where
  pub w : ℕ
  pub h : ℕ
  pub pixels : List A

-- The variables of the loop over a row.
pub record Scan : Type 0 where
  pub p_score : Bool
  pub pstart : ℤ
  pub rngs : List ImageRange
  pub x : ℕ

-- What the loop does where the score changes.
abbrev pub change : Scan → Scan
change s =
    if s.p_score
    then record s {
      rngs = s.rngs ++ (record { st = s.pstart; ed = pos s.x } ∷ []);
      p_score = false;
    }
    else record s { pstart = pos s.x; p_score = true }

abbrev pub start_scan : Scan
start_scan = record { p_score = false; pstart = negsuc 0; rngs = []; x = 0 }

module _ {A : Type 0} where
  -- `by_row`: a `RowRef` moves on by `w` until it comes to `w * h`, at once if `w` is 0.
  unfoldable pub split_rows : ℕ → ℕ → List A → List (List A)
  split_rows w zero pixels = []
  split_rows w (suc h) pixels = take w pixels ∷ split_rows w h (drop w pixels)

  unfoldable pub by_row : Image A → List (List A)
  unfolding split_rows
  by_row img = if img.w == 0 then [] else split_rows img.w img.h img.pixels

  -- `get_px`, `none` being its exit.
  unfoldable pub get_px : Image A → ℕ → ℕ → Option A
  get_px img i j = if ltb i img.w && ltb j img.h then get_elem? img.pixels (i + j * img.w) else none

  -- The body of the loop over a row.
  unfoldable pub scan_px : (A → Bool) → Scan → A → Scan
  scan_px fn s px =
      let t =
        (if fn px
          then (if s.p_score then s else change s)
          else (if s.p_score then change s else s)) in
      record t { x = t.x + 1 }

  -- A row, with the span that is open at its end.
  unfoldable pub threshold_row : (A → Bool) → ℕ → List A → List ImageRange
  unfolding scan_px
  threshold_row fn w row =
      let s = foldl (scan_px fn) start_scan row in
      if s.p_score then s.rngs ++ (record { st = s.pstart; ed = pos w } ∷ []) else s.rngs

  -- `do_threshold`
  unfoldable pub do_threshold : (A → Bool) → Image A → RangeImage
  unfolding by_row threshold_row
  do_threshold fn img = record {
    npixelsc = negsuc 0;
    mini = pos 0;
    ranges = map (threshold_row fn img.w) (by_row img);
  }

-- Whether a pixel of a row lies in a span, and in one of several.
abbrev pub in_span : ℕ → ImageRange → Bool
in_span i r = leb_ℤ r.st (pos i) && ltb_ℤ (pos i) r.ed

abbrev pub covers : ℕ → List ImageRange → Bool
covers i [] = false
covers i (r ∷ rngs) = in_span i r || covers i rngs
