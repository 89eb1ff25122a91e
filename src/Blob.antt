-- ===== src/Blob.antt =====
-- aos/vision/blob/range_image.h: `ImageRange` and `RangeImage`, the spans of pixels of a blob, and
-- the codec of blobs. The corners, floating-point numbers, are left out, and so is overflow.
pub mod Codec
pub mod RoundTrip
pub mod Flips
pub mod Threshold
pub mod Covering
pub mod Spans
mod Tests
use mathlib.Core.List.{reverse}
use miranda_dashboard.Base.{List, [], ◌∷◌, map, length, if◌then◌else◌}
use miranda_dashboard.Base.Int.{ℤ, pos, ◌+ℤ◌, ◌-ℤ◌, ltb_ℤ}

-- A span of a row, from `st` up to `ed`.
pub record ImageRange : Type 0 where
  pub st : ℤ
  pub ed : ℤ

-- `npixelsc` is the cached count of pixels; `mini` is the row that the first of `ranges` stands in.
pub record RangeImage : Type 0 where
  pub npixelsc : ℤ
  pub mini : ℤ
  pub ranges : List (List ImageRange)

-- The loops that add up the widths of the spans.
unfoldable pub row_area : ℤ → List ImageRange → ℤ
row_area area [] = area
row_area area (interval ∷ rest) = row_area (area +ℤ (interval.ed -ℤ interval.st)) rest

unfoldable pub rows_area : ℤ → List (List ImageRange) → ℤ
rows_area area [] = area
rows_area area (range ∷ rest) = rows_area (row_area area range) rest

unfoldable pub calc_area : RangeImage → ℤ
unfolding row_area rows_area
calc_area image = rows_area (pos 0) image.ranges

-- `npixels`: the count, and the image with the count in its cache.
unfoldable pub npixels : RangeImage → ℤ × RangeImage
unfolding row_area rows_area
npixels image = if ltb_ℤ (pos 0) image.npixelsc then (image.npixelsc, image) else (
  rows_area (pos 0) image.ranges,
  record image { npixelsc = rows_area (pos 0) image.ranges },
)

abbrev pub flip_range : ℤ → ImageRange → ImageRange
flip_range image_width interval = record {
  st = image_width -ℤ interval.ed;
  ed = image_width -ℤ interval.st;
}

abbrev pub flip_row : ℤ → List ImageRange → List ImageRange
flip_row image_width range = map (flip_range image_width) (reverse range)

-- `Flip`, less the corners; `std::reverse` turns a list round.
unfoldable pub flip : ℤ → ℤ → RangeImage → RangeImage
flip image_width image_height image = record image {
  ranges = map (flip_row image_width) (reverse image.ranges);
  mini = image_height -ℤ pos (length image.ranges) -ℤ image.mini;
}
