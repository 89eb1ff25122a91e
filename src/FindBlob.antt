-- ===== src/FindBlob.antt =====
-- aos/vision/blob/find_blob.cc and aos/vision/blob/disjoint_set.h: the spans of an image, put
-- together to blobs. `none` is an index out of range, or a loop or recursion out of its rounds.
pub mod Weights
pub mod Forest
pub mod Sets
pub mod Operations
pub mod Rows
pub mod Loops
pub mod Conserved
mod Tests
use miranda_dashboard.Base.{
  ℕ, zero, suc, ◌+◌, ◌-◌, ◌≤◌, Bool, true, false, ◌&&◌, Option, none, some, List, [], ◌∷◌, ◌++◌,
  length, get_elem?, get_or, set, replicate, ltb, leb, ◌==◌, if◌then◌else◌, ◌>>=◌,
}
use miranda_dashboard.Base.Int.{ℤ, pos, negsuc, ◌-ℤ◌, ltb_ℤ}
use miranda_dashboard.Blob.{ImageRange, RangeImage}

-- `DisjointSet::find`, on the array `ufindl`: the root, and the array with the path shortened.
unfoldable pub find : ℕ → List ℤ → ℕ → Option (ℕ × List ℤ)
find zero ufindl bid = none
find (suc rounds) ufindl bid = elim (get_elem? ufindl bid) [
  | none ↦ none
  | some tid ↦ elim tid [
    | negsuc _ ↦ some (bid, ufindl)
    | pos parent ↦ elim (find rounds ufindl parent) [
      | none ↦ none
      | some (root, shorter) ↦ some (root, set shorter bid (pos root))
    ]
  ]
]

pub record BlobBuilder : Type 0 where
  pub img : RangeImage
  pub mini : ℕ

-- `while (ranges.size() <= i) ranges.emplace_back();`
abbrev pub grown : ℕ → List (List ImageRange) → List (List ImageRange)
grown i ranges = ranges ++ replicate (i + 1 - length ranges) []

abbrev pub new_builder : ℕ → BlobBuilder
new_builder i = record { img = record { npixelsc = negsuc 0; mini = pos i; ranges = [] }; mini = i }

abbrev pub with_ranges : BlobBuilder → List (List ImageRange) → BlobBuilder
with_ranges b ranges = record b { img = record b.img { ranges = ranges } }

-- `BlobBuilder::add`
unfoldable pub add : BlobBuilder → ℕ → ImageRange → Option BlobBuilder
add b i rng =
    if ltb i b.mini
    then none
    else (let rows = grown (i - b.mini) b.img.ranges in
        some (with_ranges b (set rows (i - b.mini) (get_or rows (i - b.mini) [] ++ (rng ∷ [])))))

-- The loops that merge two rows by the starts of their spans.
unfoldable pub merge_row : List ImageRange → List ImageRange → List ImageRange
merge_row [] prev = prev
merge_row (c ∷ cur) [] = c ∷ cur
merge_row (c ∷ cur) (p ∷ prev) = elim (ltb_ℤ c.st p.st) [
  | true ↦ c ∷ merge_row cur (p ∷ prev)
  | false ↦ p ∷ merge_row (c ∷ cur) prev
]

-- The rows of the other blob, from the first on, the next one going to row `i`.
unfoldable pub merge_rows :
    ℕ → List (List ImageRange) → List (List ImageRange) → List (List ImageRange)
unfolding merge_row
merge_rows i ranges [] = ranges
merge_rows i ranges (prev ∷ rest) =
    let rows = grown i ranges in
    merge_rows (i + 1) (set rows i (merge_row (get_or rows i []) prev)) rest

-- `BlobBuilder::merge`; with a row to merge, a negative `diff` is an index out of range.
unfoldable pub merge : BlobBuilder → BlobBuilder → Option BlobBuilder
unfolding merge_rows
merge b o =
    if ltb o.mini b.mini
    then (if length o.img.ranges == 0 then some b else none)
    else some (with_ranges b (merge_rows (o.mini - b.mini) b.img.ranges o.img.ranges))

pub record BlobDisjointSet : Type 0 where
  pub ufindl : List ℤ
  pub items : List BlobBuilder

-- `dj_set.find`; a path is no longer than the array.
unfoldable pub find_in : BlobDisjointSet → ℕ → Option (ℕ × BlobDisjointSet)
find_in s bid = do
  (root, shorter) ← find (length s.ufindl + 1) s.ufindl bid
  some (root, record s { ufindl = shorter })

unfoldable pub add_to_item : BlobDisjointSet → ℕ → ℕ → ImageRange → Option BlobDisjointSet
add_to_item s bid i rng = do
  item ← get_elem? s.items bid
  added ← add item i rng
  some (record s { items = set s.items bid added })

unfoldable pub add_to_blob : BlobDisjointSet → ℕ → ℕ → ImageRange → Option (ℕ × BlobDisjointSet)
add_to_blob s bid i rng = do
  (root, found) ← find_in s bid
  done ← add_to_item found root i rng
  some (root, done)

unfoldable pub add_blob : BlobDisjointSet → ℕ → ImageRange → Option (ℕ × BlobDisjointSet)
add_blob s i rng = do
  done ←
      add_to_item
        (record { ufindl = s.ufindl ++ (negsuc 0 ∷ []); items = s.items ++ (new_builder i ∷ []) })
        (length s.ufindl) i rng
  some (length s.ufindl, done)

-- The end of `merge_in_blob`, for two roots in the order of their first rows.
unfoldable pub link : BlobDisjointSet → ℕ → ℕ → Option BlobDisjointSet
link s cbid pbid = do
  kept ← get_elem? s.items cbid
  given ← get_elem? s.items pbid
  merged ← merge kept given
  some (record { ufindl = set s.ufindl pbid (pos cbid); items = set s.items cbid merged })

-- `merge_in_blob` for the roots.
unfoldable pub merge_roots : BlobDisjointSet → ℕ → ℕ → Option BlobDisjointSet
merge_roots s cbid pbid = if cbid == pbid then some s else do
  citem ← get_elem? s.items cbid
  pitem ← get_elem? s.items pbid
  if ltb pitem.mini citem.mini then link s pbid cbid else link s cbid pbid

unfoldable pub merge_in_blob : BlobDisjointSet → ℕ → ℕ → Option BlobDisjointSet
unfolding merge_roots
merge_in_blob s cbid pbid = do
  (croot, s₁) ← find_in s cbid
  (proot, s₂) ← find_in s₁ pbid
  merge_roots s₂ croot proot

-- `get_blobs`
unfoldable pub get_blobs : List ℤ → List BlobBuilder → List RangeImage
get_blobs [] items = []
get_blobs (tid ∷ ufindl) [] = []
get_blobs (pos _ ∷ ufindl) (item ∷ items) = get_blobs ufindl items
get_blobs (negsuc _ ∷ ufindl) (item ∷ items) = item.img ∷ get_blobs ufindl items

-- `ImageRange::last`
abbrev pub last : ImageRange → ℤ
last r = r.ed -ℤ pos 1

-- The variables of the loop over a row.
pub record Sweep : Type 0 where
  pub mi : ℕ
  pub mj : ℕ
  pub cids : List ℕ
  pub blobs : BlobDisjointSet

-- `cids.push_back(blob_set.add_blob(i, rng))`
unfoldable pub start_blob : ℕ → ImageRange → Sweep → Option Sweep
start_blob i rng s = do
  (bid, blobs) ← add_blob s.blobs i rng
  some (record s { cids = s.cids ++ (bid ∷ []); blobs = blobs })

-- The current span starts a blob, unless it has one.
unfoldable pub close_span : ℕ → ImageRange → Sweep → Option Sweep
close_span i rng s = do
  s' ← (if length s.cids == s.mj then start_blob i rng s else some s)
  some (record s' { mj = s'.mj + 1 })

-- Two spans meet: their blobs are merged, or the current span joins the blob of the other.
unfoldable pub join : ℕ → ℕ → ImageRange → Sweep → Option Sweep
join i pid rcur s =
    if ltb s.mj (length s.cids)
    then (do
      cid ← get_elem? s.cids s.mj
      blobs ← merge_in_blob s.blobs cid pid
      some (record s { blobs = blobs }))
    else (do
      (bid, blobs) ← add_to_blob s.blobs pid i rcur
      some (record s { cids = s.cids ++ (bid ∷ []); blobs = blobs }))

-- The body of the loop over two rows.
unfoldable pub step_row : ℕ → List ℕ → List ImageRange → List ImageRange → Sweep → Option Sweep
step_row i pids pranges cranges s = do
  rprev ← get_elem? pranges s.mi
  rcur ← get_elem? cranges s.mj
  if ltb_ℤ (last rcur) rprev.st
      then close_span i rcur s
      else if ltb_ℤ (last rprev) rcur.st
      then some (record s { mi = s.mi + 1 })
      else do
        pid ← get_elem? pids s.mi
        s' ← join i pid rcur s
        if ltb_ℤ (last rcur) (last rprev)
            then some (record s' { mj = s'.mj + 1 })
            else some (record s' { mi = s'.mi + 1 })

unfoldable pub sweep_row : ℕ → List ℕ → List ImageRange → List ImageRange → ℕ → Sweep → Option Sweep
sweep_row i pids pranges cranges zero s = none
sweep_row i pids pranges cranges (suc rounds) s =
    elim (ltb s.mi (length pranges) && ltb s.mj (length cranges)) [
      | true ↦ step_row i pids pranges cranges s >>= sweep_row i pids pranges cranges rounds
      | false ↦ some s
    ]

-- The loop over what is left of the current row.
unfoldable pub finish_row : ℕ → List ImageRange → ℕ → Sweep → Option Sweep
finish_row i cranges zero s = none
finish_row i cranges (suc rounds) s = elim (ltb s.mj (length cranges)) [
  | true ↦ get_elem? cranges s.mj >>= λ rcur. close_span i rcur s >>= finish_row i cranges rounds
  | false ↦ some s
]

-- One row against the row above it: the ids of its blobs.
unfoldable pub find_row :
    ℕ → List ℕ → List ImageRange → List ImageRange → BlobDisjointSet → Option Sweep
find_row i pids pranges cranges blobs = do
  s ←
      sweep_row i pids pranges cranges (length pranges + length cranges + 1)
        (record { mi = 0; mj = 0; cids = []; blobs = blobs })
  finish_row i cranges (length cranges + 1) s

-- The loop over the rows from `i` on.
unfoldable pub find_rows :
    ℕ → List ℕ → List ImageRange → List (List ImageRange) → BlobDisjointSet → Option BlobDisjointSet
find_rows i pids pranges [] blobs = some blobs
find_rows i pids pranges (cranges ∷ rest) blobs =
    find_row i pids pranges cranges blobs >>= λ s. find_rows (i + 1) s.cids cranges rest s.blobs

-- The first row, each span of which starts a blob.
unfoldable pub first_row : List ImageRange → Sweep → Option Sweep
first_row [] s = some s
first_row (rng ∷ rest) s = start_blob 0 rng s >>= first_row rest

-- `find_blobs`; an image with no rows is an index out of range.
unfoldable pub find_blobs : RangeImage → Option (List RangeImage)
find_blobs rimg = elim rimg.ranges [
  | [] ↦ none
  | row ∷ rest ↦ do
    s ←
        first_row row
          (record { mi = 0; mj = 0; cids = []; blobs = record { ufindl = []; items = [] } })
    blobs ← find_rows 1 s.cids row rest s.blobs
    some (get_blobs blobs.ufindl blobs.items)
]
