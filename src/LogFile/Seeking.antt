-- ===== src/LogFile/Seeking.antt =====
-- Where a reader that skips old messages goes, and what it takes for the last page.
use miranda_dashboard.Base.{
  ℕ, suc, ◌+◌, ◌-◌, ◌*◌, ◌/◌, ◌%◌, ◌≤◌, ◌<◌, ◌≡◌, ◌⊎◌, inl, inr, refl, arith, Bool, true, false,
  Bool-cases, ltb, ltb→lt, ◌==◌, if◌then◌else◌,
}
use miranda_dashboard.LogFile.{
  File, LogFileAccessor, unknown, yes, no, page_size, seek_pages, is_last_page,
  skip_to_last_seekable_page, map_next_page, unmap,
}
use miranda_dashboard.LogFile.Reader.{IsMapped}

not_ltb : (a b : ℕ) → ltb a b ≡ false → b ≤ a
not_ltb a b h = ground arith

cached :
    (g : File) (a : LogFileAccessor) (r : Bool)
    → (is_last_page g (record a { is_last_page = if r then yes else no })).0 ≡ r
unfolding is_last_page
cached g a true = refl
cached g a false = refl

-- On a page of the file, asked for the first time there, `IsLastPage` says whether exactly one
-- page comes after it, and says the same until the reader goes on, whatever the file becomes: on
-- the last page it is false, and on the one before it true.
pub is_last_page-one_early :
    (f g : File) (a : LogFileAccessor)
    → IsMapped a
    → a.current < f.pages
    → a.is_last_page ≡ unknown
    → ((is_last_page f a).0 ≡ (suc (suc a.current) == f.pages))
      × ((is_last_page g (is_last_page f a).1).0 ≡ (is_last_page f a).0)
unfolding is_last_page
is_last_page-one_early f g a v h e =
    rw e (ground arith, cached g a (a.offset == f.pages * page_size - page_size))

-- `SkipToLastSeekablePage`, for a reader on a page of the file: if a page comes after the next
-- page that is the start of a section of `seek_pages` pages, it puts the reader at the start of the
-- last such page, and else it leaves it as it was, also where just the next page is such a page.
pub skip_to_last_seekable_page-IsSeekable :
    (f : File) (a : LogFileAccessor)
    → IsMapped a
    → a.current < f.pages
    → let b = skip_to_last_seekable_page f a in
      IsMapped b
      × ((((p : ℕ) × (p % seek_pages ≡ 0) × (a.current + 1 < p) × (p < f.pages))
            × (b.current % seek_pages ≡ 0)
            × (b.position ≡ 0)
            × (b.current < f.pages)
            × ((q : ℕ) → q % seek_pages ≡ 0 → q < f.pages → q ≤ b.current))
          ⊎ (((q : ℕ) → q % seek_pages ≡ 0 → q < f.pages → q ≤ a.current + 1) × (b ≡ a)))
unfolding skip_to_last_seekable_page map_next_page unmap
skip_to_last_seekable_page-IsSeekable f a v h =
    let target = (f.pages - 1) / seek_pages * seek_pages in
    elim (Bool-cases (ltb a.offset (target * page_size))) [
      | inl skips ↦ rw skips (
        omega arith,
        inl (
          (target, omega arith, omega (arith, v, ltb→lt _ _ skips), omega (arith, h)),
          omega arith,
          refl,
          omega (arith, h),
          λ q e lt. omega (arith, e, lt),
        ),
      )
      | inr stays ↦ rw stays (v, inr ((λ q e lt. omega (arith, v, not_ltb _ _ stays, e, lt)), refl))
    ]
