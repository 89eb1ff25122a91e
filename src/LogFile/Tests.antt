-- ===== src/LogFile/Tests.antt =====
-- A file of three hundred pages.
use miranda_dashboard.Base.{ℕ, ◌≡◌, refl, arith, suc, ◌+◌, ◌*◌, ◌%◌, ◌≤◌, ◌<◌, ◌⊎◌, ◌==◌}
use miranda_dashboard.LogFile.{
  File, LogFileAccessor, blank, unknown, seek_pages, is_last_page, skip_to_last_seekable_page,
}
use miranda_dashboard.LogFile.Reader.{IsMapped}
use miranda_dashboard.LogFile.Seeking.{
  is_last_page-one_early, skip_to_last_seekable_page-IsSeekable,
}

abbrev file : File
file = record { pages = 300; at = λ c p. blank }

abbrev on_page : ℕ → LogFileAccessor
on_page n = record { offset = suc n * 16384; current = n; position = 40; is_last_page = unknown }

is_last_page-one_early_example :
    ((is_last_page file (on_page 298)).0 ≡ (300 == 300))
    × ((is_last_page file (is_last_page file (on_page 298)).1).0
        ≡ (is_last_page file (on_page 298)).0)
is_last_page-one_early_example =
    is_last_page-one_early file file (on_page 298) refl (omega arith) refl

skip_to_last_seekable_page-IsSeekable_example :
    let b = skip_to_last_seekable_page file (on_page 3) in
    IsMapped b
    × ((((p : ℕ) × (p % seek_pages ≡ 0) × (3 + 1 < p) × (p < 300))
          × (b.current % seek_pages ≡ 0)
          × (b.position ≡ 0)
          × (b.current < 300)
          × ((q : ℕ) → q % seek_pages ≡ 0 → q < 300 → q ≤ b.current))
        ⊎ (((q : ℕ) → q % seek_pages ≡ 0 → q < 300 → q ≤ 3 + 1) × (b ≡ on_page 3)))
skip_to_last_seekable_page-IsSeekable_example =
    skip_to_last_seekable_page-IsSeekable file (on_page 3) refl (omega arith)
