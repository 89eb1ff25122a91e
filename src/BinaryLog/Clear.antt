-- ===== src/BinaryLog/Clear.antt =====
-- Where the writer forgets its types, so that readers can start there.
use miranda_dashboard.Base.{
  ℕ, suc, ◌+◌, ◌-◌, ◌*◌, ◌/◌, ◌≤◌, ◌<◌, ◌≡◌, ◌⊎◌, inl, inr, refl, sym, ◌∙◌, arith, List, [], true,
  false, not, Bool-cases, ◌==◌, ==_iff, leb, if◌then◌else◌, some,
}
use miranda_dashboard.MessageType.{MessageType}
use miranda_dashboard.LogFile.{
  LogFileMessageHeader, LogFileAccessor, page_size, force_new_page, seek_pages, need_new_page_for,
  should_clear_seekable_data,
}
use miranda_dashboard.LogFile.Segments.{Segment-mark}
use miranda_dashboard.LogFile.Writing.{
  force-Grows, marker-force, pages-force, current-force, position-force, force-IsWriting,
}
use miranda_dashboard.BinaryLog.{Log, is_written, clear_types}
use miranda_dashboard.BinaryLog.Written.{IsLogged, Grown-refl, Writes, Writes-after}

-- The section of pages that the next message is on.
abbrev section : LogFileAccessor → ℕ → ℕ
section w n = (w.offset / page_size - 1 + (if need_new_page_for w n then 1 else 0)) / seek_pages

le→leb : (a b : ℕ) → a ≤ b → leb a b ≡ true
le→leb a b h = ground arith

should_clear-some :
    (w : LogFileAccessor) (cookie n : ℕ)
    → cookie ≤ section w n
    → should_clear_seekable_data w cookie n ≡ some (not (cookie == section w n), section w n)
unfolding should_clear_seekable_data
should_clear-some w cookie n h = rw (le→leb cookie (section w n) h) refl

differ : (a b : ℕ) → a ≡ b → ¬ ((a == b) ≡ false)
differ a b e h = ground arith

module _ (get : ℕ → MessageType) (gap : ℕ → List ℕ) (pid : ℕ) where
  -- No page is left empty: something is on the page of the writer, or it is the first page.
  abbrev pub IsInUse : Log → Type 0
  IsInUse s = (0 < s.writer.position) ⊎ (s.writer.current ≡ 0)

  section_bound :
      (s : Log) (log : List LogFileMessageHeader) (n : ℕ)
      → IsLogged get gap pid s log
      → (s.clear_type_ids_cookie ≤ section s.writer n)
        × (section s.writer n * seek_pages ≤ suc s.writer.current)
  section_bound s log n v = elim (Bool-cases (need_new_page_for s.writer n)) [
    | inl full ↦
        rw full (omega (arith, v.cookie, v.writing.mapped), omega (arith, v.writing.mapped))
    | inr room ↦
        rw room (omega (arith, v.cookie, v.writing.mapped), omega (arith, v.writing.mapped))
  ]

  abbrev forced : Log → ℕ → Log
  forced s cookie = record {
    file = (force_new_page s.file s.writer).0;
    writer = (force_new_page s.file s.writer).1;
    written_type_ids = [];
    clear_type_ids_cookie = cookie;
  }

  abbrev kept : Log → ℕ → Log
  kept s cookie = record s { clear_type_ids_cookie = cookie }

  -- A new page, with the types forgotten.
  forced-IsLogged :
      (s : Log) (log : List LogFileMessageHeader) (cookie : ℕ)
      → IsLogged get gap pid s log
      → 0 < s.writer.position
      → cookie * seek_pages ≤ suc s.writer.current
      → IsLogged get gap pid (forced s cookie) log
  unfolding is_written
  forced-IsLogged s log cookie v far h =
      let f = s.file in
      let w = s.writer in
      let u = v.writing in
      record {
        writing = force-IsWriting f w u;
        left =
            rw (current-force f w u, position-force f w u)
              (Segment-mark 0 0 log (force-Grows f w u) (marker-force f w u)
                (omega (arith, pages-force f w u)) far v.left);
        described = v.described;
        written = λ id k. cc;
        cookie = omega (arith, h, current-force f w u);
      }

  kept-IsLogged :
      (s : Log) (log : List LogFileMessageHeader) (cookie : ℕ)
      → IsLogged get gap pid s log
      → s.clear_type_ids_cookie ≡ cookie
      → IsLogged get gap pid (kept s cookie) log
  kept-IsLogged s log cookie v e = record {
    writing = v.writing;
    left = v.left;
    described = v.described;
    written = v.written;
    cookie = omega (arith, v.cookie, e);
  }

  module _ (s : Log) (n : ℕ) (h : s.clear_type_ids_cookie ≤ section s.writer n) where
    clear_types-same :
        (s.clear_type_ids_cookie == section s.writer n) ≡ true
        → clear_types s n ≡ some (kept s (section s.writer n))
    unfolding clear_types
    clear_types-same e =
        rw (clear_types, should_clear-some s.writer s.clear_type_ids_cookie n h, e) refl

    clear_types-other :
        (s.clear_type_ids_cookie == section s.writer n) ≡ false
        → clear_types s n ≡ some (forced s (section s.writer n))
    unfolding clear_types
    clear_types-other e =
        rw (clear_types, should_clear-some s.writer s.clear_type_ids_cookie n h, e) refl

  in_use_far :
      (s : Log) (log : List LogFileMessageHeader) (n : ℕ)
      → IsLogged get gap pid s log
      → IsInUse s
      → (s.clear_type_ids_cookie == section s.writer n) ≡ false
      → 0 < s.writer.position
  in_use_far s log n v (inl far) e = far
  in_use_far s log n v (inr first) e =
      let (lo, hi) = section_bound s log n v in
      let zero_section : section s.writer n ≡ 0 = omega (arith, hi, first) in
      let zero_cookie : s.clear_type_ids_cookie ≡ 0 = omega (arith, lo, zero_section) in
      absurd (differ _ _ (zero_cookie ∙ sym zero_section) e)

  no_types :
      (s : Log) (log : List LogFileMessageHeader)
      → IsLogged get gap pid s log
      → Writes get gap pid log (some s) (λ l. Unit {0})
  no_types s log v = record {
    state = s;
    result = refl;
    after = log;
    logged = v;
    grown = record { knows = λ id k. k; same = refl };
    holds = tt;
  }

  pub clear_types-Writes :
      (s : Log) (log : List LogFileMessageHeader) (n : ℕ)
      → IsLogged get gap pid s log
      → IsInUse s
      → Writes get gap pid log (clear_types s n) (λ l. Unit {0})
  clear_types-Writes s log n v use_ =
      let (lo, hi) = section_bound s log n v in
      elim (Bool-cases (s.clear_type_ids_cookie == section s.writer n)) [
        | inl same ↦
            Writes-after get gap pid (clear_types-same s n lo same) (Grown-refl get gap pid log)
              (no_types _ log (kept-IsLogged s log (section s.writer n) v ((==_iff _ _).0 same)))
        | inr other ↦
            Writes-after get gap pid (clear_types-other s n lo other) (Grown-refl get gap pid log) (
              no_types _ log
                (forced-IsLogged s log (section s.writer n) v (in_use_far s log n v use_ other) hi))
      ]
