-- ===== src/LogFile/Writing.antt =====
-- The state of a writer, and what GetWritePosition and the setting of a marker do to a log file.
use miranda_dashboard.Base.{
  ℕ, suc, ◌+◌, ◌-◌, ◌*◌, ◌/◌, ◌%◌, ◌≤◌, ◌<◌, ◌≡◌, refl, sym, subst, ap, ◌∙◌, arith, List, true,
  false, Bool-cases, inl, inr,
}
use miranda_dashboard.LogFile.{
  File, LogFileMessageHeader, LogFileAccessor, Reserved, blank, alignment, page_size, futex_size,
  store, ftruncate, set_marker, extend, map_next_page, unmap, align_position, increment_position,
  need_new_page_for, leave_page, force_new_page, take_position, begin_write, end_write,
  get_write_position,
}
use miranda_dashboard.LogFile.Segments.{Grows, Segment, Segment-mark, Segment-Grows, place_after}

-- The writer has the last page mapped, with room for a mark and nothing set from its position on.
pub record IsWriting (f : File) (w : LogFileAccessor) : Type 0 where
  pub mapped : w.offset ≡ suc w.current * page_size
  pub last : f.pages ≡ suc w.current
  pub aligned : w.position % alignment ≡ 0
  pub inside : w.position + futex_size ≤ page_size
  pub ahead : (p : ℕ) → w.position ≤ p → (f.at w.current p).marker ≡ 0
  pub beyond : (c p : ℕ) → w.current < c → (f.at c p).marker ≡ 0

-- A message of this size fits a page, with the mark after it.
abbrev pub Fits : ℕ → Type 0
Fits n = n + (alignment - n % alignment) + futex_size ≤ page_size

-- The writer is past a place of a size where nothing is set yet.
pub record IsReserved (f : File) (w : LogFileAccessor) (page place size : ℕ) : Type 0 where
  pub writing : IsWriting f w
  pub on : page ≡ w.current
  pub after : place_after place size ≡ w.position
  pub unset : (p : ℕ) → place ≤ p → (f.at page p).marker ≡ 0

next_page :
    (w : LogFileAccessor)
    → w.offset ≡ suc w.current * page_size
    → w.offset / page_size ≡ suc w.current
next_page w h = omega (arith, h)

extended :
    (w : LogFileAccessor)
    → w.offset ≡ suc w.current * page_size
    → (w.offset + page_size) / page_size ≡ suc (suc w.current)
extended w h = omega (arith, h)

-- A page is added, with nothing set on it, and the others are kept.
module _ (f : File) (w : LogFileAccessor) (v : IsWriting f w) where
  pages-extend : (extend f w).pages ≡ suc (suc w.current)
  unfolding extend ftruncate
  pages-extend = extended w v.mapped

  at-extend : (c p : ℕ) → c ≤ w.current → (extend f w).at c p ≡ f.at c p
  unfolding extend ftruncate
  at-extend c p h = rw (extended w v.mapped, v.last) (ground arith)

  at-extend_new : (c p : ℕ) → w.current < c → (extend f w).at c p ≡ blank
  unfolding extend ftruncate
  at-extend_new c p h = rw (extended w v.mapped, v.last) (ground arith)

  extend-Grows : Grows f (extend f w)
  extend-Grows = record {
    longer = omega (arith, pages-extend, v.last);
    keeps = λ c p h. at-extend c p (grind (arith, v.beyond c p));
  }

set_marker-Grows : (f : File) (c p v : ℕ) → (f.at c p).marker ≡ 0 → Grows f (set_marker f c p v)
unfolding set_marker store
set_marker-Grows f c p v h = record { longer = omega arith; keeps = λ a b k. ground arith }

set_marker-after : (f : File) (c p v a b : ℕ) → c < a → (set_marker f c p v).at a b ≡ f.at a b
unfolding set_marker store
set_marker-after f c p v a b h = ground arith

Grows-trans : {f g h : File} → Grows f g → Grows g h → Grows f h
Grows-trans {f} {g} u v = record {
  longer = omega (arith, u.longer, v.longer);
  keeps = λ c p k. v.keeps c p (rw (u.keeps c p k) k) ∙ u.keeps c p k;
}

-- A mark in a page leads readers to the new one, where the writer goes on.
module _ (f : File) (w : LogFileAccessor) (v : IsWriting f w) where
  unset_end : (f.at w.current w.position).marker ≡ 0
  unset_end = v.ahead w.position (omega arith)

  unset_extended : ((extend f w).at w.current w.position).marker ≡ 0
  unset_extended =
      ap (λ m. m.marker) (at-extend f w v w.current w.position (omega arith)) ∙ unset_end

  mark-Grows : Grows (extend f w) (force_new_page f w).0
  unfolding force_new_page leave_page
  mark-Grows = set_marker-Grows (extend f w) w.current w.position 2 unset_extended

  pub force-Grows : Grows f (force_new_page f w).0
  unfolding force_new_page leave_page
  force-Grows = Grows-trans (extend-Grows f w v) mark-Grows

  pub marker-force : ((force_new_page f w).0.at w.current w.position).marker ≡ 2
  unfolding force_new_page leave_page set_marker store
  marker-force = ground arith

  pub pages-force : (force_new_page f w).0.pages ≡ suc (suc w.current)
  unfolding force_new_page leave_page set_marker store
  pages-force = pages-extend f w v

  pub current-force : (force_new_page f w).1.current ≡ suc w.current
  unfolding force_new_page leave_page map_next_page unmap
  current-force = next_page w v.mapped

  pub position-force : (force_new_page f w).1.position ≡ 0
  unfolding force_new_page leave_page map_next_page unmap
  position-force = refl

  offset-force : (force_new_page f w).1.offset ≡ w.offset + page_size
  unfolding force_new_page leave_page map_next_page unmap
  offset-force = refl

  at-force : (c p : ℕ) → w.current < c → (force_new_page f w).0.at c p ≡ blank
  unfolding force_new_page leave_page
  at-force c p h =
      set_marker-after (extend f w) w.current w.position 2 c p h ∙ at-extend_new f w v c p h

  pub force-IsWriting : IsWriting (force_new_page f w).0 (force_new_page f w).1
  force-IsWriting = record {
    mapped = offset-force ∙ omega (arith, v.mapped, current-force);
    last = pages-force ∙ ap suc (sym current-force);
    aligned = rw position-force (omega arith);
    inside = rw position-force (omega arith);
    ahead = λ p h. ap (λ m. m.marker) (at-force _ p (omega (arith, current-force)));
    beyond = λ c p h. ap (λ m. m.marker) (at-force c p (omega (arith, current-force)));
  }

-- The place that is taken, on the page where there is room for it.
take-IsReserved :
    (f : File) (w : LogFileAccessor) (n : ℕ)
    → IsWriting f w
    → w.position + n + (alignment - n % alignment) + futex_size ≤ page_size
    → IsReserved f (increment_position w n) w.current w.position n
unfolding increment_position align_position
take-IsReserved f w n v h = record {
  writing = record {
    mapped = v.mapped;
    last = v.last;
    aligned = omega (arith, v.aligned);
    inside = omega (arith, v.aligned);
    ahead = λ p k. v.ahead p (omega arith);
    beyond = v.beyond;
  };
  on = refl;
  after = refl;
  unset = v.ahead;
}

-- Readers of a file from (c, p) on are led to the place that GetWritePosition gives, and it is free.
pub record IsGiven (begun : File) (w : LogFileAccessor) (n : ℕ) (r : Reserved) : Type 0 where
  pub reserved : IsReserved r.file r.writer r.page r.place n
  pub later : w.current ≤ r.writer.current
  pub led :
      (c p : ℕ) (ms : List LogFileMessageHeader)
      → Segment begun c p ms w.current w.position
      → Segment r.file c p ms r.page r.place

current-increment : (w : LogFileAccessor) (n : ℕ) → (increment_position w n).current ≡ w.current
unfolding increment_position align_position
current-increment w n = refl

force-IsGiven :
    (f : File) (w : LogFileAccessor) (n : ℕ)
    → IsWriting f w
    → Fits n
    → 0 < w.position
    → IsGiven (extend f w) w n (take_position n (force_new_page f w))
unfolding take_position
force-IsGiven f w n v fits far =
    let u = force-IsWriting f w v in
    let start = position-force f w v in
    record {
      reserved = take-IsReserved _ _ n u (omega (arith, start));
      later = rw (current-increment (force_new_page f w).1 n) (omega (arith, current-force f w v));
      led = λ c p ms s.
          rw (current-force f w v, position-force f w v)
            (Segment-mark c p ms (mark-Grows f w v) (marker-force f w v)
              (omega (arith, pages-force f w v)) far s);
    }

need-room :
    (w : LogFileAccessor) (n : ℕ)
    → need_new_page_for w n ≡ false
    → w.position + n + (alignment - n % alignment) + futex_size ≤ page_size
unfolding need_new_page_for
need-room w n h = ground arith

need-full : (w : LogFileAccessor) (n : ℕ) → need_new_page_for w n ≡ true → Fits n → 0 < w.position
unfolding need_new_page_for
need-full w n h fits = ground arith

take-IsGiven :
    (f : File) (w : LogFileAccessor) (n : ℕ)
    → IsWriting f w
    → need_new_page_for w n ≡ false
    → IsGiven f w n (take_position n (f, w))
unfolding take_position
take-IsGiven f w n v room = record {
  reserved = take-IsReserved f w n v (need-room w n room);
  later = rw (current-increment w n) (omega arith);
  led = λ c p ms s. s;
}

begin-full :
    (f : File) (w : LogFileAccessor) (n : ℕ)
    → need_new_page_for w n ≡ true
    → (begin_write f w n ≡ extend f w)
      × (get_write_position f w n ≡ take_position n (force_new_page f w))
unfolding begin_write get_write_position end_write force_new_page
begin-full f w n h = rw h (refl, refl)

begin-room :
    (f : File) (w : LogFileAccessor) (n : ℕ)
    → need_new_page_for w n ≡ false
    → (begin_write f w n ≡ f) × (get_write_position f w n ≡ take_position n (f, w))
unfolding begin_write get_write_position end_write
begin-room f w n h = rw h (refl, refl)

Grows-refl : (f : File) → Grows f f
Grows-refl f = record { longer = omega arith; keeps = λ c p h. refl }

-- The file that GetWritePosition has extended, if it has to, has nothing new to read.
module _ (f : File) (w : LogFileAccessor) (n : ℕ) (v : IsWriting f w) where
  pub begin-Grows : Grows f (begin_write f w n)
  begin-Grows = elim (Bool-cases (need_new_page_for w n)) [
    | inl full ↦ subst (Grows f) (sym (begin-full f w n full).0) (extend-Grows f w v)
    | inr room ↦ subst (Grows f) (sym (begin-room f w n room).0) (Grows-refl f)
  ]

  pub marker-begin : ((begin_write f w n).at w.current w.position).marker ≡ 0
  marker-begin = elim (Bool-cases (need_new_page_for w n)) [
    | inl full ↦
        ap (λ (g : File). (g.at w.current w.position).marker) (begin-full f w n full).0
        ∙ unset_extended f w v
    | inr room ↦
        ap (λ (g : File). (g.at w.current w.position).marker) (begin-room f w n room).0
        ∙ unset_end f w v
  ]

  -- From the file so extended on.
  pub end_write-IsGiven : Fits n → IsGiven (begin_write f w n) w n (get_write_position f w n)
  end_write-IsGiven fits = elim (Bool-cases (need_new_page_for w n)) [
    | inl full ↦
        subst (λ g. IsGiven g w n (get_write_position f w n)) (sym (begin-full f w n full).0)
          (subst (IsGiven (extend f w) w n) (sym (begin-full f w n full).1)
            (force-IsGiven f w n v fits (need-full w n full fits)))
    | inr room ↦
        subst (λ g. IsGiven g w n (get_write_position f w n)) (sym (begin-room f w n room).0)
          (subst (IsGiven f w n) (sym (begin-room f w n room).1) (take-IsGiven f w n v room))
  ]

  pub get_write_position-IsGiven : Fits n → IsGiven f w n (get_write_position f w n)
  get_write_position-IsGiven fits =
      let given = end_write-IsGiven fits in
      record {
        reserved = given.reserved;
        later = given.later;
        led = λ c p ms s. given.led c p ms (Segment-Grows c p _ _ ms begin-Grows s);
      }
