-- ===== src/FindBlob/Rows.antt =====
-- The loops of `find_blobs` over a row: they end, no index is out of range, and the blobs gain the
-- spans of the row.
use miranda_dashboard.Base.{
  ◌>>=◌, ℕ, zero, suc, ◌+◌, ◌≤◌, ◌<◌, ◌≡◌, refl, ap, ◌∙◌, some, List, [], ◌∷◌, ◌++◌, length,
  length-append, ◌==◌, get_elem?, take, arith, inl, inr, Bool-cases,
}
use miranda_dashboard.Blob.{ImageRange}
use miranda_dashboard.FindBlob.{BlobDisjointSet, Sweep, start_blob, close_span}
use miranda_dashboard.FindBlob.Weights.{Weight, row_weight}
use miranda_dashboard.FindBlob.Operations.{IsValid, weight, Gains, add_blob-Gains}

abbrev pub AllBelow : ℕ → List ℕ → Type 0
AllBelow n [] = Unit {0}
AllBelow n (x ∷ xs) = (x < n) × AllBelow n xs

pub AllBelow-mono : (n m : ℕ) (xs : List ℕ) → n ≤ m → AllBelow n xs → AllBelow m xs
AllBelow-mono n m [] le h = tt
AllBelow-mono n m (x ∷ xs) le h = (omega arith, AllBelow-mono n m xs le h.1)

pub AllBelow-append :
    (n : ℕ) (xs : List ℕ) (x : ℕ) → AllBelow n xs → x < n → AllBelow n (xs ++ (x ∷ []))
AllBelow-append n [] x h lt = (lt, tt)
AllBelow-append n (y ∷ xs) x h lt = (h.0, AllBelow-append n xs x h.1 lt)

pub AllBelow-get_elem? :
    (n : ℕ) (xs : List ℕ) (k : ℕ) {x : ℕ} → AllBelow n xs → get_elem? xs k ≡ some x → x < n
AllBelow-get_elem? n [] k h e = cc
AllBelow-get_elem? n (y ∷ xs) zero h e = ground (arith, h.0)
AllBelow-get_elem? n (y ∷ xs) (suc k) h e = AllBelow-get_elem? n xs k h.1 e

module _ (f : Weight) where
  row_weight-take :
      (i n : ℕ) (row : List ImageRange) {r : ImageRange}
      → get_elem? row n ≡ some r
      → row_weight f i (take (n + 1) row) ≡ row_weight f i (take n row) + f i r
  row_weight-take i n [] e = cc
  row_weight-take i zero (x ∷ row) e = ground arith
  row_weight-take i (suc n) (x ∷ row) e = ground (arith, row_weight-take i n row e)

  pub row_weight-take_all :
      (i : ℕ) (row : List ImageRange) → row_weight f i (take (length row) row) ≡ row_weight f i row
  row_weight-take_all i [] = refl
  row_weight-take_all i (x ∷ row) = ap (λ (n : ℕ). f i x + n) (row_weight-take_all i row)

-- Between two rounds of the loops: the first spans of the row, as many as have ids, are in the
-- blobs, which weighed `w` before.
module _ (f : Weight) (i w : ℕ) (pids : List ℕ) (pranges cranges : List ImageRange) where
  pub record InRow (s : Sweep) : Type 0 where
    pub valid : IsValid i s.blobs
    pub gained : weight f s.blobs ≡ w + row_weight f i (take (length s.cids) cranges)
    pub above : s.mi ≤ length pranges
    pub current : s.mj ≤ length s.cids
    pub next : length s.cids ≤ s.mj + 1
    pub within : length s.cids ≤ length cranges
    pub column : s.mj ≤ length cranges
    pub cids_in : AllBelow (length s.blobs.ufindl) s.cids
    pub pids_in : AllBelow (length s.blobs.ufindl) pids

  -- The current span gets an id.
  pub InRow-push :
      (s : Sweep) (bid : ℕ) (t : BlobDisjointSet) {rcur : ImageRange}
      → InRow s
      → length s.cids ≡ s.mj
      → s.mj < length cranges
      → get_elem? cranges s.mj ≡ some rcur
      → Gains f i (f i rcur) s.blobs t
      → bid < length t.ufindl
      → InRow (record s { cids = s.cids ++ (bid ∷ []); blobs = t })
  InRow-push s bid t {rcur = rcur} h at lt e g below =
      let longer : length (s.cids ++ (bid ∷ [])) ≡ length s.cids + 1 =
        length-append s.cids (bid ∷ []) in
      let e' : get_elem? cranges (length s.cids) ≡ some rcur = ap (get_elem? cranges) at ∙ e in
      record {
        valid = g.valid;
        gained = omega (
          arith,
          g.gained,
          h.gained,
          row_weight-take f i (length s.cids) cranges e',
          ap (λ (n : ℕ). row_weight f i (take n cranges)) longer,
        );
        above = h.above;
        current = omega (arith, h.current);
        next = omega arith;
        within = omega arith;
        column = h.column;
        cids_in =
            AllBelow-append (length t.ufindl) s.cids bid
              (AllBelow-mono (length s.blobs.ufindl) (length t.ufindl) s.cids g.ids h.cids_in)
              below;
        pids_in = AllBelow-mono (length s.blobs.ufindl) (length t.ufindl) pids g.ids h.pids_in;
      }

  -- The blobs change, and weigh the same.
  pub InRow-keep :
      (s : Sweep) (t : BlobDisjointSet)
      → InRow s
      → Gains f i 0 s.blobs t
      → InRow (record s { blobs = t })
  InRow-keep s t h g = record {
    valid = g.valid;
    gained = omega (arith, g.gained, h.gained);
    above = h.above;
    current = h.current;
    next = h.next;
    within = h.within;
    column = h.column;
    cids_in = AllBelow-mono (length s.blobs.ufindl) (length t.ufindl) s.cids g.ids h.cids_in;
    pids_in = AllBelow-mono (length s.blobs.ufindl) (length t.ufindl) pids g.ids h.pids_in;
  }

  pub InRow-mj :
      (s : Sweep)
      → InRow s
      → s.mj < length cranges
      → length s.cids ≡ s.mj + 1
      → InRow (record s { mj = s.mj + 1 })
  InRow-mj s h lt e = record {
    valid = h.valid;
    gained = h.gained;
    above = h.above;
    current = omega arith;
    next = omega arith;
    within = h.within;
    column = omega arith;
    cids_in = h.cids_in;
    pids_in = h.pids_in;
  }

  pub InRow-mi : (s : Sweep) → InRow s → s.mi < length pranges → InRow (record s { mi = s.mi + 1 })
  InRow-mi s h lt = record {
    valid = h.valid;
    gained = h.gained;
    above = omega arith;
    current = h.current;
    next = h.next;
    within = h.within;
    column = h.column;
    cids_in = h.cids_in;
    pids_in = h.pids_in;
  }

  -- A span that has no id yet starts a blob.
  pub start_blob-InRow :
      (s : Sweep) {rcur : ImageRange}
      → InRow s
      → length s.cids ≡ s.mj
      → s.mj < length cranges
      → get_elem? cranges s.mj ≡ some rcur
      → (t : Sweep) × (start_blob i rcur s ≡ some t)
        × InRow t
        × (t.mi ≡ s.mi)
        × (t.mj ≡ s.mj)
        × (length t.cids ≡ s.mj + 1)
  unfolding start_blob
  start_blob-InRow s {rcur = rcur} h at lt e =
      let (bid, t, added, below, g) = add_blob-Gains f i s.blobs rcur h.valid in
      (
        record s { cids = s.cids ++ (bid ∷ []); blobs = t },
        rw (added, ◌>>=◌),
        InRow-push s bid t h at lt e g below,
        refl,
        refl,
        omega (arith, length-append s.cids (bid ∷ [])),
      )

  pub close_span-InRow :
      (s : Sweep) {rcur : ImageRange}
      → InRow s
      → s.mj < length cranges
      → get_elem? cranges s.mj ≡ some rcur
      → (t : Sweep) × (close_span i rcur s ≡ some t) × InRow t × (t.mi ≡ s.mi) × (t.mj ≡ s.mj + 1)
  unfolding close_span
  close_span-InRow s {rcur = rcur} h lt e = elim (Bool-cases (length s.cids == s.mj)) [
    | inl new ↦
        let (t, started, h', same_mi, same_mj, len) = start_blob-InRow s h (ground arith) lt e in
        (
          record t { mj = t.mj + 1 },
          rw (new, started, ◌>>=◌),
          InRow-mj t h' (omega arith) (omega arith),
          same_mi,
          omega arith,
        )
    | inr old ↦ (
      record s { mj = s.mj + 1 },
      rw (old, ◌>>=◌),
      InRow-mj s h lt (ground (arith, h.current, h.next)),
      refl,
      refl,
    )
  ]
