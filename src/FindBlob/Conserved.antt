-- ===== src/FindBlob/Conserved.antt =====
-- `find_blobs` puts every span of an image into one blob.
use miranda_dashboard.Base.{
  ℕ, suc, ◌+◌, ◌≡◌, refl, ap, ◌∙◌, some, List, [], ◌∷◌, ◌++◌, length, length-append, get_elem?,
  take, arith,
}
use miranda_dashboard.Base.Int.{ℤ, pos, negsuc, pos_part}
use miranda_dashboard.Blob.{ImageRange, RangeImage}
use miranda_dashboard.FindBlob.{
  ◌>>=◌, BlobBuilder, BlobDisjointSet, Sweep, start_blob, find_row, find_rows, first_row, get_blobs,
  find_blobs,
}
use miranda_dashboard.FindBlob.Forest.{roots_sum}
use miranda_dashboard.FindBlob.Weights.{Weight, row_weight, rows_weight, builder_weight}
use miranda_dashboard.FindBlob.Operations.{IsValid, weight, add_blob-Gains}
use miranda_dashboard.FindBlob.Rows.{
  AllBelow, AllBelow-mono, AllBelow-append, InRow, row_weight-take_all,
}
use miranda_dashboard.FindBlob.Loops.{sweep_row-InRow, finish_row-InRow}

-- What blobs weigh, each span in its row of the image.
abbrev pub blobs_weight : Weight → List RangeImage → ℕ
blobs_weight f [] = 0
blobs_weight f (b ∷ blobs) = rows_weight f (pos_part b.mini) b.ranges + blobs_weight f blobs

IsValid-next : (i : ℕ) (s : BlobDisjointSet) → IsValid i s → IsValid (i + 1) s
IsValid-next i s v = record {
  same_length = v.same_length;
  forest = v.forest;
  started = λ b item e. (omega (arith, (v.started b item e).0), (v.started b item e).1);
}

-- Between two rows: the sets are in order, and there is an id for each span of the last row.
record Ready (i : ℕ) (row : List ImageRange) (s : Sweep) : Type 0 where
  valid : IsValid i s.blobs
  sized : length s.cids ≡ length row
  cids_in : AllBelow (length s.blobs.ufindl) s.cids

module _ (f : Weight) where
  find_row-Ready :
      (i : ℕ) (s : Sweep) (pranges cranges : List ImageRange)
      → Ready i pranges s
      → (t : Sweep) × (find_row (i + 1) s.cids pranges cranges s.blobs ≡ some t)
        × Ready (i + 1) cranges t
        × (weight f t.blobs ≡ weight f s.blobs + row_weight f (i + 1) cranges)
  unfolding find_row
  find_row-Ready i s pranges cranges r =
      let begin : Sweep = record { mi = 0; mj = 0; cids = []; blobs = s.blobs } in
      let before : InRow f (i + 1) (weight f s.blobs) s.cids pranges cranges begin = record {
        valid = IsValid-next i s.blobs r.valid;
        gained = omega arith;
        above = omega arith;
        current = omega arith;
        next = omega arith;
        within = omega arith;
        column = omega arith;
        cids_in = tt;
        pids_in = r.cids_in;
      } in
      let (t, swept, h) =
        sweep_row-InRow f (i + 1) (weight f s.blobs) s.cids pranges cranges
          (length pranges + length cranges + 1) begin before r.sized (omega arith) in
      let (u, finished, h', all) =
        finish_row-InRow f (i + 1) (weight f s.blobs) s.cids pranges cranges (length cranges + 1) t
          h (omega arith) in
      let sized : length u.cids ≡ length cranges = omega (arith, h'.current, h'.within) in
      (
        u,
        rw (swept, ◌>>=◌) finished,
        record { valid = h'.valid; sized = sized; cids_in = h'.cids_in },
        h'.gained
            ∙ ap (λ (n : ℕ). weight f s.blobs + row_weight f (i + 1) (take n cranges)) sized
            ∙ ap (λ (n : ℕ). weight f s.blobs + n) (row_weight-take_all f (i + 1) cranges),
      )

  find_rows-weight :
      (i : ℕ) (s : Sweep) (pranges : List ImageRange) (rest : List (List ImageRange))
      → Ready i pranges s
      → (t : BlobDisjointSet) × (find_rows (i + 1) s.cids pranges rest s.blobs ≡ some t)
        × ((j : ℕ) × IsValid j t)
        × (weight f t ≡ weight f s.blobs + rows_weight f (i + 1) rest)
  unfolding find_rows
  find_rows-weight i s pranges [] r = (s.blobs, refl, (i, r.valid), omega arith)
  find_rows-weight i s pranges (cranges ∷ rest) r =
      let (t, found, r', more) = find_row-Ready i s pranges cranges r in
      let (u, found', valid, more') = find_rows-weight (i + 1) t cranges rest r' in
      (u, rw (found, ◌>>=◌) found', valid, omega arith)

  first_row-Ready :
      (row done : List ImageRange) (s : Sweep)
      → Ready 0 done s
      → (t : Sweep) × (first_row row s ≡ some t)
        × Ready 0 (done ++ row) t
        × (weight f t.blobs ≡ weight f s.blobs + row_weight f 0 row)
  unfolding first_row start_blob
  first_row-Ready [] done s r = (
    s,
    refl,
    record {
      valid = r.valid;
      sized = omega (arith, r.sized, length-append done []);
      cids_in = r.cids_in;
    },
    omega arith,
  )
  first_row-Ready (rng ∷ row) done s r =
      let (bid, t, added, below, g) = add_blob-Gains f 0 s.blobs rng r.valid in
      let s' : Sweep = record s { cids = s.cids ++ (bid ∷ []); blobs = t } in
      let r' : Ready 0 (done ++ (rng ∷ [])) s' = record {
        valid = g.valid;
        sized =
            omega (arith, r.sized, length-append s.cids (bid ∷ []), length-append done (rng ∷ []));
        cids_in =
            AllBelow-append (length t.ufindl) s.cids bid
              (AllBelow-mono (length s.blobs.ufindl) (length t.ufindl) s.cids g.ids r.cids_in)
              below;
      } in
      let (u, made, r'', more) = first_row-Ready row (done ++ (rng ∷ [])) s' r' in
      (
        u,
        rw (added, ◌>>=◌) made,
        record {
          valid = r''.valid;
          sized = omega (
            arith,
            r''.sized,
            length-append (done ++ (rng ∷ [])) row,
            length-append done (rng ∷ []),
            length-append done (rng ∷ row),
          );
          cids_in = r''.cids_in;
        },
        omega (arith, more, g.gained),
      )

  get_blobs-weight :
      (l : List ℤ) (items : List BlobBuilder)
      → ((b : ℕ) (item : BlobBuilder)
          → get_elem? items b ≡ some item
          → item.img.mini ≡ pos item.mini)
      → blobs_weight f (get_blobs l items) ≡ roots_sum (builder_weight f) l items
  unfolding get_blobs
  get_blobs-weight [] items h = refl
  get_blobs-weight (t ∷ l) [] h = refl
  get_blobs-weight (pos t ∷ l) (item ∷ items) h = get_blobs-weight l items (λ b x e. h (suc b) x e)
  get_blobs-weight (negsuc t ∷ l) (item ∷ items) h = omega (
    arith,
    get_blobs-weight l items (λ b x e. h (suc b) x e),
    ap (λ m. rows_weight f (pos_part m) item.img.ranges) (h 0 item refl),
  )

  -- On every image with a row, whatever its spans, `find_blobs` ends, with no index out of range,
  -- and for any weight of spans in rows its blobs weigh together what the image does: every span
  -- stands in just one blob, once, in the row of the image that it came from, and the blobs hold
  -- nothing else.
  pub find_blobs-weight :
      (row : List ImageRange) (rest : List (List ImageRange)) (rimg : RangeImage)
      → rimg.ranges ≡ row ∷ rest
      → (blobs : List RangeImage) × (find_blobs rimg ≡ some blobs)
        × (blobs_weight f blobs ≡ rows_weight f 0 rimg.ranges)
  unfolding find_blobs
  find_blobs-weight row rest rimg shape =
      let empty : Sweep = record {
        mi = 0;
        mj = 0;
        cids = [];
        blobs = record { ufindl = []; items = [] };
      } in
      let ready : Ready 0 [] empty = record {
        valid = record {
          same_length = refl;
          forest = λ b lt. absurd (omega arith);
          started = λ b item e. cc;
        };
        sized = refl;
        cids_in = tt;
      } in
      let (s, begun, r, more) = first_row-Ready row [] empty ready in
      let (t, found, (j, valid), more') = find_rows-weight 0 s row rest r in
      (
        get_blobs t.ufindl t.items,
        rw (find_blobs, shape, begun, ◌>>=◌, found),
        get_blobs-weight t.ufindl t.items (λ b item e. (valid.started b item e).1)
            ∙ rw shape (omega (arith, more, more')),
      )
