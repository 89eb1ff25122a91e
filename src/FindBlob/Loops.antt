-- ===== src/FindBlob/Loops.antt =====
-- The loops of `find_blobs` over a row: they end, no index is out of range, and the blobs gain the
-- spans of the row.
use miranda_dashboard.Base.{
  ◌>>=◌, ℕ, zero, suc, ◌+◌, ◌≤◌, ◌<◌, ◌≡◌, refl, some, List, [], ◌∷◌, ◌++◌, length, length-append,
  ltb, get_elem?, get_elem?-some, arith, inl, inr, Bool-cases, ◌&&◌,
}
use miranda_dashboard.Base.Int.{ltb_ℤ}
use miranda_dashboard.Blob.{ImageRange}
use miranda_dashboard.FindBlob.{Sweep, last, join, step_row, sweep_row, finish_row}
use miranda_dashboard.FindBlob.Weights.{Weight}
use miranda_dashboard.FindBlob.Operations.{add_to_blob-Gains, merge_in_blob-Gains}
use miranda_dashboard.FindBlob.Rows.{
  AllBelow-get_elem?, InRow, InRow-push, InRow-keep, InRow-mj, InRow-mi, close_span-InRow,
}

module _ (f : Weight) (i w : ℕ) (pids : List ℕ) (pranges cranges : List ImageRange) where
  join-InRow :
      (s : Sweep) (pid : ℕ) {rcur : ImageRange}
      → InRow f i w pids pranges cranges s
      → s.mj < length cranges
      → get_elem? cranges s.mj ≡ some rcur
      → pid < length s.blobs.ufindl
      → (t : Sweep) × (join i pid rcur s ≡ some t)
        × InRow f i w pids pranges cranges t
        × (t.mi ≡ s.mi)
        × (t.mj ≡ s.mj)
        × (length t.cids ≡ s.mj + 1)
  unfolding join
  join-InRow s pid {rcur = rcur} h lt e pid_in = elim (Bool-cases (ltb s.mj (length s.cids))) [
    | inl old ↦
        let (cid, at) = get_elem?-some s.cids s.mj (ground arith) in
        let (t, merged, g) =
          merge_in_blob-Gains f i s.blobs cid pid h.valid
            (AllBelow-get_elem? (length s.blobs.ufindl) s.cids s.mj h.cids_in at) pid_in in
        (
          record s { blobs = t },
          rw (old, at, ◌>>=◌, merged),
          InRow-keep f i w pids pranges cranges s t h g,
          refl,
          refl,
          ground (arith, h.current, h.next),
        )
    | inr new ↦
        let (bid, t, added, below, g) = add_to_blob-Gains f i s.blobs pid rcur h.valid pid_in in
        (
          record s { cids = s.cids ++ (bid ∷ []); blobs = t },
          rw (new, added, ◌>>=◌),
          InRow-push f i w pids pranges cranges s bid t h (ground (arith, h.current)) lt e g below,
          refl,
          refl,
          ground (arith, h.current, length-append s.cids (bid ∷ [])),
        )
  ]

  step_row-InRow :
      (s : Sweep)
      → InRow f i w pids pranges cranges s
      → length pids ≡ length pranges
      → s.mi < length pranges
      → s.mj < length cranges
      → (t : Sweep) × (step_row i pids pranges cranges s ≡ some t)
        × InRow f i w pids pranges cranges t
        × (t.mi + t.mj ≡ s.mi + s.mj + 1)
  unfolding step_row
  step_row-InRow s h sized mi_lt mj_lt =
      let (rprev, p_at) = get_elem?-some pranges s.mi mi_lt in
      let (rcur, c_at) = get_elem?-some cranges s.mj mj_lt in
      elim (Bool-cases (ltb_ℤ (last rcur) rprev.st)) [
        | inl left ↦
            let (t, closed, h', same_mi, next_mj) =
              close_span-InRow f i w pids pranges cranges s h mj_lt c_at in
            (t, rw (p_at, c_at, ◌>>=◌, left) closed, h', omega arith)
        | inr not_left ↦ elim (Bool-cases (ltb_ℤ (last rprev) rcur.st)) [
          | inl right ↦ (
            record s { mi = s.mi + 1 },
            rw (p_at, c_at, ◌>>=◌, not_left, right),
            InRow-mi f i w pids pranges cranges s h mi_lt,
            omega arith,
          )
          | inr meet ↦
              let (pid, pid_at) = get_elem?-some pids s.mi (omega arith) in
              let (t, joined, h', same_mi, same_mj, len) =
                join-InRow s pid h mj_lt c_at
                  (AllBelow-get_elem? (length s.blobs.ufindl) pids s.mi h.pids_in pid_at) in
              elim (Bool-cases (ltb_ℤ (last rcur) (last rprev))) [
                | inl first ↦ (
                  record t { mj = t.mj + 1 },
                  rw (p_at, c_at, ◌>>=◌, not_left, meet, pid_at, joined, first),
                  InRow-mj f i w pids pranges cranges t h' (omega arith) (omega arith),
                  omega arith,
                )
                | inr second ↦ (
                  record t { mi = t.mi + 1 },
                  rw (p_at, c_at, ◌>>=◌, not_left, meet, pid_at, joined, second),
                  InRow-mi f i w pids pranges cranges t h' (omega arith),
                  omega arith,
                )
              ]
        ]
      ]

  pub sweep_row-InRow :
      (rounds : ℕ) (s : Sweep)
      → InRow f i w pids pranges cranges s
      → length pids ≡ length pranges
      → length pranges + length cranges < rounds + (s.mi + s.mj)
      → (t : Sweep) × (sweep_row i pids pranges cranges rounds s ≡ some t)
        × InRow f i w pids pranges cranges t
  unfolding sweep_row
  sweep_row-InRow zero s h sized enough = absurd (omega (arith, h.above, h.column))
  sweep_row-InRow (suc rounds) s h sized enough =
      elim (Bool-cases (ltb s.mi (length pranges) && ltb s.mj (length cranges))) [
        | inl more ↦
            let (t, stepped, h', total) = step_row-InRow s h sized (ground arith) (ground arith) in
            let (u, swept, h'') = sweep_row-InRow rounds t h' sized (omega arith) in
            (u, rw (sweep_row, more, stepped, ◌>>=◌) swept, h'')
        | inr ended ↦ (s, rw (sweep_row, ended), h)
      ]

  pub finish_row-InRow :
      (rounds : ℕ) (s : Sweep)
      → InRow f i w pids pranges cranges s
      → length cranges < rounds + s.mj
      → (t : Sweep) × (finish_row i cranges rounds s ≡ some t)
        × InRow f i w pids pranges cranges t
        × (length cranges ≤ t.mj)
  unfolding finish_row
  finish_row-InRow zero s h enough = absurd (omega (arith, h.column))
  finish_row-InRow (suc rounds) s h enough = elim (Bool-cases (ltb s.mj (length cranges))) [
    | inl more ↦
        let (rcur, at) = get_elem?-some cranges s.mj (ground arith) in
        let (t, closed, h', same_mi, next_mj) =
          close_span-InRow f i w pids pranges cranges s h (ground arith) at in
        let (u, finished, h'', all) = finish_row-InRow rounds t h' (omega arith) in
        (u, rw (finish_row, more, at, ◌>>=◌, closed) finished, h'', all)
    | inr ended ↦ (s, rw (finish_row, ended), h, ground arith)
  ]
