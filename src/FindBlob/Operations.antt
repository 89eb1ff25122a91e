-- ===== src/FindBlob/Operations.antt =====
-- The operations of `BlobDisjointSet`: each succeeds on sets in order, leaves them in order, and
-- the blobs weigh what they did before and the span that is added.
use native.Mathlib.Decide.{ℕ_discrete, dec_lt}
use miranda_dashboard.Base.{
  ℕ, ◌+◌, ◌≤◌, ◌<◌, ◌≡◌, ◌≢◌, refl, sym, ap, subst, ◌∙◌, some, List, [], ◌∷◌, ◌++◌, length, ltb,
  ◌==◌, length-append, length-set, get_elem?, get_elem?-set_self, get_elem?-set_ne, get_elem?-some,
  lt_of_get_elem?, get_elem?-append_left, get_elem?-append_last, set, arith, inl, inr, Bool-cases,
}
use miranda_dashboard.Base.Int.{pos, negsuc}
use miranda_dashboard.Blob.{ImageRange}
use miranda_dashboard.FindBlob.{
  ◌>>=◌, BlobBuilder, BlobDisjointSet, new_builder, find_in, add_to_item, add_to_blob, add_blob,
  link, merge_roots, merge_in_blob,
}
use miranda_dashboard.FindBlob.Weights.{
  Weight, builder_weight, builder_weight-add, builder_weight-merge,
}
use miranda_dashboard.FindBlob.Forest.{IsRoot, roots_sum, Chain-IsRoot, find-Chain}
use miranda_dashboard.FindBlob.Sets.{
  IsForest, nonroots-le, roots_sum-link, roots_sum-item, roots_sum-append, IsForest-link,
  IsForest-append,
}

-- Sets in order, no blob of which starts below row `i`.
pub record IsValid (i : ℕ) (s : BlobDisjointSet) : Type 0 where
  pub same_length : length s.items ≡ length s.ufindl
  pub forest : IsForest s.ufindl
  pub started :
      (b : ℕ) (item : BlobBuilder)
      → get_elem? s.items b ≡ some item
      → (item.mini ≤ i) × (item.img.mini ≡ pos item.mini)

module _ (f : Weight) where
  -- What the blobs weigh.
  abbrev pub weight : BlobDisjointSet → ℕ
  weight s = roots_sum (builder_weight f) s.ufindl s.items

  -- `t` is in order, with the ids of `s` and `n` more weight.
  pub record Gains (i n : ℕ) (s t : BlobDisjointSet) : Type 0 where
    pub valid : IsValid i t
    pub ids : length s.ufindl ≤ length t.ufindl
    pub gained : weight t ≡ weight s + n

  pub Gains-trans :
      {i n m k : ℕ} {s t u : BlobDisjointSet}
      → n + m ≡ k
      → Gains i n s t
      → Gains i m t u
      → Gains i k s u
  Gains-trans total g h = record {
    valid = h.valid;
    ids = omega (arith, g.ids, h.ids);
    gained = omega (arith, g.gained, h.gained);
  }

  find_in-Gains :
      (i : ℕ) (s : BlobDisjointSet) (bid : ℕ)
      → IsValid i s
      → bid < length s.ufindl
      → (root : ℕ) × (t : BlobDisjointSet) × (find_in s bid ≡ some (root, t))
        × IsRoot t.ufindl root
        × (t.items ≡ s.items)
        × (length t.ufindl ≡ length s.ufindl)
        × Gains i 0 s t
        × ((r : ℕ) → IsRoot s.ufindl r → IsRoot t.ufindl r)
  unfolding find_in
  find_in-Gains i s bid v lt =
      let (k, r, le, chain) = v.forest bid lt in
      let (l, found, shorter) =
        find-Chain s.ufindl k (length s.ufindl + 1) bid r chain
          (omega (arith, nonroots-le s.ufindl)) in
      (
        r,
        record s { ufindl = l },
        rw found,
        shorter.roots r (Chain-IsRoot s.ufindl k bid r chain),
        refl,
        shorter.same_length,
        record {
          valid = record {
            same_length = v.same_length ∙ sym shorter.same_length;
            forest = λ b in_l.
                (let (j, q, below, path) = v.forest b (omega (arith, shorter.same_length)) in
                  let (j', le', path') = shorter.chains j b q path in
                  (j', q, omega (arith, shorter.same_nonroots), path'));
            started = v.started;
          };
          ids = omega (arith, shorter.same_length);
          gained = shorter.sums (builder_weight f) s.items ∙ omega arith;
        },
        shorter.roots,
      )

  -- An item is replaced by one that starts in the same row.
  started-set :
      (i r : ℕ) (items : List BlobBuilder) (old new : BlobBuilder)
      → ((b : ℕ) (item : BlobBuilder)
          → get_elem? items b ≡ some item
          → (item.mini ≤ i) × (item.img.mini ≡ pos item.mini))
      → get_elem? items r ≡ some old
      → new.mini ≡ old.mini
      → new.img.mini ≡ old.img.mini
      → (b : ℕ) (item : BlobBuilder) → get_elem? (set items r new) b ≡ some item
      → (item.mini ≤ i) × (item.img.mini ≡ pos item.mini)
  started-set i r items old new all at same same' b item e = elim (ℕ_discrete r b) [
    | yes here ↦
        (let o = all r old at in
          let put = get_elem?-set_self items r new (lt_of_get_elem? items r at) in
          let got : get_elem? (set items r new) r ≡ some item =
            subst (λ t. get_elem? (set items r new) t ≡ some item) (sym here) e in
          let is_new : new ≡ item = cc in
          subst (λ (x : BlobBuilder). (x.mini ≤ i) × (x.img.mini ≡ pos x.mini)) is_new
            (omega arith, same' ∙ o.1 ∙ ap pos (sym same)))
    | no other ↦ all b item (sym (get_elem?-set_ne items new other) ∙ e)
  ]

  add_to_item-Gains :
      (i : ℕ) (s : BlobDisjointSet) (r : ℕ) (rng : ImageRange)
      → IsValid i s
      → IsRoot s.ufindl r
      → (t : BlobDisjointSet) × (add_to_item s r i rng ≡ some t) × Gains i (f i rng) s t
  unfolding add_to_item
  add_to_item-Gains i s r rng v root =
      let (item, at) =
        get_elem?-some s.items r
          (omega (arith, lt_of_get_elem? s.ufindl r root.1, v.same_length)) in
      let (new, added, same, same', more) =
        builder_weight-add f item i rng (v.started r item at).0 in
      (
        record s { items = set s.items r new },
        rw (at, ◌>>=◌, added),
        record {
          valid = record {
            same_length = length-set s.items r new ∙ v.same_length;
            forest = v.forest;
            started = started-set i r s.items item new v.started at same same';
          };
          ids = omega arith;
          gained =
              omega (arith, roots_sum-item (builder_weight f) s.ufindl s.items r new root at, more);
        },
      )

  pub add_to_blob-Gains :
      (i : ℕ) (s : BlobDisjointSet) (bid : ℕ) (rng : ImageRange)
      → IsValid i s
      → bid < length s.ufindl
      → (root : ℕ) × (t : BlobDisjointSet) × (add_to_blob s bid i rng ≡ some (root, t))
        × (root < length t.ufindl)
        × Gains i (f i rng) s t
  unfolding add_to_blob
  add_to_blob-Gains i s bid rng v lt =
      let (r, t, found, root, same, len, g, keeps) = find_in-Gains i s bid v lt in
      let (u, added, h) = add_to_item-Gains i t r rng g.valid root in
      (
        r,
        u,
        rw (found, ◌>>=◌, added),
        omega (arith, lt_of_get_elem? t.ufindl r root.1, h.ids),
        Gains-trans (omega arith) g h,
      )

  started-append :
      (i : ℕ) (items : List BlobBuilder)
      → ((b : ℕ) (item : BlobBuilder)
          → get_elem? items b ≡ some item
          → (item.mini ≤ i) × (item.img.mini ≡ pos item.mini))
      → (b : ℕ) (item : BlobBuilder) → get_elem? (items ++ (new_builder i ∷ [])) b ≡ some item
      → (item.mini ≤ i) × (item.img.mini ≡ pos item.mini)
  started-append i items all b item e = elim (dec_lt b (length items)) [
    | yes old ↦ all b item (sym (get_elem?-append_left items (new_builder i ∷ []) b old) ∙ e)
    | no new ↦
        let at : b ≡ length items =
          omega (arith, lt_of_get_elem? _ b e, length-append items (new_builder i ∷ [])) in
        let got : get_elem? (items ++ (new_builder i ∷ [])) (length items) ≡ some item =
          subst (λ t. get_elem? (items ++ (new_builder i ∷ [])) t ≡ some item) at e in
        let put = get_elem?-append_last items (new_builder i) in
        let is_new : new_builder i ≡ item = cc in
        subst (λ (x : BlobBuilder). (x.mini ≤ i) × (x.img.mini ≡ pos x.mini)) is_new
          (omega arith, refl)
  ]

  pub add_blob-Gains :
      (i : ℕ) (s : BlobDisjointSet) (rng : ImageRange)
      → IsValid i s
      → (bid : ℕ) × (t : BlobDisjointSet) × (add_blob s i rng ≡ some (bid, t))
        × (bid < length t.ufindl)
        × Gains i (f i rng) s t
  unfolding add_blob
  add_blob-Gains i s rng v =
      let longer : BlobDisjointSet = record {
        ufindl = s.ufindl ++ (negsuc 0 ∷ []);
        items = s.items ++ (new_builder i ∷ []);
      } in
      let valid : IsValid i longer = record {
        same_length = omega (
          arith,
          length-append s.items (new_builder i ∷ []),
          length-append s.ufindl (negsuc 0 ∷ []),
          v.same_length,
        );
        forest = IsForest-append s.ufindl v.forest;
        started = started-append i s.items v.started;
      } in
      let g : Gains i 0 s longer = record {
        valid = valid;
        ids = omega (arith, length-append s.ufindl (negsuc 0 ∷ []));
        gained = roots_sum-append (builder_weight f) s.ufindl s.items (new_builder i) v.same_length;
      } in
      let root : IsRoot longer.ufindl (length s.ufindl) =
        (0, get_elem?-append_last s.ufindl (negsuc 0)) in
      let (t, added, h) = add_to_item-Gains i longer (length s.ufindl) rng valid root in
      (
        length s.ufindl,
        t,
        rw added,
        omega (arith, lt_of_get_elem? longer.ufindl (length s.ufindl) root.1, h.ids),
        Gains-trans (omega arith) g h,
      )

  link-Gains :
      (i : ℕ) (s : BlobDisjointSet) (c p : ℕ) {citem pitem : BlobBuilder}
      → IsValid i s
      → IsRoot s.ufindl c
      → IsRoot s.ufindl p
      → p ≢ c
      → get_elem? s.items c ≡ some citem
      → get_elem? s.items p ≡ some pitem
      → citem.mini ≤ pitem.mini
      → (t : BlobDisjointSet) × (link s c p ≡ some t) × Gains i 0 s t
  unfolding link
  link-Gains i s c p {citem = citem} {pitem = pitem} v c_root p_root apart c_at p_at le =
      let (new, merged, same, same', more) = builder_weight-merge f citem pitem le in
      (
        record { ufindl = set s.ufindl p (pos c); items = set s.items c new },
        rw (c_at, p_at, ◌>>=◌, merged),
        record {
          valid = record {
            same_length =
                omega
                  (arith, length-set s.items c new, length-set s.ufindl p (pos c), v.same_length);
            forest = IsForest-link s.ufindl p c p_root c_root apart v.forest;
            started = started-set i c s.items citem new v.started c_at same same';
          };
          ids = omega (arith, length-set s.ufindl p (pos c));
          gained = omega (
            arith,
            roots_sum-link (builder_weight f) s.ufindl (set s.items c new) p c p_root
                (get_elem?-set_ne s.items new (λ e. apart (sym e)) ∙ p_at),
            roots_sum-item (builder_weight f) s.ufindl s.items c new c_root c_at,
            more,
          );
        },
      )

  merge_roots-Gains :
      (i : ℕ) (s : BlobDisjointSet) (c p : ℕ)
      → IsValid i s
      → IsRoot s.ufindl c
      → IsRoot s.ufindl p
      → (t : BlobDisjointSet) × (merge_roots s c p ≡ some t) × Gains i 0 s t
  unfolding merge_roots
  merge_roots-Gains i s c p v c_root p_root =
      let (citem, c_at) =
        get_elem?-some s.items c
          (omega (arith, lt_of_get_elem? s.ufindl c c_root.1, v.same_length)) in
      let (pitem, p_at) =
        get_elem?-some s.items p
          (omega (arith, lt_of_get_elem? s.ufindl p p_root.1, v.same_length)) in
      elim (Bool-cases (c == p)) [
        | inl same ↦ (s, rw same, record { valid = v; ids = omega arith; gained = omega arith })
        | inr apart ↦ elim (Bool-cases (ltb pitem.mini citem.mini)) [
          | inl below ↦
              let (t, linked, g) =
                link-Gains i s p c v p_root c_root (ground arith) p_at c_at (ground arith) in
              (t, rw (apart, c_at, p_at, ◌>>=◌, below) linked, g)
          | inr below ↦
              let (t, linked, g) =
                link-Gains i s c p v c_root p_root (ground arith) c_at p_at (ground arith) in
              (t, rw (apart, c_at, p_at, ◌>>=◌, below) linked, g)
        ]
      ]

  pub merge_in_blob-Gains :
      (i : ℕ) (s : BlobDisjointSet) (cbid pbid : ℕ)
      → IsValid i s
      → cbid < length s.ufindl
      → pbid < length s.ufindl
      → (t : BlobDisjointSet) × (merge_in_blob s cbid pbid ≡ some t) × Gains i 0 s t
  unfolding merge_in_blob
  merge_in_blob-Gains i s cbid pbid v c_lt p_lt =
      let (c, t, c_found, c_root₁, c_same, c_len, g, keeps₁) = find_in-Gains i s cbid v c_lt in
      let (p, u, p_found, p_root, p_same, p_len, h, keeps) =
        find_in-Gains i t pbid g.valid (omega arith) in
      let (w, merged, j) = merge_roots-Gains i u c p h.valid (keeps c c_root₁) p_root in
      (
        w,
        rw (c_found, p_found, ◌>>=◌) merged,
        Gains-trans (omega arith) (Gains-trans {k = 0} (omega arith) g h) j,
      )
