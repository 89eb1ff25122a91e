-- ===== src/BinaryLog/Publish.antt =====
-- A message that is published stands at its place, and nothing else in the file changes.
use miranda_dashboard.Base.{ℕ, ◌<◌, ◌≡◌, refl, ap, subst, ◌∙◌, arith, List, [], ◌∷◌, ◌++◌}
use miranda_dashboard.LogFile.{File, LogFileMessageHeader, LogFileAccessor, store, set_marker}
use miranda_dashboard.LogFile.Segments.{
  Grows, Segment, Segment-message, Segment-Grows, bytes_of, place_after,
}
use miranda_dashboard.LogFile.Writing.{IsWriting, IsReserved}
use miranda_dashboard.BinaryLog.{fill, publish}

-- A message with its marker set.
abbrev pub marked : LogFileMessageHeader → LogFileMessageHeader
marked m = record m { marker = 1 }

module _ (f : File) (page place : ℕ) (m : LogFileMessageHeader) where
  at-publish : (publish f page place m).at page place ≡ marked m
  unfolding publish fill set_marker store
  at-publish = ground arith

  at-publish_later : (p : ℕ) → place < p → (publish f page place m).at page p ≡ f.at page p
  unfolding publish fill set_marker store
  at-publish_later p h = ground arith

  at-publish_beyond : (c p : ℕ) → page < c → (publish f page place m).at c p ≡ f.at c p
  unfolding publish fill set_marker store
  at-publish_beyond c p h = ground arith

  -- Before the marker is set, the message is not there for readers.
  marker-fill : ((fill f page place m).at page place).marker ≡ (f.at page place).marker
  unfolding fill store
  marker-fill = ground arith

  fill-Grows : (f.at page place).marker ≡ 0 → Grows f (fill f page place m)
  unfolding fill store
  fill-Grows e = record { longer = omega arith; keeps = λ a b k. ground arith }

  mark-Grows : (f.at page place).marker ≡ 0 → Grows (fill f page place m) (publish f page place m)
  unfolding publish fill set_marker store
  mark-Grows e = record { longer = omega arith; keeps = λ a b k. ground arith }

  pages-publish : (publish f page place m).pages ≡ f.pages
  unfolding publish fill set_marker store
  pages-publish = refl

module _ (f : File) (w : LogFileAccessor) (page place n : ℕ) (m : LogFileMessageHeader)
    (v : IsReserved f w page place n) where
  before : place < w.position
  before = omega (arith, v.after)

  pub publish-IsWriting : IsWriting (publish f page place m) w
  publish-IsWriting = record {
    mapped = v.writing.mapped;
    last = pages-publish f page place m ∙ v.writing.last;
    aligned = v.writing.aligned;
    inside = v.writing.inside;
    ahead = λ p h.
        subst (λ c. ((publish f page place m).at c p).marker ≡ 0) v.on
          (ap (λ (x : LogFileMessageHeader). x.marker)
              (at-publish_later f page place m p (omega (arith, before, h)))
            ∙ v.unset p (omega (arith, before, h)));
    beyond = λ c p h.
        ap (λ x. x.marker) (at-publish_beyond f page place m c p (omega (arith, v.on, h)))
        ∙ v.writing.beyond c p h;
  }

  pub filled_unset : ((fill f page place m).at page place).marker ≡ 0
  filled_unset = marker-fill f page place m ∙ v.unset place (omega arith)

  pub fill-Segment :
      (c p : ℕ) (ms : List LogFileMessageHeader)
      → Segment f c p ms page place
      → Segment (fill f page place m) c p ms page place
  fill-Segment c p ms s =
      Segment-Grows c p page place ms (fill-Grows f page place m (v.unset place (omega arith))) s

  -- Once the marker is set, readers find it after what they had before them.
  pub mark-Segment :
      (c p : ℕ) (ms : List LogFileMessageHeader)
      → bytes_of m ≡ n
      → Segment (fill f page place m) c p ms page place
      → Segment (publish f page place m) c p (ms ++ marked m ∷ []) w.current w.position
  mark-Segment c p ms size s =
      let end : place_after place (bytes_of m) ≡ w.position =
        ap (place_after place) size ∙ v.after in
      subst (λ x. Segment (publish f page place m) c p (ms ++ marked m ∷ []) x w.position) v.on
        (subst (Segment (publish f page place m) c p (ms ++ marked m ∷ []) page) end (
          Segment-message c p ms (marked m)
            (mark-Grows f page place m (v.unset place (omega arith))) (at-publish f page place m)
            refl (omega (arith, end, v.writing.inside)) s))

  pub publish-Segment :
      (c p : ℕ) (ms : List LogFileMessageHeader)
      → bytes_of m ≡ n
      → Segment f c p ms page place
      → Segment (publish f page place m) c p (ms ++ marked m ∷ []) w.current w.position
  publish-Segment c p ms size s = mark-Segment c p ms size (fill-Segment c p ms s)
