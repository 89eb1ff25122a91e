-- ===== src/LogFile/Segments.antt =====
-- What a reader finds in a log file, from where it is to where the writer is.
use miranda_dashboard.Base.{
  ℕ, suc, ◌+◌, ◌-◌, ◌%◌, ◌≤◌, ◌<◌, ◌≡◌, ◌≢◌, refl, sym, ap, ap₂, ◌∙◌, arith, List, [], ◌∷◌, ◌++◌,
}
use miranda_dashboard.LogFile.{File, LogFileMessageHeader, alignment, page_size, header_size}

-- The bytes of a message, and the place after one of a size.
abbrev pub bytes_of : LogFileMessageHeader → ℕ
bytes_of m = header_size + m.name_size + m.message_size

abbrev pub place_after : ℕ → ℕ → ℕ
place_after position size = position + size + (alignment - (position + size) % alignment)

-- A file that has all that another one has where a marker is set.
pub record Grows (f g : File) : Type 0 where
  pub longer : f.pages ≤ g.pages
  pub keeps : (c p : ℕ) → (f.at c p).marker ≢ 0 → g.at c p ≡ f.at c p

-- A reader at (c, p) looks at (c', p') next: there, or on the page after a mark.
pub data Leads (f : File) (c p c' p' : ℕ) : Type 0 where
  here : c' ≡ c → p' ≡ p → Leads f c p c' p'
  over : (f.at c p).marker ≡ 2 → c' ≡ suc c → p' ≡ 0 → c' < f.pages → Leads f c p c' p'

-- From (c, p) on there are the messages `ms`, up to the place (ec, ep).
abbrev pub Segment : File → ℕ → ℕ → List LogFileMessageHeader → ℕ → ℕ → Type 0
Segment f c p [] ec ep = Leads f c p ec ep
Segment f c p (m ∷ ms) ec ep =
    (c' : ℕ) × (p' : ℕ) × Leads f c p c' p'
    × (f.at c' p' ≡ m)
    × (m.marker ≡ 1)
    × (place_after p' (bytes_of m) < page_size)
    × Segment f c' (place_after p' (bytes_of m)) ms ec ep

Leads-Grows : {f g : File} {c p c' p' : ℕ} → Grows f g → Leads f c p c' p' → Leads g c p c' p'
Leads-Grows v (here e d) = here e d
Leads-Grows {f} {g} {c} {p} v (over marked e d h) =
    over (ap (λ m. m.marker) (v.keeps c p (grind arith)) ∙ marked) e d (omega (arith, v.longer))

is_set : (h n : LogFileMessageHeader) → h ≡ n → n.marker ≡ 1 → h.marker ≢ 0
is_set h n e d = rw (e, d) (λ z. omega arith)

Leads-mark :
    {f g : File} {c p ec ep : ℕ}
    → Grows f g
    → (g.at ec ep).marker ≡ 2
    → suc ec < g.pages
    → 0 < ep
    → Leads f c p ec ep
    → Leads g c p (suc ec) 0
Leads-mark {g = g} v mark longer far (here e d) =
    over (ap₂ (λ x y. (g.at x y).marker) (sym e) (sym d) ∙ mark) (ap suc e) refl longer
Leads-mark v mark longer far (over marked e d h) = absurd (omega arith)

-- A message at the end.
pub Segment-message :
    {f g : File} {ec ep : ℕ} (c p : ℕ) (ms : List LogFileMessageHeader) (m : LogFileMessageHeader)
    → Grows f g
    → g.at ec ep ≡ m
    → m.marker ≡ 1
    → place_after ep (bytes_of m) < page_size
    → Segment f c p ms ec ep
    → Segment g c p (ms ++ m ∷ []) ec (place_after ep (bytes_of m))
Segment-message {ec = ec} {ep = ep} c p [] m v at set fits s =
    (ec, ep, Leads-Grows v s, at, set, fits, here refl refl)
Segment-message c p (n ∷ ms) m v at set fits (c', p', l, at', set', fits', s) = (
  c',
  p',
  Leads-Grows v l,
  v.keeps c' p' (is_set _ n at' set') ∙ at',
  set',
  fits',
  Segment-message c' (place_after p' (bytes_of n)) ms m v at set fits s,
)

-- A file that has more has the same messages.
pub Segment-Grows :
    {f g : File} (c p ec ep : ℕ) (ms : List LogFileMessageHeader)
    → Grows f g
    → Segment f c p ms ec ep
    → Segment g c p ms ec ep
Segment-Grows c p ec ep [] v s = Leads-Grows v s
Segment-Grows c p ec ep (n ∷ ms) v (c', p', l, at', set', fits', s) = (
  c',
  p',
  Leads-Grows v l,
  v.keeps c' p' (is_set _ n at' set') ∙ at',
  set',
  fits',
  Segment-Grows c' (place_after p' (bytes_of n)) ec ep ms v s,
)

-- A mark at the end, which sends readers to the page after.
pub Segment-mark :
    {f g : File} {ec ep : ℕ} (c p : ℕ) (ms : List LogFileMessageHeader)
    → Grows f g
    → (g.at ec ep).marker ≡ 2
    → suc ec < g.pages
    → 0 < ep
    → Segment f c p ms ec ep
    → Segment g c p ms (suc ec) 0
Segment-mark c p [] v mark longer far s = Leads-mark v mark longer far s
Segment-mark c p (n ∷ ms) v mark longer far (c', p', l, at', set', fits', s) = (
  c',
  p',
  Leads-Grows v l,
  v.keeps c' p' (is_set _ n at' set') ∙ at',
  set',
  fits',
  Segment-mark c' (place_after p' (bytes_of n)) ms v mark longer far s,
)
