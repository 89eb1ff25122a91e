-- ===== src/LogFile/Reader.antt =====
-- What ReadNextMessage returns, where there are messages and where there are none yet.
use miranda_dashboard.Base.{
  ℕ, suc, ◌*◌, ◌<◌, ◌≡◌, refl, sym, subst, ap₂, ◌∙◌, arith, List, [], ◌∷◌, Bool, false, lt→ltb,
  ◌==◌, if◌then◌else◌, Option, some,
}
use miranda_dashboard.LogFile.{
  File, LogFileMessageHeader, LogFileAccessor, page_size, Reading, message, null, waits,
  finish_read, turn_page, find_header, read_next_message, map_next_page, unmap, align_position,
  increment_position,
}
use miranda_dashboard.LogFile.Segments.{Segment, Leads, here, over, place_after, bytes_of}

-- A reader has its page mapped.
abbrev pub IsMapped : LogFileAccessor → Type 0
IsMapped a = a.offset ≡ suc a.current * page_size

-- What a reader is to get of the messages that it has not read, and what is left.
abbrev pub expected : Bool → List LogFileMessageHeader → Reading × List LogFileMessageHeader
expected wait [] = (if wait then waits else null, [])
expected wait (m ∷ ms) = (message m, ms)

-- A result of a read that leaves the reader before `ms`.
pub record Reads (f : File) (out : Option (Reading × LogFileAccessor)) (r : Reading)
    (ms : List LogFileMessageHeader) (ec ep : ℕ) : Type 0 where
  pub reader : LogFileAccessor
  pub result : out ≡ some (r, reader)
  pub mapped : IsMapped reader
  pub left : Segment f reader.current reader.position ms ec ep

finish-none :
    (f : File) (wait : Bool) (h : LogFileMessageHeader) (a : LogFileAccessor)
    → h.marker ≡ 0
    → IsMapped a
    → Reads f (finish_read wait h a) (if wait then waits else null) [] a.current a.position
unfolding finish_read
finish-none f wait h a e v = record {
  reader = a;
  result = rw e refl;
  mapped = v;
  left = here refl refl;
}

finish-message :
    (f : File) (wait : Bool) (h : LogFileMessageHeader) (a : LogFileAccessor)
    (ms : List LogFileMessageHeader) (ec ep : ℕ)
    → h.marker ≡ 1
    → IsMapped a
    → place_after a.position (bytes_of h) < page_size
    → Segment f a.current (place_after a.position (bytes_of h)) ms ec ep
    → Reads f (finish_read wait h a) (message h) ms ec ep
unfolding finish_read increment_position align_position
finish-message f wait h a ms ec ep e v fits s = record {
  reader = increment_position a (bytes_of h);
  result = rw e (ground arith);
  mapped = v;
  left = s;
}

-- The reader after it has turned to the page after.
abbrev turned : LogFileAccessor → LogFileAccessor
turned a = map_next_page (unmap a)

current-turned : (a : LogFileAccessor) → IsMapped a → (turned a).current ≡ suc a.current
unfolding map_next_page unmap
current-turned a v = omega (arith, v)

position-turned : (a : LogFileAccessor) → (turned a).position ≡ 0
unfolding map_next_page unmap
position-turned a = refl

IsMapped-turned : (a : LogFileAccessor) → IsMapped a → IsMapped (turned a)
unfolding map_next_page unmap
IsMapped-turned a v = omega (arith, v)

turn_page-next :
    (f : File) (a : LogFileAccessor)
    → IsMapped a
    → suc a.current < f.pages
    → turn_page f a ≡ some (turned a)
unfolding turn_page
turn_page-next f a v h =
    rw (lt→ltb (turned a).current f.pages (omega (arith, current-turned a v))) refl

find_header-mark :
    (f : File) (a : LogFileAccessor)
    → IsMapped a
    → (f.at a.current a.position).marker ≡ 2
    → suc a.current < f.pages
    → find_header f a ≡ some (turned a)
unfolding find_header
find_header-mark f a v marked h = rw marked (turn_page-next f a v h)

no_mark : (n : ℕ) → n < 2 → (n == 2) ≡ false
no_mark n h = ground arith

find_header-here :
    (f : File) (a : LogFileAccessor)
    → (f.at a.current a.position).marker < 2
    → find_header f a ≡ some a
unfolding find_header
find_header-here f a h = rw (no_mark (f.at a.current a.position).marker h) refl

-- A reader that finds its header at `b`.
module _ (f : File) (wait : Bool) (a b : LogFileAccessor) (found : find_header f a ≡ some b)
    (v : IsMapped b) where
  read-none :
      (f.at b.current b.position).marker ≡ 0
      → Reads f (read_next_message f wait a) (if wait then waits else null) [] b.current b.position
  unfolding read_next_message
  read-none e = rw found (finish-none f wait (f.at b.current b.position) b e v)

  read-message :
      (m : LogFileMessageHeader) (ms : List LogFileMessageHeader) (ec ep : ℕ)
      → f.at b.current b.position ≡ m
      → m.marker ≡ 1
      → place_after b.position (bytes_of m) < page_size
      → Segment f b.current (place_after b.position (bytes_of m)) ms ec ep
      → Reads f (read_next_message f wait a) (message m) ms ec ep
  unfolding read_next_message
  read-message m ms ec ep at set fits s =
      rw (found, at) (finish-message f wait m b ms ec ep set v fits s)

-- The place to which a reader is led is where it finds its header.
record Finds (f : File) (a : LogFileAccessor) (c p : ℕ) : Type 0 where
  header : LogFileAccessor
  found : find_header f a ≡ some header
  mapped : IsMapped header
  page : header.current ≡ c
  place : header.position ≡ p

Leads-Finds :
    (f : File) (a : LogFileAccessor) (c p : ℕ)
    → IsMapped a
    → Leads f a.current a.position c p
    → (f.at c p).marker < 2
    → Finds f a c p
Leads-Finds f a c p v (here e d) h = record {
  header = a;
  found = find_header-here f a (rw (sym e, sym d) h);
  mapped = v;
  page = sym e;
  place = sym d;
}
Leads-Finds f a c p v (over marked e d longer) h = record {
  header = turned a;
  found = find_header-mark f a v marked (omega arith);
  mapped = IsMapped-turned a v;
  page = current-turned a v ∙ sym e;
  place = position-turned a ∙ sym d;
}

-- A reader with `ms` before it gets the first of them, or nothing if there is none.
pub read_next_message-Reads :
    (f : File) (wait : Bool) (a : LogFileAccessor) (ms : List LogFileMessageHeader) (ec ep : ℕ)
    → IsMapped a
    → (f.at ec ep).marker ≡ 0
    → Segment f a.current a.position ms ec ep
    → Reads f (read_next_message f wait a) (expected wait ms).0 (expected wait ms).1 ec ep
read_next_message-Reads f wait a [] ec ep v e l =
    let at = Leads-Finds f a ec ep v l (omega (arith, e)) in
    subst (λ x. Reads f (read_next_message f wait a) (if wait then waits else null) [] x ep) at.page
      (subst
        (λ y.
          Reads f (read_next_message f wait a) (if wait then waits else null) [] at.header.current
            y)
        at.place
        (read-none f wait a at.header at.found at.mapped
          (ap₂ (λ x y. (f.at x y).marker) at.page at.place ∙ e)))
read_next_message-Reads f wait a (m ∷ ms) ec ep v e (c, p, l, is_m, set, fits, s) =
    let at = Leads-Finds f a c p v l (rw is_m (omega (arith, set))) in
    read-message f wait a at.header at.found at.mapped m ms ec ep (ap₂ f.at at.page at.place ∙ is_m)
      set (rw at.place fits) (rw (at.page, at.place) s)
