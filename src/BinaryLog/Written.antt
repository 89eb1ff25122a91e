-- ===== src/BinaryLog/Written.antt =====
-- What the writer keeps true of its file and of the types that it has written.
use miranda_dashboard.Base.{
  ℕ, zero, suc, ◌+◌, ◌*◌, ◌≤◌, ◌<◌, ◌≡◌, ◌⊎◌, inl, inr, refl, ap, subst, ◌∙◌, arith, List, [], ◌∷◌,
  ◌++◌, true, false, Bool-cases, ◌==◌, ==_iff, if◌then◌else◌, Option, some, ◌>>=◌, length,
  append-nil,
}
use miranda_dashboard.MessageType.{MessageType, Field, is_primitive, serialize}
use miranda_dashboard.LogFile.{LogFileMessageHeader, header_size, seek_pages}
use miranda_dashboard.LogFile.Segments.{Segment, bytes_of}
use miranda_dashboard.LogFile.Writing.{IsWriting, Fits, get_write_position-IsGiven}
use miranda_dashboard.BinaryLog.{
  Log, put, is_written, type_header, write_type, check_fields, check_type_written,
}
use miranda_dashboard.BinaryLog.Publish.{marked, publish-IsWriting, publish-Segment}
use miranda_dashboard.BinaryLog.Described.{
  AllFields, messages, messages-append, Known, Known-append, Has-last, Explained, defined,
  Described, Described-snoc,
}

module _ (get : ℕ → MessageType) (gap : ℕ → List ℕ) (pid : ℕ) where
  -- The file has `log` on it, from its start to where the writer is.
  pub record IsLogged (s : Log) (log : List LogFileMessageHeader) : Type 0 where
    pub writing : IsWriting s.file s.writer
    pub left : Segment s.file 0 0 log s.writer.current s.writer.position
    pub described : Described get gap [] log
    pub written : (id : ℕ) → is_written s.written_type_ids id ≡ true → Known get gap log id
    pub cookie : s.clear_type_ids_cookie * seek_pages ≤ s.writer.current

  -- The log has gone on to `after`, by types only.
  pub record Grown (log after : List LogFileMessageHeader) : Type 0 where
    pub knows : (id : ℕ) → Known get gap log id → Known get gap after id
    pub same : messages after ≡ messages log

  abbrev pub Grown-refl : (log : List LogFileMessageHeader) → Grown log log
  Grown-refl log = record { knows = λ id k. k; same = refl }

  abbrev pub Grown-trans : (a b c : List LogFileMessageHeader) → Grown a b → Grown b c → Grown a c
  Grown-trans a b c u v = record {
    knows = λ id k. v.knows id (u.knows id k);
    same = v.same ∙ u.same;
  }

  pub put-IsLogged :
      (s : Log) (log : List LogFileMessageHeader) (n : ℕ) (h : LogFileMessageHeader)
      → IsLogged s log
      → Fits n
      → bytes_of h ≡ n
      → Explained get gap log (marked h)
      → IsLogged (put s n h) (log ++ marked h ∷ []) × (0 < (put s n h).writer.position)
  unfolding put
  put-IsLogged s log n h v fits size e =
      let given = get_write_position-IsGiven s.file s.writer n v.writing fits in
      let r = given.reserved in
      (
        record {
          writing = publish-IsWriting _ _ _ _ n h r;
          left = publish-Segment _ _ _ _ n h r 0 0 log size (given.led 0 0 log v.left);
          described = Described-snoc get gap [] log (marked h) v.described e;
          written = λ id k. Known-append get gap log (marked h ∷ []) id (v.written id k);
          cookie = omega (arith, v.cookie, given.later);
        },
        omega (arith, r.after),
      )

  -- A type that can be written, with those that it is made of, in so many levels.
  abbrev pub Loggable : ℕ → ℕ → Type 0
  Loggable zero id = ⊥
  Loggable (suc k) id =
      (is_primitive id ≡ true)
      ⊎ ((buffer : List ℕ) × (serialize gap (get id) 1024 ≡ some buffer)
          × (length buffer ≤ 1024)
          × AllFields (Loggable k) (get id).fields)

  -- A step that writes types only, until `P` holds of the log.
  pub record Writes (log : List LogFileMessageHeader) (out : Option Log)
      (P : List LogFileMessageHeader → Type 0) : Type 0 where
    pub state : Log
    pub result : out ≡ some state
    pub after : List LogFileMessageHeader
    pub logged : IsLogged state after
    pub grown : Grown log after
    pub holds : P after

  type-Fits : (n : ℕ) → n ≤ 1024 → Fits (header_size + n)
  type-Fits n h = omega arith

  abbrev with_type : Log → ℕ → Log
  with_type s id = record s { written_type_ids = id ∷ s.written_type_ids }

  is_written-cons :
      (i : ℕ) (is : List ℕ) (j : ℕ)
      → is_written (i ∷ is) j ≡ true
      → (i ≡ j) ⊎ (is_written is j ≡ true)
  unfolding is_written
  is_written-cons i is j h = elim (Bool-cases (i == j)) [
    | inl e ↦ inl ((==_iff i j).0 e)
    | inr d ↦ inr (subst (λ b. (if b then true else is_written is j) ≡ true) d h)
  ]

  either-Known :
      (log : List LogFileMessageHeader) (i j : ℕ) {P : Type 0}
      → (i ≡ j) ⊎ P
      → Known get gap log i
      → (P → Known get gap log j)
      → Known get gap log j
  either-Known log i j (inl e) k f = subst (Known get gap log) e k
  either-Known log i j (inr p) k f = f p

  write_type-some :
      (s : Log) (id : ℕ) (buffer : List ℕ)
      → serialize gap (get id) 1024 ≡ some buffer
      → write_type get gap pid id s
        ≡ with_type (put s (header_size + length buffer) (type_header pid buffer)) id
  unfolding write_type put
  write_type-some s id buffer e = rw (write_type, e) refl

  Writes-type :
      (s : Log) (log : List LogFileMessageHeader) (id : ℕ) (buffer : List ℕ)
      → IsLogged s log
      → serialize gap (get id) 1024 ≡ some buffer
      → length buffer ≤ 1024
      → AllFields (Known get gap log) (get id).fields
      → Writes log (some (write_type get gap pid id s)) (λ l. Known get gap l id)
  unfolding put
  Writes-type s log id buffer v e small known =
      let h = type_header pid buffer in
      let p =
        put-IsLogged s log (header_size + length buffer) h v (type-Fits (length buffer) small)
          (omega arith) (defined id (refl, e) known) in
      let has = Has-last get gap log (marked h) id (refl, e) in
      record {
        state = with_type (put s (header_size + length buffer) h) id;
        result = ap some (write_type-some s id buffer e);
        after = log ++ marked h ∷ [];
        logged = record {
          writing = p.0.writing;
          left = p.0.left;
          described = p.0.described;
          written = λ j k.
              either-Known (log ++ marked h ∷ []) id j (is_written-cons id s.written_type_ids j k)
                (inr has) (λ l. Known-append get gap log (marked h ∷ []) j (v.written j l));
          cookie = p.0.cookie;
        };
        grown = record {
          knows = λ j k. Known-append get gap log (marked h ∷ []) j k;
          same = messages-append log (marked h ∷ []) ∙ append-nil (messages log);
        };
        holds = inr has;
      }

  Writes-fields :
      (check : ℕ → Log → Option Log) (P : ℕ → Type 0)
      → ((id : ℕ)
          → P id
          → (s : Log) (log : List LogFileMessageHeader) → IsLogged s log
          → Writes log (check id s) (λ l. Known get gap l id))
      → (fs : List Field) (s : Log) (log : List LogFileMessageHeader) → AllFields P fs
      → IsLogged s log
      → Writes log (check_fields check fs s) (λ l. AllFields (Known get gap l) fs)
  unfolding check_fields
  Writes-fields check P step [] s log h v = record {
    state = s;
    result = refl;
    after = log;
    logged = v;
    grown = Grown-refl log;
    holds = tt;
  }
  Writes-fields check P step (f ∷ fs) s log h v =
      let a = step f.field_type h.0 s log v in
      let b = Writes-fields check P step fs a.state a.after h.1 a.logged in
      record {
        state = b.state;
        result = rw a.result b.result;
        after = b.after;
        logged = b.logged;
        grown = Grown-trans log a.after b.after a.grown b.grown;
        holds = (b.grown.knows f.field_type a.holds, b.holds);
      }

  unchanged :
      (s : Log) (log : List LogFileMessageHeader) (id : ℕ)
      → IsLogged s log
      → Known get gap log id
      → Writes log (some s) (λ l. Known get gap l id)
  unchanged s log id v k = record {
    state = s;
    result = refl;
    after = log;
    logged = v;
    grown = Grown-refl log;
    holds = k;
  }

  pub Writes-after :
      {log log' : List LogFileMessageHeader} {out out' : Option Log}
      {P : List LogFileMessageHeader → Type 0}
      → out ≡ out'
      → Grown log log'
      → Writes log' out' P
      → Writes log out P
  Writes-after {log} {log'} e g w = record {
    state = w.state;
    result = e ∙ w.result;
    after = w.after;
    logged = w.logged;
    grown = Grown-trans log log' w.after g w.grown;
    holds = w.holds;
  }

  -- A type that is not written yet, after those of its fields.
  Writes-new :
      (check : ℕ → Log → Option Log) (P : ℕ → Type 0)
      → ((id : ℕ)
          → P id
          → (s : Log) (log : List LogFileMessageHeader) → IsLogged s log
          → Writes log (check id s) (λ l. Known get gap l id))
      → (id : ℕ) (buffer : List ℕ) → serialize gap (get id) 1024 ≡ some buffer
      → length buffer ≤ 1024
      → AllFields P (get id).fields
      → (s : Log) (log : List LogFileMessageHeader) → IsLogged s log
      → Writes log
          (check_fields check (get id).fields s >>= λ t. some (write_type get gap pid id t))
          (λ l. Known get gap l id)
  Writes-new check P step id buffer e small h s log v =
      let a = Writes-fields check P step (get id).fields s log h v in
      let b = Writes-type a.state a.after id buffer a.logged e small a.holds in
      Writes-after (rw a.result refl) a.grown b

  module _ (rounds id : ℕ) (s : Log) where
    check_type_written-old :
        is_written s.written_type_ids id ≡ true
        → check_type_written get gap pid (suc rounds) id s ≡ some s
    unfolding check_type_written
    check_type_written-old e = rw (check_type_written, e) refl

    check_type_written-primitive :
        is_written s.written_type_ids id ≡ false
        → is_primitive id ≡ true
        → check_type_written get gap pid (suc rounds) id s ≡ some s
    unfolding check_type_written
    check_type_written-primitive e p = rw (check_type_written, e, p) refl

    check_type_written-new :
        is_written s.written_type_ids id ≡ false
        → is_primitive id ≡ false
        → check_type_written get gap pid (suc rounds) id s ≡ (
            check_fields (check_type_written get gap pid rounds) (get id).fields s >>= λ t.
            some (write_type get gap pid id t))
    unfolding check_type_written check_fields
    check_type_written-new e p = rw (check_type_written, e, p) refl

  -- A type is written after those of its fields, unless it has been.
  pub check_type_written-Writes :
      (rounds id : ℕ)
      → Loggable rounds id
      → (s : Log) (log : List LogFileMessageHeader) → IsLogged s log
      → Writes log (check_type_written get gap pid rounds id s) (λ l. Known get gap l id)
  check_type_written-Writes zero id h s log v = absurd h
  check_type_written-Writes (suc rounds) id h s log v =
      elim (Bool-cases (is_written s.written_type_ids id)) [
        | inl old ↦
            Writes-after (check_type_written-old rounds id s old) (Grown-refl log)
              (unchanged s log id v (v.written id old))
        | inr new ↦ elim (Bool-cases (is_primitive id)) [
          | inl p ↦
              Writes-after (check_type_written-primitive rounds id s new p) (Grown-refl log)
                (unchanged s log id v (inl p))
          | inr q ↦ elim h [
            | inl p ↦
                Writes-after (check_type_written-primitive rounds id s new p) (Grown-refl log)
                  (unchanged s log id v (inl p))
            | inr (buffer, e, small, deep) ↦
                Writes-after (check_type_written-new rounds id s new q) (Grown-refl log) (
                  Writes-new (check_type_written get gap pid rounds) (Loggable rounds)
                    (check_type_written-Writes rounds) id buffer e small deep s log v)
          ]
        ]
      ]
