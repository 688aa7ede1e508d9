-- ===== src/Ash/Scanner/Stream.antt =====
-- internal/ash/conn.go: `next` against a scan of the whole stream of bytes.
use gzb.Base.{
  Option-cases, ℕ, ◌≡◌, ◌≢◌, refl, ap, ◌∙◌, arith, Option, none, some, List, [], ◌∷◌, ◌++◌, inl,
  inr, Bytes,
}
use gzb.Ash.Scanner.{
  ReadError, eof, ReadResult, Scanned, discarded, body, failed, Partial, Scanner, at_flag,
  scan_byte, drain, failure_after, next_from, next,
}

abbrev emit : Option Scanned → List Scanned → List Scanned
emit none rs = rs
emit (some r) rs = r ∷ rs

-- The results that a stream of bytes yields, one for each flag.
unfoldable pub scan : Partial → Bytes → List Scanned
scan p [] = []
scan p (b ∷ bs) = let (p', found) = scan_byte p b in emit found (scan p' bs)

abbrev pub unless : Option ReadError → Bytes → Bytes
unless none bs = bs
unless (some e) bs = []

-- What the port still delivers: the reads up to the first that fails or is empty.
pub delivered : List ReadResult → Bytes
delivered [] = []
delivered (r ∷ rs) = r.bytes ++ unless (failure_after r) (delivered rs)

-- All that the scanner has yet to go through.
abbrev pub stream : Scanner → Bytes
stream s = s.pend ++ unless s.failure (delivered s.reads)

-- After `next` has returned the first result, the scanner stands before the others.
abbrev pub Resumes : Scanned → Scanner → List Scanned → Type 0
Resumes discarded s rs = rs ≡ discarded ∷ scan s.partial (stream s)
Resumes (body b) s rs = rs ≡ body b ∷ scan s.partial (stream s)
Resumes (failed e) s rs = rs ≡ []

-- Draining the pending bytes and going on with what is left is one scan of them all.
drain-scan :
    (bs : Bytes) (p : Partial) (more : Bytes)
    → scan p (bs ++ more)
      ≡ (let (p', rest, found) = drain p bs in emit found (scan p' (rest ++ more)))
unfolding scan drain
drain-scan [] p more = refl
drain-scan (b ∷ bs) p more =
    found_cases (scan_byte p b).1 (scan_byte p b).0 (λ q. drain-scan bs q more)
  where
    found_cases :
        (found : Option Scanned) (p' : Partial)
        → ((q : Partial)
            → scan q (bs ++ more)
              ≡ emit (drain q bs).2 (scan (drain q bs).0 ((drain q bs).1 ++ more)))
        → emit found (scan p' (bs ++ more)) ≡ (
            let step : Partial × Bytes × Option Scanned = elim found [
              | none ↦ drain p' bs
              | some r ↦ (p', bs, some r)
            ] in
            emit step.2 (scan step.0 (step.1 ++ more)))
    found_cases none p' ih = ih p'
    found_cases (some r) p' ih = refl

-- Where the pending bytes hold no end of a frame, they are used up.
drain_used_up : (bs : Bytes) (p : Partial) → (drain p bs).2 ≡ none → (drain p bs).1 ≡ []
unfolding drain
drain_used_up [] p e = refl
drain_used_up (b ∷ bs) p e =
    found_cases (scan_byte p b).1 (scan_byte p b).0 (λ q. drain_used_up bs q) e
  where
    found_cases :
        (found : Option Scanned) (p' : Partial)
        → ((q : Partial) → (drain q bs).2 ≡ none → (drain q bs).1 ≡ [])
        → (let step : Partial × Bytes × Option Scanned = elim found [
          | none ↦ drain p' bs
          | some r ↦ (p', bs, some r)
        ] in
            step.2 ≡ none → step.1 ≡ [])
    found_cases none p' ih = ih p'
    found_cases (some r) p' ih = λ e. cc

emitted :
    (r : Scanned)
    → ((e : ReadError) → r ≢ failed e)
    → (s : Scanner) (rs : List Scanned) → rs ≡ scan s.partial (stream s)
    → Resumes r s (r ∷ rs)
emitted discarded h s rs e = ap (◌∷◌ discarded) e
emitted (body b) h s rs e = ap (◌∷◌ (body b)) e
emitted (failed x) h s rs e = absurd (h x refl)

scan_byte-ne-failed : (p : Partial) (b : ℕ) (e : ReadError) → (scan_byte p b).1 ≢ some (failed e)
unfolding scan_byte at_flag
scan_byte-ne-failed p b e h = ground arith

drain-ne-failed : (bs : Bytes) (p : Partial) (e : ReadError) → (drain p bs).2 ≢ some (failed e)
unfolding drain
drain-ne-failed [] p e h = cc
drain-ne-failed (b ∷ bs) p e h =
    ground (arith, scan_byte-ne-failed p b e, drain-ne-failed bs (scan_byte p b).0 e)

-- Nothing more comes, so the pending bytes are all.
exhausted : (p : Partial) (pend : Bytes) → (drain p pend).2 ≡ none → scan p (pend ++ []) ≡ []
unfolding scan
exhausted p pend e = drain-scan pend p [] ∙ rw (e, drain_used_up pend p e) refl

found_first :
    (p : Partial) (pend more : Bytes) (s : Scanner) (r : Scanned)
    → (drain p pend).2 ≡ some r
    → (drain p pend).0 ≡ s.partial
    → (drain p pend).1 ++ more ≡ stream s
    → Resumes r s (scan p (pend ++ more))
found_first p pend more s r e e0 e1 =
    rw (drain-scan pend p more, e)
      (emitted r (λ x f. drain-ne-failed pend p x (e ∙ ap some f)) s _ (rw (e0, e1) refl))

module _ (p : Partial) (pend : Bytes) (failure : Option ReadError) where
  next_from_found :
      (rs : List ReadResult) (r : Scanned)
      → (drain p pend).2 ≡ some r
      → next_from p pend failure rs ≡ (
        r,
        record {
          partial = (drain p pend).0;
          pend = (drain p pend).1;
          failure = failure;
          reads = rs;
        },
      )
  unfolding next_from
  next_from_found [] r e = ground arith
  next_from_found (x ∷ rs) r e = ground arith

  next_from_failed :
      (rs : List ReadResult) (e : ReadError)
      → (drain p pend).2 ≡ none
      → failure ≡ some e
      → (next_from p pend failure rs).0 ≡ failed e
  unfolding next_from
  next_from_failed [] r e f = ground arith
  next_from_failed (x ∷ rs) r e f = ground arith

  next_from_end :
      (drain p pend).2 ≡ none → failure ≡ none → (next_from p pend failure []).0 ≡ failed eof
  unfolding next_from
  next_from_end e f = ground arith

  next_from_more :
      (r : ReadResult) (rs : List ReadResult)
      → (drain p pend).2 ≡ none
      → failure ≡ none
      → next_from p pend failure (r ∷ rs) ≡ next_from (drain p pend).0 r.bytes (failure_after r) rs
  unfolding next_from
  next_from_more r rs e f = ground arith

abbrev ResumesAt : Scanned × Scanner → List Scanned → Type 0
ResumesAt t rs = Resumes t.0 t.1 rs

failed-ResumesAt :
    (t : Scanned × Scanner) (e : ReadError) (rs : List Scanned)
    → t.0 ≡ failed e
    → rs ≡ []
    → ResumesAt t rs
failed-ResumesAt t e rs h k = rw h k

-- All the cases but the one that reads the port again.
pending_or :
    (rs : List ReadResult) (p : Partial) (pend : Bytes) (failure : Option ReadError)
    → ((drain p pend).2 ≡ none
        → failure ≡ none
        → ResumesAt (next_from p pend failure rs) (scan p (pend ++ unless failure (delivered rs))))
    → ResumesAt (next_from p pend failure rs) (scan p (pend ++ unless failure (delivered rs)))
pending_or rs p pend failure again = elim (Option-cases (drain p pend).2) [
  | inr (r, e) ↦
      rw (next_from_found p pend failure rs r e)
        (found_first p pend (unless failure (delivered rs)) _ r e refl refl)
  | inl e ↦ elim (Option-cases failure) [
    | inr (x, f) ↦
        failed-ResumesAt _ x _ (next_from_failed p pend failure rs x e f)
          (rw f (exhausted p pend e))
    | inl f ↦ again e f
  ]
]

next_from-scan :
    (rs : List ReadResult) (p : Partial) (pend : Bytes) (failure : Option ReadError)
    → ResumesAt (next_from p pend failure rs) (scan p (pend ++ unless failure (delivered rs)))
unfolding delivered
next_from-scan [] p pend failure =
    pending_or [] p pend failure
      λ e f. failed-ResumesAt _ eof _ (next_from_end p pend failure e f) (rw f (exhausted p pend e))
next_from-scan (r ∷ rs) p pend failure = pending_or (r ∷ rs) p pend failure λ e f.
    rw
      (
        next_from_more p pend failure r rs e f,
        f,
        drain-scan pend p (delivered (r ∷ rs)),
        e,
        drain_used_up pend p e,
      )
      (next_from-scan rs (drain p pend).0 r.bytes (failure_after r))

-- However the port cuts the stream into reads, `next` returns the first result of a scan of all
-- the bytes still to come and stands before the other results; it fails only once those bytes
-- hold no end of a frame.
pub next-scan : (s : Scanner) → Resumes (next s).0 (next s).1 (scan s.partial (stream s))
unfolding next
next-scan s = next_from-scan s.reads s.partial s.pend s.failure
