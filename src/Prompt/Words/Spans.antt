-- ===== src/Prompt/Words/Spans.antt =====
-- cmd/gzb/repl_grammar.go: where the words that `tokenize` finds stand on the line.
use gzb.Base.{
  ℕ, ◌+◌, ◌≡◌, ◌≢◌, refl, sym, ap, ◌∙◌, arith, Bool, true, false, not, ◌||◌, ◌&&◌, inl, inr, Option,
  none, some, List, [], ◌∷◌, ◌++◌, append-nil, append_assoc, ◌==◌, if◌then◌else◌, Bool-cases, Bytes,
  All, All-append, length, length-append,
}
use gzb.Prompt.Words.{
  Word, quote, is_space, Place, at_gap, inside, absorb, finished, tokenize_from, tokenize,
}

abbrev pub AreSpaces : Bytes → Type 0
AreSpaces gap = All (λ c. is_space c ≡ true) gap

-- What is left of a stretch of the line without its quotes.
abbrev pub unquoted : Bytes → Bytes
unquoted [] = []
unquoted (c ∷ cs) = if c == quote then unquoted cs else c ∷ unquoted cs

-- A stretch that no space outside of quotes breaks, from inside or outside of quotes; and whether it
-- ends inside.
abbrev pub runs : Bool → Bytes → Option Bool
runs q [] = some q
runs q (c ∷ cs) = if not q && is_space c then none else runs (if c == quote then not q else q) cs

abbrev pub begins_with_space : Bytes → Bool
begins_with_space [] = true
begins_with_space (c ∷ cs) = is_space c

-- From offset `i` on, the line is spaces, the stretch of the first word, and the rest with the other
-- words.
abbrev pub IsLaidOut : ℕ → Bytes → List Word → Type 0
IsLaidOut i line [] = AreSpaces line
IsLaidOut i line (w ∷ ws) =
    (gap : Bytes) × (raw : Bytes) × (rest : Bytes) × (line ≡ gap ++ raw ++ rest)
    × AreSpaces gap
    × (w.start ≡ i + length gap)
    × (w.stop ≡ w.start + length raw)
    × (raw ≢ [])
    × (w.text ≡ unquoted raw)
    × (runs false raw ≡ some w.unclosed)
    × (begins_with_space rest ≡ true)
    × IsLaidOut w.stop rest ws

-- What the loop knows of the bytes behind it.
abbrev Ready : ℕ → ℕ → Bytes → Place → Type 0
Ready i j pre at_gap = AreSpaces pre × (j ≡ i + length pre)
Ready i j pre (inside start text quoted) =
    (gap : Bytes) × (raw : Bytes) × (pre ≡ gap ++ raw)
    × AreSpaces gap
    × (start ≡ i + length gap)
    × (j ≡ start + length raw)
    × (raw ≢ [])
    × (text ≡ unquoted raw)
    × (runs false raw ≡ some quoted)

unquoted-append : (a b : Bytes) → unquoted (a ++ b) ≡ unquoted a ++ unquoted b
unquoted-append [] b = refl
unquoted-append (c ∷ a) b = ground (arith, unquoted-append a b)

runs-append : (q r : Bool) (a b : Bytes) → runs q a ≡ some r → runs q (a ++ b) ≡ runs r b
runs-append q r [] b h = ground arith
runs-append q r (c ∷ a) b h = ground (arith, runs-append (if c == quote then not q else q) r a b)

unquoted-quote :
    (raw : Bytes) (c : ℕ) → (c == quote) ≡ true → unquoted (raw ++ c ∷ []) ≡ unquoted raw
unquoted-quote raw c q = unquoted-append raw (c ∷ []) ∙ rw q (append-nil (unquoted raw))

unquoted_other :
    (raw : Bytes) (c : ℕ) → (c == quote) ≡ false → unquoted (raw ++ c ∷ []) ≡ unquoted raw ++ c ∷ []
unquoted_other raw c q = unquoted-append raw (c ∷ []) ∙ rw q refl

runs_on :
    (raw : Bytes) (quoted : Bool) (c : ℕ)
    → (quoted || not (is_space c)) ≡ true
    → runs false raw ≡ some quoted
    → runs false (raw ++ c ∷ []) ≡ some (if c == quote then not quoted else quoted)
runs_on raw quoted c goes r = runs-append false quoted raw (c ∷ []) r ∙ last_byte quoted c goes
  where
    last_byte :
        (quoted : Bool) (c : ℕ)
        → (quoted || not (is_space c)) ≡ true
        → runs quoted (c ∷ []) ≡ some (if c == quote then not quoted else quoted)
    last_byte true c goes = refl
    last_byte false c goes = elim (Bool-cases (is_space c)) [ inl e ↦ cc | inr e ↦ rw e refl ]

-- Outside of quotes, what ends a word is a space.
ends_word : (quoted : Bool) (c : ℕ) → (quoted || not (is_space c)) ≡ false → is_space c ≡ true
ends_word true c e = cc
ends_word false c e = elim (Bool-cases (is_space c)) [
  | inl h ↦ h
  | inr h ↦ absurd (contradiction h)
]
  where
    contradiction : is_space c ≡ false → ⊥
    contradiction h = ground arith

not_empty : (a : Bytes) (c : ℕ) → (a ++ c ∷ []) ≢ []
not_empty [] c e = cc
not_empty (x ∷ a) c e = cc

word_so_far :
    (i j : ℕ) (pre cs : Bytes) (start : ℕ) (text : Bytes) (quoted : Bool) (ws : List Word)
    → Ready i j pre (inside start text quoted)
    → begins_with_space cs ≡ true
    → IsLaidOut j cs ws
    → IsLaidOut i
        (pre ++ cs)
        (record { text = text; start = start; stop = j; unclosed = quoted } ∷ ws)
word_so_far i j pre cs start text quoted ws (gap, raw, e, sp, s, t, ne, tx, r) b rest =
    (gap, raw, cs, ap (λ (l : Bytes). l ++ cs) e, sp, s, t, ne, tx, r, b, rest)

-- The word begins at the byte after the gap.
begins :
    (i j : ℕ) (pre : Bytes) (c : ℕ)
    → is_space c ≡ false
    → Ready i j pre at_gap
    → Ready i (j + 1) (pre ++ c ∷ []) (absorb j [] false c)
unfolding absorb
begins i j pre c text_byte h = elim (Bool-cases (c == quote)) [
  | inl e ↦ rw e (pre, c ∷ [], refl, h.0, h.1, omega arith, λ x. cc, ground arith, ground arith)
  | inr e ↦ rw e (pre, c ∷ [], refl, h.0, h.1, omega arith, λ x. cc, ground arith, ground arith)
]

continues :
    (i j : ℕ) (pre : Bytes) (start : ℕ) (text : Bytes) (quoted : Bool) (c : ℕ)
    → (quoted || not (is_space c)) ≡ true
    → Ready i j pre (inside start text quoted)
    → Ready i (j + 1) (pre ++ c ∷ []) (absorb start text quoted c)
unfolding absorb
continues i j pre start text quoted c goes (gap, raw, e, sp, s, t, ne, tx, r) =
    elim (Bool-cases (c == quote)) [
      | inl q ↦ rw q (
        gap,
        raw ++ c ∷ [],
        longer,
        sp,
        s,
        measured,
        not_empty raw c,
        tx ∙ sym (unquoted-quote raw c q),
        runs_on raw quoted c goes r ∙ rw q refl,
      )
      | inr q ↦ rw q (
        gap,
        raw ++ c ∷ [],
        longer,
        sp,
        s,
        measured,
        not_empty raw c,
        ap (λ (l : Bytes). l ++ c ∷ []) tx ∙ sym (unquoted_other raw c q),
        runs_on raw quoted c goes r ∙ rw q refl,
      )
    ]
  where
    longer : (pre ++ c ∷ []) ≡ (gap ++ (raw ++ c ∷ []))
    longer = ap (λ (l : Bytes). l ++ c ∷ []) e ∙ append_assoc gap raw (c ∷ [])

    measured : j + 1 ≡ start + length (raw ++ c ∷ [])
    measured = omega (arith, length-append raw (c ∷ []))

one_more :
    (i : ℕ) (pre : Bytes) (c : ℕ) (cs : Bytes) (ws : List Word)
    → IsLaidOut i ((pre ++ c ∷ []) ++ cs) ws
    → IsLaidOut i (pre ++ c ∷ cs) ws
one_more i pre c cs ws h = rw (append_assoc pre (c ∷ []) cs) at h

laid_out :
    (i j : ℕ) (pre : Bytes) (p : Place) (cs : Bytes)
    → Ready i j pre p
    → IsLaidOut i (pre ++ cs) (tokenize_from j p cs)
unfolding tokenize finished
laid_out i j pre at_gap [] h = rw (append-nil pre) h.0
laid_out i j pre (inside start text quoted) [] h =
    word_so_far i j pre [] start text quoted [] h refl tt
laid_out i j pre at_gap (c ∷ cs) h = elim (Bool-cases (is_space c)) [
  | inl e ↦ rw e (
      one_more i pre c cs _ (
        laid_out i (j + 1) (pre ++ c ∷ []) at_gap cs
          (All-append _ pre (c ∷ []) h.0 (e, tt), omega (arith, length-append pre (c ∷ []), h.1))))
  | inr e ↦ rw e (
      one_more i pre c cs _
        (laid_out i (j + 1) (pre ++ c ∷ []) (absorb j [] false c) cs (begins i j pre c e h)))
]
laid_out i j pre (inside start text quoted) (c ∷ cs) h =
    elim (Bool-cases (quoted || not (is_space c))) [
      | inl e ↦ rw e (
          one_more i pre c cs _ (
            laid_out i (j + 1) (pre ++ c ∷ []) (absorb start text quoted c) cs
              (continues i j pre start text quoted c e h)))
      | inr e ↦ rw e (
          word_so_far i j pre (c ∷ cs) start text quoted _ h (ends_word quoted c e)
            (laid_out j (j + 1) (c ∷ []) at_gap cs ((ends_word quoted c e, tt), omega arith)))
    ]

-- The words that `tokenize` finds are laid out on the line in their order: between them stand spaces
-- alone, a word is as long as its offsets say and not empty, no space outside of quotes breaks it, a
-- space or the end of the line follows it, its text is its stretch of the line without the quotes,
-- and it is open if the quotes in that stretch do not come in pairs.
pub tokenize-IsLaidOut : (line : Bytes) → IsLaidOut 0 line (tokenize line)
unfolding tokenize
tokenize-IsLaidOut line = laid_out 0 0 [] at_gap line (tt, refl)
