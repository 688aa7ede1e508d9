-- ===== src/Prompt/Words/Quoting.antt =====
-- cmd/gzb/repl_grammar.go: `tokenize` reads back what `quoteWord` writes.
use mathlib.Core.List.{map-append}
use gzb.Base.{
  ℕ, ◌+◌, ◌≡◌, refl, sym, ap, ap₂, ◌∙◌, arith, true, false, inl, inr, List, [], ◌∷◌, ◌++◌, map,
  append-nil, append_assoc, ◌==◌, Bool-cases, Bytes, All, ◌≢◌, ==_ne,
}
use gzb.Prompt.Words.{
  Word, quote, is_space, Place, at_gap, inside, step, finished, emitted, tokenize_from, tokenize,
  needs_quotes, quote_word,
}

-- `args[i] = w.text`
abbrev pub texts : List Word → List Bytes
texts ws = map (λ (w : Word). w.text) ws

-- A place without its offset: the texts do not depend on where the line begins.
abbrev forget : Place → Place
forget at_gap = at_gap
forget (inside start text quoted) = inside 0 text quoted

step_forgets : (i : ℕ) (p : Place) (c : ℕ) → forget (step i p c) ≡ forget (step 0 (forget p) c)
unfolding step
step_forgets i at_gap c = ground arith
step_forgets i (inside start text quoted) c = ground arith

emitted_forgets :
    (i : ℕ) (p : Place) (c : ℕ) → texts (emitted i p c) ≡ texts (emitted 0 (forget p) c)
unfolding emitted
emitted_forgets i at_gap c = refl
emitted_forgets i (inside start text quoted) c = ground arith

-- What is read from a place on, as texts.
texts_from : Place → Bytes → List Bytes
texts_from p line = texts (tokenize_from 0 (forget p) line)

texts-tokenize_from :
    (i : ℕ) (p : Place) (line : Bytes) → texts (tokenize_from i p line) ≡ texts_from p line
unfolding texts_from tokenize_from finished
texts-tokenize_from i at_gap [] = refl
texts-tokenize_from i (inside start text quoted) [] = refl
texts-tokenize_from i p (c ∷ cs) =
    map-append _ (emitted i p c) _
    ∙ ap₂ ◌++◌ (emitted_forgets i p c) (
        texts-tokenize_from (i + 1) (step i p c) cs
        ∙ ap (λ (t : Place). texts (tokenize_from 0 t cs)) (step_forgets i p c)
        ∙ sym (texts-tokenize_from (0 + 1) (step 0 (forget p) c) cs))
    ∙ sym (map-append _ (emitted 0 (forget p) c) _)

texts-step :
    (p : Place) (c : ℕ) (cs : Bytes)
    → texts_from p (c ∷ cs) ≡ texts (emitted 0 (forget p) c) ++ texts_from (step 0 (forget p) c) cs
unfolding texts_from tokenize_from
texts-step p c cs =
    map-append _ (emitted 0 (forget p) c) _
    ∙ ap (λ (t : List Bytes). texts (emitted 0 (forget p) c) ++ t)
        (texts-tokenize_from (0 + 1) (step 0 (forget p) c) cs)

-- Without a quote, and not empty: what can be typed as a word.
abbrev pub IsTypable : Bytes → Type 0
IsTypable w = (w ≢ []) × All (λ c. c ≢ quote) w

-- Between quotes all is text.
texts_quoted :
    (text w rest : Bytes)
    → All (λ c. c ≢ quote) w
    → texts_from (inside 0 text true) (w ++ quote ∷ rest)
      ≡ texts_from (inside 0 (text ++ w) false) rest
unfolding step emitted
texts_quoted text [] rest h =
    texts-step (inside 0 text true) quote rest
    ∙ ap (λ (t : Bytes). texts_from (inside 0 t false) rest) (sym (append-nil text))
texts_quoted text (c ∷ w) rest h =
    texts-step (inside 0 text true) c (w ++ quote ∷ rest)
    ∙ rw (==_ne c quote h.0) (
        texts_quoted (text ++ c ∷ []) w rest h.1
        ∙ ap (λ (t : Bytes). texts_from (inside 0 t false) rest) (append_assoc text (c ∷ []) w))

-- Outside of quotes it is as far as the next space or quote.
texts_plain :
    (text w rest : Bytes)
    → needs_quotes w ≡ false
    → texts_from (inside 0 text false) (w ++ rest) ≡ texts_from (inside 0 (text ++ w) false) rest
unfolding step emitted needs_quotes
texts_plain text [] rest h =
    ap (λ (t : Bytes). texts_from (inside 0 t false) rest) (sym (append-nil text))
texts_plain text (c ∷ w) rest h =
    let no_space : is_space c ≡ false = ground arith in
    let no_quote : (c == quote) ≡ false = ground arith in
    let others : needs_quotes w ≡ false = ground arith in
    texts-step (inside 0 text false) c (w ++ rest)
    ∙ rw (no_space, no_quote)
        (texts_plain (text ++ c ∷ []) w rest others
          ∙ ap (λ (t : Bytes). texts_from (inside 0 t false) rest) (append_assoc text (c ∷ []) w))

-- A word as `quoteWord` writes it, from its first byte on.
texts-quote_word :
    (w rest : Bytes)
    → IsTypable w
    → texts_from at_gap (quote_word w ++ rest) ≡ texts_from (inside 0 w false) rest
unfolding quote_word step emitted
texts-quote_word [] rest h = absurd (h.0 refl)
texts-quote_word (c ∷ w) rest h = elim (Bool-cases (needs_quotes (c ∷ w))) [
  | inl quoted ↦ rw (quoted, quote_word) in_quotes
  | inr plain ↦ rw (plain, quote_word) (as_it_is plain)
]
  where
    in_quotes :
        texts_from at_gap ((quote ∷ (c ∷ w ++ quote ∷ [])) ++ rest)
        ≡ texts_from (inside 0 (c ∷ w) false) rest
    in_quotes =
        texts-step at_gap quote ((c ∷ w ++ quote ∷ []) ++ rest)
        ∙ ap (λ (t : Bytes). texts_from (inside 0 [] true) t)
            (append_assoc (c ∷ w) (quote ∷ []) rest)
        ∙ texts_quoted [] (c ∷ w) rest h.1

    as_it_is :
        needs_quotes (c ∷ w) ≡ false
        → texts_from at_gap ((c ∷ w) ++ rest) ≡ texts_from (inside 0 (c ∷ w) false) rest
    as_it_is plain =
        let no_space : is_space c ≡ false = ground arith in
        let no_quote : (c == quote) ≡ false = ground arith in
        let others : needs_quotes w ≡ false = ground arith in
        texts-step at_gap c (w ++ rest)
        ∙ rw (no_space, no_quote) (texts_plain (c ∷ []) w rest others)

-- A space ends a word.
texts_gap :
    (w rest : Bytes) → texts_from (inside 0 w false) (32 ∷ rest) ≡ w ∷ texts_from at_gap rest
unfolding step emitted finished
texts_gap w rest = texts-step (inside 0 w false) 32 rest

texts_last : (w : Bytes) → texts_from (inside 0 w false) [] ≡ w ∷ []
unfolding texts_from tokenize_from finished
texts_last w = refl

texts_empty : texts_from at_gap [] ≡ []
unfolding texts_from tokenize_from finished
texts_empty = refl

-- The words on a line, each as `quoteWord` writes it.
pub join_quoted : List Bytes → Bytes
join_quoted [] = []
join_quoted (w ∷ []) = quote_word w
join_quoted (w ∷ v ∷ ws) = quote_word w ++ 32 ∷ join_quoted (v ∷ ws)

texts-join_quoted : (ws : List Bytes) → All IsTypable ws → texts_from at_gap (join_quoted ws) ≡ ws
unfolding join_quoted
texts-join_quoted [] h = texts_empty
texts-join_quoted (w ∷ []) h =
    ap (texts_from at_gap) (sym (append-nil (quote_word w)))
    ∙ texts-quote_word w [] h.0
    ∙ texts_last w
texts-join_quoted (w ∷ v ∷ ws) h =
    texts-quote_word w (32 ∷ join_quoted (v ∷ ws)) h.0
    ∙ texts_gap w (join_quoted (v ∷ ws))
    ∙ ap (λ (t : List Bytes). w ∷ t) (texts-join_quoted (v ∷ ws) h.1)

-- A line of words, none of them empty or with a quote in it, each written by `quoteWord` and a space
-- between one and the next, is read by `tokenize` as exactly these words, in their order.
pub tokenize-join_quoted :
    (ws : List Bytes) → All IsTypable ws → texts (tokenize (join_quoted ws)) ≡ ws
unfolding tokenize join_quoted
tokenize-join_quoted ws h = (texts-tokenize_from 0 at_gap (join_quoted ws)) ∙ texts-join_quoted ws h
