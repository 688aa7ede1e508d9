-- ===== src/Prompt/Words.antt =====
-- cmd/gzb/repl_grammar.go: a line and its words. A line is its bytes, and the two loops of `tokenize`
-- are one pass that knows whether it stands inside a word.
pub mod Spans
pub mod Quoting
pub mod Common
use gzb.Base.{
  ℕ, zero, suc, ◌+◌, Bool, true, false, not, ◌&&◌, ◌||◌, List, [], ◌∷◌, ◌++◌, ◌==◌, if◌then◌else◌,
  Bytes, length, take,
}
use gzb.Base.Strings.{has_prefix}

pub record Word : Type 0 where
  pub text : Bytes
  pub start : ℕ
  pub stop : ℕ
  pub unclosed : Bool

abbrev pub quote : ℕ
quote = b'"'

-- `isSpace`
abbrev pub is_space : ℕ → Bool
is_space c = c == 32 || c == 9

-- Between words, or in the word that starts at an offset, with its text so far and `quoted`.
pub data Place : Type 0 where
  at_gap : Place
  inside : ℕ → Bytes → Bool → Place

-- The body of the inner loop.
unfoldable pub absorb : ℕ → Bytes → Bool → ℕ → Place
absorb start text quoted c =
    if c == quote then inside start text (not quoted) else inside start (text ++ c ∷ []) quoted

unfoldable pub step : ℕ → Place → ℕ → Place
unfolding absorb
step i at_gap c = if is_space c then at_gap else absorb i [] false c
step i (inside start text quoted) c =
    if quoted || not (is_space c) then absorb start text quoted c else at_gap

-- `words = append(words, w)`, where the inner loop ends at offset `i`.
unfoldable pub finished : ℕ → Place → List Word
finished i at_gap = []
finished i (inside start text quoted) =
    record { text = text; start = start; stop = i; unclosed = quoted } ∷ []

unfoldable pub emitted : ℕ → Place → ℕ → List Word
unfolding finished
emitted i at_gap c = []
emitted i (inside start text quoted) c =
    if quoted || not (is_space c) then [] else finished i (inside start text quoted)

unfoldable pub tokenize_from : ℕ → Place → Bytes → List Word
tokenize_from i place [] = finished i place
tokenize_from i place (c ∷ cs) = emitted i place c ++ tokenize_from (i + 1) (step i place c) cs

-- `tokenize`
unfoldable pub tokenize : Bytes → List Word
unfolding tokenize_from step emitted
tokenize line = tokenize_from 0 at_gap line

-- `strings.ContainsAny(s, " \t\"")`
unfoldable pub needs_quotes : Bytes → Bool
needs_quotes [] = false
needs_quotes (c ∷ cs) = is_space c || c == quote || needs_quotes cs

-- `quoteWord`
unfoldable pub quote_word : Bytes → Bytes
unfolding needs_quotes
quote_word s = if needs_quotes s then quote ∷ (s ++ quote ∷ []) else s

-- `quotePartial`
unfoldable pub any_needs_quotes : List Bytes → Bool
unfolding needs_quotes
any_needs_quotes [] = false
any_needs_quotes (c ∷ cs) = needs_quotes c || any_needs_quotes cs

unfoldable pub quote_partial : Bytes → List Bytes → Bytes
unfolding any_needs_quotes
quote_partial prefix candidates = if any_needs_quotes candidates then quote ∷ prefix else prefix

-- The inner loop of `commonPrefix`: `n` bytes of the prefix are left.
unfoldable pub shorten : ℕ → Bytes → Bytes → Bytes
shorten zero prefix c = []
shorten (suc n) prefix c =
    let rest = shorten n prefix c in
    if has_prefix c (take (suc n) prefix) then take (suc n) prefix else rest

unfoldable pub common_from : Bytes → List Bytes → Bytes
unfolding shorten
common_from prefix [] = prefix
common_from prefix (c ∷ cs) = common_from (shorten (length prefix) prefix c) cs

-- `commonPrefix`
unfoldable pub common_prefix : List Bytes → Bytes
unfolding common_from
common_prefix [] = []
common_prefix (c ∷ cs) = common_from c cs
