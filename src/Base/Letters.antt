-- ===== src/Base/Letters.antt =====
-- The functions of Go's `strings`, `strconv` and `unicode` that look into a text. A text is the list of
-- its code points here, and what Unicode says of a code point is a parameter.
pub mod Fields
use Prim.Native.Nat.{ℕ, ◌+◌, ◌-◌, ◌*◌, ◌^◌}
use mathlib.Core.Path.{◌≡◌}
use mathlib.Core.Bool.{Bool, true, false, ◌&&◌, ◌||◌}
use mathlib.Core.Option.{Option, none, some}
use mathlib.Core.List.{List, [], ◌∷◌, ◌++◌, map}
use gzb.Base.Tests.{◌==◌, ltb, leb, if◌then◌else◌}
use gzb.Base.Strings.{same, has_prefix}

abbrev pub Text : Type 0
Text = List ℕ

-- `to_fold` gives one code point for all that `unicode.SimpleFold` joins; `width` counts the bytes of
-- the encoding in UTF-8.
pub record Letters : Type 0 where
  pub is_space : ℕ → Bool
  pub is_control : ℕ → Bool
  pub to_lower : ℕ → ℕ
  pub to_upper : ℕ → ℕ
  pub to_fold : ℕ → ℕ
  pub width : ℕ → ℕ

abbrev pub is_blank : Text → Bool
is_blank [] = true
is_blank (c ∷ cs) = false

-- `strings.HasSuffix` and `strings.Contains`
unfoldable pub has_suffix : Text → Text → Bool
has_suffix [] p = is_blank p
has_suffix (c ∷ cs) p = same (c ∷ cs) p || has_suffix cs p

unfoldable pub contains : Text → Text → Bool
contains [] p = is_blank p
contains (c ∷ cs) p = has_prefix (c ∷ cs) p || contains cs p

-- `strings.Join(words, " ")`
unfoldable pub join : List Text → Text
join [] = []
join (w ∷ []) = w
join (w ∷ v ∷ ws) = w ++ 32 ∷ join (v ∷ ws)

module _ (letters : Letters) where
  open letters use {is_space, is_control, to_lower, to_upper, to_fold, width}

  -- `strings.ToLower`, `strings.ToUpper` and `strings.EqualFold`
  abbrev pub lower : Text → Text
  lower s = map to_lower s

  abbrev pub upper : Text → Text
  upper s = map to_upper s

  unfoldable pub equal_fold : Text → Text → Bool
  equal_fold s t = same (map to_fold s) (map to_fold t)

  -- `len(s)`
  unfoldable pub byte_length : Text → ℕ
  byte_length [] = 0
  byte_length (c ∷ cs) = width c + byte_length cs

  -- `strings.TrimSpace`
  unfoldable pub trim_left : Text → Text
  trim_left [] = []
  trim_left (c ∷ cs) = if is_space c then trim_left cs else c ∷ cs

  unfoldable pub trim_right : Text → Text
  trim_right [] = []
  trim_right (c ∷ cs) =
      let rest = trim_right cs in if is_blank rest && is_space c then [] else c ∷ rest

  unfoldable pub trim_space : Text → Text
  unfolding trim_left trim_right
  trim_space s = trim_right (trim_left s)

  -- `strings.Fields`, with the field that is being read.
  abbrev pub flush : Text → List Text
  flush [] = []
  flush (c ∷ cs) = (c ∷ cs) ∷ []

  unfoldable pub fields_from : Text → Text → List Text
  fields_from word [] = flush word
  fields_from word (c ∷ cs) =
      (if is_space c then flush word else [])
      ++ fields_from (if is_space c then [] else word ++ c ∷ []) cs

  unfoldable pub fields : Text → List Text
  unfolding fields_from
  fields s = fields_from [] s

  unfoldable pub has_control : Text → Bool
  has_control [] = false
  has_control (c ∷ cs) = is_control c || has_control cs

-- `strings.Split(s, sep)`, with the part that is being read.
unfoldable pub split_from : ℕ → Text → Text → List Text
split_from sep part [] = part ∷ []
split_from sep part (c ∷ cs) =
    (if c == sep then part ∷ [] else [])
    ++ split_from sep (if c == sep then [] else part ++ c ∷ []) cs

unfoldable pub split : ℕ → Text → List Text
unfolding split_from
split sep s = split_from sep [] s

-- A digit of `strconv.ParseUint`; base 10 has the first ten.
abbrev pub digit_value : ℕ → Option ℕ
digit_value c =
    if leb 48 c && leb c 57
    then some (c - 48)
    else if leb 97 c && leb c 122
    then some (c - 87)
    else if leb 65 c && leb c 90
    then some (c - 55)
    else none

abbrev digit_below : ℕ → Option ℕ → Option ℕ
digit_below base none = none
digit_below base (some d) = if ltb d base then some d else none

unfoldable pub parse_digits : ℕ → ℕ → Text → Option ℕ
parse_digits base value [] = some value
parse_digits base value (c ∷ cs) = elim (digit_below base (digit_value c)) [
  | some d ↦ parse_digits base (value * base + d) cs
  | none ↦ none
]

abbrev below : ℕ → Option ℕ → Option ℕ
below limit none = none
below limit (some v) = if ltb v limit then some v else none

-- `strconv.ParseUint(s, base, bits)`, for a base that is given.
unfoldable pub parse_uint : ℕ → ℕ → Text → Option ℕ
unfolding parse_digits
parse_uint base bits s = if is_blank s then none else below (2 ^ bits) (parse_digits base 0 s)
