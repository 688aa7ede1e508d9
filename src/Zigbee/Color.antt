-- ===== src/Zigbee/Color.antt =====
-- zigbee/color.go: colours. The floating-point numbers are a parameter, with `math` and
-- `strconv.ParseFloat`; the formulas are those of the source. A text is the list of its code points.
pub mod Chromaticity
use gzb.Base.{
  ℕ, ◌+◌, ◌/◌, ◌%◌, Bool, true, false, not, ◌&&◌, ◌||◌, Option, none, some, List, [], ◌∷◌, ◌==◌,
  leb, if◌then◌else◌, length,
}
use gzb.Base.Strings.{same, has_prefix, text}
use gzb.Base.Letters.{Text, Letters, has_suffix, lower, trim_space, parse_uint}

-- `literal m e` is m / 10 ^ e. `to_uint bits x` is the conversion of `math.Round(x)`.
pub record Reals (F : Type 0) : Type 0 where
  pub literal : ℕ → ℕ → F
  pub of_uint : ℕ → F
  pub add : F → F → F
  pub sub : F → F → F
  pub mul : F → F → F
  pub div : F → F → F
  pub rem : F → F → F
  pub pow : F → F → F
  pub max_of : F → F → F
  pub min_of : F → F → F
  pub abs : F → F
  pub less : F → F → Bool
  pub equal : F → F → Bool
  pub to_uint : ℕ → F → ℕ
  pub floor : F → ℕ
  pub parse_float : Text → Option F

-- `Color`, with the exact pair as an option.
pub record Color (F : Type 0) : Type 0 where
  pub mireds : ℕ
  pub hue : F
  pub saturation : F
  pub exact : Option (ℕ × ℕ)

-- `IsWhitePoint`
abbrev pub is_white_point : {F : Type 0} → Color F → Bool
is_white_point c = not (c.mireds == 0)

-- `strings.CutPrefix` and `strings.CutSuffix`.
abbrev pub drop_prefix : Text → Text → Text
drop_prefix [] s = s
drop_prefix (p ∷ ps) [] = []
drop_prefix (p ∷ ps) (c ∷ cs) = drop_prefix ps cs

unfoldable pub cut_prefix : Text → Text → Option Text
cut_prefix p s = if has_prefix s p then some (drop_prefix p s) else none

abbrev pub drop_last : Text → Text
drop_last [] = []
drop_last (c ∷ []) = []
drop_last (c ∷ d ∷ cs) = c ∷ drop_last (d ∷ cs)

-- Of a suffix of one character.
unfoldable pub cut_last : ℕ → Text → Option Text
cut_last c s = if has_suffix s (c ∷ []) then some (drop_last s) else none

module _ {F : Type 0} (fl : Reals F) where
  open fl use {
    literal, of_uint, add, sub, mul, div, rem, pow, max_of, min_of, abs, less, equal, to_uint,
    floor, parse_float,
  }

  abbrev pub num : ℕ → F
  num n = literal n 0

  -- `Color{Hue: h, Saturation: s}` and `Color{Mireds: m}`.
  abbrev pub hued : F → F → Color F
  hued h s = record { mireds = 0; hue = h; saturation = s; exact = none }

  abbrev pub white : ℕ → Color F
  white m = record { mireds = m; hue = num 0; saturation = num 0; exact = none }

  -- `ExactHueSaturation`
  unfoldable pub exact_hue_saturation : ℕ → ℕ → Color F
  exact_hue_saturation h s = record {
    mireds = 0;
    hue = div (mul (of_uint h) (num 360)) (num 254);
    saturation = div (of_uint s) (num 254);
    exact = some (h, s);
  }

  -- `namedColors`
  unfoldable pub named_colors : List (Text × Color F)
  named_colors =
      (text "red", hued (num 0) (num 1))
      ∷ (text "orange", hued (num 30) (num 1))
      ∷ (text "yellow", hued (num 60) (num 1))
      ∷ (text "green", hued (num 120) (num 1))
      ∷ (text "cyan", hued (num 180) (num 1))
      ∷ (text "blue", hued (num 240) (num 1))
      ∷ (text "purple", hued (num 270) (num 1))
      ∷ (text "magenta", hued (num 300) (num 1))
      ∷ (text "pink", hued (num 330) (literal 5 1))
      ∷ (text "candle", white 500)
      ∷ (text "warm", white 370)
      ∷ (text "soft", white 313)
      ∷ (text "white", white 250)
      ∷ (text "cool", white 200)
      ∷ (text "day", white 154)
      ∷ []

  -- The hue of the larger, the middle and the smaller share, as both conversions have it.
  unfoldable pub hue_of : F → F → F → F → F → F
  hue_of r g b top bottom =
      let spread = sub top bottom in
      if equal top r
      then mul (num 60) (rem (add (div (sub g b) spread) (num 6)) (num 6))
      else if equal top g
      then mul (num 60) (add (div (sub b r) spread) (num 2))
      else mul (num 60) (add (div (sub r g) spread) (num 4))

  -- The colour of three shares, the largest of which is not zero.
  unfoldable pub color_of_shares : F → F → F → F → F → Color F
  unfolding hue_of
  color_of_shares r g b top bottom =
      let saturation = div (sub top bottom) top in
      if equal top bottom
      then hued (num 0) saturation
      else hued (hue_of r g b top bottom) saturation

  unfoldable pub color_of_rgb : F → F → F → Option (Color F)
  unfolding color_of_shares
  color_of_rgb r g b =
      let top = max_of r (max_of g b) in
      let bottom = min_of r (min_of g b) in
      if equal top (num 0) then none else some (color_of_shares r g b top bottom)

  -- `parseHexColor`; six digits are below 2 ^ 24.
  abbrev pub color_of_hex : Option ℕ → Option (Color F)
  color_of_hex none = none
  color_of_hex (some n) =
      color_of_rgb (div (of_uint (n / 65536 % 256)) (num 255))
        (div (of_uint (n / 256 % 256)) (num 255)) (div (of_uint (n % 256)) (num 255))

  unfoldable pub parse_hex_color : Text → Option (Color F)
  unfolding color_of_rgb
  parse_hex_color hex = if not (length hex == 6) then none else color_of_hex (parse_uint 16 32 hex)

  -- `kelvin >= 1000 && kelvin <= 40000`
  abbrev pub at_least : F → F → Bool
  at_least a b = less b a || equal a b

  abbrev pub color_of_kelvin : Option F → Option (Color F)
  color_of_kelvin none = none
  color_of_kelvin (some kelvin) =
      if at_least kelvin (num 1000) && at_least (num 40000) kelvin
      then some (white (to_uint 16 (div (num 1000000) kelvin)))
      else none

  abbrev pub find_color : List (Text × Color F) → Text → Option (Color F)
  find_color [] s = none
  find_color ((name, c) ∷ rest) s =
      let others = find_color rest s in if same name s then some c else others

  -- `ParseColor`, on the text in small letters.
  abbrev hex_or_none : Option Text → Option (Color F)
  hex_or_none none = none
  hex_or_none (some hex) = parse_hex_color hex

  abbrev kelvin_or : Option Text → Option (Color F) → Option (Color F)
  kelvin_or none other = other
  kelvin_or (some t) other = color_of_kelvin (parse_float t)

  abbrev color_or : Option (Color F) → Option (Color F) → Option (Color F)
  color_or none other = other
  color_or (some c) other = some c

  unfoldable pub parse_color_text : Text → Option (Color F)
  unfolding parse_hex_color named_colors cut_prefix cut_last
  parse_color_text t =
      color_or (find_color named_colors t)
        (kelvin_or (cut_last b'k' t) (hex_or_none (cut_prefix (b'#' ∷ []) t)))

  unfoldable pub parse_color : Letters → Text → Option (Color F)
  unfolding parse_color_text
  parse_color letters s = parse_color_text (lower letters (trim_space letters s))
