-- ===== src/Zigbee/Color/Chromaticity.antt =====
-- zigbee/color.go: a colour in the units of the wire, by way of CIE 1931 where the lamp or the colour
-- asks for that.
use gzb.Base.{ℕ, Option, none, some, ◌==◌, if◌then◌else◌}
use gzb.Zigbee.Color.{Reals, Color, is_white_point, hued, num, at_least, color_of_shares}

module _ {F : Type 0} (fl : Reals F) where
  open fl use {
    literal, of_uint, add, sub, mul, div, rem, pow, max_of, min_of, abs, less, equal, to_uint,
    floor,
  }

  abbrev lit : ℕ → ℕ → F
  lit m e = literal m e

  -- `math.Max(0, math.Min(1, x))`
  abbrev pub clamped : F → F
  clamped x = max_of (num fl 0) (min_of (num fl 1) x)

  -- `math.Mod(math.Mod(hue, 360)+360, 360)`
  abbrev pub turned : F → F
  turned hue = rem (add (rem hue (num fl 360)) (num fl 360)) (num fl 360)

  -- The switch of `hueToRGB`, on the sector of the circle.
  abbrev sector : ℕ → F → F → F × F × F
  sector n c x =
      if n == 0
      then (c, x, num fl 0)
      else if n == 1
      then (x, c, num fl 0)
      else if n == 2
      then (num fl 0, c, x)
      else if n == 3
      then (num fl 0, x, c)
      else if n == 4
      then (x, num fl 0, c)
      else (c, num fl 0, x)

  -- `hueToRGB`
  unfoldable pub hue_to_rgb : F → F → F × F × F
  hue_to_rgb hue saturation =
      let h = div (turned hue) (num fl 60) in
      let c = clamped saturation in
      let x = mul c (sub (num fl 1) (abs (sub (rem h (num fl 2)) (num fl 1)))) in
      let m = sub (num fl 1) c in
      let (r, g, b) = sector (floor h) c x in (add r m, add g m, add b m)

  -- `gammaExpand` and `gammaCompress`; the constant 1/2.4 is 5/12.
  unfoldable pub gamma_expand : F → F
  gamma_expand c =
      if at_least fl (lit 4045 5) c
      then div c (lit 1292 2)
      else pow (div (add c (lit 55 3)) (lit 1055 3)) (lit 24 1)

  unfoldable pub gamma_compress : F → F
  gamma_compress c =
      if at_least fl (lit 31308 7) (clamped c)
      then mul (clamped c) (lit 1292 2)
      else sub (mul (lit 1055 3) (pow (clamped c) (div (num fl 5) (num fl 12)))) (lit 55 3)

  -- `planckianXY`, for the temperature in its range: the two polynomials in 1/t, and those in x.
  abbrev locus_x : F → F
  locus_x t =
      if at_least fl (num fl 4000) t
      then add
          (add
            (sub (sub (num fl 0) (div (num fl 266123900) (mul (mul t t) t)))
              (div (lit 2343589 1) (mul t t)))
            (div (lit 8776956 4) t))
          (lit 179910 6)
      else add
          (add
            (add (sub (num fl 0) (div (num fl 3025846900) (mul (mul t t) t)))
              (div (lit 21070379 1) (mul t t)))
            (div (lit 2226347 4) t))
          (lit 240390 6)

  abbrev locus_y : F → F → F
  locus_y t x =
      if at_least fl (num fl 2222) t
      then sub
          (add
            (sub (sub (num fl 0) (mul (mul (mul (lit 11063814 7) x) x) x))
              (mul (mul (lit 134811020 8) x) x))
            (mul (lit 218555832 8) x))
          (lit 20219683 8)
      else if at_least fl (num fl 4000) t
      then sub
          (add
            (sub (sub (num fl 0) (mul (mul (mul (lit 9549476 7) x) x) x))
              (mul (mul (lit 137418593 8) x) x))
            (mul (lit 209137015 8) x))
          (lit 16748867 8)
      else sub
          (add (sub (mul (mul (mul (lit 30817580 7) x) x) x) (mul (mul (lit 587338670 8) x) x))
            (mul (lit 375112997 8) x))
          (lit 37001483 8)

  unfoldable pub planckian_xy : F → F × F
  planckian_xy kelvin =
      let t = max_of (num fl 1667) (min_of (num fl 25000) kelvin) in
      (locus_x t, locus_y t (locus_x t))

  -- `chromaticity`
  unfoldable pub chromaticity_of_rgb : F → F → F → F × F
  chromaticity_of_rgb r g b =
      let x = add (add (mul (lit 4124 4) r) (mul (lit 3576 4) g)) (mul (lit 1805 4) b) in
      let y = add (add (mul (lit 2126 4) r) (mul (lit 7152 4) g)) (mul (lit 722 4) b) in
      let z = add (add (mul (lit 193 4) r) (mul (lit 1192 4) g)) (mul (lit 9505 4) b) in
      let sum = add (add x y) z in
      if equal sum (num fl 0) then (num fl 0, num fl 0) else (div x sum, div y sum)

  unfoldable pub chromaticity : Color F → F × F
  unfolding chromaticity_of_rgb hue_to_rgb gamma_expand planckian_xy
  chromaticity c =
      let (r, g, b) = hue_to_rgb c.hue c.saturation in
      if is_white_point c
      then planckian_xy (div (num fl 1000000) (of_uint c.mireds))
      else chromaticity_of_rgb (gamma_expand r) (gamma_expand g) (gamma_expand b)

  -- `fromXY`; `bigY` is 1.
  unfoldable pub from_rgb : F → F → F → Color F
  unfolding color_of_shares
  from_rgb r g b =
      let top = max_of r (max_of g b) in
      let bottom = min_of r (min_of g b) in
      if at_least fl (num fl 0) top
      then hued fl (num fl 0) (num fl 0)
      else color_of_shares fl r g b top bottom

  abbrev mix : F → F → F → F → F → F → F
  mix kx x ky y kz z = add (add (mul kx x) (mul ky y)) (mul kz z)

  abbrev minus : F → F
  minus a = sub (num fl 0) a

  unfoldable pub from_xy : F → F → Color F
  unfolding from_rgb gamma_compress
  from_xy x y =
      let big_y = num fl 1 in
      let big_x = div (mul x big_y) y in
      let big_z = div (mul (sub (sub (num fl 1) x) y) big_y) y in
      if equal y (num fl 0)
      then hued fl (num fl 0) (num fl 0)
      else from_rgb
          (gamma_compress
            (mix (lit 32406 4) big_x (minus (lit 15372 4)) big_y (minus (lit 4986 4)) big_z))
          (gamma_compress (mix (minus (lit 9689 4)) big_x (lit 18758 4) big_y (lit 415 4) big_z))
          (gamma_compress (mix (lit 557 4) big_x (minus (lit 2040 4)) big_y (lit 10570 4) big_z))

  -- `HueSaturation`
  abbrev in_units : Color F → ℕ × ℕ
  in_units source = (
    to_uint 8 (div (mul (turned source.hue) (num fl 254)) (num fl 360)),
    to_uint 8 (mul (clamped source.saturation) (num fl 254)),
  )

  abbrev or_converted : Option (ℕ × ℕ) → Color F → ℕ × ℕ
  or_converted (some pair) source = pair
  or_converted none source = in_units source

  unfoldable pub hue_saturation : Color F → ℕ × ℕ
  unfolding from_xy chromaticity
  hue_saturation c =
      let (x, y) = chromaticity c in
      or_converted c.exact (if is_white_point c then from_xy x y else c)

  -- `XY`
  unfoldable pub to_xy : Color F → ℕ × ℕ
  unfolding chromaticity
  to_xy c =
      let (x, y) = chromaticity c in
      (to_uint 16 (mul x (num fl 65536)), to_uint 16 (mul y (num fl 65536)))
