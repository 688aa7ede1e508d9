-- ===== src/Zigbee/Light.antt =====
-- zigbee/lights.go: operating a light. What it asks of a device is an interface, `Remote`, over a state
-- and an error of the client's choice. A duration is in nanoseconds.
pub mod Orders
pub mod Carried
use gzb.Base.{
  ℕ, suc, ◌+◌, ◌/◌, ◌%◌, ◌^◌, Bool, true, false, not, ◌&&◌, Option, none, some, List, [], ◌∷◌, ◌==◌,
  ltb, bit_and, if◌then◌else◌, Bytes,
}
use gzb.Base.Int.{ℤ, pos, negsuc}
use gzb.Base.Result.{Result, ok, err}
use gzb.Zcl.Frame.{
  move_to_level_payload, step_level_payload, move_to_hue_and_saturation_payload,
  move_to_color_payload, move_to_color_temperature_payload,
}
use gzb.Zcl.Value.{Value, uint64}
use gzb.Zigbee.Attributes.{AttributeResult}
use gzb.Zigbee.Color.{Reals, Color, is_white_point}
use gzb.Zigbee.Color.Chromaticity.{hue_saturation, to_xy}
use gzb.Zigbee.Command.{Target}

-- `Light`
pub record Light : Type 0 where
  pub node : ℕ
  pub endpoint : ℕ

-- `target`
abbrev pub target : Light → ℕ → Target
target l cluster = record { node = l.node; endpoint = l.endpoint; cluster = cluster }

abbrev pub cluster_on_off : ℕ
cluster_on_off = 0x0006

abbrev pub cluster_level_control : ℕ
cluster_level_control = 0x0008

abbrev pub cluster_color_control : ℕ
cluster_color_control = 0x0300

abbrev pub min_level : ℕ
min_level = 1

abbrev pub max_level : ℕ
max_level = 254

abbrev pub level_step : ℕ
level_step = 64

-- `Has`, of one capability: hue and saturation, xy, colour temperature.
abbrev pub color_hue_saturation : ℕ
color_hue_saturation = 1

abbrev pub color_xy : ℕ
color_xy = 8

abbrev pub color_temperature : ℕ
color_temperature = 16

abbrev pub has_capability : ℕ → ℕ → Bool
has_capability caps want = not (bit_and caps want == 0)

-- `clampLevel`
unfoldable pub clamp_level : ℕ → ℕ
clamp_level level =
    if ltb level min_level then min_level else if ltb max_level level then max_level else level

-- `tenths`: `Round` goes to the nearest tenth, and halves go up.
unfoldable pub tenths : ℤ → ℕ
tenths (negsuc d) = 0
tenths (pos d) = let t = (d + 50000000) / 100000000 in if ltb 65535 t then 65535 else t

-- What a light is asked through: `SendCommand`, `ReadAttributes` as far as a value of an unsigned
-- integer or a status goes, and `WriteAttributes`.
pub record Remote (S E F : Type 0) : Type 0 where
  pub send_command : Target → ℕ → Bytes → S → Result E (Unit {0}) × S
  pub read_attributes : Target → List ℕ → S → Result E (List (ℕ × Option ℕ × Value F)) × S
  pub write_attributes : Target → List (ℕ × ℕ × Value F) → S → Result E (List AttributeResult) × S

pub data LightError (E : Type 0) : Type 0 where
  failed : E → LightError E
  write_refused : ℕ → Option ℕ → LightError E
  only_temperature : LightError E
  no_color : ℕ → LightError E

-- `VerbOn` to `VerbColor`, each with the fields of `Action` that it uses. The word, which is only
-- echoed, is left out.
pub data Action (F : Type 0) : Type 0 where
  turn_on turn_off toggle : Action F
  set_level : ℕ → Action F
  step_level : ℤ → Action F
  set_color : Color F → Action F

-- `Cluster`
unfoldable pub action_cluster : {F : Type 0} → Action F → ℕ
action_cluster turn_on = cluster_on_off
action_cluster turn_off = cluster_on_off
action_cluster toggle = cluster_on_off
action_cluster (set_level n) = cluster_level_control
action_cluster (step_level n) = cluster_level_control
action_cluster (set_color c) = cluster_color_control

-- `mode, size`, with the size cut to the largest level; -(n + 1) is a step of n + 1 down. The least int
-- is its own negation, so that it is not cut, and the conversion to 8 bits takes it to 0.
unfoldable pub step_of : ℤ → ℕ × ℕ
step_of (pos n) = (0, if ltb max_level n then max_level else n)
step_of (negsuc n) =
    (1, if suc n == 2 ^ 63 then 0 else if ltb max_level (suc n) then max_level else suc n)

abbrev pub color_capabilities_attribute : ℕ
color_capabilities_attribute = 0x400A

abbrev pub on_level_attribute : ℕ
on_level_attribute = 0x0011

-- The loop of `ColorCapabilities`: the conversion cuts to 16 bits.
abbrev capability_value : {F : Type 0} → Option ℕ → Value F → Option ℕ
capability_value (some status) v = some color_hue_saturation
capability_value none (uint64 bits) = some (bits % 2 ^ 16)
capability_value none v = none

unfoldable pub capabilities_of : {F : Type 0} → List (ℕ × Option ℕ × Value F) → ℕ
capabilities_of [] = color_hue_saturation
capabilities_of ((id, status, v) ∷ rest) =
    let others = capabilities_of rest in
    if not (id == color_capabilities_attribute)
    then others
    else elim (capability_value status v) [ some caps ↦ caps | none ↦ others ]

-- The loop of `SetOnLevel` over the results.
abbrev all_written : {E : Type 0} → List AttributeResult → Result (LightError E) (Unit {0})
all_written [] = ok tt
all_written (r ∷ rs) = if not r.done then err (write_refused r.id r.status) else all_written rs

module _ {S E F : Type 0} (fl : Reals F) (remote : Remote S E F) where
  open remote use {send_command, read_attributes, write_attributes}

  abbrev pub lifted : Result E (Unit {0}) × S → Result (LightError E) (Unit {0}) × S
  lifted (ok u, s) = (ok u, s)
  lifted (err e, s) = (err (failed e), s)

  -- `Switch` and `Toggle`
  unfoldable pub switch : Light → Bool → S → Result (LightError E) (Unit {0}) × S
  switch l on s = lifted (send_command (target l cluster_on_off) (if on then 0x01 else 0x00) [] s)

  unfoldable pub toggle_light : Light → S → Result (LightError E) (Unit {0}) × S
  toggle_light l s = lifted (send_command (target l cluster_on_off) 0x02 [] s)

  -- `SetLevel` and `StepLevel`
  unfoldable pub set_level_of : Light → ℕ → ℤ → S → Result (LightError E) (Unit {0}) × S
  unfolding clamp_level tenths move_to_level_payload
  set_level_of l level transition s = lifted (
      send_command (target l cluster_level_control) 0x00
        (move_to_level_payload (clamp_level level) (tenths transition)) s)

  unfoldable pub step_level_of : Light → ℤ → ℤ → S → Result (LightError E) (Unit {0}) × S
  unfolding step_of tenths step_level_payload
  step_level_of l delta transition s =
      let (mode, size) = step_of delta in
      lifted (
        send_command (target l cluster_level_control) 0x02
          (step_level_payload mode size (tenths transition)) s)

  -- `SetOnLevel`
  abbrev on_level_written :
      Result E (List AttributeResult) × S → Result (LightError E) (Unit {0}) × S
  on_level_written (ok rs, s) = (all_written rs, s)
  on_level_written (err e, s) = (err (failed e), s)

  unfoldable pub set_on_level : Light → ℕ → S → Result (LightError E) (Unit {0}) × S
  unfolding clamp_level
  set_on_level l level s = on_level_written (
      write_attributes (target l cluster_level_control)
        ((on_level_attribute, 0x20, uint64 (clamp_level level)) ∷ []) s)

  -- `ColorCapabilities`
  abbrev pub known_capabilities :
      Result E (List (ℕ × Option ℕ × Value F)) × S → Result (LightError E) ℕ × S
  known_capabilities (ok values, s) = (ok (capabilities_of values), s)
  known_capabilities (err e, s) = (err (failed e), s)

  unfoldable pub color_capabilities : Light → S → Result (LightError E) ℕ × S
  unfolding capabilities_of
  color_capabilities l s =
      known_capabilities
        (read_attributes (target l cluster_color_control) (color_capabilities_attribute ∷ []) s)

  -- The switch of `SetColor`.
  unfoldable pub send_color : Light → Color F → ℤ → ℕ → S → Result (LightError E) (Unit {0}) × S
  unfolding tenths hue_saturation to_xy move_to_color_temperature_payload
      move_to_hue_and_saturation_payload move_to_color_payload
  send_color l color transition caps s =
      let t = target l cluster_color_control in
      let (hue, saturation) = hue_saturation fl color in
      let (x, y) = to_xy fl color in
      if is_white_point color && has_capability caps color_temperature
      then lifted (
          send_command t 0x0A (move_to_color_temperature_payload color.mireds (tenths transition))
            s)
      else if has_capability caps color_hue_saturation
      then lifted (
          send_command t 0x06
            (move_to_hue_and_saturation_payload hue saturation (tenths transition)) s)
      else if has_capability caps color_xy
      then lifted (send_command t 0x07 (move_to_color_payload x y (tenths transition)) s)
      else if has_capability caps color_temperature
      then (err only_temperature, s)
      else (err (no_color caps), s)

  abbrev pub with_capabilities :
      Light → Color F → ℤ → Result (LightError E) ℕ × S → Result (LightError E) (Unit {0}) × S
  with_capabilities l color transition (ok caps, s) = send_color l color transition caps s
  with_capabilities l color transition (err e, s) = (err e, s)

  -- `SetColor`
  unfoldable pub set_color_of : Light → Color F → ℤ → S → Result (LightError E) (Unit {0}) × S
  unfolding color_capabilities send_color
  set_color_of l color transition s = with_capabilities l color transition (color_capabilities l s)

  -- The switch of `Apply`.
  unfoldable pub perform : Light → ℤ → Action F → S → Result (LightError E) (Unit {0}) × S
  unfolding switch toggle_light set_level_of step_level_of set_color_of
  perform l transition turn_on s = switch l true s
  perform l transition turn_off s = switch l false s
  perform l transition toggle s = toggle_light l s
  perform l transition (set_level n) s = set_level_of l n transition s
  perform l transition (step_level n) s = step_level_of l n transition s
  perform l transition (set_color c) s = set_color_of l c transition s

  -- `Apply`
  abbrev pub unless_failed :
      (S → Result (LightError E) (Unit {0}) × S)
      → Result (LightError E) (Unit {0}) × S
      → Result (LightError E) (Unit {0}) × S
  unless_failed rest (ok u, s) = rest s
  unless_failed rest (err e, s) = (err e, s)

  unfoldable pub apply_actions :
      Light → ℤ → List (Action F) → S → Result (LightError E) (Unit {0}) × S
  unfolding perform
  apply_actions l transition [] s = (ok tt, s)
  apply_actions l transition (a ∷ rest) s =
      unless_failed (apply_actions l transition rest) (perform l transition a s)
