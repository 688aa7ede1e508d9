-- ===== src/Zigbee/Light/Carried.antt =====
-- zigbee/lights.go: a light is told its actions, each with the command that stands for it, in order.
use gzb.Base.{
  ℕ, suc, ◌≤◌, ◌≡◌, refl, subst, Bool, true, false, Option, some, List, [], ◌∷◌, ltb, ◌==◌, ◌^◌,
  if◌then◌else◌, ◌&&◌, arith,
}
use gzb.Base.Int.{ℤ, pos, negsuc}
use gzb.Base.Result.{Result, ok, err}
use gzb.Zcl.Frame.{
  move_to_level_payload, step_level_payload, move_to_hue_and_saturation_payload,
  move_to_color_payload, move_to_color_temperature_payload,
}
use gzb.Zcl.Value.{Value}
use gzb.Zigbee.Color.{Reals, Color, is_white_point}
use gzb.Zigbee.Color.Chromaticity.{hue_saturation}
use gzb.Zigbee.Light.{
  Light, Remote, LightError, Action, turn_on, turn_off, toggle, set_level, step_level, set_color,
  clamp_level, tenths, step_of, switch, toggle_light, set_level_of, step_level_of, send_color,
  set_color_of, perform, apply_actions, failed, lifted, max_level, with_capabilities,
  known_capabilities, unless_failed, only_temperature, no_color, has_capability,
  color_hue_saturation, color_xy, color_temperature, capabilities_of, color_capabilities,
}
use gzb.Zigbee.Light.Orders.{
  Order, logged, Tells, switched_on, switched_off, toggled, moved, stepped_up, stepped_down, hued,
  placed, warmed, CarriedOut, finished, next, stopped, untold,
}

-- The same of one action, with the state.
data Asked {S E F : Type 0} (l : Light) (a : Action F) (log : List Order)
    : Result (LightError E) (Unit {0}) × (S × List Order) → Type 0 where
  told :
      (o : Order) (r : Result (LightError E) (Unit {0})) (s : S)
      → Tells l a o
      → Asked {F = F} l a log (r, (s, o ∷ log))
  unasked :
      (c : Color F) (e : LightError E) (s : S)
      → a ≡ set_color c
      → Asked {F = F} l a log (err e, (s, log))

tenths-≤ : (d : ℤ) → tenths d ≤ 65535
unfolding tenths
tenths-≤ (negsuc d) = ground arith
tenths-≤ (pos d) = ground arith

clamp_level-min : (n : ℕ) → 1 ≤ clamp_level n
unfolding clamp_level
clamp_level-min n = ground arith

clamp_level-max : (n : ℕ) → clamp_level n ≤ 254
unfolding clamp_level
clamp_level-max n = ground arith

clamp_level-keeps : (n : ℕ) → 1 ≤ n → n ≤ 254 → clamp_level n ≡ n
unfolding clamp_level
clamp_level-keeps n low high = ground arith

cut-≤ : (n : ℕ) → (if ltb max_level n then max_level else n) ≤ 254
cut-≤ n = ground arith

cut-keeps : (n : ℕ) → n ≤ 254 → (if ltb max_level n then max_level else n) ≡ n
cut-keeps n low = ground arith

down-≤ :
    (n : ℕ)
    → (if suc n == 2 ^ 63 then 0 else if ltb max_level (suc n) then max_level else suc n) ≤ 254
down-≤ n = ground arith

down-keeps :
    (n : ℕ)
    → suc n ≤ 254
    → (if suc n == 2 ^ 63 then 0 else if ltb max_level (suc n) then max_level else suc n) ≡ suc n
down-keeps n low = ground arith

-- What holds of either branch holds of the test.
if-either :
    {X : Type 0} (P : X → Type 0) (b : Bool) {x y : X}
    → (b ≡ true → P x)
    → P y
    → P (if b then x else y)
if-either P true f q = f refl
if-either P false f q = q

both-first : (b c : Bool) → (b && c) ≡ true → b ≡ true
both-first b c h = ground arith

hue_saturation-exact :
    {F : Type 0} (fl : Reals F) (c : Color F) (pair : ℕ × ℕ)
    → c.exact ≡ some pair
    → hue_saturation fl c ≡ pair
unfolding hue_saturation
hue_saturation-exact fl c pair h = rw h refl

module _ {S E F : Type 0} (fl : Reals F) (remote : Remote S E F) (l : Light) where
  lifted-Asked :
      (a : Action F) (o : Order) (log : List Order) (p : Result E (Unit {0}) × S)
      → Tells l a o
      → Asked {F = F} l a log (lifted fl (logged remote) (p.0, (p.1, o ∷ log)))
  lifted-Asked a o log (ok u, s) t = told o (ok u) s t
  lifted-Asked a o log (err e, s) t = told o (err (failed e)) s t

  switch-Asked :
      (time : ℤ) (s : S) (log : List Order)
      → Asked {F = F} l turn_on log (perform fl (logged remote) l time turn_on (s, log))
  unfolding perform switch logged
  switch-Asked time s log = lifted-Asked turn_on _ log _ switched_on

  switch_off-Asked :
      (time : ℤ) (s : S) (log : List Order)
      → Asked {F = F} l turn_off log (perform fl (logged remote) l time turn_off (s, log))
  unfolding perform switch logged
  switch_off-Asked time s log = lifted-Asked turn_off _ log _ switched_off

  toggle_light-Asked :
      (time : ℤ) (s : S) (log : List Order)
      → Asked {F = F} l toggle log (perform fl (logged remote) l time toggle (s, log))
  unfolding perform toggle_light logged
  toggle_light-Asked time s log = lifted-Asked toggle _ log _ toggled

  set_level_of-Asked :
      (time : ℤ) (n : ℕ) (s : S) (log : List Order)
      → Asked {F = F} l (set_level n) log (perform fl (logged remote) l time (set_level n) (s, log))
  unfolding perform set_level_of logged move_to_level_payload
  set_level_of-Asked time n s log = lifted-Asked (set_level n) _ log _ (
      moved n (clamp_level n) (tenths time) (clamp_level-min n) (clamp_level-max n) (tenths-≤ time)
        (clamp_level-keeps n))

  step_level_of-Asked :
      (time delta : ℤ) (s : S) (log : List Order)
      → Asked {F = F} l
          (step_level delta)
          log
          (perform fl (logged remote) l time (step_level delta) (s, log))
  unfolding perform step_level_of logged step_level_payload step_of
  step_level_of-Asked time (pos n) s log =
      lifted-Asked (step_level (pos n)) _ log _
        (stepped_up n _ (tenths time) (cut-≤ n) (tenths-≤ time) (cut-keeps n))
  step_level_of-Asked time (negsuc n) s log =
      lifted-Asked (step_level (negsuc n)) _ log _
        (stepped_down n _ (tenths time) (down-≤ n) (tenths-≤ time) (down-keeps n))

  send_color-Asked :
      (c : Color F) (time : ℤ) (caps : ℕ) (s : S) (log : List Order)
      → Asked {F = F} l (set_color c) log (send_color fl (logged remote) l c time caps (s, log))
  unfolding send_color logged move_to_color_temperature_payload move_to_hue_and_saturation_payload
      move_to_color_payload
  send_color-Asked c time caps s log =
      if-either (Asked {F = F} l (set_color c) log)
        (is_white_point c && has_capability caps color_temperature)
        (λ white.
          lifted-Asked (set_color c) _ log _
            (warmed c (tenths time) (both-first _ _ white) (tenths-≤ time)))
        (if-either (Asked {F = F} l (set_color c) log) (has_capability caps color_hue_saturation)
          (λ _.
            lifted-Asked (set_color c) _ log _
              (hued c _ _ (tenths time) (hue_saturation-exact fl c) (tenths-≤ time)))
          (if-either (Asked {F = F} l (set_color c) log) (has_capability caps color_xy)
            (λ _. lifted-Asked (set_color c) _ log _ (placed c _ _ (tenths time) (tenths-≤ time)))
            (if-either (Asked {F = F} l (set_color c) log) (has_capability caps color_temperature)
              (λ _. unasked c only_temperature s refl) (unasked c (no_color caps) s refl))))

  with_capabilities-Asked :
      (c : Color F) (time : ℤ) (q : Result E (List (ℕ × Option ℕ × Value F)) × S) (log : List Order)
      → Asked {F = F} l (set_color c) log (
          with_capabilities fl
            (logged remote)
            l
            c
            time
            (known_capabilities fl (logged remote) (q.0, (q.1, log))))
  with_capabilities-Asked c time (ok values, s) log =
      send_color-Asked c time (capabilities_of values) s log
  with_capabilities-Asked c time (err e, s) log = unasked c _ s refl

  set_color_of-Asked :
      (time : ℤ) (c : Color F) (s : S) (log : List Order)
      → Asked {F = F} l (set_color c) log (perform fl (logged remote) l time (set_color c) (s, log))
  unfolding perform set_color_of color_capabilities logged
  set_color_of-Asked time c s log = with_capabilities-Asked c time _ log

  perform-Asked :
      (time : ℤ) (a : Action F) (s : S) (log : List Order)
      → Asked {F = F} l a log (perform fl (logged remote) l time a (s, log))
  perform-Asked time turn_on s log = switch-Asked time s log
  perform-Asked time turn_off s log = switch_off-Asked time s log
  perform-Asked time toggle s log = toggle_light-Asked time s log
  perform-Asked time (set_level n) s log = set_level_of-Asked time n s log
  perform-Asked time (step_level n) s log = step_level_of-Asked time n s log
  perform-Asked time (set_color c) s log = set_color_of-Asked time c s log

  abbrev Outcome :
      List (Action F) → List Order → Result (LightError E) (Unit {0}) × (S × List Order) → Type 0
  Outcome actions log p = CarriedOut l actions log p.0 p.1.1

  unless_failed-CarriedOut :
      (a : Action F) (rest : List (Action F)) (log : List Order)
      (f : S × List Order → Result (LightError E) (Unit {0}) × (S × List Order))
      → ((s : S) (more : List Order) → Outcome rest more (f (s, more)))
      → (p : Result (LightError E) (Unit {0}) × (S × List Order)) → Asked l a log p
      → Outcome (a ∷ rest) log (unless_failed fl (logged remote) f p)
  unless_failed-CarriedOut a rest log f ih _ (told o (ok u) s t) =
      next a rest o log _ _ t (ih s (o ∷ log))
  unless_failed-CarriedOut a rest log f ih _ (told o (err e) s t) = stopped a rest o log e t
  unless_failed-CarriedOut a rest log f ih _ (unasked c e s h) = rw h (untold c rest log e)

  apply_actions-Outcome :
      (time : ℤ) (actions : List (Action F)) (s : S) (log : List Order)
      → Outcome actions log (apply_actions fl (logged remote) l time actions (s, log))
  unfolding apply_actions
  apply_actions-Outcome time [] s log = finished log
  apply_actions-Outcome time (a ∷ rest) s log =
      unless_failed-CarriedOut a rest log _ (apply_actions-Outcome time rest) _
        (perform-Asked time a s log)

-- `Apply` tells a light its actions in the order they are said, one command each, and stops at the
-- first that fails. Every command goes to the light's endpoint, and to the on/off, the level or the
-- colour cluster: on, off and toggle have no payload; a level is from 1 to 254, and is the one asked
-- for if that is; a step is at most 254, and is the one asked for if that is, up or down by its sign;
-- a colour that has an exact pair of hue and saturation is sent that pair, if it is told in hues; a
-- temperature is sent for a white point only. Only a colour can end without a command. Whatever the
-- light answers, and whatever it says it can do.
pub apply_actions-CarriedOut :
    {S E F : Type 0} (fl : Reals F) (remote : Remote S E F) (l : Light) (time : ℤ)
    (actions : List (Action F)) (s : S) (r : Result (LightError E) (Unit {0})) (s' : S)
    (log : List Order)
    → apply_actions fl (logged remote) l time actions (s, []) ≡ (r, (s', log))
    → CarriedOut l actions [] r log
apply_actions-CarriedOut fl remote l time actions s r s' log h =
    subst (λ p. CarriedOut l actions [] p.0 p.1.1) h
      (apply_actions-Outcome fl remote l time actions s [])
