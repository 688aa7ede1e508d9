-- ===== src/Examples/Lights.antt =====
-- zigbee/lights.go at a concrete light and concrete words.
use gzb.Base.{
  ℕ, ◌+◌, ◌-◌, ◌*◌, ◌/◌, ◌%◌, ◌^◌, ◌≡◌, refl, none, some, List, [], ◌∷◌, ltb, ◌==◌, if◌then◌else◌,
  Bytes,
}
use gzb.Base.Int.{pos, negsuc}
use gzb.Base.Result.{ok, err}
use gzb.Zcl.Value.{uint64}
use gzb.Zigbee.Color.{Reals, Color}
use gzb.Zigbee.Light.{
  Light, Remote, Action, turn_on, set_level, step_level, set_color, target, apply_actions,
}
use gzb.Zigbee.Light.Orders.{Order, logged, CarriedOut}
use gzb.Zigbee.Light.Carried.{apply_actions-CarriedOut}

-- Whole numbers in place of the floating-point ones.
abbrev whole : Reals ℕ
whole = record {
  literal = λ m e. m / 10 ^ e;
  of_uint = λ n. n;
  add = λ a b. a + b;
  sub = λ a b. a - b;
  mul = λ a b. a * b;
  div = λ a b. a / b;
  rem = λ a b. a % b;
  pow = λ a b. a ^ b;
  max_of = λ a b. if ltb a b then b else a;
  min_of = λ a b. if ltb a b then a else b;
  abs = λ a. a;
  less = ltb;
  equal = λ a b. a == b;
  to_uint = λ bits a. a % 2 ^ bits;
  floor = λ a. a;
  parse_float = λ t. none;
}

-- A lamp with hues, which is there for as many commands as its state says.
abbrev lamp : Remote ℕ ℕ ℕ
lamp = record {
  send_command = λ to command payload s. if s == 0 then (err 7, s) else (ok tt, s - 1);
  read_attributes = λ to ids s. (ok ((0x400A, none, uint64 1) ∷ []), s);
  write_attributes = λ to writes s. (ok [], s);
}

abbrev kitchen : Light
kitchen = record { node = 0x1234; endpoint = 11 }

abbrev exact_blue : Color ℕ
exact_blue = record { mireds = 0; hue = 239; saturation = 1; exact = some (169, 254) }

abbrev evening : List (Action ℕ)
evening = turn_on ∷ set_level 0 ∷ set_color exact_blue ∷ step_level (negsuc 299) ∷ []

abbrev order : ℕ → ℕ → Bytes → Order
order cluster command payload = record {
  to = target kitchen cluster;
  command = command;
  payload = payload;
}

abbrev sent_orders : List Order
sent_orders =
    order 8 2 (1 ∷ 254 ∷ 10 ∷ 0 ∷ [])
    ∷ order 0x300 6 (169 ∷ 254 ∷ 10 ∷ 0 ∷ [])
    ∷ order 8 0 (1 ∷ 10 ∷ 0 ∷ [])
    ∷ order 6 1 []
    ∷ []

evening_orders :
    apply_actions whole (logged lamp) kitchen (pos 1000000000) evening (9, [])
    ≡ (ok tt, (5, sent_orders))
unfolding apply_actions logged
evening_orders = refl

apply_actions-CarriedOut_example : CarriedOut {E = ℕ} kitchen evening [] (ok tt) sent_orders
apply_actions-CarriedOut_example =
    apply_actions-CarriedOut whole lamp kitchen (pos 1000000000) evening 9 (ok tt) 5 sent_orders
      evening_orders
