-- ===== src/Zigbee/Light/Orders.antt =====
-- zigbee/lights.go: the commands that a light is sent for a list of actions, and their payloads.
use gzb.Base.{ℕ, suc, ◌≤◌, ◌≡◌, true, some, List, [], ◌∷◌, ◌++◌, Bytes, le16}
use gzb.Base.Int.{pos, negsuc}
use gzb.Base.Result.{Result, ok, err}
use gzb.Zigbee.Color.{Color, is_white_point}
use gzb.Zigbee.Command.{Target}
use gzb.Zigbee.Light.{
  Light, Remote, LightError, Action, turn_on, turn_off, toggle, set_level, step_level, set_color,
  target,
}

-- A command that a remote was given.
pub record Order : Type 0 where
  pub to : Target
  pub command : ℕ
  pub payload : Bytes

-- A remote that also keeps the commands it was given, the newest first.
unfoldable pub logged : {S E F : Type 0} → Remote S E F → Remote (S × List Order) E F
logged remote = record {
  send_command = λ to command payload s.
      let (r, s') = remote.send_command to command payload s.0 in
      (r, (s', record { to = to; command = command; payload = payload } ∷ s.1));
  read_attributes = λ to ids s. let (r, s') = remote.read_attributes to ids s.0 in (r, (s', s.1));
  write_attributes =
      λ to writes s. let (r, s') = remote.write_attributes to writes s.0 in (r, (s', s.1));
}

-- What a light is told for an action.
pub data Tells {F : Type 0} (l : Light) : Action F → Order → Type 0 where
  switched_on : Tells l turn_on (record { to = target l 6; command = 1; payload = [] })
  switched_off : Tells l turn_off (record { to = target l 6; command = 0; payload = [] })
  toggled : Tells l toggle (record { to = target l 6; command = 2; payload = [] })
  moved :
      (wanted level time : ℕ)
      → 1 ≤ level
      → level ≤ 254
      → time ≤ 65535
      → (1 ≤ wanted → wanted ≤ 254 → level ≡ wanted)
      → Tells l
          (set_level wanted)
          (record { to = target l 8; command = 0; payload = level ∷ le16 time })
  stepped_up :
      (n size time : ℕ)
      → size ≤ 254
      → time ≤ 65535
      → (n ≤ 254 → size ≡ n)
      → Tells l
          (step_level (pos n))
          (record { to = target l 8; command = 2; payload = 0 ∷ size ∷ le16 time })
  stepped_down :
      (n size time : ℕ)
      → size ≤ 254
      → time ≤ 65535
      → (suc n ≤ 254 → size ≡ suc n)
      → Tells l
          (step_level (negsuc n))
          (record { to = target l 8; command = 2; payload = 1 ∷ size ∷ le16 time })
  hued :
      (c : Color F) (hue saturation time : ℕ)
      → ((pair : ℕ × ℕ) → c.exact ≡ some pair → (hue, saturation) ≡ pair)
      → time ≤ 65535
      → Tells l
          (set_color c)
          (record { to = target l 0x300; command = 6; payload = hue ∷ saturation ∷ le16 time })
  placed :
      (c : Color F) (x y time : ℕ)
      → time ≤ 65535
      → Tells l
          (set_color c)
          (record { to = target l 0x300; command = 7; payload = le16 x ++ (le16 y ++ le16 time) })
  warmed :
      (c : Color F) (time : ℕ)
      → is_white_point c ≡ true
      → time ≤ 65535
      → Tells l
          (set_color c)
          (record { to = target l 0x300; command = 10; payload = le16 c.mireds ++ le16 time })

-- The commands for a list of actions, from those there were to those there are, and the result.
pub data CarriedOut {E F : Type 0} (l : Light)
    : List (Action F) → List Order → Result (LightError E) (Unit {0}) → List Order → Type 0 where
  finished : (log : List Order) → CarriedOut l [] log (ok tt) log
  next :
      (a : Action F) (rest : List (Action F)) (o : Order) (log log' : List Order)
      (r : Result (LightError E) (Unit {0}))
      → Tells l a o
      → CarriedOut l rest (o ∷ log) r log'
      → CarriedOut l (a ∷ rest) log r log'
  stopped :
      (a : Action F) (rest : List (Action F)) (o : Order) (log : List Order) (e : LightError E)
      → Tells l a o
      → CarriedOut l (a ∷ rest) log (err e) (o ∷ log)
  untold :
      (c : Color F) (rest : List (Action F)) (log : List Order) (e : LightError E)
      → CarriedOut l (set_color c ∷ rest) log (err e) log
