-- ===== src/Zcl/Attributes.antt =====
-- internal/zcl/zcl.go: the attribute records of a report or of a read response, and the default
-- response. The loop runs on fuel, of which one for each byte is enough.
pub mod Ends
pub mod Layout
pub mod Held
use gzb.Base.{
  ℕ, zero, suc, ◌-◌, Bool, true, false, not, ◌&&◌, ◌||◌, Option, none, some, List, [], ◌∷◌, ◌==◌,
  if◌then◌else◌, Bytes, length, take, drop,
}
use gzb.Base.Result.{Result, ok, err}
use gzb.Cursor.{Cursor, ReadError, new_buf, u8, u16, remaining}
use gzb.Zcl.Value.{Floats, Value, nothing, decode_value}
use gzb.Zcl.Frame.{Frame, read_attributes_rsp}

-- `Attribute`
pub record Decoded (F : Type 0) : Type 0 where
  pub id : ℕ
  pub type : ℕ
  pub value : Value F
  pub status : ℕ
  pub raw : Bytes

abbrev pub report_attributes : ℕ
report_attributes = 0x0A

abbrev pub default_response_command : ℕ
default_response_command = 0x0B

pub data AttributesError : Type 0 where
  cluster_specific no_records : ℕ → AttributesError
  decoding : ReadError → AttributesError

-- A record without a value.
abbrev pub refused : {F : Type 0} → ℕ → ℕ → Decoded F
refused id status = record { id = id; type = 0; value = nothing; status = status; raw = [] }

abbrev pub status_after : Bool → Cursor → ℕ × Cursor
status_after true c = u8 c
status_after false c = (0, c)

module _ {F : Type 0} (fl : Floats F) where
  -- The end of a record, from its value on: nothing if a read has failed.
  abbrev pub with_value : ℕ → ℕ → ℕ → Cursor → Value F × Cursor → Option (Decoded F) × Cursor
  with_value id status type start (v, c) = elim c.failure [
    | some e ↦ (none, c)
    | none ↦ (
      some (record {
        id = id;
        type = type;
        value = v;
        status = status;
        raw = take (c.pos - start.pos) (drop start.pos start.bytes);
      }),
      c,
    )
  ]

  -- The body of the loop.
  unfoldable pub read_record : Bool → Cursor → Option (Decoded F) × Cursor
  read_record with_status c =
      let (id, c1) = u16 c in
      let (status, c2) = status_after with_status c1 in
      let (type, c3) = u8 c2 in
      if with_status && not (status == 0)
      then (some (refused id status), c2)
      else with_value id status type c3 (decode_value fl type c3)

  abbrev pub listed :
      Option (Decoded F) → List (Decoded F) × Cursor → Cursor → List (Decoded F) × Cursor
  listed none rest c = ([], c)
  listed (some a) rest c = (a ∷ rest.0, rest.1)

  -- The loop of `Attributes`.
  unfoldable pub read_records : ℕ → Bool → Cursor → List (Decoded F) × Cursor
  read_records zero with_status c = ([], c)
  read_records (suc fuel) with_status c =
      let (a, c') = read_record with_status c in
      let rest = read_records fuel with_status c' in
      if remaining c == 0 then ([], c) else listed a rest c'

  abbrev pub ended : List (Decoded F) × Cursor → List (Decoded F) × Option AttributesError
  ended (out, c) = elim c.failure [ none ↦ (out, none) | some e ↦ (out, some (decoding e)) ]

  -- `Attributes`: the records, and the error beside them.
  unfoldable pub attributes : Frame → List (Decoded F) × Option AttributesError
  attributes f =
      if not (f.type == 0)
      then ([], some (cluster_specific f.command))
      else if f.command == report_attributes || f.command == read_attributes_rsp
      then ended
          (read_records (length f.payload) (f.command == read_attributes_rsp) (new_buf f.payload))
      else ([], some (no_records f.command))

-- `DefaultResponse`
pub record DefaultResponse : Type 0 where
  pub command : ℕ
  pub status : ℕ

unfoldable pub default_response : Frame → Result AttributesError DefaultResponse
default_response f =
    if not (f.type == 0) || not (f.command == default_response_command)
    then err (no_records f.command)
    else (let (command, c1) = u8 (new_buf f.payload) in
        let (status, c2) = u8 c1 in
        elim c2.failure [
          | some e ↦ err (decoding e)
          | none ↦ ok (record { command = command; status = status })
        ])
