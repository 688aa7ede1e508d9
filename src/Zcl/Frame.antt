-- ===== src/Zcl/Frame.antt =====
-- internal/zcl/zcl.go, encode.go and command.go: the frame header, attribute requests and responses,
-- and the commands to a cluster.
pub mod Layout
use gzb.Base.{
  ℕ, zero, suc, ◌+◌, ◌/◌, ◌%◌, Bool, true, false, not, ◌&&◌, ◌||◌, Option, none, some, List, [],
  ◌∷◌, ◌++◌, map, bit_and, ◌==◌, ltb, if◌then◌else◌, Bytes, length, drop, le16, word16,
}
use gzb.Base.Result.{Result, ok, err, ◌>>=◌}
use gzb.Cursor.{Cursor, ReadError, Reader, new_buf, u8, u16}
use gzb.Zcl.Value.{Floats, Value, EncodeError, encode_value}

-- The two types and the two directions are their numbers.
pub record Frame : Type 0 where
  pub type : ℕ
  pub manufacturer_specific : Bool
  pub manufacturer_code : ℕ
  pub direction : ℕ
  pub disable_default_response : Bool
  pub sequence : ℕ
  pub command : ℕ
  pub payload : Bytes

pub data FrameError : Type 0 where
  reading : ReadError → FrameError
  not_this_command : ℕ → FrameError
  odd_payload : ℕ → FrameError
  truncated_record : FrameError
  nothing_to_write : FrameError
  encoding : ℕ → EncodeError → FrameError

abbrev pub read_attributes : ℕ
read_attributes = 0x00

abbrev pub read_attributes_rsp : ℕ
read_attributes_rsp = 0x01

abbrev pub write_attributes : ℕ
write_attributes = 0x02

abbrev pub write_attributes_rsp : ℕ
write_attributes_rsp = 0x04

-- The frame from its control byte and what was read, with the cursor behind the header.
unfoldable pub finish_frame : Bytes → ℕ → ℕ × ℕ × ℕ × Cursor → Result FrameError Frame
finish_frame b fc (code, seq, cmd, c) = elim c.failure [
  | some e ↦ err (reading e)
  | none ↦ ok (record {
    type = bit_and fc 0x03;
    manufacturer_specific = not (bit_and fc 0x04 == 0);
    manufacturer_code = code;
    direction = bit_and fc 0x08 / 8;
    disable_default_response = not (bit_and fc 0x10 == 0);
    sequence = seq;
    command = cmd;
    payload = drop c.pos b;
  })
]

-- The reads behind the control byte; the code is there only in a manufacturer's frame.
unfoldable pub read_header : ℕ → Cursor → ℕ × ℕ × ℕ × Cursor
read_header fc c =
    let (code, c1) = if not (bit_and fc 0x04 == 0) then u16 c else (0, c) in
    let (seq, c2) = u8 c1 in let (cmd, c3) = u8 c2 in (code, seq, cmd, c3)

-- `Decode`
unfoldable pub decode : Bytes → Result FrameError Frame
decode b = let (fc, c) = u8 (new_buf b) in finish_frame b fc (read_header fc c)

-- The loop over the identifiers.
unfoldable pub le16_all : List ℕ → Bytes
le16_all [] = []
le16_all (id ∷ ids) = le16 id ++ le16_all ids

-- `ReadAttributesRequest`
unfoldable pub read_attributes_request : ℕ → List ℕ → Bytes
read_attributes_request seq ids = 0x10 ∷ seq ∷ read_attributes ∷ le16_all ids

-- The loop `for i := 0; i < len; i += 2`, on a payload of even length.
unfoldable pub ids_of : Bytes → List ℕ
ids_of (a ∷ b ∷ bs) = word16 a b ∷ ids_of bs
ids_of _ = []

-- `ReadRequest`
unfoldable pub read_request : Frame → Result FrameError (List ℕ)
read_request f =
    if not (f.type == 0) || not (f.command == read_attributes)
    then err (not_this_command f.command)
    else if not (length f.payload % 2 == 0)
    then err (odd_payload (length f.payload))
    else ok (ids_of f.payload)

-- `ClusterCommandRequest`
unfoldable pub cluster_command_request : ℕ → ℕ → Bytes → Bytes
cluster_command_request seq cmd payload = 0x01 ∷ seq ∷ cmd ∷ payload

-- The payloads of the light's commands.
unfoldable pub move_to_level_payload : ℕ → ℕ → Bytes
move_to_level_payload level transition = level ∷ le16 transition

unfoldable pub step_level_payload : ℕ → ℕ → ℕ → Bytes
step_level_payload mode size transition = mode ∷ size ∷ le16 transition

unfoldable pub move_to_hue_and_saturation_payload : ℕ → ℕ → ℕ → Bytes
move_to_hue_and_saturation_payload hue saturation transition = hue ∷ saturation ∷ le16 transition

unfoldable pub move_to_color_payload : ℕ → ℕ → ℕ → Bytes
move_to_color_payload x y transition = le16 x ++ (le16 y ++ le16 transition)

unfoldable pub move_to_color_temperature_payload : ℕ → ℕ → Bytes
move_to_color_temperature_payload mireds transition = le16 mireds ++ le16 transition

-- `Record` and `WriteRecord`; the second has no status.
pub record Attribute (F : Type 0) : Type 0 where
  pub id : ℕ
  pub status : ℕ
  pub type : ℕ
  pub value : Value F

-- `%w` with the attribute's identifier.
abbrev pub about : {A : Type 0} → ℕ → Result EncodeError A → Result FrameError A
about id (ok a) = ok a
about id (err e) = err (encoding id e)

module _ {F : Type 0} (fl : Floats F) where
  -- One record of a response: a failed one has neither type nor value.
  unfoldable pub response_record : Attribute F → Result FrameError Bytes
  response_record r = if not (r.status == 0) then ok (le16 r.id ++ r.status ∷ []) else (do
    encoded ← about r.id (encode_value fl r.type r.value)
    ok ((le16 r.id ++ r.status ∷ []) ++ (r.type ∷ encoded)))

  unfoldable pub response_records : List (Attribute F) → Result FrameError Bytes
  response_records [] = ok []
  response_records (r ∷ rs) = do bs ← response_record r; more ← response_records rs; ok (bs ++ more)

  -- `ReadAttributesResponse`
  unfoldable pub read_attributes_response : ℕ → List (Attribute F) → Result FrameError Bytes
  read_attributes_response seq rs = do
    bs ← response_records rs
    ok (0x18 ∷ seq ∷ read_attributes_rsp ∷ bs)

  unfoldable pub write_records : List (Attribute F) → Result FrameError Bytes
  write_records [] = ok []
  write_records (r ∷ rs) = do
    encoded ← about r.id (encode_value fl r.type r.value)
    more ← write_records rs
    ok ((le16 r.id ++ (r.type ∷ encoded)) ++ more)

  -- `WriteAttributesRequest`
  unfoldable pub write_attributes_request : ℕ → List (Attribute F) → Result FrameError Bytes
  write_attributes_request seq [] = err nothing_to_write
  write_attributes_request seq (r ∷ rs) = do
    bs ← write_records (r ∷ rs)
    ok (0x00 ∷ seq ∷ write_attributes ∷ bs)

-- `WriteResult`
pub record WriteResult : Type 0 where
  pub id : ℕ
  pub status : ℕ

abbrev pub succeeded : ℕ → WriteResult
succeeded id = record { id = id; status = 0 }

-- `len(f.Payload) == 1 && f.Payload[0] == StatusSuccess`
abbrev pub is_success : Bytes → Bool
is_success (b ∷ []) = b == 0x00
is_success _ = false

-- The loop of `WriteResponse` on what remains: three bytes to a record, and an error on fewer.
unfoldable pub write_results : Bytes → List WriteResult × Bool
write_results [] = ([], true)
write_results (status ∷ a ∷ b ∷ bs) =
    let (rest, whole) = write_results bs in
    (record { id = word16 a b; status = status } ∷ rest, whole)
write_results _ = ([], false)

-- `WriteResponse`: what it returns beside its error. A truncation is told without its offset.
unfoldable pub write_response : Frame → List ℕ → List WriteResult × Option FrameError
write_response f requested =
    if not (f.type == 0) || not (f.command == write_attributes_rsp)
    then ([], some (not_this_command f.command))
    else if is_success f.payload
    then (map succeeded requested, none)
    else (let (out, whole) = write_results f.payload in
        (out, if whole then none else some truncated_record))
