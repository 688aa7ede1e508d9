-- ===== src/Ezsp/Protocol.antt =====
-- internal/ezsp/protocol.go: `encodeCommand`, `decodeMessage` and `isCallback`.
-- A FrameID is a uint16, `params` a byte slice; the error carries the length that was too short.
pub mod Layout
use gzb.Base.{
  ℕ, ◌%◌, ◌*◌, ◌+◌, Bool, not, List, [], ◌∷◌, ◌++◌, bit_and, ◌==◌, ltb, if◌then◌else◌, Bytes,
  length, drop, get_or, le16, word16,
}
use gzb.Base.Result.{Result, ok, err}

pub data DecodeError : Type 0 where
  legacy_too_short extended_too_short : ℕ → DecodeError

pub record Message : Type 0 where
  pub sequence : ℕ
  pub id : ℕ
  pub callback : Bool
  pub params : Bytes

abbrev pub legacy_version : ℕ
legacy_version = 4

abbrev pub extended_format_from : ℕ
extended_format_from = 8

abbrev pub frame_control_extended : ℕ
frame_control_extended = 0x0100

-- `byte(id)` keeps the low byte in the legacy layout.
unfoldable pub encode_command : ℕ → ℕ → ℕ → Bytes → Bytes
encode_command version seq id params =
    if ltb version extended_format_from
    then (seq ∷ 0x00 ∷ id % 256 ∷ []) ++ params
    else ((seq ∷ []) ++ le16 frame_control_extended ++ le16 id) ++ params

-- `isCallback`
unfoldable pub is_callback : ℕ → Bool
is_callback frame_control = not (bit_and frame_control 0x0030 == 0)

-- `data[i]` is read only where the length was tested.
unfoldable pub decode_message : ℕ → Bytes → Result DecodeError Message
decode_message version bs =
    if ltb version extended_format_from
    then (if ltb (length bs) 3
        then err (legacy_too_short (length bs))
        else ok (record {
          sequence = get_or bs 0 0;
          id = get_or bs 2 0;
          callback = is_callback (get_or bs 1 0);
          params = drop 3 bs;
        }))
    else if ltb (length bs) 5
    then err (extended_too_short (length bs))
    else ok (record {
      sequence = get_or bs 0 0;
      id = word16 (get_or bs 3 0) (get_or bs 4 0);
      callback = is_callback (word16 (get_or bs 1 0) (get_or bs 2 0));
      params = drop 5 bs;
    })
