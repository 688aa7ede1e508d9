-- ===== src/Ezsp/Protocol/Layout.antt =====
-- internal/ezsp/protocol.go: the two frame layouts.
use gzb.Base.{
  ℕ, ◌%◌, ◌≡◌, refl, arith, Bool, true, false, [], ◌∷◌, ◌++◌, ltb, lt→ltb, ltb-false, le_or_lt, inl,
  inr, if◌then◌else◌, Bytes, IsWord, length, le16,
}
use gzb.Base.Result.{Result, ok, err}
use gzb.Ezsp.Protocol.{DecodeError, Message, encode_command, is_callback, decode_message}

-- Under any negotiated version, a command with an identifier of 16 bits, read back by the reply
-- decoder of the same version, has its sequence number, its frame ID (the low byte alone before
-- version 8) and its parameters, and is no callback.
pub decode_message-encode_command :
    (version seq id : ℕ) (params : Bytes)
    → IsWord id
    → decode_message version (encode_command version seq id params)
      ≡ ok (record {
        sequence = seq;
        id = if ltb version 8 then id % 256 else id;
        callback = false;
        params = params;
      })
unfolding decode_message encode_command is_callback
decode_message-encode_command version seq id params h = elim (le_or_lt 8 version) [
  | inl new ↦ rw (ltb-false version 8 new) (
      rw (ltb-false (length ((seq ∷ []) ++ le16 0x0100 ++ le16 id ++ params)) 5 (omega arith))
        (ground arith))
  | inr old ↦
      rw (lt→ltb version 8 old)
        (rw (ltb-false (length (seq ∷ 0 ∷ id % 256 ∷ params)) 3 (omega arith)) refl)
]

abbrev pub refuses : Result DecodeError Message → Bool
refuses (ok m) = false
refuses (err e) = true

-- A frame is refused exactly when it is shorter than the header of its layout.
pub refuses-decode_message :
    (version : ℕ) (bs : Bytes)
    → refuses (decode_message version bs) ≡ ltb (length bs) (if ltb version 8 then 3 else 5)
unfolding decode_message
refuses-decode_message version bs = ground arith
