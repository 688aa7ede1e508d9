-- ===== src/Ash/Frame.antt =====
-- internal/ash/frame.go: `Frame`, `controlByte`, `Encode` and `Decode`.
-- A uint8 is a number below 256. `FrameType` is an int in the source; here it has the six
-- declared values alone, so the default branch of `controlByte` has no case.
pub mod Control
pub mod RoundTrip
use gzb.Base.{
  ℕ, ◌-◌, ◌*◌, ◌/◌, ◌%◌, Bool, true, false, not, List, [], ◌∷◌, ◌++◌, bit_and, bit_or, ◌==◌, ltb,
  if◌then◌else◌, Bytes, length, take, drop, get_or,
}
use gzb.Base.Result.{Result, ok, err, ◌>>=◌, ◌>>◌, check}
use gzb.Ash.Error.{Error, bad_crc, short_frame, long_frame, unrecognised}
use gzb.Ash.Crc.{crc16}
use gzb.Ash.Random.{randomize}
use gzb.Ash.Stuff.{stuff, unstuff}

abbrev pub max_frame_len : ℕ
max_frame_len = 256

pub data FrameType : Type 0 where
  data_frame ack nak rst rstack error : FrameType

pub record Frame : Type 0 where
  pub type : FrameType
  pub frm_num : ℕ
  pub ack_num : ℕ
  pub re_tx : Bool
  pub not_ready : Bool
  pub payload : Bytes

-- `Frame{}`, with the type given.
abbrev pub blank : FrameType → Frame
blank t = record {
  type = t;
  frm_num = 0;
  ack_num = 0;
  re_tx = false;
  not_ready = false;
  payload = [];
}

abbrev flagged : Bool → ℕ → ℕ → ℕ
flagged b mask c = if b then bit_or c mask else c

unfoldable pub control_of : FrameType → Frame → ℕ
control_of data_frame f =
    flagged f.re_tx 0x08 (bit_or (bit_and f.frm_num 0x07 * 16 % 256) (bit_and f.ack_num 0x07))
control_of ack f = flagged f.not_ready 0x10 (bit_or 0x80 (bit_and f.ack_num 0x07))
control_of nak f = flagged f.not_ready 0x10 (bit_or 0xA0 (bit_and f.ack_num 0x07))
control_of rst f = 0xC0
control_of rstack f = 0xC1
control_of error f = 0xC2

unfoldable pub control_byte : Frame → ℕ
unfolding control_of
control_byte f = control_of f.type f

-- The payload as it goes into the body: scrambled in a DATA frame alone.
unfoldable pub body_payload : FrameType → Bytes → Bytes
body_payload data_frame bs = randomize bs
body_payload _ bs = bs

-- `append(body, byte(crc>>8), byte(crc))`
unfoldable pub with_crc : Bytes → Bytes
with_crc body = body ++ (crc16 body / 256 % 256 ∷ crc16 body % 256 ∷ [])

unfoldable pub encode : Frame → Result Error Bytes
encode f =
    if ltb max_frame_len (length f.payload)
    then err long_frame
    else ok (stuff (with_crc (control_byte f ∷ body_payload f.type f.payload)))

-- The switch of `Decode` on the control byte and the rest of the payload.
unfoldable pub decode_control : ℕ → Bytes → Result Error Frame
decode_control ctrl bs =
    if bit_and ctrl 0x80 == 0
    then ok (record (blank data_frame) {
      frm_num = bit_and (ctrl / 16) 0x07;
      re_tx = not (bit_and ctrl 0x08 == 0);
      ack_num = bit_and ctrl 0x07;
      payload = randomize bs;
    })
    else if bit_and ctrl 0xE0 == 0x80
    then ok (record (blank ack) {
      ack_num = bit_and ctrl 0x07;
      not_ready = not (bit_and ctrl 0x10 == 0);
    })
    else if bit_and ctrl 0xE0 == 0xA0
    then ok (record (blank nak) {
      ack_num = bit_and ctrl 0x07;
      not_ready = not (bit_and ctrl 0x10 == 0);
    })
    else if ctrl == 0xC0
    then ok (blank rst)
    else if ctrl == 0xC1
    then ok (record (blank rstack) { payload = bs })
    else if ctrl == 0xC2
    then ok (record (blank error) { payload = bs })
    else err (unrecognised ctrl)

-- `uint16(sum[0])<<8 | uint16(sum[1])`
unfoldable pub carried_crc : Bytes → ℕ
carried_crc sum = bit_or (get_or sum 0 0 * 256 % 65536) (get_or sum 1 0)

-- `Decode` after `unstuff`.
unfoldable pub decode_body : Bytes → Result Error Frame
decode_body body =
    let payload = take (length body - 2) body in
    let sum = drop (length body - 2) body in
    if ltb (length body) 3
    then err short_frame
    else if not (crc16 payload == carried_crc sum)
    then err bad_crc
    else decode_control (get_or payload 0 0) (drop 1 payload)

unfoldable pub decode : Bytes → Result Error Frame
decode raw = do body ← unstuff raw; decode_body body
