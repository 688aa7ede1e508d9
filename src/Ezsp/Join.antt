-- ===== src/Ezsp/Join.antt =====
-- internal/ezsp/join.go: the callbacks that say that a device has appeared. The time of arrival is
-- left out, and a pointer that may be nil is an option.
pub mod Layout
use gzb.Base.{
  ℕ, ◌+◌, ◌-◌, Bool, true, false, not, ◌&&◌, ◌||◌, Option, none, some, List, [], bit_and, ◌==◌, ltb,
  if◌then◌else◌, Bytes, length, take, drop,
}
use gzb.Base.Int.{ℤ, signed}
use gzb.Base.Result.{Result, ok, err}
use gzb.Cursor.{Cursor, ReadError, Reader, ◌>>=◌, return, new_buf, u8, u16, ieee, remaining}
use gzb.Ezsp.Protocol.{Message}

pub data JoinError : Type 0 where
  reading : ReadError → JoinError
  too_short : ℕ → JoinError
  overlong : ℕ → ℕ → JoinError

pub data EventKind : Type 0 where
  trust_center child announce : EventKind

pub record JoinEvent : Type 0 where
  pub kind : EventKind
  pub node_id : ℕ
  pub ieee : Bytes
  pub parent : Option ℕ
  pub node_type : Option ℕ
  pub update : Option ℕ
  pub decision : Option ℕ
  pub capability : Option ℕ
  pub leaving : Bool

abbrev pub blank : EventKind → ℕ → Bytes → JoinEvent
blank k node addr = record {
  kind = k;
  node_id = node;
  ieee = addr;
  parent = none;
  node_type = none;
  update = none;
  decision = none;
  capability = none;
  leaving = false;
}

-- `DeviceUpdate.Left`
abbrev pub left : ℕ → Bool
left u = u == 0x02

-- `if r.err != nil`, after the reads.
abbrev pub finish : {A : Type 0} → A × Cursor → Result JoinError A
finish (a, c) = elim c.failure [ none ↦ ok a | some e ↦ err (reading e) ]

read_trust_center_join : Reader JoinEvent
read_trust_center_join = do
  node ← u16
  addr ← ieee
  update ← u8
  decision ← u8
  parent ← u16
  return (record (blank trust_center node addr) {
    parent = some parent;
    update = some update;
    decision = some decision;
    leaving = left update;
  })

-- `decodeTrustCenterJoin`
unfoldable pub decode_trust_center_join : Bytes → Result JoinError JoinEvent
unfolding read_trust_center_join
decode_trust_center_join params = finish (read_trust_center_join (new_buf params))

read_child_join : Reader JoinEvent
read_child_join = do
  _ ← u8
  joining ← u8
  node ← u16
  addr ← ieee
  node_type ← u8
  return (record (blank child node addr) { node_type = some node_type; leaving = joining == 0 })

-- `decodeChildJoin`
unfoldable pub decode_child_join : Bytes → Result JoinError JoinEvent
unfolding read_child_join
decode_child_join params = finish (read_child_join (new_buf params))

read_device_announce : Reader JoinEvent
read_device_announce = do
  _ ← u8
  node ← u16
  addr ← ieee
  capability ← u8
  return (record (blank announce node addr) { capability = some capability })

-- `decodeDeviceAnnounce`
unfoldable pub decode_device_announce : Bytes → Result JoinError JoinEvent
unfolding read_device_announce
decode_device_announce payload = finish (read_device_announce (new_buf payload))

pub record ApsFrame : Type 0 where
  pub profile : ℕ
  pub cluster : ℕ
  pub source_ep : ℕ
  pub dest_ep : ℕ
  pub options : ℕ
  pub group_id : ℕ
  pub aps_sequence : ℕ

pub record IncomingMessage : Type 0 where
  pub type : ℕ
  pub aps : ApsFrame
  pub lqi : ℕ
  pub rssi : ℤ
  pub sender : ℕ
  pub payload : Bytes

abbrev pub incoming_prefix_len : ℕ
incoming_prefix_len = 18

-- The fixed part, with an empty payload, and the length that follows it.
pub read_incoming : Reader (IncomingMessage × ℕ)
read_incoming = do
  type ← u8
  profile ← u16
  cluster ← u16
  source_ep ← u8
  dest_ep ← u8
  options ← u16
  group_id ← u16
  aps_sequence ← u8
  lqi ← u8
  rssi ← u8
  sender ← u16
  _ ← u8
  _ ← u8
  size ← u8
  return (
    record {
      type = type;
      aps = record {
        profile = profile;
        cluster = cluster;
        source_ep = source_ep;
        dest_ep = dest_ep;
        options = options;
        group_id = group_id;
        aps_sequence = aps_sequence;
      };
      lqi = lqi;
      rssi = signed 128 rssi;
      sender = sender;
      payload = [];
    },
    size,
  )

-- The two tests and the slice behind the reads.
unfoldable pub take_payload :
    Bytes → (IncomingMessage × ℕ) × Cursor → Result JoinError IncomingMessage
take_payload params ((msg, size), c) = elim c.failure [
  | some e ↦ err (reading e)
  | none ↦
      if ltb (remaining c) size
      then err (overlong size (remaining c))
      else ok (record msg { payload = take size (drop c.pos params) })
]

-- `decodeIncomingMessage`
unfoldable pub decode_incoming_message : Bytes → Result JoinError IncomingMessage
unfolding take_payload
decode_incoming_message params =
    if ltb (length params) (incoming_prefix_len + 1)
    then err (too_short (length params))
    else take_payload params (read_incoming (new_buf params))

abbrev pub is_announce : IncomingMessage → Bool
is_announce msg = msg.aps.profile == 0x0000 && msg.aps.cluster == 0x0013

abbrev found : Result JoinError JoinEvent → Result JoinError (Option JoinEvent)
found (ok ev) = ok (some ev)
found (err e) = err e

abbrev announced : Result JoinError IncomingMessage → Result JoinError (Option JoinEvent)
announced (err e) = err e
announced (ok msg) = if is_announce msg then found (decode_device_announce msg.payload) else ok none

-- `decodeJoinMessage`: `none` where the callback is not about a device.
unfoldable pub decode_join_message : Message → Result JoinError (Option JoinEvent)
decode_join_message m =
    if m.id == 0x0024
    then found (decode_trust_center_join m.params)
    else if m.id == 0x0023
    then found (decode_child_join m.params)
    else if m.id == 0x0045
    then announced (decode_incoming_message m.params)
    else ok none
