-- ===== src/Zigbee/Query.antt =====
-- zigbee/interview.go: the questions of ZDO discovery. A question goes out by `Request` of internal/ezsp,
-- which is modelled in Ezsp.Send: here stand the frame, the test that picks the reply, and what is made
-- of the payload of the reply.
pub mod Replies
use gzb.Base.{
  ℕ, Bool, true, false, not, ◌&&◌, Option, none, some, List, [], ◌∷◌, ◌++◌, ◌==◌, if◌then◌else◌,
  Bytes, bit_and, get_or, ◌/◌, ◌+◌, ◌%◌,
}
use gzb.Base.Result.{Result, ok, err}
use gzb.Base.Strings.{text}
use gzb.Cursor.{ReadError}
use gzb.Ezsp.Join.{ApsFrame, IncomingMessage}
use gzb.Ezsp.Send.{RequestError, Wake, request}
use gzb.Ezsp.Talk.{Failure, Ncp, Command}
use gzb.Zdo.{
  Answer, SimpleDescriptor, status_success, response_cluster, address_request,
  simple_descriptor_request, sequence, parse_node_descriptor, parse_power_descriptor,
  parse_active_endpoints, parse_simple_descriptor, PowerSource, mains, rechargeable, disposable,
  unnamed, power_description,
}
use gzb.Zdo

abbrev pub profile_zdo : ℕ
profile_zdo = 0x0000

abbrev pub aps_option_retry : ℕ
aps_option_retry = 0x0040

-- The frame that `zdoQuery` sends a question in.
unfoldable pub query_frame : ℕ → ApsFrame
query_frame cluster = record {
  profile = profile_zdo;
  cluster = cluster;
  source_ep = 0;
  dest_ep = 0;
  options = aps_option_retry;
  group_id = 0;
  aps_sequence = 0;
}

abbrev same_sequence : Option ℕ → ℕ → Bool
same_sequence none seq = false
same_sequence (some got) seq = got == seq

-- The test of `zdoQuery`: profile, cluster, sender and sequence of a reply.
unfoldable pub answers_query : ℕ → ℕ → Bytes → IncomingMessage → Bool
answers_query node cluster payload m =
    m.aps.profile == profile_zdo
    && m.aps.cluster == response_cluster cluster
    && m.sender == node
    && same_sequence (sequence m.payload) (get_or payload 0 0)

abbrev pub payload_of :
    Option (Result RequestError IncomingMessage) → Option (Result RequestError Bytes)
payload_of none = none
payload_of (some (ok m)) = some (ok m.payload)
payload_of (some (err e)) = some (err e)

-- `zdoQuery` on an open coordinator, with the events that the wait for the reply takes.
unfoldable pub zdo_query :
    (Failure → Bool)
    → ℕ
    → ℕ
    → Bytes
    → List Wake
    → Ncp
    → List Command
    → Option (Result RequestError Bytes) × List Command
unfolding query_frame answers_query
zdo_query expired node cluster payload ws ncp sent =
    let (r, sent') =
      request expired node (query_frame cluster) payload (answers_query node cluster payload) ws ncp
        sent in
    (payload_of r, sent')

pub data QueryError : Type 0 where
  requesting : RequestError → QueryError
  parsing : ReadError → QueryError
  refused : ℕ → QueryError
  unanswered : QueryError

-- What is made of an answer: the error of the parser, then the status, then the value.
unfoldable pub value_of : {A : Type 0} → Answer A → Result QueryError A
value_of a = elim a.failure [
  | some e ↦ err (parsing e)
  | none ↦
      if not (a.status == status_success)
      then err (refused a.status)
      else elim a.value [ some v ↦ ok v | none ↦ err unanswered ]
]

abbrev pub asked :
    {A : Type 0} → (Bytes → Answer A) → Result RequestError Bytes → Result QueryError A
asked parse (err e) = err (requesting e)
asked parse (ok payload) = value_of (parse payload)

pub record NodeDescriptor : Type 0 where
  pub logical_type : Bytes
  pub mains : Bool
  pub sleepy : Bool
  pub capability : ℕ
  pub manufacturer_code : ℕ
  pub max_buffer_size : ℕ
  pub max_incoming_size : ℕ
  pub max_outgoing_size : ℕ
  pub server_mask : ℕ

pub record PowerDescriptor : Type 0 where
  pub source : Bytes
  pub level : ℕ

-- The names of its clusters, which are only printed, are left out.
pub record Endpoint : Type 0 where
  pub id : ℕ
  pub profile : ℕ
  pub device_id : ℕ
  pub version : ℕ
  pub input : List ℕ
  pub output : List ℕ

-- `%d` of a uint8.
unfoldable pub decimal : ℕ → Bytes
decimal n =
    let ones : Bytes = (48 + n % 10) ∷ [] in
    let tens : Bytes = (48 + n / 10 % 10) ∷ ones in
    if n / 10 == 0 then ones else if n / 100 == 0 then tens else (48 + n / 100) ∷ tens

-- `LogicalType.String`
unfoldable pub logical_name : ℕ → Bytes
unfolding decimal
logical_name t =
    if t == 0
    then text "coordinator"
    else if t == 1
    then text "router"
    else if t == 2
    then text "end device"
    else text "logical type " ++ decimal t

-- A digit of `%X`.
abbrev hex_digit : ℕ → ℕ
hex_digit d = if d / 10 == 0 then 48 + d else 55 + d

-- The text of `PowerDescriptor.Description`; a current source has four bits.
unfoldable pub power_name : PowerSource → Bytes
power_name mains = text "mains"
power_name rechargeable = text "rechargeable battery"
power_name disposable = text "disposable battery"
power_name (unnamed s) = text "power source 0x" ++ hex_digit (s / 16 % 16) ∷ hex_digit (s % 16) ∷ []

-- `MACCapability.Mains` and `Sleepy`
unfoldable pub is_mains : ℕ → Bool
is_mains c = not (bit_and c 0x04 == 0)

unfoldable pub is_sleepy : ℕ → Bool
is_sleepy c = bit_and c 0x08 == 0

abbrev pub mapped : {A B : Type 0} → (A → B) → Result QueryError A → Result QueryError B
mapped f (ok a) = ok (f a)
mapped f (err e) = err e

unfoldable pub as_node : Zdo.NodeDescriptor → NodeDescriptor
as_node nd = record {
  logical_type = logical_name nd.logical_type;
  mains = is_mains nd.mac_capability;
  sleepy = is_sleepy nd.mac_capability;
  capability = nd.mac_capability;
  manufacturer_code = nd.manufacturer_code;
  max_buffer_size = nd.max_buffer_size;
  max_incoming_size = nd.max_incoming_size;
  max_outgoing_size = nd.max_outgoing_size;
  server_mask = nd.server_mask;
}

-- `Coordinator.NodeDescriptor`, on what `zdoQuery` returns.
unfoldable pub node_descriptor : Result RequestError Bytes → Result QueryError NodeDescriptor
unfolding as_node
node_descriptor reply = mapped as_node (asked parse_node_descriptor reply)

unfoldable pub as_power : Zdo.PowerDescriptor → PowerDescriptor
as_power pd = record { source = power_name (power_description pd); level = pd.current_level }

-- `Coordinator.PowerDescriptor`
unfoldable pub power_descriptor : Result RequestError Bytes → Result QueryError PowerDescriptor
unfolding as_power
power_descriptor reply = mapped as_power (asked parse_power_descriptor reply)

-- `ActiveEndpoints`
unfoldable pub active_endpoints : Result RequestError Bytes → Result QueryError (List ℕ)
active_endpoints reply = asked parse_active_endpoints reply

unfoldable pub as_endpoint : SimpleDescriptor → Endpoint
as_endpoint sd = record {
  id = sd.endpoint;
  profile = sd.profile;
  device_id = sd.device;
  version = sd.version;
  input = sd.input;
  output = sd.output;
}

-- `Coordinator.SimpleDescriptor`
unfoldable pub simple_descriptor : Result RequestError Bytes → Result QueryError Endpoint
unfolding as_endpoint
simple_descriptor reply = mapped as_endpoint (asked parse_simple_descriptor reply)
