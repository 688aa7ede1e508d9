-- ===== src/Zdo.antt =====
-- internal/zdo/zdo.go: requests, and the parsers of the descriptor responses. Each parser returns an
-- address, a value, a status and an error; `Answer` keeps all four.
pub mod Layout
use gzb.Base.{
  ℕ, zero, suc, ◌+◌, ◌*◌, ◌/◌, ◌%◌, Bool, true, false, Option, none, some, List, [], ◌∷◌, ◌++◌,
  bit_and, bit_or, ◌==◌, if◌then◌else◌, Bytes, le16,
}
use gzb.Cursor.{Cursor, ReadError, Reader, ◌>>=◌, return, new_buf, u8, u16}

abbrev pub status_success : ℕ
status_success = 0x00

-- `ResponseCluster`
unfoldable pub response_cluster : ℕ → ℕ
response_cluster request = bit_or request 0x8000

-- `AddressRequest` and `SimpleDescriptorRequest`
unfoldable pub address_request : ℕ → ℕ → Bytes
address_request seq addr = (seq ∷ []) ++ le16 addr

unfoldable pub simple_descriptor_request : ℕ → ℕ → ℕ → Bytes
unfolding address_request
simple_descriptor_request seq addr endpoint = address_request seq addr ++ endpoint ∷ []

-- `Sequence`
unfoldable pub sequence : Bytes → Option ℕ
sequence [] = none
sequence (b ∷ bs) = some b

pub record NodeDescriptor : Type 0 where
  pub logical_type : ℕ
  pub mac_capability : ℕ
  pub manufacturer_code : ℕ
  pub max_buffer_size : ℕ
  pub max_incoming_size : ℕ
  pub server_mask : ℕ
  pub max_outgoing_size : ℕ

pub record SimpleDescriptor : Type 0 where
  pub endpoint : ℕ
  pub profile : ℕ
  pub device : ℕ
  pub version : ℕ
  pub input : List ℕ
  pub output : List ℕ

pub record PowerDescriptor : Type 0 where
  pub current_mode : ℕ
  pub available_src : ℕ
  pub current_src : ℕ
  pub current_level : ℕ

-- `value` is `none` where the source returns the zero value of the type.
pub record Answer (A : Type 0) : Type 0 where
  pub addr : ℕ
  pub value : Option A
  pub status : ℕ
  pub failure : Option ReadError

-- The start that all parsers share: sequence number, status and address.
pub read_start : Reader (ℕ × ℕ)
read_start = do _ ← u8; status ← u8; addr ← u16; return (status, addr)

abbrev after_body : {A : Type 0} → ℕ → ℕ → A × Cursor → Answer A
after_body addr status (a, c) = elim c.failure [
  | some e ↦ record { addr = addr; value = none; status = status; failure = some e }
  | none ↦ record { addr = addr; value = some a; status = status; failure = none }
]

-- After the start: what an error, a status other than success, and the rest of the body come to.
unfoldable pub after_start : {A : Type 0} → Reader A → (ℕ × ℕ) × Cursor → Answer A
after_start body ((status, addr), c) = elim c.failure [
  | some e ↦ record { addr = 0; value = none; status = status; failure = some e }
  | none ↦
      if status == status_success
      then after_body addr status (body c)
      else record { addr = addr; value = none; status = status; failure = none }
]

unfoldable pub parse : {A : Type 0} → Reader A → Bytes → Answer A
parse body payload = after_start body (read_start (new_buf payload))

pub read_node_descriptor : Reader NodeDescriptor
read_node_descriptor = do
  first ← u8
  _ ← u8
  mac_capability ← u8
  manufacturer_code ← u16
  max_buffer_size ← u8
  max_incoming_size ← u16
  server_mask ← u16
  max_outgoing_size ← u16
  return (record {
    logical_type = bit_and first 0x07;
    mac_capability = mac_capability;
    manufacturer_code = manufacturer_code;
    max_buffer_size = max_buffer_size;
    max_incoming_size = max_incoming_size;
    server_mask = server_mask;
    max_outgoing_size = max_outgoing_size;
  })

-- `ParseNodeDescriptor`
unfoldable pub parse_node_descriptor : Bytes → Answer NodeDescriptor
parse_node_descriptor = parse read_node_descriptor

-- `for i := 0; i < count; i++ { xs = append(xs, read()) }`, by the rounds left.
unfoldable pub read_list : Reader ℕ → ℕ → Reader (List ℕ)
read_list read zero = return []
read_list read (suc n) = do x ← read; xs ← read_list read n; return (x ∷ xs)

pub read_endpoints : Reader (List ℕ)
read_endpoints = do count ← u8; read_list u8 count

-- `ParseActiveEndpoints`
unfoldable pub parse_active_endpoints : Bytes → Answer (List ℕ)
parse_active_endpoints = parse read_endpoints

pub read_simple_descriptor : Reader SimpleDescriptor
read_simple_descriptor = do
  _ ← u8
  endpoint ← u8
  profile ← u16
  device ← u16
  version ← u8
  in_count ← u8
  input ← read_list u16 in_count
  out_count ← u8
  output ← read_list u16 out_count
  return (record {
    endpoint = endpoint;
    profile = profile;
    device = device;
    version = bit_and version 0x0F;
    input = input;
    output = output;
  })

-- `ParseSimpleDescriptor`
unfoldable pub parse_simple_descriptor : Bytes → Answer SimpleDescriptor
parse_simple_descriptor = parse read_simple_descriptor

-- Four nibbles in a word; `uint8` of a nibble is the nibble.
unfoldable pub power_of_word : ℕ → PowerDescriptor
power_of_word w = record {
  current_mode = bit_and w 0x0F % 256;
  available_src = bit_and (w / 16) 0x0F % 256;
  current_src = bit_and (w / 256) 0x0F % 256;
  current_level = bit_and (w / 4096) 0x0F % 256;
}

pub read_power_descriptor : Reader PowerDescriptor
read_power_descriptor = do w ← u16; return (power_of_word w)

-- `ParsePowerDescriptor`
unfoldable pub parse_power_descriptor : Bytes → Answer PowerDescriptor
parse_power_descriptor = parse read_power_descriptor

pub data PowerSource : Type 0 where
  mains rechargeable disposable : PowerSource
  unnamed : ℕ → PowerSource

-- `Description`, with a constructor for each text.
unfoldable pub power_description : PowerDescriptor → PowerSource
power_description p =
    if bit_and p.current_src 0x01 == 0
    then (if bit_and p.current_src 0x02 == 0
        then (if bit_and p.current_src 0x04 == 0 then unnamed p.current_src else disposable)
        else rechargeable)
    else mains
