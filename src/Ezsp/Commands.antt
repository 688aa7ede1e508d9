-- ===== src/Ezsp/Commands.antt =====
-- internal/ezsp/commands.go: the commands that read the state of the adapter, and channel masks.
use gzb.Base.{
  ℕ, zero, suc, ◌^◌, Bool, List, [], ◌∷◌, ◌==◌, if◌then◌else◌, Bytes, none, some, bit_and, not,
  ◌||◌,
}
use gzb.Base.Int.{ℤ, signed}
use gzb.Base.Result.{Result, ok, err}
use gzb.Cursor.{Cursor, Reader, ◌>>=◌, return, new_buf, u8, u16, u32, ieee}
use gzb.Ezsp.Talk.{Talk, Failure, reading, refused, ask, call, whole}

pub record NetworkParameters : Type 0 where
  pub extended_pan_id : Bytes
  pub pan_id : ℕ
  pub radio_tx_power : ℤ
  pub radio_channel : ℕ
  pub join_method : ℕ
  pub nwk_manager_id : ℕ
  pub nwk_update_id : ℕ
  pub channels : ℕ

abbrev pub get_network_state : ℕ
get_network_state = 0x0018

abbrev pub get_eui64 : ℕ
get_eui64 = 0x0026

abbrev pub get_node_id : ℕ
get_node_id = 0x0027

abbrev pub get_network_parameters : ℕ
get_network_parameters = 0x0028

abbrev pub default_channel_mask : ℕ
default_channel_mask = 0x07FFF800

-- `NetworkState`
unfoldable pub network_state : Talk ℕ
network_state = ask get_network_state [] u8

-- `NetworkStatus.Joined`
abbrev pub joined : ℕ → Bool
joined status = status == 0x02 || status == 0x03

-- `EUI64`
unfoldable pub eui64 : Talk Bytes
eui64 = ask get_eui64 [] ieee

-- `NodeID`
unfoldable pub node_id : Talk ℕ
node_id = ask get_node_id [] u16

-- The second part of the reply.
unfoldable pub read_network_parameters : Reader NetworkParameters
read_network_parameters = do
  extended_pan_id ← ieee
  pan_id ← u16
  radio_tx_power ← u8
  radio_channel ← u8
  join_method ← u8
  nwk_manager_id ← u16
  nwk_update_id ← u8
  channels ← u32
  return (record {
    extended_pan_id = extended_pan_id;
    pan_id = pan_id;
    radio_tx_power = signed 128 radio_tx_power;
    radio_channel = radio_channel;
    join_method = join_method;
    nwk_manager_id = nwk_manager_id;
    nwk_update_id = nwk_update_id;
    channels = channels;
  })

unfoldable pub read_status : Reader (ℕ × ℕ)
read_status = do status ← u8; node_type ← u8; return (status, node_type)

abbrev pub with_type : ℕ → Result Failure NetworkParameters → Result Failure (ℕ × NetworkParameters)
with_type node_type (ok np) = ok (node_type, np)
with_type node_type (err e) = err e

unfoldable pub after_status : (ℕ × ℕ) × Cursor → Result Failure (ℕ × NetworkParameters)
after_status ((status, node_type), r) = elim r.failure [
  | some e ↦ err (reading e)
  | none ↦
      if not (status == 0)
      then err (refused get_network_parameters status)
      else with_type node_type (whole (read_network_parameters r))
]

unfoldable pub read_network_reply : Bytes → Result Failure (ℕ × NetworkParameters)
unfolding read_status after_status
read_network_reply reply = after_status (read_status (new_buf reply))

-- `NetworkParameters`: the node's type and the parameters.
unfoldable pub network_parameters : Talk (ℕ × NetworkParameters)
network_parameters = call get_network_parameters [] read_network_reply

-- The loop of `ChannelList`, over so many channels from `ch` on.
unfoldable pub channels_from : ℕ → ℕ → ℕ → List ℕ
channels_from mask ch zero = []
channels_from mask ch (suc n) =
    let rest = channels_from mask (suc ch) n in
    if not (bit_and mask (2 ^ ch) == 0) then ch ∷ rest else rest

-- `ChannelList`: 11 to 26.
unfoldable pub channel_list : ℕ → List ℕ
channel_list mask = channels_from mask 11 16
