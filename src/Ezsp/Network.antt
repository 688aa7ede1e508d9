-- ===== src/Ezsp/Network.antt =====
-- internal/ezsp/network.go: forming, joining and leaving a network. Random bytes are an argument, and
-- so are the events that the wait for the network takes.
pub mod Layout
pub mod Guard
pub mod Start
pub mod Filled
pub mod Forming
pub mod Joining
use gzb.Base.{
  ℕ, zero, suc, ◌+◌, ◌^◌, Bool, true, false, not, ◌&&◌, ◌||◌, Option, none, some, List, [], ◌∷◌,
  ◌++◌, ◌==◌, ltb, if◌then◌else◌, Bytes, le16, le32, word16,
}
use gzb.Base.Int.{ℤ, pos, pattern_of}
use gzb.Base.Result.{Result, ok, err}
use gzb.Base.Strings.{same}
use gzb.Cursor.{new_buf, u8, put_ieee}
use gzb.Ezsp.Conn.{CommandError}
use gzb.Ezsp.Commands.{
  NetworkParameters, default_channel_mask, network_state, joined, network_parameters, node_id,
  eui64,
}
use gzb.Ezsp.Protocol.{Message}
use gzb.Ezsp.Talk.{
  Talk, Failure, commanding, refused, out_of_range, on_network, unnamed, unsuitable, no_random,
  unusable, not_up, ◌>>=◌, ◌>>◌, demand, lift, give, best_effort, ask, order, whole,
}

abbrev pub set_extended_security_bitmask_id : ℕ
set_extended_security_bitmask_id = 0x0066

abbrev pub set_initial_security_state_id : ℕ
set_initial_security_state_id = 0x0068

abbrev pub form_network_id : ℕ
form_network_id = 0x001E

abbrev pub join_network_id : ℕ
join_network_id = 0x001F

abbrev pub leave_network_id : ℕ
leave_network_id = 0x0020

abbrev pub network_init_id : ℕ
network_init_id = 0x0017

abbrev pub permit_joining_id : ℕ
permit_joining_id = 0x0022

abbrev pub stack_status_handler : ℕ
stack_status_handler = 0x0019

-- `EUI64{}` and `[16]byte{}`
abbrev pub no_address : Bytes
no_address = 0 ∷ 0 ∷ 0 ∷ 0 ∷ 0 ∷ 0 ∷ 0 ∷ 0 ∷ []

abbrev pub no_key : Bytes
no_key = no_address ++ no_address

-- "ZigBeeAlliance09"
abbrev pub alliance_key : Bytes
alliance_key =
    90 ∷ 105 ∷ 103 ∷ 66 ∷ 101 ∷ 101 ∷ 65 ∷ 108 ∷ 108 ∷ 105 ∷ 97 ∷ 110 ∷ 99 ∷ 101 ∷ 48 ∷ 57 ∷ []

-- The bit masks, whose bits are distinct, so that `|` is a sum.
abbrev pub coordinator_security : ℕ
coordinator_security = 0x0100 + 0x0200 + 0x0800 + 0x0004

abbrev pub joiner_security : ℕ
joiner_security = 0x0100 + 0x0800 + 0x0004 + 0x0400 + 0x1000

abbrev pub joiner_extended_security : ℕ
joiner_extended_security = 0x0010 + 0x0020 + 0x0080

-- `securityStateParams`
unfoldable pub security_state_params : ℕ → Bytes → Bytes
security_state_params bitmask key =
    le16 bitmask ++ (alliance_key ++ (key ++ (0 ∷ put_ieee no_address)))

-- `setInitialSecurityState`
unfoldable pub set_initial_security_state : ℕ → Bytes → Talk (Unit {0})
set_initial_security_state bitmask key =
    order set_initial_security_state_id (security_state_params bitmask key)

-- `setExtendedSecurityBitmask`
unfoldable pub set_extended_security_bitmask : ℕ → Talk (Unit {0})
set_extended_security_bitmask bitmask = order set_extended_security_bitmask_id (le16 bitmask)

-- `SetJoinerSecurityState`
unfoldable pub set_joiner_security_state : Talk (Unit {0})
set_joiner_security_state = do
  set_initial_security_state joiner_security no_key
  best_effort tt (set_extended_security_bitmask joiner_extended_security)

-- `networkParams`
unfoldable pub network_params : NetworkParameters → Bytes
network_params np =
    put_ieee np.extended_pan_id
    ++ (le16 np.pan_id
        ++ (pattern_of 128 np.radio_tx_power
            ∷ np.radio_channel
            ∷ np.join_method
            ∷ (le16 np.nwk_manager_id ++ (np.nwk_update_id ∷ le32 np.channels))))

pub record FormationConfig : Type 0 where
  pub channel : ℕ
  pub pan_id : ℕ
  pub extended_pan_id : Bytes
  pub network_key : Bytes
  pub tx_power : ℤ

pub record FormationResult : Type 0 where
  pub channel : ℕ
  pub pan_id : ℕ
  pub extended_pan_id : Bytes
  pub network_key : Bytes
  pub tx_power : ℤ
  pub node_id : ℕ
  pub ieee : Bytes

-- What `rand.Read` gives: a key, an extended PAN ID, and the draws of `randomPanID`; or an error.
pub record Randoms : Type 0 where
  pub key : Option Bytes
  pub extended : Option Bytes
  pub draws : ℕ → Option (ℕ × ℕ)

-- A draw is taken if it is neither of the reserved values.
abbrev pub taken : Option (ℕ × ℕ) → Result Failure ℕ → Result Failure ℕ
taken none rest = err no_random
taken (some (a, b)) rest =
    let id = word16 a b in if not (id == 0x0000) && not (id == 0xFFFF) then ok id else rest

-- The loop of `randomPanID`.
unfoldable pub draw_pan_id : ℕ → ℕ → (ℕ → Option (ℕ × ℕ)) → Result Failure ℕ
draw_pan_id zero i draws = err unusable
draw_pan_id (suc left) i draws = taken (draws i) (draw_pan_id left (suc i) draws)

-- `randomPanID`
unfoldable pub random_pan_id : (ℕ → Option (ℕ × ℕ)) → Result Failure ℕ
random_pan_id draws = draw_pan_id 8 0 draws

abbrev pub read_random : Option Bytes → Result Failure Bytes
read_random none = err no_random
read_random (some b) = ok b

-- A field that is left open is filled in, unless that fails.
abbrev pub fill :
    {A : Type 0}
    → Bool
    → FormationConfig
    → (A → FormationConfig)
    → Result Failure A
    → Result Failure FormationConfig
fill false cfg put r = ok cfg
fill true cfg put (ok a) = ok (put a)
fill true cfg put (err e) = err e

unfoldable pub with_key : FormationConfig → Randoms → Result Failure FormationConfig
with_key cfg rnd =
    fill (same cfg.network_key no_key) cfg (λ b. record cfg { network_key = b })
      (read_random rnd.key)

unfoldable pub with_extended : FormationConfig → Randoms → Result Failure FormationConfig
with_extended cfg rnd =
    fill (same cfg.extended_pan_id no_address) cfg (λ b. record cfg { extended_pan_id = b })
      (read_random rnd.extended)

unfoldable pub with_pan_id : FormationConfig → Randoms → Result Failure FormationConfig
with_pan_id cfg rnd =
    fill (cfg.pan_id == 0) cfg (λ id. record cfg { pan_id = id }) (random_pan_id rnd.draws)

-- `if cfg.TxPower == 0 { cfg.TxPower = 8 }`
unfoldable pub power_or_default : ℤ → ℤ
power_or_default (pos zero) = pos 8
power_or_default z = z

-- What the `select` of `awaitNetworkUp` takes before its deadline, with which the list ends.
pub data UpWake : Type 0 where
  status_message : Message → UpWake
  closed : UpWake

abbrev pub status_network_up : ℕ
status_network_up = 0x90

-- A status that is reported: it ends the wait, unless it is "success".
abbrev pub decided : Result Failure ℕ → Result Failure (Unit {0}) → Result Failure (Unit {0})
decided (err e) rest = rest
decided (ok status) rest =
    if status == status_network_up
    then ok tt
    else if not (status == 0)
    then err (refused stack_status_handler status)
    else rest

-- `awaitNetworkUp`
unfoldable pub await_network_up : List UpWake → Result Failure (Unit {0})
await_network_up [] = err not_up
await_network_up (closed ∷ ws) = err (commanding CommandError.closed)
await_network_up (status_message m ∷ ws) =
    decided (whole (u8 (new_buf m.params))) (await_network_up ws)

-- Channels 11 to 26.
unfoldable pub zigbee_channel : ℕ → Bool
zigbee_channel ch = not (ltb ch 11 || ltb 26 ch)

abbrev pub formed : FormationConfig → NetworkParameters
formed cfg = record {
  extended_pan_id = cfg.extended_pan_id;
  pan_id = cfg.pan_id;
  radio_tx_power = power_or_default cfg.tx_power;
  radio_channel = cfg.channel;
  join_method = 0;
  nwk_manager_id = 0;
  nwk_update_id = 0;
  channels = default_channel_mask;
}

-- The read-back at the end of `FormNetwork` and `JoinNetwork`: the role, the parameters, the address
-- and the EUI-64, of which the last two are zero where they cannot be read.
unfoldable pub read_back : Talk (ℕ × NetworkParameters × ℕ × Bytes)
read_back = do
  (node_type, np) ← network_parameters
  node ← best_effort 0 node_id
  addr ← best_effort no_address eui64
  give (node_type, np, node, addr)

-- The checks that come before a network is formed or joined.
unfoldable pub off_network : Talk (Unit {0})
off_network = do state ← network_state; demand (not (joined state)) on_network

-- `FormNetwork`
unfoldable pub form_network : FormationConfig → Randoms → List UpWake → Talk FormationResult
form_network cfg rnd ups = do
  demand (zigbee_channel cfg.channel) out_of_range
  off_network
  keyed ← lift (with_key cfg rnd)
  named ← lift (with_extended keyed rnd)
  placed ← lift (with_pan_id named rnd)
  set_initial_security_state coordinator_security placed.network_key
  order form_network_id (network_params (formed placed))
  lift (await_network_up ups)
  (_, np, node, addr) ← read_back
  give (record {
    channel = np.radio_channel;
    pan_id = np.pan_id;
    extended_pan_id = np.extended_pan_id;
    network_key = placed.network_key;
    tx_power = np.radio_tx_power;
    node_id = node;
    ieee = addr;
  })

pub record JoinConfig : Type 0 where
  pub channel : ℕ
  pub pan_id : ℕ
  pub extended_pan_id : Bytes
  pub nwk_update_id : ℕ
  pub tx_power : ℤ
  pub node_type : ℕ

pub record JoinResult : Type 0 where
  pub node_type : ℕ
  pub channel : ℕ
  pub pan_id : ℕ
  pub extended_pan_id : Bytes
  pub tx_power : ℤ
  pub node_id : ℕ
  pub ieee : Bytes

-- The defaults of `JoinNetwork`: 8 dBm, and the role of a router.
unfoldable pub with_defaults : JoinConfig → JoinConfig
with_defaults cfg = record cfg {
  tx_power = power_or_default cfg.tx_power;
  node_type = if cfg.node_type == 0 then 2 else cfg.node_type;
}

-- A router, an end device or a sleepy end device.
unfoldable pub joining_role : ℕ → Bool
joining_role node_type = node_type == 2 || node_type == 3 || node_type == 4

-- `joinParams`
unfoldable pub join_params : JoinConfig → Bytes
join_params cfg =
    cfg.node_type
    ∷ network_params (record {
      extended_pan_id = cfg.extended_pan_id;
      pan_id = cfg.pan_id;
      radio_tx_power = cfg.tx_power;
      radio_channel = cfg.channel;
      join_method = 0;
      nwk_manager_id = 0;
      nwk_update_id = cfg.nwk_update_id;
      channels = 2 ^ cfg.channel;
    })

-- `JoinNetwork`
unfoldable pub join_network : JoinConfig → List UpWake → Talk JoinResult
join_network cfg ups = do
  demand (zigbee_channel cfg.channel) out_of_range
  demand (not (same cfg.extended_pan_id no_address)) unnamed
  demand (joining_role (with_defaults cfg).node_type) unsuitable
  off_network
  set_joiner_security_state
  order join_network_id (join_params (with_defaults cfg))
  lift (await_network_up ups)
  (node_type, np, node, addr) ← read_back
  give (record {
    node_type = node_type;
    channel = np.radio_channel;
    pan_id = np.pan_id;
    extended_pan_id = np.extended_pan_id;
    tx_power = np.radio_tx_power;
    node_id = node;
    ieee = addr;
  })

-- `LeaveNetwork`
unfoldable pub leave_network : Talk (Unit {0})
leave_network = order leave_network_id []

-- `NetworkInit`: the status, whatever it is.
unfoldable pub network_init : Talk ℕ
network_init = ask network_init_id (0x00 ∷ 0x00 ∷ []) u8

-- `PermitJoining`
unfoldable pub permit_joining : ℕ → Talk (Unit {0})
permit_joining seconds = order permit_joining_id (seconds ∷ [])
