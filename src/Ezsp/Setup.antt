-- ===== src/Ezsp/Setup.antt =====
-- internal/ezsp: what `Open` tells the adapter behind the version handshake (config.go, endpoint.go and
-- `restoreNetwork` of conn.go), and the policies that let devices join (policy.go).
pub mod Secured
use gzb.Base.{
  ℕ, ◌%◌, Bool, true, false, not, ◌||◌, Option, none, some, List, [], ◌∷◌, ◌++◌, ◌==◌, ltb,
  if◌then◌else◌, Bytes, length, le16, bit_and,
}
use gzb.Base.Result.{Result, ok, err}
use gzb.Cursor.{Reader, u8, u16, put_ieee}
use gzb.Ezsp.Commands.{network_state}
use gzb.Ezsp.Network.{alliance_key, network_init_id, network_init}
use gzb.Ezsp.Talk.{
  Command, Ncp, Talk, Failure, refused, oversized, ineffective, fixed, ◌>>=◌, ◌>>◌, demand, lift,
  give, best_effort, ask, order, recover,
}

abbrev pub get_configuration_value_id : ℕ
get_configuration_value_id = 0x0052

abbrev pub set_configuration_value_id : ℕ
set_configuration_value_id = 0x0053

abbrev pub set_policy_id : ℕ
set_policy_id = 0x0055

abbrev pub get_policy_id : ℕ
get_policy_id = 0x0056

abbrev pub add_transient_link_key_id : ℕ
add_transient_link_key_id = 0x00AF

abbrev pub add_endpoint_id : ℕ
add_endpoint_id = 0x0002

-- A status, and a value behind it: `r.err` is tested before the status.
read_byte : Reader (ℕ × ℕ)
read_byte c = let (status, c1) = u8 c in let (value, c2) = u8 c1 in ((status, value), c2)

read_word : Reader (ℕ × ℕ)
read_word c = let (status, c1) = u8 c in let (value, c2) = u16 c1 in ((status, value), c2)

-- `GetConfigurationValue`
unfoldable pub get_configuration_value : ℕ → Talk ℕ
unfolding read_word
get_configuration_value id = do
  (status, value) ← ask get_configuration_value_id (id ∷ []) read_word
  demand (status == 0) (refused get_configuration_value_id status)
  give value

-- `SetConfigurationValue`
unfoldable pub set_configuration_value : ℕ → ℕ → Talk (Unit {0})
set_configuration_value id value = order set_configuration_value_id (id ∷ le16 value)

-- The loop of `applyConfiguration`: a value that the adapter refuses must be the one it has.
unfoldable pub configure : ℕ → ℕ → Talk (Unit {0})
configure id value =
    recover (set_configuration_value id value)
      (λ _. get_configuration_value id >>= λ got. demand (got == value) (fixed id got))

unfoldable pub configure_all : List (ℕ × ℕ) → Talk (Unit {0})
configure_all [] = give tt
configure_all (w ∷ ws) = configure w.0 w.1 >> configure_all ws

-- `requiredConfig`: the stack profile, the indirect transmission timeout and the security level.
abbrev pub required_config : List (ℕ × ℕ)
required_config = (0x0C, 2) ∷ (0x12, 30000) ∷ (0x0D, 5) ∷ []

-- `applyConfiguration`
unfoldable pub apply_configuration : Talk (Unit {0})
apply_configuration = configure_all required_config

-- An entry of `Configuration`: none for "unsupported".
pub record ConfigValue : Type 0 where
  pub id : ℕ
  pub value : Option ℕ

abbrev pub as_value : Result Failure ℕ → Option ℕ
as_value (ok v) = some v
as_value (err e) = none

-- `Configuration`: the entries, and whether the context ended it; `ended` says whether the context has
-- ended when these commands have been sent.
unfoldable pub configuration :
    (List Command → Bool) → List ℕ → Ncp → List Command → (List ConfigValue × Bool) × List Command
configuration ended [] ncp sent = (([], false), sent)
configuration ended (id ∷ ids) ncp sent =
    let (r, sent') = get_configuration_value id ncp sent in
    let ((rest, cut), out) = configuration ended ids ncp sent' in
    elim r [
      | ok v ↦ ((record { id = id; value = some v } ∷ rest, cut), out)
      | err e ↦
          if ended sent'
          then (([], true), sent')
          else ((record { id = id; value = none } ∷ rest, cut), out)
    ]

pub record Endpoint : Type 0 where
  pub id : ℕ
  pub profile : ℕ
  pub device : ℕ
  pub version : ℕ
  pub input : List ℕ
  pub output : List ℕ

-- `DefaultEndpoint`
abbrev pub default_endpoint : Endpoint
default_endpoint = record {
  id = 1;
  profile = 0x0104;
  device = 0x0005;
  version = 0;
  input = 0x0000 ∷ 0x0003 ∷ 0x000A ∷ 0x0019 ∷ [];
  output =
      0x0000 ∷ 0x0001 ∷ 0x0003 ∷ 0x0004 ∷ 0x0005 ∷ 0x0006 ∷ 0x0008 ∷ 0x0020 ∷ 0x0300 ∷ 0x0400
      ∷ 0x0402 ∷ 0x0403 ∷ 0x0405 ∷ 0x0406 ∷ 0x0500 ∷ 0x0702 ∷ 0x0B04 ∷ [];
}

-- The loops over the clusters.
unfoldable pub le16_each : List ℕ → Bytes
le16_each [] = []
le16_each (c ∷ cs) = le16 c ++ le16_each cs

unfoldable pub endpoint_params : Endpoint → Bytes
endpoint_params ep =
    ep.id
    ∷ (le16 ep.profile
        ++ (le16 ep.device
            ++ (ep.version
                ∷ length ep.input % 256
                ∷ length ep.output % 256
                ∷ (le16_each ep.input ++ le16_each ep.output))))

-- `AddEndpoint`
unfoldable pub add_endpoint : Endpoint → Talk (Unit {0})
add_endpoint ep = do
  demand (not (ltb 255 (length ep.input) || ltb 255 (length ep.output))) oversized
  order add_endpoint_id (endpoint_params ep)

-- `registerEndpoints`: the state of the network is asked for only to word the error.
unfoldable pub register_endpoints : Talk (Unit {0})
register_endpoints =
    recover (add_endpoint default_endpoint) (λ e. best_effort 0 network_state >> lift (err e))

abbrev pub status_not_joined : ℕ
status_not_joined = 0x93

-- `restoreNetwork`: the wait at its end succeeds whatever ends it.
unfoldable pub restore_network : Talk (Unit {0})
restore_network = do
  status ← network_init
  demand (status == status_not_joined || status == 0) (refused network_init_id status)

-- The part of `Open` behind the version handshake.
unfoldable pub set_up : Talk (Unit {0})
set_up = do apply_configuration; register_endpoints; restore_network

-- `SetPolicy`
unfoldable pub set_policy : ℕ → ℕ → Talk (Unit {0})
set_policy id decision = order set_policy_id (id ∷ decision ∷ [])

-- `GetPolicy`
unfoldable pub get_policy : ℕ → Talk ℕ
unfolding read_byte
get_policy id = do
  (status, decision) ← ask get_policy_id (id ∷ []) read_byte
  demand (status == 0) (refused get_policy_id status)
  give decision

-- `AddTransientLinkKey`
unfoldable pub add_transient_link_key : Bytes → Bytes → Talk (Unit {0})
add_transient_link_key partner key = order add_transient_link_key_id (put_ieee partner ++ key)

abbrev pub broadcast_eui64 : Bytes
broadcast_eui64 = 255 ∷ 255 ∷ 255 ∷ 255 ∷ 255 ∷ 255 ∷ 255 ∷ 255 ∷ []

-- The end of `AllowJoins`: the policy that was read back, and a key that the adapter may refuse.
unfoldable pub offer_key : ℕ → Talk (Unit {0})
offer_key got = do
  demand (not (bit_and got 0x01 == 0)) ineffective
  best_effort tt (add_transient_link_key broadcast_eui64 alliance_key)

unfoldable pub verify_policy : Talk (Unit {0})
verify_policy = get_policy 0x00 >>= offer_key

-- `AllowJoins`: the trust centre's policy 0x00 gets 0x01 | 0x02, its key request policy 0x05 gets 0x51.
unfoldable pub allow_joins : Talk (Unit {0})
allow_joins = do set_policy 0x00 0x03; set_policy 0x05 0x51; verify_policy
