-- ===== src/Zigbee/Description.antt =====
-- zigbee/interview.go: what an interview learns of a device, what it inherits from a device of the same
-- model, and what it writes to the registry of Store. What `Save` returns is an argument.
pub mod Keeps
use gzb.Base.{
  ℕ, ◌+◌, Bool, true, false, not, ◌&&◌, ◌||◌, Option, none, some, List, [], ◌∷◌, ◌++◌, ◌==◌,
  if◌then◌else◌, Bytes, map,
}
use gzb.Base.Result.{Result, ok, err}
use gzb.Base.Strings.{same}
use gzb.Ezsp.Commands.{joined}
use gzb.Ezsp.Talk.{Failure}
use gzb.Ezsp.Send.{RequestError}
use gzb.Store
use gzb.Store.{
  Device, Entry, Store, is_empty, never, get, put, by_node_id, describe, identified, peer_of_model,
  lists_cluster, has_cluster,
}
use gzb.Zigbee.Query.{
  QueryError, NodeDescriptor, PowerDescriptor, Endpoint, node_descriptor, power_descriptor,
  active_endpoints, simple_descriptor, is_mains, is_sleepy,
}

pub data Problem : Type 0 where
  asking : QueryError → Problem
  saving : ℕ → Problem

pub record Description : Type 0 where
  pub ieee : Bytes
  pub device_name : Bytes
  pub node_id : ℕ
  pub manufacturer : Bytes
  pub model : Bytes
  pub node : Option NodeDescriptor
  pub power : Option PowerDescriptor
  pub endpoints : List Endpoint
  pub at : ℕ
  pub inherited_from : Bytes
  pub inherited_from_name : Bytes
  pub problems : List Problem

-- `Description{NodeID: node, At: time.Now()}`
abbrev pub new_description : ℕ → ℕ → Description
new_description node now = record {
  ieee = [];
  device_name = [];
  node_id = node;
  manufacturer = [];
  model = [];
  node = none;
  power = none;
  endpoints = [];
  at = now;
  inherited_from = [];
  inherited_from_name = [];
  problems = [];
}

abbrev pub cluster_basic : ℕ
cluster_basic = 0x0000

abbrev pub basic_endpoint_guess : ℕ
basic_endpoint_guess = 1

abbrev pub or_guess : Option ℕ → ℕ
or_guess (some ep) = ep
or_guess none = basic_endpoint_guess

-- A node descriptor of a role and a capability: what the registry does not keep stays zero.
abbrev pub partial_node : Bytes → Bool → Bool → ℕ → NodeDescriptor
partial_node role mains sleepy capability = record {
  logical_type = role;
  mains = mains;
  sleepy = sleepy;
  capability = capability;
  manufacturer_code = 0;
  max_buffer_size = 0;
  max_incoming_size = 0;
  max_outgoing_size = 0;
  server_mask = 0;
}

abbrev kept_node : Bytes → Option ℕ → Option NodeDescriptor
kept_node role none = if is_empty role then none else some (partial_node role false false 0)
kept_node role (some c) = some (partial_node role (is_mains c) (is_sleepy c) c)

-- `inheritedNode`
unfoldable pub inherited_node : {F : Type 0} → Device F → Option NodeDescriptor
inherited_node peer = kept_node peer.node_type peer.capability

-- `inheritedPower`
unfoldable pub inherited_power : {F : Type 0} → Device F → Option PowerDescriptor
inherited_power peer =
    if is_empty peer.power_source
    then none
    else some (record { source = peer.power_source; level = 0 })

abbrev pub of_stored : Store.Endpoint → Endpoint
of_stored ep = record {
  id = ep.id;
  profile = ep.profile;
  device_id = ep.device;
  version = 0;
  input = ep.input;
  output = ep.output;
}

abbrev pub to_stored : Endpoint → Store.Endpoint
to_stored ep = record {
  id = ep.id;
  profile = ep.profile;
  device = ep.device_id;
  input = ep.input;
  output = ep.output;
}

-- `endpointsOf`
unfoldable pub endpoints_of : {F : Type 0} → Device F → List Endpoint
endpoints_of peer = map of_stored peer.endpoints

-- `learnedSomething`
abbrev has_value : {A : Type 0} → Option A → Bool
has_value none = false
has_value (some a) = true

unfoldable pub learned_something : Description → Bool
learned_something desc =
    has_value desc.node
    || has_value desc.power
    || not (is_empty desc.endpoints)
    || not (is_empty desc.manufacturer)
    || not (is_empty desc.model)

-- `if desc.X != "" { device.X = desc.X }`
abbrev pub unless_empty : {A : Type 0} → List A → List A → List A
unless_empty [] old = old
unless_empty (x ∷ xs) old = x ∷ xs

abbrev node_type_or : Option NodeDescriptor → Bytes → Bytes
node_type_or none old = old
node_type_or (some nd) old = nd.logical_type

abbrev capability_or : Option NodeDescriptor → Option ℕ → Option ℕ
capability_or none old = old
capability_or (some nd) old = some nd.capability

abbrev source_or : Option PowerDescriptor → Bytes → Bytes
source_or none old = old
source_or (some pd) old = pd.source

abbrev with_problem : Option ℕ → Description → Description
with_problem none desc = desc
with_problem (some e) desc = record desc { problems = desc.problems ++ saving e ∷ [] }

module _ {F : Type 0} where
  -- `applyInterview`
  unfoldable pub apply_interview : Device F → Description → Device F
  apply_interview d desc =
      let d' : Device F = record d {
        last_seen = some desc.at;
        manufacturer = unless_empty desc.manufacturer d.manufacturer;
        model = unless_empty desc.model d.model;
        node_type = node_type_or desc.node d.node_type;
        capability = capability_or desc.node d.capability;
        power_source = source_or desc.power d.power_source;
      } in
      if is_empty desc.endpoints then d' else record d' {
        endpoints = map to_stored desc.endpoints;
        interviewed = some desc.at;
        inherited_from = desc.inherited_from;
      }

  -- `inherit`
  unfoldable pub inherit : Description → Device F → Description
  inherit desc peer = record desc {
    inherited_from = peer.ieee;
    inherited_from_name = describe peer;
    node = inherited_node peer;
    power = inherited_power peer;
    endpoints = endpoints_of peer;
  }

  abbrev pub inherited : Description → Option (Device F) → Option Description
  inherited desc none = none
  inherited desc (some peer) = some (inherit desc peer)

  -- `inheritFromPeer`: the description with the peer's answers, if there is a peer.
  abbrev pub from_peer : Store F → Description → Option (Entry F) → Option Description
  from_peer s desc none = none
  from_peer s desc (some e) =
      if not (never e.device.interviewed) && is_empty e.device.inherited_from
      then none
      else inherited desc (peer_of_model s desc.manufacturer desc.model e.device.ieee)

  unfoldable pub inherit_from_peer : Store F → ℕ → Description → Option Description
  inherit_from_peer s node desc = from_peer s desc (by_node_id s node)

  -- `basicEndpoint`
  abbrev known_endpoint : Option (Entry F) → ℕ
  known_endpoint none = basic_endpoint_guess
  known_endpoint (some e) = or_guess (has_cluster e.device cluster_basic)

  unfoldable pub basic_endpoint : Store F → ℕ → ℕ
  basic_endpoint s node = known_endpoint (by_node_id s node)

  -- The end of `recordInterview`: the identity of the device.
  unfoldable pub with_identity : Device F → Description → Description
  with_identity d desc =
      if identified d
      then record desc { ieee = d.ieee; device_name = describe d }
      else if not (same (describe d) d.ieee)
      then record desc { device_name = describe d }
      else desc

  -- `recordInterview`, on the record of the device.
  unfoldable pub record_in :
      Option (Entry F) → Store F → Description → Option ℕ → Store F × Description
  record_in none s desc save = (s, desc)
  record_in (some e) s desc save =
      if learned_something desc
      then (
        put s e.key (apply_interview e.device desc),
        with_identity (apply_interview e.device desc) (with_problem save desc),
      )
      else (s, with_identity e.device desc)

  unfoldable pub record_interview : Store F → ℕ → Description → Option ℕ → Store F × Description
  record_interview s node desc save = record_in (by_node_id s node) s desc save
