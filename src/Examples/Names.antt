-- ===== src/Examples/Names.antt =====
-- internal/store/name.go, zigbee/devices.go and cmd/gzb/resolve.go at concrete inputs.
use gzb.Base.{ℕ, ◌≡◌, ◌↔◌, refl, arith, true, some, List, [], ◌∷◌, Bytes}
use gzb.Base.Result.{ok, err}
use gzb.Base.Strings.{text, same, same_self, has_prefix}
use gzb.Base.Letters.{lower, equal_fold, contains, trim_space}
use gzb.Store.{
  Device, Endpoint, Store, blank, get, put, before, by_node_id, observe, observe_known,
  unknown_ieee, has_cluster, observe_node_id, observe_found, endpoint_of_cluster, lists_cluster,
}
use gzb.Store.Observe.{joined, heard, record_sighting}
use gzb.Store.Name.{no_device, name_is_taken, set_name, resolve, normalize_name, parse_node_id}
use gzb.Store.Name.Unique.{IsSound}
use gzb.Store.Name.Naming.{Change, sighted, named, change, change_all, change_all-IsSound}
use gzb.Store.Name.Found.{resolve-set_name}
use gzb.Zigbee.Devices.{refused, name_device, clear_device, describe_snapshot}
use gzb.Zigbee.Devices.Placeholders.{name_device_unidentified}
use gzb.Prompt.Resolve.{tier, find_named, resolve_device, with_cluster, by_address}
use gzb.Prompt.Resolve.Tiers.{StandsOut}
use gzb.Prompt.Resolve.Named.{find_named-StandsOut}
use gzb.Prompt.Resolve.Scope.{resolve_device_passes_over}
use gzb.Examples.Letters.{ascii}

abbrev lamp_key : Bytes
lamp_key = text "A4:C1"

abbrev sensor_key : Bytes
sensor_key = text "B5:D2"

-- Two devices join, and the first gets a name.
abbrev changes : List Change
changes =
    sighted (joined lamp_key 1 10)
    ∷ named lamp_key (text " Desk  lamp")
    ∷ sighted (joined sensor_key 2 12)
    ∷ []

nothing-IsSound : IsSound ascii {F = ℕ} []
unfolding get
nothing-IsSound = record { is_map = tt; is_filed = tt; is_unique = λ k j d e gd ge ne f. cc }

change_all-IsSound_example : IsSound ascii {F = ℕ} (change_all ascii [] changes)
change_all-IsSound_example = change_all-IsSound ascii [] changes nothing-IsSound

abbrev lamp : Device ℕ
lamp = record (blank lamp_key) {
  node_id = 1;
  first_seen = some 10;
  last_seen = some 10;
  name = text "Desk lamp";
}

abbrev sensor : Device ℕ
sensor = record (blank sensor_key) { node_id = 2; first_seen = some 12; last_seen = some 12 }

abbrev registry : Store ℕ
registry =
    record { key = lamp_key; device = lamp } ∷ record { key = sensor_key; device = sensor } ∷ []

changed : change_all ascii [] changes ≡ registry
unfolding change_all change record_sighting observe put get set_name same unknown_ieee observe_known
changed = refl

registry-IsSound : IsSound ascii registry
registry-IsSound = rw changed at (change_all-IsSound ascii {F = ℕ} [] changes nothing-IsSound)

-- A name has to differ in more than case from that of another device.
taken : set_name ascii registry sensor_key (text "DESK lamp") ≡ err (name_is_taken lamp_key)
unfolding set_name get
taken = refl

loosely : resolve ascii registry (text "LAMP") ≡ ok lamp
unfolding resolve get before has_prefix contains
loosely = refl

no_lamp : resolve ascii registry (text "0x0003") ≡ err no_device
unfolding resolve get by_node_id
no_lamp = refl

abbrev thermo : Device ℕ
thermo = record sensor { name = text "Thermo" }

abbrev with_thermo : Store ℕ
with_thermo =
    record { key = lamp_key; device = lamp } ∷ record { key = sensor_key; device = thermo } ∷ []

resolve-set_name_example : resolve ascii with_thermo (text "Thermo") ≡ ok thermo
unfolding set_name get put equal_fold same
resolve-set_name_example =
    resolve-set_name ascii refl registry sensor_key (text "Thermo") (with_thermo, thermo)
      registry-IsSound refl (λ j e g h. rw h (same_self (lower ascii (text "Thermo")))) refl

-- A device that was heard before it was seen to join.
abbrev stranger : Device ℕ
stranger = record (blank (unknown_ieee 0x90CB)) {
  node_id = 0x90CB;
  first_seen = some 5;
  last_seen = some 5;
}

abbrev heard_once : List Change
heard_once = sighted (heard 0x90CB 5) ∷ []

abbrev strangers : Store ℕ
strangers = change_all ascii [] heard_once

name_device_unidentified_example :
    (name_device ascii true strangers (text "0x90CB") (text "porch")
      ≡ (strangers, err (refused no_device)))
    × (clear_device ascii true strangers (text "0x90CB") ≡ (strangers, err (refused no_device)))
unfolding resolve get by_node_id unknown_ieee same change_all change record_sighting observe_node_id
    observe_found put parse_node_id
name_device_unidentified_example =
    name_device_unidentified ascii heard_once true (text "0x90CB") (text "porch") 0x90CB stranger
      refl (tt, tt) refl refl

-- Two lights, of which only the second was interviewed.
abbrev plain_lamp : Device ℕ
plain_lamp = record (blank lamp_key) { node_id = 1; name = text "lamp" }

abbrev on_off : Endpoint
on_off = record { id = 1; profile = 0x0104; device = 0x0100; input = 6 ∷ []; output = [] }

abbrev right_lamp : Device ℕ
right_lamp = record (blank sensor_key) {
  node_id = 2;
  name = text "lamp right";
  endpoints = on_off ∷ [];
}

find_named-StandsOut_example :
    (find_named ascii (right_lamp ∷ plain_lamp ∷ []) (text "LAMP") ≡ ok plain_lamp) ↔ (
      (t : ℕ) × StandsOut ascii
        (lower ascii (normalize_name ascii (text "LAMP")))
        (right_lamp ∷ plain_lamp ∷ [])
        plain_lamp
        t)
find_named-StandsOut_example =
    find_named-StandsOut ascii (right_lamp ∷ plain_lamp ∷ []) (text "LAMP") plain_lamp

resolve_device_passes_over_example :
    (resolve_device ascii (plain_lamp ∷ right_lamp ∷ []) (text "lamp") 0
      ≡ ok (record { node = 1; name = describe_snapshot plain_lamp; device = some plain_lamp }))
    × (resolve_device ascii (plain_lamp ∷ right_lamp ∷ []) (text "lamp") 6
        ≡ ok (record { node = 2; name = describe_snapshot right_lamp; device = some right_lamp }))
unfolding with_cluster has_cluster tier has_prefix same by_address parse_node_id trim_space
    normalize_name endpoint_of_cluster lists_cluster
resolve_device_passes_over_example =
    resolve_device_passes_over ascii (plain_lamp ∷ right_lamp ∷ []) (text "lamp") 6 1 plain_lamp
      right_lamp (λ e. omega arith) (refl, refl, refl, refl) (refl, refl, refl, refl)
      ([], right_lamp ∷ [], refl, refl, tt, (omega arith, tt)) ([], [], refl, refl, tt, tt)
