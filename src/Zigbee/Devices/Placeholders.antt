-- ===== src/Zigbee/Devices/Placeholders.antt =====
-- zigbee/devices.go: a device that is known by its network address alone cannot be named.
use gzb.Base.{ℕ, ◌≡◌, refl, ap, ◌∙◌, Bool, none, List, [], Bytes, All}
use gzb.Base.Result.{Result, ok, err}
use gzb.Base.Letters.{Text, Letters, upper}
use gzb.Store.{Device, Store, get, unknown_ieee}
use gzb.Store.Name.{NameError, no_device, resolve, set_name, clear_name, clear_name_of}
use gzb.Store.Name.Naming.{Change, change_all}
use gzb.Zigbee.Devices.{
  refused, name_device, name_found, name_device_of, clear_device, clear_found, clear_device_of,
}
use gzb.Store.Name.Addresses.{JoinsByAddress, change_all-HasKeys, no_capital_key}

module _ {F : Type 0} (letters : Letters) where
  set_name_missing :
      (s : Store F) (ieee : Bytes) (name : Text)
      → get s (upper letters ieee) ≡ none
      → set_name letters s ieee name ≡ err no_device
  unfolding set_name
  set_name_missing s ieee name h = rw h refl

  name_device-found :
      (saves : Bool) (s : Store F) (query name : Text)
      → name_device letters saves s query name
        ≡ name_found letters saves s (resolve letters s query) name
  unfolding name_device
  name_device-found saves s query name = refl

  name_found_missing :
      (saves : Bool) (s : Store F) (d : Device F) (name : Text)
      → get s (upper letters d.ieee) ≡ none
      → name_found letters saves s (ok d) name ≡ (s, err (refused no_device))
  unfolding name_found
  name_found_missing saves s d name h =
      ap (name_device_of letters saves s) (set_name_missing s d.ieee name h)

  clear_name_missing :
      (s : Store F) (ieee : Bytes)
      → get s (upper letters ieee) ≡ none
      → clear_name letters s ieee ≡ err no_device
  unfolding clear_name clear_name_of
  clear_name_missing s ieee h = rw h refl

  clear_device-found :
      (saves : Bool) (s : Store F) (query : Text)
      → clear_device letters saves s query ≡ clear_found letters saves s (resolve letters s query)
  unfolding clear_device
  clear_device-found saves s query = refl

  clear_found_missing :
      (saves : Bool) (s : Store F) (d : Device F)
      → get s (upper letters d.ieee) ≡ none
      → clear_found letters saves s (ok d) ≡ (s, err (refused no_device))
  unfolding clear_found
  clear_found_missing saves s d h =
      ap (clear_device_of letters saves s) (clear_name_missing s d.ieee h)

-- After any history of joins, traffic, removals and names that starts with an empty registry and in
-- which no join is of an address that begins with a capital U: whenever a query finds a device that
-- is known by its network address alone, whose key is "unknown:" with this address, `SetName` and
-- `ClearName` of the coordinator both fail for that query with "no such device" and leave the
-- registry as it is. Of the capitals it is assumed that U is that of u.
pub name_device_unidentified :
    {F : Type 0} (letters : Letters) (changes : List Change) (saves : Bool) (query name : Text)
    (node : ℕ) (d : Device F)
    → letters.to_upper b'u' ≡ b'U'
    → All JoinsByAddress changes
    → resolve letters (change_all letters {F = F} [] changes) query ≡ ok d
    → d.ieee ≡ unknown_ieee node
    → (name_device {F = F} letters saves (change_all letters [] changes) query name
        ≡ (change_all letters [] changes, err (refused no_device)))
      × (clear_device {F = F} letters saves (change_all letters [] changes) query
          ≡ (change_all letters [] changes, err (refused no_device)))
name_device_unidentified {F} letters changes saves query name node d u joins found own =
    let s : Store F = change_all letters [] changes in
    let keys = change_all-HasKeys letters [] changes tt joins in
    let missing : get s (upper letters d.ieee) ≡ none =
      ap (λ t. get s (upper letters t)) own ∙ no_capital_key letters s node keys u in
    (
      name_device-found letters saves s query name
          ∙ ap (λ (t : Result (NameError F) (Device F)). name_found letters saves s t name) found
          ∙ name_found_missing letters saves s d name missing,
      clear_device-found letters saves s query
          ∙ ap (λ (t : Result (NameError F) (Device F)). clear_found letters saves s t) found
          ∙ clear_found_missing letters saves s d missing,
    )
