-- ===== src/Zigbee/Devices.antt =====
-- zigbee/devices.go: the registry as an application sees it. Whether the registry can be saved is an
-- argument; what is in memory stays as the call left it.
pub mod Placeholders
use gzb.Base.{
  ℕ, Bool, true, false, not, ◌&&◌, Option, none, some, List, [], ◌∷◌, ◌++◌, map, if◌then◌else◌,
  Bytes,
}
use gzb.Base.Result.{Result, ok, err}
use gzb.Base.Letters.{Text, Letters}
use gzb.Store.{Device, Store, identified, is_empty, hex_word, has_cluster}
use gzb.Store.Name.{NameError, list_devices, resolve, set_name, clear_name}

-- `SetName` and `ClearName` fail as the registry does, or because it cannot be saved.
pub data DeviceError (F : Type 0) : Type 0 where
  refused : NameError F → DeviceError F
  not_saved : DeviceError F

module _ {F : Type 0} where
  -- `snapshotDevice`: the fields that the public record has are those of the registry.
  unfoldable pub snapshot_device : Device F → Device F
  unfolding identified
  snapshot_device d = record d { ieee = if identified d then d.ieee else [] }

  -- `Describe` of a public record; a space stands between the two.
  unfoldable pub describe_snapshot : Device F → Bytes
  unfolding hex_word
  describe_snapshot d =
      if not (is_empty d.name)
      then d.name
      else if not (is_empty d.manufacturer) && not (is_empty d.model)
      then d.manufacturer ++ 32 ∷ d.model
      else if not (is_empty d.model)
      then d.model
      else if not (is_empty d.ieee)
      then d.ieee
      else hex_word d.node_id

  -- `Endpoint`
  unfoldable pub endpoint_for : Device F → ℕ → Option ℕ
  unfolding has_cluster
  endpoint_for d cluster = has_cluster d cluster

  -- `Devices`
  unfoldable pub devices : Store F → List (Device F)
  unfolding list_devices snapshot_device
  devices s = map snapshot_device (list_devices s)

  module _ (letters : Letters) where
    abbrev from_registry :
        {A B : Type 0} → (A → B) → Result (NameError F) A → Result (DeviceError F) B
    from_registry f (ok a) = ok (f a)
    from_registry f (err e) = err (refused e)

    -- `Device`
    unfoldable pub device : Store F → Text → Result (DeviceError F) (Device F)
    unfolding resolve snapshot_device
    device s query = from_registry snapshot_device (resolve letters s query)

    -- The end of `SetName` and of `ClearName`.
    abbrev pub saved_as : {A : Type 0} → Bool → Store F → A → Store F × Result (DeviceError F) A
    saved_as true s a = (s, ok a)
    saved_as false s a = (s, err not_saved)

    -- `SetName`
    unfoldable pub name_device_of :
        Bool
        → Store F
        → Result (NameError F) (Store F × Device F)
        → Store F × Result (DeviceError F) (Device F)
    unfolding snapshot_device
    name_device_of saves s (ok (s', d)) = saved_as saves s' (snapshot_device d)
    name_device_of saves s (err e) = (s, err (refused e))

    unfoldable pub name_found :
        Bool
        → Store F
        → Result (NameError F) (Device F)
        → Text
        → Store F × Result (DeviceError F) (Device F)
    unfolding name_device_of set_name
    name_found saves s (ok d) name = name_device_of saves s (set_name letters s d.ieee name)
    name_found saves s (err e) name = (s, err (refused e))

    unfoldable pub name_device :
        Bool → Store F → Text → Text → Store F × Result (DeviceError F) (Device F)
    unfolding name_found resolve
    name_device saves s query name = name_found saves s (resolve letters s query) name

    -- `ClearName`
    unfoldable pub clear_device_of :
        Bool
        → Store F
        → Result (NameError F) (Store F × Device F × Text)
        → Store F × Result (DeviceError F) (Device F × Text)
    unfolding snapshot_device
    clear_device_of saves s (ok (s', d, was)) = saved_as saves s' (snapshot_device d, was)
    clear_device_of saves s (err e) = (s, err (refused e))

    unfoldable pub clear_found :
        Bool
        → Store F
        → Result (NameError F) (Device F)
        → Store F × Result (DeviceError F) (Device F × Text)
    unfolding clear_device_of clear_name
    clear_found saves s (ok d) = clear_device_of saves s (clear_name letters s d.ieee)
    clear_found saves s (err e) = (s, err (refused e))

    unfoldable pub clear_device :
        Bool → Store F → Text → Store F × Result (DeviceError F) (Device F × Text)
    unfolding clear_found resolve
    clear_device saves s query = clear_found saves s (resolve letters s query)
