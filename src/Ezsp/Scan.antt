-- ===== src/Ezsp/Scan.antt =====
-- internal/ezsp/scan.go: an active scan, and the list of the networks heard in it. The time that a
-- scan may take is left out: that it has run out is one of the events.
pub mod Merge
pub mod Sweep
pub mod Run
use gzb.Base.{
  ℕ, ◌+◌, Bool, true, false, not, ◌&&◌, Option, none, some, List, [], ◌∷◌, ◌==◌, ltb, if◌then◌else◌,
  Bytes, le32, bit_and, ◌++◌, length, ◌^◌, ◌*◌,
}
use gzb.Base.Int.{ℤ, signed}
use gzb.Base.Result.{Result, ok, err}
use gzb.Base.Strings.{same}
use gzb.Cursor.{Cursor, ReadError, Reader, ◌>>=◌, return, new_buf, u8, u16, u32, ieee}
use gzb.Ezsp.Protocol.{Message}
use gzb.Ezsp.Talk.{Failure, refused, empty_reply, sl_status}

pub record FoundNetwork : Type 0 where
  pub channel : ℕ
  pub pan_id : ℕ
  pub extended_pan_id : Bytes
  pub allowing_join : Bool
  pub stack_profile : ℕ
  pub nwk_update_id : ℕ
  pub lqi : ℕ
  pub rssi : ℤ

-- `SameNetwork`
unfoldable pub same_network : FoundNetwork → FoundNetwork → Bool
same_network n o =
    n.channel == o.channel && n.pan_id == o.pan_id && same n.extended_pan_id o.extended_pan_id

abbrev pub start_scan : ℕ
start_scan = 0x001A

abbrev pub scan_active : ℕ
scan_active = 0x01

abbrev pub max_scan_duration : ℕ
max_scan_duration = 14

abbrev pub finish : {A : Type 0} → A × Cursor → Result ReadError A
finish (a, c) = elim c.failure [ none ↦ ok a | some e ↦ err e ]

unfoldable pub read_network_found : Reader FoundNetwork
read_network_found = do
  channel ← u8
  pan_id ← u16
  extended_pan_id ← ieee
  allowing_join ← u8
  stack_profile ← u8
  nwk_update_id ← u8
  lqi ← u8
  rssi ← u8
  return (record {
    channel = channel;
    pan_id = pan_id;
    extended_pan_id = extended_pan_id;
    allowing_join = not (allowing_join == 0);
    stack_profile = stack_profile;
    nwk_update_id = nwk_update_id;
    lqi = lqi;
    rssi = signed 128 rssi;
  })

-- `decodeNetworkFound`
unfoldable pub decode_network_found : Bytes → Result ReadError FoundNetwork
decode_network_found params = finish (read_network_found (new_buf params))

unfoldable pub read_scan_complete : Reader (ℕ × ℕ)
read_scan_complete = do channel ← u8; status ← u8; return (channel, status)

-- `decodeScanComplete`: the channel and the status.
unfoldable pub decode_scan_complete : Bytes → Result ReadError (ℕ × ℕ)
decode_scan_complete params = finish (read_scan_complete (new_buf params))

-- `startScanError`: a status of one byte, or of four.
unfoldable pub start_scan_error : Bytes → Option Failure
start_scan_error [] = some empty_reply
start_scan_error (a ∷ b ∷ c ∷ d ∷ rest) =
    let v = (u32 (new_buf (a ∷ b ∷ c ∷ d ∷ rest))).0 in if v == 0 then none else some (sl_status v)
start_scan_error (a ∷ rest) = if a == 0 then none else some (refused start_scan a)

-- The entry of a network that is heard again.
unfoldable pub hear : FoundNetwork → FoundNetwork → FoundNetwork
hear f n =
    let opened : FoundNetwork = if n.allowing_join then record f { allowing_join = true } else f in
    if ltb f.lqi n.lqi then record opened { lqi = n.lqi; rssi = n.rssi } else opened

-- `mergeNetwork`
unfoldable pub merge_network : List FoundNetwork → FoundNetwork → List FoundNetwork
merge_network [] n = n ∷ []
merge_network (f ∷ fs) n =
    let rest = merge_network fs n in if not (same_network f n) then f ∷ rest else hear f n ∷ fs

abbrev pub network_found_handler : ℕ
network_found_handler = 0x001B

abbrev pub scan_complete_handler : ℕ
scan_complete_handler = 0x001C

-- What the `select` of `ScanNetworks` takes.
pub data Wake : Type 0 where
  heard : Message → Wake
  closed ctx_done : Wake

pub data ScanError : Type 0 where
  closed timeout : ScanError
  decoding : ReadError → ScanError
  failed : ℕ → ℕ → ScanError

abbrev pub Swept : Type 0
Swept = List FoundNetwork × Option ScanError

abbrev pub settle : List FoundNetwork → Result ReadError (ℕ × ℕ) → Swept
settle found (err e) = (found, some (decoding e))
settle found (ok (channel, status)) =
    if status == 0 then (found, none) else (found, some (failed channel status))

-- The loop of `ScanNetworks`: the networks, and the error beside them. `none` says that the events
-- given are used up.
unfoldable pub sweep : List FoundNetwork → List Wake → Option Swept
sweep found [] = none
sweep found (closed ∷ ws) = some (found, some ScanError.closed)
sweep found (ctx_done ∷ ws) = some (found, some timeout)
sweep found (heard m ∷ ws) =
    if m.id == network_found_handler
    then elim (decode_network_found m.params) [
      | ok n ↦ sweep (merge_network found n) ws
      | err e ↦ some (found, some (decoding e))
    ]
    else if m.id == scan_complete_handler
    then some (settle found (decode_scan_complete m.params))
    else sweep found ws
