-- ===== src/Examples/Scan.antt =====
-- internal/ezsp/scan.go at concrete inputs.
use gzb.Base.{◌≡◌, refl, arith, true, false, none, some, List, [], ◌∷◌, ◌++◌, map, All}
use gzb.Base.Int.{negsuc}
use gzb.Ezsp.Scan.{FoundNetwork, sweep}
use gzb.Ezsp.Scan.Merge.{IsDistinct, find, summary, of_network}
use gzb.Ezsp.Scan.Sweep.{IsBeacon, beacon_message, complete_message, sweep-summary}

-- Two beacons of one network and one of another.
abbrev first : FoundNetwork
first = record {
  channel = 15;
  pan_id = 0x1A62;
  extended_pan_id = 1 ∷ 2 ∷ 3 ∷ 4 ∷ 5 ∷ 6 ∷ 7 ∷ 8 ∷ [];
  allowing_join = false;
  stack_profile = 2;
  nwk_update_id = 0;
  lqi = 90;
  rssi = negsuc 69;
}

abbrev stronger : FoundNetwork
stronger = record first { allowing_join = true; lqi = 200; rssi = negsuc 39 }

abbrev neighbour : FoundNetwork
neighbour = record first { pan_id = 0x0001 }

abbrev beacons : List FoundNetwork
beacons = first ∷ neighbour ∷ stronger ∷ []

beacons-IsBeacon : All IsBeacon beacons
beacons-IsBeacon = (
  record { pan_word = omega arith; eight = refl; rssi_signed = refl },
  (
    record { pan_word = omega arith; eight = refl; rssi_signed = refl },
    (record { pan_word = omega arith; eight = refl; rssi_signed = refl }, tt),
  ),
)

sweep-summary_example :
    (found : List FoundNetwork) × (sweep []
        (map (beacon_message 7) beacons ++ complete_message 7 0xFF 0 ∷ [])
      ≡ some (found, none))
    × IsDistinct found
    × ((k : FoundNetwork) → find k found ≡ summary (of_network k beacons))
sweep-summary_example = sweep-summary 7 0xFF [] beacons beacons-IsBeacon
