-- ===== src/Ezsp/Scan/Sweep.antt =====
-- internal/ezsp/scan.go: the loop of `ScanNetworks`, and the layouts that its decoders read.
use gzb.Base.{
  ℕ, ◌≡◌, refl, sym, arith, ◌==◌, not, true, none, some, List, [], ◌∷◌, ◌++◌, map, Bytes, IsWord,
  All, ap, ◌∙◌, length, le16, if◌then◌else◌, append-nil,
}
use gzb.Base.Int.{pattern_of, in_range, signed-pattern_of}
use gzb.Base.Result.{ok}
use gzb.Cursor.{put_ieee}
use gzb.Cursor.At.{at, at-nil, u8-at, u16-le16, ieee-put_ieee}
use gzb.Ezsp.Scan.{
  FoundNetwork, read_network_found, decode_network_found, read_scan_complete, decode_scan_complete,
  network_found_handler, scan_complete_handler, Wake, heard, sweep, failed, merge_network,
}
use gzb.Ezsp.Scan.Merge.{
  merge_all, find, summary, of_network, find-merge_all-summary, IsDistinct, merge_all-IsDistinct,
}

-- channel(1) panId(2) extendedPanId(8) allowingJoin(1) stackProfile(1) nwkUpdateId(1) lastHopLqi(1)
-- lastHopRssi(1)
abbrev pub beacon : FoundNetwork → Bytes
beacon n =
    n.channel
    ∷ (le16 n.pan_id
        ++ (put_ieee n.extended_pan_id
            ++ ((if n.allowing_join then 1 else 0)
                ∷ n.stack_profile
                ∷ n.nwk_update_id
                ∷ n.lqi
                ∷ pattern_of 128 n.rssi
                ∷ [])))

pub record IsBeacon (n : FoundNetwork) : Type 0 where
  pub pan_word : IsWord n.pan_id
  pub eight : length n.extended_pan_id ≡ 8
  pub rssi_signed : in_range 128 n.rssi ≡ true

open_flag : (n : FoundNetwork) → not ((if n.allowing_join then 1 else 0) == 0) ≡ n.allowing_join
open_flag n = ground arith

read_network_found-beacon :
    (n : FoundNetwork) (rest : Bytes)
    → IsBeacon n
    → read_network_found (at [] (beacon n ++ rest)) ≡ (n, at (beacon n) rest)
unfolding read_network_found put_ieee
read_network_found-beacon n rest h =
    rw
      (
        u8-at,
        u16-le16 _ n.pan_id _ h.pan_word,
        ieee-put_ieee _ n.extended_pan_id _ h.eight,
        u8-at,
        u8-at,
        u8-at,
        u8-at,
        u8-at,
        signed-pattern_of 128 n.rssi h.rssi_signed,
        open_flag n,
      )
      refl

-- A beacon in the documented layout is read back whole, and what follows it is ignored.
pub decode_network_found-beacon :
    (n : FoundNetwork) (rest : Bytes) → IsBeacon n → decode_network_found (beacon n ++ rest) ≡ ok n
unfolding decode_network_found at
decode_network_found-beacon n rest h =
    rw (at-nil (beacon n ++ rest), read_network_found-beacon n rest h) refl

abbrev pub beacon_message : ℕ → FoundNetwork → Wake
beacon_message seq n =
    heard
      (record { sequence = seq; id = network_found_handler; callback = true; params = beacon n })

abbrev pub complete_message : ℕ → ℕ → ℕ → Wake
complete_message seq channel status = heard (record {
  sequence = seq;
  id = scan_complete_handler;
  callback = true;
  params = channel ∷ status ∷ [];
})

decode_scan_complete-read :
    (channel status : ℕ) → decode_scan_complete (channel ∷ status ∷ []) ≡ ok (channel, status)
unfolding decode_scan_complete read_scan_complete at
decode_scan_complete-read channel status = rw (at-nil (channel ∷ status ∷ []), u8-at, u8-at) refl

module _ (seq channel : ℕ) (later : List Wake) where
  sweep-merges :
      (status : ℕ) (found bs : List FoundNetwork)
      → All IsBeacon bs
      → sweep found (map (beacon_message seq) bs ++ complete_message seq channel status ∷ later)
        ≡ some (merge_all found bs, if status == 0 then none else some (failed channel status))
  unfolding sweep merge_all
  sweep-merges status found [] h = rw (decode_scan_complete-read channel status) (ground arith)
  sweep-merges status found (b ∷ bs) h =
      rw
        (ap decode_network_found (sym (append-nil (beacon b)))
          ∙ decode_network_found-beacon b [] h.0)
        (sweep-merges status (merge_network found b) bs h.1)

  -- A scan that hears beacons in the documented layout, in whatever order, and then the end of the
  -- sweep with success, returns without an error a list that has each network once, and for each network
  -- the identity of its first beacon, open if one of its beacons is, with the signal of the first of
  -- its strongest beacons; and nothing for a network without a beacon.
  pub sweep-summary :
      (bs : List FoundNetwork)
      → All IsBeacon bs
      → (found : List FoundNetwork) × (sweep []
            (map (beacon_message seq) bs ++ complete_message seq channel 0 ∷ later)
          ≡ some (found, none))
        × IsDistinct found
        × ((k : FoundNetwork) → find k found ≡ summary (of_network k bs))
  sweep-summary bs h = (
    merge_all [] bs,
    sweep-merges 0 [] bs h,
    merge_all-IsDistinct [] bs tt,
    λ k. find-merge_all-summary k bs,
  )
