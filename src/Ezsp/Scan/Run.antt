-- ===== src/Ezsp/Scan/Run.antt =====
-- internal/ezsp/scan.go: `ScanNetworks` as a whole, and the time it allows.
use gzb.Base.{
  ℕ, ◌+◌, ◌*◌, ◌^◌, not, Option, none, some, List, ◌∷◌, [], ◌++◌, ◌==◌, ltb, if◌then◌else◌, le32,
  bit_and, length,
}
use gzb.Base.Result.{Result, ok, err}
use gzb.Ezsp.Talk.{Talk, Failure, out_of_range, ◌>>=◌, ◌>>◌, demand, command, lift, give}
use gzb.Ezsp.Commands.{default_channel_mask, channel_list}
use gzb.Ezsp.Scan.{Wake, Swept, sweep, start_scan, scan_active, max_scan_duration, start_scan_error}

abbrev started : Option Failure → Result Failure (Unit {0})
started none = ok tt
started (some e) = err e

-- `ScanNetworks`, with the events that its loop takes.
unfoldable pub scan_networks : ℕ → ℕ → List Wake → Talk (Option Swept)
scan_networks mask duration ws = do
  demand (not (ltb max_scan_duration duration)) out_of_range
  demand (not (bit_and mask default_channel_mask == 0)) out_of_range
  reply ← command start_scan (scan_active ∷ (le32 mask ++ duration ∷ []))
  lift (started (start_scan_error reply))
  give (sweep [] ws)

-- `scanTimeout`, in microseconds.
unfoldable pub scan_timeout : ℕ → ℕ → ℕ
scan_timeout mask duration =
    let channels = length (channel_list mask) in
    (2 ^ duration + 1) * 15360 * (if channels == 0 then 16 else channels) + 10000000
