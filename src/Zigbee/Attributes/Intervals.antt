-- ===== src/Zigbee/Attributes/Intervals.antt =====
-- zigbee/attributes.go: what `ConfigureReporting` makes of a configuration.
use gzb.Base.{ℕ, ◌≡◌, ◌≢◌, ◌≤◌, ◌*◌, refl, subst, ap, arith, Bool, true, false, Option, none, some}
use gzb.Base.Int.{ℤ, pos, negsuc}
use gzb.Base.Result.{ok, bind-eq-ok}
use gzb.Zcl.Reporting.{ReportingConfig, analog}
use gzb.Zcl.Value.{Value}
use gzb.Zigbee.Attributes.{
  ReportConfig, report_interval, second, seconds_of, change_or_zero, reporting_record,
}

report_interval-whole :
    (d : ℤ) (n : ℕ) → report_interval d ≡ some n → (d ≡ pos (n * second)) × (n ≤ 65535)
unfolding report_interval
report_interval-whole (pos k) n h =
    let at : (k ≡ n * second) × (n ≤ 65535) = ground arith in (ap pos at.0, at.1)
report_interval-whole (negsuc k) n h = cc

seconds_of-ok : (o : Option ℕ) (n : ℕ) → seconds_of o ≡ ok n → o ≡ some n
seconds_of-ok none n h = cc
seconds_of-ok (some m) n h = cc

some_change :
    {F : Type 0} (is_analog : Bool) (v : Option (Value F))
    → is_analog ≡ true
    → change_or_zero is_analog v ≢ none
some_change true none a h = cc
some_change true (some v) a h = cc
some_change false v a h = cc

abbrev pub IsWhole : {F : Type 0} → ReportConfig F → ReportingConfig F → Type 0
IsWhole c r =
    (r.id ≡ c.id)
    × (r.type ≡ c.type)
    × (c.min ≡ pos (r.min_interval * second))
    × (c.max ≡ pos (r.max_interval * second))
    × (r.min_interval ≤ 65535)
    × (r.max_interval ≤ 65535)
    × (analog c.type ≡ true → r.change ≢ none)

-- A configuration that `ConfigureReporting` does not refuse has intervals of a whole number of
-- seconds, which fit 16 bits and are the intervals sent, for the same attribute and type; and one of
-- an analog type is sent with a change.
pub reporting_record-IsWhole :
    {F : Type 0} (c : ReportConfig F) (r : ReportingConfig F)
    → reporting_record c ≡ ok r
    → IsWhole c r
unfolding reporting_record
reporting_record-IsWhole {F} c r h =
    let (lo, e1, h1) = bind-eq-ok (seconds_of (report_interval c.min)) _ h in
    let (hi, e2, h2) = bind-eq-ok (seconds_of (report_interval c.max)) _ h1 in
    let (lo_is, lo_word) = report_interval-whole c.min lo (seconds_of-ok _ lo e1) in
    let (hi_is, hi_word) = report_interval-whole c.max hi (seconds_of-ok _ hi e2) in
    let sent : ReportingConfig F = record {
      id = c.id;
      type = c.type;
      min_interval = lo;
      max_interval = hi;
      change = change_or_zero (analog c.type) c.change;
    } in
    let is : sent ≡ r = cc in
    subst (IsWhole c) is
      (refl, refl, lo_is, hi_is, lo_word, hi_word, some_change (analog c.type) c.change)
