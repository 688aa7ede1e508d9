-- ===== src/Zigbee/Attributes.antt =====
-- zigbee/attributes.go: `WriteAttributes` and `ConfigureReporting`. Names in a result are left out, and
-- so is the status of one that succeeded.
pub mod Intervals
pub mod Outcomes
use gzb.Base.{
  ℕ, ◌%◌, ◌/◌, ◌^◌, Bool, true, false, not, ◌||◌, Option, none, some, List, [], ◌∷◌, map, ◌==◌, ltb,
  if◌then◌else◌, Bytes,
}
use gzb.Base.Int.{ℤ, pos, negsuc}
use gzb.Base.Result.{Result, ok, err, ◌>>=◌}
use gzb.Ezsp.Send.{Wake}
use gzb.Ezsp.Talk.{Failure, Ncp, Command}
use gzb.Zcl.Frame.{
  Frame, Attribute, FrameError, WriteResult, write_attributes_request, write_attributes_rsp,
  write_response,
}
use gzb.Zcl.Reporting.{
  ReportingConfig, ReportingError, ReportResult, analog, configure_reporting_request,
  configure_reporting_response,
}
use gzb.Zcl.Value.{Floats, Value, uint64}
use gzb.Zigbee.Command.{Target, ZclError, next_sequence, zcl_request}

-- `AttributeResult`
pub record AttributeResult : Type 0 where
  pub id : ℕ
  pub done : Bool
  pub status : Option ℕ

-- `attributeResult`
unfoldable pub attribute_result : ℕ → ℕ → AttributeResult
attribute_result id status = record {
  id = id;
  done = status == 0;
  status = if status == 0 then none else some status;
}

pub data OrderError (E : Type 0) : Type 0 where
  nothing_asked : OrderError E
  interval_unsuited : OrderError E
  building parsing : E → OrderError E
  asking : ZclError → OrderError E

-- The results, or the error that `WriteResponse` or its like returns beside them.
abbrev pub listed :
    {E A : Type 0}
    → (A → AttributeResult)
    → List A × Option E
    → Result (OrderError E) (List AttributeResult)
listed result (out, none) = ok (map result out)
listed result (out, some e) = err (parsing e)

abbrev pub outcomes :
    {E A : Type 0}
    → (A → AttributeResult)
    → (Frame → List A × Option E)
    → Option (Result ZclError Frame)
    → Option (Result (OrderError E) (List AttributeResult))
outcomes result parse none = none
outcomes result parse (some (err e)) = some (err (asking e))
outcomes result parse (some (ok f)) = some (listed result (parse f))

abbrev pub write_result : WriteResult → AttributeResult
write_result r = attribute_result r.id r.status

abbrev pub report_result : ReportResult → AttributeResult
report_result r = attribute_result r.id r.status

-- The end of both: the request that was built, sent, and the results in its response.
unfoldable pub order_attributes :
    {E A : Type 0}
    → (A → AttributeResult)
    → (Frame → List A × Option E)
    → (Bytes → List Command → Option (Result ZclError Frame) × List Command)
    → List Command
    → Result E Bytes
    → Option (Result (OrderError E) (List AttributeResult)) × List Command
order_attributes result parse send sent (err e) = (some (err (building e)), sent)
order_attributes result parse send sent (ok payload) =
    let (r, sent') = send payload sent in (outcomes result parse r, sent')

-- `ReportConfig`, with durations in nanoseconds.
pub record ReportConfig (F : Type 0) : Type 0 where
  pub id : ℕ
  pub type : ℕ
  pub min : ℤ
  pub max : ℤ
  pub change : Option (Value F)

abbrev pub second : ℕ
second = 10 ^ 9

-- `reportInterval`: the seconds, unless the interval is negative, not whole or too long.
unfoldable pub report_interval : ℤ → Option ℕ
report_interval (negsuc n) = none
report_interval (pos n) =
    if not (n % second == 0)
    then none
    else if ltb 65535 (n / second)
    then none
    else some (n / second)

abbrev pub change_or_zero : {F : Type 0} → Bool → Option (Value F) → Option (Value F)
change_or_zero true none = some (uint64 0)
change_or_zero true (some v) = some v
change_or_zero false v = v

abbrev pub seconds_of : Option ℕ → Result (OrderError ReportingError) ℕ
seconds_of none = err interval_unsuited
seconds_of (some n) = ok n

-- The body of the loop of `ConfigureReporting`, and the loop.
unfoldable pub reporting_record :
    {F : Type 0} → ReportConfig F → Result (OrderError ReportingError) (ReportingConfig F)
reporting_record c = do
  min ← seconds_of (report_interval c.min)
  max ← seconds_of (report_interval c.max)
  ok (record {
    id = c.id;
    type = c.type;
    min_interval = min;
    max_interval = max;
    change = change_or_zero (analog c.type) c.change;
  })

unfoldable pub reporting_records :
    {F : Type 0}
    → List (ReportConfig F)
    → Result (OrderError ReportingError) (List (ReportingConfig F))
reporting_records [] = ok []
reporting_records (c ∷ cs) = do r ← reporting_record c; rs ← reporting_records cs; ok (r ∷ rs)

module _ {F : Type 0} (fl : Floats F) (shut : Bool) (expired : Failure → Bool) (t : Target)
    (ws : List Wake) (ncp : Ncp) where
  -- `WriteAttributes`
  unfoldable pub write_attributes :
      List (Attribute F)
      → ℕ
      → List Command
      → Option (Result (OrderError FrameError) (List AttributeResult)) × ℕ × List Command
  write_attributes [] counter sent = (some (err nothing_asked), counter, sent)
  write_attributes (w ∷ writes) counter sent =
      let (seq, counter') = next_sequence counter in
      let (r, sent') =
        order_attributes write_result
          (λ f. write_response f (map (λ (a : Attribute F). a.id) (w ∷ writes)))
          (λ payload. zcl_request shut expired t seq write_attributes_rsp payload ws ncp) sent
          (write_attributes_request fl seq (w ∷ writes)) in
      (r, counter', sent')

  abbrev pub with_records :
      List ℕ
      → ℕ
      → List Command
      → Result (OrderError ReportingError) (List (ReportingConfig F))
      → Option (Result (OrderError ReportingError) (List AttributeResult)) × ℕ × List Command
  with_records ids counter sent (err e) = (some (err e), counter, sent)
  with_records ids counter sent (ok rs) =
      let (seq, counter') = next_sequence counter in
      let (r, sent') =
        order_attributes report_result (λ f. configure_reporting_response f ids)
          (λ payload. zcl_request shut expired t seq 0x07 payload ws ncp) sent
          (configure_reporting_request fl seq rs) in
      (r, counter', sent')

  -- `ConfigureReporting`
  unfoldable pub configure_reporting :
      List (ReportConfig F)
      → ℕ
      → List Command
      → Option (Result (OrderError ReportingError) (List AttributeResult)) × ℕ × List Command
  configure_reporting [] counter sent = (some (err nothing_asked), counter, sent)
  configure_reporting (c ∷ configs) counter sent =
      with_records (map (λ (a : ReportConfig F). a.id) (c ∷ configs)) counter sent
        (reporting_records (c ∷ configs))
