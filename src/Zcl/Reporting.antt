-- ===== src/Zcl/Reporting.antt =====
-- internal/zcl/encode.go and zcl.go: the configuration of reports, and the responses to it.
pub mod Sound
use gzb.Base.{
  ℕ, ◌+◌, ◌%◌, Bool, true, false, not, ◌&&◌, ◌||◌, Option, none, some, List, [], ◌∷◌, ◌++◌, map,
  ◌==◌, ltb, leb, if◌then◌else◌, Bytes, le16, word16,
}
use gzb.Base.Result.{Result, ok, err, ◌>>=◌, ◌>>◌, check}
use gzb.Zcl.Value.{Floats, Value, EncodeError, encode_value}
use gzb.Zcl.Frame.{Frame, is_success}

abbrev between : ℕ → ℕ → ℕ → Bool
between low high t = leb low t && leb t high

-- `Analog`
unfoldable pub analog : ℕ → Bool
analog t = between 0x20 0x27 t || between 0x28 0x2F t || between 0x38 0x3A t || between 0xE0 0xE2 t

-- `change` is `none` where the source has nil.
pub record ReportingConfig (F : Type 0) : Type 0 where
  pub id : ℕ
  pub type : ℕ
  pub min_interval : ℕ
  pub max_interval : ℕ
  pub change : Option (Value F)

pub data ReportingError : Type 0 where
  nothing_to_configure : ReportingError
  intervals_crossed : ℕ → ReportingError
  change_required : ℕ → ReportingError
  encoding : ℕ → EncodeError → ReportingError
  not_this_command : ℕ → ReportingError
  truncated_record : ReportingError

abbrev pub max_interval_disabled : ℕ
max_interval_disabled = 0xFFFF

-- `cfg.Max != MaxIntervalDisabled && cfg.Min > cfg.Max`
abbrev pub crossed : {F : Type 0} → ReportingConfig F → Bool
crossed c = not (c.max_interval == max_interval_disabled) && ltb c.max_interval c.min_interval

module _ {F : Type 0} (fl : Floats F) where
  abbrev encoded_change : ℕ → Result EncodeError Bytes → Result ReportingError Bytes
  encoded_change id (ok bs) = ok bs
  encoded_change id (err e) = err (encoding id e)

  -- The reportable change, which only an analog type has.
  unfoldable pub change_of :
      Bool → ReportingConfig F → Option (Value F) → Result ReportingError Bytes
  change_of false c v = ok []
  change_of true c none = err (change_required c.id)
  change_of true c (some v) = encoded_change c.id (encode_value fl c.type v)

  unfoldable pub config_record : ReportingConfig F → Result ReportingError Bytes
  config_record c = do
    check (not (crossed c)) (intervals_crossed c.id)
    change ← change_of (analog c.type) c c.change
    ok ((0x00 ∷ le16 c.id) ++ (c.type ∷ (le16 c.min_interval ++ (le16 c.max_interval ++ change))))

  unfoldable pub config_records : List (ReportingConfig F) → Result ReportingError Bytes
  config_records [] = ok []
  config_records (c ∷ cs) = do bs ← config_record c; more ← config_records cs; ok (bs ++ more)

  -- `ConfigureReportingRequest`
  unfoldable pub configure_reporting_request :
      ℕ → List (ReportingConfig F) → Result ReportingError Bytes
  configure_reporting_request seq [] = err nothing_to_configure
  configure_reporting_request seq (c ∷ cs) = do
    bs ← config_records (c ∷ cs)
    ok (0x00 ∷ seq ∷ 0x06 ∷ bs)

pub record ReportResult : Type 0 where
  pub id : ℕ
  pub direction : ℕ
  pub status : ℕ

-- The loop of `ConfigureReportingResponse`: four bytes to a record, and an error on fewer.
unfoldable pub report_results : Bytes → List ReportResult × Bool
report_results [] = ([], true)
report_results (status ∷ direction ∷ a ∷ b ∷ bs) =
    let (rest, whole) = report_results bs in
    (record { id = word16 a b; direction = direction; status = status } ∷ rest, whole)
report_results _ = ([], false)

-- `ConfigureReportingResponse`. A truncation is told without its offset.
unfoldable pub configure_reporting_response :
    Frame → List ℕ → List ReportResult × Option ReportingError
configure_reporting_response f requested =
    if not (f.type == 0) || not (f.command == 0x07)
    then ([], some (not_this_command f.command))
    else if is_success f.payload
    then (map (λ (id : ℕ). record { id = id; direction = 0; status = 0 }) requested, none)
    else (let (out, whole) = report_results f.payload in
        (out, if whole then none else some truncated_record))
