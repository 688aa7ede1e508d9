-- ===== src/Zcl/Reporting/Sound.antt =====
-- internal/zcl: what a reporting configuration that is sent keeps to, and how its response is read.
use gzb.Base.{
  ℕ, ◌+◌, ◌*◌, ◌/◌, ◌%◌, ◌≤◌, ◌≡◌, ◌≢◌, ◌⊎◌, inl, inr, refl, arith, Bool, true, false, not, Option,
  none, some, List, [], ◌∷◌, ◌++◌, map, Bytes, All, IsWord, le16,
}
use gzb.Base.Result.{ok, bind-eq-ok, check}
use gzb.Zcl.Value.{Floats, Value}
use gzb.Zcl.Frame.{Frame}
use gzb.Zcl.Reporting.{
  ReportingConfig, crossed, analog, change_of, config_record, config_records,
  configure_reporting_request, ReportResult, report_results, configure_reporting_response,
  intervals_crossed,
}

module _ {F : Type 0} (fl : Floats F) where
  -- The intervals are in order or reports are off, and an analog type has a reportable change.
  abbrev pub IsSound : ReportingConfig F → Type 0
  IsSound c =
      ((c.max_interval ≡ 0xFFFF) ⊎ (c.min_interval ≤ c.max_interval))
      × ((analog c.type ≡ false) ⊎ (c.change ≢ none))

  change_present :
      (is_analog : Bool) (c : ReportingConfig F) (v : Option (Value F)) (bs : Bytes)
      → change_of fl is_analog c v ≡ ok bs
      → (is_analog ≡ false) ⊎ (v ≢ none)
  unfolding change_of
  change_present false c v bs e = inl refl
  change_present true c none bs e = cc
  change_present true c (some v) bs e = inr (λ h. cc)

  checked :
      (c : ReportingConfig F) (u : Unit {0})
      → check (not (crossed c)) (intervals_crossed c.id) ≡ ok u
      → (c.max_interval ≡ 0xFFFF) ⊎ (c.min_interval ≤ c.max_interval)
  checked c u e = grind arith

  config_record-IsSound :
      (c : ReportingConfig F) (bs : Bytes) → config_record fl c ≡ ok bs → IsSound c
  unfolding config_record
  config_record-IsSound c bs e =
      let (u, ordered, rest) = bind-eq-ok (check (not (crossed c)) (intervals_crossed c.id)) _ e in
      let (change, present, _) = bind-eq-ok (change_of fl (analog c.type) c c.change) _ rest in
      (checked c u ordered, change_present (analog c.type) c c.change change present)

  config_records-IsSound :
      (cs : List (ReportingConfig F)) (bs : Bytes) → config_records fl cs ≡ ok bs → All IsSound cs
  unfolding config_records
  config_records-IsSound [] bs e = tt
  config_records-IsSound (c ∷ cs) bs e =
      let (first, this, rest) = bind-eq-ok (config_record fl c) _ e in
      let (more, others, _) = bind-eq-ok (config_records fl cs) _ rest in
      (config_record-IsSound c first this, config_records-IsSound cs more others)

  -- A reporting configuration that is sent configures at least one attribute, and in each the minimum
  -- interval is not above the maximum unless that is 0xFFFF, and an analog type has a reportable change.
  pub configure_reporting_request-IsSound :
      (seq : ℕ) (cs : List (ReportingConfig F)) (bs : Bytes)
      → configure_reporting_request fl seq cs ≡ ok bs
      → (cs ≢ []) × All IsSound cs
  unfolding configure_reporting_request
  configure_reporting_request-IsSound seq [] bs e = cc
  configure_reporting_request-IsSound seq (c ∷ cs) bs e =
      let (more, all, _) = bind-eq-ok (config_records fl (c ∷ cs)) _ e in
      (λ h. cc, config_records-IsSound (c ∷ cs) more all)

-- The records of a response, one after the other.
abbrev pub reported : List ReportResult → Bytes
reported [] = []
reported (r ∷ rs) = r.status ∷ r.direction ∷ (le16 r.id ++ reported rs)

abbrev pub HasWordId : ReportResult → Type 0
HasWordId r = IsWord r.id

report_results-reported :
    (rs : List ReportResult) → All HasWordId rs → report_results (reported rs) ≡ (rs, true)
unfolding report_results
report_results-reported [] h = refl
report_results-reported (r ∷ rs) h =
    let same : r.id % 256 + r.id / 256 % 256 * 256 ≡ r.id = omega arith in
    rw (report_results-reported rs h.1, same) refl

-- A profile-wide frame with the command of a configuration response gives exactly the results that it
-- lists, in order, if it lists at least one and their identifiers have 16 bits; with a single success
-- byte it gives a success for each attribute asked for; neither has an error.
pub configure_reporting_response-reported :
    (f : Frame) (rs : List ReportResult) (r : ReportResult) (requested : List ℕ)
    → f.type ≡ 0
    → f.command ≡ 0x07
    → All HasWordId (r ∷ rs)
    → (configure_reporting_response (record f { payload = reported (r ∷ rs) }) requested
        ≡ (r ∷ rs, none))
      × (configure_reporting_response (record f { payload = 0x00 ∷ [] }) requested
          ≡ (map (λ id. record { id = id; direction = 0; status = 0 }) requested, none))
unfolding configure_reporting_response
configure_reporting_response-reported f rs r requested e k h =
    (simp (e, k) (rw (report_results-reported (r ∷ rs) h) refl), simp (e, k) refl)
