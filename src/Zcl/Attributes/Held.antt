-- ===== src/Zcl/Attributes/Held.antt =====
-- internal/zcl/zcl.go: `ReadReportingConfigResponse`, the reporting that a device holds. The loop runs on
-- one unit of fuel for each byte.
use gzb.Base.{
  ℕ, zero, suc, ◌-◌, ◌≤◌, ◌<◌, ◌≡◌, refl, arith, Bool, true, false, not, ◌&&◌, ◌||◌, Option, none,
  some, List, [], ◌∷◌, ◌==◌, ==_iff, if◌then◌else◌, Bool-cases, inl, inr, Bytes, length, take, drop,
}
use gzb.Cursor.{Cursor, new_buf, u8, u16, remaining}
use gzb.Cursor.Progress.{remaining-guarded, remaining-guarded_lt}
use gzb.Zcl.Attributes.{AttributesError, decoding, no_records}
use gzb.Zcl.Attributes.Ends.{remaining-u8, remaining-decode_value}
use gzb.Zcl.Frame.{Frame}
use gzb.Zcl.Reporting.{analog, max_interval_disabled}
use gzb.Zcl.Value.{Floats, decode_value}

-- `ReportingStatus`
pub record ReportingStatus : Type 0 where
  pub id : ℕ
  pub status : ℕ
  pub type : ℕ
  pub min : ℕ
  pub max : ℕ
  pub change : Bytes

-- `Reporting`
unfoldable pub is_reporting : ReportingStatus → Bool
is_reporting r = r.status == 0 && not (r.max == max_interval_disabled)

-- A record without a configuration.
abbrev unconfigured : ℕ → ℕ → ReportingStatus
unconfigured id status = record {
  id = id;
  status = status;
  type = 0;
  min = 0;
  max = 0;
  change = [];
}

abbrev if_whole : Cursor → ReportingStatus → Option ReportingStatus
if_whole c r = elim c.failure [ none ↦ some r | some e ↦ none ]

module _ {F : Type 0} (fl : Floats F) where
  -- The reportable change, which only an analog type has, is skipped.
  abbrev after_change : Bool → ℕ → Cursor → Cursor
  after_change true type c = (decode_value fl type c).1
  after_change false type c = c

  abbrev configured : ℕ → ℕ → Cursor → Option ReportingStatus × Cursor
  configured id status c =
      let (type, c1) = u8 c in
      let (min, c2) = u16 c1 in
      let (max, c3) = u16 c2 in
      let c4 = after_change (analog type) type c3 in
      (
        if_whole c4 (record {
          id = id;
          status = status;
          type = type;
          min = min;
          max = max;
          change = take (c4.pos - c3.pos) (drop c3.pos c3.bytes);
        }),
        c4,
      )

  -- The body of the loop behind the identifier.
  abbrev held_record : ℕ → ℕ → ℕ → Cursor → Option ReportingStatus × Cursor
  held_record status direction id c =
      if not (status == 0)
      then (if_whole c (unconfigured id status), c)
      else if not (direction == 0)
      then (if_whole c (unconfigured id status), (u16 c).1)
      else configured id status c

  unfoldable pub read_held : Cursor → Option ReportingStatus × Cursor
  read_held c =
      let (status, c1) = u8 c in
      let (direction, c2) = u8 c1 in let (id, c3) = u16 c2 in held_record status direction id c3

  abbrev continued :
      Option ReportingStatus
      → List ReportingStatus × Cursor
      → Cursor
      → List ReportingStatus × Cursor
  continued none rest c = ([], c)
  continued (some r) rest c = (r ∷ rest.0, rest.1)

  -- The loop of `ReadReportingConfigResponse`.
  unfoldable pub held_records : ℕ → Cursor → List ReportingStatus × Cursor
  held_records zero c = ([], c)
  held_records (suc fuel) c =
      let (r, c') = read_held c in
      let rest = held_records fuel c' in if remaining c == 0 then ([], c) else continued r rest c'

  abbrev finished : List ReportingStatus × Cursor → List ReportingStatus × Option AttributesError
  finished (out, c) = elim c.failure [ none ↦ (out, none) | some e ↦ (out, some (decoding e)) ]

  -- `ReadReportingConfigResponse`
  unfoldable pub read_reporting_config_response :
      Frame → List ReportingStatus × Option AttributesError
  read_reporting_config_response f =
      if not (f.type == 0) || not (f.command == 0x09)
      then ([], some (no_records f.command))
      else finished (held_records (length f.payload) (new_buf f.payload))

  remaining-u16_le : (c : Cursor) → remaining (u16 c).1 ≤ remaining c
  unfolding u16
  remaining-u16_le c = remaining-guarded _ _ _ c

  remaining-u8_lt : (c : Cursor) → 0 < remaining c → remaining (u8 c).1 < remaining c
  unfolding u8
  remaining-u8_lt c h = remaining-guarded_lt _ _ _ c (omega arith) h

  remaining-after_change :
      (is_analog : Bool) (type : ℕ) (c : Cursor)
      → remaining (after_change is_analog type c) ≤ remaining c
  remaining-after_change true type c = remaining-decode_value fl type c
  remaining-after_change false type c = omega arith

  remaining-configured :
      (id status : ℕ) (c : Cursor) → remaining (configured id status c).1 ≤ remaining c
  remaining-configured id status c =
      let (type, c1) = u8 c in
      let (min, c2) = u16 c1 in
      omega (
        arith,
        remaining-u8 c,
        remaining-u16_le c1,
        remaining-u16_le c2,
        remaining-after_change (analog type) type (u16 c2).1,
      )

  remaining-held_record :
      (status direction id : ℕ) (c : Cursor)
      → remaining (held_record status direction id c).1 ≤ remaining c
  remaining-held_record status direction id c =
      ground (arith, remaining-u16_le c, remaining-configured id status c)

  remaining-read_held : (c : Cursor) → 0 < remaining c → remaining (read_held c).1 < remaining c
  unfolding read_held
  remaining-read_held c h =
      let (status, c1) = u8 c in
      let (direction, c2) = u8 c1 in
      let (id, c3) = u16 c2 in
      omega (
        arith,
        remaining-u8_lt c h,
        remaining-u8 c1,
        remaining-u16_le c2,
        remaining-held_record status direction id c3,
      )

  if_whole-none : (c : Cursor) (r : ReportingStatus) → if_whole c r ≡ none → remaining c ≡ 0
  unfolding remaining
  if_whole-none c r h = ground arith

  held_record-none :
      (status direction id : ℕ) (c : Cursor)
      → (held_record status direction id c).0 ≡ none
      → remaining (held_record status direction id c).1 ≡ 0
  held_record-none status direction id c h = elim (Bool-cases (status == 0)) [
    | inr failed_one ↦
        simp failed_one (if_whole-none c (unconfigured id status) (simp failed_one at h))
    | inl fine ↦ elim (Bool-cases (direction == 0)) [
      | inr receiving ↦
          simp (fine, receiving)
            (omega (
              arith,
              if_whole-none c (unconfigured id status) (simp (fine, receiving) at h),
              remaining-u16_le c,
            ))
      | inl sending ↦ simp (fine, sending) (if_whole-none _ _ (simp (fine, sending) at h))
    ]
  ]

  read_held-none : (c : Cursor) → (read_held c).0 ≡ none → remaining (read_held c).1 ≡ 0
  unfolding read_held
  read_held-none c h =
      held_record-none (u8 c).0 (u8 (u8 c).1).0 (u16 (u8 (u8 c).1).1).0 (u16 (u8 (u8 c).1).1).1 h

  continued-ends :
      (r : Option ReportingStatus) (rest : List ReportingStatus × Cursor) (c : Cursor)
      → (r ≡ none → remaining c ≡ 0)
      → remaining rest.1 ≡ 0
      → remaining (continued r rest c).1 ≡ 0
  continued-ends none rest c h k = h refl
  continued-ends (some r) rest c h k = k

  -- With as much fuel as bytes remain, the loop of `ReadReportingConfigResponse` ends with no byte left
  -- to read, which is so after an error too.
  held_records-ends :
      (fuel : ℕ) (c : Cursor) → remaining c ≤ fuel → remaining (held_records fuel c).1 ≡ 0
  unfolding held_records
  held_records-ends zero c h = omega arith
  held_records-ends (suc fuel) c h = elim (Bool-cases (remaining c == 0)) [
    | inl done ↦ simp done ((==_iff (remaining c) 0).0 done)
    | inr left ↦
        let some_left : 0 < remaining c = ground arith in
        simp left (
          continued-ends _ _ _ (read_held-none c) (
            held_records-ends fuel (read_held c).1
              (omega (arith, remaining-read_held c some_left))))
  ]
