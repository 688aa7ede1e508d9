-- ===== src/Zcl/Attributes/Ends.antt =====
-- internal/zcl/zcl.go: the loop of `Attributes` ends.
use gzb.Base.{
  ℕ, zero, suc, ==_iff, ap, Bool-cases, inl, inr, ◌≤◌, ◌<◌, ◌≡◌, refl, arith, Bool, true, false,
  not, ◌&&◌, Option, none, some, List, [], ◌==◌, Bytes, get_or, take,
}
use gzb.Cursor.{Cursor, u8, u16, u32, uint, read_bytes, remaining}
use gzb.Cursor.Progress.{remaining-guarded, remaining-guarded_lt, remaining-fail}
use gzb.Zcl.Value.{
  sized, octets, text, Floats, Value, Encoding, no_data, boolean, unsigned8, unsigned16, unsigned24,
  unsigned32, unsigned48, signed8, signed16, signed24, signed32, single, octet_string, char_string,
  address, unknown, decode_encoding, decode_value, encoding_of,
}
use gzb.Zcl.Attributes.{Decoded, status_after, read_record, read_records, with_value, listed}

remaining-sized :
    {F : Type 0} (f : Bytes → Value F) (c : Cursor) → remaining (sized f c).1 ≤ remaining c
unfolding u8 read_bytes
remaining-sized f c = ground (
  arith,
  remaining-guarded 1 0 (λ b. get_or b 0 0) c,
  remaining-guarded (u8 c).0 [] (take (u8 c).0) (u8 c).1,
)

pub remaining-u16 : (c : Cursor) → 0 < remaining c → remaining (u16 c).1 < remaining c
unfolding u16
remaining-u16 c h = remaining-guarded_lt _ _ _ c (omega arith) h

pub remaining-u8 : (c : Cursor) → remaining (u8 c).1 ≤ remaining c
unfolding u8
remaining-u8 c = remaining-guarded _ _ _ c

remaining-status_after :
    (with_status : Bool) (c : Cursor) → remaining (status_after with_status c).1 ≤ remaining c
remaining-status_after true c = remaining-u8 c
remaining-status_after false c = omega arith

module _ {F : Type 0} (fl : Floats F) where
  remaining-decode_encoding :
      (e : Encoding) (t : ℕ) (c : Cursor) → remaining (decode_encoding fl e t c).1 ≤ remaining c
  unfolding decode_encoding u8 u16 u32 uint read_bytes
  remaining-decode_encoding no_data t c = omega arith
  remaining-decode_encoding boolean t c = remaining-guarded _ _ _ c
  remaining-decode_encoding unsigned8 t c = remaining-guarded _ _ _ c
  remaining-decode_encoding unsigned16 t c = remaining-guarded _ _ _ c
  remaining-decode_encoding unsigned24 t c = remaining-guarded _ _ _ c
  remaining-decode_encoding unsigned32 t c = remaining-guarded _ _ _ c
  remaining-decode_encoding unsigned48 t c = remaining-guarded _ _ _ c
  remaining-decode_encoding signed8 t c = remaining-guarded _ _ _ c
  remaining-decode_encoding signed16 t c = remaining-guarded _ _ _ c
  remaining-decode_encoding signed24 t c = remaining-guarded _ _ _ c
  remaining-decode_encoding signed32 t c = remaining-guarded _ _ _ c
  remaining-decode_encoding single t c = remaining-guarded _ _ _ c
  remaining-decode_encoding octet_string t c = remaining-sized octets c
  remaining-decode_encoding char_string t c = remaining-sized text c
  remaining-decode_encoding address t c = remaining-guarded _ _ _ c
  remaining-decode_encoding unknown t c = remaining-fail _ c

  pub remaining-decode_value :
      (t : ℕ) (c : Cursor) → remaining (decode_value fl t c).1 ≤ remaining c
  unfolding decode_value
  remaining-decode_value t c = remaining-decode_encoding (encoding_of t) t c

  remaining-with_value :
      (id status type : ℕ) (start : Cursor) (r : Value F × Cursor)
      → (with_value fl id status type start r).1 ≡ r.1
  remaining-with_value id status type start (v, c) = ground arith

  -- A record takes at least one byte, or ends the reading.
  remaining-read_record :
      (with_status : Bool) (c : Cursor)
      → 0 < remaining c
      → remaining (read_record fl with_status c).1 < remaining c
  unfolding read_record
  remaining-read_record with_status c h =
      let (id, c1) = u16 c in
      let (status, c2) = status_after with_status c1 in
      let (type, c3) = u8 c2 in
      let steps : (remaining c1 < remaining c)
          × (remaining c2 ≤ remaining c1)
          × (remaining c3 ≤ remaining c2)
          × (remaining (decode_value fl type c3).1 ≤ remaining c3) =
        (
          remaining-u16 c h,
          remaining-status_after with_status c1,
          remaining-u8 c2,
          remaining-decode_value type c3,
        ) in
      elim (Bool-cases (with_status && not (status == 0))) [
        | inl failed_one ↦ simp failed_one (omega (arith, steps))
        | inr whole ↦ simp whole (
            omega (
              arith,
              steps,
              ap remaining (remaining-with_value id status type c3 (decode_value fl type c3)),
            ))
      ]

  listed-ends :
      (a : Option (Decoded F)) (rest : List (Decoded F) × Cursor) (c : Cursor)
      → (a ≡ none → remaining c ≡ 0)
      → remaining rest.1 ≡ 0
      → remaining (listed fl a rest c).1 ≡ 0
  listed-ends none rest c h k = h refl
  listed-ends (some a) rest c h k = k

  with_value-none :
      (id status type : ℕ) (start : Cursor) (r : Value F × Cursor)
      → (with_value fl id status type start r).0 ≡ none
      → remaining (with_value fl id status type start r).1 ≡ 0
  unfolding remaining
  with_value-none id status type start (v, c) h = ground arith

  read_record-none :
      (with_status : Bool) (c : Cursor)
      → (read_record fl with_status c).0 ≡ none
      → remaining (read_record fl with_status c).1 ≡ 0
  unfolding read_record
  read_record-none with_status c h =
      let (id, c1) = u16 c in
      let (status, c2) = status_after with_status c1 in
      let (type, c3) = u8 c2 in
      elim (Bool-cases (with_status && not (status == 0))) [
        | inl failed_one ↦
            absurd (some_ne_none (ap (λ (o : Option (Decoded F)). o) (simp failed_one at h)))
        | inr whole ↦
            simp whole
              (with_value-none id status type c3 (decode_value fl type c3) (simp whole at h))
      ]
    where
      some_ne_none : {a : Decoded F} → ◌≡◌ {A = Option (Decoded F)} (some a) none → ⊥
      some_ne_none e = cc

  shorter :
      (fuel : ℕ) (with_status : Bool) (c : Cursor)
      → remaining c ≤ suc fuel
      → (remaining c == 0) ≡ false
      → remaining (read_record fl with_status c).1 ≤ fuel
  shorter fuel with_status c h nz =
      let some_left : 0 < remaining c = ground arith in
      omega (arith, remaining-read_record with_status c some_left)

  -- With as much fuel as bytes remain, the loop of `Attributes` ends with no byte left to read, which
  -- is so after an error too: it never ends for want of fuel.
  pub read_records-ends :
      (fuel : ℕ) (with_status : Bool) (c : Cursor)
      → remaining c ≤ fuel
      → remaining (read_records fl fuel with_status c).1 ≡ 0
  unfolding read_records
  read_records-ends zero with_status c h = omega arith
  read_records-ends (suc fuel) with_status c h = elim (Bool-cases (remaining c == 0)) [
    | inl done ↦ simp done ((==_iff (remaining c) 0).0 done)
    | inr left ↦ simp left (
        listed-ends _ _ _ (read_record-none with_status c) (
          read_records-ends fuel with_status (read_record fl with_status c).1
            (shorter fuel with_status c h left)))
  ]

  -- More fuel than bytes changes nothing.
  pub read_records-more_fuel :
      (fuel more : ℕ) (with_status : Bool) (c : Cursor)
      → remaining c ≤ fuel
      → remaining c ≤ more
      → read_records fl fuel with_status c ≡ read_records fl more with_status c
  unfolding read_records
  read_records-more_fuel zero zero with_status c h k = refl
  read_records-more_fuel zero (suc more) with_status c h k =
      let done : (remaining c == 0) ≡ true = ground arith in simp done refl
  read_records-more_fuel (suc fuel) zero with_status c h k =
      let done : (remaining c == 0) ≡ true = ground arith in simp done refl
  read_records-more_fuel (suc fuel) (suc more) with_status c h k =
      elim (Bool-cases (remaining c == 0)) [
        | inl done ↦ simp done refl
        | inr left ↦ simp left (
            ap (λ t. listed fl (read_record fl with_status c).0 t (read_record fl with_status c).1)
              (read_records-more_fuel fuel more with_status (read_record fl with_status c).1
                (shorter fuel with_status c h left) (shorter more with_status c k left)))
      ]
