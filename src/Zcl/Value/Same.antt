-- ===== src/Zcl/Value/Same.antt =====
-- internal/zcl/encode.go and zcl.go: `decodeValue` reads the value that `encodeValue` wrote.
use gzb.Base.{ℕ, ◌^◌, ◌<◌, ◌≡◌, refl, arith, Bool, Option, none, some, ◌++◌, Bytes, ap, subst, sym}
use gzb.Base.Int.{ℤ, pos, negsuc}
use gzb.Base.Result.{Result, ok, err, bind-eq-ok}
use gzb.Cursor.At.{at}
use gzb.Zcl.Value.{
  Floats, Value, bool, uint64, uint32, uint16, uint8, int, int64, int32, int16, int8, float64,
  float32, text, octets, Encoding, boolean, unsigned8, unsigned16, unsigned24, unsigned32,
  unsigned48, signed8, signed16, signed24, signed32, single, octet_string, char_string, encoding_of,
  decode_value, as_uint, as_int, bounded_uint, bounded_int, as_bytes, as_float, as_bool, counted,
  encode_encoding, encode_value, EncodeError, nonnegative, written,
}
use gzb.Zcl.Value.RoundTrip.{widened, decode_value-widened}
use gzb.Zcl.Value.Widths.{bounded_uint-fits, bounded_int-fits, received}

-- The whole number that a value is, and the content of a string or of bytes.
abbrev pub number : {F : Type 0} → Value F → Option ℤ
number (uint64 n) = some (pos n)
number (uint32 n) = some (pos n)
number (uint16 n) = some (pos n)
number (uint8 n) = some (pos n)
number (int z) = some z
number (int64 z) = some z
number (int32 z) = some z
number (int16 z) = some z
number (int8 z) = some z
number _ = none

abbrev pub content : {F : Type 0} → Value F → Option Bytes
content (text b) = some b
content (octets b) = some b
content _ = none

-- The floating-point number that a value stands for where one is written.
abbrev pub real : {F : Type 0} → Floats F → Value F → Option F
real fl (float64 f) = some f
real fl (float32 f) = some f
real fl (int64 z) = some (fl.of_int z)
real fl (int z) = some (fl.of_int z)
real fl (uint64 n) = some (fl.of_uint n)
real fl _ = none

-- A uint64 that is an int64 too; any other value.
abbrev pub FitsInt64 : {F : Type 0} → Value F → Type 0
FitsInt64 (uint64 n) = n < 2 ^ 63
FitsInt64 _ = Unit {0}

-- What is asked of a value that is written: of a signed type, that it fits an int64.
abbrev pub IsUnwrapped : {F : Type 0} → Encoding → Value F → Type 0
IsUnwrapped signed8 v = FitsInt64 v
IsUnwrapped signed16 v = FitsInt64 v
IsUnwrapped signed24 v = FitsInt64 v
IsUnwrapped signed32 v = FitsInt64 v
IsUnwrapped _ v = Unit {0}

-- The second value is the first, in the widest Go type of the kind.
pub data IsSame {F : Type 0} (fl : Floats F) (v : Value F) : Encoding → Value F → Type 0 where
  same_bool : (b : Bool) → v ≡ bool b → IsSame fl v boolean (bool b)
  same_uint8 : (n : ℕ) → number v ≡ some (pos n) → IsSame fl v unsigned8 (uint64 n)
  same_uint16 : (n : ℕ) → number v ≡ some (pos n) → IsSame fl v unsigned16 (uint64 n)
  same_uint24 : (n : ℕ) → number v ≡ some (pos n) → IsSame fl v unsigned24 (uint64 n)
  same_uint32 : (n : ℕ) → number v ≡ some (pos n) → IsSame fl v unsigned32 (uint64 n)
  same_uint48 : (n : ℕ) → number v ≡ some (pos n) → IsSame fl v unsigned48 (uint64 n)
  same_int8 : (z : ℤ) → number v ≡ some z → IsSame fl v signed8 (int64 z)
  same_int16 : (z : ℤ) → number v ≡ some z → IsSame fl v signed16 (int64 z)
  same_int24 : (z : ℤ) → number v ≡ some z → IsSame fl v signed24 (int64 z)
  same_int32 : (z : ℤ) → number v ≡ some z → IsSame fl v signed32 (int64 z)
  same_single :
      (f : F) → real fl v ≡ some f → IsSame fl v single (float64 (fl.of_bits (fl.to_bits f)))
  same_octets : (b : Bytes) → content v ≡ some b → IsSame fl v octet_string (octets b)
  same_text : (b : Bytes) → content v ≡ some b → IsSame fl v char_string (text b)

nonnegative-number : (z : ℤ) (n : ℕ) → nonnegative z ≡ ok n → z ≡ pos n
nonnegative-number (pos m) n h = ground arith
nonnegative-number (negsuc m) n h = cc

written-ok :
    {A : Type 0} (write : A → Bytes) (r : Result EncodeError A) (bs : Bytes)
    → written write r ≡ ok bs
    → (a : A) × (r ≡ ok a)
written-ok write (ok a) bs h = (a, refl)
written-ok write (err e) bs h = cc

module _ {F : Type 0} where
  as_uint-number : (v : Value F) (n : ℕ) → as_uint v ≡ ok n → number v ≡ some (pos n)
  unfolding as_uint
  as_uint-number (uint64 m) n h = ground arith
  as_uint-number (uint32 m) n h = ground arith
  as_uint-number (uint16 m) n h = ground arith
  as_uint-number (uint8 m) n h = ground arith
  as_uint-number (int z) n h = ap some (nonnegative-number z n h)
  as_uint-number (int64 z) n h = ap some (nonnegative-number z n h)
  as_uint-number _ n h = cc

  as_int-number : (v : Value F) (z : ℤ) → FitsInt64 v → as_int v ≡ ok z → number v ≡ some z
  unfolding as_int
  as_int-number (int64 m) z f h = cc
  as_int-number (int32 m) z f h = cc
  as_int-number (int16 m) z f h = cc
  as_int-number (int8 m) z f h = cc
  as_int-number (int m) z f h = cc
  as_int-number (uint64 n) z f h = ground arith
  as_int-number _ z f h = cc

  as_bytes-content : (v : Value F) (b : Bytes) → as_bytes v ≡ ok b → content v ≡ some b
  unfolding as_bytes
  as_bytes-content (text c) b h = cc
  as_bytes-content (octets c) b h = cc
  as_bytes-content _ b h = cc

  as_float-real : (fl : Floats F) (v : Value F) (f : F) → as_float fl v ≡ ok f → real fl v ≡ some f
  unfolding as_float
  as_float-real fl (float64 x) f h = cc
  as_float-real fl (float32 x) f h = cc
  as_float-real fl (int64 z) f h = cc
  as_float-real fl (uint64 n) f h = cc
  as_float-real fl (int z) f h = cc
  as_float-real fl _ f h = cc

  as_bool-IsSame :
      (fl : Floats F) (v : Value F) (bs : Bytes) → as_bool v ≡ ok bs → IsSame fl v boolean v
  unfolding as_bool
  as_bool-IsSame fl (bool b) bs h = same_bool b refl
  as_bool-IsSame fl _ bs h = absurd cc

module _ {F : Type 0} (fl : Floats F) where
  widened-IsSame :
      (e : Encoding) (t : ℕ) (v : Value F) (bs : Bytes)
      → IsUnwrapped e v
      → encode_encoding fl e t v ≡ ok bs
      → IsSame fl v e (widened fl e v)
  unfolding encode_encoding widened
  widened-IsSame boolean t v bs u h = as_bool-IsSame fl v bs h
  widened-IsSame unsigned8 t v bs u h =
      let (n, e) = written-ok _ (bounded_uint v 8) bs h in
      let got = (bounded_uint-fits v 8 n (omega arith) e).0 in
      subst (λ r. IsSame fl v unsigned8 (received uint64 r)) (sym got)
        (same_uint8 n (as_uint-number v n got))
  widened-IsSame unsigned16 t v bs u h =
      let (n, e) = written-ok _ (bounded_uint v 16) bs h in
      let got = (bounded_uint-fits v 16 n (omega arith) e).0 in
      subst (λ r. IsSame fl v unsigned16 (received uint64 r)) (sym got)
        (same_uint16 n (as_uint-number v n got))
  widened-IsSame unsigned24 t v bs u h =
      let (n, e) = written-ok _ (bounded_uint v 24) bs h in
      let got = (bounded_uint-fits v 24 n (omega arith) e).0 in
      subst (λ r. IsSame fl v unsigned24 (received uint64 r)) (sym got)
        (same_uint24 n (as_uint-number v n got))
  widened-IsSame unsigned32 t v bs u h =
      let (n, e) = written-ok _ (bounded_uint v 32) bs h in
      let got = (bounded_uint-fits v 32 n (omega arith) e).0 in
      subst (λ r. IsSame fl v unsigned32 (received uint64 r)) (sym got)
        (same_uint32 n (as_uint-number v n got))
  widened-IsSame unsigned48 t v bs u h =
      let (n, e) = written-ok _ (bounded_uint v 48) bs h in
      let got = (bounded_uint-fits v 48 n (omega arith) e).0 in
      subst (λ r. IsSame fl v unsigned48 (received uint64 r)) (sym got)
        (same_uint48 n (as_uint-number v n got))
  widened-IsSame signed8 t v bs u h =
      let (n, e) = written-ok _ (bounded_int v 8) bs h in
      let got = (bounded_int-fits v 8 n e).0 in
      subst (λ r. IsSame fl v signed8 (received int64 r)) (sym got)
        (same_int8 n (as_int-number v n u got))
  widened-IsSame signed16 t v bs u h =
      let (n, e) = written-ok _ (bounded_int v 16) bs h in
      let got = (bounded_int-fits v 16 n e).0 in
      subst (λ r. IsSame fl v signed16 (received int64 r)) (sym got)
        (same_int16 n (as_int-number v n u got))
  widened-IsSame signed24 t v bs u h =
      let (n, e) = written-ok _ (bounded_int v 24) bs h in
      let got = (bounded_int-fits v 24 n e).0 in
      subst (λ r. IsSame fl v signed24 (received int64 r)) (sym got)
        (same_int24 n (as_int-number v n u got))
  widened-IsSame signed32 t v bs u h =
      let (n, e) = written-ok _ (bounded_int v 32) bs h in
      let got = (bounded_int-fits v 32 n e).0 in
      subst (λ r. IsSame fl v signed32 (received int64 r)) (sym got)
        (same_int32 n (as_int-number v n u got))
  widened-IsSame single t v bs u h =
      let (f, e) = written-ok _ (as_float fl v) bs h in
      subst (λ r. IsSame fl v single (received (λ f. float64 (fl.of_bits (fl.to_bits f))) r))
        (sym e) (same_single f (as_float-real fl v f e))
  widened-IsSame octet_string t v bs u h =
      let (b, got, _) = bind-eq-ok (as_bytes v) counted h in
      subst (λ r. IsSame fl v octet_string (received octets r)) (sym got)
        (same_octets b (as_bytes-content v b got))
  widened-IsSame char_string t v bs u h =
      let (b, got, _) = bind-eq-ok (as_bytes v) counted h in
      subst (λ r. IsSame fl v char_string (received text r)) (sym got)
        (same_text b (as_bytes-content v b got))
  widened-IsSame _ t v bs u h = absurd cc

-- Whatever `encodeValue` writes of a value for a data type, with whatever before and behind it,
-- `decodeValue` for that type reads as the same value, in the widest Go type of its kind, and stops
-- right behind it: the same truth value, whole number, string or bytes. A uint64 written for a signed
-- type has to be below 2^63. A float comes back as its 32-bit pattern says, which `math.Float32bits` is
-- taken to give.
pub decode_value-encode_value :
    {F : Type 0} (fl : Floats F)
    → ((f : F) → fl.to_bits f < 2 ^ 32)
    → (t : ℕ) (v : Value F) (bs before rest : Bytes) → IsUnwrapped (encoding_of t) v
    → encode_value fl t v ≡ ok bs
    → (r : Value F) × IsSame fl v (encoding_of t) r
      × (decode_value fl t (at before (bs ++ rest)) ≡ (r, at (before ++ bs) rest))
unfolding encode_value
decode_value-encode_value fl bits t v bs before rest u h = (
  widened fl (encoding_of t) v,
  widened-IsSame fl (encoding_of t) t v bs u h,
  decode_value-widened fl bits t v bs before rest h,
)
