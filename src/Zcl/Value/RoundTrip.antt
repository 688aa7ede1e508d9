-- ===== src/Zcl/Value/RoundTrip.antt =====
-- internal/zcl/encode.go and zcl.go: what `decodeValue` makes of what `encodeValue` wrote.
use gzb.Base.{ℕ, ◌-◌, ◌^◌, ◌<◌, ◌≡◌, refl, arith, ◌++◌, Bytes}
use gzb.Base.Int.{negsuc, signed}
use gzb.Base.Result.{ok, bind-eq-ok}
use gzb.Cursor.At.{at}
use gzb.Zcl.Value.{
  Floats, Value, nothing, uint64, int64, float64, text, octets, Encoding, boolean, unsigned8,
  unsigned16, unsigned24, unsigned32, unsigned48, signed8, signed16, signed24, signed32, single,
  octet_string, char_string, encoding_of, decode_encoding, decode_value, as_uint, as_int,
  bounded_uint, bounded_int, as_bytes, as_float, counted, encode_encoding, encode_value,
}
use gzb.Zcl.Value.Widths.{
  received, Below, Within, bounded_uint-fits, bounded_int-fits, read-written, byte_back, word_back,
  triple_back, long_back, six_back, int8_back, int16_back, int24_back, int32_back, string_back,
  bool_back, single_back,
}

module _ {F : Type 0} (fl : Floats F) where
  -- The dynamic type that reading gives: the widest of its kind.
  unfoldable pub widened : Encoding → Value F → Value F
  widened boolean v = v
  widened unsigned8 v = received uint64 (as_uint v)
  widened unsigned16 v = received uint64 (as_uint v)
  widened unsigned24 v = received uint64 (as_uint v)
  widened unsigned32 v = received uint64 (as_uint v)
  widened unsigned48 v = received uint64 (as_uint v)
  widened signed8 v = received int64 (as_int v)
  widened signed16 v = received int64 (as_int v)
  widened signed24 v = received int64 (as_int v)
  widened signed32 v = received int64 (as_int v)
  widened single v = received (λ f. float64 (fl.of_bits (fl.to_bits f))) (as_float fl v)
  widened octet_string v = received octets (as_bytes v)
  widened char_string v = received text (as_bytes v)
  widened _ v = nothing

module _ {F : Type 0} (fl : Floats F) (bits : (f : F) → fl.to_bits f < 2 ^ 32) where
  decode_encoding-encode_encoding :
      (e : Encoding) (t : ℕ) (v : Value F) (bs before rest : Bytes)
      → encode_encoding fl e t v ≡ ok bs
      → decode_encoding fl e t (at before (bs ++ rest)) ≡ (widened fl e v, at (before ++ bs) rest)
  unfolding decode_encoding encode_encoding widened Below Within
  decode_encoding-encode_encoding boolean t v bs before rest h = bool_back v before rest bs h
  decode_encoding-encode_encoding unsigned8 t v bs before rest h =
      read-written _ _ _ _ (as_uint v) (bounded_uint v 8)
        (λ n. bounded_uint-fits v 8 n (omega arith)) (byte_back F) bs before rest h
  decode_encoding-encode_encoding unsigned16 t v bs before rest h =
      read-written _ _ _ _ (as_uint v) (bounded_uint v 16)
        (λ n. bounded_uint-fits v 16 n (omega arith)) (word_back F) bs before rest h
  decode_encoding-encode_encoding unsigned24 t v bs before rest h =
      read-written _ _ _ _ (as_uint v) (bounded_uint v 24)
        (λ n. bounded_uint-fits v 24 n (omega arith)) (triple_back F) bs before rest h
  decode_encoding-encode_encoding unsigned32 t v bs before rest h =
      read-written _ _ _ _ (as_uint v) (bounded_uint v 32)
        (λ n. bounded_uint-fits v 32 n (omega arith)) (long_back F) bs before rest h
  decode_encoding-encode_encoding unsigned48 t v bs before rest h =
      read-written _ _ _ _ (as_uint v) (bounded_uint v 48)
        (λ n. bounded_uint-fits v 48 n (omega arith)) (six_back F) bs before rest h
  decode_encoding-encode_encoding signed8 t v bs before rest h =
      read-written _ _ _ _ (as_int v) (bounded_int v 8) (λ z. bounded_int-fits v 8 z) (int8_back F)
        bs before rest h
  decode_encoding-encode_encoding signed16 t v bs before rest h =
      read-written _ _ _ _ (as_int v) (bounded_int v 16) (λ z. bounded_int-fits v 16 z)
        (int16_back F) bs before rest h
  decode_encoding-encode_encoding signed24 t v bs before rest h =
      read-written _ _ _ _ (as_int v) (bounded_int v 24) (λ z. bounded_int-fits v 24 z)
        (int24_back F) bs before rest h
  decode_encoding-encode_encoding signed32 t v bs before rest h =
      read-written _ _ _ _ (as_int v) (bounded_int v 32) (λ z. bounded_int-fits v 32 z)
        (int32_back F) bs before rest h
  decode_encoding-encode_encoding single t v bs before rest h =
      read-written _ _ _ _ (as_float fl v) (as_float fl v) (λ f e. (e, tt)) (single_back fl bits) bs
        before rest h
  decode_encoding-encode_encoding octet_string t v bs before rest h =
      let (b, got, counted_b) = bind-eq-ok (as_bytes v) counted h in
      rw got (string_back octets b before rest bs counted_b)
  decode_encoding-encode_encoding char_string t v bs before rest h =
      let (b, got, counted_b) = bind-eq-ok (as_bytes v) counted h in
      rw got (string_back text b before rest bs counted_b)
  decode_encoding-encode_encoding _ t v bs before rest h = cc

  pub decode_value-widened :
      (t : ℕ) (v : Value F) (bs before rest : Bytes)
      → encode_value fl t v ≡ ok bs
      → decode_value fl t (at before (bs ++ rest))
        ≡ (widened fl (encoding_of t) v, at (before ++ bs) rest)
  unfolding decode_value encode_value
  decode_value-widened t v bs before rest h =
      decode_encoding-encode_encoding (encoding_of t) t v bs before rest h

-- Where `boundedInt` is given a uint64 of 2^64 - 1 - k, at or above 2^63, it answers as for the int64
-- of -(k + 1), for every width: a number that fits no signed width is taken for a negative one.
pub bounded_int_wraps :
    (F : Type 0) (k bits : ℕ)
    → k < 2 ^ 63
    → bounded_int {F = F} (uint64 (2 ^ 64 - 1 - k)) bits
      ≡ bounded_int {F = F} (int64 (negsuc k)) bits
unfolding bounded_int as_int
bounded_int_wraps F k bits h =
    let wraps : signed (2 ^ 63) (2 ^ 64 - 1 - k) ≡ negsuc k = ground arith in rw wraps refl
