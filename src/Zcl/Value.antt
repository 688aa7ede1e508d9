-- ===== src/Zcl/Value.antt =====
-- internal/zcl/zcl.go and encode.go: `DataType`, `decodeValue`, `encodeValue` and the conversions that
-- it tests its argument with. The floating-point numbers and `math.Float32bits` are a parameter.
pub mod Widths
pub mod RoundTrip
pub mod Same
use gzb.Base.{
  ℕ, zero, suc, ◌+◌, ◌-◌, ◌*◌, ◌/◌, ◌%◌, ◌^◌, Bool, true, false, not, ◌&&◌, ◌||◌, List, [], ◌∷◌,
  ◌++◌, bit_and, ◌==◌, ltb, if◌then◌else◌, Bytes, length, le16, le32,
}
use gzb.Base.Int.{ℤ, pos, negsuc, signed, pattern_of, in_range}
use gzb.Base.Result.{Result, ok, err, ◌>>=◌}
use gzb.Cursor.{Cursor, Reader, return, unsupported, fail, u8, u16, u32, uint, read_bytes}

-- What the code asks of the floating-point numbers: a 32-bit pattern read as a float64, a float64
-- rounded to such a pattern, and the conversions from the integers.
pub record Floats (F : Type 0) : Type 0 where
  pub of_bits : ℕ → F
  pub to_bits : F → ℕ
  pub of_uint : ℕ → F
  pub of_int : ℤ → F

-- An `any`, by its dynamic type: those that the code tests for, and the others in one. A float32 is
-- kept as the float64 of the same value, and nil is `nothing`.
pub data Value (F : Type 0) : Type 0 where
  nothing : Value F
  bool : Bool → Value F
  uint64 uint32 uint16 uint8 : ℕ → Value F
  int int64 int32 int16 int8 : ℤ → Value F
  float64 float32 : F → Value F
  text : Bytes → Value F
  octets : Bytes → Value F
  other : Value F

-- How a data type is written: the cases that `decodeValue` and `encodeValue` share.
pub data Encoding : Type 0 where
  no_data boolean unsigned8 unsigned16 unsigned24 unsigned32 unsigned48 : Encoding
  signed8 signed16 signed24 signed32 single octet_string char_string address unknown : Encoding

abbrev one_of : ℕ → List ℕ → Bool
one_of t [] = false
one_of t (x ∷ xs) = t == x || one_of t xs

-- The case labels, by the numbers of the `DataType` constants.
unfoldable pub encoding_of : ℕ → Encoding
encoding_of t =
    if t == 0x00
    then no_data
    else if t == 0x10
    then boolean
    else if one_of t (0x08 ∷ 0x18 ∷ 0x20 ∷ 0x30 ∷ [])
    then unsigned8
    else if one_of t (0x19 ∷ 0x21 ∷ 0x31 ∷ [])
    then unsigned16
    else if t == 0x22
    then unsigned24
    else if one_of t (0x1B ∷ 0x23 ∷ 0xE2 ∷ [])
    then unsigned32
    else if t == 0x25
    then unsigned48
    else if t == 0x28
    then signed8
    else if t == 0x29
    then signed16
    else if t == 0x2A
    then signed24
    else if t == 0x2B
    then signed32
    else if t == 0x39
    then single
    else if t == 0x41
    then octet_string
    else if t == 0x42
    then char_string
    else if t == 0xF0
    then address
    else unknown

-- `if v&0x800000 != 0 { return int64(v) - (1 << 24) }`
unfoldable pub int24 : ℕ → ℤ
int24 v = if not (bit_and v 0x800000 == 0) then negsuc (2 ^ 24 - 1 - v) else pos v

module _ {F : Type 0} where
  -- What one read makes of the value that it got.
  abbrev reading : {A : Type 0} → (A → Value F) → Reader A → Reader (Value F)
  reading f r c = let (a, c') = r c in (f a, c')

  abbrev boolean_of : ℕ → Value F
  boolean_of v = if v == 0xFF then nothing else bool (not (v == 0))

  abbrev pub sized : (Bytes → Value F) → Reader (Value F)
  sized f c = let (n, c') = u8 c in if n == 0xFF then (nothing, c') else reading f (read_bytes n) c'

module _ {F : Type 0} (fl : Floats F) where
  unfoldable pub decode_encoding : Encoding → ℕ → Reader (Value F)
  decode_encoding no_data t = return nothing
  decode_encoding boolean t = reading boolean_of u8
  decode_encoding unsigned8 t = reading uint64 u8
  decode_encoding unsigned16 t = reading uint64 u16
  decode_encoding unsigned24 t = reading uint64 (uint 3)
  decode_encoding unsigned32 t = reading uint64 u32
  decode_encoding unsigned48 t = reading uint64 (uint 6)
  decode_encoding signed8 t = reading (λ v. int64 (signed (2 ^ 7) v)) u8
  decode_encoding signed16 t = reading (λ v. int64 (signed (2 ^ 15) v)) u16
  decode_encoding signed24 t = reading (λ v. int64 (int24 v)) (uint 3)
  decode_encoding signed32 t = reading (λ v. int64 (signed (2 ^ 31) v)) u32
  decode_encoding single t = reading (λ v. float64 (fl.of_bits v)) u32
  decode_encoding octet_string t = sized octets
  decode_encoding char_string t = sized text
  decode_encoding address t = reading octets (read_bytes 8)
  decode_encoding unknown t = λ c. (nothing, fail (unsupported t) c)

  -- `decodeValue`
  unfoldable pub decode_value : ℕ → Reader (Value F)
  decode_value t = decode_encoding (encoding_of t) t

pub data EncodeError : Type 0 where
  wants_bool wants_unsigned wants_signed wants_number wants_string : EncodeError
  negative : ℕ → EncodeError
  does_not_fit : ℕ → ℕ → EncodeError
  outside_range : ℤ → ℕ → EncodeError
  string_too_long : ℕ → EncodeError
  cannot_encode : ℕ → EncodeError

-- `if n < 0 { return error }; return uint64(n)`: -(n + 1) is `negative n`.
abbrev pub nonnegative : ℤ → Result EncodeError ℕ
nonnegative (pos n) = ok n
nonnegative (negsuc n) = err (negative n)

module _ {F : Type 0} where
  -- `asUint`
  unfoldable pub as_uint : Value F → Result EncodeError ℕ
  as_uint (uint64 n) = ok n
  as_uint (uint32 n) = ok n
  as_uint (uint16 n) = ok n
  as_uint (uint8 n) = ok n
  as_uint (int z) = nonnegative z
  as_uint (int64 z) = nonnegative z
  as_uint _ = err wants_unsigned

  -- `asInt`: the conversion of a uint64 wraps.
  unfoldable pub as_int : Value F → Result EncodeError ℤ
  as_int (int64 z) = ok z
  as_int (int32 z) = ok z
  as_int (int16 z) = ok z
  as_int (int8 z) = ok z
  as_int (int z) = ok z
  as_int (uint64 n) = ok (signed (2 ^ 63) n)
  as_int _ = err wants_signed

  -- `boundedUint`
  unfoldable pub bounded_uint : Value F → ℕ → Result EncodeError ℕ
  bounded_uint v bits = do
    n ← as_uint v
    (if ltb bits 64 && ltb (2 ^ bits - 1) n then err (does_not_fit n bits) else ok n)

  -- `boundedInt`
  unfoldable pub bounded_int : Value F → ℕ → Result EncodeError ℤ
  bounded_int v bits = do
    n ← as_int v
    (if not (in_range (2 ^ (bits - 1)) n) then err (outside_range n bits) else ok n)

  -- The switch on a string or bytes.
  unfoldable pub as_bytes : Value F → Result EncodeError Bytes
  as_bytes (text b) = ok b
  as_bytes (octets b) = ok b
  as_bytes _ = err wants_string

  unfoldable pub as_bool : Value F → Result EncodeError Bytes
  as_bool (bool true) = ok (1 ∷ [])
  as_bool (bool false) = ok (0 ∷ [])
  as_bool _ = err wants_bool

-- `appendUint`, by the bytes left.
unfoldable pub append_uint : ℕ → ℕ → Bytes
append_uint v zero = []
append_uint v (suc n) = v % 256 ∷ append_uint (v / 256) n

abbrev counted : Bytes → Result EncodeError Bytes
counted b = if ltb 254 (length b) then err (string_too_long (length b)) else ok (length b % 256 ∷ b)

-- A conversion to a narrower type keeps the pattern.
abbrev pub written : {A : Type 0} → (A → Bytes) → Result EncodeError A → Result EncodeError Bytes
written f (ok a) = ok (f a)
written f (err e) = err e

module _ {F : Type 0} (fl : Floats F) where
  -- `asFloat`
  unfoldable pub as_float : Value F → Result EncodeError F
  as_float (float64 f) = ok f
  as_float (float32 f) = ok f
  as_float (int64 z) = ok (fl.of_int z)
  as_float (uint64 n) = ok (fl.of_uint n)
  as_float (int z) = ok (fl.of_int z)
  as_float _ = err wants_number

  unfoldable pub encode_encoding : Encoding → ℕ → Value F → Result EncodeError Bytes
  encode_encoding boolean t v = as_bool v
  encode_encoding unsigned8 t v = written (λ n. n % 256 ∷ []) (bounded_uint v 8)
  encode_encoding unsigned16 t v = written (λ n. le16 (n % 2 ^ 16)) (bounded_uint v 16)
  encode_encoding unsigned24 t v = written (λ n. append_uint n 3) (bounded_uint v 24)
  encode_encoding unsigned32 t v = written (λ n. le32 (n % 2 ^ 32)) (bounded_uint v 32)
  encode_encoding unsigned48 t v = written (λ n. append_uint n 6) (bounded_uint v 48)
  encode_encoding signed8 t v = written (λ z. pattern_of (2 ^ 7) z ∷ []) (bounded_int v 8)
  encode_encoding signed16 t v = written (λ z. le16 (pattern_of (2 ^ 15) z)) (bounded_int v 16)
  encode_encoding signed24 t v =
      written (λ z. append_uint (bit_and (pattern_of (2 ^ 63) z) 0xFFFFFF) 3) (bounded_int v 24)
  encode_encoding signed32 t v = written (λ z. le32 (pattern_of (2 ^ 31) z)) (bounded_int v 32)
  encode_encoding single t v = written (λ f. le32 (fl.to_bits f)) (as_float v)
  encode_encoding octet_string t v = as_bytes v >>= counted
  encode_encoding char_string t v = as_bytes v >>= counted
  encode_encoding _ t v = err (cannot_encode t)

  -- `encodeValue`
  unfoldable pub encode_value : ℕ → Value F → Result EncodeError Bytes
  encode_value t v = encode_encoding (encoding_of t) t v
