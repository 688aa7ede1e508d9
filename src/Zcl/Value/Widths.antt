-- ===== src/Zcl/Value/Widths.antt =====
-- internal/zcl/encode.go and zcl.go: each width on its own, written and read back.
use gzb.Base.{
  ℕ, ◌-◌, ◌*◌, ◌%◌, ◌^◌, ◌<◌, ◌≡◌, refl, sym, ◌∙◌, arith, true, false, [], ◌∷◌, ◌++◌, append_assoc,
  bit_and, Bytes, length, le16, le32, ==_ne,
}
use native.Mathlib.Nat.{one-le-pow, mod-lt}
use gzb.Base.Bits.{bit_and_bit, bit_and_mask}
use gzb.Base.Int.{ℤ, pos, negsuc, signed, pattern_of, in_range, signed-pattern_of}
use gzb.Base.Result.{Result, ok, err, bind-eq-ok}
use gzb.Cursor.{Reader, u8, u16, u32, uint, little_endian}
use gzb.Cursor.At.{at, u8-at, u16-le16, u32-le32, uint-at, read_bytes-at}
use gzb.Zcl.Value.{
  Floats, Value, nothing, bool, uint64, int64, float64, int24, reading, sized, boolean_of,
  EncodeError, as_uint, as_int, bounded_uint, bounded_int, as_bool, append_uint, counted,
}

-- What stands in the place of a value that the device was sent.
abbrev pub received : {F A : Type 0} → (A → Value F) → Result EncodeError A → Value F
received f (ok a) = f a
received f (err _) = nothing

module _ {F : Type 0} where
  pub bounded_uint-fits :
      (v : Value F) (bits n : ℕ)
      → bits < 64
      → bounded_uint v bits ≡ ok n
      → (as_uint v ≡ ok n) × (n < 2 ^ bits)
  unfolding bounded_uint
  bounded_uint-fits v bits n narrow e =
      let (m, got, kept) = bind-eq-ok (as_uint v) _ e in ground (arith, one-le-pow bits 2)

  pub bounded_int-fits :
      (v : Value F) (bits : ℕ) (z : ℤ)
      → bounded_int v bits ≡ ok z
      → (as_int v ≡ ok z) × (in_range (2 ^ (bits - 1)) z ≡ true)
  unfolding bounded_int
  bounded_int-fits v bits z e = let (m, got, kept) = bind-eq-ok (as_int v) _ e in ground arith

-- A reader that takes back what a writer wrote of a value, whatever stands around it.
unfoldable pub TakesBack :
    {F A : Type 0} → (A → Type 0) → Reader (Value F) → (A → Bytes) → (A → Value F) → Type 0
TakesBack {F} {A} Fits read write value =
    (a : A)
    → Fits a
    → (before rest : Bytes)
    → read (at before (write a ++ rest)) ≡ (value a, at (before ++ write a) rest)

pub read-written :
    {F A : Type 0} (Fits : A → Type 0) (read : Reader (Value F)) (write : A → Bytes)
    (value : A → Value F) (raw bounded : Result EncodeError A)
    → ((a : A) → bounded ≡ ok a → (raw ≡ ok a) × Fits a)
    → TakesBack Fits read write value
    → (bs before rest : Bytes) → (elim bounded [ ok a ↦ ok (write a) | err e ↦ err e ]) ≡ ok bs
    → read (at before (bs ++ rest)) ≡ (received value raw, at (before ++ bs) rest)
unfolding TakesBack
read-written Fits read write value raw (ok a) fits back bs before rest e =
    let same : write a ≡ bs = cc in
    let (same_raw, small) = fits a refl in rw (sym same, same_raw) (back a small before rest)
read-written Fits read write value raw (err x) fits back bs before rest e = cc

three_bytes : (n : ℕ) → n < 2 ^ 24 → little_endian (append_uint n 3) ≡ n
unfolding little_endian append_uint
three_bytes n h = omega arith

six_bytes : (n : ℕ) → n < 2 ^ 48 → little_endian (append_uint n 6) ≡ n
unfolding little_endian append_uint
six_bytes n h = omega arith

low_24 :
    (z : ℤ)
    → in_range (2 ^ 23) z ≡ true
    → bit_and (pattern_of (2 ^ 63) z) 0xFFFFFF ≡ pattern_of (2 ^ 23) z
low_24 (pos n) h = bit_and_mask 24 64 (n % 2 ^ 64) (omega arith) ∙ ground arith
low_24 (negsuc n) h = bit_and_mask 24 64 (2 ^ 64 - 1 - n % 2 ^ 64) (omega arith) ∙ ground arith

int24-pattern_of : (z : ℤ) → in_range (2 ^ 23) z ≡ true → int24 (pattern_of (2 ^ 23) z) ≡ z
unfolding int24
int24-pattern_of (pos n) h = ground (arith, bit_and_bit 23 24 (n % 2 ^ 24))
int24-pattern_of (negsuc n) h = ground (arith, bit_and_bit 23 24 (2 ^ 24 - 1 - n % 2 ^ 24))

pattern-lt : (half : ℕ) (z : ℤ) → 0 < half → pattern_of half z < 2 * half
pattern-lt half (pos n) h = grind (arith, mod-lt)
pattern-lt half (negsuc n) h = omega arith

unfoldable pub Below : ℕ → ℕ → Type 0
Below bits n = n < 2 ^ bits

unfoldable pub Within : ℕ → ℤ → Type 0
Within bits z = in_range (2 ^ bits) z ≡ true

module _ (F : Type 0) where
  pub byte_back : TakesBack {F = F} (Below 8) (reading uint64 u8) (λ n. n % 256 ∷ []) uint64
  unfolding TakesBack Below
  byte_back n h before rest =
      let whole : n % 256 ≡ n = omega arith in rw (u8-at before (n % 256) rest, whole) refl

  pub word_back : TakesBack {F = F} (Below 16) (reading uint64 u16) (λ n. le16 (n % 2 ^ 16)) uint64
  unfolding TakesBack Below
  word_back n h before rest =
      let whole : n % 2 ^ 16 ≡ n = omega arith in
      rw (u16-le16 before (n % 2 ^ 16) rest (omega arith), whole) refl

  pub triple_back :
      TakesBack {F = F} (Below 24) (reading uint64 (uint 3)) (λ n. append_uint n 3) uint64
  unfolding TakesBack Below append_uint
  triple_back n h before rest = rw (uint-at before (append_uint n 3) rest, three_bytes n h) refl

  pub long_back : TakesBack {F = F} (Below 32) (reading uint64 u32) (λ n. le32 (n % 2 ^ 32)) uint64
  unfolding TakesBack Below
  long_back n h before rest =
      let whole : n % 2 ^ 32 ≡ n = omega arith in
      rw (u32-le32 before (n % 2 ^ 32) rest (omega arith), whole) refl

  pub six_back :
      TakesBack {F = F} (Below 48) (reading uint64 (uint 6)) (λ n. append_uint n 6) uint64
  unfolding TakesBack Below append_uint
  six_back n h before rest = rw (uint-at before (append_uint n 6) rest, six_bytes n h) refl

  pub int8_back :
      TakesBack {F = F}
        (Within 7)
        (reading (λ v. int64 (signed (2 ^ 7) v)) u8)
        (λ z. pattern_of (2 ^ 7) z ∷ [])
        int64
  unfolding TakesBack Within
  int8_back z h before rest =
      rw (u8-at before (pattern_of (2 ^ 7) z) rest, signed-pattern_of (2 ^ 7) z h) refl

  pub int16_back :
      TakesBack {F = F}
        (Within 15)
        (reading (λ v. int64 (signed (2 ^ 15) v)) u16)
        (λ z. le16 (pattern_of (2 ^ 15) z))
        int64
  unfolding TakesBack Within
  int16_back z h before rest =
      rw
        (
          u16-le16 before (pattern_of (2 ^ 15) z) rest (pattern-lt (2 ^ 15) z (omega arith)),
          signed-pattern_of (2 ^ 15) z h,
        )
        refl

  pub int24_back :
      TakesBack {F = F}
        (Within 23)
        (reading (λ v. int64 (int24 v)) (uint 3))
        (λ z. append_uint (bit_and (pattern_of (2 ^ 63) z) 0xFFFFFF) 3)
        int64
  unfolding TakesBack Within append_uint
  int24_back z h before rest =
      rw
        (
          low_24 z h,
          uint-at before (append_uint (pattern_of (2 ^ 23) z) 3) rest,
          three_bytes (pattern_of (2 ^ 23) z) (pattern-lt (2 ^ 23) z (omega arith)),
          int24-pattern_of z h,
        )
        refl

  pub int32_back :
      TakesBack {F = F}
        (Within 31)
        (reading (λ v. int64 (signed (2 ^ 31) v)) u32)
        (λ z. le32 (pattern_of (2 ^ 31) z))
        int64
  unfolding TakesBack Within
  int32_back z h before rest =
      rw
        (
          u32-le32 before (pattern_of (2 ^ 31) z) rest (pattern-lt (2 ^ 31) z (omega arith)),
          signed-pattern_of (2 ^ 31) z h,
        )
        refl

pub string_back :
    {F : Type 0} (value : Bytes → Value F) (b before rest : Bytes) (bs : Bytes)
    → counted b ≡ ok bs
    → sized value (at before (bs ++ rest)) ≡ (value b, at (before ++ bs) rest)
string_back value b before rest bs e =
    let short : length b < 255 = ground arith in
    let same : bs ≡ length b ∷ b = grind arith in
    rw
      (
        same,
        u8-at before (length b) (b ++ rest),
        ==_ne (length b) 0xFF (λ h. omega arith),
        read_bytes-at (before ++ length b ∷ []) b rest,
        append_assoc before (length b ∷ []) b,
      )
      refl

pub bool_back :
    {F : Type 0} (v : Value F) (before rest bs : Bytes)
    → as_bool v ≡ ok bs
    → reading boolean_of u8 (at before (bs ++ rest)) ≡ (v, at (before ++ bs) rest)
unfolding as_bool
bool_back (bool true) before rest bs e =
    let same : bs ≡ 1 ∷ [] = cc in rw (same, u8-at before 1 rest) refl
bool_back (bool false) before rest bs e =
    let same : bs ≡ 0 ∷ [] = cc in rw (same, u8-at before 0 rest) refl
bool_back _ before rest bs e = cc

pub single_back :
    {F : Type 0} (fl : Floats F)
    → ((f : F) → fl.to_bits f < 2 ^ 32)
    → TakesBack {F = F}
        (λ (f : F). Unit {0})
        (reading (λ v. float64 (fl.of_bits v)) u32)
        (λ f. le32 (fl.to_bits f))
        (λ f. float64 (fl.of_bits (fl.to_bits f)))
unfolding TakesBack
single_back fl bits f h before rest = rw (u32-le32 before (fl.to_bits f) rest (bits f)) refl
