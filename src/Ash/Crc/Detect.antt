-- ===== src/Ash/Crc/Detect.antt =====
-- internal/ash/frame.go: what `crc16` detects. Each of its steps can be undone.
use gzb.Base.{
  ℕ, zero, suc, ◌+◌, ◌*◌, ◌/◌, ◌%◌, ◌<◌, ◌≡◌, ap, ◌∙◌, sym, arith, List, [], ◌∷◌, ◌++◌, bit_and,
  bit_xor, ◌==◌, if◌then◌else◌, AreBytes,
}
use gzb.Base.Bits.{bit_and_bit, bit_xor-lt, bit_xor_cancel, bit_xor-mod, bit_xor_left_injective}
use gzb.Ash.Crc.{crc_bit, crc_bits, crc_byte, crc_from, crc16}

top_bit : (c : ℕ) → c < 65536 → bit_and c 0x8000 ≡ c / 32768 * 32768
top_bit c h = bit_and_bit 15 16 c h ∙ omega arith

-- One round read backwards.
unshift : ℕ → ℕ
unshift x = if x % 2 == 1 then bit_xor x 0x1021 / 2 + 32768 else x / 2

crc_bit-lt : (c : ℕ) → c < 65536 → crc_bit c < 65536
unfolding crc_bit
crc_bit-lt c h = ground (arith, bit_xor-lt 16 (c * 2 % 65536) 0x1021)

unshift-crc_bit : (c : ℕ) → c < 65536 → unshift (crc_bit c) ≡ c
unfolding crc_bit unshift
unshift-crc_bit c h = ground (
  arith,
  top_bit c h,
  bit_xor-mod (c * 2 % 65536) 0x1021,
  bit_xor_cancel 16 (c * 2 % 65536) 0x1021,
)

crc_bits-lt : (n c : ℕ) → c < 65536 → crc_bits n c < 65536
unfolding crc_bits
crc_bits-lt zero c h = h
crc_bits-lt (suc n) c h = crc_bits-lt n (crc_bit c) (crc_bit-lt c h)

crc_bits_injective : (n c d : ℕ) → c < 65536 → d < 65536 → crc_bits n c ≡ crc_bits n d → c ≡ d
unfolding crc_bits
crc_bits_injective zero c d h k e = e
crc_bits_injective (suc n) c d h k e =
    sym (unshift-crc_bit c h)
    ∙ ap unshift (crc_bits_injective n (crc_bit c) (crc_bit d) (crc_bit-lt c h) (crc_bit-lt d k) e)
    ∙ unshift-crc_bit d k

module _ (b : ℕ) (hb : b < 256) where
  shifted-lt : b * 256 % 65536 < 65536
  shifted-lt = omega arith

  mixed-lt : (c : ℕ) → c < 65536 → bit_xor c (b * 256 % 65536) < 65536
  mixed-lt c h = bit_xor-lt 16 c (b * 256 % 65536) h shifted-lt

  crc_byte-lt : (c : ℕ) → c < 65536 → crc_byte c b < 65536
  unfolding crc_byte
  crc_byte-lt c h = crc_bits-lt 8 _ (mixed-lt c h)

  crc_byte_injective : (c d : ℕ) → c < 65536 → d < 65536 → crc_byte c b ≡ crc_byte d b → c ≡ d
  unfolding crc_byte
  crc_byte_injective c d h k e =
      sym (bit_xor_cancel 16 c (b * 256 % 65536) h shifted-lt)
      ∙ ap (λ (t : ℕ). bit_xor t (b * 256 % 65536))
          (crc_bits_injective 8 _ _ (mixed-lt c h) (mixed-lt d k) e)
      ∙ bit_xor_cancel 16 d (b * 256 % 65536) k shifted-lt

crc_byte_separates :
    (c a b : ℕ) → c < 65536 → a < 256 → b < 256 → crc_byte c a ≡ crc_byte c b → a ≡ b
unfolding crc_byte
crc_byte_separates c a b h ha hb e = omega (
  arith,
  bit_xor_left_injective 16 (a * 256 % 65536) (b * 256 % 65536) c (shifted-lt a ha)
      (shifted-lt b hb) h (crc_bits_injective 8 _ _ (mixed-lt a ha c h) (mixed-lt b hb c h) e),
)

crc_from-lt : (c : ℕ) (bs : List ℕ) → c < 65536 → AreBytes bs → crc_from c bs < 65536
unfolding crc_from
crc_from-lt c [] h k = h
crc_from-lt c (b ∷ bs) h k = crc_from-lt (crc_byte c b) bs (crc_byte-lt b k.0 c h) k.1

pub crc16-lt : (bs : List ℕ) → AreBytes bs → crc16 bs < 65536
unfolding crc16
crc16-lt bs h = crc_from-lt 0xFFFF bs (omega arith) h

crc_from_injective :
    (bs : List ℕ) (c d : ℕ)
    → c < 65536
    → d < 65536
    → AreBytes bs
    → crc_from c bs ≡ crc_from d bs
    → c ≡ d
unfolding crc_from
crc_from_injective [] c d h k hb e = e
crc_from_injective (b ∷ bs) c d h k hb e =
    crc_byte_injective b hb.0 c d h k
      (crc_from_injective bs _ _ (crc_byte-lt b hb.0 c h) (crc_byte-lt b hb.0 d k) hb.1 e)

crc_from_separates :
    (xs ys : List ℕ) (a b c : ℕ)
    → c < 65536
    → a < 256
    → b < 256
    → AreBytes xs
    → AreBytes ys
    → crc_from c (xs ++ a ∷ ys) ≡ crc_from c (xs ++ b ∷ ys)
    → a ≡ b
unfolding crc_from
crc_from_separates [] ys a b c h ha hb hx hy e =
    crc_byte_separates c a b h ha hb
      (crc_from_injective ys _ _ (crc_byte-lt a ha c h) (crc_byte-lt b hb c h) hy e)
crc_from_separates (x ∷ xs) ys a b c h ha hb hx hy e =
    crc_from_separates xs ys a b (crc_byte c x) (crc_byte-lt x hx.0 c h) ha hb hx.1 hy e

-- Two messages of bytes that differ in one byte alone, anywhere, have different checksums.
pub crc16_separates :
    (xs ys : List ℕ) (a b : ℕ)
    → a < 256
    → b < 256
    → AreBytes xs
    → AreBytes ys
    → crc16 (xs ++ a ∷ ys) ≡ crc16 (xs ++ b ∷ ys)
    → a ≡ b
unfolding crc16
crc16_separates xs ys a b ha hb hx hy e =
    crc_from_separates xs ys a b 0xFFFF (omega arith) ha hb hx hy e
