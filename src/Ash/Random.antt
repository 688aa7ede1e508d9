-- ===== src/Ash/Random.antt =====
-- internal/ash/frame.go: `randomize`, the payload XORed with the output of an 8-bit shift register.
use gzb.Base.{
  ℕ, suc, length, ap, ◌/◌, ◌<◌, ◌≡◌, refl, ap₂, List, [], ◌∷◌, bit_and, bit_xor, ◌==◌,
  if◌then◌else◌, AreBytes, arith,
}
use gzb.Base.Bits.{bit_xor_byte_lt, bit_xor_byte_cancel}

-- The next state of the generator.
unfoldable pub next_random : ℕ → ℕ
next_random r = if bit_and r 1 == 0 then r / 2 else bit_xor (r / 2) 0xB8

unfoldable pub randomize_from : ℕ → List ℕ → List ℕ
unfolding next_random
randomize_from r [] = []
randomize_from r (b ∷ bs) = bit_xor b r ∷ randomize_from (next_random r) bs

unfoldable pub randomize : List ℕ → List ℕ
unfolding randomize_from
randomize bs = randomize_from 0x42 bs

next_random-lt : (r : ℕ) → r < 256 → next_random r < 256
unfolding next_random
next_random-lt r h = ground (arith, bit_xor_byte_lt (r / 2) 0xB8)

randomize_from_cancel :
    (r : ℕ) (bs : List ℕ) → r < 256 → AreBytes bs → randomize_from r (randomize_from r bs) ≡ bs
unfolding randomize_from
randomize_from_cancel r [] h k = refl
randomize_from_cancel r (b ∷ bs) h k =
    ap₂ ◌∷◌ (bit_xor_byte_cancel b r k.0 h)
      (randomize_from_cancel (next_random r) bs (next_random-lt r h) k.1)

-- On bytes, `randomize` undoes itself.
pub randomize_cancel : (bs : List ℕ) → AreBytes bs → randomize (randomize bs) ≡ bs
unfolding randomize
randomize_cancel bs k = randomize_from_cancel 0x42 bs (omega arith) k

randomize_from-IsByte :
    (r : ℕ) (bs : List ℕ) → r < 256 → AreBytes bs → AreBytes (randomize_from r bs)
unfolding randomize_from
randomize_from-IsByte r [] h k = tt
randomize_from-IsByte r (b ∷ bs) h k =
    (bit_xor_byte_lt b r k.0 h, randomize_from-IsByte (next_random r) bs (next_random-lt r h) k.1)

pub randomize-IsByte : (bs : List ℕ) → AreBytes bs → AreBytes (randomize bs)
unfolding randomize
randomize-IsByte bs k = randomize_from-IsByte 0x42 bs (omega arith) k

length-randomize_from : (r : ℕ) (bs : List ℕ) → length (randomize_from r bs) ≡ length bs
unfolding randomize_from
length-randomize_from r [] = refl
length-randomize_from r (b ∷ bs) = ap suc (length-randomize_from (next_random r) bs)

pub length-randomize : (bs : List ℕ) → length (randomize bs) ≡ length bs
unfolding randomize
length-randomize bs = length-randomize_from 0x42 bs
