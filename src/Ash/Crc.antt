-- ===== src/Ash/Crc.antt =====
-- internal/ash/frame.go: `crc16`, CRC-16/CCITT-FALSE. A uint16 is a number below 65536.
pub mod Detect
use gzb.Base.{ℕ, zero, suc, ◌*◌, ◌%◌, List, [], ◌∷◌, bit_and, bit_xor, not, ◌==◌, if◌then◌else◌}

-- One round of the inner loop.
unfoldable pub crc_bit : ℕ → ℕ
crc_bit crc =
    if not (bit_and crc 0x8000 == 0) then bit_xor (crc * 2 % 65536) 0x1021 else crc * 2 % 65536

-- `for i := 0; i < 8; i++`, by the rounds left.
unfoldable pub crc_bits : ℕ → ℕ → ℕ
unfolding crc_bit
crc_bits zero crc = crc
crc_bits (suc n) crc = crc_bits n (crc_bit crc)

-- `crc ^= uint16(b) << 8`, then the eight rounds.
unfoldable pub crc_byte : ℕ → ℕ → ℕ
unfolding crc_bits
crc_byte crc b = crc_bits 8 (bit_xor crc (b * 256 % 65536))

unfoldable pub crc_from : ℕ → List ℕ → ℕ
unfolding crc_byte
crc_from crc [] = crc
crc_from crc (b ∷ bs) = crc_from (crc_byte crc b) bs

unfoldable pub crc16 : List ℕ → ℕ
unfolding crc_from
crc16 bs = crc_from 0xFFFF bs
