-- ===== src/Ash/Stuff.antt =====
-- internal/ash/frame.go: the reserved bytes, `needsEscape`, `stuff` and `unstuff`.
pub mod Laws
use gzb.Base.{ℕ, Bool, true, false, ◌||◌, List, [], ◌∷◌, ◌++◌, bit_xor, ◌==◌, if◌then◌else◌, Bytes}
use gzb.Base.Result.{Result, ok, err}
use gzb.Ash.Error.{Error, escape_at_end}

abbrev pub flag_byte : ℕ
flag_byte = 0x7E

abbrev pub escape_byte : ℕ
escape_byte = 0x7D

abbrev pub x_on_byte : ℕ
x_on_byte = 0x11

abbrev pub x_off_byte : ℕ
x_off_byte = 0x13

abbrev pub subst_byte : ℕ
subst_byte = 0x18

abbrev pub cancel_byte : ℕ
cancel_byte = 0x1A

abbrev pub escape_mask : ℕ
escape_mask = 0x20

unfoldable pub needs_escape : ℕ → Bool
needs_escape b =
    b == flag_byte
    || b == escape_byte
    || b == x_on_byte
    || b == x_off_byte
    || b == subst_byte
    || b == cancel_byte

-- What the loop of `stuff` appends for one byte.
unfoldable pub stuff_byte : ℕ → Bytes
unfolding needs_escape
stuff_byte b = if needs_escape b then escape_byte ∷ bit_xor b escape_mask ∷ [] else b ∷ []

-- The loop, without the flag that follows it.
unfoldable pub stuff_body : Bytes → Bytes
unfolding stuff_byte
stuff_body [] = []
stuff_body (b ∷ bs) = stuff_byte b ++ stuff_body bs

unfoldable pub stuff : Bytes → Bytes
unfolding stuff_body
stuff frame = stuff_body frame ++ flag_byte ∷ []

-- The loop of `unstuff`, from `out`. The flag says that the index has just passed an escape byte.
unfoldable pub unstuff_from : Bool → Bytes → Bytes → Result Error Bytes
unstuff_from true out [] = err escape_at_end
unstuff_from false out [] = ok out
unstuff_from true out (b ∷ bs) = unstuff_from false (out ++ bit_xor b escape_mask ∷ []) bs
unstuff_from false out (b ∷ bs) =
    let escaped = b == escape_byte in
    unstuff_from escaped (if escaped then out else out ++ b ∷ []) bs

unfoldable pub unstuff : Bytes → Result Error Bytes
unfolding unstuff_from
unstuff body = unstuff_from false [] body
