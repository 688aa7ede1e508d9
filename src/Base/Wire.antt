-- ===== src/Base/Wire.antt =====
-- Byte slices, and Go's `encoding/binary` little-endian words.
use Prim.Native.Nat.{ℕ, ◌+◌, ◌*◌, ◌/◌, ◌%◌, ◌<◌}
use mathlib.Core.List.{List, [], ◌∷◌}
use gzb.Base.Lists.{All}

abbrev pub Bytes : Type 0
Bytes = List ℕ

abbrev pub IsByte : ℕ → Type 0
IsByte b = b < 256

abbrev pub IsWord : ℕ → Type 0
IsWord w = w < 65536

abbrev pub AreBytes : List ℕ → Type 0
AreBytes = All IsByte

-- `binary.LittleEndian.AppendUint16(nil, v)` and `AppendUint32`
abbrev pub le16 : ℕ → Bytes
le16 v = v % 256 ∷ v / 256 % 256 ∷ []

abbrev pub le32 : ℕ → Bytes
le32 v = v % 256 ∷ v / 256 % 256 ∷ v / 65536 % 256 ∷ v / 16777216 % 256 ∷ []

-- `binary.LittleEndian.Uint16` and `Uint32`
abbrev pub word16 : ℕ → ℕ → ℕ
word16 a b = a + b * 256

abbrev pub word32 : ℕ → ℕ → ℕ → ℕ → ℕ
word32 a b c d = a + b * 256 + c * 65536 + d * 16777216
