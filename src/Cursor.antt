-- ===== src/Cursor.antt =====
-- internal/ezsp/codec.go: `buf`, the bounds-checked reader with a latched error. internal/zcl/zcl.go
-- and internal/zdo/zdo.go have the same reader as `cursor`, with `uint`, `bytes` and `fail` added in
-- the first; the models of all three packages use this one.
pub mod At
pub mod Progress
use gzb.Base.{
  ℕ, zero, suc, ◌+◌, ◌-◌, ◌*◌, ◌%◌, ◌^◌, Bool, true, false, Option, none, some, List, [], ◌∷◌, ◌==◌,
  ltb, if◌then◌else◌, Bytes, length, get_or, take, drop, word16, word32,
}

-- The first failure: `need` bytes at an offset of so many, or a data type of no known length.
pub data ReadError : Type 0 where
  truncated : ℕ → ℕ → ℕ → ReadError
  unsupported : ℕ → ReadError

pub record Cursor : Type 0 where
  pub bytes : Bytes
  pub pos : ℕ
  pub failure : Option ReadError

-- A read returns its value and the cursor behind it.
abbrev pub Reader : Type 0 → Type 0
Reader A = Cursor → A × Cursor

infixl 5 ◌>>=◌ ◌>>◌
abbrev pub ◌>>=◌ : {A B : Type 0} → Reader A → (A → Reader B) → Reader B
◌>>=◌ m f c = let (a, c') = m c in f a c'

abbrev pub ◌>>◌ : {A B : Type 0} → Reader A → Reader B → Reader B
m >> k = m >>= λ _. k

abbrev pub return : {A : Type 0} → A → Reader A
return a c = (a, c)

-- `newBuf`
abbrev pub new_buf : Bytes → Cursor
new_buf b = record { bytes = b; pos = 0; failure = none }

-- `fail`: the first failure stays.
unfoldable pub fail : ReadError → Cursor → Cursor
fail e c = elim c.failure [ some _ ↦ c | none ↦ record c { failure = some e } ]

-- `need`
unfoldable pub need : ℕ → Cursor → Bool × Cursor
unfolding fail
need n c = elim c.failure [
  | some _ ↦ (false, c)
  | none ↦
      if ltb (length c.bytes) (c.pos + n)
      then (false, fail (truncated n c.pos (length c.bytes)) c)
      else (true, c)
]

-- Every read is `need`, then a value, then the step on; `otherwise` is returned without the bytes.
unfoldable pub guarded : {A : Type 0} → ℕ → A → (Bytes → A) → Reader A
unfolding need
guarded n otherwise value c =
    let (enough, c') = need n c in
    if enough
    then (value (drop c'.pos c'.bytes), record c' { pos = c'.pos + n })
    else (otherwise, c')

unfoldable pub u8 : Reader ℕ
u8 = guarded 1 0 (λ b. get_or b 0 0)

unfoldable pub u16 : Reader ℕ
u16 = guarded 2 0 (λ b. word16 (get_or b 0 0) (get_or b 1 0))

unfoldable pub u32 : Reader ℕ
u32 = guarded 4 0 (λ b. word32 (get_or b 0 0) (get_or b 1 0) (get_or b 2 0) (get_or b 3 0))

-- The loop of `uint`: the bytes from the last to the first, `v<<8 | b` in 64 bits.
unfoldable pub little_endian : Bytes → ℕ
little_endian [] = 0
little_endian (b ∷ bs) = (little_endian bs * 256 + b) % 2 ^ 64

unfoldable pub uint : ℕ → Reader ℕ
unfolding little_endian
uint n = guarded n 0 (λ b. little_endian (take n b))

unfoldable pub read_bytes : ℕ → Reader Bytes
read_bytes n = guarded n [] (take n)

-- An EUI-64, most significant byte first; on the wire it stands the other way round.
unfoldable pub ieee : Reader Bytes
ieee = guarded 8 (0 ∷ 0 ∷ 0 ∷ 0 ∷ 0 ∷ 0 ∷ 0 ∷ 0 ∷ []) (λ b.
    get_or b 7 0
    ∷ get_or b 6 0
    ∷ get_or b 5 0
    ∷ get_or b 4 0
    ∷ get_or b 3 0
    ∷ get_or b 2 0
    ∷ get_or b 1 0
    ∷ get_or b 0 0
    ∷ [])

unfoldable pub remaining : Cursor → ℕ
remaining c = elim c.failure [ some _ ↦ 0 | none ↦ length c.bytes - c.pos ]

-- `wbuf.ieee`
unfoldable pub put_ieee : Bytes → Bytes
put_ieee a =
    get_or a 7 0
    ∷ get_or a 6 0
    ∷ get_or a 5 0
    ∷ get_or a 4 0
    ∷ get_or a 3 0
    ∷ get_or a 2 0
    ∷ get_or a 1 0
    ∷ get_or a 0 0
    ∷ []
