-- ===== src/Cursor/At.antt =====
-- internal/ezsp/codec.go: what each read returns from a cursor that stands before known bytes, and
-- the bounds that no read leaves.
use gzb.Base.{
  ℕ, ◌+◌, ◌/◌, ◌%◌, ◌^◌, ◌≤◌, ◌<◌, ◌≡◌, refl, ap, ◌∙◌, arith, true, false, none, some, [], ◌∷◌,
  ◌++◌, append_assoc, ltb, ltb-false, lt→ltb, Bytes, IsWord, length, length-append, take-append,
  drop-append, get_or, le16, le32, word16,
}
use gzb.Cursor.{
  ReadError, truncated, Cursor, fail, guarded, ieee, put_ieee, u8, u16, u32, little_endian, uint,
  read_bytes, remaining, new_buf,
}

-- A cursor behind `before` and in front of `rest`.
unfoldable pub at : Bytes → Bytes → Cursor
at before rest = record { bytes = before ++ rest; pos = length before; failure = none }

pub at-nil : (b : Bytes) → new_buf b ≡ at [] b
unfolding at
at-nil b = refl

enough_there :
    (before these rest : Bytes)
    → ltb (length (before ++ (these ++ rest))) (length before + length these) ≡ false
enough_there before these rest =
    ltb-false _ _ (omega (arith, length-append before (these ++ rest), length-append these rest))

pub guarded-at :
    {A : Type 0} (these before rest : Bytes) (otherwise : A) (value : Bytes → A)
    → guarded (length these) otherwise value (at before (these ++ rest))
      ≡ (value (these ++ rest), at (before ++ these) rest)
unfolding guarded at
guarded-at these before rest otherwise value =
    rw
      (
        enough_there before these rest,
        drop-append before (these ++ rest),
        length-append before these,
        append_assoc before these rest,
      )
      refl

-- Eight bytes are listed by their indices.
eight_bytes :
    (a : Bytes)
    → length a ≡ 8
    → get_or a 0 0
        ∷ get_or a 1 0
        ∷ get_or a 2 0
        ∷ get_or a 3 0
        ∷ get_or a 4 0
        ∷ get_or a 5 0
        ∷ get_or a 6 0
        ∷ get_or a 7 0
        ∷ []
      ≡ a
eight_bytes (a ∷ b ∷ c ∷ d ∷ e ∷ f ∷ g ∷ h ∷ []) e8 = refl
eight_bytes _ e8 = absurd (omega arith)

module _ (before : Bytes) where
  pub u8-at : (a : ℕ) (rest : Bytes) → u8 (at before (a ∷ rest)) ≡ (a, at (before ++ a ∷ []) rest)
  unfolding u8
  u8-at a rest = guarded-at (a ∷ []) before rest _ _

  pub u16-at :
      (a b : ℕ) (rest : Bytes)
      → u16 (at before (a ∷ b ∷ rest)) ≡ (word16 a b, at (before ++ a ∷ b ∷ []) rest)
  unfolding u16
  u16-at a b rest = guarded-at (a ∷ b ∷ []) before rest _ _

  pub u16-le16 :
      (v : ℕ) (rest : Bytes)
      → IsWord v
      → u16 (at before (le16 v ++ rest)) ≡ (v, at (before ++ le16 v) rest)
  u16-le16 v rest h =
      u16-at (v % 256) (v / 256 % 256) rest
      ∙ ap (λ (t : ℕ). (t, at (before ++ le16 v) rest)) (omega arith)

  pub u32-le32 :
      (v : ℕ) (rest : Bytes)
      → v < 2 ^ 32
      → u32 (at before (le32 v ++ rest)) ≡ (v, at (before ++ le32 v) rest)
  unfolding u32
  u32-le32 v rest h =
      guarded-at (le32 v) before rest _ _
      ∙ ap (λ (t : ℕ). (t, at (before ++ le32 v) rest)) (omega arith)

  -- An address of eight bytes is read back from the wire.
  pub ieee-put_ieee :
      (a rest : Bytes)
      → length a ≡ 8
      → ieee (at before (put_ieee a ++ rest)) ≡ (a, at (before ++ put_ieee a) rest)
  unfolding ieee put_ieee
  ieee-put_ieee a rest h =
      guarded-at (put_ieee a) before rest _ _
      ∙ ap (λ (t : Bytes). (t, at (before ++ put_ieee a) rest)) (eight_bytes a h)

  pub read_bytes-at :
      (these rest : Bytes)
      → read_bytes (length these) (at before (these ++ rest)) ≡ (these, at (before ++ these) rest)
  unfolding read_bytes
  read_bytes-at these rest =
      guarded-at these before rest _ _
      ∙ ap (λ (t : Bytes). (t, at (before ++ these) rest)) (take-append these rest)

  pub uint-at :
      (these rest : Bytes)
      → uint (length these) (at before (these ++ rest))
        ≡ (little_endian these, at (before ++ these) rest)
  unfolding uint
  uint-at these rest =
      guarded-at these before rest _ _
      ∙ ap (λ (t : Bytes). (little_endian t, at (before ++ these) rest)) (take-append these rest)

  -- Too few bytes: the read returns its substitute, the error is latched, and nothing is passed.
  pub guarded_short :
      {A : Type 0} (n : ℕ) (rest : Bytes) (otherwise : A) (value : Bytes → A)
      → length rest < n
      → guarded n otherwise value (at before rest) ≡ (
        otherwise,
        record (at before rest) {
          failure = some (truncated n (length before) (length (before ++ rest)));
        },
      )
  unfolding guarded at fail
  guarded_short n rest otherwise value h =
      let short : ltb (length (before ++ rest)) (length before + n) ≡ true =
        lt→ltb _ _ (omega (arith, length-append before rest)) in
      rw short refl

  pub remaining-at : (rest : Bytes) → remaining (at before rest) ≡ length rest
  unfolding remaining at
  remaining-at rest = omega (arith, length-append before rest)

-- After a failure every read returns its substitute and leaves the cursor, with its first error.
pub guarded_latched :
    {A : Type 0} (n : ℕ) (otherwise : A) (value : Bytes → A) (c : Cursor) (e : ReadError)
    → c.failure ≡ some e
    → guarded n otherwise value c ≡ (otherwise, c)
unfolding guarded
guarded_latched n otherwise value c e h = ground arith

-- A read of any number of bytes by a cursor whose offset is within its bytes leaves the bytes
-- alone, and moves the offset forward at most, and not past the end.
pub guarded-bound :
    {A : Type 0} (n : ℕ) (otherwise : A) (value : Bytes → A) (c : Cursor)
    → c.pos ≤ length c.bytes
    → ((guarded n otherwise value c).1.pos ≤ length c.bytes)
      × ((guarded n otherwise value c).1.bytes ≡ c.bytes)
      × (c.pos ≤ (guarded n otherwise value c).1.pos)
unfolding guarded fail
guarded-bound n otherwise value c h = ground arith
