-- ===== src/Ash/Stuff/Laws.antt =====
-- internal/ash/frame.go: escaping hides the reserved bytes, and `unstuff` undoes it.
use gzb.Base.{
  ℕ, ◌⊎◌, ◌≡◌, refl, ap, ◌∙◌, arith, true, false, ◌||◌, not, [], ◌∷◌, ◌++◌, append-nil,
  append_assoc, bit_xor, ◌==◌, Bool-cases, inl, inr, All, All-append, AreBytes, IsByte, Bytes,
  length, length-append, ◌≤◌, ◌*◌,
}
use gzb.Base.Bits.{all_below, all_below_sound, bit_xor_byte_cancel}
use gzb.Base.Result.{ok}
use gzb.Ash.Stuff.{escape_mask, needs_escape, stuff_byte, stuff_body, unstuff_from, unstuff}

-- Not one of the bytes that the receiver acts on; an escape byte is content to it.
abbrev pub IsPlain : ℕ → Type 0
IsPlain b = (b ≡ 0x7D) ⊎ (needs_escape b ≡ false)

escaped_table :
    all_below 256 (λ b. not (needs_escape b) || not (needs_escape (bit_xor b 0x20))) ≡ true
unfolding all_below needs_escape
escaped_table = refl

escaped_plain :
    (b : ℕ) → IsByte b → needs_escape b ≡ true → needs_escape (bit_xor b escape_mask) ≡ false
escaped_plain b h e = ground (arith, all_below_sound 256 _ b escaped_table h)

pub stuff_byte-IsPlain : (b : ℕ) → IsByte b → All IsPlain (stuff_byte b)
unfolding stuff_byte
stuff_byte-IsPlain b h = elim (Bool-cases (needs_escape b)) [
  | inl e ↦ rw e (inl refl, (inr (escaped_plain b h e), tt))
  | inr e ↦ rw e (inr e, tt)
]

-- After bytes were escaped, no reserved byte but the escape byte is left among them.
pub stuff_body-IsPlain : (bs : Bytes) → AreBytes bs → All IsPlain (stuff_body bs)
unfolding stuff_body
stuff_body-IsPlain [] h = tt
stuff_body-IsPlain (b ∷ bs) h =
    All-append IsPlain (stuff_byte b) (stuff_body bs) (stuff_byte-IsPlain b h.0)
      (stuff_body-IsPlain bs h.1)

not_escape : (b : ℕ) → needs_escape b ≡ false → (b == 0x7D) ≡ false
unfolding needs_escape
not_escape b e = ground arith

plain_step :
    (b : ℕ) (out rest : Bytes)
    → (b == 0x7D) ≡ false
    → unstuff_from false out (b ∷ rest) ≡ unstuff_from false (out ++ b ∷ []) rest
unfolding unstuff_from
plain_step b out rest e = rw (unstuff_from, e)

unstuff_from-stuff_byte :
    (b : ℕ) (out rest : Bytes)
    → IsByte b
    → unstuff_from false out (stuff_byte b ++ rest) ≡ unstuff_from false (out ++ b ∷ []) rest
unfolding unstuff_from stuff_byte
unstuff_from-stuff_byte b out rest h = elim (Bool-cases (needs_escape b)) [
  | inl e ↦ rw e (rw (bit_xor_byte_cancel b 0x20 h (omega arith)))
  | inr e ↦ rw e (plain_step b out rest (not_escape b e))
]

unstuff_from-stuff_body :
    (bs out : Bytes) → AreBytes bs → unstuff_from false out (stuff_body bs) ≡ ok (out ++ bs)
unfolding stuff_body
unstuff_from-stuff_body [] out h = rw append-nil (unfold unstuff_from in refl)
unstuff_from-stuff_body (b ∷ bs) out h =
    unstuff_from-stuff_byte b out (stuff_body bs) h.0
    ∙ unstuff_from-stuff_body bs (out ++ b ∷ []) h.1
    ∙ ap ok (append_assoc out (b ∷ []) bs)

-- Of bytes, `unstuff` reads back what `stuff` wrote in front of the flag.
pub unstuff-stuff_body : (bs : Bytes) → AreBytes bs → unstuff (stuff_body bs) ≡ ok bs
unfolding unstuff
unstuff-stuff_body bs h = unstuff_from-stuff_body bs [] h

-- Escaping at most doubles a frame, and never shortens it.
pub length-stuff_body :
    (bs : Bytes) → (length bs ≤ length (stuff_body bs)) × (length (stuff_body bs) ≤ 2 * length bs)
unfolding stuff_body stuff_byte
length-stuff_body [] = omega arith
length-stuff_body (b ∷ bs) =
    ground (arith, length-stuff_body bs, length-append (stuff_byte b) (stuff_body bs))
