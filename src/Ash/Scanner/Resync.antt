-- ===== src/Ash/Scanner/Resync.antt =====
-- internal/ash/conn.go: which frame bodies the scanner hands over, and how it recovers.
use gzb.Base.{
  ℕ, ◌+◌, ◌≤◌, ◌<◌, ◌≡◌, ◌≢◌, refl, ap, ◌∙◌, arith, true, false, [], ◌∷◌, ◌++◌, append_assoc,
  append-nil, leb, leb-true, leb-false, le_or_lt, if◌then◌else◌, inl, inr, Bytes, AreBytes, All,
  length, length-append,
}
use gzb.Base.Result.{ok}
use gzb.Ash.Stuff.{flag_byte, x_on_byte, x_off_byte, subst_byte, cancel_byte, needs_escape, unstuff}
use gzb.Ash.Stuff.Laws.{IsPlain}
use gzb.Ash.Frame.{max_frame_len, Frame, encode, decode, decode_body}
use gzb.Ash.Frame.Control.{carried}
use gzb.Ash.Frame.RoundTrip.{decode-encode}
use gzb.Ash.Scanner.{Scanned, discarded, body, Partial, clean, at_flag, add_byte, scan_byte}
use gzb.Ash.Scanner.Stream.{scan}

scan_flag : (p : Partial) (rest : Bytes) → scan p (flag_byte ∷ rest) ≡ at_flag p ∷ scan clean rest
unfolding scan scan_byte
scan_flag p rest = refl

plain_fits :
    (p : Partial) (b : ℕ) (rest : Bytes)
    → IsPlain b
    → length p.frame < max_frame_len
    → scan p (b ∷ rest) ≡ scan (record p { frame = p.frame ++ b ∷ [] }) rest
unfolding scan scan_byte add_byte needs_escape
plain_fits p b rest h short = ground arith

plain_overflows :
    (p : Partial) (b : ℕ) (rest : Bytes)
    → IsPlain b
    → max_frame_len ≤ length p.frame
    → scan p (b ∷ rest) ≡ scan (record { frame = []; corrupt = true }) rest
unfolding scan scan_byte add_byte needs_escape
plain_overflows p b rest h long = ground arith

-- Content without reserved bytes is gathered, as long as it fits.
scan_content :
    (bs : Bytes) (p : Partial) (rest : Bytes)
    → All IsPlain bs
    → length p.frame + length bs ≤ max_frame_len
    → scan p (bs ++ rest) ≡ scan (record p { frame = p.frame ++ bs }) rest
scan_content [] p rest h fits = rw append-nil refl
scan_content (b ∷ bs) p rest h fits =
    plain_fits p b (bs ++ rest) h.0 (omega arith)
    ∙ scan_content bs (record p { frame = p.frame ++ b ∷ [] }) rest h.1
        (omega (arith, length-append p.frame (b ∷ [])))
    ∙ rw append_assoc refl

-- A marked frame is dropped at its flag, whatever content follows the mark.
scan_marked :
    (bs : Bytes) (p : Partial) (rest : Bytes)
    → All IsPlain bs
    → p.corrupt ≡ true
    → scan p (bs ++ flag_byte ∷ rest) ≡ discarded ∷ scan clean rest
scan_marked [] p rest h marked = scan_flag p rest ∙ unfold at_flag in rw marked refl
scan_marked (b ∷ bs) p rest h marked = elim (le_or_lt max_frame_len (length p.frame)) [
  | inl long ↦
      plain_overflows p b (bs ++ flag_byte ∷ rest) h.0 long
      ∙ scan_marked bs (record { frame = []; corrupt = true }) rest h.1 refl
  | inr short ↦
      plain_fits p b (bs ++ flag_byte ∷ rest) h.0 short
      ∙ scan_marked bs (record p { frame = p.frame ++ b ∷ [] }) rest h.1 marked
]

-- Content that does not fit beside what is there marks the frame.
scan_runaway :
    (bs : Bytes) (p : Partial) (rest : Bytes)
    → All IsPlain bs
    → length p.frame ≤ max_frame_len
    → max_frame_len < length p.frame + length bs
    → scan p (bs ++ flag_byte ∷ rest) ≡ discarded ∷ scan clean rest
scan_runaway [] p rest h fits long = absurd (omega arith)
scan_runaway (b ∷ bs) p rest h fits long = elim (le_or_lt max_frame_len (length p.frame)) [
  | inl full ↦
      plain_overflows p b (bs ++ flag_byte ∷ rest) h.0 full
      ∙ scan_marked bs (record { frame = []; corrupt = true }) rest h.1 refl
  | inr short ↦
      plain_fits p b (bs ++ flag_byte ∷ rest) h.0 short
      ∙ scan_runaway bs (record p { frame = p.frame ++ b ∷ [] }) rest h.1
          (omega (arith, length-append p.frame (b ∷ [])))
          (omega (arith, length-append p.frame (b ∷ [])))
]

whole : (bs : Bytes) → bs ≢ [] → at_flag (record { frame = bs; corrupt = false }) ≡ body bs
unfolding at_flag
whole [] ne = absurd (ne refl)
whole (b ∷ bs) ne = refl

-- From the clean state, content without reserved bytes comes out whole at its flag if it has 1 to
-- 256 bytes, and is dropped there if it has more; either way the next frame starts clean.
pub scan_frame :
    (bs : Bytes) (rest : Bytes)
    → All IsPlain bs
    → bs ≢ []
    → scan clean (bs ++ flag_byte ∷ rest)
      ≡ (if leb (length bs) max_frame_len then body bs else discarded) ∷ scan clean rest
scan_frame bs rest h ne = elim (le_or_lt (length bs) max_frame_len) [
  | inl fits ↦ rw (leb-true (length bs) max_frame_len fits) (
      scan_content bs clean (flag_byte ∷ rest) h (omega arith)
      ∙ scan_flag _ rest
      ∙ ap (λ (r : Scanned). r ∷ scan clean rest) (whole bs ne))
  | inr long ↦
      rw (leb-false (length bs) max_frame_len long)
        (scan_runaway bs clean rest h (omega arith) (omega arith))
]

-- A cancel byte clears whatever was received; XON and XOFF change nothing; after a substitute
-- byte, content without reserved bytes is dropped at the next flag, and what follows is scanned
-- afresh.
pub scan_controls :
    (p : Partial) (bs rest : Bytes)
    → All IsPlain bs
    → (scan p (cancel_byte ∷ rest) ≡ scan clean rest)
      × (scan p (x_on_byte ∷ rest) ≡ scan p rest)
      × (scan p (x_off_byte ∷ rest) ≡ scan p rest)
      × (scan p (subst_byte ∷ (bs ++ flag_byte ∷ rest)) ≡ discarded ∷ scan clean rest)
unfolding scan scan_byte
scan_controls p bs rest h =
    (refl, refl, refl, scan_marked bs (record p { corrupt = true }) rest h refl)

decoded-ne-nil : (b : Bytes) (f : Frame) → decode b ≡ ok f → b ≢ []
unfolding decode unstuff decode_body
decoded-ne-nil [] f e = cc
decoded-ne-nil (x ∷ b) f e = λ h. cc

-- A frame with numbers below 8, of bytes and within the limit, sent after a cancel byte as `Reset`
-- sends it: the scanner drops what came before, and hands over the body that `Decode` reads back,
-- or drops that too if escaping made it longer than 256 bytes. What follows is scanned afresh.
pub scan-encode :
    (f : Frame) (p : Partial) (rest : Bytes)
    → f.frm_num < 8
    → f.ack_num < 8
    → AreBytes f.payload
    → length f.payload ≤ max_frame_len
    → (b : Bytes) × (encode f ≡ ok (b ++ flag_byte ∷ []))
      × (decode b ≡ ok (carried f))
      × (scan p (cancel_byte ∷ (b ++ flag_byte ∷ rest))
          ≡ (if leb (length b) max_frame_len then body b else discarded) ∷ scan clean rest)
scan-encode f p rest hm ha hb fits =
    let (b, sent, plain, read, _) = decode-encode f hm ha hb fits in
    (
      b,
      sent,
      read,
      (scan_controls p [] (b ++ flag_byte ∷ rest) tt).0
          ∙ scan_frame b rest plain (decoded-ne-nil b (carried f) read),
    )

-- A frame with numbers below 8 and a payload of 254 to 256 bytes is accepted by `Encode`, and
-- dropped by a scanner that receives it in its clean state.
pub scan_too_long :
    (f : Frame)
    → f.frm_num < 8
    → f.ack_num < 8
    → AreBytes f.payload
    → 253 < length f.payload
    → length f.payload ≤ max_frame_len
    → (wire : Bytes) × (encode f ≡ ok wire) × (scan clean wire ≡ discarded ∷ [])
scan_too_long f hm ha hb long fits =
    let (b, sent, plain, read, size) = decode-encode f hm ha hb fits in
    (
      b ++ flag_byte ∷ [],
      sent,
      scan_frame b [] plain (decoded-ne-nil b (carried f) read)
          ∙ rw (leb-false (length b) max_frame_len (omega arith)) (unfold scan in refl),
    )
