-- ===== src/Ash/Frame/RoundTrip.antt =====
-- internal/ash/frame.go: what `Encode` writes and what `Decode` makes of it.
use gzb.Base.{
  ℕ, ◌+◌, ◌-◌, ◌*◌, ◌/◌, ◌%◌, ◌<◌, ◌≤◌, ◌≡◌, ◌≢◌, refl, sym, arith, false, not, [], ◌∷◌, ◌++◌,
  bit_or, ◌==◌, ltb, if◌then◌else◌, ==_self, ==_ne, All-split, ltb-false, Bytes, AreBytes, IsByte,
  All, All-append, length, drop, get_or, length-append, take-append, drop-append, ◌∙◌,
}
use gzb.Base.Bits.{bit_or_byte}
use gzb.Base.Result.{ok, err}
use gzb.Ash.Error.{bad_crc}
use gzb.Ash.Crc.{crc16}
use gzb.Ash.Crc.Detect.{crc16-lt, crc16_separates}
use gzb.Ash.Random.{randomize-IsByte, length-randomize}
use gzb.Ash.Stuff.{stuff, stuff_body, flag_byte}
use gzb.Ash.Stuff.Laws.{IsPlain, length-stuff_body, stuff_body-IsPlain, unstuff-stuff_body}
use gzb.Ash.Frame.{
  FrameType, data_frame, rst, Frame, blank, control_of, control_byte, body_payload, with_crc,
  encode, decode_control, carried_crc, decode_body, decode, max_frame_len,
}
use gzb.Ash.Frame.Control.{carried, read_of, control_of-IsByte}

abbrev crc_bytes : Bytes → Bytes
crc_bytes xs = crc16 xs / 256 % 256 ∷ crc16 xs % 256 ∷ []

carried_crc_bytes : (xs : Bytes) → AreBytes xs → carried_crc (crc_bytes xs) ≡ crc16 xs
unfolding carried_crc
carried_crc_bytes xs h = carried_word (crc16 xs) (crc16-lt xs h)
  where
    carried_word : (w : ℕ) → w < 65536 → bit_or (w / 256 % 256 * 256 % 65536) (w % 256) ≡ w
    carried_word w h =
        let high : w / 256 % 256 * 256 % 65536 ≡ w / 256 * 256 = omega arith in
        rw high (bit_or_byte (w / 256) (w % 256) (omega arith) (omega arith) ∙ omega arith)

cut_at : (xs ys : Bytes) → length ys ≡ 2 → length (xs ++ ys) - 2 ≡ length xs
cut_at xs ys e = omega (arith, length-append xs ys)

-- `Decode` takes the last two bytes of a body for its checksum.
split_body :
    (payload sum : Bytes)
    → length sum ≡ 2
    → 1 ≤ length payload
    → decode_body (payload ++ sum) ≡ (
        if not (crc16 payload == carried_crc sum)
        then err bad_crc
        else decode_control (get_or payload 0 0) (drop 1 payload))
unfolding decode_body
split_body payload sum two some_payload =
    let long : ltb (length (payload ++ sum)) 3 ≡ false =
      ltb-false (length (payload ++ sum)) 3 (omega (arith, length-append payload sum)) in
    rw (long, cut_at payload sum two, take-append payload sum, drop-append payload sum) refl

-- A body with its own checksum is read as its control byte and payload.
decode_body-with_crc :
    (c : ℕ) (bs : Bytes) → AreBytes (c ∷ bs) → decode_body (with_crc (c ∷ bs)) ≡ decode_control c bs
unfolding with_crc
decode_body-with_crc c bs h =
    split_body (c ∷ bs) (crc_bytes (c ∷ bs)) refl (omega arith)
    ∙ rw (carried_crc_bytes (c ∷ bs) h, ==_self (crc16 (c ∷ bs))) refl

body_payload-AreBytes : (t : FrameType) (bs : Bytes) → AreBytes bs → AreBytes (body_payload t bs)
unfolding body_payload
body_payload-AreBytes data_frame bs h = randomize-IsByte bs h
body_payload-AreBytes _ bs h = h

with_crc-AreBytes : (xs : Bytes) → AreBytes xs → AreBytes (with_crc xs)
unfolding with_crc
with_crc-AreBytes xs h = All-append IsByte xs (crc_bytes xs) h (omega arith)

abbrev unescaped : Frame → Bytes
unescaped f = with_crc (control_byte f ∷ body_payload f.type f.payload)

length-unescaped : (f : Frame) → length (unescaped f) ≡ length f.payload + 3
unfolding with_crc body_payload
length-unescaped f = tail (control_byte f) f.type f.payload
  where
    same : (t : FrameType) (bs : Bytes) → length (body_payload t bs) ≡ length bs
    same data_frame bs = length-randomize bs
    same _ bs = refl

    tail :
        (c : ℕ) (t : FrameType) (bs : Bytes)
        → length (with_crc (c ∷ body_payload t bs)) ≡ length bs + 3
    tail c t bs =
        omega
          (arith, length-append (body_payload t bs) (crc_bytes (c ∷ body_payload t bs)), same t bs)

-- A frame with numbers below 8 and a payload of at most 256 bytes goes out as a body without
-- reserved bytes (but the escape byte) and a flag. `Decode` reads from the body the fields that
-- the type of the frame carries, and no other. The body has at least three bytes more than the
-- payload.
pub decode-encode :
    (f : Frame)
    → f.frm_num < 8
    → f.ack_num < 8
    → AreBytes f.payload
    → length f.payload ≤ max_frame_len
    → (body : Bytes) × (encode f ≡ ok (body ++ flag_byte ∷ []))
      × All IsPlain body
      × (decode body ≡ ok (carried f))
      × (length f.payload + 3 ≤ length body)
unfolding encode decode stuff carried control_byte
decode-encode f hm ha hb short =
    let bytes : AreBytes (control_byte f ∷ body_payload f.type f.payload) =
      (control_of-IsByte f.type f hm ha, body_payload-AreBytes f.type f.payload hb) in
    let whole : AreBytes (unescaped f) = with_crc-AreBytes _ bytes in
    let fits : ltb max_frame_len (length f.payload) ≡ false = ltb-false max_frame_len _ short in
    (
      stuff_body (unescaped f),
      rw fits refl,
      stuff_body-IsPlain (unescaped f) whole,
      rw (unstuff-stuff_body (unescaped f) whole) (
          decode_body-with_crc (control_byte f) (body_payload f.type f.payload) bytes
          ∙ read_of f.type f hm ha hb),
      omega (arith, length-stuff_body (unescaped f), length-unescaped f),
    )

-- A body of bytes in which one byte in front of the checksum was changed before it was escaped is
-- refused for its checksum, whatever the byte and the change.
pub decode_corrupted :
    (xs ys : Bytes) (a b : ℕ)
    → AreBytes (xs ++ a ∷ ys)
    → AreBytes (xs ++ b ∷ ys)
    → a ≢ b
    → decode (stuff_body ((xs ++ b ∷ ys) ++ crc_bytes (xs ++ a ∷ ys))) ≡ err bad_crc
unfolding decode
decode_corrupted xs ys a b ha hb ne =
    let received = (xs ++ b ∷ ys) ++ crc_bytes (xs ++ a ∷ ys) in
    let (hx, hay) = All-split IsByte xs (a ∷ ys) ha in
    let (_, hby) = All-split IsByte xs (b ∷ ys) hb in
    let whole : AreBytes received = All-append IsByte (xs ++ b ∷ ys) _ hb (omega arith) in
    let differs : crc16 (xs ++ b ∷ ys) ≢ crc16 (xs ++ a ∷ ys) =
      λ e. ne (sym (crc16_separates xs ys b a hby.0 hay.0 hx hay.1 e)) in
    rw (unstuff-stuff_body received whole) (
      split_body (xs ++ b ∷ ys) (crc_bytes (xs ++ a ∷ ys)) refl
        (omega (arith, length-append xs (b ∷ ys)))
      ∙ rw (carried_crc_bytes (xs ++ a ∷ ys) ha, ==_ne _ _ differs) refl)

-- RST on the wire.
pub encode_rst : encode (blank rst) ≡ ok (0xC0 ∷ 0x38 ∷ 0xBC ∷ flag_byte ∷ [])
unfolding encode control_byte control_of body_payload with_crc crc16 stuff
encode_rst = refl
