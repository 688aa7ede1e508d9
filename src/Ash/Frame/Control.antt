-- ===== src/Ash/Frame/Control.antt =====
-- internal/ash/frame.go: `Decode` reads from a control byte what `controlByte` put there.
use gzb.Base.{
  ℕ, ◌*◌, ◌/◌, ◌%◌, ◌<◌, ◌≡◌, refl, arith, Bool, true, false, ltb, IsByte, ◌&&◌, bit_and, bit_or,
  ◌==◌, if◌then◌else◌, AreBytes,
}
use gzb.Base.Bits.{all_below, all_below_sound}
use gzb.Base.Result.{ok}
use gzb.Ash.Random.{randomize_cancel}
use gzb.Ash.Frame.{
  FrameType, data_frame, ack, nak, rst, rstack, error, Frame, blank, control_of, body_payload,
  decode_control,
}

-- What a frame of its type carries: the other fields do not travel.
unfoldable pub carried_of : FrameType → Frame → Frame
carried_of data_frame f = record f { type = data_frame; not_ready = false }
carried_of ack f = record (blank ack) { ack_num = f.ack_num; not_ready = f.not_ready }
carried_of nak f = record (blank nak) { ack_num = f.ack_num; not_ready = f.not_ready }
carried_of rst f = blank rst
carried_of rstack f = record (blank rstack) { payload = f.payload }
carried_of error f = record (blank error) { payload = f.payload }

unfoldable pub carried : Frame → Frame
unfolding carried_of
carried f = carried_of f.type f

-- The control byte of a DATA frame, by its two numbers.
abbrev data_byte : Bool → ℕ → ℕ → ℕ
data_byte r m a =
    let c = bit_or (bit_and m 0x07 * 16 % 256) (bit_and a 0x07) in if r then bit_or c 0x08 else c

abbrev data_reads : Bool → ℕ → ℕ → Bool
data_reads r m a =
    let c = data_byte r m a in
    bit_and c 0x80 == 0
    && bit_and (c / 16) 0x07 == m
    && bit_and c 0x07 == a
    && bit_and c 0x08 == (if r then 8 else 0)

data_table : (r : Bool) → all_below 8 (λ m. all_below 8 (λ a. data_reads r m a)) ≡ true
unfolding all_below
data_table true = refl
data_table false = refl

data_fields : (r : Bool) (m a : ℕ) → m < 8 → a < 8 → data_reads r m a ≡ true
data_fields r m a hm ha =
    all_below_sound 8 (λ y. data_reads r m y) a
      (all_below_sound 8 (λ x. all_below 8 (λ y. data_reads r x y)) m (data_table r) hm) ha

abbrev ack_byte : ℕ → Bool → ℕ → ℕ
ack_byte kind r a = let c = bit_or kind (bit_and a 0x07) in if r then bit_or c 0x10 else c

abbrev ack_reads : ℕ → Bool → ℕ → Bool
ack_reads kind r a =
    let c = ack_byte kind r a in
    bit_and c 0x80 == 0x80
    && bit_and c 0xE0 == kind
    && bit_and c 0x07 == a
    && bit_and c 0x10 == (if r then 16 else 0)

ack_table : (r : Bool) → all_below 8 (λ a. ack_reads 0x80 r a && ack_reads 0xA0 r a) ≡ true
unfolding all_below
ack_table true = refl
ack_table false = refl

ack_fields : (r : Bool) (a : ℕ) → a < 8 → (ack_reads 0x80 r a && ack_reads 0xA0 r a) ≡ true
ack_fields r a h = all_below_sound 8 _ a (ack_table r) h

pub read_of :
    (t : FrameType) (f : Frame)
    → f.frm_num < 8
    → f.ack_num < 8
    → AreBytes f.payload
    → decode_control (control_of t f) (body_payload t f.payload) ≡ ok (carried_of t f)
unfolding decode_control control_of body_payload carried_of
read_of data_frame f hm ha hb =
    ground (arith, data_fields f.re_tx f.frm_num f.ack_num hm ha, randomize_cancel f.payload hb)
read_of ack f hm ha hb = ground (arith, ack_fields f.not_ready f.ack_num ha)
read_of nak f hm ha hb = ground (arith, ack_fields f.not_ready f.ack_num ha)
read_of rst f hm ha hb = refl
read_of rstack f hm ha hb = refl
read_of error f hm ha hb = refl

data_byte_table :
    (r : Bool) → all_below 8 (λ m. all_below 8 (λ a. ltb (data_byte r m a) 256)) ≡ true
unfolding all_below
data_byte_table true = refl
data_byte_table false = refl

ack_byte_table :
    (r : Bool)
    → all_below 8 (λ a. ltb (ack_byte 0x80 r a) 256 && ltb (ack_byte 0xA0 r a) 256) ≡ true
unfolding all_below
ack_byte_table true = refl
ack_byte_table false = refl

data_byte-lt : (r : Bool) (m a : ℕ) → m < 8 → a < 8 → ltb (data_byte r m a) 256 ≡ true
data_byte-lt r m a hm ha =
    all_below_sound 8 (λ y. ltb (data_byte r m y) 256) a
      (all_below_sound 8 (λ x. all_below 8 (λ y. ltb (data_byte r x y) 256)) m (data_byte_table r)
        hm)
      ha

ack_byte-lt :
    (r : Bool) (a : ℕ) → a < 8 → (ltb (ack_byte 0x80 r a) 256 && ltb (ack_byte 0xA0 r a) 256) ≡ true
ack_byte-lt r a ha = all_below_sound 8 _ a (ack_byte_table r) ha

pub control_of-IsByte :
    (t : FrameType) (f : Frame) → f.frm_num < 8 → f.ack_num < 8 → IsByte (control_of t f)
unfolding control_of
control_of-IsByte data_frame f hm ha =
    ground (arith, data_byte-lt f.re_tx f.frm_num f.ack_num hm ha)
control_of-IsByte ack f hm ha = ground (arith, ack_byte-lt f.not_ready f.ack_num ha)
control_of-IsByte nak f hm ha = ground (arith, ack_byte-lt f.not_ready f.ack_num ha)
control_of-IsByte _ f hm ha = omega arith
