-- ===== src/Zcl/Frame/Layout.antt =====
-- internal/zcl: requests as the frame decoder and the request decoder read them, and write responses.
use gzb.Base.{
  ℕ, ◌+◌, ◌*◌, ◌/◌, ◌%◌, ◌≡◌, refl, ap₂, arith, true, false, not, none, List, [], ◌∷◌, ◌++◌, map,
  ◌==◌, Bytes, All, IsWord, length, le16, bit_and,
}
use gzb.Base.Result.{ok}
use gzb.Cursor.At.{at, at-nil, u8-at}
use gzb.Zcl.Frame.{
  Frame, finish_frame, read_header, decode, le16_all, read_attributes, read_attributes_request,
  ids_of, read_request, cluster_command_request, WriteResult, is_success, write_results,
  write_response,
}

-- A frame without a manufacturer's code, by its control byte.
abbrev pub plain_frame : ℕ → ℕ → ℕ → Bytes → Frame
plain_frame fc seq cmd payload = record {
  type = bit_and fc 0x03;
  manufacturer_specific = false;
  manufacturer_code = 0;
  direction = bit_and fc 0x08 / 8;
  disable_default_response = not (bit_and fc 0x10 == 0);
  sequence = seq;
  command = cmd;
  payload = payload;
}

read_header_plain :
    (fc seq cmd : ℕ) (payload : Bytes)
    → (bit_and fc 0x04 == 0) ≡ true
    → read_header fc (at (fc ∷ []) (seq ∷ cmd ∷ payload))
      ≡ (0, seq, cmd, at (fc ∷ seq ∷ cmd ∷ []) payload)
unfolding read_header
read_header_plain fc seq cmd payload h = rw (h, u8-at, u8-at) refl

finish_frame_plain :
    (fc seq cmd : ℕ) (payload : Bytes)
    → (bit_and fc 0x04 == 0) ≡ true
    → finish_frame (fc ∷ seq ∷ cmd ∷ payload) fc (0, seq, cmd, at (fc ∷ seq ∷ cmd ∷ []) payload)
      ≡ ok (plain_frame fc seq cmd payload)
unfolding finish_frame at
finish_frame_plain fc seq cmd payload h = rw h refl

pub decode_plain :
    (fc seq cmd : ℕ) (payload : Bytes)
    → (bit_and fc 0x04 == 0) ≡ true
    → decode (fc ∷ seq ∷ cmd ∷ payload) ≡ ok (plain_frame fc seq cmd payload)
unfolding decode
decode_plain fc seq cmd payload h =
    rw
      (
        at-nil (fc ∷ seq ∷ cmd ∷ payload),
        u8-at [] fc (seq ∷ cmd ∷ payload),
        read_header_plain fc seq cmd payload h,
      )
      (finish_frame_plain fc seq cmd payload h)

length-le16_all : (ids : List ℕ) → length (le16_all ids) % 2 ≡ 0
unfolding le16_all
length-le16_all [] = refl
length-le16_all (id ∷ ids) = omega (arith, length-le16_all ids)

ids_of-le16_all : (ids : List ℕ) → All IsWord ids → ids_of (le16_all ids) ≡ ids
unfolding ids_of le16_all
ids_of-le16_all [] h = refl
ids_of-le16_all (id ∷ ids) h = ap₂ ◌∷◌ (omega arith) (ids_of-le16_all ids h.1)

-- A command to a cluster is decoded as such: from the hub, with its number, its sequence number and its
-- payload, without a manufacturer's code and with the default response left on.
pub decode-cluster_command_request :
    (seq cmd : ℕ) (payload : Bytes)
    → decode (cluster_command_request seq cmd payload)
      ≡ ok (record {
        type = 1;
        manufacturer_specific = false;
        manufacturer_code = 0;
        direction = 0;
        disable_default_response = false;
        sequence = seq;
        command = cmd;
        payload = payload;
      })
unfolding cluster_command_request
decode-cluster_command_request seq cmd payload = decode_plain 0x01 seq cmd payload refl

read_request_plain :
    (seq : ℕ) (ids : List ℕ)
    → All IsWord ids
    → read_request (plain_frame 0x10 seq read_attributes (le16_all ids)) ≡ ok ids
unfolding read_request
read_request_plain seq ids h = rw (length-le16_all ids, ids_of-le16_all ids h) refl

-- The request to read attributes with identifiers of 16 bits is decoded as a frame from which the
-- identifiers are read back, in order, with the sequence number of the request.
pub read_request-read_attributes_request :
    (seq : ℕ) (ids : List ℕ)
    → All IsWord ids
    → (f : Frame) × (decode (read_attributes_request seq ids) ≡ ok f)
      × (f.sequence ≡ seq)
      × (read_request f ≡ ok ids)
unfolding read_attributes_request
read_request-read_attributes_request seq ids h = (
  plain_frame 0x10 seq read_attributes (le16_all ids),
  decode_plain 0x10 seq read_attributes (le16_all ids) refl,
  refl,
  read_request_plain seq ids h,
)

-- The records of a write response, one after the other.
abbrev pub listed : List WriteResult → Bytes
listed [] = []
listed (r ∷ rs) = r.status ∷ (le16 r.id ++ listed rs)

abbrev pub HasWordId : WriteResult → Type 0
HasWordId r = IsWord r.id

write_results-listed :
    (rs : List WriteResult) → All HasWordId rs → write_results (listed rs) ≡ (rs, true)
unfolding write_results
write_results-listed [] h = refl
write_results-listed (r ∷ rs) h =
    let same : r.id % 256 + r.id / 256 % 256 * 256 ≡ r.id = omega arith in
    rw (write_results-listed rs h.1, same) refl

not_success : (r : WriteResult) (rs : List WriteResult) → is_success (listed (r ∷ rs)) ≡ false
not_success r rs = refl

-- A profile-wide frame with the command of a write response gives exactly the results that it
-- lists, in order, if it lists at least one and their identifiers have 16 bits; with a single
-- success byte it gives a success for each attribute asked for; neither has an error.
pub write_response-listed :
    (f : Frame) (rs : List WriteResult) (r : WriteResult) (requested : List ℕ)
    → f.type ≡ 0
    → f.command ≡ 0x04
    → All HasWordId (r ∷ rs)
    → (write_response (record f { payload = listed (r ∷ rs) }) requested ≡ (r ∷ rs, none))
      × (write_response (record f { payload = 0x00 ∷ [] }) requested
          ≡ (map (λ id. record { id = id; status = 0 }) requested, none))
unfolding write_response
write_response-listed f rs r requested e k h =
    (simp (e, k) (rw (write_results-listed (r ∷ rs) h) refl), simp (e, k) refl)
