-- ===== src/Ezsp/Join/Layout.antt =====
-- internal/ezsp/join.go: `decodeIncomingMessage` reads the layout that its comment states, and
-- ignores what follows the payload.
use gzb.Base.{
  ℕ, ◌≡◌, refl, arith, true, false, [], ◌∷◌, ◌++◌, ltb, ltb-false, Bytes, IsWord, length,
  length-append, take-append, drop-append, le16,
}
use gzb.Base.Int.{pattern_of, in_range, signed-pattern_of}
use gzb.Base.Result.{ok}
use gzb.Cursor.{remaining}
use gzb.Cursor.At.{at, at-nil, u8-at, u16-le16, remaining-at}
use gzb.Ezsp.Join.{IncomingMessage, read_incoming, take_payload, decode_incoming_message}

-- type(1) apsFrame(11) lastHopLqi(1) lastHopRssi(1) sender(2) bindingIndex(1) addressIndex(1)
-- messageLength(1)
abbrev pub header : IncomingMessage → ℕ → ℕ → Bytes
header m binding address =
    m.type
    ∷ (le16 m.aps.profile
        ++ (le16 m.aps.cluster
            ++ (m.aps.source_ep
                ∷ m.aps.dest_ep
                ∷ (le16 m.aps.options
                    ++ (le16 m.aps.group_id
                        ++ (m.aps.aps_sequence
                            ∷ m.lqi
                            ∷ pattern_of 128 m.rssi
                            ∷ (le16 m.sender ++ (binding ∷ address ∷ length m.payload ∷ []))))))))

pub record IsSent (m : IncomingMessage) : Type 0 where
  pub profile_word : IsWord m.aps.profile
  pub cluster_word : IsWord m.aps.cluster
  pub options_word : IsWord m.aps.options
  pub group_word : IsWord m.aps.group_id
  pub sender_word : IsWord m.sender
  pub rssi_signed : in_range 128 m.rssi ≡ true

read_incoming-header :
    (m : IncomingMessage) (binding address : ℕ) (rest : Bytes)
    → IsSent m
    → read_incoming (at [] (header m binding address ++ rest))
      ≡ ((record m { payload = [] }, length m.payload), at (header m binding address) rest)
unfolding read_incoming
read_incoming-header m binding address rest h =
    rw
      (
        u8-at,
        u16-le16 _ m.aps.profile _ h.profile_word,
        u16-le16 _ m.aps.cluster _ h.cluster_word,
        u8-at,
        u8-at,
        u16-le16 _ m.aps.options _ h.options_word,
        u16-le16 _ m.aps.group_id _ h.group_word,
        u8-at,
        u8-at,
        u8-at,
        u16-le16 _ m.sender _ h.sender_word,
        u8-at,
        u8-at,
        u8-at,
        signed-pattern_of 128 m.rssi h.rssi_signed,
      )
      refl

take_payload-at :
    (m : IncomingMessage) (before trailing : Bytes)
    → take_payload
        (before ++ (m.payload ++ trailing))
        ((record m { payload = [] }, length m.payload), at before (m.payload ++ trailing))
      ≡ ok m
unfolding take_payload at
take_payload-at m before trailing =
    let enough : ltb (remaining (at before (m.payload ++ trailing))) (length m.payload) ≡ false =
      ltb-false _ _ (
        omega
          (arith, remaining-at before (m.payload ++ trailing), length-append m.payload trailing)) in
    rw (enough, drop-append before (m.payload ++ trailing), take-append m.payload trailing) refl

-- A message in the documented layout, with fields that fit their widths, is read back whole, and
-- what follows the payload is ignored.
pub decode_incoming_message-header :
    (m : IncomingMessage) (binding address : ℕ) (trailing : Bytes)
    → IsSent m
    → decode_incoming_message (header m binding address ++ (m.payload ++ trailing)) ≡ ok m
unfolding decode_incoming_message
decode_incoming_message-header m binding address trailing h =
    let long : ltb (length (header m binding address ++ (m.payload ++ trailing))) 19 ≡ false =
      ltb-false _ 19 (omega arith) in
    rw
      (
        long,
        at-nil (header m binding address ++ (m.payload ++ trailing)),
        read_incoming-header m binding address (m.payload ++ trailing) h,
      )
      (take_payload-at m (header m binding address) trailing)
