-- ===== src/Ezsp/Network/Layout.antt =====
-- internal/ezsp/network.go and commands.go: the parameters that formation and joining send have the
-- layout that the read-back reads.
use gzb.Base.{ℕ, ◌≡◌, ◌<◌, ◌^◌, refl, ap, true, [], ◌∷◌, ◌++◌, Bytes, IsWord, length}
use gzb.Base.Int.{in_range, signed-pattern_of}
use gzb.Base.Result.{ok}
use gzb.Cursor.{put_ieee}
use gzb.Cursor.At.{at, at-nil, u8-at, u16-le16, u32-le32, ieee-put_ieee}
use gzb.Ezsp.Commands.{
  NetworkParameters, with_type, after_status, read_network_parameters, read_status,
  read_network_reply,
}
use gzb.Ezsp.Network.{network_params}
use gzb.Ezsp.Talk.{whole}

pub record AreFields (np : NetworkParameters) : Type 0 where
  pub eight : length np.extended_pan_id ≡ 8
  pub pan_word : IsWord np.pan_id
  pub power_signed : in_range 128 np.radio_tx_power ≡ true
  pub manager_word : IsWord np.nwk_manager_id
  pub mask : np.channels < 2 ^ 32

read_network_parameters-network_params :
    (np : NetworkParameters) (node_type : ℕ) (rest : Bytes)
    → AreFields np
    → read_network_parameters (at (0 ∷ node_type ∷ []) (network_params np ++ rest))
      ≡ (np, at (0 ∷ node_type ∷ network_params np) rest)
unfolding read_network_parameters network_params put_ieee
read_network_parameters-network_params np node_type rest h =
    rw
      (
        ieee-put_ieee _ np.extended_pan_id _ h.eight,
        u16-le16 _ np.pan_id _ h.pan_word,
        u8-at,
        u8-at,
        u8-at,
        u16-le16 _ np.nwk_manager_id _ h.manager_word,
        u8-at,
        u32-le32 _ np.channels _ h.mask,
        signed-pattern_of 128 np.radio_tx_power h.power_signed,
      )
      refl

read_status-at :
    (status node_type : ℕ) (rest : Bytes)
    → read_status (at [] (status ∷ node_type ∷ rest))
      ≡ ((status, node_type), at (status ∷ node_type ∷ []) rest)
unfolding read_status
read_status-at status node_type rest = rw (u8-at, u8-at) refl

after_status-network_params :
    (np : NetworkParameters) (node_type : ℕ) (rest : Bytes)
    → AreFields np
    → after_status ((0, node_type), at (0 ∷ node_type ∷ []) (network_params np ++ rest))
      ≡ ok (node_type, np)
unfolding after_status at
after_status-network_params np node_type rest h =
    ap (λ t. with_type node_type (whole t))
      (read_network_parameters-network_params np node_type rest h)

-- What is read back of parameters that fit their fields, in the layout in which they were sent, behind a
-- success status and a role, is the role and these parameters; what follows is ignored.
pub read_network_reply-network_params :
    (np : NetworkParameters) (node_type : ℕ) (rest : Bytes)
    → AreFields np
    → read_network_reply (0 ∷ node_type ∷ (network_params np ++ rest)) ≡ ok (node_type, np)
unfolding read_network_reply
read_network_reply-network_params np node_type rest h =
    rw
      (
        at-nil (0 ∷ node_type ∷ (network_params np ++ rest)),
        read_status-at 0 node_type (network_params np ++ rest),
      )
      (after_status-network_params np node_type rest h)
