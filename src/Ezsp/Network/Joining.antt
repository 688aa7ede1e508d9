-- ===== src/Ezsp/Network/Joining.antt =====
-- internal/ezsp/network.go: which commands `JoinNetwork` sends.
use gzb.Base.{
  ℕ, zero, suc, ◌^◌, ◌≤◌, ◌≡◌, ◌≢◌, refl, arith, true, false, not, List, [], ◌∷◌, ◌++◌, ◌==◌,
  if◌then◌else◌, ◌⊎◌, inl, inr,
}
use gzb.Base.Int.{ℤ}
use gzb.Base.Result.{ok}
use gzb.Base.Strings.{same}
use gzb.Ezsp.Commands.{get_network_state, get_network_parameters, get_node_id, get_eui64}
use gzb.Ezsp.Network.{
  no_address, no_key, JoinConfig, JoinResult, UpWake, zigbee_channel, joining_role, with_defaults,
  join_params, joiner_security, joiner_extended_security, set_initial_security_state_id,
  set_extended_security_bitmask_id, security_state_params, set_initial_security_state,
  set_extended_security_bitmask, set_joiner_security_state, off_network, read_back,
  await_network_up, join_network, join_network_id, network_params, power_or_default,
}
use gzb.Ezsp.Network.Filled.{IsFilled, IsPower, power_or_default-IsPower, differ}
use gzb.Ezsp.Network.Start.{ReportsUp, await_network_up-ReportsUp}
use gzb.Ezsp.Network.Guard.{
  StartsOff, demand-StartsOff, off_network-StartsOff, IsOffNetwork, channel-low, channel-high,
  off_network-Ensures, read_back-Ensures,
}
use gzb.Ezsp.Talk.{Command, Ncp}
use gzb.Ezsp.Talk.Ensures.{
  Ensures, Ensures-bind, Ensures-weaken, Ensures-lift, Ensures-part, Ensures-last_order,
  Ensures-give, Ensures-demand, Ensures-order,
}
use gzb.Ezsp.Talk.Trace.{as_command}
use gzb.Base.{le16}

abbrev joiner_keys : List Command
joiner_keys =
    as_command set_initial_security_state_id (security_state_params joiner_security no_key)
    ∷ as_command set_extended_security_bitmask_id (le16 joiner_extended_security)
    ∷ []

set_joiner_security_state-Ensures :
    (ncp : Ncp) → Ensures ncp set_joiner_security_state (λ _ cmds. cmds ≡ joiner_keys)
unfolding set_joiner_security_state set_initial_security_state set_extended_security_bitmask
set_joiner_security_state-Ensures ncp = Ensures-order ncp set_initial_security_state_id _ _ (
    Ensures-weaken ncp
      (Ensures-last_order ncp set_extended_security_bitmask_id (le16 joiner_extended_security))
      (λ b ys e. rw e refl))

-- What `JoinNetwork` sends, in its own steps.
abbrev Steps : JoinConfig → List UpWake → List Command → Type 0
Steps cfg ups cmds =
    (zigbee_channel cfg.channel ≡ true)
    × (same cfg.extended_pan_id no_address ≡ false)
    × (joining_role (with_defaults cfg).node_type ≡ true)
    × (await_network_up ups ≡ ok tt)
    × (cmds
        ≡ as_command get_network_state []
          ∷ as_command set_initial_security_state_id (security_state_params joiner_security no_key)
          ∷ as_command set_extended_security_bitmask_id (le16 joiner_extended_security)
          ∷ as_command join_network_id (join_params (with_defaults cfg))
          ∷ as_command get_network_parameters []
          ∷ as_command get_node_id []
          ∷ as_command get_eui64 []
          ∷ [])

join_network-Ensures :
    (cfg : JoinConfig) (ups : List UpWake) (ncp : Ncp)
    → Ensures ncp (join_network cfg ups) (λ r cmds. Steps cfg ups cmds)
unfolding join_network
join_network-Ensures cfg ups ncp = Ensures-demand ncp (zigbee_channel cfg.channel) _ _ (λ channel.
    Ensures-demand ncp (not (same cfg.extended_pan_id no_address)) _ _ (λ named.
      Ensures-demand ncp (joining_role (with_defaults cfg).node_type) _ _ (λ role.
        Ensures-part ncp _ off_network _ (off_network-Ensures ncp) (
          Ensures-part ncp _ set_joiner_security_state _ (set_joiner_security_state-Ensures ncp) (
            Ensures-order ncp join_network_id _ _ (
              Ensures-lift ncp (await_network_up ups) _ (λ t up.
                Ensures-bind ncp read_back _ (read_back-Ensures ncp) (λ x cmds e.
                  Ensures-give ncp _ (channel, ground arith, role, up, rw e refl)))))))))

-- A router, an end device or a sleepy end device, and a router where none is named.
abbrev pub IsRole : ℕ → ℕ → Type 0
IsRole before now = IsFilled 0 (λ r. r ≡ 2) before now × ((now ≡ 2) ⊎ (now ≡ 3) ⊎ (now ≡ 4))

-- What `JoinNetwork` has done when it succeeds, from what it was given, the adapter and the commands
-- sent before.
abbrev pub IsJoined : JoinConfig → List UpWake → Ncp → List Command → List Command → Type 0
IsJoined cfg ups ncp sent cmds =
    (role : ℕ) × (power : ℤ) × IsRole cfg.node_type role
    × IsPower cfg.tx_power power
    × (11 ≤ cfg.channel)
    × (cfg.channel ≤ 26)
    × (cfg.extended_pan_id ≢ no_address)
    × IsOffNetwork ncp sent
    × ReportsUp ups
    × (cmds
        ≡ as_command get_network_state []
          ∷ as_command set_initial_security_state_id (security_state_params joiner_security no_key)
          ∷ as_command set_extended_security_bitmask_id (le16 joiner_extended_security)
          ∷ as_command join_network_id (
              role
              ∷ network_params (record {
                extended_pan_id = cfg.extended_pan_id;
                pan_id = cfg.pan_id;
                radio_tx_power = power;
                radio_channel = cfg.channel;
                join_method = 0;
                nwk_manager_id = 0;
                nwk_update_id = cfg.nwk_update_id;
                channels = 2 ^ cfg.channel;
              }))
          ∷ as_command get_network_parameters []
          ∷ as_command get_node_id []
          ∷ as_command get_eui64 []
          ∷ [])

role_or_default : (n : ℕ) → IsFilled 0 (λ r. r ≡ 2) n (if n == 0 then 2 else n)
role_or_default zero = inr (refl, refl)
role_or_default (suc n) = inl (λ e. absurd cc, ground arith)

one_of_three : (n : ℕ) → joining_role n ≡ true → (n ≡ 2) ⊎ (n ≡ 3) ⊎ (n ≡ 4)
unfolding joining_role
one_of_three n h = ground arith

Steps-IsJoined :
    (cfg : JoinConfig) (ups : List UpWake) (ncp : Ncp) (sent cmds : List Command)
    → IsOffNetwork ncp sent
    → Steps cfg ups cmds
    → IsJoined cfg ups ncp sent cmds
unfolding with_defaults join_params
Steps-IsJoined cfg ups ncp sent cmds off (channel, named, role, up, e) = (
  (if cfg.node_type == 0 then 2 else cfg.node_type),
  power_or_default cfg.tx_power,
  (role_or_default cfg.node_type, one_of_three _ role),
  power_or_default-IsPower cfg.tx_power,
  channel-low cfg.channel channel,
  channel-high cfg.channel channel,
  differ cfg.extended_pan_id no_address named,
  off,
  await_network_up-ReportsUp ups up,
  e,
)

join_network-StartsOff :
    (cfg : JoinConfig) (ups : List UpWake) (ncp : Ncp) → StartsOff ncp (join_network cfg ups)
unfolding join_network
join_network-StartsOff cfg ups ncp = demand-StartsOff ncp (zigbee_channel cfg.channel) _ _ (
    demand-StartsOff ncp (not (same cfg.extended_pan_id no_address)) _ _ (
      demand-StartsOff ncp (joining_role (with_defaults cfg).node_type) _ _
        (off_network-StartsOff ncp _)))

-- Whenever `JoinNetwork` succeeds: the channel is from 11 to 26, and the network has an extended PAN
-- ID; the role is a router, an end device or a sleepy end device, and a router if none was named, and
-- a power of 0 is 8 dBm; the adapter had said that it is on no network, with or without a parent;
-- network up was reported, with nothing but "success" and messages too short to hold a status in front
-- of it; and exactly these seven commands were sent, in this order: the question for the state of
-- the network, the two parts of a joiner's security state, the join with this role, this power and what
-- was asked for, and the three commands of the read-back.
pub join_network-IsJoined :
    (cfg : JoinConfig) (ups : List UpWake) (ncp : Ncp) (sent : List Command) (r : JoinResult)
    (out : List Command)
    → join_network cfg ups ncp sent ≡ (ok r, out)
    → (cmds : List Command) × (out ≡ sent ++ cmds) × IsJoined cfg ups ncp sent cmds
join_network-IsJoined cfg ups ncp sent r out e =
    let (cmds, ec, steps) = (join_network-Ensures cfg ups ncp).holds sent r out e in
    let off = (join_network-StartsOff cfg ups ncp).holds sent r out e in
    (cmds, ec, Steps-IsJoined cfg ups ncp sent cmds off steps)
