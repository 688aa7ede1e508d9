-- ===== src/Ezsp/Network/Forming.antt =====
-- internal/ezsp/network.go: what `FormNetwork` has done when it succeeds.
use gzb.Base.{ℕ, ◌≡◌, refl, ap, ◌∙◌, true, ◌≤◌, subst, some, Bytes, List, [], ◌∷◌, ◌++◌}
use gzb.Base.Int.{ℤ}
use gzb.Base.Result.{ok}
use gzb.Ezsp.Commands.{
  get_network_state, get_network_parameters, get_node_id, get_eui64, default_channel_mask,
}
use gzb.Ezsp.Network.{
  no_address, no_key, power_or_default, with_key, with_extended, with_pan_id, await_network_up,
  set_initial_security_state_id, set_initial_security_state, security_state_params,
  coordinator_security, form_network_id, network_params, formed, FormationConfig, FormationResult,
  Randoms, UpWake, off_network, read_back, form_network, zigbee_channel,
}
use gzb.Ezsp.Network.Filled.{
  IsFilled, IsDrawn, IsPower, with_key-IsFilled, with_extended-IsFilled, with_pan_id-IsFilled,
  power_or_default-IsPower,
}
use gzb.Ezsp.Network.Start.{ReportsUp, await_network_up-ReportsUp}
use gzb.Ezsp.Talk.{Command, Ncp}
use gzb.Ezsp.Talk.Ensures.{
  Ensures, Ensures-bind, Ensures-lift, Ensures-part, Ensures-give, Ensures-demand, Ensures-order,
}
use gzb.Ezsp.Talk.Trace.{as_command}
use gzb.Ezsp.Network.Guard.{
  read_back-Ensures, off_network-Ensures, IsOffNetwork, StartsOff, demand-StartsOff,
  off_network-StartsOff, channel-low, channel-high,
}

-- What `FormNetwork` sends, in its own steps.
abbrev Steps : FormationConfig → Randoms → List UpWake → FormationResult → List Command → Type 0
Steps cfg rnd ups r cmds =
    (placed : FormationConfig) × ((keyed : FormationConfig) × (named : FormationConfig) × (with_key
          cfg rnd
        ≡ ok keyed)
      × (with_extended keyed rnd ≡ ok named)
      × (with_pan_id named rnd ≡ ok placed))
    × (zigbee_channel cfg.channel ≡ true)
    × (await_network_up ups ≡ ok tt)
    × (r.network_key ≡ placed.network_key)
    × (cmds
        ≡ as_command get_network_state []
          ∷ as_command set_initial_security_state_id
              (security_state_params coordinator_security placed.network_key)
          ∷ as_command form_network_id (network_params (formed placed))
          ∷ as_command get_network_parameters []
          ∷ as_command get_node_id []
          ∷ as_command get_eui64 []
          ∷ [])

form_network-Ensures :
    (cfg : FormationConfig) (rnd : Randoms) (ups : List UpWake) (ncp : Ncp)
    → Ensures ncp (form_network cfg rnd ups) (Steps cfg rnd ups)
unfolding form_network set_initial_security_state
form_network-Ensures cfg rnd ups ncp =
    Ensures-demand ncp (zigbee_channel cfg.channel) _ _ (λ channel.
      Ensures-part ncp _ off_network _ (off_network-Ensures ncp) (
        Ensures-lift ncp (with_key cfg rnd) _ (λ keyed k.
          Ensures-lift ncp (with_extended keyed rnd) _ (λ named n.
            Ensures-lift ncp (with_pan_id named rnd) _ (λ placed p.
              Ensures-order ncp set_initial_security_state_id _ _ (
                Ensures-order ncp form_network_id _ _ (
                  Ensures-lift ncp (await_network_up ups) _ (λ t up.
                    Ensures-bind ncp read_back _ (read_back-Ensures ncp) (λ x cmds e.
                      Ensures-give ncp _
                        (placed, (keyed, named, k, n, p), channel, up, refl, rw e refl))))))))))

-- What `FormNetwork` has done when it succeeds, from what it was given, the adapter and the commands
-- sent before.
abbrev pub IsFormed :
    FormationConfig
    → Randoms
    → List UpWake
    → Ncp
    → List Command
    → FormationResult
    → List Command
    → Type 0
IsFormed cfg rnd ups ncp sent r cmds =
    (key : Bytes) × (extended : Bytes) × (pan_id : ℕ) × (power : ℤ) × IsFilled no_key
      (λ k. rnd.key ≡ some k) cfg.network_key key
    × IsFilled no_address (λ k. rnd.extended ≡ some k) cfg.extended_pan_id extended
    × IsFilled 0 (IsDrawn rnd.draws) cfg.pan_id pan_id
    × IsPower cfg.tx_power power
    × (11 ≤ cfg.channel)
    × (cfg.channel ≤ 26)
    × IsOffNetwork ncp sent
    × ReportsUp ups
    × (r.network_key ≡ key)
    × (cmds
        ≡ as_command get_network_state []
          ∷ as_command set_initial_security_state_id
              (security_state_params coordinator_security key)
          ∷ as_command form_network_id (
              network_params (record {
                extended_pan_id = extended;
                pan_id = pan_id;
                radio_tx_power = power;
                radio_channel = cfg.channel;
                join_method = 0;
                nwk_manager_id = 0;
                nwk_update_id = 0;
                channels = default_channel_mask;
              }))
          ∷ as_command get_network_parameters []
          ∷ as_command get_node_id []
          ∷ as_command get_eui64 []
          ∷ [])

Steps-IsFormed :
    (cfg : FormationConfig) (rnd : Randoms) (ups : List UpWake) (ncp : Ncp) (sent : List Command)
    (r : FormationResult) (cmds : List Command)
    → IsOffNetwork ncp sent
    → Steps cfg rnd ups r cmds
    → IsFormed cfg rnd ups ncp sent r cmds
Steps-IsFormed cfg rnd ups ncp sent r cmds off
      (placed, (keyed, named, k, n, p), channel, up, rk, e) =
    let (key, at_key, key_filled) = with_key-IsFilled cfg rnd keyed k in
    let (extended, at_extended, extended_filled) = with_extended-IsFilled keyed rnd named n in
    let (pan_id, at_pan_id, pan_id_filled) = with_pan_id-IsFilled named rnd placed p in
    let named_is : named ≡ record cfg { network_key = key; extended_pan_id = extended } =
      at_extended ∙ ap (λ (t : FormationConfig). record t { extended_pan_id = extended }) at_key in
    let placed_is : placed
        ≡ record cfg { network_key = key; extended_pan_id = extended; pan_id = pan_id } =
      at_pan_id ∙ ap (λ (t : FormationConfig). record t { pan_id = pan_id }) named_is in
    (
      key,
      extended,
      pan_id,
      power_or_default cfg.tx_power,
      key_filled,
      subst
          (λ (t : FormationConfig).
            IsFilled no_address (λ k. rnd.extended ≡ some k) t.extended_pan_id extended)
          at_key extended_filled,
      subst (λ (t : FormationConfig). IsFilled 0 (IsDrawn rnd.draws) t.pan_id pan_id) named_is
          pan_id_filled,
      power_or_default-IsPower cfg.tx_power,
      channel-low cfg.channel channel,
      channel-high cfg.channel channel,
      off,
      await_network_up-ReportsUp ups up,
      rk ∙ ap (λ (t : FormationConfig). t.network_key) placed_is,
      e
          ∙ ap
              (λ (t : FormationConfig).
                as_command get_network_state []
                ∷ as_command set_initial_security_state_id
                    (security_state_params coordinator_security t.network_key)
                ∷ as_command form_network_id (network_params (formed t))
                ∷ as_command get_network_parameters []
                ∷ as_command get_node_id []
                ∷ as_command get_eui64 []
                ∷ [])
              placed_is,
    )

form_network-StartsOff :
    (cfg : FormationConfig) (rnd : Randoms) (ups : List UpWake) (ncp : Ncp)
    → StartsOff ncp (form_network cfg rnd ups)
unfolding form_network
form_network-StartsOff cfg rnd ups ncp =
    demand-StartsOff ncp (zigbee_channel cfg.channel) _ _ (off_network-StartsOff ncp _)

-- Whenever `FormNetwork` succeeds: the channel is from 11 to 26; the adapter had said that it is on no
-- network, with or without a parent; a key and an extended PAN ID that the configuration leaves open
-- are what the random source gave, a PAN ID that it leaves open is the first of at most eight draws
-- that is neither 0x0000 nor 0xFFFF, a power of 0 is 8 dBm, and what it does not leave open is as it
-- says; network up was reported, with nothing but "success" and messages too short to hold a status in
-- front of it; the key returned is the one installed; and exactly these six commands were sent, in this
-- order: the question for the state of the network, the security state of a coordinator with that
-- key, the formation with the channel and these values, and the three commands of the read-back.
pub form_network-IsFormed :
    (cfg : FormationConfig) (rnd : Randoms) (ups : List UpWake) (ncp : Ncp) (sent : List Command)
    (r : FormationResult) (out : List Command)
    → form_network cfg rnd ups ncp sent ≡ (ok r, out)
    → (cmds : List Command) × (out ≡ sent ++ cmds) × IsFormed cfg rnd ups ncp sent r cmds
form_network-IsFormed cfg rnd ups ncp sent r out e =
    let (cmds, ec, steps) = (form_network-Ensures cfg rnd ups ncp).holds sent r out e in
    let off = (form_network-StartsOff cfg rnd ups ncp).holds sent r out e in
    (cmds, ec, Steps-IsFormed cfg rnd ups ncp sent r cmds off steps)
