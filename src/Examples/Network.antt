-- ===== src/Examples/Network.antt =====
-- internal/ezsp/network.go at concrete inputs.
use gzb.Base.{ℕ, ◌≡◌, refl, true, Option, none, some, List, [], ◌∷◌, ◌++◌, ◌==◌, if◌then◌else◌}
use gzb.Base.Int.{pos}
use gzb.Base.Result.{ok}
use gzb.Base.Strings.{same}
use gzb.Cursor.{guarded, need, u8, u16, u32, ieee}
use gzb.Ezsp.Commands.{
  NetworkParameters, network_state, node_id, eui64, network_parameters, read_network_parameters,
  read_network_reply, after_status, read_status,
}
use gzb.Ezsp.Network.{
  FormationConfig, FormationResult, Randoms, JoinConfig, JoinResult, UpWake, status_message,
  form_network, join_network, off_network, with_key, with_extended, with_pan_id, random_pan_id,
  draw_pan_id, await_network_up, set_initial_security_state, set_extended_security_bitmask,
  set_joiner_security_state, read_back, zigbee_channel, joining_role, with_defaults,
  power_or_default,
}
use gzb.Ezsp.Network.Forming.{IsFormed, form_network-IsFormed}
use gzb.Ezsp.Network.Joining.{IsJoined, join_network-IsJoined}
use gzb.Ezsp.Talk.{Command, Ncp, command, call, ask, order}

abbrev home : NetworkParameters
home = record {
  extended_pan_id = 1 ∷ 2 ∷ 3 ∷ 4 ∷ 5 ∷ 6 ∷ 7 ∷ 8 ∷ [];
  pan_id = 0x1A62;
  radio_tx_power = pos 8;
  radio_channel = 15;
  join_method = 0;
  nwk_manager_id = 0;
  nwk_update_id = 0;
  channels = 0x07FFF800;
}

-- An adapter in this state of the network, that takes every command.
abbrev adapter : ℕ → Ncp
adapter state sent c =
    if c.id == 0x0018
    then ok (state ∷ [])
    else if c.id == 0x0028
    then ok (
        0
        ∷ 1
        ∷ (8 ∷ 7 ∷ 6 ∷ 5 ∷ 4 ∷ 3 ∷ 2 ∷ 1 ∷ 0x62 ∷ 0x1A ∷ 8 ∷ 15 ∷ 0 ∷ 0 ∷ 0 ∷ 0 ∷ 0 ∷ 0xF8 ∷ 0xFF
            ∷ 7 ∷ []))
    else ok (0 ∷ 0 ∷ [])

abbrev asked_for : FormationConfig
asked_for = record {
  channel = 15;
  pan_id = 0;
  extended_pan_id = home.extended_pan_id;
  network_key = 7 ∷ [];
  tx_power = pos 0;
}

-- The first draw is reserved.
abbrev draws : ℕ → Option (ℕ × ℕ)
draws i = if i == 0 then some (255, 255) else some (0x62, 0x1A)

abbrev random : Randoms
random = record { key = none; extended = none; draws = draws }

abbrev ups : List UpWake
ups =
    status_message (record { sequence = 0; id = 0x0019; callback = true; params = 0 ∷ [] })
    ∷ status_message (record { sequence = 0; id = 0x0019; callback = true; params = 0x90 ∷ [] })
    ∷ []

abbrev seat : FormationResult
seat = record {
  channel = 15;
  pan_id = 0x1A62;
  extended_pan_id = home.extended_pan_id;
  network_key = 7 ∷ [];
  tx_power = pos 8;
  node_id = 0;
  ieee = 0 ∷ 0 ∷ 0 ∷ 0 ∷ 0 ∷ 0 ∷ 0 ∷ 0 ∷ [];
}

abbrev sent_out : List Command
sent_out = (form_network asked_for random ups (adapter 0) []).1

up_run : await_network_up ups ≡ ok tt
unfolding await_network_up u8 guarded need
up_run = refl

formed_run : form_network asked_for random ups (adapter 0) [] ≡ (ok seat, sent_out)
unfolding form_network off_network network_state with_key with_extended with_pan_id random_pan_id
    draw_pan_id set_initial_security_state await_network_up read_back network_parameters node_id
    eui64 ask order call command read_network_reply after_status read_status read_network_parameters
    u8 u16 u32 ieee guarded need zigbee_channel same
formed_run = refl

form_network-IsFormed_example :
    (cmds : List Command) × (sent_out ≡ [] ++ cmds)
    × IsFormed asked_for random ups (adapter 0) [] seat cmds
form_network-IsFormed_example =
    form_network-IsFormed asked_for random ups (adapter 0) [] seat sent_out formed_run

abbrev wanted : JoinConfig
wanted = record {
  channel = 15;
  pan_id = 0x1A62;
  extended_pan_id = home.extended_pan_id;
  nwk_update_id = 0;
  tx_power = pos 0;
  node_type = 0;
}

abbrev joined_out : List Command
joined_out = (join_network wanted ups (adapter 0) []).1

abbrev taken_seat : JoinResult
taken_seat = record {
  node_type = 1;
  channel = 15;
  pan_id = 0x1A62;
  extended_pan_id = home.extended_pan_id;
  tx_power = pos 8;
  node_id = 0;
  ieee = 0 ∷ 0 ∷ 0 ∷ 0 ∷ 0 ∷ 0 ∷ 0 ∷ 0 ∷ [];
}

join_run : join_network wanted ups (adapter 0) [] ≡ (ok taken_seat, joined_out)
unfolding join_network off_network network_state with_defaults power_or_default joining_role
    set_initial_security_state set_extended_security_bitmask set_joiner_security_state
    await_network_up read_back network_parameters node_id eui64 ask order call command
    read_network_reply after_status read_status read_network_parameters u8 u16 u32 ieee guarded need
    zigbee_channel same
join_run = refl

join_network-IsJoined_example :
    (cmds : List Command) × (joined_out ≡ [] ++ cmds) × IsJoined wanted ups (adapter 0) [] cmds
join_network-IsJoined_example =
    join_network-IsJoined wanted ups (adapter 0) [] taken_seat joined_out join_run
