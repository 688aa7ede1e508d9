-- ===== src/Examples/Interview.antt =====
-- zigbee/interview.go at concrete inputs.
use gzb.Base.{ℕ, ◌≡◌, refl, arith, true, false, none, some, List, [], ◌∷◌, ◌++◌, map}
use gzb.Base.Int.{negsuc}
use gzb.Base.Result.{ok, err}
use gzb.Base.Strings.{text, has_prefix, same}
use gzb.Ezsp.Join.{IncomingMessage}
use gzb.Ezsp.Join.Layout.{IsSent, header, decode_incoming_message-header}
use gzb.Store.{
  Device, Store, blank, by_node_id, peer_of_model, peer_from, left_out, replaces, identified,
}
use gzb.Zigbee.Description.{
  Description, new_description, apply_interview, inherit, inherit_from_peer, partial_node,
}
use gzb.Zigbee.Description.Keeps.{unversioned, inherit-apply_interview}
use gzb.Zigbee.Interview.{DeviceAnswers, ask_all, listed}
use gzb.Zigbee.Interview.Answers.{answer_or, problem, described, undescribed, ask_all-settled}
use gzb.Zigbee.Query.{
  NodeDescriptor, PowerDescriptor, Endpoint, requesting, node_descriptor, power_descriptor,
  active_endpoints, is_mains, is_sleepy,
}
use gzb.Cursor.{u8, guarded, need}
use gzb.Ezsp.Send.{
  Wake, incoming, no_reply, request, send_unicast, reported, report, await_reply, await_loop,
  accepted,
}
use gzb.Ezsp.Send.Reply.{Answers}
use gzb.Ezsp.Talk.{Ncp, ask, call, command}
use gzb.Zdo.{response_cluster, sequence}
use gzb.Zigbee.Query.{zdo_query, answers_query}
use gzb.Zigbee.Query.Replies.{zdo_query-answered}

abbrev role : NodeDescriptor
role = record {
  logical_type = text "end device";
  mains = false;
  sleepy = true;
  capability = 0x80;
  manufacturer_code = 0x1037;
  max_buffer_size = 82;
  max_incoming_size = 82;
  max_outgoing_size = 82;
  server_mask = 0;
}

abbrev supply : PowerDescriptor
supply = record { source = text "disposable battery"; level = 12 }

abbrev sensor_endpoint : Endpoint
sensor_endpoint = record {
  id = 1;
  profile = 0x0104;
  device_id = 0x0302;
  version = 1;
  input = 0 ∷ 1 ∷ 0x0402 ∷ [];
  output = 3 ∷ [];
}

-- What one sensor answered, and the record of it.
abbrev learned : Description
learned = record (new_description 1 10) {
  manufacturer = text "eWeLink";
  model = text "SNZB-02";
  node = some role;
  power = some supply;
  endpoints = sensor_endpoint ∷ [];
}

abbrev peer : Device ℕ
peer = apply_interview (record (blank (text "AA")) { node_id = 1 }) learned

abbrev fresh : Description
fresh = record (new_description 2 20) { manufacturer = text "eWeLink"; model = text "SNZB-02" }

abbrev registry : Store ℕ
registry =
    record { key = text "AA"; device = peer }
    ∷ record { key = text "BB"; device = record (blank (text "BB")) { node_id = 2 } }
    ∷ []

inherit-apply_interview_example :
    ((inherit fresh peer).endpoints ≡ map unversioned learned.endpoints)
    × ((inherit fresh peer).node
        ≡ some (
            partial_node role.logical_type
              (is_mains role.capability)
              (is_sleepy role.capability)
              role.capability))
    × ((inherit fresh peer).power ≡ some (record { source = supply.source; level = 0 }))
inherit-apply_interview_example =
    inherit-apply_interview fresh learned (record (blank (text "AA")) { node_id = 1 }) role supply
      refl refl refl refl

abbrev given : Description
given = inherit fresh peer

given_run : inherit_from_peer registry 2 fresh ≡ some given
unfolding inherit_from_peer by_node_id peer_of_model peer_from left_out replaces identified
    has_prefix same apply_interview inherit
given_run = refl

-- A device that sleeps through everything but the list of its two endpoints.
abbrev drowsy : DeviceAnswers
drowsy = record {
  basic = λ ep. err (requesting (no_reply 9));
  node = err (no_reply 9);
  power = err (no_reply 9);
  active = ok (5 ∷ 0 ∷ 2 ∷ 0 ∷ 2 ∷ 1 ∷ 2 ∷ []);
  simple = λ i ep. err (no_reply 9);
  basic_again = λ ep. err (requesting (no_reply 9));
  save = none;
}

ask_all-settled_example :
    ((ask_all drowsy true fresh).0.node ≡ answer_or fresh.node (node_descriptor drowsy.node))
    × ((ask_all drowsy true fresh).0.power ≡ answer_or fresh.power (power_descriptor drowsy.power))
    × ((ask_all drowsy true fresh).0.endpoints
        ≡ fresh.endpoints ++ described drowsy.simple 0 (listed (active_endpoints drowsy.active)))
    × ((ask_all drowsy true fresh).0.problems
        ≡ fresh.problems
          ++ (problem (node_descriptor drowsy.node)
              ++ (problem (power_descriptor drowsy.power)
                  ++ (problem (active_endpoints drowsy.active)
                      ++ undescribed drowsy.simple 0 (listed (active_endpoints drowsy.active))))))
ask_all-settled_example = ask_all-settled drowsy fresh

-- The answer to a question with the sequence number 7.
abbrev zdo_answer : IncomingMessage
zdo_answer = record {
  type = 0;
  aps = record {
    profile = 0;
    cluster = 0x8002;
    source_ep = 0;
    dest_ep = 0;
    options = 0;
    group_id = 0;
    aps_sequence = 4;
  };
  lqi = 200;
  rssi = negsuc 59;
  sender = 0x90CB;
  payload = 7 ∷ 0x80 ∷ [];
}

zdo_answer-IsSent : IsSent zdo_answer
zdo_answer-IsSent = record {
  profile_word = omega arith;
  cluster_word = omega arith;
  options_word = omega arith;
  group_word = omega arith;
  sender_word = omega arith;
  rssi_signed = refl;
}

abbrev wait : List Wake
wait =
    incoming (record {
      sequence = 2;
      id = 0x0045;
      callback = true;
      params = header zdo_answer 0xFF 0xFF ++ (zdo_answer.payload ++ []);
    })
    ∷ []

abbrev accepting : Ncp
accepting sent c = ok (0 ∷ 5 ∷ [])

query_run :
    (zdo_query (λ _. false) 0x90CB 2 (7 ∷ 0xCB ∷ 0x90 ∷ []) wait accepting []).0
    ≡ some (ok (7 ∷ 0x80 ∷ []))
unfolding zdo_query answers_query request send_unicast ask call command reported report await_reply
    await_loop accepted u8 guarded need response_cluster sequence
query_run = simp (decode_incoming_message-header zdo_answer 0xFF 0xFF [] zdo_answer-IsSent) refl

zdo_query-answered_example :
    (m : IncomingMessage) × ((j : ℕ) × Answers
        (answers_query 0x90CB 2 (7 ∷ 0xCB ∷ 0x90 ∷ []))
        wait
        m
        j)
    × (m.aps.profile ≡ 0)
    × (m.aps.cluster ≡ response_cluster 2)
    × (m.sender ≡ 0x90CB)
    × (sequence m.payload ≡ some 7)
    × (m.payload ≡ 7 ∷ 0x80 ∷ [])
zdo_query-answered_example =
    zdo_query-answered (λ _. false) 0x90CB 2 7 (0xCB ∷ 0x90 ∷ []) wait accepting [] (7 ∷ 0x80 ∷ [])
      query_run
