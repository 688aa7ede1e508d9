-- ===== src/Examples/Send.antt =====
-- internal/ezsp/send.go at concrete inputs.
use gzb.Base.{◌≡◌, refl, arith, Bool, true, none, some, List, [], ◌∷◌, ◌++◌, ◌==◌}
use gzb.Base.Int.{negsuc}
use gzb.Base.Result.{ok}
use gzb.Ezsp.Join.{IncomingMessage, decode_incoming_message}
use gzb.Ezsp.Join.Layout.{IsSent, header, decode_incoming_message-header}
use gzb.Ezsp.Protocol.{Message}
use gzb.Ezsp.Talk.{unusable}
use gzb.Ezsp.Send.{Wake, incoming, tick, accepted, await_loop, await_reply}
use gzb.Ezsp.Send.Reply.{picked, await_reply-answered}

abbrev answer : IncomingMessage
answer = record {
  type = 0;
  aps = record {
    profile = 0x0104;
    cluster = 6;
    source_ep = 1;
    dest_ep = 1;
    options = 0;
    group_id = 0;
    aps_sequence = 4;
  };
  lqi = 200;
  rssi = negsuc 59;
  sender = 0x90CB;
  payload = 24 ∷ 1 ∷ 11 ∷ [];
}

answer-IsSent : IsSent answer
answer-IsSent = record {
  profile_word = omega arith;
  cluster_word = omega arith;
  options_word = omega arith;
  group_word = omega arith;
  sender_word = omega arith;
  rssi_signed = refl;
}

abbrev about_switch : IncomingMessage → Bool
about_switch m = m.aps.cluster == 6

abbrev short_message : Message
short_message = record { sequence = 1; id = 0x0045; callback = true; params = 1 ∷ [] }

abbrev answer_message : Message
answer_message = record {
  sequence = 2;
  id = 0x0045;
  callback = true;
  params = header answer 0xFF 0xFF ++ answer.payload ++ [];
}

picked_short : picked about_switch short_message ≡ none
unfolding accepted decode_incoming_message
picked_short = refl

picked-answer : picked about_switch answer_message ≡ some answer
unfolding accepted
picked-answer = rw (decode_incoming_message-header answer 0xFF 0xFF [] answer-IsSent) refl

-- A message that is too short, a resend that works and one that does not.
abbrev waiting_for : List Wake
waiting_for = incoming short_message ∷ tick none ∷ tick (some unusable) ∷ []

await_reply-answered_run :
    await_reply about_switch none (waiting_for ++ incoming answer_message ∷ [])
    ≡ some (record { reply = ok answer; attempts = 2 })
unfolding await_reply await_loop
await_reply-answered_run = simp picked_short (simp picked-answer refl)

await_reply-answered_example :
    await_reply about_switch none (waiting_for ++ incoming answer_message ∷ [])
    ≡ some (record { reply = ok answer; attempts = 2 })
await_reply-answered_example =
    await_reply-answered about_switch waiting_for answer_message [] answer
      (picked_short, (tt, (tt, tt))) picked-answer
