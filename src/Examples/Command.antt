-- ===== src/Examples/Command.antt =====
-- zigbee/commands.go at concrete inputs: a switch is turned on.
use gzb.Base.{
  ◌^◌, ◌*◌, Bytes, none, map, ◌⊎◌, ℕ, ◌≡◌, refl, arith, true, false, some, List, [], ◌∷◌, ◌++◌,
  ◌==◌, if◌then◌else◌,
}
use gzb.Base.Int.{pos, negsuc}
use gzb.Base.Result.{ok}
use gzb.Cursor.{guarded, need, u8}
use gzb.Ezsp.Commands.{network_state, joined}
use gzb.Ezsp.Join.{IncomingMessage}
use gzb.Ezsp.Join.Layout.{IsSent, header, decode_incoming_message-header}
use gzb.Ezsp.Send.{
  Wake, incoming, accepted, await_loop, await_reply, request, reported, report, send_unicast,
}
use gzb.Ezsp.Send.Reply.{Answers}
use gzb.Ezsp.Talk.{Ncp, command, call, ask}
use gzb.Zcl.Attributes.{default_response, default_response_command}
use gzb.Zcl.Frame.{Frame, decode, cluster_command_request, finish_frame, read_header}
use gzb.Zigbee.Command.{
  Target, answers_request, with_state, zcl_request, send_command, next_sequence,
}
use gzb.Zcl.Frame.{
  Attribute, WriteResult, write_attributes_request, write_records, write_response, write_results,
  is_success, write_attributes_rsp,
}
use gzb.Zcl.Value.{uint64, encode_value, encode_encoding, encoding_of, bounded_uint, as_uint}
use gzb.Zcl.Reporting.{ReportingConfig, analog}
use gzb.Zigbee.Attributes.Intervals.{IsWhole, reporting_record-IsWhole}
use gzb.Zigbee.Attributes.{
  ReportConfig, reporting_record, report_interval, AttributeResult, attribute_result,
  order_attributes, write_attributes, write_result,
}
use gzb.Zigbee.Attributes.Outcomes.{all_written, write_attributes-Answered}
use gzb.Zigbee.Command.Obeyed.{Answered, send_command-confirmed}
use gzb.Examples.Zcl.{patterns}

abbrev switch : Target
switch = record { node = 0x90CB; endpoint = 1; cluster = 6 }

abbrev from_switch : Bytes → IncomingMessage
from_switch payload = record {
  type = 0;
  aps = record {
    profile = 0x0104;
    cluster = 6;
    source_ep = 1;
    dest_ep = 1;
    options = 0;
    group_id = 0;
    aps_sequence = 4;
  };
  lqi = 200;
  rssi = negsuc 59;
  sender = 0x90CB;
  payload = payload;
}

from_switch-IsSent : (payload : Bytes) → IsSent (from_switch payload)
from_switch-IsSent payload = record {
  profile_word = omega arith;
  cluster_word = omega arith;
  options_word = omega arith;
  group_word = omega arith;
  sender_word = omega arith;
  rssi_signed = refl;
}

abbrev with_answer : Bytes → List Wake
with_answer payload =
    incoming (record {
      sequence = 2;
      id = 0x0045;
      callback = true;
      params = header (from_switch payload) 0xFF 0xFF ++ (payload ++ []);
    })
    ∷ []

-- A default response about the command 1, with success.
abbrev done : Bytes
done = 0x18 ∷ 8 ∷ 0x0B ∷ 1 ∷ 0 ∷ []

-- An adapter on a network.
abbrev running : Ncp
running sent c = if c.id == 0x0018 then ok (2 ∷ []) else ok (0 ∷ 5 ∷ [])

confirmed_run :
    (send_command false (λ _. false) switch 1 [] (with_answer done) running 7 []).0 ≡ some (ok tt)
unfolding send_command zcl_request with_state answers_request request send_unicast network_state ask
    call command reported report await_reply await_loop accepted u8 guarded need default_response
    decode cluster_command_request finish_frame read_header
confirmed_run =
    simp (decode_incoming_message-header (from_switch done) 0xFF 0xFF [] (from_switch-IsSent done))
      refl

send_command-confirmed_example :
    (◌≡◌ false false)
    × ((state : ℕ) × ((network_state running []).0 ≡ ok state) × (joined state ≡ true))
    × ((m : IncomingMessage) × (f : Frame) × ((j : ℕ) × Answers
            (answers_request switch (next_sequence 7).0 default_response_command)
            (with_answer done)
            m
            j)
        × (m.aps.cluster ≡ 6)
        × (m.sender ≡ 0x90CB)
        × (decode m.payload ≡ ok f)
        × (f.sequence ≡ (next_sequence 7).0)
        × (f.type ≡ 0)
        × (default_response f ≡ ok (record { command = 1; status = 0 })))
send_command-confirmed_example =
    send_command-confirmed false (λ _. false) switch 1 [] (with_answer done) running 7 []
      confirmed_run

-- Two attributes are written, and the response lists the second, which is read-only.
abbrev writes : List (Attribute ℕ)
writes =
    record { id = 0; status = 0; type = 0x20; value = uint64 7 }
    ∷ record { id = 1; status = 0; type = 0x20; value = uint64 9 }
    ∷ []

abbrev read_only : Bytes
read_only = 0x18 ∷ 8 ∷ 0x04 ∷ 0x88 ∷ 1 ∷ 0 ∷ []

abbrev second_refused : List AttributeResult
second_refused = record { id = 1; done = false; status = some 0x88 } ∷ []

written_run :
    (write_attributes patterns false
      (λ _. false)
      switch
      (with_answer read_only)
      running
      writes
      7
      []).0
    ≡ some (ok second_refused)
unfolding write_attributes order_attributes write_attributes_request write_records write_response
    write_results attribute_result encode_value encode_encoding encoding_of bounded_uint as_uint
    zcl_request with_state answers_request request send_unicast network_state ask call command
    reported report await_reply await_loop accepted u8 guarded need decode finish_frame read_header
written_run =
    simp
      (decode_incoming_message-header (from_switch read_only) 0xFF 0xFF []
        (from_switch-IsSent read_only))
      refl

write_attributes-Answered_example :
    (f : Frame) × Answered switch (next_sequence 7).0 write_attributes_rsp (with_answer read_only) f
    × (f.command ≡ write_attributes_rsp)
    × (((is_success f.payload ≡ true) × (second_refused ≡ all_written (0 ∷ 1 ∷ [])))
        ⊎ ((rs : List WriteResult) × (is_success f.payload ≡ false)
            × (write_results f.payload ≡ (rs, true))
            × (second_refused ≡ map write_result rs)))
write_attributes-Answered_example =
    write_attributes-Answered patterns false (λ _. false) switch (with_answer read_only) running
      writes 7 [] second_refused written_run

-- A temperature, every 30 to 600 seconds.
abbrev watched : ReportConfig ℕ
watched = record {
  id = 0;
  type = 0x29;
  min = pos (30 * 10 ^ 9);
  max = pos (600 * 10 ^ 9);
  change = none;
}

abbrev watched_record : ReportingConfig ℕ
watched_record = record {
  id = 0;
  type = 0x29;
  min_interval = 30;
  max_interval = 600;
  change = some (uint64 0);
}

watched_run : reporting_record watched ≡ ok watched_record
unfolding reporting_record report_interval analog
watched_run = refl

reporting_record-IsWhole_example : IsWhole watched watched_record
reporting_record-IsWhole_example = reporting_record-IsWhole watched watched_record watched_run
