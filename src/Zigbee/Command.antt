-- ===== src/Zigbee/Command.antt =====
-- zigbee/commands.go: `SendCommand`, and the ZCL request under it (zigbee/attributes.go, `zclRequest`).
-- The text of a target and of a command in an error is left out.
pub mod Obeyed
use gzb.Base.{
  ℕ, ◌+◌, ◌%◌, ◌^◌, Bool, true, false, not, ◌&&◌, ◌||◌, Option, none, some, List, ◌==◌,
  if◌then◌else◌, Bytes,
}
use gzb.Base.Result.{Result, ok, err}
use gzb.Ezsp.Commands.{network_state, joined}
use gzb.Ezsp.Join.{ApsFrame, IncomingMessage}
use gzb.Ezsp.Send.{RequestError, Wake, request}
use gzb.Ezsp.Setup.{default_endpoint}
use gzb.Ezsp.Talk.{Failure, Ncp, Command}
use gzb.Zcl.Attributes.{
  AttributesError, DefaultResponse, default_response, default_response_command,
}
use gzb.Zcl.Frame.{Frame, FrameError, decode, cluster_command_request}
use gzb.Zigbee.Query.{aps_option_retry}

abbrev pub profile_home_automation : ℕ
profile_home_automation = 0x0104

-- `Target`
pub record Target : Type 0 where
  pub node : ℕ
  pub endpoint : ℕ
  pub cluster : ℕ

pub data ZclError : Type 0 where
  coordinator_closed : ZclError
  reading_state : Failure → ZclError
  no_network : ℕ → ZclError
  requesting : RequestError → ZclError
  framing : FrameError → ZclError
  answering : AttributesError → ZclError
  acknowledged misanswered : ℕ → ZclError
  refused : ℕ → ℕ → ZclError

-- `nextSequence`, of a counter of 32 bits: the sequence number, and the counter.
abbrev pub next_sequence : ℕ → ℕ × ℕ
next_sequence counter = let next = (counter + 1) % 2 ^ 32 in (next % 2 ^ 8, next)

unfoldable pub zcl_aps : Target → ApsFrame
zcl_aps t = record {
  profile = profile_home_automation;
  cluster = t.cluster;
  source_ep = default_endpoint.id;
  dest_ep = t.endpoint;
  options = aps_option_retry;
  group_id = 0;
  aps_sequence = 0;
}

abbrev pub carries_answer : ℕ → ℕ → Result FrameError Frame → Bool
carries_answer seq want (err _) = false
carries_answer seq want (ok f) =
    f.sequence == seq && f.type == 0 && (f.command == want || f.command == default_response_command)

-- The test of `zclRequest`: the cluster and the sender, then the frame.
unfoldable pub answers_request : Target → ℕ → ℕ → IncomingMessage → Bool
answers_request t seq want m =
    m.aps.cluster == t.cluster && m.sender == t.node && carries_answer seq want (decode m.payload)

-- `refusal`
unfoldable pub refusal : Result AttributesError DefaultResponse → ZclError
refusal (err e) = answering e
refusal (ok r) = if r.status == 0 then acknowledged r.command else refused r.command r.status

abbrev pub wanted : ℕ → Result FrameError Frame → Result ZclError Frame
wanted want (err e) = err (framing e)
wanted want (ok f) = if not (f.command == want) then err (refusal (default_response f)) else ok f

abbrev pub frame_of :
    ℕ → Option (Result RequestError IncomingMessage) → Option (Result ZclError Frame)
frame_of want none = none
frame_of want (some (err e)) = some (err (requesting e))
frame_of want (some (ok m)) = some (wanted want (decode m.payload))

-- The part of `zclRequest` behind the question for the state of the network.
unfoldable pub with_state :
    (Failure → Bool)
    → Target
    → ℕ
    → ℕ
    → Bytes
    → List Wake
    → Ncp
    → Result Failure ℕ × List Command
    → Option (Result ZclError Frame) × List Command
with_state expired t seq want payload ws ncp (err e, sent) = (some (err (reading_state e)), sent)
with_state expired t seq want payload ws ncp (ok state, sent) =
    let (r, sent') =
      request expired t.node (zcl_aps t) payload (answers_request t seq want) ws ncp sent in
    if not (joined state) then (some (err (no_network state)), sent) else (frame_of want r, sent')

-- `zclRequest`, with whether the coordinator is closed and the events that the wait takes.
unfoldable pub zcl_request :
    Bool
    → (Failure → Bool)
    → Target
    → ℕ
    → ℕ
    → Bytes
    → List Wake
    → Ncp
    → List Command
    → Option (Result ZclError Frame) × List Command
zcl_request shut expired t seq want payload ws ncp sent =
    if shut
    then (some (err coordinator_closed), sent)
    else with_state expired t seq want payload ws ncp (network_state ncp sent)

abbrev pub confirmed : ℕ → Result AttributesError DefaultResponse → Result ZclError (Unit {0})
confirmed cmd (err e) = err (answering e)
confirmed cmd (ok r) =
    if not (r.command == cmd)
    then err (misanswered r.command)
    else if not (r.status == 0)
    then err (refused cmd r.status)
    else ok tt

abbrev pub obeyed : ℕ → Option (Result ZclError Frame) → Option (Result ZclError (Unit {0}))
obeyed cmd none = none
obeyed cmd (some (err e)) = some (err e)
obeyed cmd (some (ok f)) = some (confirmed cmd (default_response f))

-- `SendCommand`: its outcome, the counter of sequence numbers and the commands to the adapter.
unfoldable pub send_command :
    Bool
    → (Failure → Bool)
    → Target
    → ℕ
    → Bytes
    → List Wake
    → Ncp
    → ℕ
    → List Command
    → Option (Result ZclError (Unit {0})) × ℕ × List Command
send_command shut expired t cmd payload ws ncp counter sent =
    let (seq, counter') = next_sequence counter in
    let (r, sent') =
      zcl_request shut expired t seq default_response_command
        (cluster_command_request seq cmd payload) ws ncp sent in
    (obeyed cmd r, counter', sent')
