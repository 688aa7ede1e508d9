-- ===== src/Zigbee/Command/Obeyed.antt =====
-- zigbee/commands.go: what success of `SendCommand` says.
use gzb.Base.{
  ℕ, ◌≡◌, refl, arith, Bool, true, false, Option, none, some, List, Bytes, Bool-cases, inl, inr,
}
use gzb.Base.Result.{Result, ok, err}
use gzb.Ezsp.Commands.{network_state, joined}
use gzb.Ezsp.Join.{IncomingMessage}
use gzb.Ezsp.Send.{RequestError, Wake, request}
use gzb.Ezsp.Send.Reply.{Answers, request-Answers}
use gzb.Ezsp.Talk.{Failure, Ncp, Command}
use gzb.Zcl.Attributes.{
  AttributesError, DefaultResponse, default_response, default_response_command,
}
use gzb.Zcl.Frame.{Frame, FrameError, decode, cluster_command_request}
use gzb.Zigbee.Command.{
  Target, ZclError, no_network, next_sequence, zcl_aps, carries_answer, answers_request, wanted,
  frame_of, with_state, zcl_request, confirmed, obeyed, send_command,
}

confirmed-ok :
    (cmd : ℕ) (r : Result AttributesError DefaultResponse)
    → confirmed cmd r ≡ ok tt
    → r ≡ ok (record { command = cmd; status = 0 })
confirmed-ok cmd (err e) h = cc
confirmed-ok cmd (ok r) h = ground (arith, h)

obeyed-ok :
    (cmd : ℕ) (o : Option (Result ZclError Frame))
    → obeyed cmd o ≡ some (ok tt)
    → (f : Frame) × (o ≡ some (ok f))
      × (default_response f ≡ ok (record { command = cmd; status = 0 }))
obeyed-ok cmd none h = cc
obeyed-ok cmd (some (err e)) h = cc
obeyed-ok cmd (some (ok f)) h = (f, refl, confirmed-ok cmd (default_response f) cc)

wanted-ok : (want : ℕ) (r : Result FrameError Frame) (f : Frame) → wanted want r ≡ ok f → r ≡ ok f
wanted-ok want (err e) f h = cc
wanted-ok want (ok g) f h = ground (arith, h)

frame_of-ok :
    (want : ℕ) (o : Option (Result RequestError IncomingMessage)) (f : Frame)
    → frame_of want o ≡ some (ok f)
    → (m : IncomingMessage) × (o ≡ some (ok m)) × (decode m.payload ≡ ok f)
frame_of-ok want none f h = cc
frame_of-ok want (some (err e)) f h = cc
frame_of-ok want (some (ok m)) f h = (m, refl, wanted-ok want (decode m.payload) f cc)

carries_answer-ok :
    (seq want : ℕ) (r : Result FrameError Frame) (f : Frame)
    → r ≡ ok f
    → carries_answer seq want r ≡ true
    → (f.sequence ≡ seq) × (f.type ≡ 0)
carries_answer-ok seq want (err e) f is h = cc
carries_answer-ok seq want (ok g) f is h = ground (arith, is, h)

answers_request_parts :
    (t : Target) (seq want : ℕ) (m : IncomingMessage)
    → answers_request t seq want m ≡ true
    → (m.aps.cluster ≡ t.cluster)
      × (m.sender ≡ t.node)
      × (carries_answer seq want (decode m.payload) ≡ true)
unfolding answers_request
answers_request_parts t seq want m h = ground arith

answers_request-ok :
    (t : Target) (seq want : ℕ) (m : IncomingMessage) (f : Frame)
    → decode m.payload ≡ ok f
    → answers_request t seq want m ≡ true
    → (m.aps.cluster ≡ t.cluster) × (m.sender ≡ t.node) × (f.sequence ≡ seq) × (f.type ≡ 0)
answers_request-ok t seq want m f is h =
    let (cluster, sender, carries) = answers_request_parts t seq want m h in
    let (sequence, type) = carries_answer-ok seq want (decode m.payload) f is carries in
    (cluster, sender, sequence, type)

-- What the wait of a request that got its frame took.
abbrev pub Answered : Target → ℕ → ℕ → List Wake → Frame → Type 0
Answered t seq want ws f =
    (m : IncomingMessage) × ((j : ℕ) × Answers (answers_request t seq want) ws m j)
    × (m.aps.cluster ≡ t.cluster)
    × (m.sender ≡ t.node)
    × (decode m.payload ≡ ok f)
    × (f.sequence ≡ seq)
    × (f.type ≡ 0)

module _ (expired : Failure → Bool) (t : Target) (seq want : ℕ) (payload : Bytes) (ws : List Wake)
    (ncp : Ncp) where
  abbrev sent_request : List Command → Option (Result RequestError IncomingMessage)
  sent_request sent =
      (request expired t.node (zcl_aps t) payload (answers_request t seq want) ws ncp sent).0

  with_state-ok :
      (r : Result Failure ℕ × List Command) (f : Frame)
      → (with_state expired t seq want payload ws ncp r).0 ≡ some (ok f)
      → (state : ℕ) × (r.0 ≡ ok state)
        × (joined state ≡ true)
        × (frame_of want (sent_request r.1) ≡ some (ok f))
  unfolding with_state
  with_state-ok (err e, sent) f h = cc
  with_state-ok (ok state, sent) f h = elim (Bool-cases (joined state)) [
    | inl up ↦ (state, refl, up, simp up at h)
    | inr down ↦
        let bad : ◌≡◌ {A = Option (Result ZclError Frame)} (some (err (no_network state)))
            (some (ok f)) =
          simp down at h in
        cc
  ]

  zcl_request-ok :
      (shut : Bool) (sent : List Command) (f : Frame)
      → (zcl_request shut expired t seq want payload ws ncp sent).0 ≡ some (ok f)
      → (shut ≡ false)
        × ((state : ℕ) × ((network_state ncp sent).0 ≡ ok state) × (joined state ≡ true))
        × (frame_of want (sent_request (network_state ncp sent).1) ≡ some (ok f))
  unfolding zcl_request
  zcl_request-ok true sent f h = cc
  zcl_request-ok false sent f h =
      let (state, up, is_up, got) = with_state-ok (network_state ncp sent) f h in
      (refl, (state, up, is_up), got)

  pub zcl_request-Answered :
      (shut : Bool) (sent : List Command) (f : Frame)
      → (zcl_request shut expired t seq want payload ws ncp sent).0 ≡ some (ok f)
      → (shut ≡ false)
        × ((state : ℕ) × ((network_state ncp sent).0 ≡ ok state) × (joined state ≡ true))
        × Answered t seq want ws f
  zcl_request-Answered shut sent f h =
      let (is_open, network, got) = zcl_request-ok shut sent f h in
      let (m, arrived, is) = frame_of-ok want _ f got in
      let (matched, answers) =
        request-Answers expired t.node (zcl_aps t) payload (answers_request t seq want) ws ncp _ m
          arrived in
      let (cluster, sender, sequence, type) = answers_request-ok t seq want m f is matched in
      (is_open, network, (m, answers, cluster, sender, is, sequence, type))

-- Whenever `SendCommand` succeeds, the coordinator was open and the adapter on a network, and one of
-- the events of the wait carried a message on the cluster of the target, from its node, with a
-- profile-wide frame that has the next sequence number and is a default response about this command,
-- with success.
pub send_command-confirmed :
    (shut : Bool) (expired : Failure → Bool) (t : Target) (cmd : ℕ) (payload : Bytes)
    (ws : List Wake) (ncp : Ncp) (counter : ℕ) (sent : List Command)
    → (send_command shut expired t cmd payload ws ncp counter sent).0 ≡ some (ok tt)
    → (shut ≡ false)
      × ((state : ℕ) × ((network_state ncp sent).0 ≡ ok state) × (joined state ≡ true))
      × ((m : IncomingMessage) × (f : Frame) × ((j : ℕ) × Answers
              (answers_request t (next_sequence counter).0 default_response_command)
              ws
              m
              j)
          × (m.aps.cluster ≡ t.cluster)
          × (m.sender ≡ t.node)
          × (decode m.payload ≡ ok f)
          × (f.sequence ≡ (next_sequence counter).0)
          × (f.type ≡ 0)
          × (default_response f ≡ ok (record { command = cmd; status = 0 })))
unfolding send_command
send_command-confirmed shut expired t cmd payload ws ncp counter sent h =
    let seq : ℕ = (next_sequence counter).0 in
    let want : ℕ = default_response_command in
    let request_bytes : Bytes = cluster_command_request seq cmd payload in
    let (f, framed, confirms) =
      obeyed-ok cmd (zcl_request shut expired t seq want request_bytes ws ncp sent).0 h in
    let (is_open, network, (m, answers, cluster, sender, is, sequence, type)) =
      zcl_request-Answered expired t seq want request_bytes ws ncp shut sent f framed in
    (is_open, network, (m, f, answers, cluster, sender, is, sequence, type, confirms))
