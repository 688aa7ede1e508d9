-- ===== src/Ash/Conn/Send.antt =====
-- internal/ash/conn.go: `Send`, `awaitAck` and `Reset`. Each waits for events whose order the
-- environment chooses: the events that its `select` takes are an argument.
use gzb.Base.{
  ℕ, zero, suc, ◌+◌, ◌%◌, Bool, true, false, Option, none, some, List, [], ◌∷◌, ◌++◌, ◌==◌,
  if◌then◌else◌, Bytes, length, get_or,
}
use gzb.Base.Result.{Result, ok, err}
use gzb.Ash.Stuff.{cancel_byte}
use gzb.Ash.Frame.{FrameType, data_frame, rst, error, Frame, blank, encode}
use gzb.Ash.Conn.{AckEvent, Conn, WriteError, encoding, port, write, LinkError}

pub data SendError : Type 0 where
  closed : SendError
  writing : WriteError → SendError
  ncp_reset : Frame → SendError
  lost : LinkError → SendError
  cancelled : SendError
  link_failed : SendError

-- What the `select` of `awaitAck` takes.
pub data Wake : Type 0 where
  acked : AckEvent → Wake
  reset : Frame → Wake
  timeout : Wake
  read_done : LinkError → Wake
  ctx_done : Wake

-- What `awaitAck` returns. `waiting` is no value of the source: the events given are used up.
pub data Awaited : Type 0 where
  confirmed retransmit waiting : Awaited
  stopped : SendError → Awaited

unfoldable pub await_ack : ℕ → List Wake → Awaited
await_ack want [] = waiting
await_ack want (acked ev ∷ ws) =
    let rest = await_ack want ws in
    if ev.is_nak then retransmit else if ev.ack_num == want then confirmed else rest
await_ack want (reset f ∷ ws) = stopped (ncp_reset f)
await_ack want (timeout ∷ ws) = retransmit
await_ack want (read_done e ∷ ws) = stopped (lost e)
await_ack want (ctx_done ∷ ws) = stopped cancelled

-- What one attempt meets: the `rxSeq` of the time, the port's answer, and the events.
pub record Attempt : Type 0 where
  pub rx_seq : ℕ
  pub outcome : Option ℕ
  pub wakes : List Wake

-- What `Send` returns; `sending` stands for a wait that is not over.
pub data Sent : Type 0 where
  delivered sending : Sent
  failed : SendError → Sent

abbrev pub max_retries : ℕ
max_retries = 3

-- `Frame{Type: FrameData, ...}`, and the changes made to it before a retransmission.
abbrev pub outgoing : ℕ → Bytes → ℕ → ℕ → Frame
outgoing frm payload zero ack = record (blank data_frame) {
  frm_num = frm;
  ack_num = ack;
  payload = payload;
}
outgoing frm payload (suc attempt) ack = record (blank data_frame) {
  frm_num = frm;
  ack_num = ack;
  re_tx = true;
  payload = payload;
}

-- The acknowledgement that goes along: `rxSeq` at the start of `Send`, and refreshed for a
-- retransmission.
abbrev pub ack_for : ℕ → Conn → Attempt → ℕ
ack_for zero c a = c.rx_seq
ack_for (suc attempt) c a = a.rx_seq

-- What an attempt comes to after `awaitAck`; `again` is what the next attempts come to.
unfoldable pub after_wait : Conn → ℕ → Awaited → Conn × Sent → Conn × Sent
after_wait c want confirmed again = (record c { tx_seq = want }, delivered)
after_wait c want retransmit again = again
after_wait c want waiting again = (c, sending)
after_wait c want (stopped e) again = (c, failed e)

-- And after the write.
unfoldable pub after_write : Conn → ℕ → Option WriteError → Awaited → Conn × Sent → Conn × Sent
unfolding after_wait
after_write c want none awaited again = after_wait c want awaited again
after_write c want (some e) awaited again = (c, failed (writing e))

-- The loop of `Send`: `left` attempts from number `attempt` on.
unfoldable pub send_from : ℕ → ℕ → Conn → ℕ → Bytes → (ℕ → Attempt) → Conn × Sent
unfolding after_write
send_from zero attempt c frm payload env = (c, failed link_failed)
send_from (suc left) attempt c frm payload env =
    let a = env attempt in
    let want = (frm + 1) % 8 in
    let (c', problem) = write c a.outcome (outgoing frm payload attempt (ack_for attempt c a)) in
    after_write c' want problem (await_ack want a.wakes)
      (send_from left (suc attempt) c' frm payload env)

-- `Send`. What acknowledgements wait are stale and are dropped.
unfoldable pub send : Conn → Bytes → (ℕ → Attempt) → Conn × Sent
send c payload env =
    if c.closed
    then (c, failed closed)
    else send_from (max_retries + 1) 0 (record c { ack_ch = [] }) c.tx_seq payload env

-- What the `select` of `Reset` takes.
pub data ResetWake : Type 0 where
  notified : Frame → ResetWake
  read_done : LinkError → ResetWake
  no_reply : ResetWake

pub data ResetError : Type 0 where
  sending_rst : WriteError → ResetError
  reported : ℕ → ResetError
  lost : LinkError → ResetError
  no_rstack : ResetError

-- `if len(f.Data) == 2 { code = ResetCode(f.Data[1]) }`
unfoldable pub reset_code : Frame → ℕ
reset_code f = if length f.payload == 2 then get_or f.payload 1 0 else 0

is_error : FrameType → Bool
is_error error = true
is_error _ = false

unfoldable pub finish_reset : Conn → ResetWake → Conn × Result ResetError ℕ
unfolding is_error
finish_reset c (notified f) =
    if is_error f.type
    then (c, err (reported (reset_code f)))
    else (record c { tx_seq = 0; rx_seq = 0 }, ok (reset_code f))
finish_reset c (read_done e) = (c, err (ResetError.lost e))
finish_reset c no_reply = (c, err no_rstack)

-- `Reset`: stale notifications are dropped, and RST goes out behind a cancel byte.
unfoldable pub reset_link : Conn → Option ℕ → ResetWake → Conn × Result ResetError ℕ
reset_link c outcome wake =
    let drained = record c { reset_ch = [] } in
    elim (encode (blank rst)) [
      | err e ↦ (drained, err (sending_rst (encoding e)))
      | ok buf ↦ elim outcome [
        | some e ↦ (drained, err (sending_rst (port e)))
        | none ↦
            finish_reset (record drained { written = c.written ++ (cancel_byte ∷ buf) ∷ [] }) wake
      ]
    ]
