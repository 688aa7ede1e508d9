-- ===== src/Ezsp/Send.antt =====
-- internal/ezsp/send.go: a unicast message, and the wait for its answer with the message repeated.
-- Time is left out: the ticks of the resend timer are among the events.
pub mod Reply
use gzb.Base.{
  ℕ, ◌+◌, ◌%◌, Bool, true, false, not, ◌&&◌, Option, none, some, List, [], ◌∷◌, ◌++◌, ◌==◌, ltb,
  if◌then◌else◌, Bytes, le16, length,
}
use gzb.Base.Result.{Result, ok, err}
use gzb.Cursor.{Reader, u8}
use gzb.Ezsp.Conn.{CommandError}
use gzb.Ezsp.Join.{ApsFrame, IncomingMessage, JoinError, decode_incoming_message}
use gzb.Ezsp.Protocol.{Message}
use gzb.Ezsp.Talk.{Ncp, Command, Talk, Failure, refused, oversized, ◌>>=◌, ◌>>◌, demand, ask, give}

abbrev pub send_unicast_id : ℕ
send_unicast_id = 0x0034

abbrev pub incoming_message_id : ℕ
incoming_message_id = 0x0045

abbrev pub outgoing_direct : ℕ
outgoing_direct = 0x00

-- The parameters of the command.
unfoldable pub unicast_params : ℕ → ApsFrame → ℕ → Bytes → Bytes
unicast_params dest aps tag payload =
    outgoing_direct
    ∷ (le16 dest
        ++ (le16 aps.profile
            ++ (le16 aps.cluster
                ++ (aps.source_ep
                    ∷ aps.dest_ep
                    ∷ (le16 aps.options
                        ++ (le16 aps.group_id
                            ++ (aps.aps_sequence ∷ tag ∷ length payload % 256 ∷ payload)))))))

read_sent : Reader (ℕ × ℕ)
read_sent c = let (status, c1) = u8 c in let (seq, c2) = u8 c1 in ((status, seq), c2)

-- `SendUnicast`: the sequence that the stack gave the message.
unfoldable pub send_unicast : ℕ → ApsFrame → ℕ → Bytes → Talk ℕ
unfolding unicast_params read_sent
send_unicast dest aps tag payload = do
  demand (not (ltb 255 (length payload))) oversized
  (status, seq) ← ask send_unicast_id (unicast_params dest aps tag payload) read_sent
  demand (status == 0) (refused send_unicast_id status)
  give seq

-- What the `select` of `awaitReply` takes: a message of the subscription, its end, a tick of the timer,
-- with what the send that follows it returns, and the end of the context.
pub data Wake : Type 0 where
  incoming : Message → Wake
  closed : Wake
  tick : Option Failure → Wake
  ctx_done : Wake

pub data WaitError : Type 0 where
  not_sent : Failure → WaitError
  closed cancelled : WaitError

pub record Awaited : Type 0 where
  pub reply : Result WaitError IncomingMessage
  pub attempts : ℕ

abbrev pub counted : ℕ → Option Failure → ℕ
counted attempts none = attempts + 1
counted attempts (some _) = attempts

-- The message that a frame carries, if it satisfies `match`.
unfoldable pub accepted :
    (IncomingMessage → Bool) → Result JoinError IncomingMessage → Option IncomingMessage
accepted matches (err _) = none
accepted matches (ok msg) = if matches msg then some msg else none

-- The loop goes on after a message that is not the answer.
abbrev pub received : Option IncomingMessage → ℕ → Option Awaited → Option Awaited
received none attempts rest = rest
received (some msg) attempts rest = some (record { reply = ok msg; attempts = attempts })

-- The loop of `awaitReply`; `none` says that the events given are used up.
unfoldable pub await_loop : (IncomingMessage → Bool) → ℕ → List Wake → Option Awaited
await_loop matches attempts [] = none
await_loop matches attempts (incoming m ∷ ws) =
    received (accepted matches (decode_incoming_message m.params)) attempts
      (await_loop matches attempts ws)
await_loop matches attempts (closed ∷ ws) =
    some (record { reply = err WaitError.closed; attempts = attempts })
await_loop matches attempts (tick outcome ∷ ws) = await_loop matches (counted attempts outcome) ws
await_loop matches attempts (ctx_done ∷ ws) =
    some (record { reply = err cancelled; attempts = attempts })

-- `awaitReply`: the outcome of the first send, and the events that follow it.
unfoldable pub await_reply : (IncomingMessage → Bool) → Option Failure → List Wake → Option Awaited
await_reply matches (some e) ws = some (record { reply = err (not_sent e); attempts = 0 })
await_reply matches none ws = await_loop matches 1 ws

pub data RequestError : Type 0 where
  no_reply : ℕ → RequestError
  other : WaitError → RequestError

-- The end of `Request`: a wait that the context ended is reported as a timeout, with the number of
-- attempts. `expired` says of an error of the first send that it is the context's.
unfoldable pub report : (Failure → Bool) → Awaited → Result RequestError IncomingMessage
report expired w = elim w.reply [
  | ok msg ↦ ok msg
  | err cancelled ↦ err (no_reply w.attempts)
  | err WaitError.closed ↦ err (other WaitError.closed)
  | err (not_sent e) ↦ if expired e then err (no_reply w.attempts) else err (other (not_sent e))
]

unfoldable pub reported :
    (Failure → Bool) → Option Awaited → Option (Result RequestError IncomingMessage)
unfolding report
reported expired none = none
reported expired (some w) = some (report expired w)

abbrev pub first_outcome : {A : Type 0} → Result Failure A → Option Failure
first_outcome (ok _) = none
first_outcome (err e) = some e

-- `Request`: the first send goes to the adapter, and the events follow. The message has the tag 0.
unfoldable pub request :
    (Failure → Bool)
    → ℕ
    → ApsFrame
    → Bytes
    → (IncomingMessage → Bool)
    → List Wake
    → Ncp
    → List Command
    → Option (Result RequestError IncomingMessage) × List Command
unfolding reported
request expired dest aps payload matches ws ncp sent =
    let (r, sent') = send_unicast dest aps 0 payload ncp sent in
    (reported expired (await_reply matches (first_outcome r) ws), sent')
