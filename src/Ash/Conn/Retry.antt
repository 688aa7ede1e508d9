-- ===== src/Ash/Conn/Retry.antt =====
-- internal/ash/conn.go: the sending side, `Send` and `awaitAck`.
use gzb.Base.{
  ℕ, zero, suc, ◌+◌, ◌%◌, ◌≤◌, ◌<◌, ◌≡◌, ◌≢◌, inl, inr, refl, ap, arith, true, false, Option, none,
  some, List, [], ◌∷◌, ◌++◌, ◌==◌, ==_iff, Bool-cases, Bytes, All, length, length-append,
}
use gzb.Ash.Frame.{Frame}
use gzb.Ash.Conn.{AckEvent, Conn, WriteError, write}
use gzb.Ash.Conn.Send.{
  Awaited, Sent, after_write, link_failed, Wake, acked, reset, timeout, read_done, ctx_done,
  confirmed, retransmit, waiting, stopped, await_ack, Attempt, delivered, failed, outgoing, ack_for,
  send_from, send,
}

-- An acknowledgement of something else, which `awaitAck` passes over.
abbrev pub IsStale : ℕ → Wake → Type 0
IsStale want (acked ev) = (ev.is_nak ≡ false) × (ev.ack_num ≢ want)
IsStale want _ = ⊥

abbrev pub Confirms : ℕ → List Wake → Type 0
Confirms want ws =
    (stale : List Wake) × (later : List Wake) × (ws
      ≡ stale ++ acked (record { ack_num = want; is_nak = false }) ∷ later)
    × All (IsStale want) stale

skip_stale :
    (want : ℕ) (w : Wake) (ws : List Wake)
    → IsStale want w
    → Confirms want ws
    → Confirms want (w ∷ ws)
skip_stale want w ws s (stale, later, e, all) = (w ∷ stale, later, ap (◌∷◌ w) e, (s, all))

acked-Confirms :
    (want : ℕ) (ev : AckEvent) (ws : List Wake)
    → ev.is_nak ≡ false
    → ev.ack_num ≡ want
    → Confirms want (acked ev ∷ ws)
acked-Confirms want ev ws e f = ([], ws, ground arith, tt)

-- Whenever `awaitAck` confirms, an acknowledgement of the wanted number came in, and in front of it
-- only acknowledgements of other numbers, with no refusal, timeout or reset.
pub await_ack-confirmed :
    (want : ℕ) (ws : List Wake) → await_ack want ws ≡ confirmed → Confirms want ws
unfolding await_ack
await_ack-confirmed want [] e = cc
await_ack-confirmed want (acked ev ∷ ws) e = elim (Bool-cases ev.is_nak) [
  | inl refused ↦ absurd (refused_ne want ev ws refused e)
  | inr taken ↦ elim (Bool-cases (ev.ack_num == want)) [
    | inl same ↦ acked-Confirms want ev ws taken ((==_iff ev.ack_num want).0 same)
    | inr other ↦
        skip_stale want (acked ev) ws (taken, ground arith)
          (await_ack-confirmed want ws (passed want ev ws taken other e))
  ]
]
  where
    refused_ne :
        (want : ℕ) (ev : AckEvent) (ws : List Wake)
        → ev.is_nak ≡ true
        → await_ack want (acked ev ∷ ws) ≢ confirmed
    refused_ne want ev ws h e = ground arith

    passed :
        (want : ℕ) (ev : AckEvent) (ws : List Wake)
        → ev.is_nak ≡ false
        → (ev.ack_num == want) ≡ false
        → await_ack want (acked ev ∷ ws) ≡ confirmed
        → await_ack want ws ≡ confirmed
    passed want ev ws h k e = ground arith
await_ack-confirmed want (reset f ∷ ws) e = cc
await_ack-confirmed want (timeout ∷ ws) e = cc
await_ack-confirmed want (read_done x ∷ ws) e = cc
await_ack-confirmed want (ctx_done ∷ ws) e = cc

write-counts :
    (c : Conn) (o : Option ℕ) (f : Frame)
    → ((write c o f).0.tx_seq ≡ c.tx_seq)
      × (length c.written ≤ length (write c o f).0.written)
      × (length (write c o f).0.written ≤ length c.written + 1)
      × ((write c o f).1 ≡ none → length (write c o f).0.written ≡ length c.written + 1)
unfolding write
write-counts c o f = (
  ground arith,
  grind (arith, length-append),
  grind (arith, length-append),
  grind (arith, length-append),
)

-- A delivered message was confirmed in one of the attempts, and the next number is used from then on.
settled :
    {P : Type 0} (c : Conn) (want : ℕ) (problem : Option WriteError) (w : Awaited)
    (again : Conn × Sent)
    → (after_write c want problem w again).1 ≡ delivered
    → (w ≡ confirmed → P)
    → (again.1 ≡ delivered → P)
    → P
unfolding after_write
settled c want none confirmed again e now later = now refl
settled c want none retransmit again e now later = later e
settled c want none waiting again e now later = cc
settled c want none (stopped x) again e now later = cc
settled c want (some x) w again e now later = cc

send_from-delivered :
    (left attempt : ℕ) (c : Conn) (frm : ℕ) (bs : Bytes) (env : ℕ → Attempt)
    → (send_from left attempt c frm bs env).1 ≡ delivered
    → (i : ℕ) × (i < attempt + left) × (await_ack ((frm + 1) % 8) (env i).wakes ≡ confirmed)
unfolding send_from
send_from-delivered zero attempt c frm bs env e = cc
send_from-delivered (suc left) attempt c frm bs env e =
    let a = env attempt in
    let c' = (write c a.outcome (outgoing frm bs attempt (ack_for attempt c a))).0 in
    settled _ _ _ (await_ack ((frm + 1) % 8) a.wakes) _ e (λ now. (attempt, omega arith, now))
      (λ later.
        let (i, lt, confirmed_i) = send_from-delivered left (suc attempt) c' frm bs env later in
        (i, omega arith, confirmed_i))

send_from-tx_seq :
    (left attempt : ℕ) (c : Conn) (frm : ℕ) (bs : Bytes) (env : ℕ → Attempt)
    → ((send_from left attempt c frm bs env).1 ≡ delivered
        → (send_from left attempt c frm bs env).0.tx_seq ≡ (frm + 1) % 8)
      × ((send_from left attempt c frm bs env).1 ≢ delivered
          → (send_from left attempt c frm bs env).0.tx_seq ≡ c.tx_seq)
unfolding send_from after_write
send_from-tx_seq zero attempt c frm bs env = ground arith
send_from-tx_seq (suc left) attempt c frm bs env =
    let a = env attempt in
    let f = outgoing frm bs attempt (ack_for attempt c a) in
    ground (
      arith,
      (write-counts c a.outcome f).0,
      send_from-tx_seq left (suc attempt) (write c a.outcome f).0 frm bs env,
    )

await_ack-ne-link_failed : (want : ℕ) (ws : List Wake) → await_ack want ws ≢ stopped link_failed
unfolding await_ack
await_ack-ne-link_failed want [] e = cc
await_ack-ne-link_failed want (acked ev ∷ ws) e = ground (arith, await_ack-ne-link_failed want ws)
await_ack-ne-link_failed want (reset f ∷ ws) e = cc
await_ack-ne-link_failed want (timeout ∷ ws) e = cc
await_ack-ne-link_failed want (read_done x ∷ ws) e = cc
await_ack-ne-link_failed want (ctx_done ∷ ws) e = cc

send_from-writes :
    (left attempt : ℕ) (c : Conn) (frm : ℕ) (bs : Bytes) (env : ℕ → Attempt)
    → (length (send_from left attempt c frm bs env).0.written ≤ length c.written + left)
      × ((send_from left attempt c frm bs env).1 ≡ failed link_failed
          → length (send_from left attempt c frm bs env).0.written ≡ length c.written + left)
unfolding send_from after_write
send_from-writes zero attempt c frm bs env = ground arith
send_from-writes (suc left) attempt c frm bs env =
    let a = env attempt in
    let f = outgoing frm bs attempt (ack_for attempt c a) in
    ground (
      arith,
      write-counts c a.outcome f,
      await_ack-ne-link_failed ((frm + 1) % 8) a.wakes,
      send_from-writes left (suc attempt) (write c a.outcome f).0 frm bs env,
    )

-- Whenever `Send` reports delivery, the link was open, the next payload takes the next number
-- modulo 8, and in one of the four attempts `awaitAck` met an acknowledgement of exactly that
-- number behind acknowledgements of other numbers alone.
pub send-delivered :
    (c : Conn) (bs : Bytes) (env : ℕ → Attempt)
    → (send c bs env).1 ≡ delivered
    → (c.closed ≡ false)
      × ((send c bs env).0.tx_seq ≡ (c.tx_seq + 1) % 8)
      × ((i : ℕ) × (i < 4) × Confirms ((c.tx_seq + 1) % 8) (env i).wakes)
unfolding send
send-delivered c bs env e = elim (Bool-cases c.closed) [
  | inl shut ↦ absurd (closed_ne c bs env shut e)
  | inr open_c ↦
      let c' : Conn = record c { ack_ch = [] } in
      let e' : (send_from 4 0 c' c.tx_seq bs env).1 ≡ delivered = open_send c bs env open_c e in
      let (i, lt, got) = send_from-delivered 4 0 c' c.tx_seq bs env e' in
      (
        open_c,
        ground (arith, (send_from-tx_seq 4 0 c' c.tx_seq bs env).0 e'),
        (i, omega arith, await_ack-confirmed _ (env i).wakes got),
      )
]
  where
    closed_ne :
        (c : Conn) (bs : Bytes) (env : ℕ → Attempt)
        → c.closed ≡ true
        → (send c bs env).1 ≢ delivered
    closed_ne c bs env h k = ground arith

    open_send :
        (c : Conn) (bs : Bytes) (env : ℕ → Attempt)
        → c.closed ≡ false
        → (send c bs env).1 ≡ delivered
        → (send_from 4 0 (record c { ack_ch = [] }) c.tx_seq bs env).1 ≡ delivered
    open_send c bs env h k = ground arith

-- Whenever `Send` does not report delivery, whatever the reason, the sequence number stays for the
-- next payload, and the payload was written at most four times.
pub send-undelivered :
    (c : Conn) (bs : Bytes) (env : ℕ → Attempt)
    → (send c bs env).1 ≢ delivered
    → ((send c bs env).0.tx_seq ≡ c.tx_seq)
      × (length (send c bs env).0.written ≤ length c.written + 4)
unfolding send
send-undelivered c bs env ne =
    let c' : Conn = record c { ack_ch = [] } in
    ground (arith, send_from-tx_seq 4 0 c' c.tx_seq bs env, send_from-writes 4 0 c' c.tx_seq bs env)

-- `Send` reports a failed link only if the link was open and the payload was written exactly four
-- times.
pub send-link_failed :
    (c : Conn) (bs : Bytes) (env : ℕ → Attempt)
    → (send c bs env).1 ≡ failed link_failed
    → (length (send c bs env).0.written ≡ length c.written + 4) × (c.closed ≡ false)
unfolding send
send-link_failed c bs env e =
    ground (arith, send_from-writes 4 0 (record c { ack_ch = [] }) c.tx_seq bs env)
