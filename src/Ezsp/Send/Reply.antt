-- ===== src/Ezsp/Send/Reply.antt =====
-- internal/ezsp/send.go: which message `awaitReply` returns, and what it counts.
use gzb.Base.{
  ℕ, ◌+◌, ◌≤◌, ◌≡◌, refl, sym, ap, ◌∙◌, arith, Bool, true, false, Option, none, some, List, [], ◌∷◌,
  ◌++◌, Bytes, All, Option-cases, Bool-cases, subst, ◌≢◌, inl, inr, length, ltb-false, lt→ltb, ◌<◌,
  ◌==◌,
}
use gzb.Base.Result.{Result, ok, err}
use gzb.Ezsp.Join.{ApsFrame, IncomingMessage, JoinError, decode_incoming_message}
use gzb.Ezsp.Protocol.{Message}
use gzb.Ezsp.Talk.{Failure, Command, Ncp, oversized, refused, ask, demand, give, ◌>>◌}
use gzb.Ezsp.Talk.Trace.{after-quiet, ask-sent, demand-give-sent}
use gzb.Ezsp.Send.{
  Wake, incoming, closed, tick, ctx_done, Awaited, accepted, WaitError, cancelled, not_sent,
  received, await_loop, await_reply, request, reported, report, first_outcome, send_unicast,
  send_unicast_id, read_sent, unicast_params,
}

module _ (matches : IncomingMessage → Bool) where
  abbrev pub picked : Message → Option IncomingMessage
  picked m = accepted matches (decode_incoming_message m.params)

  -- An event that the wait goes on after.
  abbrev pub IsPassed : Wake → Type 0
  IsPassed (incoming m) = picked m ≡ none
  IsPassed closed = ⊥
  IsPassed (tick outcome) = Unit {0}
  IsPassed ctx_done = ⊥

-- The ticks whose send succeeded.
abbrev pub resent : List Wake → ℕ
resent [] = 0
resent (tick none ∷ ws) = 1 + resent ws
resent (_ ∷ ws) = resent ws

abbrev resent_by : Wake → ℕ
resent_by (tick none) = 1
resent_by _ = 0

-- The first message of `ws` that satisfies `match` is `msg`; what stands before it ends no wait.
abbrev pub Answers : (IncomingMessage → Bool) → List Wake → IncomingMessage → ℕ → Type 0
Answers matches ws msg n =
    (before : List Wake) × (m : Message) × (later : List Wake) × (ws ≡ before ++ incoming m ∷ later)
    × All (IsPassed matches) before
    × (picked matches m ≡ some msg)
    × (n ≡ resent before)

module _ (matches : IncomingMessage → Bool) where
  await_loop-passed :
      (n : ℕ) (before ws : List Wake)
      → All (IsPassed matches) before
      → await_loop matches n (before ++ ws) ≡ await_loop matches (n + resent before) ws
  unfolding await_loop
  await_loop-passed n [] ws h = ap (λ t. await_loop matches t ws) (omega arith)
  await_loop-passed n (incoming m ∷ before) ws h =
      ap (λ t. received t n (await_loop matches n (before ++ ws))) h.0
      ∙ await_loop-passed n before ws h.1
  await_loop-passed n (closed ∷ before) ws h = absurd h.0
  await_loop-passed n (tick none ∷ before) ws h =
      await_loop-passed (n + 1) before ws h.1 ∙ ap (λ t. await_loop matches t ws) (omega arith)
  await_loop-passed n (tick (some _) ∷ before) ws h = await_loop-passed n before ws h.1
  await_loop-passed n (ctx_done ∷ before) ws h = absurd h.0

  -- After a first send that succeeded, the first message that decodes and satisfies `match` is returned,
  -- as long as neither the end of the subscription nor that of the context comes before it, with an
  -- attempt for the first send and one for each tick before the message whose send succeeded.
  pub await_reply-answered :
      (before : List Wake) (m : Message) (later : List Wake) (msg : IncomingMessage)
      → All (IsPassed matches) before
      → picked matches m ≡ some msg
      → await_reply matches none (before ++ incoming m ∷ later)
        ≡ some (record { reply = ok msg; attempts = 1 + resent before })
  unfolding await_reply await_loop
  await_reply-answered before m later msg h e =
      await_loop-passed 1 before (incoming m ∷ later) h
      ∙ ap (λ t. received t (1 + resent before) (await_loop matches (1 + resent before) later)) e

  pass :
      (w : Wake) (ws : List Wake) (msg : IncomingMessage) (n k : ℕ)
      → IsPassed matches w
      → k ≡ resent_by w + n
      → Answers matches ws msg n
      → Answers matches (w ∷ ws) msg k
  pass w ws msg n k p e (before, m, later, q, all, is, c) =
      (w ∷ before, m, later, ap (◌∷◌ w) q, (p, all), is, counts w before e c)
    where
      counts :
          {n k : ℕ} (w : Wake) (before : List Wake)
          → k ≡ resent_by w + n
          → n ≡ resent before
          → k ≡ resent (w ∷ before)
      counts (incoming _) before e c = omega arith
      counts closed before e c = omega arith
      counts (tick none) before e c = omega arith
      counts (tick (some _)) before e c = omega arith
      counts ctx_done before e c = omega arith

  await_loop-Answers :
      (n : ℕ) (ws : List Wake) (msg : IncomingMessage) (k : ℕ)
      → await_loop matches n ws ≡ some (record { reply = ok msg; attempts = k })
      → (j : ℕ) × (k ≡ n + j) × Answers matches ws msg j
  unfolding await_loop
  await_loop-Answers n [] msg k e = cc
  await_loop-Answers n (incoming m ∷ ws) msg k e = elim (Option-cases (picked matches m)) [
    | inl passed ↦
        let (j, kj, a) =
          await_loop-Answers n ws msg k
            (sym (ap (λ t. received t n (await_loop matches n ws)) passed) ∙ e) in
        (j, kj, pass (incoming m) ws msg j j passed (omega arith) a)
    | inr (x, is) ↦
        let got : ◌≡◌ {A = Option Awaited} (some (record { reply = ok x; attempts = n }))
            (some (record { reply = ok msg; attempts = k })) =
          sym (ap (λ t. received t n (await_loop matches n ws)) is) ∙ e in
        (0, ground arith, ([], m, ws, refl, tt, is ∙ cc, refl))
  ]
  await_loop-Answers n (closed ∷ ws) msg k e = cc
  await_loop-Answers n (tick none ∷ ws) msg k e =
      let (j, kj, a) = await_loop-Answers (n + 1) ws msg k e in
      (1 + j, omega arith, pass (tick none) ws msg j (1 + j) tt (omega arith) a)
  await_loop-Answers n (tick (some x) ∷ ws) msg k e =
      let (j, kj, a) = await_loop-Answers n ws msg k e in
      (j, kj, pass (tick (some x)) ws msg j j tt (omega arith) a)
  await_loop-Answers n (ctx_done ∷ ws) msg k e = cc

  -- Whenever `awaitReply` returns a message, the first send succeeded, the message is the first one of
  -- the events that decodes and satisfies `match`, with neither the end of the subscription nor that of
  -- the context before it, and the attempts are the first send and the later ones that succeeded.
  pub await_reply-Answers :
      (first : Option Failure) (ws : List Wake) (msg : IncomingMessage) (k : ℕ)
      → await_reply matches first ws ≡ some (record { reply = ok msg; attempts = k })
      → (first ≡ none) × ((j : ℕ) × (k ≡ 1 + j) × Answers matches ws msg j)
  unfolding await_reply
  await_reply-Answers none ws msg k e = (refl, await_loop-Answers 1 ws msg k e)
  await_reply-Answers (some x) ws msg k e = cc

reported-ok :
    (expired : Failure → Bool) (o : Option Awaited) (msg : IncomingMessage)
    → reported expired o ≡ some (ok msg)
    → (k : ℕ) × (o ≡ some (record { reply = ok msg; attempts = k }))
unfolding reported report
reported-ok expired none msg e = cc
reported-ok expired (some w) msg e =
    (w.attempts, ap (λ r. some (record w { reply = r })) (reply-ok w.reply w.attempts e))
  where
    reply-ok :
        (r : Result WaitError IncomingMessage) (k : ℕ)
        → reported expired (some (record { reply = r; attempts = k })) ≡ some (ok msg)
        → r ≡ ok msg
    reply-ok (ok m) k h = cc
    reply-ok (err cancelled) k h = cc
    reply-ok (err WaitError.closed) k h = cc
    reply-ok (err (not_sent x)) k h = ground arith

accepted-match :
    (matches : IncomingMessage → Bool) (r : Result JoinError IncomingMessage)
    (msg : IncomingMessage)
    → accepted matches r ≡ some msg
    → matches msg ≡ true
unfolding accepted
accepted-match matches (err e) msg h = cc
accepted-match matches (ok m) msg h = elim (Bool-cases (matches m)) [
  | inl good ↦ subst (λ t. matches t ≡ true) (same_message m msg good h) good
  | inr bad ↦ absurd (none_of m msg bad h)
]
  where
    same_message :
        (m msg : IncomingMessage) → matches m ≡ true → accepted matches (ok m) ≡ some msg → m ≡ msg
    same_message m msg good h =
        let h' : ◌≡◌ {A = Option IncomingMessage} (some m) (some msg) = simp good at h in cc

    none_of : (m msg : IncomingMessage) → matches m ≡ false → accepted matches (ok m) ≢ some msg
    none_of m msg bad h = ground arith

Answers-match :
    (matches : IncomingMessage → Bool) (ws : List Wake) (msg : IncomingMessage) (j : ℕ)
    → Answers matches ws msg j
    → matches msg ≡ true
Answers-match matches ws msg j (_, m, _, _, _, is, _) =
    accepted-match matches (decode_incoming_message m.params) msg is

-- Whenever `Request` returns a message, it satisfies `match`, and one of the events carried it.
pub request-Answers :
    (expired : Failure → Bool) (dest : ℕ) (aps : ApsFrame) (payload : Bytes)
    (matches : IncomingMessage → Bool) (ws : List Wake) (ncp : Ncp) (sent : List Command)
    (msg : IncomingMessage)
    → (request expired dest aps payload matches ws ncp sent).0 ≡ some (ok msg)
    → (matches msg ≡ true) × ((j : ℕ) × Answers matches ws msg j)
unfolding request reported report
request-Answers expired dest aps payload matches ws ncp sent msg e =
    let first = first_outcome (send_unicast dest aps 0 payload ncp sent).0 in
    let (k, got) = reported-ok expired (await_reply matches first ws) msg e in
    let (_, (j, _, a)) = await_reply-Answers matches first ws msg k got in
    (Answers-match matches ws msg j a, (j, a))

-- `SendUnicast` refuses a payload of more than 255 bytes and sends nothing; otherwise it sends
-- exactly one command, in which the byte in front of the payload is its length.
pub send_unicast-commands :
    (dest : ℕ) (aps : ApsFrame) (tag : ℕ) (payload : Bytes) (ncp : Ncp) (sent : List Command)
    → (255 < length payload → send_unicast dest aps tag payload ncp sent ≡ (err oversized, sent))
      × (length payload ≤ 255
          → (send_unicast dest aps tag payload ncp sent).1
            ≡ sent
              ++ record { id = send_unicast_id; params = unicast_params dest aps tag payload } ∷ [])
unfolding send_unicast
send_unicast-commands dest aps tag payload ncp sent = (
  λ h. simp (lt→ltb 255 (length payload) h) refl,
  λ h. simp (ltb-false 255 (length payload) h) (
      after-quiet ncp (λ (r : ℕ × ℕ). demand (r.0 == 0) (refused send_unicast_id r.0) >> give r.1)
        (λ r s. demand-give-sent (r.0 == 0) (refused send_unicast_id r.0) r.1 ncp s)
        (ask send_unicast_id (unicast_params dest aps tag payload) read_sent ncp sent)
      ∙ ask-sent send_unicast_id (unicast_params dest aps tag payload) ncp sent read_sent),
)
