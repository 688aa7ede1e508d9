-- ===== src/Ezsp/Conn/Routing.antt =====
-- internal/ezsp/conn.go: where `route` puts a message.
use gzb.Base.{
  ℕ, ◌+◌, ◌^◌, ◌≤◌, ◌<◌, ◌≡◌, refl, ap₂, arith, Bool, false, not, ◌&&◌, Option, none, some, List,
  [], ◌∷◌, ◌++◌, map, append-nil, ltb, if◌then◌else◌, Bool-cases, inl, inr, Bytes, All, length,
  length-append,
}
use gzb.Base.Result.{Result, ok, err}
use gzb.Ezsp.Protocol.{DecodeError, Message, decode_message}
use gzb.Ezsp.Conn.{
  Subscription, Entry, Conn, offer, publish, to_subscribers, route_to, route, pump_message, pump,
  count_up,
}

abbrev pub Fits : Entry → Type 0
Fits e = length e.sub.ch ≤ e.sub.buffer

abbrev pub AtMostOne : Option (List Message) → Type 0
AtMostOne none = Unit
AtMostOne (some ms) = length ms ≤ 1

-- No subscription holds more than its buffer, and the command in flight has one reply at most.
pub record IsValid (c : Conn) : Type 0 where
  pub subs_fit : All Fits c.subs
  pub pending_fits : AtMostOne c.pending
  pub seq_bound : c.seq < 256

offer-Fits :
    (m : Message) (s : Subscription)
    → length s.ch ≤ s.buffer
    → length (offer m s).0.ch ≤ (offer m s).0.buffer
unfolding offer
offer-Fits m s h = ground (arith, length-append s.ch (m ∷ []))

publish-Fits : (m : Message) (es : List Entry) (n : ℕ) → All Fits es → All Fits (publish m es n).0
unfolding publish
publish-Fits m [] n h = tt
publish-Fits m (e ∷ es) n h = (offer-Fits m e.sub h.0, publish-Fits m es _ h.1)

to_subscribers-IsValid : (c : Conn) (m : Message) → IsValid c → IsValid (to_subscribers c m)
unfolding to_subscribers
to_subscribers-IsValid c m v = record {
  subs_fit = publish-Fits m c.subs c.dropped_subscription v.subs_fit;
  pending_fits = v.pending_fits;
  seq_bound = v.seq_bound;
}

route_to-IsValid :
    (p : Option (List Message)) (c : Conn) (m : Message) → IsValid c → IsValid (route_to p c m)
unfolding route_to
route_to-IsValid none c m v = to_subscribers-IsValid c m v
route_to-IsValid (some []) c m v = elim (Bool-cases m.callback) [
  | inl e ↦ simp e (to_subscribers-IsValid c m v)
  | inr e ↦
      simp e (record { subs_fit = v.subs_fit; pending_fits = omega arith; seq_bound = v.seq_bound })
]
route_to-IsValid (some (x ∷ xs)) c m v = to_subscribers-IsValid c m v

pump_message-IsValid :
    (c : Conn) (r : Result DecodeError Message) → IsValid c → IsValid (pump_message c r)
unfolding pump_message route
pump_message-IsValid c (ok m) v = route_to-IsValid c.pending c m v
pump_message-IsValid c (err e) v = record {
  subs_fit = v.subs_fit;
  pending_fits = v.pending_fits;
  seq_bound = v.seq_bound;
}

-- A received payload, whatever it holds, keeps every subscription within its buffer, the command
-- in flight with one reply at most, and the sequence number below 256.
pub pump-IsValid : (c : Conn) (payload : Bytes) → IsValid c → IsValid (pump c payload)
unfolding pump
pump-IsValid c payload v = pump_message-IsValid c (decode_message c.version payload) v

-- What a subscription that matches gains, if it has room.
abbrev pub gains : Message → Entry → List Message
gains m e = if e.sub.matches m && ltb (length e.sub.ch) e.sub.buffer then m ∷ [] else []

-- How many subscriptions match and have no room.
abbrev pub losses : Message → List Entry → ℕ
losses m [] = 0
losses m (e ∷ es) =
    (if e.sub.matches m && not (ltb (length e.sub.ch) e.sub.buffer) then 1 else 0) + losses m es

offered :
    (m : Message) (s : Subscription)
    → (offer m s).0.ch ≡ s.ch ++ (if s.matches m && ltb (length s.ch) s.buffer then m ∷ [] else [])
unfolding offer
offered m s = ground (arith, append-nil s.ch)

publish-gains :
    (m : Message) (es : List Entry) (n : ℕ)
    → map (λ (e : Entry). e.sub.ch) (publish m es n).0
      ≡ map (λ (e : Entry). e.sub.ch ++ gains m e) es
unfolding publish
publish-gains m [] n = refl
publish-gains m (e ∷ es) n = ap₂ ◌∷◌ (offered m e.sub) (publish-gains m es _)

publish-losses :
    (m : Message) (es : List Entry) (n : ℕ)
    → n + losses m es < 2 ^ 64
    → (publish m es n).1 ≡ n + losses m es
unfolding publish offer
publish-losses m [] n h = omega arith
publish-losses m (e ∷ es) n h =
    ground (arith, publish-losses m es n, publish-losses m es (count_up n))

-- Whether the reply channel of the command in flight takes the message.
abbrev pub taken : Option (List Message) → Message → Bool
taken (some []) m = not m.callback
taken _ m = false

published :
    (p : Option (List Message)) (c : Conn) (m : Message)
    → taken p m ≡ false
    → route_to p c m ≡ to_subscribers c m
unfolding route_to
published none c m t = refl
published (some []) c m t = ground arith
published (some (x ∷ xs)) c m t = refl

abbrev contents : List Entry → List (List Message)
contents = map (λ (e : Entry). e.sub.ch)

to_subscribers_lem :
    (c : Conn) (m : Message)
    → c.dropped_subscription + losses m c.subs < 2 ^ 64
    → (contents (to_subscribers c m).subs ≡ map (λ (e : Entry). e.sub.ch ++ gains m e) c.subs)
      × ((to_subscribers c m).pending ≡ c.pending)
      × ((to_subscribers c m).dropped_subscription ≡ c.dropped_subscription + losses m c.subs)
unfolding to_subscribers
to_subscribers_lem c m h = (publish-gains m c.subs _, refl, publish-losses m c.subs _ h)

-- The first reply after a command was sent goes to that command and to nobody else.
pub route_reply :
    (c : Conn) (m : Message)
    → c.pending ≡ some []
    → m.callback ≡ false
    → route c m ≡ record c { pending = some (m ∷ []) }
unfolding route route_to
route_reply c m e f = ground arith

-- A message that is not a reply which a waiting command still takes goes to each subscription that
-- matches it and has room, and leaves the other subscriptions and the command in flight as they
-- were; each subscription that matches without room is counted, as long as the counter does not
-- wrap.
pub route_event :
    (c : Conn) (m : Message)
    → taken c.pending m ≡ false
    → c.dropped_subscription + losses m c.subs < 2 ^ 64
    → (map (λ (e : Entry). e.sub.ch) (route c m).subs
        ≡ map (λ (e : Entry). e.sub.ch ++ gains m e) c.subs)
      × ((route c m).pending ≡ c.pending)
      × ((route c m).dropped_subscription ≡ c.dropped_subscription + losses m c.subs)
unfolding route
route_event c m t h = rw (published c.pending c m t) (to_subscribers_lem c m h)
