-- ===== src/Ezsp/Conn.antt =====
-- internal/ezsp/conn.go: the state of `Conn`, `route`, `Subscribe`, `command` and `negotiate`.
-- Locks and tracers are left out. `subs` is a map in the source; the order in which it is walked
-- does not matter, since a subscription is served without looking at the others.
pub mod Routing
pub mod Exchange
use gzb.Base.{
  ℕ, zero, suc, ◌+◌, ◌%◌, ◌^◌, Bool, true, false, not, ◌&&◌, Option, none, some, List, [], ◌∷◌,
  ◌++◌, ◌==◌, ltb, if◌then◌else◌, Bytes, length,
}
use gzb.Base.Result.{Result, ok, err, ◌>>=◌}
use gzb.Cursor.{ReadError, new_buf, u8, u16}
use gzb.Ezsp.Protocol.{DecodeError, Message, legacy_version, encode_command, decode_message}

pub record Subscription : Type 0 where
  pub matches : Message → Bool
  pub buffer : ℕ
  pub ch : List Message

-- A map entry.
pub record Entry : Type 0 where
  pub key : ℕ
  pub sub : Subscription

-- `pending` is the reply channel of the command in flight, which holds one message at most.
pub record Conn : Type 0 where
  pub version : ℕ
  pub seq : ℕ
  pub pending : Option (List Message)
  pub subs : List Entry
  pub next_sub : ℕ
  pub closed : Bool
  pub stack_ver : ℕ
  pub stack_typ : ℕ
  pub decode_errors : ℕ
  pub dropped_subscription : ℕ

-- The state that `Open` starts from.
unfoldable pub new_conn : Conn
new_conn = record {
  version = legacy_version;
  seq = 0;
  pending = none;
  subs = [];
  next_sub = 0;
  closed = false;
  stack_ver = 0;
  stack_typ = 0;
  decode_errors = 0;
  dropped_subscription = 0;
}

abbrev pub count_up : ℕ → ℕ
count_up n = (n + 1) % 2 ^ 64

-- A message to one subscription, and whether it was dropped.
unfoldable pub offer : Message → Subscription → Subscription × Bool
offer m s =
    if not (s.matches m)
    then (s, false)
    else if ltb (length s.ch) s.buffer
    then (record s { ch = s.ch ++ m ∷ [] }, false)
    else (s, true)

-- The loop over the subscriptions.
unfoldable pub publish : Message → List Entry → ℕ → List Entry × ℕ
publish m [] dropped = ([], dropped)
publish m (e ∷ es) dropped =
    let (s, lost) = offer m e.sub in
    let (rest, total) = publish m es (if lost then count_up dropped else dropped) in
    (record e { sub = s } ∷ rest, total)

unfoldable pub to_subscribers : Conn → Message → Conn
to_subscribers c m =
    let (subs, dropped) = publish m c.subs c.dropped_subscription in
    record c { subs = subs; dropped_subscription = dropped }

-- `route`: a reply goes to the command in flight if its channel is free.
unfoldable pub route_to : Option (List Message) → Conn → Message → Conn
route_to none c m = to_subscribers c m
route_to (some []) c m =
    if m.callback then to_subscribers c m else record c { pending = some (m ∷ []) }
route_to (some (x ∷ xs)) c m = to_subscribers c m

unfoldable pub route : Conn → Message → Conn
route c m = route_to c.pending c m

unfoldable pub pump_message : Conn → Result DecodeError Message → Conn
pump_message c (ok m) = route c m
pump_message c (err _) = record c { decode_errors = count_up c.decode_errors }

-- One round of `readPump`.
unfoldable pub pump : Conn → Bytes → Conn
unfolding pump_message
pump c payload = pump_message c (decode_message c.version payload)

-- `Subscribe`: a buffer of 32 where none is asked for; and the cancel function.
unfoldable pub subscribe : Conn → (Message → Bool) → ℕ → Conn × ℕ
subscribe c matches buffer =
    let sub : Subscription = record {
      matches = matches;
      buffer = if buffer == 0 then 32 else buffer;
      ch = [];
    } in
    (
      record c {
        subs = c.subs ++ record { key = c.next_sub; sub = sub } ∷ [];
        next_sub = c.next_sub + 1;
      },
      c.next_sub,
    )

unfoldable pub delete : ℕ → List Entry → List Entry
delete k [] = []
delete k (e ∷ es) = let rest = delete k es in if e.key == k then rest else e ∷ rest

unfoldable pub cancel : Conn → ℕ → Conn
cancel c k = record c { subs = delete k c.subs }

-- `Close`, up to the wait for the read pump.
unfoldable pub close : Conn → Conn
close c = if c.closed then c else record c { closed = true; subs = [] }

pub data CommandError : Type 0 where
  closed timeout cancelled : CommandError
  sending : ℕ → CommandError
  reading : ReadError → CommandError
  disagreed : ℕ → ℕ → CommandError

-- The start of `command`: the sequence number wraps as a uint8, and the frame goes to the link.
unfoldable pub begin_command : Conn → ℕ → Bytes → Result CommandError (Conn × ℕ × Bytes)
begin_command c id params =
    if c.closed
    then err CommandError.closed
    else ok (
      record c { seq = (c.seq + 1) % 256; pending = some [] },
      c.seq,
      encode_command c.version c.seq id params,
    )

-- `matchesResponse`
unfoldable pub matches_response : Message → ℕ → ℕ → Bool
matches_response m sequence id = not m.callback && m.sequence == sequence && m.id == id

-- What the `select` of `command` takes, in the order of the environment's choice.
pub data Wake : Type 0 where
  replied : Message → Wake
  read_done deadline ctx_done : Wake

-- The wait of `command`; `none` says that the events given are used up.
unfoldable pub await_response : ℕ → ℕ → List Wake → Option (Result CommandError Bytes)
unfolding matches_response
await_response seq id [] = none
await_response seq id (replied m ∷ ws) =
    let rest = await_response seq id ws in
    if not (matches_response m seq id) then rest else some (ok m.params)
await_response seq id (read_done ∷ ws) = some (err CommandError.closed)
await_response seq id (deadline ∷ ws) = some (err timeout)
await_response seq id (ctx_done ∷ ws) = some (err cancelled)

-- `versionExchange` on what the version command returned.
unfoldable pub record_version : Conn → Bytes → Result CommandError (Conn × ℕ)
record_version c params =
    let (protocol, r1) = u8 (new_buf params) in
    let (stack_type, r2) = u8 r1 in
    let (stack_ver, r3) = u16 r2 in
    elim r3.failure [
      | some e ↦ err (reading e)
      | none ↦ ok (record c { stack_typ = stack_type; stack_ver = stack_ver }, protocol)
    ]

-- `versionExchange`: `answer` is what `command` returns for the version command with this byte,
-- sent in the layout of this version.
unfoldable pub version_exchange :
    (ℕ → Bytes → Result CommandError Bytes) → Conn → ℕ → Result CommandError (Conn × ℕ)
version_exchange answer c desired = do
  params ← answer c.version (desired % 256 ∷ [])
  record_version c params

unfoldable pub confirm :
    (ℕ → Bytes → Result CommandError Bytes) → Conn → ℕ → Result CommandError Conn
confirm answer c got = do
  (c', confirmed) ← version_exchange answer (record c { version = got }) got
  (if confirmed == got then ok c' else err (disagreed got confirmed))

-- `negotiate`
unfoldable pub negotiate : (ℕ → Bytes → Result CommandError Bytes) → Conn → Result CommandError Conn
negotiate answer c = do
  (c', got) ← version_exchange answer c legacy_version
  (if got == legacy_version then ok c' else confirm answer c' got)
