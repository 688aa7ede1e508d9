-- ===== src/Ash/Conn.antt =====
-- internal/ash/conn.go: the state of `Conn`, what the read pump does with it, and its teardown.
-- Locks are left out: each function is one critical section or a run of them that the source
-- serialises by `sendMu` or by the one read pump. A tracer only observes and is left out too.
-- What the port answers to a write is an argument: `none`, or its error by a tag.
pub mod Send
pub mod Invariant
pub mod Delivery
pub mod Retry
use gzb.Base.{
  ℕ, suc, ◌+◌, ◌%◌, ◌^◌, Bool, true, false, Option, none, some, List, [], ◌∷◌, ◌++◌, ◌==◌, ltb,
  if◌then◌else◌, Bytes, length,
}
use gzb.Base.Result.{ok, err}
use gzb.Ash.Error.{Error, bad_crc}
use gzb.Ash.Frame.{
  FrameType, data_frame, ack, nak, rst, rstack, error, Frame, blank, encode, decode,
}
use gzb.Ash.Scanner.{ReadError, eof, Scanned, discarded, body, failed}

pub record AckEvent : Type 0 where
  pub ack_num : ℕ
  pub is_nak : Bool

-- A buffered channel is the list of what waits in it, oldest first. `written` lists the writes that
-- the port took.
pub record Conn : Type 0 where
  pub tx_seq : ℕ
  pub rx_seq : ℕ
  pub closed : Bool
  pub ack_ch : List AckEvent
  pub data_ch : List Bytes
  pub reset_ch : List Frame
  pub read_err : Option ReadError
  pub dropped_data : ℕ
  pub dropped_ack : ℕ
  pub dropped_reset : ℕ
  pub written : List Bytes

-- `NewConn`
unfoldable pub new_conn : Conn
new_conn = record {
  tx_seq = 0;
  rx_seq = 0;
  closed = false;
  ack_ch = [];
  data_ch = [];
  reset_ch = [];
  read_err = none;
  dropped_data = 0;
  dropped_ack = 0;
  dropped_reset = 0;
  written = [];
}

abbrev pub ack_cap : ℕ
ack_cap = 8

abbrev pub data_cap : ℕ
data_cap = 64

abbrev pub reset_cap : ℕ
reset_cap = 4

-- `atomic.Uint64.Add(1)`
abbrev pub count_up : ℕ → ℕ
count_up n = (n + 1) % 2 ^ 64

pub data WriteError : Type 0 where
  encoding : Error → WriteError
  port : ℕ → WriteError

-- `write`
unfoldable pub write : Conn → Option ℕ → Frame → Conn × Option WriteError
write c outcome f = elim (encode f) [
  | err e ↦ (c, some (encoding e))
  | ok buf ↦ elim outcome [
    | none ↦ (record c { written = c.written ++ buf ∷ [] }, none)
    | some e ↦ (c, some (port e))
  ]
]

-- `signalAck`
unfoldable pub signal_ack : Conn → AckEvent → Conn
signal_ack c ev =
    if ltb (length c.ack_ch) ack_cap
    then record c { ack_ch = c.ack_ch ++ ev ∷ [] }
    else record c { dropped_ack = count_up c.dropped_ack }

-- `Frame{Type: FrameACK, AckNum: n}`
abbrev pub reply : FrameType → ℕ → Frame
reply t n = record (blank t) { ack_num = n }

-- The last statement of the DATA case: the payload goes into the channel if it has room.
unfoldable pub hand_over : Conn → Bytes → Conn
hand_over c bs =
    if ltb (length c.data_ch) data_cap
    then record c { data_ch = c.data_ch ++ bs ∷ [] }
    else record c { dropped_data = count_up c.dropped_data }

-- The DATA case, after `signalAck`.
unfoldable pub handle_data : Conn → Option ℕ → Frame → Conn
handle_data c outcome f =
    if f.frm_num == c.rx_seq
    then (let next = (c.rx_seq + 1) % 8 in
        hand_over (write (record c { rx_seq = next }) outcome (reply ack next)).0 f.payload)
    else if f.frm_num == (c.rx_seq + 7) % 8
    then (write c outcome (reply ack c.rx_seq)).0
    else (write c outcome (reply nak c.rx_seq)).0

-- The RSTACK and ERROR case.
unfoldable pub notify_reset : Conn → Frame → Conn
notify_reset c f =
    if ltb (length c.reset_ch) reset_cap
    then record c { reset_ch = c.reset_ch ++ f ∷ [] }
    else record c { dropped_reset = count_up c.dropped_reset }

unfoldable pub handle_of : FrameType → Conn → Option ℕ → Frame → Conn
handle_of data_frame c outcome f =
    handle_data (signal_ack c (record { ack_num = f.ack_num; is_nak = false })) outcome f
handle_of ack c outcome f = signal_ack c (record { ack_num = f.ack_num; is_nak = false })
handle_of nak c outcome f = signal_ack c (record { ack_num = f.ack_num; is_nak = true })
handle_of rstack c outcome f = notify_reset c f
handle_of error c outcome f = notify_reset c f
handle_of rst c outcome f = c

-- `handle`
unfoldable pub handle : Conn → Option ℕ → Frame → Conn
handle c outcome f = handle_of f.type c outcome f

-- `fail`
unfoldable pub fail : Conn → ReadError → Conn
fail c e = elim c.read_err [
  | none ↦ if c.closed then c else record c { read_err = some e }
  | some _ ↦ c
]

-- What the read pump does with the outcome of `Decode`.
unfoldable pub pump_frame : Conn → Option ℕ → gzb.Base.Result.Result Error Frame → Conn
pump_frame c outcome (ok f) = handle c outcome f
pump_frame c outcome (err bad_crc) = (write c outcome (reply nak c.rx_seq)).0
pump_frame c outcome (err _) = c

-- One round of `readPump` on what the scanner returned; the flag says whether it goes on.
unfoldable pub pump : Conn → Option ℕ → Scanned → Conn × Bool
pump c outcome (failed e) = (fail c e, false)
pump c outcome discarded = (c, true)
pump c outcome (body raw) = (pump_frame c outcome (decode raw), true)

pub data LinkError : Type 0 where
  closed : LinkError
  lost : ReadError → LinkError

-- `err`
unfoldable pub link_error : Conn → LinkError
link_error c = elim c.read_err [
  | none ↦ LinkError.closed
  | some e ↦ elim e [
    | eof ↦ LinkError.closed
    | gzb.Ash.Scanner.port t ↦ lost (gzb.Ash.Scanner.port t)
  ]
]

-- `Close`, up to the wait for the read pump. The flag says whether the port is closed now.
unfoldable pub close : Conn → Conn × Bool
close c = if c.closed then (c, false) else (record c { closed = true }, true)
