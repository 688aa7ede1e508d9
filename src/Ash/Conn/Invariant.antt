-- ===== src/Ash/Conn/Invariant.antt =====
-- internal/ash/conn.go: what every operation keeps.
use gzb.Base.{
  ℕ, zero, suc, ◌+◌, ◌%◌, ◌^◌, ◌≤◌, ◌<◌, ◌≡◌, refl, arith, Bool, true, false, Option, none, some,
  List, [], ◌∷◌, ◌++◌, ◌==◌, ltb, if◌then◌else◌, Bytes, length, drop, length-append,
}
use gzb.Base.Result.{ok, err}
use gzb.Ash.Error.{Error, bad_crc}
use gzb.Ash.Frame.{FrameType, data_frame, ack, nak, rst, rstack, error, Frame, decode}
use gzb.Ash.Scanner.{ReadError, Scanned, discarded, body, failed}
use gzb.Ash.Conn.{
  AckEvent, Conn, new_conn, ack_cap, data_cap, reset_cap, write, signal_ack, reply, hand_over,
  handle_data, notify_reset, handle_of, handle, fail, pump_frame, pump, close,
}
use gzb.Ash.Conn.Send.{
  Attempt, ack_for, outgoing, send_from, send, ResetWake, notified, read_done, no_reply,
  finish_reset, reset_link,
}
use gzb.Ash.Frame.RoundTrip.{encode_rst}
use gzb.Ash.Stuff.{cancel_byte, flag_byte}

-- Sequence numbers have three bits, and no channel holds more than its buffer.
pub record IsValid (c : Conn) : Type 0 where
  pub tx_bound : c.tx_seq < 8
  pub rx_bound : c.rx_seq < 8
  pub ack_bound : length c.ack_ch ≤ ack_cap
  pub data_bound : length c.data_ch ≤ data_cap
  pub reset_bound : length c.reset_ch ≤ reset_cap

pub new_conn-IsValid : IsValid new_conn
unfolding new_conn
new_conn-IsValid = omega arith

pub write-IsValid : (c : Conn) (o : Option ℕ) (f : Frame) → IsValid c → IsValid (write c o f).0
unfolding write
write-IsValid c o f v = ground arith

signal_ack-IsValid : (c : Conn) (ev : AckEvent) → IsValid c → IsValid (signal_ack c ev)
unfolding signal_ack
signal_ack-IsValid c ev v = ground (arith, length-append c.ack_ch (ev ∷ []))

hand_over-IsValid : (c : Conn) (bs : Bytes) → IsValid c → IsValid (hand_over c bs)
unfolding hand_over
hand_over-IsValid c bs v = ground (arith, length-append c.data_ch (bs ∷ []))

notify_reset-IsValid : (c : Conn) (f : Frame) → IsValid c → IsValid (notify_reset c f)
unfolding notify_reset
notify_reset-IsValid c f v = ground (arith, length-append c.reset_ch (f ∷ []))

handle_data-IsValid :
    (c : Conn) (o : Option ℕ) (f : Frame) → IsValid c → IsValid (handle_data c o f)
unfolding handle_data
handle_data-IsValid c o f v =
    let next = (c.rx_seq + 1) % 8 in
    let c' : Conn = record c { rx_seq = next } in
    let advanced : IsValid c' = ground arith in
    ground (
      arith,
      hand_over-IsValid (write c' o (reply ack next)).0 f.payload
          (write-IsValid c' o (reply ack next) advanced),
      write-IsValid c o (reply ack c.rx_seq) v,
      write-IsValid c o (reply nak c.rx_seq) v,
    )

handle_of-IsValid :
    (t : FrameType) (c : Conn) (o : Option ℕ) (f : Frame) → IsValid c → IsValid (handle_of t c o f)
unfolding handle_of
handle_of-IsValid data_frame c o f v = handle_data-IsValid _ o f (signal_ack-IsValid c _ v)
handle_of-IsValid ack c o f v = signal_ack-IsValid c _ v
handle_of-IsValid nak c o f v = signal_ack-IsValid c _ v
handle_of-IsValid rstack c o f v = notify_reset-IsValid c f v
handle_of-IsValid error c o f v = notify_reset-IsValid c f v
handle_of-IsValid rst c o f v = v

fail-IsValid : (c : Conn) (e : ReadError) → IsValid c → IsValid (fail c e)
unfolding fail
fail-IsValid c e v = ground arith

pump_frame-IsValid :
    (c : Conn) (o : Option ℕ) (r : gzb.Base.Result.Result Error Frame)
    → IsValid c
    → IsValid (pump_frame c o r)
unfolding pump_frame handle
pump_frame-IsValid c o (ok f) v = handle_of-IsValid f.type c o f v
pump_frame-IsValid c o (err bad_crc) v = write-IsValid c o _ v
pump_frame-IsValid c o (err _) v = v

-- One round of the read pump keeps the invariant, whatever came in.
pub pump-IsValid : (c : Conn) (o : Option ℕ) (r : Scanned) → IsValid c → IsValid (pump c o r).0
unfolding pump
pump-IsValid c o (failed e) v = fail-IsValid c e v
pump-IsValid c o discarded v = v
pump-IsValid c o (body raw) v = pump_frame-IsValid c o (decode raw) v

send_from-IsValid :
    (left attempt : ℕ) (c : Conn) (frm : ℕ) (bs : Bytes) (env : ℕ → Attempt)
    → IsValid c
    → IsValid (send_from left attempt c frm bs env).0
unfolding send_from
send_from-IsValid zero attempt c frm bs env v = v
send_from-IsValid (suc left) attempt c frm bs env v =
    let f = outgoing frm bs attempt (ack_for attempt c (env attempt)) in
    let w = write-IsValid c (env attempt).outcome f v in
    let again =
      send_from-IsValid left (suc attempt) (write c (env attempt).outcome f).0 frm bs env w in
    ground (arith, w, again)

pub send-IsValid :
    (c : Conn) (bs : Bytes) (env : ℕ → Attempt) → IsValid c → IsValid (send c bs env).0
unfolding send
send-IsValid c bs env v =
    let cleared : IsValid (record c { ack_ch = [] }) = ground arith in
    ground (arith, send_from-IsValid 4 0 (record c { ack_ch = [] }) c.tx_seq bs env cleared)

finish_reset-IsValid : (c : Conn) (w : ResetWake) → IsValid c → IsValid (finish_reset c w).0
unfolding finish_reset
finish_reset-IsValid c (notified f) v = ground arith
finish_reset-IsValid c (read_done e) v = v
finish_reset-IsValid c no_reply v = v

pub reset_link-IsValid :
    (c : Conn) (o : Option ℕ) (w : ResetWake) → IsValid c → IsValid (reset_link c o w).0
unfolding reset_link
reset_link-IsValid c o w v =
    let drained : IsValid (record c { reset_ch = [] }) = ground arith in
    let wrote = (cancel_byte ∷ 0xC0 ∷ 0x38 ∷ 0xBC ∷ flag_byte ∷ []) ∷ [] in
    let sent : IsValid (record c { reset_ch = []; written = c.written ++ wrote }) = ground arith in
    ground (arith, encode_rst, drained, finish_reset-IsValid _ w sent)

-- What may happen to a connection: its operations, and a receive from each of its channels.
pub data Event : Type 0 where
  pumped : Option ℕ → Scanned → Event
  sends : Bytes → (ℕ → Attempt) → Event
  resets : Option ℕ → ResetWake → Event
  closes take_data take_ack take_reset : Event

pub apply : Conn → Event → Conn
apply c (pumped o r) = (pump c o r).0
apply c (sends bs env) = (send c bs env).0
apply c (resets o w) = (reset_link c o w).0
apply c closes = (close c).0
apply c take_data = record c { data_ch = drop 1 c.data_ch }
apply c take_ack = record c { ack_ch = drop 1 c.ack_ch }
apply c take_reset = record c { reset_ch = drop 1 c.reset_ch }

pub run : Conn → List Event → Conn
run c [] = c
run c (e ∷ es) = run (apply c e) es

drop_one-le {ℓ} : {A : Type ℓ} (xs : List A) → length (drop 1 xs) ≤ length xs
drop_one-le [] = omega arith
drop_one-le (x ∷ xs) = omega arith

apply-IsValid : (c : Conn) (e : Event) → IsValid c → IsValid (apply c e)
unfolding apply
apply-IsValid c (pumped o r) v = pump-IsValid c o r v
apply-IsValid c (sends bs env) v = send-IsValid c bs env v
apply-IsValid c (resets o w) v = reset_link-IsValid c o w v
apply-IsValid c closes v = unfold close in ground arith
apply-IsValid c take_data v = ground (arith, drop_one-le c.data_ch)
apply-IsValid c take_ack v = ground (arith, drop_one-le c.ack_ch)
apply-IsValid c take_reset v = ground (arith, drop_one-le c.reset_ch)

run-IsValid_from : (c : Conn) (es : List Event) → IsValid c → IsValid (run c es)
unfolding run
run-IsValid_from c [] v = v
run-IsValid_from c (e ∷ es) v = run-IsValid_from (apply c e) es (apply-IsValid c e v)

-- From `NewConn` on, in every order of events, the sequence numbers stay below 8 and no channel
-- holds more than its buffer.
pub run-IsValid : (es : List Event) → IsValid (run new_conn es)
run-IsValid es = run-IsValid_from new_conn es new_conn-IsValid
