-- ===== src/Ash/Conn/Delivery.antt =====
-- internal/ash/conn.go: the receiving side. What `handle` does with DATA frames, and why a peer that
-- repeats its frames has each payload delivered once.
use gzb.Base.{
  ℕ, ◌+◌, ◌%◌, ◌≤◌, ◌<◌, ◌≡◌, ◌≢◌, refl, sym, ◌∙◌, arith, Bool, false, Option, none, List, [], ◌∷◌,
  ◌++◌, append_assoc, append-nil, map, ◌==◌, ◌&&◌, ltb, if◌then◌else◌, Bytes, length, length-append,
}
use gzb.Base.Result.{ok}
use gzb.Ash.Frame.{data_frame, ack, nak, Frame, blank, encode}
use gzb.Ash.Conn.{
  AckEvent, Conn, data_cap, write, signal_ack, reply, hand_over, handle_data, handle_of, handle,
}

-- One transmission of a message that the peer sends, and what the port answers to the reply.
pub record Copy : Type 0 where
  pub ack_num : ℕ
  pub re_tx : Bool
  pub outcome : Option ℕ

-- A message, its first transmission that arrived, and those that arrived after it.
pub record Message : Type 0 where
  pub payload : Bytes
  pub first : Copy
  pub repeats : List Copy

pub data_copy : ℕ → Bytes → Copy → Frame
data_copy n bs x = record (blank data_frame) {
  frm_num = n % 8;
  ack_num = x.ack_num;
  re_tx = x.re_tx;
  payload = bs;
}

pub receive : Conn → ℕ → Bytes → Copy → Conn
receive c n bs x = handle c x.outcome (data_copy n bs x)

pub receive_all : Conn → ℕ → Bytes → List Copy → Conn
receive_all c n bs [] = c
receive_all c n bs (x ∷ xs) = receive_all (receive c n bs x) n bs xs

-- Message number `n` in all its transmissions, then the next.
pub session : Conn → ℕ → List Message → Conn
session c n [] = c
session c n (m ∷ ms) =
    session (receive_all (receive c n m.payload m.first) n m.payload m.repeats) (n + 1) ms

abbrev payload_of : Message → Bytes
payload_of m = m.payload

-- The two fields that matter here.
record Received (c : Conn) (seq : ℕ) (items : List Bytes) : Type 0 where
  seq_is : c.rx_seq ≡ seq
  items_are : c.data_ch ≡ items

write-Received :
    (c : Conn) (o : Option ℕ) (f : Frame)
    → ((write c o f).0.rx_seq ≡ c.rx_seq) × ((write c o f).0.data_ch ≡ c.data_ch)
unfolding write
write-Received c o f = ground arith

signal_ack-Received :
    (c : Conn) (ev : AckEvent)
    → ((signal_ack c ev).rx_seq ≡ c.rx_seq) × ((signal_ack c ev).data_ch ≡ c.data_ch)
unfolding signal_ack
signal_ack-Received c ev = ground arith

handle_data_new :
    (c : Conn) (o : Option ℕ) (f : Frame)
    → f.frm_num ≡ c.rx_seq
    → length c.data_ch < data_cap
    → Received (handle_data c o f) ((c.rx_seq + 1) % 8) (c.data_ch ++ f.payload ∷ [])
unfolding handle_data hand_over
handle_data_new c o f e room =
    let next = (c.rx_seq + 1) % 8 in
    ground (arith, write-Received (record c { rx_seq = next }) o (reply ack next))

handle_data_repeat :
    (c : Conn) (o : Option ℕ) (f : Frame)
    → f.frm_num ≢ c.rx_seq
    → Received (handle_data c o f) c.rx_seq c.data_ch
unfolding handle_data
handle_data_repeat c o f ne =
    ground (arith, write-Received c o (reply ack c.rx_seq), write-Received c o (reply nak c.rx_seq))

receive_new :
    (c : Conn) (n : ℕ) (bs : Bytes) (x : Copy) (items : List Bytes)
    → Received c (n % 8) items
    → length items < data_cap
    → Received (receive c n bs x) ((n + 1) % 8) (items ++ bs ∷ [])
unfolding receive handle handle_of data_copy
receive_new c n bs x items r room =
    let ev : AckEvent = record { ack_num = x.ack_num; is_nak = false } in
    ground (
      arith,
      signal_ack-Received c ev,
      handle_data_new (signal_ack c ev) x.outcome (data_copy n bs x),
    )

receive_repeat :
    (c : Conn) (n : ℕ) (bs : Bytes) (x : Copy) (items : List Bytes)
    → Received c ((n + 1) % 8) items
    → Received (receive c n bs x) ((n + 1) % 8) items
unfolding receive handle handle_of data_copy
receive_repeat c n bs x items r =
    let ev : AckEvent = record { ack_num = x.ack_num; is_nak = false } in
    ground (
      arith,
      signal_ack-Received c ev,
      handle_data_repeat (signal_ack c ev) x.outcome (data_copy n bs x),
    )

receive_all_repeat :
    (xs : List Copy) (c : Conn) (n : ℕ) (bs : Bytes) (items : List Bytes)
    → Received c ((n + 1) % 8) items
    → Received (receive_all c n bs xs) ((n + 1) % 8) items
unfolding receive_all
receive_all_repeat [] c n bs items r = r
receive_all_repeat (x ∷ xs) c n bs items r =
    receive_all_repeat xs (receive c n bs x) n bs items (receive_repeat c n bs x items r)

session-Received :
    (ms : List Message) (c : Conn) (n : ℕ) (items : List Bytes)
    → Received c (n % 8) items
    → length items + length ms ≤ data_cap
    → Received (session c n ms) ((n + length ms) % 8) (items ++ map payload_of ms)
unfolding session
session-Received [] c n items r room = record {
  seq_is = r.seq_is ∙ omega arith;
  items_are = r.items_are ∙ sym (append-nil items);
}
session-Received (m ∷ ms) c n items r room =
    let first = receive_new c n m.payload m.first items r (omega arith) in
    let all = receive_all_repeat m.repeats _ n m.payload _ first in
    let rest =
      session-Received ms _ (n + 1) (items ++ m.payload ∷ []) all
        (omega (arith, length-append items (m.payload ∷ []))) in
    record {
      seq_is = rest.seq_is ∙ omega arith;
      items_are = rest.items_are ∙ append_assoc items (m.payload ∷ []) (map payload_of ms);
    }

-- A peer that numbers its messages modulo 8, starting with the number that the connection expects,
-- and repeats each as often as it likes before the next: if the channel has room for all of them,
-- every payload is delivered once, in order, and the number expected next follows, whatever the
-- port answers and whatever the frames acknowledge.
pub session-delivers :
    (c : Conn) (n : ℕ) (ms : List Message)
    → c.rx_seq ≡ n % 8
    → length c.data_ch + length ms ≤ data_cap
    → ((session c n ms).data_ch ≡ c.data_ch ++ map (λ m. m.payload) ms)
      × ((session c n ms).rx_seq ≡ (n + length ms) % 8)
session-delivers c n ms e room =
    let r = session-Received ms c n c.data_ch (record { seq_is = e; items_are = refl }) room in
    (r.items_are, r.seq_is)

-- The reply to a DATA frame with number `got` when `expect` is expected: an acknowledgement that
-- asks for the next number, a repeated one, or a refusal.
abbrev pub answer : ℕ → ℕ → Frame
answer expect got =
    if got == expect
    then reply ack ((expect + 1) % 8)
    else if got == (expect + 7) % 8
    then reply ack expect
    else reply nak expect

handle_data_answers :
    (c : Conn) (f : Frame) (wire : Bytes)
    → encode (answer c.rx_seq f.frm_num) ≡ ok wire
    → ((handle_data c none f).written ≡ c.written ++ wire ∷ [])
      × ((handle_data c none f).rx_seq
          ≡ (if f.frm_num == c.rx_seq then (c.rx_seq + 1) % 8 else c.rx_seq))
      × ((handle_data c none f).data_ch ≡ (
          if f.frm_num == c.rx_seq && ltb (length c.data_ch) data_cap
          then c.data_ch ++ f.payload ∷ []
          else c.data_ch))
unfolding handle_data write hand_over
handle_data_answers c f wire e = ground arith

-- When the port takes the reply, and that can be encoded, a DATA frame is answered with exactly
-- one frame: an acknowledgement of the expected frame or of the one before it, a refusal of any
-- other. The expected number moves on only for the expected frame, and only the payload of that is
-- handed over, if there is room.
pub handle_answers :
    (c : Conn) (f : Frame) (wire : Bytes)
    → f.type ≡ data_frame
    → encode (answer c.rx_seq f.frm_num) ≡ ok wire
    → ((handle c none f).written ≡ c.written ++ wire ∷ [])
      × ((handle c none f).rx_seq
          ≡ (if f.frm_num == c.rx_seq then (c.rx_seq + 1) % 8 else c.rx_seq))
      × ((handle c none f).data_ch ≡ (
          if f.frm_num == c.rx_seq && ltb (length c.data_ch) data_cap
          then c.data_ch ++ f.payload ∷ []
          else c.data_ch))
unfolding handle handle_of signal_ack
handle_answers c f wire t e =
    let ev : AckEvent = record { ack_num = f.ack_num; is_nak = false } in
    rw t (ground (arith, handle_data_answers (signal_ack c ev) f wire))
