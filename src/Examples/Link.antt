-- ===== src/Examples/Link.antt =====
-- internal/ash/conn.go at concrete inputs.
use gzb.Base.{
  ℕ, zero, suc, ◌+◌, ◌%◌, ◌<◌, ◌≡◌, refl, arith, false, none, List, [], ◌∷◌, ◌++◌, map, Bytes,
  length,
}
use gzb.Ash.Frame.{Frame, data_frame, blank, encode}
use gzb.Ash.Scanner.{body}
use gzb.Ash.Conn.{Conn, new_conn, write}
use gzb.Ash.Conn.Send.{acked, timeout, Attempt, send, send_from, await_ack}
use gzb.Ash.Conn.Invariant.{IsValid, pumped, sends, take_data, run, run-IsValid}
use gzb.Ash.Conn.Delivery.{Copy, Message, session, session-delivers}
use gzb.Ash.Conn.Retry.{Confirms, send-delivered}

abbrev copy : ℕ → Copy
copy n = record { ack_num = n; re_tx = false; outcome = none }

-- Two messages, the first of which arrives three times.
abbrev two_messages : List Message
two_messages =
    record { payload = 0x01 ∷ []; first = copy 0; repeats = copy 0 ∷ copy 1 ∷ [] }
    ∷ record { payload = 0x02 ∷ []; first = copy 1; repeats = [] }
    ∷ []

-- Number 7 is on its way, so that the next one is 0.
abbrev wrapping : Conn
wrapping = record {
  tx_seq = 7;
  rx_seq = 7;
  closed = false;
  ack_ch = [];
  data_ch = [];
  reset_ch = [];
  read_err = none;
  dropped_data = 0;
  dropped_ack = 0;
  dropped_reset = 0;
  written = [];
}

-- The first attempt times out; the second has a stale acknowledgement, and then the right one.
abbrev late : ℕ → Attempt
late zero = record { rx_seq = 0; outcome = none; wakes = timeout ∷ [] }
late (suc _) = record {
  rx_seq = 0;
  outcome = none;
  wakes =
      acked (record { ack_num = 7; is_nak = false })
      ∷ acked (record { ack_num = 0; is_nak = false })
      ∷ [];
}

abbrev silent : ℕ → Attempt
silent _ = record { rx_seq = 0; outcome = none; wakes = timeout ∷ [] }

abbrev data_seven : Frame
data_seven = record (blank data_frame) { frm_num = 7; payload = 0x55 ∷ [] }

session-delivers_example :
    ((session wrapping 15 two_messages).data_ch ≡ [] ++ map (λ m. m.payload) two_messages)
    × ((session wrapping 15 two_messages).rx_seq ≡ (15 + length two_messages) % 8)
session-delivers_example = session-delivers wrapping 15 two_messages refl (omega arith)

send-delivered_example :
    (wrapping.closed ≡ false)
    × ((send wrapping (0x55 ∷ []) late).0.tx_seq ≡ (7 + 1) % 8)
    × ((i : ℕ) × (i < 4) × Confirms ((7 + 1) % 8) (late i).wakes)
unfolding send send_from write encode await_ack
send-delivered_example = send-delivered wrapping (0x55 ∷ []) late refl

run-IsValid_example :
    IsValid
      (run new_conn (sends (0x55 ∷ []) late ∷ pumped none (body (0x05 ∷ [])) ∷ take_data ∷ []))
run-IsValid_example =
    run-IsValid (sends (0x55 ∷ []) late ∷ pumped none (body (0x05 ∷ [])) ∷ take_data ∷ [])

-- The acknowledgement that asks for number 0.
abbrev ack_zero : Bytes
ack_zero = 0x80 ∷ 0x70 ∷ 0x78 ∷ 0x7E ∷ []
