-- ===== src/Examples/Ash.antt =====
-- internal/ash/frame.go and the scanner of internal/ash/conn.go at concrete inputs.
use gzb.Base.{
  ℕ, zero, suc, ◌+◌, ◌/◌, ◌%◌, ◌≤◌, ◌≡◌, refl, arith, true, none, [], ◌∷◌, ◌++◌, Bytes, All,
  AreBytes, length, leb, if◌then◌else◌,
}
use gzb.Base.Result.{ok, err}
use gzb.Ash.Error.{bad_crc}
use gzb.Ash.Crc.{crc16}
use gzb.Ash.Crc.Detect.{crc16_separates}
use gzb.Ash.Stuff.{flag_byte, cancel_byte, stuff_body}
use gzb.Ash.Stuff.Laws.{IsPlain}
use gzb.Ash.Frame.{Frame, data_frame, blank, encode, decode}
use gzb.Ash.Frame.Control.{carried}
use gzb.Ash.Frame.RoundTrip.{decode-encode, decode_corrupted}
use gzb.Ash.Scanner.{Scanner, body, discarded, clean, next}
use gzb.Ash.Scanner.Stream.{scan, stream, Resumes, next-scan}
use gzb.Ash.Scanner.Resync.{scan-encode, scan_too_long}

-- A retransmitted DATA frame whose payload holds reserved bytes.
abbrev query : Frame
query = record (blank data_frame) {
  frm_num = 2;
  ack_num = 5;
  re_tx = true;
  payload = 0x7E ∷ 0x11 ∷ 0x00 ∷ [];
}

abbrev reserved : Bytes
reserved = 0x7E ∷ 0x7D ∷ 0x20 ∷ []

-- The body of RST in two reads, behind the end of a lost frame.
abbrev arriving : Scanner
arriving = record {
  partial = clean;
  pend = [];
  failure = none;
  reads =
      record { bytes = 0x05 ∷ 0x1A ∷ 0xC0 ∷ []; failure = none }
      ∷ record { bytes = 0x38 ∷ 0xBC ∷ 0x7E ∷ []; failure = none }
      ∷ [];
}

zeros : ℕ → Bytes
zeros zero = []
zeros (suc n) = 0 ∷ zeros n

zeros-AreBytes : (n : ℕ) → AreBytes (zeros n)
unfolding zeros
zeros-AreBytes zero = tt
zeros-AreBytes (suc n) = (omega arith, zeros-AreBytes n)

length-zeros : (n : ℕ) → length (zeros n) ≡ n
unfolding zeros
length-zeros zero = refl
length-zeros (suc n) = omega (arith, length-zeros n)

abbrev longest : Frame
longest = record (blank data_frame) { payload = zeros 256 }

crc_example : crc16 (0x31 ∷ 0x32 ∷ 0x33 ∷ 0x34 ∷ 0x35 ∷ 0x36 ∷ 0x37 ∷ 0x38 ∷ 0x39 ∷ []) ≡ 0x29B1
unfolding crc16
crc_example = refl

next_example : (next arriving).0 ≡ body (0xC0 ∷ 0x38 ∷ 0xBC ∷ [])
unfolding next
next_example = refl

decode-encode_example :
    (b : Bytes) × (encode query ≡ ok (b ++ flag_byte ∷ []))
    × All IsPlain b
    × (decode b ≡ ok (carried query))
    × (length query.payload + 3 ≤ length b)
decode-encode_example = decode-encode query (omega arith) (omega arith) (omega arith) (omega arith)

decode_corrupted_example :
    decode (
      stuff_body (
        ((0x81 ∷ []) ++ 0x60 ∷ [])
        ++ (crc16 ((0x81 ∷ []) ++ 0x61 ∷ []) / 256 % 256
            ∷ crc16 ((0x81 ∷ []) ++ 0x61 ∷ []) % 256
            ∷ [])))
    ≡ err bad_crc
decode_corrupted_example =
    decode_corrupted (0x81 ∷ []) [] 0x61 0x60 (omega arith) (omega arith) (λ e. omega arith)

crc16_separates_example : ◌≡◌ {A = ℕ} 0x61 0x61
crc16_separates_example =
    crc16_separates (0x81 ∷ []) (0x00 ∷ []) 0x61 0x61 (omega arith) (omega arith) (omega arith)
      (omega arith) refl

next-scan_example :
    Resumes (next arriving).0 (next arriving).1 (scan arriving.partial (stream arriving))
next-scan_example = next-scan arriving

scan-encode_example :
    (b : Bytes) × (encode query ≡ ok (b ++ flag_byte ∷ []))
    × (decode b ≡ ok (carried query))
    × (scan clean (cancel_byte ∷ (b ++ flag_byte ∷ 0x01 ∷ []))
        ≡ (if leb (length b) 256 then body b else discarded) ∷ scan clean (0x01 ∷ []))
scan-encode_example =
    scan-encode query clean (0x01 ∷ []) (omega arith) (omega arith) (omega arith) (omega arith)

scan_too_long_example :
    (wire : Bytes) × (encode longest ≡ ok wire) × (scan clean wire ≡ discarded ∷ [])
scan_too_long_example =
    scan_too_long longest (omega arith) (omega arith) (zeros-AreBytes 256)
      (omega (arith, length-zeros 256)) (omega (arith, length-zeros 256))
