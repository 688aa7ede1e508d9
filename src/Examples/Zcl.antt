-- ===== src/Examples/Zcl.antt =====
-- internal/zcl at concrete inputs. The floats stand for their own patterns.
use gzb.Base.{ℕ, ◌-◌, ◌%◌, ◌^◌, ◌<◌, ◌≡◌, refl, arith, true, false, [], ◌∷◌, ◌++◌}
use gzb.Base.Int.{negsuc}
use gzb.Cursor.At.{at}
use gzb.Zcl.Value.{
  Value, Floats, uint64, int64, encoding_of, bounded_int, encode_value, decode_value,
  encode_encoding, as_int, append_uint,
}
use gzb.Zcl.Value.RoundTrip.{bounded_int_wraps}
use gzb.Zcl.Value.Same.{IsSame, decode_value-encode_value}
use gzb.Zcl.Frame.{Frame, WriteResult}

abbrev pub patterns : Floats ℕ
patterns = record { of_bits = λ b. b; to_bits = λ f. f % 2 ^ 32; of_uint = λ n. n; of_int = λ z. 0 }

pub pattern_bound : (f : ℕ) → f % 2 ^ 32 < 2 ^ 32
pattern_bound f = omega arith

-- An int24 of -2.
decode_value-encode_value_example :
    (r : Value ℕ) × IsSame patterns (int64 (negsuc 1)) (encoding_of 0x2A) r
    × (decode_value patterns 0x2A (at (0x05 ∷ []) ((0xFE ∷ 0xFF ∷ 0xFF ∷ []) ++ 0x09 ∷ []))
        ≡ (r, at ((0x05 ∷ []) ++ 0xFE ∷ 0xFF ∷ 0xFF ∷ []) (0x09 ∷ [])))
unfolding encode_value encoding_of encode_encoding bounded_int as_int append_uint
decode_value-encode_value_example =
    decode_value-encode_value patterns pattern_bound 0x2A (int64 (negsuc 1))
      (0xFE ∷ 0xFF ∷ 0xFF ∷ []) (0x05 ∷ []) (0x09 ∷ []) tt refl

bounded_int_wraps_example :
    bounded_int {F = ℕ} (uint64 (2 ^ 64 - 1 - 0)) 8 ≡ bounded_int {F = ℕ} (int64 (negsuc 0)) 8
bounded_int_wraps_example = bounded_int_wraps ℕ 0 8 (omega arith)

abbrev answered : Frame
answered = record {
  type = 0;
  manufacturer_specific = false;
  manufacturer_code = 0;
  direction = 1;
  disable_default_response = true;
  sequence = 9;
  command = 0x04;
  payload = [];
}

abbrev refused : WriteResult
refused = record { id = 0x0004; status = 0x88 }
