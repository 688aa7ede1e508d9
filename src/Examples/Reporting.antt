-- ===== src/Examples/Reporting.antt =====
-- internal/zcl: a reporting configuration and a response to it.
use gzb.Base.{ℕ, ◌%◌, ◌^◌, true, false, some, [], ◌∷◌, Bytes}
use gzb.Base.Int.{pos}
use gzb.Zcl.Value.{Floats, int64}
use gzb.Zcl.Frame.{Frame}
use gzb.Zcl.Reporting.{ReportingConfig, ReportResult}

-- The floats stand for their own patterns.
abbrev self_patterns : Floats ℕ
self_patterns = record {
  of_bits = λ b. b;
  to_bits = λ f. f % 2 ^ 32;
  of_uint = λ n. n;
  of_int = λ z. 0;
}

-- A temperature by half a degree, at least every hour.
abbrev temperature : ReportingConfig ℕ
temperature = record {
  id = 0x0000;
  type = 0x29;
  min_interval = 30;
  max_interval = 3600;
  change = some (int64 (pos 50));
}

abbrev temperature_bytes : Bytes
temperature_bytes = 0x00 ∷ 9 ∷ 0x06 ∷ 0x00 ∷ 0 ∷ 0 ∷ 0x29 ∷ 30 ∷ 0 ∷ 16 ∷ 14 ∷ 50 ∷ 0 ∷ []

abbrev response : Frame
response = record {
  type = 0;
  manufacturer_specific = false;
  manufacturer_code = 0;
  direction = 1;
  disable_default_response = true;
  sequence = 9;
  command = 0x07;
  payload = [];
}

abbrev unreportable : ReportResult
unreportable = record { id = 0x0000; direction = 0; status = 0x8C }
