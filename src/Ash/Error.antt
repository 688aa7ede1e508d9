-- ===== src/Ash/Error.antt =====
-- internal/ash/frame.go: the errors of `Encode`, `unstuff` and `Decode`, without their text.
use gzb.Base.{ℕ}

pub data Error : Type 0 where
  bad_crc short_frame long_frame escape_at_end : Error
  unrecognised : ℕ → Error
