-- ===== src/Examples/Letters.antt =====
-- The letters of ASCII, for the examples.
use gzb.Base.{ℕ, ◌+◌, ◌-◌, ◌&&◌, ◌||◌, ◌==◌, ltb, leb, if◌then◌else◌}
use gzb.Base.Letters.{Letters}

abbrev pub ascii_lower : ℕ → ℕ
ascii_lower c = if leb 65 c && leb c 90 then c + 32 else c

abbrev pub ascii_upper : ℕ → ℕ
ascii_upper c = if leb 97 c && leb c 122 then c - 32 else c

abbrev pub ascii : Letters
ascii = record {
  is_space = λ c. c == 32 || leb 9 c && leb c 13;
  is_control = λ c. ltb c 32 || c == 127;
  to_lower = ascii_lower;
  to_upper = ascii_upper;
  to_fold = ascii_lower;
  width = λ c. 1;
}
