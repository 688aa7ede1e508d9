-- ===== src/Cursor/Progress.antt =====
-- internal/ezsp/codec.go and internal/zcl/zcl.go: no read gives bytes back, and one of a byte or more
-- takes some, or ends the reading with an error.
use gzb.Base.{ℕ, ◌≤◌, ◌<◌, arith, Bytes}
use gzb.Cursor.{Cursor, fail, need, guarded, remaining, ReadError}

pub remaining-guarded :
    {A : Type 0} (n : ℕ) (otherwise : A) (value : Bytes → A) (c : Cursor)
    → remaining (guarded n otherwise value c).1 ≤ remaining c
unfolding remaining guarded need fail
remaining-guarded n otherwise value c = ground arith

pub remaining-guarded_lt :
    {A : Type 0} (n : ℕ) (otherwise : A) (value : Bytes → A) (c : Cursor)
    → 0 < n
    → 0 < remaining c
    → remaining (guarded n otherwise value c).1 < remaining c
unfolding remaining guarded need fail
remaining-guarded_lt n otherwise value c h k = ground arith

pub remaining-fail : (e : ReadError) (c : Cursor) → remaining (fail e c) ≤ remaining c
unfolding remaining fail
remaining-fail e c = ground arith
