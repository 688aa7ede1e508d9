-- ===== src/Ash/Scanner.antt =====
-- internal/ash/conn.go: `scanner`, which cuts the bytes of the port into frame bodies.
-- The port is the list of what its successive `Read` calls return; after the last it is at its end.
pub mod Stream
pub mod Resync
use gzb.Base.{
  ℕ, Bool, true, false, ◌||◌, Option, none, some, List, [], ◌∷◌, ◌++◌, ◌==◌, leb, if◌then◌else◌,
  Bytes, length,
}
use gzb.Ash.Stuff.{flag_byte, x_on_byte, x_off_byte, subst_byte, cancel_byte}
use gzb.Ash.Frame.{max_frame_len}

-- What a read fails with: the end of the input, or an error of the port, by a tag.
pub data ReadError : Type 0 where
  eof : ReadError
  port : ℕ → ReadError

-- `n, err := s.r.Read(s.buf)`
pub record ReadResult : Type 0 where
  pub bytes : Bytes
  pub failure : Option ReadError

-- What `next` returns: `nil, nil`, a body, or an error.
pub data Scanned : Type 0 where
  discarded : Scanned
  body : Bytes → Scanned
  failed : ReadError → Scanned

-- The fields `frame` and `corrupt`.
pub record Partial : Type 0 where
  pub frame : Bytes
  pub corrupt : Bool

pub record Scanner : Type 0 where
  pub partial : Partial
  pub pend : Bytes
  pub failure : Option ReadError
  pub reads : List ReadResult

abbrev pub clean : Partial
clean = record { frame = []; corrupt = false }

abbrev pub is_empty : Bytes → Bool
is_empty [] = true
is_empty (_ ∷ _) = false

-- `case FlagByte`: what is returned.
unfoldable pub at_flag : Partial → Scanned
at_flag p = if p.corrupt || is_empty p.frame then discarded else body p.frame

-- `default`: one more byte of content.
unfoldable pub add_byte : Partial → ℕ → Partial
add_byte p b =
    if leb max_frame_len (length p.frame)
    then record { frame = []; corrupt = true }
    else record p { frame = p.frame ++ b ∷ [] }

-- The switch of `next` on one byte: the new state, and what is returned if the loop ends.
unfoldable pub scan_byte : Partial → ℕ → Partial × Option Scanned
unfolding at_flag add_byte
scan_byte p b =
    if b == cancel_byte
    then (clean, none)
    else if b == subst_byte
    then (record p { corrupt = true }, none)
    else if b == x_on_byte || b == x_off_byte
    then (p, none)
    else if b == flag_byte
    then (clean, some (at_flag p))
    else (add_byte p b, none)

-- The inner loop of `next`, over the pending bytes.
unfoldable pub drain : Partial → Bytes → Partial × Bytes × Option Scanned
unfolding scan_byte
drain p [] = (p, [], none)
drain p (b ∷ bs) =
    let (p', found) = scan_byte p b in elim found [ none ↦ drain p' bs | some r ↦ (p', bs, some r) ]

-- `if err != nil { s.err = err } else if n == 0 { s.err = io.EOF }`
unfoldable pub failure_after : ReadResult → Option ReadError
failure_after r = elim r.failure [
  | some e ↦ some e
  | none ↦ if is_empty r.bytes then some eof else none
]

-- The outer loop of `next`: `partial` and `pend` are drained, and then the port is read.
unfoldable pub next_from : Partial → Bytes → Option ReadError → List ReadResult → Scanned × Scanner
unfolding drain failure_after
next_from p pend failure [] =
    let (p', rest, found) = drain p pend in
    elim found [
      | some r ↦ (r, record { partial = p'; pend = rest; failure = failure; reads = [] })
      | none ↦ elim failure [
        | some e ↦ (failed e, record { partial = p'; pend = []; failure = some e; reads = [] })
        | none ↦ (failed eof, record { partial = p'; pend = []; failure = some eof; reads = [] })
      ]
    ]
next_from p pend failure (r ∷ rs) =
    let (p', rest, found) = drain p pend in
    elim found [
      | some s ↦ (s, record { partial = p'; pend = rest; failure = failure; reads = r ∷ rs })
      | none ↦ elim failure [
        | some e ↦ (failed e, record { partial = p'; pend = []; failure = some e; reads = r ∷ rs })
        | none ↦ next_from p' r.bytes (failure_after r) rs
      ]
    ]

unfoldable pub next : Scanner → Scanned × Scanner
unfolding next_from
next s = next_from s.partial s.pend s.failure s.reads
