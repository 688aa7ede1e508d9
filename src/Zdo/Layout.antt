-- ===== src/Zdo/Layout.antt =====
-- internal/zdo/zdo.go: responses in their documented layout are read back.
use gzb.Base.{
  ℕ, ◌<◌, ◌≡◌, ◌≢◌, refl, ◌∙◌, arith, none, some, List, [], ◌∷◌, ◌++◌, append_assoc, append-nil,
  ==_ne, bit_and, Bytes, IsWord, All, length, le16,
}
use gzb.Base.Bits.{bit_and_mask}
use gzb.Cursor.{Reader, u8, u16}
use gzb.Cursor.At.{at, at-nil, u8-at, u16-le16}
use gzb.Zdo.{
  status_success, Answer, SimpleDescriptor, read_start, after_start, parse, read_list,
  read_endpoints, parse_active_endpoints, read_simple_descriptor, parse_simple_descriptor,
}

abbrev pub start : ℕ → ℕ → ℕ → Bytes
start seq status addr = seq ∷ status ∷ le16 addr

read_start-at :
    (seq status addr : ℕ) (rest : Bytes)
    → IsWord addr
    → read_start (at [] (start seq status addr ++ rest))
      ≡ ((status, addr), at (start seq status addr) rest)
unfolding read_start
read_start-at seq status addr rest h = rw (u8-at, u8-at, u16-le16 _ addr _ h) refl

after_start_ok :
    {A : Type 0} (body : Reader A) (addr : ℕ) (before rest behind end : Bytes) (a : A)
    → body (at before rest) ≡ (a, at behind end)
    → after_start body ((status_success, addr), at before rest)
      ≡ record { addr = addr; value = some a; status = status_success; failure = none }
unfolding after_start at
after_start_ok body addr before rest behind end a e = rw e refl

-- A body that the reader takes whole answers with its value.
parse_ok :
    {A : Type 0} (body : Reader A) (seq addr : ℕ) (rest behind end : Bytes) (a : A)
    → IsWord addr
    → body (at (start seq status_success addr) rest) ≡ (a, at behind end)
    → parse body (start seq status_success addr ++ rest)
      ≡ record { addr = addr; value = some a; status = status_success; failure = none }
unfolding parse
parse_ok body seq addr rest behind end a h e =
    rw
      (at-nil (start seq status_success addr ++ rest), read_start-at seq status_success addr rest h)
      (after_start_ok body addr (start seq status_success addr) rest behind end a e)

after_start_refused :
    {A : Type 0} (body : Reader A) (status addr : ℕ) (before rest : Bytes)
    → status ≢ status_success
    → after_start body ((status, addr), at before rest)
      ≡ record { addr = addr; value = none; status = status; failure = none }
unfolding after_start at
after_start_refused body status addr before rest ne = rw (==_ne status status_success ne) refl

-- Whatever the parser and what follows, a status other than success behind a sequence number is
-- reported with the address, which has 16 bits, with no value and no error.
pub parse_refused :
    {A : Type 0} (body : Reader A) (seq status addr : ℕ) (rest : Bytes)
    → IsWord addr
    → status ≢ status_success
    → parse body (start seq status addr ++ rest)
      ≡ record { addr = addr; value = none; status = status; failure = none }
unfolding parse
parse_refused body seq status addr rest h ne =
    rw (at-nil (start seq status addr ++ rest), read_start-at seq status addr rest h)
      (after_start_refused body status addr (start seq status addr) rest ne)

-- A response on success: its start and its body.
abbrev pub answered : {A : Type 0} → ℕ → A → Answer A
answered addr a = record { addr = addr; value = some a; status = status_success; failure = none }

-- The words of a list, one after the other.
abbrev pub words : List ℕ → Bytes
words [] = []
words (w ∷ ws) = le16 w ++ words ws

read_list-bytes :
    (xs before rest : Bytes)
    → read_list u8 (length xs) (at before (xs ++ rest)) ≡ (xs, at (before ++ xs) rest)
unfolding read_list
read_list-bytes [] before rest = rw append-nil refl
read_list-bytes (x ∷ xs) before rest =
    rw
      (
        u8-at before x (xs ++ rest),
        read_list-bytes xs (before ++ x ∷ []) rest,
        append_assoc before (x ∷ []) xs,
      )
      refl

read_list-words :
    (ws : List ℕ) (before rest : Bytes)
    → All IsWord ws
    → read_list u16 (length ws) (at before (words ws ++ rest)) ≡ (ws, at (before ++ words ws) rest)
unfolding read_list
read_list-words [] before rest h = rw append-nil refl
read_list-words (w ∷ ws) before rest h =
    rw
      (
        u16-le16 before w (words ws ++ rest) h.0,
        read_list-words ws (before ++ le16 w) rest h.1,
        append_assoc before (le16 w) (words ws),
      )
      refl

-- From a successful active endpoint response for an address of 16 bits, which lists as many
-- endpoints as it announces, the parser returns them in order, whatever follows.
pub parse_active_endpoints_lem :
    (seq addr : ℕ) (endpoints trailing : Bytes)
    → IsWord addr
    → parse_active_endpoints
        (start seq status_success addr ++ (length endpoints ∷ (endpoints ++ trailing)))
      ≡ answered addr endpoints
unfolding parse_active_endpoints
parse_active_endpoints_lem seq addr endpoints trailing h =
    parse_ok read_endpoints seq addr _
      ((start seq status_success addr ++ length endpoints ∷ []) ++ endpoints) trailing endpoints h
      (unfold read_endpoints in rw (u8-at, read_list-bytes endpoints _ trailing) refl)

abbrev pub simple_body : ℕ → SimpleDescriptor → Bytes → Bytes
simple_body size d trailing =
    size
    ∷ d.endpoint
    ∷ (le16 d.profile
        ++ (le16 d.device
            ++ (d.version
                ∷ length d.input
                ∷ (words d.input ++ (length d.output ∷ (words d.output ++ trailing))))))

version_bits : (v : ℕ) → v < 16 → bit_and v 0x0F ≡ v
version_bits v h = bit_and_mask 4 16 v (omega arith) ∙ omega arith

-- From a successful response for an address of 16 bits, a simple descriptor whose version has four
-- bits and whose profile, device and clusters have 16 is read back, with its cluster lists in
-- order, whatever length byte it carries and whatever follows.
pub parse_simple_descriptor_lem :
    (seq addr size : ℕ) (d : SimpleDescriptor) (trailing : Bytes)
    → IsWord addr
    → IsWord d.profile
    → IsWord d.device
    → d.version < 16
    → All IsWord d.input
    → All IsWord d.output
    → parse_simple_descriptor (start seq status_success addr ++ simple_body size d trailing)
      ≡ answered addr d
unfolding parse_simple_descriptor
parse_simple_descriptor_lem seq addr size d trailing h hp hd hv hi ho =
    parse_ok read_simple_descriptor seq addr _
      ((((((((start seq status_success addr ++ size ∷ []) ++ d.endpoint ∷ []) ++ le16 d.profile)
                ++ le16 d.device)
              ++ d.version ∷ [])
            ++ length d.input ∷ [])
          ++ words d.input)
        ++ (length d.output ∷ [])
        ++ words d.output)
      trailing d h
      (unfold read_simple_descriptor in
        rw
          (
            u8-at,
            u8-at,
            u16-le16 _ d.profile _ hp,
            u16-le16 _ d.device _ hd,
            u8-at,
            u8-at,
            read_list-words d.input _ _ hi,
            u8-at,
            read_list-words d.output _ trailing ho,
            version_bits d.version hv,
          )
          refl)
