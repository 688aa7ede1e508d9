-- ===== src/Ezsp/Talk.antt =====
-- internal/ezsp: a conversation with the adapter, one `Conn.command` after the other. The adapter is
-- a function from the commands that it was sent before and the next one to what `command` returns
-- for it; the commands sent are kept in their order.
pub mod Trace
pub mod Ensures
use gzb.Base.{ℕ, Bool, true, false, none, some, List, [], ◌∷◌, ◌++◌, ◌==◌, if◌then◌else◌, Bytes}
use gzb.Base.Result.{Result, ok, err}
use gzb.Cursor.{ReadError, Cursor, Reader, new_buf, u8}
use gzb.Ezsp.Conn.{CommandError}

pub record Command : Type 0 where
  pub id : ℕ
  pub params : Bytes

abbrev pub Ncp : Type 0
Ncp = List Command → Command → Result CommandError Bytes

-- What ends an operation: the command, the reading of its reply, the status it was refused with, or a
-- test of the code's own.
pub data Failure : Type 0 where
  commanding : CommandError → Failure
  reading : ReadError → Failure
  refused : ℕ → ℕ → Failure
  out_of_range on_network unnamed unsuitable no_random unusable ineffective oversized : Failure
  sl_status : ℕ → Failure
  fixed : ℕ → ℕ → Failure
  empty_reply not_up : Failure

abbrev pub Talk : Type 0 → Type 0
Talk A = Ncp → List Command → Result Failure A × List Command

abbrev pub after :
    {A B : Type 0}
    → (A → Talk B)
    → Ncp
    → Result Failure A × List Command
    → Result Failure B × List Command
after f ncp (ok a, sent) = f a ncp sent
after f ncp (err e, sent) = (err e, sent)

infixl 5 ◌>>=◌ ◌>>◌
abbrev pub ◌>>=◌ : {A B : Type 0} → Talk A → (A → Talk B) → Talk B
◌>>=◌ m f ncp sent = after f ncp (m ncp sent)

abbrev pub ◌>>◌ : {A B : Type 0} → Talk A → Talk B → Talk B
m >> k = m >>= λ _. k

abbrev pub lift : {A : Type 0} → Result Failure A → Talk A
lift r ncp sent = (r, sent)

abbrev pub give : {A : Type 0} → A → Talk A
give a = lift (ok a)

-- `if !c { return err }`
abbrev pub demand : Bool → Failure → Talk (Unit {0})
demand c e = lift (if c then ok tt else err e)

-- A call whose error is dropped: `v, _ := call`.
abbrev pub kept : {A : Type 0} → A → Result Failure A → Result Failure A
kept otherwise (ok a) = ok a
kept otherwise (err e) = ok otherwise

abbrev pub best_effort : {A : Type 0} → A → Talk A → Talk A
best_effort otherwise m ncp sent = let (r, sent') = m ncp sent in (kept otherwise r, sent')

-- `if err := m; err != nil { return handle(err) }`
abbrev pub handled :
    {A : Type 0}
    → (Failure → Talk A)
    → Ncp
    → Result Failure A × List Command
    → Result Failure A × List Command
handled h ncp (ok a, sent) = (ok a, sent)
handled h ncp (err e, sent) = h e ncp sent

abbrev pub recover : {A : Type 0} → Talk A → (Failure → Talk A) → Talk A
recover m h ncp sent = handled h ncp (m ncp sent)

abbrev pub replied : Result CommandError Bytes → Result Failure Bytes
replied (ok params) = ok params
replied (err e) = err (commanding e)

unfoldable pub command : ℕ → Bytes → Talk Bytes
command id params ncp sent =
    let c : Command = record { id = id; params = params } in (replied (ncp sent c), sent ++ c ∷ [])

-- The reads of a reply, with `if r.err != nil`.
abbrev pub whole : {A : Type 0} → A × Cursor → Result Failure A
whole (a, c) = elim c.failure [ none ↦ ok a | some e ↦ err (reading e) ]

-- A command, and what its reply is read as.
unfoldable pub call : {A : Type 0} → ℕ → Bytes → (Bytes → Result Failure A) → Talk A
call id params parse = do reply ← command id params; lift (parse reply)

unfoldable pub ask : {A : Type 0} → ℕ → Bytes → Reader A → Talk A
ask id params read = call id params (λ reply. whole (read (new_buf reply)))

-- A command that answers with a status alone: `status := EmberStatus(r.u8())`, then `r.err`, then
-- `!status.OK()`.
unfoldable pub order : ℕ → Bytes → Talk (Unit {0})
order id params = do status ← ask id params u8; demand (status == 0) (refused id status)
