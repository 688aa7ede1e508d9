-- ===== src/Ezsp/Conn/Exchange.antt =====
-- internal/ezsp/conn.go: what a command and the version handshake come to.
use gzb.Base.{
  ℕ, ◌%◌, ◌≡◌, ◌⊎◌, refl, sym, ap, ◌∙◌, arith, true, false, some, List, [], ◌∷◌, ◌++◌, ◌==◌, ==_iff,
  if◌then◌else◌, Bool-cases, inl, inr, Bytes, All,
}
use gzb.Base.Result.{Result, ok, bind-eq-ok}
use gzb.Ezsp.Protocol.{Message, legacy_version}
use gzb.Ezsp.Conn.{
  Conn, CommandError, matches_response, Wake, replied, read_done, deadline, ctx_done,
  await_response, record_version, version_exchange, confirm, negotiate,
}

-- A reply to another command, which is passed over.
abbrev pub IsStale : ℕ → ℕ → Wake → Type 0
IsStale seq id (replied m) = matches_response m seq id ≡ false
IsStale seq id _ = ⊥

abbrev pub Answered : ℕ → ℕ → List Wake → Bytes → Type 0
Answered seq id ws params =
    (stale : List Wake) × (m : Message) × (later : List Wake) × (ws ≡ stale ++ replied m ∷ later)
    × All (IsStale seq id) stale
    × ((m.callback ≡ false) × (m.sequence ≡ seq) × (m.id ≡ id) × (m.params ≡ params))

skip_stale :
    (seq id : ℕ) (w : Wake) (ws : List Wake) (params : Bytes)
    → IsStale seq id w
    → Answered seq id ws params
    → Answered seq id (w ∷ ws) params
skip_stale seq id w ws params s (stale, m, later, e, all, fits) =
    (w ∷ stale, m, later, ap (◌∷◌ w) e, (s, all), fits)

replied-Answered :
    (seq id : ℕ) (m : Message) (ws : List Wake) (params : Bytes)
    → matches_response m seq id ≡ true
    → m.params ≡ params
    → Answered seq id (replied m ∷ ws) params
unfolding matches_response
replied-Answered seq id m ws params e f =
    ([], m, ws, refl, tt, (ground arith, ground arith, ground arith, f))

await_found :
    (seq id : ℕ) (m : Message) (ws : List Wake) (params : Bytes)
    → matches_response m seq id ≡ true
    → await_response seq id (replied m ∷ ws) ≡ some (ok params)
    → m.params ≡ params
unfolding await_response
await_found seq id m ws params e h = ground arith

await_passed :
    (seq id : ℕ) (m : Message) (ws : List Wake) (params : Bytes)
    → matches_response m seq id ≡ false
    → await_response seq id (replied m ∷ ws) ≡ some (ok params)
    → await_response seq id ws ≡ some (ok params)
unfolding await_response
await_passed seq id m ws params e h = ground arith

-- Whenever `command` succeeds, its result is the parameters of the first message that is a reply, not
-- a callback, with the sequence number and the frame ID of the command; what came before it were
-- replies to other commands.
pub await_response-Answered :
    (seq id : ℕ) (ws : List Wake) (params : Bytes)
    → await_response seq id ws ≡ some (ok params)
    → Answered seq id ws params
await_response-Answered seq id [] params e = unfold await_response in cc
await_response-Answered seq id (replied m ∷ ws) params e =
    elim (Bool-cases (matches_response m seq id)) [
      | inl same ↦ replied-Answered seq id m ws params same (await_found seq id m ws params same e)
      | inr other ↦
          skip_stale seq id (replied m) ws params other
            (await_response-Answered seq id ws params (await_passed seq id m ws params other e))
    ]
await_response-Answered seq id (read_done ∷ ws) params e = unfold await_response in cc
await_response-Answered seq id (deadline ∷ ws) params e = unfold await_response in cc
await_response-Answered seq id (ctx_done ∷ ws) params e = unfold await_response in cc

record_version-version :
    (c : Conn) (params : Bytes) {c' : Conn} {got : ℕ}
    → record_version c params ≡ ok (c', got)
    → c'.version ≡ c.version
unfolding record_version
record_version-version c params {c'} {got} e = ground arith

exchange-version :
    (answer : ℕ → Bytes → Result CommandError Bytes) (c : Conn) (desired : ℕ) {c' : Conn} {got : ℕ}
    → version_exchange answer c desired ≡ ok (c', got)
    → c'.version ≡ c.version
unfolding version_exchange
exchange-version answer c desired e =
    let (params, _, recorded) = bind-eq-ok (answer c.version (desired % 256 ∷ [])) _ e in
    record_version-version c params recorded

module _ (first c' : Conn) (got : ℕ) (answer : ℕ → Bytes → Result CommandError Bytes) where
  unchanged :
      (got == legacy_version) ≡ true
      → (if got == legacy_version then ok first else confirm answer first got) ≡ ok c'
      → first ≡ c'
  unchanged old e = ground arith

  confirmed_again :
      (got == legacy_version) ≡ false
      → (if got == legacy_version then ok first else confirm answer first got) ≡ ok c'
      → version_exchange answer (record first { version = got }) got ≡ ok (c', got)
  unfolding confirm
  confirmed_again new e = ground arith

-- Whenever the handshake from the legacy version succeeds, the adapter offered a version in its
-- first answer and that is the version in force: either it is the legacy version, or a second
-- exchange, in the layout of the offered version, offered the same again.
pub negotiate_agrees :
    (answer : ℕ → Bytes → Result CommandError Bytes) (c c' : Conn)
    → c.version ≡ legacy_version
    → negotiate answer c ≡ ok c'
    → (first : Conn) × (got : ℕ) × (version_exchange answer c legacy_version ≡ ok (first, got))
      × (c'.version ≡ got)
      × ((got ≡ legacy_version)
          ⊎ (version_exchange answer (record first { version = got }) got ≡ ok (c', got)))
unfolding negotiate
negotiate_agrees answer c c' v e =
    let ((first, got), offered, rest) = bind-eq-ok (version_exchange answer c legacy_version) _ e in
    elim (Bool-cases (got == legacy_version)) [
      | inl old ↦
          let same : first ≡ c' = unchanged first c' got answer old rest in
          (
            first,
            got,
            offered,
            sym (ap (λ (x : Conn). x.version) same)
                ∙ exchange-version answer c legacy_version offered
                ∙ v
                ∙ sym ((==_iff got legacy_version).0 old),
            inl ((==_iff got legacy_version).0 old),
          )
      | inr new ↦
          let again : version_exchange answer (record first { version = got }) got ≡ ok (c', got) =
            confirmed_again first c' got answer new rest in
          (
            first,
            got,
            offered,
            exchange-version answer (record first { version = got }) got again,
            inr again,
          )
    ]
