-- ===== src/Examples/Ezsp.antt =====
-- internal/ezsp at concrete inputs.
use gzb.Base.{ℕ, ◌≡◌, ◌⊎◌, refl, false, none, [], ◌∷◌, Bytes}
use gzb.Base.Result.{Result, ok}
use gzb.Cursor.{u8, u16, guarded}
use gzb.Ezsp.Protocol.{Message, legacy_version}
use gzb.Ezsp.Conn.{
  Conn, CommandError, replied, deadline, await_response, version_exchange, record_version, confirm,
  negotiate,
}
use gzb.Ezsp.Conn.Exchange.{Answered, await_response-Answered, negotiate_agrees}

abbrev answering : Message
answering = record { sequence = 4; id = 0x0018; callback = false; params = 2 ∷ [] }

abbrev fresh : Conn
fresh = record {
  version = 4;
  seq = 0;
  pending = none;
  subs = [];
  next_sub = 0;
  closed = false;
  stack_ver = 0;
  stack_typ = 0;
  decode_errors = 0;
  dropped_subscription = 0;
}

-- An adapter that speaks version 13.
abbrev thirteen : ℕ → Bytes → Result CommandError Bytes
thirteen _ _ = ok (13 ∷ 2 ∷ 0x40 ∷ 0x74 ∷ [])

abbrev met : Conn
met = record fresh { version = 13; stack_ver = 0x7440; stack_typ = 2 }

await_response-Answered_example :
    Answered 4 0x0018
      (replied (record answering { sequence = 3 }) ∷ replied answering ∷ deadline ∷ [])
      (2 ∷ [])
unfolding await_response
await_response-Answered_example =
    await_response-Answered 4 0x0018
      (replied (record answering { sequence = 3 }) ∷ replied answering ∷ deadline ∷ []) (2 ∷ [])
      refl

negotiate_agrees_example :
    (first : Conn) × (got : ℕ) × (version_exchange thirteen fresh legacy_version ≡ ok (first, got))
    × (met.version ≡ got)
    × ((got ≡ legacy_version)
        ⊎ (version_exchange thirteen (record first { version = got }) got ≡ ok (met, got)))
unfolding negotiate version_exchange record_version u16 guarded u8 confirm
negotiate_agrees_example = negotiate_agrees thirteen fresh met refl refl
