-- ===== src/Examples/Setup.antt =====
-- internal/ezsp/config.go and policy.go at concrete inputs.
use gzb.Base.{ℕ, ◌≡◌, refl, List, [], ◌∷◌, ◌==◌, if◌then◌else◌, Bytes}
use gzb.Base.Result.{ok, err}
use gzb.Cursor.{guarded, need, u8, u16}
use gzb.Ezsp.Setup.{
  apply_configuration, configure_all, configure, set_configuration_value, get_configuration_value,
  required_config, set_policy, get_policy, offer_key, verify_policy, allow_joins,
  add_transient_link_key, add_endpoint, default_endpoint, add_endpoint_id, register_endpoints,
  set_up,
}
use gzb.Ezsp.Setup.Secured.{AreHeld, apply_configuration-AreHeld, register_endpoints-refused}
use gzb.Ezsp.Talk.{Command, Ncp, refused, command, call, ask, order}

-- The status of a write: the stack profile is not taken.
abbrev refusing : Bytes → ℕ
refusing [] = 0
refusing (id ∷ value) = if id == 0x0C then 0x36 else 0

-- An adapter whose stack profile is fixed to 2, and which refuses transient keys.
abbrev stubborn : Ncp
stubborn sent c =
    if c.id == 0x0053
    then ok (refusing c.params ∷ [])
    else if c.id == 0x0052
    then ok (0 ∷ 2 ∷ 0 ∷ [])
    else if c.id == 0x0056
    then ok (0 ∷ 3 ∷ [])
    else if c.id == 0x00AF
    then ok (0xB5 ∷ [])
    else ok (0 ∷ [])

abbrev configured : List Command
configured = (apply_configuration stubborn []).1

configured_run : apply_configuration stubborn [] ≡ (ok tt, configured)
unfolding apply_configuration configure_all configure set_configuration_value
    get_configuration_value ask order call command u8 u16 guarded need
configured_run = refl

apply_configuration-AreHeld_example : AreHeld stubborn required_config [] configured
apply_configuration-AreHeld_example =
    apply_configuration-AreHeld stubborn [] configured configured_run

abbrev allowed : List Command
allowed = (allow_joins stubborn []).1

allowed_run : allow_joins stubborn [] ≡ (ok tt, allowed)
unfolding allow_joins verify_policy offer_key set_policy get_policy add_transient_link_key ask order
    call command u8 guarded need
allowed_run = refl

-- An adapter that has the endpoint already, and takes all else.
abbrev restarted : Ncp
restarted sent c = if c.id == 0x0002 then ok (0x35 ∷ []) else ok (0 ∷ [])

abbrev restarted_configured : List Command
restarted_configured = (apply_configuration restarted []).1

restarted_run : apply_configuration restarted [] ≡ (ok tt, restarted_configured)
unfolding apply_configuration configure_all configure set_configuration_value
    get_configuration_value ask order call command u8 u16 guarded need
restarted_run = refl

restarted_refuses :
    (add_endpoint default_endpoint restarted restarted_configured).0
    ≡ err (refused add_endpoint_id 0x35)
unfolding add_endpoint order ask call command u8 guarded need
restarted_refuses = refl

register_endpoints-refused_example :
    ((register_endpoints restarted restarted_configured).0 ≡ err (refused add_endpoint_id 0x35))
    × ((set_up restarted []).0 ≡ err (refused add_endpoint_id 0x35))
register_endpoints-refused_example =
    register_endpoints-refused restarted [] restarted_configured (refused add_endpoint_id 0x35)
      restarted_run restarted_refuses
