-- ===== src/Ezsp/Setup/Secured.antt =====
-- internal/ezsp/config.go and policy.go: what success says of the configuration and of the policies.
use gzb.Base.{
  ℕ, ◌≡◌, ◌⊎◌, inl, inr, ap, ap₂, ◌∙◌, true, false, not, List, [], ◌∷◌, arith, ◌==◌, ==_iff,
  bit_and,
}
use gzb.Base.Result.{Result, ok, err}
use gzb.Ezsp.Network.{alliance_key}
use gzb.Ezsp.Commands.{network_state}
use gzb.Ezsp.Setup.{
  set_configuration_value, get_configuration_value, configure, configure_all, required_config,
  apply_configuration, add_endpoint, default_endpoint, register_endpoints, set_up, restore_network,
  set_policy, get_policy, add_transient_link_key, verify_policy, offer_key, allow_joins,
  broadcast_eui64,
}
use gzb.Ezsp.Talk.{
  Talk, after, handled, kept, lift, Command, Ncp, Failure, fixed, ineffective, demand, best_effort,
  ◌>>=◌, ◌>>◌,
}
use gzb.Ezsp.Talk.Trace.{after-ok, handled-ok, demand-ok}

-- A value that the adapter took, or that it refused because it has it already.
abbrev pub IsHeld : Ncp → ℕ × ℕ → List Command → List Command → Type 0
IsHeld ncp w sent mid =
    (set_configuration_value w.0 w.1 ncp sent ≡ (ok tt, mid))
    ⊎ (get_configuration_value w.0 ncp (set_configuration_value w.0 w.1 ncp sent).1 ≡ (ok w.1, mid))

abbrev pub AreHeld : Ncp → List (ℕ × ℕ) → List Command → List Command → Type 0
AreHeld ncp [] sent out = sent ≡ out
AreHeld ncp (w ∷ ws) sent out =
    (mid : List Command) × IsHeld ncp w sent mid × AreHeld ncp ws mid out

configure-IsHeld :
    (ncp : Ncp) (w : ℕ × ℕ) (sent mid : List Command)
    → configure w.0 w.1 ncp sent ≡ (ok tt, mid)
    → IsHeld ncp w sent mid
unfolding configure
configure-IsHeld ncp w sent mid e =
    elim (handled-ok ncp
      (λ (e : Failure). get_configuration_value w.0 >>= λ got. demand (got == w.1) (fixed w.0 got))
      (set_configuration_value w.0 w.1 ncp sent) e) [
        | inl took ↦ inl took
        | inr (x, refused, h) ↦
            let (got, read, last) =
              after-ok ncp (λ got. demand (got == w.1) (fixed w.0 got))
                (get_configuration_value w.0 ncp (set_configuration_value w.0 w.1 ncp sent).1) h in
            let same : got ≡ w.1 =
              (==_iff got w.1).0 (demand-ok (got == w.1) (fixed w.0 got) (ap (λ t. t.0) last)) in
            inr (
              ap₂ (λ (a : Result Failure ℕ) (b : List Command). (a, b)) (read ∙ ap ok same)
                (ap (λ t. t.1) last))
      ]

configure_all-AreHeld :
    (ncp : Ncp) (ws : List (ℕ × ℕ)) (sent out : List Command)
    → configure_all ws ncp sent ≡ (ok tt, out)
    → AreHeld ncp ws sent out
unfolding configure_all
configure_all-AreHeld ncp [] sent out e = ap (λ t. t.1) e
configure_all-AreHeld ncp (w ∷ ws) sent out e =
    let (t, done, rest) = after-ok ncp (λ _. configure_all ws) (configure w.0 w.1 ncp sent) e in
    (
      (configure w.0 w.1 ncp sent).1,
      configure-IsHeld ncp w sent _ (ap (λ t. (t, (configure w.0 w.1 ncp sent).1)) done),
      configure_all-AreHeld ncp ws _ out rest,
    )

-- Whenever `applyConfiguration` succeeds, each of the three required values, in turn, was taken by the
-- adapter, or was refused and then read back as exactly the required value.
pub apply_configuration-AreHeld :
    (ncp : Ncp) (sent out : List Command)
    → apply_configuration ncp sent ≡ (ok tt, out)
    → AreHeld ncp required_config sent out
unfolding apply_configuration
apply_configuration-AreHeld ncp sent out e = configure_all-AreHeld ncp required_config sent out e

offer_key-ok :
    (ncp : Ncp) (got : ℕ) (sent out : List Command)
    → offer_key got ncp sent ≡ (ok tt, out)
    → (bit_and got 0x01 == 0) ≡ false
unfolding offer_key
offer_key-ok ncp got sent out e =
    let (_, allowed, rest) =
      after-ok ncp (λ _. best_effort tt (add_transient_link_key broadcast_eui64 alliance_key))
        (demand (not (bit_and got 0x01 == 0)) ineffective ncp sent) e in
    let held : not (bit_and got 0x01 == 0) ≡ true = demand-ok _ ineffective allowed in ground arith

-- Whenever `AllowJoins` succeeds, both policies were taken, and the trust centre's policy was read back
-- with the bit that allows joins.
pub allow_joins-ok :
    (ncp : Ncp) (sent out : List Command)
    → allow_joins ncp sent ≡ (ok tt, out)
    → (s1 : List Command) × (s2 : List Command) × (s3 : List Command) × (got : ℕ) × (set_policy 0x00
          0x03 ncp sent
        ≡ (ok tt, s1))
      × (set_policy 0x05 0x51 ncp s1 ≡ (ok tt, s2))
      × (get_policy 0x00 ncp s2 ≡ (ok got, s3))
      × ((bit_and got 0x01 == 0) ≡ false)
unfolding allow_joins verify_policy
allow_joins-ok ncp sent out e =
    let (_, h1, e1) =
      after-ok ncp (λ _. set_policy 0x05 0x51 >> verify_policy) (set_policy 0x00 0x03 ncp sent) e in
    let s1 = (set_policy 0x00 0x03 ncp sent).1 in
    let (_, h2, e2) = after-ok ncp (λ _. verify_policy) (set_policy 0x05 0x51 ncp s1) e1 in
    let s2 = (set_policy 0x05 0x51 ncp s1).1 in
    let (got, h3, e3) = after-ok ncp offer_key (get_policy 0x00 ncp s2) e2 in
    let s3 = (get_policy 0x00 ncp s2).1 in
    (
      s1,
      s2,
      s3,
      got,
      ap (λ t. (t, s1)) h1,
      ap (λ t. (t, s2)) h2,
      ap (λ t. (t, s3)) h3,
      offer_key-ok ncp got s3 out e3,
    )

-- What is asked for only to word an error changes nothing of the error.
worded :
    {A : Type 0} (ncp : Ncp) (x e : Failure) (asked : Result Failure ℕ) (sent : List Command)
    → x ≡ e
    → (after (λ _. lift {A = A} (err x)) ncp (kept 0 asked, sent)).0 ≡ err e
worded ncp x e (ok state) sent same = ap err same
worded ncp x e (err other) sent same = ap err same

refused_handled :
    {A : Type 0} (ncp : Ncp) (e : Failure) (r : Result Failure A × List Command)
    → r.0 ≡ err e
    → (handled (λ e. best_effort 0 network_state >> lift (err e)) ncp r).0 ≡ err e
refused_handled ncp e (ok a, sent) h = cc
refused_handled ncp e (err x, sent) h =
    worded ncp x e (network_state ncp sent).0 (network_state ncp sent).1 cc

after-err :
    {A B : Type 0} (ncp : Ncp) (next : A → Talk B) (e : Failure)
    (r : Result Failure A × List Command)
    → r.0 ≡ err e
    → (after next ncp r).0 ≡ err e
after-err ncp next e (ok a, sent) h = cc
after-err ncp next e (err x, sent) h = cc

-- A refused registration of the endpoint, for whatever reason, fails `registerEndpoints` with the
-- same error, and so does it `Open` behind the handshake once the configuration was applied.
pub register_endpoints-refused :
    (ncp : Ncp) (sent mid : List Command) (e : Failure)
    → apply_configuration ncp sent ≡ (ok tt, mid)
    → (add_endpoint default_endpoint ncp mid).0 ≡ err e
    → ((register_endpoints ncp mid).0 ≡ err e) × ((set_up ncp sent).0 ≡ err e)
unfolding register_endpoints set_up
register_endpoints-refused ncp sent mid e done refused =
    let failed : (register_endpoints ncp mid).0 ≡ err e =
      refused_handled ncp e (add_endpoint default_endpoint ncp mid) refused in
    (
      failed,
      ap (λ t. (after (λ _. register_endpoints >> restore_network) ncp t).0) done
          ∙ after-err ncp (λ _. restore_network) e (register_endpoints ncp mid) failed,
    )
