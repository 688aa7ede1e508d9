-- ===== src/Ezsp/Network/Guard.antt =====
-- internal/ezsp/network.go: what `FormNetwork` and `JoinNetwork` check first, and what they read back.
use gzb.Base.{
  ℕ, ◌≡◌, ◌≢◌, refl, ap, ap₂, ◌∙◌, Bool, true, false, not, ◌≤◌, arith, List, [], ◌∷◌, ◌++◌,
  if◌then◌else◌,
}
use gzb.Base.Result.{ok, err}
use gzb.Ezsp.Commands.{
  get_network_state, get_network_parameters, get_node_id, get_eui64, network_state, joined,
  network_parameters, node_id, eui64,
}
use gzb.Ezsp.Network.{
  no_address, FormationConfig, Randoms, UpWake, off_network, read_back, form_network,
  zigbee_channel,
}
use gzb.Ezsp.Talk.{Command, Ncp, Talk, Failure, on_network, demand, ◌>>◌}
use gzb.Ezsp.Talk.Ensures.{
  Ensures, Ensures-call, Ensures-ask, Ensures-best_effort_ask, Ensures-last_demand, Ensures-give,
}
use gzb.Ezsp.Talk.Trace.{as_command, after-ok, after-quiet, after-of_ok, ask-sent}

module _ (ncp : Ncp) (sent : List Command) where
  off_network-sent : (off_network ncp sent).1 ≡ sent ++ as_command get_network_state [] ∷ []
  unfolding off_network network_state
  off_network-sent =
      after-quiet ncp (λ state. demand (not (joined state)) on_network) (λ a s. refl)
        (network_state ncp sent)
      ∙ ask-sent get_network_state [] ncp sent _

  -- An adapter that says that it is on a network.
  pub off_network-refused :
      (state : ℕ)
      → (network_state ncp sent).0 ≡ ok state
      → joined state ≡ true
      → off_network ncp sent ≡ (err on_network, sent ++ as_command get_network_state [] ∷ [])
  unfolding off_network network_state
  off_network-refused state e j =
      after-of_ok ncp (λ state. demand (not (joined state)) on_network) (network_state ncp sent) e
      ∙ ap₂ (λ (c : Bool) (s : List Command). ((if c then ok tt else err on_network), s)) (ap not j)
          (ask-sent get_network_state [] ncp sent _)

  -- `FormNetwork` on a channel of Zigbee's, while the adapter answers that it is on a network: the
  -- question is the only command sent, and the formation fails.
  pub form_network-refused :
      (cfg : FormationConfig) (rnd : Randoms) (ups : List UpWake) (state : ℕ)
      → zigbee_channel cfg.channel ≡ true
      → (network_state ncp sent).0 ≡ ok state
      → joined state ≡ true
      → form_network cfg rnd ups ncp sent
        ≡ (err on_network, sent ++ as_command get_network_state [] ∷ [])
  unfolding form_network
  form_network-refused cfg rnd ups state channel e j =
      rw (channel, off_network-refused state e j) refl

pub read_back-Ensures :
    (ncp : Ncp)
    → Ensures ncp read_back (λ x cmds.
      cmds
      ≡ as_command get_network_parameters []
        ∷ as_command get_node_id []
        ∷ as_command get_eui64 []
        ∷ [])
unfolding read_back network_parameters node_id eui64
read_back-Ensures ncp = Ensures-call ncp get_network_parameters [] _ _ (λ (node_type, np).
    Ensures-best_effort_ask ncp 0 get_node_id [] _ _ (λ node.
      Ensures-best_effort_ask ncp no_address get_eui64 [] _ _
        (λ addr. Ensures-give ncp (node_type, np, node, addr) refl)))

pub off_network-Ensures :
    (ncp : Ncp) → Ensures ncp off_network (λ _ cmds. cmds ≡ as_command get_network_state [] ∷ [])
unfolding off_network network_state
off_network-Ensures ncp =
    Ensures-ask ncp get_network_state [] _ _
      (λ state. Ensures-last_demand ncp (not (joined state)) on_network (λ off. refl))

-- The adapter says, behind the commands sent before, that it is not joined, with or without a parent.
abbrev pub IsOffNetwork : Ncp → List Command → Type 0
IsOffNetwork ncp sent =
    (state : ℕ) × ((network_state ncp sent).0 ≡ ok state) × (state ≢ 0x02) × (state ≢ 0x03)

-- What succeeds only off a network.
pub record StartsOff {B : Type 0} (ncp : Ncp) (m : Talk B) : Type 0 where
  pub holds :
      (sent : List Command) (b : B) (out : List Command)
      → m ncp sent ≡ (ok b, out)
      → IsOffNetwork ncp sent

pub demand-StartsOff :
    {B : Type 0} (ncp : Ncp) (c : Bool) (x : Failure) (k : Talk B)
    → StartsOff ncp k
    → StartsOff ncp (demand c x >> k)
demand-StartsOff ncp true x k h = record { holds = h.holds }
demand-StartsOff ncp false x k h = record { holds = λ sent b out e. absurd cc }

demanded :
    (c : Bool) (x : Failure) (ncp : Ncp) (sent : List Command) {t : Unit {0}} {out : List Command}
    → demand (not c) x ncp sent ≡ (ok t, out)
    → c ≡ false
demanded false x ncp sent h = refl
demanded true x ncp sent h = absurd cc

pub off_network-StartsOff : {B : Type 0} (ncp : Ncp) (k : Talk B) → StartsOff ncp (off_network >> k)
unfolding off_network
off_network-StartsOff ncp k = record {
  holds = λ sent b out h.
      let (t, passed, _) = after-ok ncp (λ _. k) (off_network ncp sent) h in
      let (state, got, off) =
        after-ok ncp (λ state. demand (not (joined state)) on_network) (network_state ncp sent)
          (ap (λ u. (u, (off_network ncp sent).1)) passed) in
      let away : joined state ≡ false = demanded (joined state) on_network ncp _ off in
      (state, got, (λ e. ground (arith, away, e)), (λ e. ground (arith, away, e)));
}

pub channel-low : (ch : ℕ) → zigbee_channel ch ≡ true → 11 ≤ ch
unfolding zigbee_channel
channel-low ch h = ground arith

pub channel-high : (ch : ℕ) → zigbee_channel ch ≡ true → ch ≤ 26
unfolding zigbee_channel
channel-high ch h = ground arith
