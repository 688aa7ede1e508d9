-- ===== src/Zigbee/Interview.antt =====
-- zigbee/interview.go: `Interview`. The registry is the one of Store; what the questions get for an answer
-- and what `Save` returns are arguments. The steps that are reported to the caller are kept.
pub mod Steps
pub mod Answers
use gzb.Base.{
  ℕ, ◌+◌, Bool, true, false, not, ◌&&◌, ◌||◌, Option, none, some, List, [], ◌∷◌, ◌++◌, ◌==◌,
  if◌then◌else◌, Bytes, map,
}
use gzb.Base.Result.{Result, ok, err}
use gzb.Base.Strings.{same}
use gzb.Ezsp.Commands.{joined}
use gzb.Ezsp.Talk.{Failure}
use gzb.Ezsp.Send.{RequestError}
use gzb.Store
use gzb.Store.{
  Device, Entry, Store, is_empty, never, get, put, by_node_id, describe, identified, peer_of_model,
  lists_cluster, has_cluster,
}
use gzb.Zigbee.Description.{
  Description, Problem, asking, new_description, cluster_basic, basic_endpoint, inherit_from_peer,
  record_interview,
}
use gzb.Zigbee.Query.{
  QueryError, NodeDescriptor, PowerDescriptor, Endpoint, node_descriptor, power_descriptor,
  active_endpoints, simple_descriptor, is_mains, is_sleepy,
}

-- An attribute that was read: its number, and its value if that is a string.
pub record Value : Type 0 where
  pub id : ℕ
  pub value : Option Bytes

-- The switch of `readBasic`.
abbrev stored : ℕ → Option Bytes → Bytes × Bytes → Bytes × Bytes
stored id none names = names
stored id (some t) (manufacturer, model) =
    if id == 0x0004
    then (t, model)
    else if id == 0x0005
    then (manufacturer, t)
    else (manufacturer, model)

-- The loop of `readBasic`: the manufacturer and the model.
unfoldable pub read_basic : Bytes × Bytes → List Value → Bytes × Bytes
read_basic names [] = names
read_basic names (v ∷ vs) = read_basic (stored v.id v.value names) vs

-- What the questions of an interview get: the guess and the second reading of the Basic cluster, by
-- endpoint; the ZDO replies; and for an endpoint the reply by its place in the list.
pub record DeviceAnswers : Type 0 where
  pub basic : ℕ → Result QueryError (List Value)
  pub node : Result RequestError Bytes
  pub power : Result RequestError Bytes
  pub active : Result RequestError Bytes
  pub simple : ℕ → ℕ → Result RequestError Bytes
  pub basic_again : ℕ → Result QueryError (List Value)
  pub save : Option ℕ

-- The steps that `Progress` is called with.
pub data Step : Type 0 where
  manufacturer_and_model node_step power_step active_step : Step
  endpoint_step : ℕ → Step

-- `endpointWithCluster`
unfoldable pub endpoint_with_cluster : List Endpoint → ℕ → Option ℕ
endpoint_with_cluster [] cluster = none
endpoint_with_cluster (ep ∷ eps) cluster =
    let rest = endpoint_with_cluster eps cluster in
    if lists_cluster ep.input cluster then some ep.id else rest

-- A step: its answer is taken over, or its error is a problem.
abbrev pub taken :
    {A : Type 0} → Result QueryError A → (A → Description → Description) → Description → Description
taken (ok a) take desc = take a desc
taken (err e) take desc = record desc { problems = desc.problems ++ asking e ∷ [] }

abbrev pub listed : Result QueryError (List ℕ) → List ℕ
listed (ok eps) = eps
listed (err e) = []

abbrev pub with_endpoint : Result QueryError Endpoint → Description → Description
with_endpoint r desc = taken r (λ sd d. record d { endpoints = d.endpoints ++ sd ∷ [] }) desc

-- The loop over the endpoints, from the place `i` on.
unfoldable pub ask_endpoints :
    (ℕ → ℕ → Result RequestError Bytes) → ℕ → List ℕ → Description → Description
ask_endpoints simple i [] desc = desc
ask_endpoints simple i (ep ∷ eps) desc =
    ask_endpoints simple (i + 1) eps (with_endpoint (simple_descriptor (simple i ep)) desc)

abbrev pub with_names : List Value → Description → Description
with_names vs desc =
    let (manufacturer, model) = read_basic ([], []) vs in
    record desc { manufacturer = manufacturer; model = model }

-- The second reading of the Basic cluster.
abbrev pub ask_again :
    (ℕ → Result QueryError (List Value)) → Option ℕ → Description → Description × List Step
ask_again basic none desc = (desc, [])
ask_again basic (some ep) desc = (taken (basic ep) with_names desc, manufacturer_and_model ∷ [])

-- The questions behind the first, with the steps.
unfoldable pub ask_all : DeviceAnswers → Bool → Description → Description × List Step
ask_all a known desc =
    let d1 = taken (node_descriptor a.node) (λ nd d. record d { node = some nd }) desc in
    let d2 = taken (power_descriptor a.power) (λ pd d. record d { power = some pd }) d1 in
    let active_reply = active_endpoints a.active in
    let d3 = taken active_reply (λ eps d. d) d2 in
    let d4 = ask_endpoints a.simple 0 (listed active_reply) d3 in
    let (d5, more) =
      if known
      then (d4, [])
      else ask_again a.basic_again (endpoint_with_cluster d4.endpoints cluster_basic) d4 in
    (d5, node_step ∷ power_step ∷ active_step ∷ (map endpoint_step (listed active_reply) ++ more))

pub data InterviewError : Type 0 where
  closed no_network : InterviewError
  reading_state : Failure → InterviewError

abbrev pub first_answer : Result QueryError (List Value) → Description → Bool × Description
first_answer (ok vs) desc = (true, with_names vs desc)
first_answer (err e) desc = (false, desc)

module _ {F : Type 0} where
  -- The end of `Interview`: the store, the description and the steps.
  abbrev pub finished :
      Store F
      → ℕ
      → Option ℕ
      → List Step
      → Description × List Step
      → Store F × Description × List Step
  finished s node save before (desc, steps) =
      let (s', desc') = record_interview s node desc save in (s', desc', before ++ steps)

  abbrev pub continue_with :
      DeviceAnswers
      → Store F
      → ℕ
      → Bool × Description
      → Option Description
      → Store F × Description × List Step
  continue_with a s node (known, desc) (some d) =
      finished s node a.save (manufacturer_and_model ∷ []) (d, [])
  continue_with a s node (known, desc) none =
      finished s node a.save (manufacturer_and_model ∷ []) (ask_all a known desc)

  -- `Interview`, once the adapter is known to be on a network; `full` is `InterviewOptions.Full`.
  unfoldable pub interview_device :
      DeviceAnswers → Bool → ℕ → ℕ → Store F → Store F × Description × List Step
  interview_device a full node now s =
      let (known, desc) =
        first_answer (a.basic (basic_endpoint s node)) (new_description node now) in
      continue_with a s node (known, desc)
        (if known && not full then inherit_from_peer s node desc else none)

  -- `Interview`
  unfoldable pub interview :
      Bool
      → Result Failure ℕ
      → DeviceAnswers
      → Bool
      → ℕ
      → ℕ
      → Store F
      → Result InterviewError (Store F × Description × List Step)
  interview shut state a full node now s = if shut then err closed else elim state [
    | err e ↦ err (reading_state e)
    | ok st ↦ if not (joined st) then err no_network else ok (interview_device a full node now s)
  ]
