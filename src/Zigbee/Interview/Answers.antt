-- ===== src/Zigbee/Interview/Answers.antt =====
-- zigbee/interview.go: what becomes of each question of an interview.
use gzb.Base.{
  ℕ, ◌+◌, ◌≡◌, refl, ap, ◌∙◌, true, Option, some, List, [], ◌∷◌, ◌++◌, append-nil, append_assoc,
  Bytes,
}
use gzb.Base.Result.{Result, ok, err}
use gzb.Ezsp.Send.{RequestError}
use gzb.Zigbee.Description.{Description, Problem, asking}
use gzb.Zigbee.Interview.{taken, with_endpoint, ask_endpoints, ask_all, DeviceAnswers, listed}
use gzb.Zigbee.Query.{
  QueryError, NodeDescriptor, PowerDescriptor, Endpoint, simple_descriptor, active_endpoints,
  node_descriptor, power_descriptor,
}

-- The answer to a question, and the problem that it is without one.
abbrev pub answer : {A : Type 0} → Result QueryError A → List A
answer (ok a) = a ∷ []
answer (err e) = []

abbrev pub problem : {A : Type 0} → Result QueryError A → List Problem
problem (ok a) = []
problem (err e) = asking e ∷ []

abbrev pub answer_or : {A : Type 0} → Option A → Result QueryError A → Option A
answer_or before (ok a) = some a
answer_or before (err e) = before

-- The same of the questions for the endpoints of a list, from the place `i` on.
abbrev pub described : (ℕ → ℕ → Result RequestError Bytes) → ℕ → List ℕ → List Endpoint
described simple i [] = []
described simple i (ep ∷ eps) =
    answer (simple_descriptor (simple i ep)) ++ described simple (i + 1) eps

abbrev pub undescribed : (ℕ → ℕ → Result RequestError Bytes) → ℕ → List ℕ → List Problem
undescribed simple i [] = []
undescribed simple i (ep ∷ eps) =
    problem (simple_descriptor (simple i ep)) ++ undescribed simple (i + 1) eps

taken-problems :
    {A : Type 0} (r : Result QueryError A) (take : A → Description → Description) (d : Description)
    → ((x : A) → (take x d).problems ≡ d.problems)
    → (taken r take d).problems ≡ d.problems ++ problem r
taken-problems (ok a) take d h = rw (h a, append-nil d.problems) refl
taken-problems (err e) take d h = refl

taken-keeps :
    {A B : Type 0} (field : Description → B) (r : Result QueryError A)
    (take : A → Description → Description) (d : Description)
    → ((x : A) → field (take x d) ≡ field d)
    → ((ps : List Problem) → field (record d { problems = ps }) ≡ field d)
    → field (taken r take d) ≡ field d
taken-keeps field (ok a) take d h k = h a
taken-keeps field (err e) take d h k = k _

with_endpoint-endpoints :
    (r : Result QueryError Endpoint) (d : Description)
    → (with_endpoint r d).endpoints ≡ d.endpoints ++ answer r
with_endpoint-endpoints (ok sd) d = refl
with_endpoint-endpoints (err e) d = rw (append-nil d.endpoints) refl

ask_endpoints-endpoints :
    (simple : ℕ → ℕ → Result RequestError Bytes) (i : ℕ) (eps : List ℕ) (d : Description)
    → (ask_endpoints simple i eps d).endpoints ≡ d.endpoints ++ described simple i eps
unfolding ask_endpoints
ask_endpoints-endpoints simple i [] d = rw (append-nil d.endpoints) refl
ask_endpoints-endpoints simple i (ep ∷ eps) d =
    let r : Result QueryError Endpoint = simple_descriptor (simple i ep) in
    ask_endpoints-endpoints simple (i + 1) eps (with_endpoint r d)
    ∙ ap (λ (t : List Endpoint). t ++ described simple (i + 1) eps) (with_endpoint-endpoints r d)
    ∙ append_assoc d.endpoints (answer r) (described simple (i + 1) eps)

ask_endpoints-problems :
    (simple : ℕ → ℕ → Result RequestError Bytes) (i : ℕ) (eps : List ℕ) (d : Description)
    → (ask_endpoints simple i eps d).problems ≡ d.problems ++ undescribed simple i eps
unfolding ask_endpoints
ask_endpoints-problems simple i [] d = rw (append-nil d.problems) refl
ask_endpoints-problems simple i (ep ∷ eps) d =
    let r : Result QueryError Endpoint = simple_descriptor (simple i ep) in
    ask_endpoints-problems simple (i + 1) eps (with_endpoint r d)
    ∙ ap (λ (t : List Problem). t ++ undescribed simple (i + 1) eps)
        (taken-problems r (λ sd d. record d { endpoints = d.endpoints ++ sd ∷ [] }) d (λ x. refl))
    ∙ append_assoc d.problems (problem r) (undescribed simple (i + 1) eps)

ask_endpoints-keeps :
    {B : Type 0} (field : Description → B) (simple : ℕ → ℕ → Result RequestError Bytes) (i : ℕ)
    (eps : List ℕ) (d : Description)
    → ((d : Description) (es : List Endpoint) → field (record d { endpoints = es }) ≡ field d)
    → ((d : Description) (ps : List Problem) → field (record d { problems = ps }) ≡ field d)
    → field (ask_endpoints simple i eps d) ≡ field d
unfolding ask_endpoints
ask_endpoints-keeps field simple i [] d h k = refl
ask_endpoints-keeps field simple i (ep ∷ eps) d h k =
    ask_endpoints-keeps field simple (i + 1) eps _ h k
    ∙ taken-keeps field (simple_descriptor (simple i ep)) _ d (λ x. h d _) (k d)

module _ (desc : Description) where
  -- The descriptions behind the first, the second and the third question.
  abbrev after_node : Result QueryError NodeDescriptor → Description
  after_node n = taken n (λ nd d. record d { node = some nd }) desc

  abbrev after_power :
      Result QueryError NodeDescriptor → Result QueryError PowerDescriptor → Description
  after_power n p = taken p (λ pd d. record d { power = some pd }) (after_node n)

  abbrev after_active :
      Result QueryError NodeDescriptor
      → Result QueryError PowerDescriptor
      → Result QueryError (List ℕ)
      → Description
  after_active n p e = taken e (λ eps d. d) (after_power n p)

  after_node-node :
      (n : Result QueryError NodeDescriptor) → (after_node n).node ≡ answer_or desc.node n
  after_node-node (ok nd) = refl
  after_node-node (err e) = refl

  after_power-power :
      (n : Result QueryError NodeDescriptor) (p : Result QueryError PowerDescriptor)
      → (after_power n p).power ≡ answer_or desc.power p
  after_power-power n (ok pd) = refl
  after_power-power n (err e) = taken-keeps (λ d. d.power) n _ desc (λ x. refl) (λ ps. refl)

  after_active-endpoints :
      (n : Result QueryError NodeDescriptor) (p : Result QueryError PowerDescriptor)
      (e : Result QueryError (List ℕ))
      → (after_active n p e).endpoints ≡ desc.endpoints
  after_active-endpoints n p e =
      taken-keeps (λ d. d.endpoints) e _ (after_power n p) (λ x. refl) (λ ps. refl)
      ∙ taken-keeps (λ d. d.endpoints) p _ (after_node n) (λ x. refl) (λ ps. refl)
      ∙ taken-keeps (λ d. d.endpoints) n _ desc (λ x. refl) (λ ps. refl)

  after_active-problems :
      (n : Result QueryError NodeDescriptor) (p : Result QueryError PowerDescriptor)
      (e : Result QueryError (List ℕ))
      → (after_active n p e).problems ≡ ((desc.problems ++ problem n) ++ problem p) ++ problem e
  after_active-problems n p e =
      taken-problems e _ (after_power n p) (λ x. refl)
      ∙ ap (λ (t : List Problem). t ++ problem e)
          (taken-problems p _ (after_node n) (λ x. refl)
            ∙ ap (λ (t : List Problem). t ++ problem p) (taken-problems n _ desc (λ x. refl)))

-- A device that has said what it is: of the two descriptors, the description has what was answered,
-- and what it had before otherwise; its endpoints are those it had and, in the order of the list that
-- the device gave, those of this list that were described; and its problems are those it had and, in the
-- order of the questions, the error of each question that got no answer, those for the two
-- descriptors, for the list, and for each endpoint of the list.
pub ask_all-settled :
    (a : DeviceAnswers) (desc : Description)
    → ((ask_all a true desc).0.node ≡ answer_or desc.node (node_descriptor a.node))
      × ((ask_all a true desc).0.power ≡ answer_or desc.power (power_descriptor a.power))
      × ((ask_all a true desc).0.endpoints
          ≡ desc.endpoints ++ described a.simple 0 (listed (active_endpoints a.active)))
      × ((ask_all a true desc).0.problems
          ≡ desc.problems
            ++ (problem (node_descriptor a.node)
                ++ (problem (power_descriptor a.power)
                    ++ (problem (active_endpoints a.active)
                        ++ undescribed a.simple 0 (listed (active_endpoints a.active))))))
unfolding ask_all
ask_all-settled a desc =
    let n = node_descriptor a.node in
    let p = power_descriptor a.power in
    let e = active_endpoints a.active in
    let d = after_active desc n p e in
    let more = undescribed a.simple 0 (listed e) in
    (
      ask_endpoints-keeps (λ d. d.node) a.simple 0 (listed e) d (λ d es. refl) (λ d ps. refl)
          ∙ taken-keeps (λ d. d.node) e _ (after_power desc n p) (λ x. refl) (λ ps. refl)
          ∙ taken-keeps (λ d. d.node) p _ (after_node desc n) (λ x. refl) (λ ps. refl)
          ∙ after_node-node desc n,
      ask_endpoints-keeps (λ d. d.power) a.simple 0 (listed e) d (λ d es. refl) (λ d ps. refl)
          ∙ taken-keeps (λ d. d.power) e _ (after_power desc n p) (λ x. refl) (λ ps. refl)
          ∙ after_power-power desc n p,
      ask_endpoints-endpoints a.simple 0 (listed e) d
          ∙ ap (λ (t : List Endpoint). t ++ described a.simple 0 (listed e))
              (after_active-endpoints desc n p e),
      ask_endpoints-problems a.simple 0 (listed e) d
          ∙ ap (λ (t : List Problem). t ++ more) (after_active-problems desc n p e)
          ∙ append_assoc ((desc.problems ++ problem n) ++ problem p) (problem e) more
          ∙ append_assoc (desc.problems ++ problem n) (problem p) (problem e ++ more)
          ∙ append_assoc desc.problems (problem n) (problem p ++ (problem e ++ more)),
    )
