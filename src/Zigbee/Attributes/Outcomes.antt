-- ===== src/Zigbee/Attributes/Outcomes.antt =====
-- zigbee/attributes.go: what the results of `WriteAttributes` and `ConfigureReporting` stand for.
use gzb.Base.{
  ℕ, ◌≡◌, ◌⊎◌, inl, inr, refl, ap, ◌∙◌, arith, Bool, true, false, Option, none, some, List, [], ◌∷◌,
  Bytes, map, Bool-cases,
}
use gzb.Base.Result.{Result, ok, err}
use gzb.Ezsp.Send.{Wake}
use gzb.Ezsp.Talk.{Failure, Ncp, Command}
use gzb.Zcl.Frame.{
  Frame, Attribute, WriteResult, is_success, write_results, write_attributes_request,
  write_attributes_rsp, write_response,
}
use gzb.Zcl.Value.{Floats}
use gzb.Zigbee.Command.{Target, ZclError, next_sequence, zcl_request}
use gzb.Zigbee.Command.Obeyed.{Answered, zcl_request-Answered}
use gzb.Zigbee.Attributes.{
  AttributeResult, attribute_result, write_result, listed, outcomes, order_attributes,
  write_attributes,
}

listed-ok :
    {E A : Type 0} (result : A → AttributeResult) (r : List A × Option E)
    (results : List AttributeResult)
    → listed result r ≡ ok results
    → (r.1 ≡ none) × (results ≡ map result r.0)
listed-ok result (out, none) results h = (refl, cc)
listed-ok result (out, some e) results h = cc

order_attributes-ok :
    {E A : Type 0} (result : A → AttributeResult) (parse : Frame → List A × Option E)
    (send : Bytes → List Command → Option (Result ZclError Frame) × List Command)
    (sent : List Command) (r : Result E Bytes) (results : List AttributeResult)
    → (order_attributes result parse send sent r).0 ≡ some (ok results)
    → (payload : Bytes) × (f : Frame) × (r ≡ ok payload)
      × ((send payload sent).0 ≡ some (ok f))
      × ((parse f).1 ≡ none)
      × (results ≡ map result (parse f).0)
unfolding order_attributes
order_attributes-ok result parse send sent (err e) results h = cc
order_attributes-ok result parse send sent (ok payload) results h =
    let (f, got, is) = of_frame (send payload sent).0 h in
    let (whole, same) = listed-ok result (parse f) results is in
    (payload, f, refl, got, whole, same)
  where
    of_frame :
        (o : Option (Result ZclError Frame))
        → outcomes result parse o ≡ some (ok results)
        → (f : Frame) × (o ≡ some (ok f)) × (listed result (parse f) ≡ ok results)
    of_frame none h = cc
    of_frame (some (err e)) h = cc
    of_frame (some (ok f)) h = (f, refl, cc)

write_response-ok :
    (f : Frame) (ids : List ℕ)
    → (write_response f ids).1 ≡ none
    → (f.command ≡ write_attributes_rsp)
      × (((is_success f.payload ≡ true)
            × ((write_response f ids).0 ≡ map (λ (id : ℕ). record { id = id; status = 0 }) ids))
          ⊎ ((is_success f.payload ≡ false)
              × (write_results f.payload ≡ ((write_response f ids).0, true))))
unfolding write_response
write_response-ok f ids h =
    let command : (f.command ≡ write_attributes_rsp) × (f.type ≡ 0) = ground arith in
    (
      command.0,
      elim (Bool-cases (is_success f.payload)) [
        | inl all_done ↦ inl (all_done, simp (command.0, command.1, all_done) refl)
        | inr some_failed ↦
            let whole : (write_results f.payload).1 ≡ true = ground arith in
            inr (
              some_failed,
              simp (command.0, command.1, some_failed)
                  (ap (λ t. ((write_results f.payload).0, t)) whole),
            )
      ],
    )

abbrev pub all_written : List ℕ → List AttributeResult
all_written ids = map (λ (id : ℕ). record { id = id; done = true; status = none }) ids

write_result-succeeded :
    (ids : List ℕ)
    → map write_result (map (λ (id : ℕ). record { id = id; status = 0 }) ids) ≡ all_written ids
unfolding attribute_result
write_result-succeeded [] = refl
write_result-succeeded (id ∷ ids) =
    ap (λ rs. record { id = id; done = true; status = none } ∷ rs) (write_result-succeeded ids)

-- Whenever `WriteAttributes` returns results, the device that was asked answered the request, with
-- the next sequence number, by a write response. If that is the single success byte, the results are
-- a success for each attribute of the request, in its order; otherwise they are what the response
-- lists, in its order, and nothing is said of an attribute that it does not list.
pub write_attributes-Answered :
    {F : Type 0} (fl : Floats F) (shut : Bool) (expired : Failure → Bool) (t : Target)
    (ws : List Wake) (ncp : Ncp) (writes : List (Attribute F)) (counter : ℕ) (sent : List Command)
    (results : List AttributeResult)
    → (write_attributes fl shut expired t ws ncp writes counter sent).0 ≡ some (ok results)
    → (f : Frame) × Answered t (next_sequence counter).0 write_attributes_rsp ws f
      × (f.command ≡ write_attributes_rsp)
      × (((is_success f.payload ≡ true)
            × (results ≡ all_written (map (λ (a : Attribute F). a.id) writes)))
          ⊎ ((rs : List WriteResult) × (is_success f.payload ≡ false)
              × (write_results f.payload ≡ (rs, true))
              × (results ≡ map write_result rs)))
unfolding write_attributes
write_attributes-Answered fl shut expired t ws ncp [] counter sent results h = cc
write_attributes-Answered {F} fl shut expired t ws ncp (w ∷ writes) counter sent results h =
    let seq : ℕ = (next_sequence counter).0 in
    let ids : List ℕ = map (λ (a : Attribute F). a.id) (w ∷ writes) in
    let (payload, f, built, got, whole, same) =
      order_attributes-ok write_result (λ f. write_response f ids)
        (λ payload. zcl_request shut expired t seq write_attributes_rsp payload ws ncp) sent
        (write_attributes_request fl seq (w ∷ writes)) results h in
    let (is_open, network, answered) =
      zcl_request-Answered expired t seq write_attributes_rsp payload ws ncp shut sent f got in
    let (command, which) = write_response-ok f ids whole in
    (
      f,
      answered,
      command,
      elim which [
        | inl (all_done, listing) ↦
            inl (
              all_done,
              same ∙ (ap (λ rs. map write_result rs) listing ∙ write_result-succeeded ids),
            )
        | inr (some_failed, listing) ↦ inr (_, some_failed, listing, same)
      ],
    )
