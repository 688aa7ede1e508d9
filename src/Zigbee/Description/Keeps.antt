-- ===== src/Zigbee/Description/Keeps.antt =====
-- zigbee/interview.go: what the registry keeps of an interview, and what is inherited from it.
use gzb.Base.{
  ℕ, ◌≡◌, ◌≢◌, refl, sym, ap, ◌∙◌, true, false, not, ◌&&◌, Option, none, some, List, [], ◌∷◌, map,
  Bytes, Bool-cases, Option-cases, inl, inr, ◌⊎◌,
}
use gzb.Store.{Device, Entry, Store, by_node_id, is_empty, never, peer_of_model}
use gzb.Zigbee.Description.{
  Description, of_stored, partial_node, to_stored, endpoints_of, inherited_node, inherited_power,
  apply_interview, inherit, inherit_from_peer, inherited, from_peer,
}
use gzb.Zigbee.Query.{NodeDescriptor, PowerDescriptor, Endpoint, is_mains, is_sleepy}

-- The registry does not keep the version of an endpoint.
abbrev pub unversioned : Endpoint → Endpoint
unversioned ep = record ep { version = 0 }

of_stored-to_stored :
    (eps : List Endpoint) → map of_stored (map to_stored eps) ≡ map unversioned eps
of_stored-to_stored [] = refl
of_stored-to_stored (ep ∷ eps) = ap (◌∷◌ (unversioned ep)) (of_stored-to_stored eps)

own_answers :
    (i : Option ℕ) (f : Bytes) → not (never i) && is_empty f ≡ false → (i ≡ none) ⊎ (f ≢ [])
own_answers none f e = inl refl
own_answers (some t) [] e = cc
own_answers (some t) (x ∷ f) e = inr (λ h. cc)

module _ {F : Type 0} where
  -- A device inherits from one whose interview gave a role, a supply and endpoints exactly what that
  -- interview gave, but for what the registry does not keep: the versions of the endpoints, the
  -- level of the supply, and the manufacturer code, the sizes and the server mask of the node.
  pub inherit-apply_interview :
      (own learned : Description) (peer : Device F) (nd : NodeDescriptor) (pd : PowerDescriptor)
      → is_empty learned.endpoints ≡ false
      → learned.node ≡ some nd
      → learned.power ≡ some pd
      → is_empty pd.source ≡ false
      → ((inherit own (apply_interview peer learned)).endpoints ≡ map unversioned learned.endpoints)
        × ((inherit own (apply_interview peer learned)).node
            ≡ some (
                partial_node nd.logical_type
                  (is_mains nd.capability)
                  (is_sleepy nd.capability)
                  nd.capability))
        × ((inherit own (apply_interview peer learned)).power
            ≡ some (record { source = pd.source; level = 0 }))
  unfolding inherit apply_interview endpoints_of inherited_node inherited_power
  inherit-apply_interview own learned peer nd pd h n p s = (
    simp h (of_stored-to_stored learned.endpoints),
    simp h (simp n refl),
    simp h (simp p (simp s refl)),
  )

  inherited-some :
      (desc : Description) (o : Option (Device F)) (out : Description)
      → inherited desc o ≡ some out
      → (peer : Device F) × (o ≡ some peer) × (out ≡ inherit desc peer)
  inherited-some desc none out e = cc
  inherited-some desc (some peer) out e = (peer, refl, cc)

  -- Only a device of the registry without answers of its own inherits, and it does from the device that
  -- `PeerOfModel` picks for its manufacturer and model.
  pub inherit_from_peer-none_of_its_own :
      (s : Store F) (id : ℕ) (desc out : Description)
      → inherit_from_peer s id desc ≡ some out
      → (e : Entry F) × (peer : Device F) × (by_node_id s id ≡ some e)
        × ((e.device.interviewed ≡ none) ⊎ (e.device.inherited_from ≢ []))
        × (peer_of_model s desc.manufacturer desc.model e.device.ieee ≡ some peer)
        × (out ≡ inherit desc peer)
  unfolding inherit_from_peer
  inherit_from_peer-none_of_its_own s id desc out h = elim (Option-cases (by_node_id s id)) [
    | inl missing ↦ absurd (nothing s desc (by_node_id s id) missing h)
    | inr (e, found) ↦
        let h' : from_peer s desc (some e) ≡ some out =
          sym (ap (λ (t : Option (Entry F)). from_peer s desc t) found) ∙ h in
        elim (Bool-cases (not (never e.device.interviewed) && is_empty e.device.inherited_from)) [
          | inl answered ↦ absurd (refused s desc e answered h')
          | inr open_one ↦
              let (peer, is, eq) =
                inherited-some desc (peer_of_model s desc.manufacturer desc.model e.device.ieee) out
                  (allowed s desc e open_one h') in
              (
                e,
                peer,
                found,
                own_answers e.device.interviewed e.device.inherited_from open_one,
                is,
                eq,
              )
        ]
  ]
    where
      nothing :
          (s : Store F) (desc : Description) (o : Option (Entry F)) {out : Description}
          → o ≡ none
          → from_peer s desc o ≢ some out
      nothing s desc none e h = cc
      nothing s desc (some x) e h = cc

      refused :
          (s : Store F) (desc : Description) (e : Entry F) {out : Description}
          → not (never e.device.interviewed) && is_empty e.device.inherited_from ≡ true
          → from_peer s desc (some e) ≢ some out
      refused s desc e a h = cc

      allowed :
          (s : Store F) (desc : Description) (e : Entry F) {out : Description}
          → not (never e.device.interviewed) && is_empty e.device.inherited_from ≡ false
          → from_peer s desc (some e) ≡ some out
          → inherited desc (peer_of_model s desc.manufacturer desc.model e.device.ieee) ≡ some out
      allowed s desc e a h = simp a at h
