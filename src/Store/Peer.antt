-- ===== src/Store/Peer.antt =====
-- internal/store/store.go: which device `PeerOfModel` picks.
use gzb.Base.{
  ℕ, ◌≤◌, ◌≡◌, ◌≢◌, refl, arith, true, false, Option, none, some, List, [], ◌∷◌, if◌then◌else◌,
  Bool-cases, inl, inr, Bytes, All, ◌⊎◌,
}
use gzb.Base.Strings.{same, same_self, same-eq, has_prefix}
use gzb.Store.{
  Device, Entry, Store, since, identified, left_out, replaces, peer_from, peer_of_model, is_empty,
  never, unknown_prefix,
}

empty : (xs : Bytes) → is_empty xs ≡ true → xs ≡ []
empty [] h = refl
empty (x ∷ xs) h = cc

not_empty : {A : Type 0} (xs : List A) → is_empty xs ≡ false → xs ≢ []
not_empty [] h e = absurd cc
not_empty (x ∷ xs) h e = absurd cc

no_items : (xs : Bytes) → xs ≡ [] → is_empty xs ≡ true
no_items xs e = rw e refl

some_items : {A : Type 0} (xs : List A) → xs ≢ [] → is_empty xs ≡ false
some_items [] h = absurd (h refl)
some_items (x ∷ xs) h = refl

not_never : (t : Option ℕ) → never t ≡ false → t ≢ none
not_never none h e = absurd cc
not_never (some t) h e = absurd cc

some_time : (t : Option ℕ) → t ≢ none → never t ≡ false
some_time none h = absurd (h refl)
some_time (some t) h = refl

same_of_eq : (a b : Bytes) → a ≡ b → same a b ≡ true
same_of_eq a b e = rw e (same_self b)

same_of_ne : (a b : Bytes) → a ≢ b → same a b ≡ false
same_of_ne a b h = elim (Bool-cases (same a b)) [ inl q ↦ absurd (h (same-eq a b q)) | inr q ↦ q ]

module _ {F : Type 0} where
  abbrev pub Holds : Store F → Device F → Type 0
  Holds [] d = ⊥
  Holds (e ∷ es) d = (e.device ≡ d) ⊎ Holds es d

  abbrev NotLater : Option (Device F) → Device F → Type 0
  NotLater none d = Unit {0}
  NotLater (some b) d = since b.interviewed ≤ since d.interviewed

module _ {F : Type 0} (manufacturer model exclude : Bytes) where
  abbrev next_best : Option (Device F) → Device F → Option (Device F)
  next_best best d =
      if left_out manufacturer model exclude d
      then best
      else if replaces best d
      then some d
      else best

  next_best_is :
      (best : Option (Device F)) (e d : Device F)
      → next_best best e ≡ some d
      → (best ≡ some d) ⊎ ((left_out manufacturer model exclude d ≡ false) × (e ≡ d))
  next_best_is best e d h = ground arith

  peer_from-Holds :
      (best : Option (Device F)) (s : Store F) (d : Device F)
      → peer_from manufacturer model exclude best s ≡ some d
      → (best ≡ some d) ⊎ ((left_out manufacturer model exclude d ≡ false) × Holds s d)
  unfolding peer_from
  peer_from-Holds best [] d h = inl h
  peer_from-Holds best (e ∷ es) d h = elim (peer_from-Holds (next_best best e.device) es d h) [
    | inl q ↦ elim (next_best_is best e.device d q) [ inl r ↦ inl r | inr r ↦ inr (r.0, inl r.1) ]
    | inr q ↦ inr (q.0, inr q.1)
  ]

  next_best_later :
      (best : Option (Device F)) (e d : Device F)
      → NotLater (next_best best e) d
      → NotLater best d
        × ((left_out manufacturer model exclude e ≡ true)
            ⊎ (since e.interviewed ≤ since d.interviewed))
  unfolding replaces
  next_best_later none e d h = elim (Bool-cases (left_out manufacturer model exclude e)) [
    | inl q ↦ (tt, inl q)
    | inr q ↦ (tt, inr (simp q at h))
  ]
  next_best_later (some b) e d h = elim (Bool-cases (left_out manufacturer model exclude e)) [
    | inl q ↦ (simp q at h, inl q)
    | inr q ↦ elim (Bool-cases (replaces (some b) e)) [
      | inl r ↦ (ground arith, inr (ground arith))
      | inr r ↦ (ground arith, inr (ground arith))
    ]
  ]

  peer_from-NotLater :
      (best : Option (Device F)) (s : Store F) (d : Device F)
      → peer_from manufacturer model exclude best s ≡ some d
      → NotLater best d
        × All
            (λ (e : Entry F).
              (left_out manufacturer model exclude e.device ≡ true)
              ⊎ (since e.device.interviewed ≤ since d.interviewed))
            s
  unfolding peer_from
  peer_from-NotLater none [] d h = (tt, tt)
  peer_from-NotLater (some b) [] d h = (ground arith, tt)
  peer_from-NotLater best (e ∷ es) d h =
      let (later, all) = peer_from-NotLater (next_best best e.device) es d h in
      let (first, this) = next_best_later best e.device d later in (first, (this, all))

  abbrev pub Qualifies : Device F → Type 0
  Qualifies d =
      (d.ieee ≢ exclude)
      × (has_prefix d.ieee unknown_prefix ≡ false)
      × (d.inherited_from ≡ [])
      × (d.manufacturer ≡ manufacturer)
      × (d.model ≡ model)
      × (d.endpoints ≢ [])
      × (d.interviewed ≢ none)

  left_out-Qualifies : (d : Device F) → left_out manufacturer model exclude d ≡ false → Qualifies d
  unfolding left_out identified
  left_out-Qualifies d h = (
    λ e. ground (arith, same_self exclude, e),
    ground arith,
    empty d.inherited_from (ground arith),
    same-eq d.manufacturer manufacturer (ground arith),
    same-eq d.model model (ground arith),
    not_empty d.endpoints (ground arith),
    not_never d.interviewed (ground arith),
  )

  -- Nothing that qualifies is left out.
  Qualifies-left_out : (d : Device F) → left_out manufacturer model exclude d ≡ true → ¬ Qualifies d
  unfolding left_out identified
  Qualifies-left_out d h (other, real, own, maker, made, some_endpoints, asked) = ground (
    arith,
    same_of_ne d.ieee exclude other,
    no_items d.inherited_from own,
    same_of_eq d.manufacturer manufacturer maker,
    same_of_eq d.model model made,
    some_items d.endpoints some_endpoints,
    some_time d.interviewed asked,
  )

  -- The device that is nominated stands in the registry, is not the one excluded, has a real address
  -- and the make and model asked for, was interviewed, has endpoints and inherited nothing; and of all
  -- devices of the registry of which this is so, none was interviewed later.
  pub peer_of_model-Qualifies :
      (s : Store F) (d : Device F)
      → peer_of_model s manufacturer model exclude ≡ some d
      → Holds s d
        × Qualifies d
        × All
            (λ (e : Entry F).
              (¬ Qualifies e.device) ⊎ (since e.device.interviewed ≤ since d.interviewed))
            s
  unfolding peer_of_model
  peer_of_model-Qualifies s d h = elim (Bool-cases (is_empty model)) [
    | inl q ↦ absurd (no_model s d q h)
    | inr q ↦
        let found : peer_from manufacturer model exclude none s ≡ some d = searched s d q h in
        let (kept, held) = peer_found s d found in
        (held, left_out-Qualifies d kept, no_better s d (peer_from-NotLater none s d found).1)
  ]
    where
      no_better :
          (s : Store F) (d : Device F)
          → All
              (λ (e : Entry F).
                (left_out manufacturer model exclude e.device ≡ true)
                ⊎ (since e.device.interviewed ≤ since d.interviewed))
              s
          → All
              (λ (e : Entry F).
                (¬ Qualifies e.device) ⊎ (since e.device.interviewed ≤ since d.interviewed))
              s
      no_better [] d h = tt
      no_better (e ∷ es) d (inl out, rest) =
          (inl (Qualifies-left_out e.device out), no_better es d rest)
      no_better (e ∷ es) d (inr older, rest) = (inr older, no_better es d rest)

      no_model :
          (s : Store F) (d : Device F)
          → is_empty model ≡ true
          → peer_of_model s manufacturer model exclude ≢ some d
      no_model s d q h = ground arith

      searched :
          (s : Store F) (d : Device F)
          → is_empty model ≡ false
          → peer_of_model s manufacturer model exclude ≡ some d
          → peer_from manufacturer model exclude none s ≡ some d
      searched s d q h = ground arith

      peer_found :
          (s : Store F) (d : Device F)
          → peer_from manufacturer model exclude none s ≡ some d
          → (left_out manufacturer model exclude d ≡ false) × Holds s d
      peer_found s d h = elim (peer_from-Holds none s d h) [ inl q ↦ absurd cc | inr q ↦ q ]
