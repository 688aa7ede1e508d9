-- ===== src/Zigbee/Interview/Steps.antt =====
-- zigbee/interview.go: what an interview does to the registry, and the single question of one that inherits.
use gzb.Base.{
  ℕ, ◌≡◌, refl, ap, subst, ◌⊎◌, ◌==◌, Bool, true, false, Option, none, some, List, [], ◌∷◌, map,
  Bytes, Bool-cases, inl, inr, if◌then◌else◌,
}
use gzb.Base.Strings.{same, same_self}
use gzb.Base.Result.{ok}
use gzb.Store.{Device, Entry, Store, put, by_node_id}
use gzb.Zigbee.Description.{
  Description, new_description, record_interview, record_in, learned_something, basic_endpoint,
  inherit_from_peer,
}
use gzb.Zigbee.Interview.{
  DeviceAnswers, Value, with_names, continue_with, manufacturer_and_model, ask_all,
  interview_device,
}

module _ {F : Type 0} where
  abbrev pub keys : Store F → List Bytes
  keys s = map (λ (e : Entry F). e.key) s

  -- `s` has a record under the key.
  abbrev HasKey : Store F → Bytes → Type 0
  HasKey [] k = ⊥
  HasKey (x ∷ s) k = (same x.key k ≡ true) ⊎ HasKey s k

  by_node_id-HasKey :
      (s : Store F) (id : ℕ) (e : Entry F) → by_node_id s id ≡ some e → HasKey s e.key
  unfolding by_node_id
  by_node_id-HasKey [] id e h = cc
  by_node_id-HasKey (x ∷ s) id e h = elim (Bool-cases (x.device.node_id == id)) [
    | inl here ↦ inl (found x e (by_node_id s id) id here h)
    | inr there ↦ inr (by_node_id-HasKey s id e (later x e (by_node_id s id) id there h))
  ]
    where
      found :
          (x e : Entry F) (rest : Option (Entry F)) (id : ℕ)
          → (x.device.node_id == id) ≡ true
          → (if x.device.node_id == id then some x else rest) ≡ some e
          → same x.key e.key ≡ true
      found x e rest id q h =
          let h' : ◌≡◌ {A = Option (Entry F)} (some x) (some e) = simp q at h in
          let same_entry : x ≡ e = cc in
          subst (λ t. same x.key t.key ≡ true) same_entry (same_self x.key)

      later :
          (x e : Entry F) (rest : Option (Entry F)) (id : ℕ)
          → (x.device.node_id == id) ≡ false
          → (if x.device.node_id == id then some x else rest) ≡ some e
          → rest ≡ some e
      later x e rest id q h = simp q at h

  put_existing-keys :
      (s : Store F) (k : Bytes) (d : Device F) → HasKey s k → keys (put s k d) ≡ keys s
  unfolding put
  put_existing-keys [] k d h = absurd h
  put_existing-keys (x ∷ s) k d h = elim (Bool-cases (same x.key k)) [
    | inl here ↦ simp here refl
    | inr there ↦ simp there (ap (◌∷◌ x.key) (put_existing-keys s k d (elsewhere x s k there h)))
  ]
    where
      elsewhere :
          (x : Entry F) (s : Store F) (k : Bytes)
          → same x.key k ≡ false
          → (same x.key k ≡ true) ⊎ HasKey s k
          → HasKey s k
      elsewhere x s k none_here (inl y) = cc
      elsewhere x s k none_here (inr y) = y

  record_in-keys :
      (o : Option (Entry F)) (s : Store F) (desc : Description) (save : Option ℕ)
      → ((e : Entry F) → o ≡ some e → HasKey s e.key)
      → keys (record_in o s desc save).0 ≡ keys s
  unfolding record_in
  record_in-keys none s desc save h = refl
  record_in-keys (some e) s desc save h = elim (Bool-cases (learned_something desc)) [
    | inl learned ↦ simp learned (put_existing-keys s e.key _ (h e refl))
    | inr nothing ↦ simp nothing refl
  ]

  record_interview-keys :
      (s : Store F) (id : ℕ) (desc : Description) (save : Option ℕ)
      → keys (record_interview s id desc save).0 ≡ keys s
  unfolding record_interview
  record_interview-keys s id desc save =
      record_in-keys (by_node_id s id) s desc save (by_node_id-HasKey s id)

  continue_with-keys :
      (a : DeviceAnswers) (s : Store F) (id : ℕ) (known : Bool × Description)
      (o : Option Description)
      → keys (continue_with a s id known o).0 ≡ keys s
  continue_with-keys a s id known none =
      record_interview-keys s id (ask_all a known.0 known.1).0 a.save
  continue_with-keys a s id known (some d) = record_interview-keys s id d a.save

  -- An interview adds no record to the registry and removes none, whatever the answers are.
  pub interview_device-keys :
      (a : DeviceAnswers) (full : Bool) (id now : ℕ) (s : Store F)
      → keys (interview_device a full id now s).0 ≡ keys s
  unfolding interview_device
  interview_device-keys a full id now s = continue_with-keys a s id _ _

  -- A device that inherits the answers of another is asked one question: what it is.
  pub interview_device-inherits :
      (a : DeviceAnswers) (id now : ℕ) (s : Store F) (vs : List Value) (out : Description)
      → a.basic (basic_endpoint s id) ≡ ok vs
      → inherit_from_peer s id (with_names vs (new_description id now)) ≡ some out
      → interview_device a false id now s ≡ (
        (record_interview s id out a.save).0,
        (record_interview s id out a.save).1,
        manufacturer_and_model ∷ [],
      )
  unfolding interview_device
  interview_device-inherits a id now s vs out e h = simp e (simp h refl)
