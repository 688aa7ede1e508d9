-- ===== src/Store/Keys.antt =====
-- internal/store/store.go: a map has each key once; what that gives for the walks over it.
use gzb.Base.{
  ℕ, ◌≡◌, ◌≢◌, refl, ap, subst, ◌∙◌, arith, true, false, none, some, [], ◌∷◌, ◌==◌, ==_iff,
  Bool-cases, inl, inr, Bytes,
}
use gzb.Base.Strings.{same, same_self, same-eq}
use gzb.Store.{Device, Entry, Store, get, put, delete, by_node_id}
use gzb.Store.Map.{get-put_other}

pub same-ne : (a b : Bytes) → same a b ≡ false → a ≢ b
same-ne a b h e = contradiction
  where
    contradiction : ⊥
    contradiction = ground (arith, same_self b, ap (λ (t : Bytes). same t b) e)

module _ {F : Type 0} where
  -- No key stands twice.
  abbrev pub IsMap : Store F → Type 0
  IsMap [] = Unit {0}
  IsMap (e ∷ es) = (get es e.key ≡ none) × IsMap es

  pub put-IsMap : (s : Store F) (k : Bytes) (d : Device F) → IsMap s → IsMap (put s k d)
  unfolding put get
  put-IsMap [] k d h = (refl, tt)
  put-IsMap (e ∷ es) k d h = elim (Bool-cases (same e.key k)) [
    | inl q ↦ rw q (h.0, h.1)
    | inr q ↦ rw q (get-put_other es k e.key d (same-ne e.key k q) ∙ h.0, put-IsMap es k d h.1)
  ]

  delete-absent : (s : Store F) (k j : Bytes) → get s j ≡ none → get (delete s k) j ≡ none
  unfolding get delete
  delete-absent [] k j h = refl
  delete-absent (e ∷ es) k j h = ground (arith, delete-absent es k j)

  pub delete-IsMap : (s : Store F) (k : Bytes) → IsMap s → IsMap (delete s k)
  unfolding delete
  delete-IsMap [] k h = tt
  delete-IsMap (e ∷ es) k h = elim (Bool-cases (same e.key k)) [
    | inl q ↦ rw q (delete-IsMap es k h.1)
    | inr q ↦ rw q (delete-absent es k e.key h.0, delete-IsMap es k h.1)
  ]

  -- What stands behind an entry is found, if the key is not that of the entry.
  pub get_behind :
      (e : Entry F) (es : Store F) (k : Bytes) (d : Device F)
      → get es e.key ≡ none
      → get es k ≡ some d
      → get (e ∷ es) k ≡ some d
  unfolding get
  get_behind e es k d h g = elim (Bool-cases (same e.key k)) [
    | inl q ↦ absurd (clash (same-eq e.key k q))
    | inr q ↦ rw q g
  ]
    where
      clash : e.key ≡ k → ⊥
      clash q = cc

  pub get_front : (e : Entry F) (es : Store F) → get (e ∷ es) e.key ≡ some e.device
  unfolding get
  get_front e es = rw (same_self e.key) refl

  -- The walk of `ByNodeID` ends at an entry of the map.
  pub get-by_node_id :
      (s : Store F) (node : ℕ) (e : Entry F)
      → IsMap s
      → by_node_id s node ≡ some e
      → (get s e.key ≡ some e.device) × (e.device.node_id ≡ node)
  unfolding by_node_id
  get-by_node_id [] node e h q = cc
  get-by_node_id (x ∷ xs) node e h q = elim (Bool-cases (x.device.node_id == node)) [
    | inl t ↦
        subst (λ (w : Entry F). (get (x ∷ xs) w.key ≡ some w.device) × (w.device.node_id ≡ node))
          (found t) (get_front x xs, (==_iff _ _).0 t)
    | inr t ↦
        let ih = get-by_node_id xs node e h.1 (passed t) in
        (get_behind x xs e.key e.device h.0 ih.0, ih.1)
  ]
    where
      found : (x.device.node_id == node) ≡ true → x ≡ e
      found t = ground arith

      passed : (x.device.node_id == node) ≡ false → by_node_id xs node ≡ some e
      passed t = ground arith
