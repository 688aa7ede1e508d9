-- ===== src/Store/Map.antt =====
-- internal/store/store.go: the laws of the map that the registry is.
use gzb.Base.{
  ◌≡◌, ◌≢◌, refl, sym, ap, ◌∙◌, arith, true, false, none, some, [], ◌∷◌, Bool-cases, inl, inr,
  Bytes, All,
}
use gzb.Base.Strings.{same, same_self, same-eq, same-false}
use gzb.Store.{Device, Entry, Store, get, put, delete}

module _ {F : Type 0} where
  pub get-put : (s : Store F) (k : Bytes) (d : Device F) → get (put s k d) k ≡ some d
  unfolding get put
  get-put [] k d = rw (same_self k) refl
  get-put (e ∷ es) k d = ground (arith, same_self k, get-put es k d)

  pub get-put_other :
      (s : Store F) (k j : Bytes) (d : Device F) → j ≢ k → get (put s k d) j ≡ get s j
  unfolding get put
  get-put_other [] k j d ne = rw (same-false k j (λ h. ne (sym h))) refl
  get-put_other (e ∷ es) k j d ne = elim (Bool-cases (same e.key k)) [
    | inl h ↦ simp h (simp (same-false e.key j (λ x. ne (sym x ∙ same-eq e.key k h))) refl)
    | inr h ↦ simp h (ground (arith, get-put_other es k j d ne))
  ]

  pub get-delete : (s : Store F) (k : Bytes) → get (delete s k) k ≡ none
  unfolding get delete
  get-delete [] k = refl
  get-delete (e ∷ es) k = ground (arith, get-delete es k)

  pub get-delete_other : (s : Store F) (k j : Bytes) → j ≢ k → get (delete s k) j ≡ get s j
  unfolding get delete
  get-delete_other [] k j ne = refl
  get-delete_other (e ∷ es) k j ne = elim (Bool-cases (same e.key k)) [
    | inl h ↦ simp h (
        simp (same-false e.key j (λ x. ne (sym x ∙ same-eq e.key k h)))
          (get-delete_other es k j ne))
    | inr h ↦ simp h (ground (arith, get-delete_other es k j ne))
  ]

  -- Every device is filed under its own address.
  abbrev pub IsFiled : Entry F → Type 0
  IsFiled e = e.key ≡ e.device.ieee

  pub put-IsFiled :
      (s : Store F) (k : Bytes) (d : Device F)
      → All IsFiled s
      → d.ieee ≡ k
      → All IsFiled (put s k d)
  unfolding put
  put-IsFiled [] k d h e = (sym e, tt)
  put-IsFiled (x ∷ xs) k d h e = elim (Bool-cases (same x.key k)) [
    | inl q ↦ simp q (same-eq x.key k q ∙ sym e, h.1)
    | inr q ↦ simp q (h.0, put-IsFiled xs k d h.1 e)
  ]

  pub delete-IsFiled : (s : Store F) (k : Bytes) → All IsFiled s → All IsFiled (delete s k)
  unfolding delete
  delete-IsFiled [] k h = tt
  delete-IsFiled (x ∷ xs) k h = elim (Bool-cases (same x.key k)) [
    | inl q ↦ simp q (delete-IsFiled xs k h.1)
    | inr q ↦ simp q (h.0, delete-IsFiled xs k h.1)
  ]

  pub get-IsFiled :
      (s : Store F) (k : Bytes) (d : Device F) → All IsFiled s → get s k ≡ some d → d.ieee ≡ k
  unfolding get
  get-IsFiled [] k d h e = cc
  get-IsFiled (x ∷ xs) k d h e = elim (Bool-cases (same x.key k)) [
    | inl q ↦ ap (λ (t : Device F). t.ieee) (found x xs k d q e) ∙ sym h.0 ∙ same-eq x.key k q
    | inr q ↦ get-IsFiled xs k d h.1 (passed x xs k d q e)
  ]
    where
      found :
          (x : Entry F) (xs : Store F) (k : Bytes) (d : Device F)
          → same x.key k ≡ true
          → get (x ∷ xs) k ≡ some d
          → d ≡ x.device
      found x xs k d q e = ground arith

      passed :
          (x : Entry F) (xs : Store F) (k : Bytes) (d : Device F)
          → same x.key k ≡ false
          → get (x ∷ xs) k ≡ some d
          → get xs k ≡ some d
      passed x xs k d q e = ground arith
