-- ===== src/Store/Name/Unique.antt =====
-- internal/store/name.go: no two devices answer to one name.
use gzb.Base.{
  ◌⊎◌, ◌≡◌, ◌≢◌, refl, sym, ap, subst, ◌∙◌, arith, true, false, none, some, [], ◌∷◌, Bool-cases,
  inl, inr, Bytes, All,
}
use gzb.Base.Strings.{same, same_self, same-eq}
use gzb.Base.Letters.{Text, Letters, equal_fold}
use gzb.Store.{Device, Store, get, put, delete}
use gzb.Store.Map.{get-put, get-put_other, get-delete, get-delete_other, IsFiled}
use gzb.Store.Keys.{IsMap, get_behind, get_front, same-ne}
use gzb.Store.Name.{carries, by_name}

module _ (letters : Letters) where
  pub fold_sym : (a b : Text) → equal_fold letters a b ≡ true → equal_fold letters b a ≡ true
  unfolding equal_fold
  fold_sym a b h = rw (same-eq _ _ h) (same_self _)

  pub fold_trans :
      (a b c : Text)
      → equal_fold letters a b ≡ true
      → equal_fold letters b c ≡ true
      → equal_fold letters a c ≡ true
  unfolding equal_fold
  fold_trans a b c h k = rw (same-eq _ _ h) k

  pub fold-blank : (a b : Text) → a ≢ [] → equal_fold letters a b ≡ true → b ≢ []
  unfolding equal_fold same
  fold-blank [] b ne h e = ne refl
  fold-blank (x ∷ a) [] ne h e = cc
  fold-blank (x ∷ a) (y ∷ b) ne h e = cc

module _ (letters : Letters) {F : Type 0} where
  -- The names of two devices differ in more than case.
  abbrev pub AreUnique : Store F → Type 0
  AreUnique s =
      (k j : Bytes) (d e : Device F)
      → get s k ≡ some d
      → get s j ≡ some e
      → d.name ≢ []
      → equal_fold letters d.name e.name ≡ true
      → k ≡ j

  -- A device may be put in place where only the one that it replaces has its name.
  abbrev pub HasOwnName : Store F → Bytes → Device F → Type 0
  HasOwnName s k d =
      (j : Bytes) (e : Device F)
      → get s j ≡ some e
      → d.name ≢ []
      → equal_fold letters d.name e.name ≡ true
      → k ≡ j

  pub put-AreUnique :
      (s : Store F) (k : Bytes) (d : Device F)
      → AreUnique s
      → HasOwnName s k d
      → AreUnique (put s k d)
  put-AreUnique s k d u own i j a b ga gb na ab = go (Bool-cases (same i k)) (Bool-cases (same j k))
    where
      at_key : (x : Bytes) (c : Device F) → same x k ≡ true → get (put s k d) x ≡ some c → d ≡ c
      at_key x c q g = cc (get-put s k d, same-eq x k q)

      elsewhere :
          (x : Bytes) (c : Device F)
          → same x k ≡ false
          → get (put s k d) x ≡ some c
          → get s x ≡ some c
      elsewhere x c q g = sym (get-put_other s k x d (same-ne x k q)) ∙ g

      go : (same i k ≡ true) ⊎ (same i k ≡ false) → (same j k ≡ true) ⊎ (same j k ≡ false) → i ≡ j
      go (inl p) (inl q) = same-eq i k p ∙ sym (same-eq j k q)
      go (inl p) (inr q) =
          let e : d ≡ a = at_key i a p ga in
          same-eq i k p
          ∙ own j b (elsewhere j b q gb) (subst (λ (t : Device F). t.name ≢ []) (sym e) na)
              (subst (λ (t : Device F). equal_fold letters t.name b.name ≡ true) (sym e) ab)
      go (inr p) (inl q) =
          let e : d ≡ b = at_key j b q gb in
          sym (
            own i a (elsewhere i a p ga)
              (subst (λ (t : Device F). t.name ≢ []) (sym e)
                (fold-blank letters a.name b.name na ab))
              (subst (λ (t : Device F). equal_fold letters t.name a.name ≡ true) (sym e)
                (fold_sym letters a.name b.name ab)))
          ∙ sym (same-eq j k q)
      go (inr p) (inr q) = u i j a b (elsewhere i a p ga) (elsewhere j b q gb) na ab

  pub delete-AreUnique : (s : Store F) (k : Bytes) → AreUnique s → AreUnique (delete s k)
  delete-AreUnique s k u i j a b ga gb na ab =
      u i j a b (kept i a ga (Bool-cases (same i k))) (kept j b gb (Bool-cases (same j k))) na ab
    where
      kept :
          (x : Bytes) (c : Device F)
          → get (delete s k) x ≡ some c
          → (same x k ≡ true) ⊎ (same x k ≡ false)
          → get s x ≡ some c
      kept x c g (inl q) = absurd (cc (get-delete s k, same-eq x k q))
      kept x c g (inr q) = sym (get-delete_other s k x (same-ne x k q)) ∙ g

  -- A device without a name may be put anywhere.
  pub nameless : (s : Store F) (k : Bytes) (d : Device F) → d.name ≡ [] → HasOwnName s k d
  nameless s k d e j b g ne f = absurd (ne e)

  -- A device that keeps its name may be put where it is.
  pub renewed :
      (s : Store F) (k : Bytes) (d d' : Device F)
      → AreUnique s
      → get s k ≡ some d
      → d'.name ≡ d.name
      → HasOwnName s k d'
  renewed s k d d' u g e j b gb ne f =
      u k j d b g gb (λ x. ne (e ∙ x))
        (subst (λ (t : Text). equal_fold letters t b.name ≡ true) e f)

  -- What is kept of the registry: each key once, each device under its address, no name twice.
  pub record IsSound (s : Store F) : Type 0 where
    pub is_map : IsMap s
    pub is_filed : All IsFiled s
    pub is_unique : AreUnique s

  pub by_name-none :
      (s : Store F) (name : Text) (k : Bytes) (d : Device F)
      → by_name letters s name ≡ none
      → get s k ≡ some d
      → carries letters name d ≡ false
  unfolding by_name get
  by_name-none [] name k d h g = cc
  by_name-none (e ∷ es) name k d h g = elim (Bool-cases (same e.key k)) [
    | inl q ↦ subst (λ (t : Device F). carries letters name t ≡ false) (found q) not_carried
    | inr q ↦ by_name-none es name k d behind (passed q)
  ]
    where
      found : same e.key k ≡ true → e.device ≡ d
      found q = ground arith

      passed : same e.key k ≡ false → get es k ≡ some d
      passed q = ground arith

      not_carried : carries letters name e.device ≡ false
      not_carried = elim (Bool-cases (carries letters name e.device)) [
        | inl q ↦ absurd (cc (rw q at h))
        | inr q ↦ q
      ]

      behind : by_name letters es name ≡ none
      behind = rw not_carried at h

  pub by_name-some :
      (s : Store F) (name : Text) (d : Device F)
      → IsMap s
      → All IsFiled s
      → by_name letters s name ≡ some d
      → (get s d.ieee ≡ some d) × (carries letters name d ≡ true)
  unfolding by_name
  by_name-some [] name d m f h = cc
  by_name-some (e ∷ es) name d m f h = elim (Bool-cases (carries letters name e.device)) [
    | inl q ↦
        subst (λ (t : Device F). (get (e ∷ es) t.ieee ≡ some t) × (carries letters name t ≡ true))
          (found q) (ap (get (e ∷ es)) (sym f.0) ∙ get_front e es, q)
    | inr q ↦
        let ih = by_name-some es name d m.1 f.1 (passed q) in
        (get_behind e es d.ieee d m.0 ih.0, ih.1)
  ]
    where
      found : carries letters name e.device ≡ true → e.device ≡ d
      found q = let g : some e.device ≡ some d = rw q at h in cc

      passed : carries letters name e.device ≡ false → by_name letters es name ≡ some d
      passed q = rw q at h
