-- ===== src/Store/Name/Naming.antt =====
-- internal/store/name.go: naming keeps names unique, and so does all that the registry is told.
use gzb.Base.{
  ◌⊎◌, ◌≡◌, ◌≢◌, refl, sym, ap, subst, ◌∙◌, arith, true, Option, none, some, List, [], ◌∷◌,
  Option-cases, inl, inr, Bytes,
}
use gzb.Base.Result.{Result, ok, err, Result-cases, bind-eq-ok, ok-injective, check-true}
use gzb.Base.Strings.{same, same-eq}
use gzb.Base.Letters.{Text, Letters, upper, equal_fold}
use gzb.Store.{Device, Store, get, put}
use gzb.Store.Map.{get-IsFiled}
use gzb.Store.Observe.{Sighting, record_sighting}
use gzb.Store.Name.{
  NameError, name_is_taken, normalize_name, validate_name, carries, by_name, free_for, set_name_of,
  set_name, clear_name_of, clear_name,
}
use gzb.Store.Name.Unique.{
  fold_sym, fold-blank, fold_trans, HasOwnName, IsSound, by_name-none, by_name-some,
}
use gzb.Store.Name.Kept.{put-IsSound, put_nameless-IsSound, record_sighting-IsSound}

-- What the registry is told of its devices and of their names.
pub data Change : Type 0 where
  sighted : Sighting → Change
  named : Bytes → Text → Change
  unnamed : Bytes → Change

module _ (letters : Letters) {F : Type 0} where
  -- What `SetName` checked and did, when it succeeded.
  abbrev pub Named : Store F → Bytes → Text → Store F × Device F → Type 0
  Named s key name out =
      (d : Device F) × (get s key ≡ some d)
      × (validate_name letters {F = F} name ≡ ok tt)
      × (free_for letters d (by_name letters s name) ≡ ok tt)
      × (out ≡ (put s key (record d { name = name }), record d { name = name }))

  set_name_of-Named :
      (found : Option (Device F)) (s : Store F) (ieee : Bytes) (name : Text)
      (out : Store F × Device F)
      → get s (upper letters ieee) ≡ found
      → set_name_of letters found s ieee name ≡ ok out
      → Named s (upper letters ieee) (normalize_name letters name) out
  unfolding set_name_of
  set_name_of-Named none s ieee name out e h = cc
  set_name_of-Named (some d) s ieee name out e h =
      let (_, valid, h') = bind-eq-ok (validate_name letters (normalize_name letters name)) _ h in
      let (_, free, h'') =
        bind-eq-ok (free_for letters d (by_name letters s (normalize_name letters name))) _ h' in
      (d, e, valid, free, sym (ok-injective h''))

  pub set_name-Named :
      (s : Store F) (ieee : Bytes) (name : Text) (out : Store F × Device F)
      → set_name letters s ieee name ≡ ok out
      → Named s (upper letters ieee) (normalize_name letters name) out
  unfolding set_name
  set_name-Named s ieee name out h =
      set_name_of-Named (get s (upper letters ieee)) s ieee name out refl h

  carries_intro :
      (name : Text) (d : Device F)
      → d.name ≢ []
      → equal_fold letters d.name name ≡ true
      → carries letters name d ≡ true
  carries_intro name d ne f = ground arith

  carries_name : (name : Text) (d : Device F) → carries letters name d ≡ true → d.name ≢ []
  carries_name name d h = ground arith

  carries_fold :
      (name : Text) (d : Device F)
      → carries letters name d ≡ true
      → equal_fold letters d.name name ≡ true
  carries_fold name d h = ground arith

  -- A name that was free belongs to no one but the device that it is for.
  named-HasOwnName :
      (s : Store F) (k : Bytes) (name : Text) (d : Device F)
      → IsSound letters s
      → get s k ≡ some d
      → free_for letters d (by_name letters s name) ≡ ok tt
      → HasOwnName letters s k (record d { name = name })
  named-HasOwnName s k name d h g free j b gb ne f = go (Option-cases (by_name letters s name))
    where
      carried : carries letters name b ≡ true
      carried =
          carries_intro name b (fold-blank letters name b.name ne f)
            (fold_sym letters name b.name f)

      go :
          (by_name letters s name ≡ none) ⊎ ((a : Device F) × (by_name letters s name ≡ some a))
          → k ≡ j
      go (inl e) = cc (by_name-none letters s name j b e gb, carried)
      go (inr (a, e)) =
          let (filed, has) = by_name-some letters s name a h.is_map h.is_filed e in
          let mine : a.ieee ≡ k =
            same-eq a.ieee d.ieee (its_own a e) ∙ get-IsFiled s k d h.is_filed g in
          h.is_unique k j a b (ap (get s) (sym mine) ∙ filed) gb (carries_name name a has)
            (fold_trans letters a.name name b.name (carries_fold name a has) f)
        where
          its_own : (a : Device F) → by_name letters s name ≡ some a → same a.ieee d.ieee ≡ true
          its_own a e = check-true (same a.ieee d.ieee) (name_is_taken a.ieee) tt (rw e at free)

  pub set_name-IsSound :
      (s : Store F) (ieee : Bytes) (name : Text) (out : Store F × Device F)
      → IsSound letters s
      → set_name letters s ieee name ≡ ok out
      → IsSound letters out.0
  set_name-IsSound s ieee name out h e =
      let (d, g, _, free, r) = set_name-Named s ieee name out e in
      subst (λ (t : Store F × Device F). IsSound letters t.0) (sym r)
        (put-IsSound letters s (upper letters ieee)
          (record d { name = normalize_name letters name }) h
          (get-IsFiled s (upper letters ieee) d h.is_filed g)
          (named-HasOwnName s (upper letters ieee) (normalize_name letters name) d h g free))

  clear_name_of-IsSound :
      (found : Option (Device F)) (s : Store F) (ieee : Bytes) (out : Store F × Device F × Text)
      → IsSound letters s
      → get s (upper letters ieee) ≡ found
      → clear_name_of letters found s ieee ≡ ok out
      → IsSound letters out.0
  unfolding clear_name_of
  clear_name_of-IsSound none s ieee out h g e = cc
  clear_name_of-IsSound (some d) s ieee out h g e =
      subst (λ (t : Store F × Device F × Text). IsSound letters t.0) (ok-injective e)
        (put_nameless-IsSound letters s (upper letters ieee) (record d { name = [] }) h
          (get-IsFiled s (upper letters ieee) d h.is_filed g) refl)

  clear_name-IsSound :
      (s : Store F) (ieee : Bytes) (out : Store F × Device F × Text)
      → IsSound letters s
      → clear_name letters s ieee ≡ ok out
      → IsSound letters out.0
  unfolding clear_name
  clear_name-IsSound s ieee out h e =
      clear_name_of-IsSound (get s (upper letters ieee)) s ieee out h refl e

  -- A call that fails leaves the registry as it was.
  unfoldable pub or_unchanged :
      {B : Type 0} → Store F → (B → Store F) → Result (NameError F) B → Store F
  or_unchanged s f (ok out) = f out
  or_unchanged s f (err e) = s

  unfoldable pub change : Store F → Change → Store F
  unfolding or_unchanged
  change s (sighted x) = record_sighting s x
  change s (named ieee name) = or_unchanged s (λ out. out.0) (set_name letters s ieee name)
  change s (unnamed ieee) = or_unchanged s (λ out. out.0) (clear_name letters s ieee)

  unfoldable pub change_all : Store F → List Change → Store F
  change_all s [] = s
  change_all s (x ∷ xs) = change_all (change s x) xs

  change-IsSound : (s : Store F) (x : Change) → IsSound letters s → IsSound letters (change s x)
  unfolding change
  change-IsSound s (sighted x) h = record_sighting-IsSound letters s x h
  change-IsSound s (named ieee name) h = elim (Result-cases (set_name letters s ieee name)) [
    | inl (out, e) ↦ rw e (set_name-IsSound s ieee name out h e)
    | inr (x, e) ↦ rw e h
  ]
  change-IsSound s (unnamed ieee) h = elim (Result-cases (clear_name letters s ieee)) [
    | inl (out, e) ↦ rw e (clear_name-IsSound s ieee out h e)
    | inr (x, e) ↦ rw e h
  ]

  -- Through any sequence of joins, traffic, removals, and of names given and taken away, whether
  -- these calls succeed or not, the registry has each key once, every device stays filed under its
  -- own address, and no two devices have names that differ in case alone, if it was so before.
  pub change_all-IsSound :
      (s : Store F) (xs : List Change) → IsSound letters s → IsSound letters (change_all s xs)
  unfolding change_all
  change_all-IsSound s [] h = h
  change_all-IsSound s (x ∷ xs) h = change_all-IsSound (change s x) xs (change-IsSound s x h)
