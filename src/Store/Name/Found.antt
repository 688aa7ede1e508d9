-- ===== src/Store/Name/Found.antt =====
-- internal/store/name.go: a device answers to the name that it was given.
use gzb.Base.{
  ℕ, ◌⊎◌, ◌≡◌, ◌≢◌, refl, sym, ap, subst, arith, Bool, true, false, not, ◌&&◌, Option, none, some,
  List, [], ◌∷◌, Bool-cases, inl, inr, Bytes, All,
}
use gzb.Base.Result.{ok, check-then}
use gzb.Base.Strings.{same, same_self, same-eq}
use gzb.Base.Letters.{Text, Letters, is_blank, join, fields, lower, upper, equal_fold, trim_space}
use gzb.Base.Letters.Fields.{fields-AreFields, fields-join, trim_space-join}
use gzb.Store.{Device, Store, get}
use gzb.Store.Map.{get-put}
use gzb.Store.Keys.{IsMap, get_behind, get_front}
use gzb.Store.Name.{
  empty_name, long_name, control_character, looks_like_node_id, normalize_name, validate_name,
  parse_node_id, is_node_id, set_name, precedes, insert_sorted, list_devices, exact, search_names,
  resolve,
}
use gzb.Store.Name.Unique.{AreUnique, IsSound}
use gzb.Store.Name.Naming.{set_name-Named, set_name-IsSound}

module _ {F : Type 0} where
  abbrev Contains : Device F → List (Device F) → Type 0
  Contains d [] = ⊥
  Contains d (x ∷ xs) = (x ≡ d) ⊎ Contains d xs

  insert_sorted-Contains :
      (d x : Device F) (xs : List (Device F))
      → Contains d (x ∷ xs)
      → Contains d (insert_sorted x xs)
  unfolding insert_sorted
  insert_sorted-Contains d x [] h = h
  insert_sorted-Contains d x (y ∷ ys) h = elim (Bool-cases (precedes y x)) [
    | inl e ↦ rw e (behind (insert_sorted-Contains d x ys) h)
    | inr e ↦ rw e h
  ]
    where
      behind :
          (Contains d (x ∷ ys) → Contains d (insert_sorted x ys))
          → Contains d (x ∷ y ∷ ys)
          → Contains d (y ∷ insert_sorted x ys)
      behind ih (inl q) = inr (ih (inl q))
      behind ih (inr (inl q)) = inl q
      behind ih (inr (inr q)) = inr (ih (inr q))

  insert_sorted-All :
      (P : Device F → Type 0) (x : Device F) (xs : List (Device F))
      → P x
      → All P xs
      → All P (insert_sorted x xs)
  unfolding insert_sorted
  insert_sorted-All P x [] p h = (p, tt)
  insert_sorted-All P x (y ∷ ys) p h = elim (Bool-cases (precedes y x)) [
    | inl e ↦ rw e (h.0, insert_sorted-All P x ys p h.1)
    | inr e ↦ rw e (p, h)
  ]

  -- `List` has every device of the map, and no other.
  list_devices-Contains :
      (s : Store F) (k : Bytes) (d : Device F) → get s k ≡ some d → Contains d (list_devices s)
  unfolding list_devices get
  list_devices-Contains [] k d h = cc
  list_devices-Contains (e ∷ es) k d h = elim (Bool-cases (same e.key k)) [
    | inl q ↦ insert_sorted-Contains d e.device (list_devices es) (inl (found q))
    | inr q ↦
        insert_sorted-Contains d e.device (list_devices es)
          (inr (list_devices-Contains es k d (passed q)))
  ]
    where
      found : same e.key k ≡ true → e.device ≡ d
      found q = ground arith

      passed : same e.key k ≡ false → get es k ≡ some d
      passed q = ground arith

  list_devices-All :
      (P : Device F → Type 0) (s : Store F)
      → IsMap s
      → ((k : Bytes) (d : Device F) → get s k ≡ some d → P d)
      → All P (list_devices s)
  unfolding list_devices
  list_devices-All P [] m h = tt
  list_devices-All P (e ∷ es) m h =
      insert_sorted-All P e.device (list_devices es) (h e.key e.device (get_front e es))
        (list_devices-All P es m.1 (λ k d g. h k d (get_behind e es k d m.0 g)))

module _ (letters : Letters) where
  -- A normal name is left as it is by what `Resolve` does to a query.
  normalize_name-normalize_name :
      letters.is_space 32 ≡ true
      → (s : Text) → normalize_name letters (normalize_name letters s) ≡ normalize_name letters s
  unfolding normalize_name
  normalize_name-normalize_name space s =
      ap join (fields-join letters space (fields letters s) (fields-AreFields letters s))

  trim_space-normalize_name :
      (s : Text) → trim_space letters (normalize_name letters s) ≡ normalize_name letters s
  unfolding normalize_name
  trim_space-normalize_name s =
      trim_space-join letters (fields letters s) (fields-AreFields letters s)

module _ (letters : Letters) {F : Type 0} where
  -- A device has a name that is the query, but for case.
  abbrev answers : Text → Device F → Bool
  answers fold d = not (is_blank d.name) && same (lower letters d.name) fold

  answers_named : (fold : Text) (d : Device F) → answers fold d ≡ true → d.name ≢ []
  answers_named fold d h = ground arith

  answers-lower : (fold : Text) (d : Device F) → answers fold d ≡ true → lower letters d.name ≡ fold
  answers-lower fold d h = same-eq (lower letters d.name) fold (ground arith)

  answers_self : (d : Device F) → is_blank d.name ≡ false → answers (lower letters d.name) d ≡ true
  answers_self d h = ground (arith, same_self (lower letters d.name))

  -- The walk ends at the only device of which that is so.
  search_names-exact :
      (fold : Text) (d : Device F) (ds prefix substring : List (Device F))
      → Contains d ds
      → answers fold d ≡ true
      → All (λ e. answers fold e ≡ true → e ≡ d) ds
      → search_names letters fold ds prefix substring ≡ exact d
  unfolding search_names
  search_names-exact fold d [] prefix substring c a h = absurd c
  search_names-exact fold d (x ∷ xs) prefix substring (inr c) a h =
      elim (Bool-cases (answers fold x)) [
        | inl e ↦ rw e (ap exact (h.0 e))
        | inr e ↦ rw e (search_names-exact fold d xs _ _ c a h.1)
      ]
  search_names-exact fold d (x ∷ xs) prefix substring (inl c) a h =
      rw (subst (λ (t : Device F). answers fold t ≡ true) (sym c) a) (ap exact c)

  -- A valid name is not blank, and no network address.
  validate_name-ok :
      (name : Text)
      → validate_name letters {F = F} name ≡ ok tt
      → (is_blank name ≡ false) × (parse_node_id letters name ≡ none)
  unfolding validate_name
  validate_name-ok name h =
      let (a, h1) = check-then _ empty_name _ h in
      let (b, h2) = check-then _ long_name _ h1 in
      let (c, h3) = check-then _ control_character _ h2 in
      let (d, _) = check-then _ looks_like_node_id _ h3 in
      (not_true (is_blank name) a, no_id (parse_node_id letters name) d)
    where
      not_true : (b : Bool) → not b ≡ true → b ≡ false
      not_true b h = ground arith

      no_id : (o : Option ℕ) → not (is_node_id letters o) ≡ true → o ≡ none
      no_id none h = refl
      no_id (some v) h = cc

  -- The device that was named is the only one whose name is this one but for case.
  only_named :
      (s : Store F) (k : Bytes) (d : Device F)
      → AreUnique letters s
      → get s k ≡ some d
      → ((j : Bytes) (e : Device F)
          → get s j ≡ some e
          → lower letters e.name ≡ lower letters d.name
          → equal_fold letters e.name d.name ≡ true)
      → (j : Bytes) (e : Device F) → get s j ≡ some e
      → answers (lower letters d.name) e ≡ true
      → e ≡ d
  only_named s k d u g folds j e ge a =
      let same_key : j ≡ k =
        u j k e d ge g (answers_named (lower letters d.name) e a)
          (folds j e ge (answers-lower (lower letters d.name) e a)) in
      cc

  resolve-exact :
      (s : Store F) (d : Device F)
      → trim_space letters d.name ≡ d.name
      → normalize_name letters d.name ≡ d.name
      → is_blank d.name ≡ false
      → parse_node_id letters d.name ≡ none
      → get s (upper letters d.name) ≡ none
      → search_names letters (lower letters d.name) (list_devices s) [] [] ≡ exact d
      → resolve letters s d.name ≡ ok d
  unfolding resolve
  resolve-exact s d trimmed normal named no_id no_key found =
      rw (trimmed, named, no_key, no_id, normal, found) refl

  -- After a name was given to a device, `Resolve` finds the device by it: in a registry with each
  -- key once, each device under its address and no name twice, if the name in capitals is no key of
  -- the registry, and no device has a name that `ToLower` takes to the same as the new name although
  -- `EqualFold` tells the two apart.
  pub resolve-set_name :
      letters.is_space 32 ≡ true
      → (s : Store F) (ieee : Bytes) (name : Text) (out : Store F × Device F) → IsSound letters s
      → set_name letters s ieee name ≡ ok out
      → ((j : Bytes) (e : Device F)
          → get out.0 j ≡ some e
          → lower letters e.name ≡ lower letters out.1.name
          → equal_fold letters e.name out.1.name ≡ true)
      → get out.0 (upper letters out.1.name) ≡ none
      → resolve letters out.0 out.1.name ≡ ok out.1
  resolve-set_name space s ieee name out h e folds no_key =
      let (d, g, valid, free, r) = set_name-Named letters s ieee name out e in
      let is_name : out.1.name ≡ normalize_name letters name =
        ap (λ (t : Store F × Device F). t.1.name) r in
      let (named, no_id) =
        subst (λ (t : Text). (is_blank t ≡ false) × (parse_node_id letters t ≡ none)) (sym is_name)
          (validate_name-ok (normalize_name letters name) valid) in
      let filed : get out.0 (upper letters ieee) ≡ some out.1 =
        rw r (get-put s (upper letters ieee) (record d { name = normalize_name letters name })) in
      let sound = set_name-IsSound letters s ieee name out h e in
      resolve-exact out.0 out.1 (rw is_name (trim_space-normalize_name letters name))
        (rw is_name (normalize_name-normalize_name letters space name)) named no_id no_key
        (search_names-exact (lower letters out.1.name) out.1 (list_devices out.0) [] []
          (list_devices-Contains out.0 (upper letters ieee) out.1 filed) (answers_self out.1 named)
          (list_devices-All (λ t. answers (lower letters out.1.name) t ≡ true → t ≡ out.1) out.0
            sound.is_map (only_named out.0 (upper letters ieee) out.1 sound.is_unique filed folds)))
