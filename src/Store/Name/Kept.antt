-- ===== src/Store/Name/Kept.antt =====
-- internal/store/name.go and store.go: names stay unique, whatever the registry is told.
use gzb.Base.{
  ℕ, ◌⊎◌, ◌≡◌, refl, sym, subst, ◌∙◌, true, false, Option, none, some, [], Bool-cases, inl, inr,
  Bytes,
}
use gzb.Base.Strings.{same, same-eq}
use gzb.Base.Letters.{Text, Letters, equal_fold}
use gzb.Store.{
  Device, Entry, Store, blank, get, put, delete, unknown_ieee, by_node_id, seen, observe,
  observe_known, observe_node_id, observe_found, is_some, remove,
}
use gzb.Store.Map.{get-delete, get-delete_other, put-IsFiled, delete-IsFiled, get-IsFiled}
use gzb.Store.Keys.{put-IsMap, delete-IsMap, get-by_node_id, same-ne}
use gzb.Store.Observe.{Sighting, joined, heard, removed, record_sighting}
use gzb.Store.Name.Unique.{
  AreUnique, HasOwnName, put-AreUnique, delete-AreUnique, nameless, renewed, IsSound,
}

module _ (letters : Letters) {F : Type 0} where
  pub put-IsSound :
      (s : Store F) (k : Bytes) (d : Device F)
      → IsSound letters s
      → d.ieee ≡ k
      → HasOwnName letters s k d
      → IsSound letters (put s k d)
  put-IsSound s k d h e own = record {
    is_map = put-IsMap s k d h.is_map;
    is_filed = put-IsFiled s k d h.is_filed e;
    is_unique = put-AreUnique letters s k d h.is_unique own;
  }

  pub put_nameless-IsSound :
      (s : Store F) (k : Bytes) (d : Device F)
      → IsSound letters s
      → d.ieee ≡ k
      → d.name ≡ []
      → IsSound letters (put s k d)
  put_nameless-IsSound s k d h e n = put-IsSound s k d h e (nameless letters s k d n)

  put_renewed-IsSound :
      (s : Store F) (k : Bytes) (d d' : Device F)
      → IsSound letters s
      → get s k ≡ some d
      → d'.ieee ≡ d.ieee
      → d'.name ≡ d.name
      → IsSound letters (put s k d')
  put_renewed-IsSound s k d d' h g e n =
      put-IsSound s k d' h (e ∙ get-IsFiled s k d h.is_filed g)
        (renewed letters s k d d' h.is_unique g n)

  delete-IsSound : (s : Store F) (k : Bytes) → IsSound letters s → IsSound letters (delete s k)
  delete-IsSound s k h = record {
    is_map = delete-IsMap s k h.is_map;
    is_filed = delete-IsFiled s k h.is_filed;
    is_unique = delete-AreUnique letters s k h.is_unique;
  }

  -- A device that is gone from its key takes its name with it.
  moved :
      (s : Store F) (k ieee : Bytes) (d d' : Device F)
      → AreUnique letters s
      → get s k ≡ some d
      → d'.name ≡ d.name
      → HasOwnName letters (delete s k) ieee d'
  moved s k ieee d d' u g n j b gb ne f = go (Bool-cases (same j k))
    where
      go : (same j k ≡ true) ⊎ (same j k ≡ false) → ieee ≡ j
      go (inl q) = absurd (cc (get-delete s k, same-eq j k q))
      go (inr q) = absurd (
          same-ne j k q (
            sym (
              u k j d b g (sym (get-delete_other s k j (same-ne j k q)) ∙ gb) (λ x. ne (n ∙ x))
                (subst (λ (t : Text). equal_fold letters t b.name ≡ true) n f))))

  observe_known-IsSound :
      (known pending : Option (Device F)) (s : Store F) (ieee : Bytes) (node now : ℕ)
      → IsSound letters s
      → get s ieee ≡ known
      → get s (unknown_ieee node) ≡ pending
      → IsSound letters (observe_known known pending s ieee node now).0
  unfolding observe_known
  observe_known-IsSound (some d) pending s ieee node now h e p =
      put_renewed-IsSound s ieee d (seen d node now) h e refl refl
  observe_known-IsSound none none s ieee node now h e p =
      put_nameless-IsSound s ieee (seen (record (blank ieee) { first_seen = some now }) node now) h
        refl refl
  observe_known-IsSound none (some d) s ieee node now h e p =
      put-IsSound (delete s (unknown_ieee node)) ieee (seen (record d { ieee = ieee }) node now)
        (delete-IsSound s (unknown_ieee node) h) refl
        (moved s (unknown_ieee node) ieee d (seen (record d { ieee = ieee }) node now) h.is_unique p
          refl)

  observe_found-IsSound :
      (found : Option (Entry F)) (s : Store F) (node now : ℕ)
      → IsSound letters s
      → by_node_id s node ≡ found
      → IsSound letters (observe_found found s node now).0
  unfolding observe_found
  observe_found-IsSound (some e) s node now h q =
      put_renewed-IsSound s e.key e.device (record e.device { last_seen = some now }) h
        (get-by_node_id s node e h.is_map q).0 refl refl
  observe_found-IsSound none s node now h q =
      put_nameless-IsSound s (unknown_ieee node)
        (seen (record (blank (unknown_ieee node)) { first_seen = some now }) node now) h refl refl

  remove-IsSound :
      (s : Store F) (ieee : Bytes) → IsSound letters s → IsSound letters (remove s ieee).0
  unfolding remove
  remove-IsSound s ieee h = elim (Bool-cases (is_some (get s ieee))) [
    | inl e ↦ rw e (delete-IsSound s ieee h)
    | inr e ↦ rw e h
  ]

  pub record_sighting-IsSound :
      (s : Store F) (x : Sighting) → IsSound letters s → IsSound letters (record_sighting s x)
  unfolding record_sighting observe observe_node_id
  record_sighting-IsSound s (joined ieee node now) h =
      observe_known-IsSound (get s ieee) (get s (unknown_ieee node)) s ieee node now h refl refl
  record_sighting-IsSound s (heard node now) h =
      observe_found-IsSound (by_node_id s node) s node now h refl
  record_sighting-IsSound s (removed ieee) h = remove-IsSound s ieee h
