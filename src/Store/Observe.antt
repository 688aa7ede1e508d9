-- ===== src/Store/Observe.antt =====
-- internal/store/store.go: what sightings do to the registry.
use gzb.Base.{
  ℕ, ◌≡◌, ◌≢◌, refl, sym, ◌∙◌, arith, false, Option, none, some, List, [], ◌∷◌, Bytes, All,
}
use gzb.Store.{
  Device, Entry, Store, get, delete, unknown_ieee, by_node_id, seen, observe_known, observe,
  observe_found, observe_node_id, remove,
}
use gzb.Store.Map.{
  get-put, get-put_other, get-delete, get-delete_other, IsFiled, put-IsFiled, delete-IsFiled,
  get-IsFiled,
}

-- What the registry is told.
pub data Sighting : Type 0 where
  joined : Bytes → ℕ → ℕ → Sighting
  heard : ℕ → ℕ → Sighting
  removed : Bytes → Sighting

module _ {F : Type 0} where
  unfoldable pub record_sighting : Store F → Sighting → Store F
  record_sighting s (joined ieee node now) = (observe s ieee node now).0
  record_sighting s (heard node now) = (observe_node_id s node now).0
  record_sighting s (removed ieee) = (remove s ieee).0

  unfoldable pub record_all : Store F → List Sighting → Store F
  record_all s [] = s
  record_all s (x ∷ xs) = record_all (record_sighting s x) xs

  observe_known-IsFiled :
      (known pending : Option (Device F)) (s : Store F) (ieee : Bytes) (node now : ℕ)
      → All IsFiled s
      → get s ieee ≡ known
      → All IsFiled (observe_known known pending s ieee node now).0
  unfolding observe_known
  observe_known-IsFiled (some d) pending s ieee node now h e =
      put-IsFiled s ieee (seen d node now) h (get-IsFiled s ieee d h e)
  observe_known-IsFiled none (some p) s ieee node now h e =
      put-IsFiled (delete s (unknown_ieee node)) ieee _ (delete-IsFiled s (unknown_ieee node) h)
        refl
  observe_known-IsFiled none none s ieee node now h e = put-IsFiled s ieee _ h refl

  by_node_id-IsFiled :
      (s : Store F) (node : ℕ) (e : Entry F)
      → All IsFiled s
      → by_node_id s node ≡ some e
      → IsFiled e
  unfolding by_node_id
  by_node_id-IsFiled [] node e h q = cc
  by_node_id-IsFiled (x ∷ xs) node e h q = ground (arith, by_node_id-IsFiled xs node e h.1)

  observe_found-IsFiled :
      (found : Option (Entry F)) (s : Store F) (node now : ℕ)
      → All IsFiled s
      → by_node_id s node ≡ found
      → All IsFiled (observe_found found s node now).0
  unfolding observe_found
  observe_found-IsFiled (some e) s node now h q =
      put-IsFiled s e.key (record e.device { last_seen = some now }) h
        (sym (by_node_id-IsFiled s node e h q))
  observe_found-IsFiled none s node now h q = put-IsFiled s (unknown_ieee node) _ h refl

  remove-IsFiled : (s : Store F) (ieee : Bytes) → All IsFiled s → All IsFiled (remove s ieee).0
  unfolding remove
  remove-IsFiled s ieee h = ground (arith, delete-IsFiled s ieee h)

  pub record_sighting-IsFiled :
      (s : Store F) (x : Sighting) → All IsFiled s → All IsFiled (record_sighting s x)
  unfolding record_sighting observe observe_node_id
  record_sighting-IsFiled s (joined ieee node now) h =
      observe_known-IsFiled (get s ieee) (get s (unknown_ieee node)) s ieee node now h refl
  record_sighting-IsFiled s (heard node now) h =
      observe_found-IsFiled (by_node_id s node) s node now h refl
  record_sighting-IsFiled s (removed ieee) h = remove-IsFiled s ieee h

  -- Through any sequence of joins, traffic and removals, every device stays filed under its own
  -- address, if it was before.
  pub record_all-IsFiled :
      (s : Store F) (xs : List Sighting) → All IsFiled s → All IsFiled (record_all s xs)
  unfolding record_all
  record_all-IsFiled s [] h = h
  record_all-IsFiled s (x ∷ xs) h =
      record_all-IsFiled (record_sighting s x) xs (record_sighting-IsFiled s x h)

  module _ (s : Store F) (ieee : Bytes) (node now : ℕ) where
    -- A join that is recorded can be looked up under its address, with the network address and the
    -- time of the join.
    pub get-observe :
        (get (observe s ieee node now).0 ieee ≡ some (observe s ieee node now).1)
        × ((observe s ieee node now).1.node_id ≡ node)
        × ((observe s ieee node now).1.last_seen ≡ some now)
    unfolding observe observe_known
    get-observe = known (get s ieee) (get s (unknown_ieee node))
      where
        known :
            (k p : Option (Device F))
            → (get (observe_known k p s ieee node now).0 ieee
                ≡ some (observe_known k p s ieee node now).1)
              × ((observe_known k p s ieee node now).1.node_id ≡ node)
              × ((observe_known k p s ieee node now).1.last_seen ≡ some now)
        known (some d) p = (get-put s ieee _, refl, refl)
        known none (some p) = (get-put (delete s (unknown_ieee node)) ieee _, refl, refl)
        known none none = (get-put s ieee _, refl, refl)

    -- A join leaves every device alone that is filed neither under its address nor under the
    -- placeholder of its network address.
    pub get-observe_other :
        (other : Bytes)
        → other ≢ ieee
        → other ≢ unknown_ieee node
        → get (observe s ieee node now).0 other ≡ get s other
    unfolding observe observe_known
    get-observe_other other ne np = known (get s ieee) (get s (unknown_ieee node))
      where
        known :
            (k p : Option (Device F))
            → get (observe_known k p s ieee node now).0 other ≡ get s other
        known (some d) p = get-put_other s ieee other _ ne
        known none (some p) =
            get-put_other (delete s (unknown_ieee node)) ieee other _ ne
            ∙ get-delete_other s (unknown_ieee node) other np
        known none none = get-put_other s ieee other _ ne

    -- A join of an address that is not in the registry, for a network address whose placeholder
    -- is, takes over all that was recorded under the placeholder, which is gone, and is not
    -- reported as new; the address is not itself that placeholder.
    pub observe_promotes :
        (p : Device F)
        → ieee ≢ unknown_ieee node
        → get s ieee ≡ none
        → get s (unknown_ieee node) ≡ some p
        → (get (observe s ieee node now).0 ieee
            ≡ some (record p { ieee = ieee; node_id = node; last_seen = some now }))
          × (get (observe s ieee node now).0 (unknown_ieee node) ≡ none)
          × ((observe s ieee node now).2 ≡ false)
    unfolding observe observe_known
    observe_promotes p ne unseen pending =
        rw (unseen, pending)
          (
            get-put (delete s (unknown_ieee node)) ieee _,
            get-put_other (delete s (unknown_ieee node)) ieee (unknown_ieee node) _
                  (λ e. ne (sym e))
                ∙ get-delete s (unknown_ieee node),
            refl,
          )

    -- A join of an address that is in the registry already leaves a placeholder of its new network
    -- address as it was, beside the device, which now has that network address too.
    pub observe_leaves_placeholder :
        (d p : Device F)
        → ieee ≢ unknown_ieee node
        → get s ieee ≡ some d
        → get s (unknown_ieee node) ≡ some p
        → (get (observe s ieee node now).0 (unknown_ieee node) ≡ some p)
          × (get (observe s ieee node now).0 ieee
              ≡ some (record d { node_id = node; last_seen = some now }))
    unfolding observe observe_known
    observe_leaves_placeholder d p ne known pending = rw known (
      get-put_other s ieee (unknown_ieee node) _ (λ e. ne (sym e)) ∙ pending,
      get-put s ieee (seen d node now),
    )
