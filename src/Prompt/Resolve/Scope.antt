-- ===== src/Prompt/Resolve/Scope.antt =====
-- cmd/gzb/resolve.go: the scope of a command comes before the name.
use gzb.Base.{ℕ, ◌≡◌, ◌≢◌, refl, ap, ◌∙◌, false, none, some, List, ◌==◌, ==_ne}
use gzb.Base.Result.{Result, ok}
use gzb.Base.Letters.{Text, Letters, is_blank, lower, trim_space}
use gzb.Store.{Device}
use gzb.Store.Name.{normalize_name, parse_node_id}
use gzb.Zigbee.Devices.{describe_snapshot}
use gzb.Prompt.Resolve.{
  ResolveError, find_named, by_address, find_device, with_cluster, or_else, resolution_of,
  resolve_device,
}
use gzb.Prompt.Resolve.Tiers.{StandsOut}
use gzb.Prompt.Resolve.Named.{find_named-StandsOut}

module _ (letters : Letters) {F : Type 0} where
  -- A query that is no address, as `findDevice` takes it.
  abbrev pub IsName : List (Device F) → Text → Type 0
  IsName ds q =
      (trim_space letters q ≡ q)
      × (is_blank q ≡ false)
      × (parse_node_id letters q ≡ none)
      × (by_address letters ds q ≡ none)

  find_device-find_named :
      (ds : List (Device F)) (q : Text)
      → IsName ds q
      → find_device letters ds q ≡ find_named letters ds q
  unfolding find_device
  find_device-find_named ds q (trimmed, named, no_id, no_address) =
      rw (trimmed, named, no_id, no_address) refl

  resolve_device-unscoped :
      (ds : List (Device F)) (q : Text)
      → resolve_device letters ds q 0 ≡ resolution_of letters q (find_device letters ds q)
  unfolding resolve_device
  resolve_device-unscoped ds q = refl

  resolve_device-scoped :
      (ds : List (Device F)) (q : Text) (scope : ℕ)
      → (scope == 0) ≡ false
      → resolve_device letters ds q scope
        ≡ resolution_of letters q (
            or_else letters
              (find_device letters (with_cluster letters ds scope) q)
              (find_device letters ds q))
  unfolding resolve_device
  resolve_device-scoped ds q scope h = rw h refl

  resolution_of-ok :
      (q : Text) (d : Device F)
      → resolution_of letters q (ok d)
        ≡ ok (record { node = d.node_id; name = describe_snapshot d; device = some d })
  unfolding resolution_of
  resolution_of-ok q d = refl

  -- A command with a scope passes over the device whose whole name was typed, if that device does not
  -- have the cluster and another one with it stands out for the same name: without the scope the name
  -- means the first, and with it the other.
  pub resolve_device_passes_over :
      (ds : List (Device F)) (q : Text) (scope t : ℕ) (d e : Device F)
      → scope ≢ 0
      → IsName ds q
      → IsName (with_cluster letters ds scope) q
      → StandsOut letters (lower letters (normalize_name letters q)) ds d 0
      → StandsOut letters
          (lower letters (normalize_name letters q))
          (with_cluster letters ds scope)
          e
          t
      → (resolve_device letters ds q 0
          ≡ ok (record { node = d.node_id; name = describe_snapshot d; device = some d }))
        × (resolve_device letters ds q scope
            ≡ ok (record { node = e.node_id; name = describe_snapshot e; device = some e }))
  resolve_device_passes_over ds q scope t d e ne name scoped_name whole scoped = (
    resolve_device-unscoped ds q
        ∙ ap (resolution_of letters q)
            (find_device-find_named ds q name ∙ (find_named-StandsOut letters ds q d).1 (0, whole))
        ∙ resolution_of-ok q d,
    resolve_device-scoped ds q scope (==_ne scope 0 ne)
        ∙ ap
            (λ (r : Result (ResolveError F) (Device F)).
              resolution_of letters q (or_else letters r (find_device letters ds q)))
            (find_device-find_named (with_cluster letters ds scope) q scoped_name
              ∙ (find_named-StandsOut letters (with_cluster letters ds scope) q e).1 (t, scoped))
        ∙ resolution_of-ok q e,
  )
