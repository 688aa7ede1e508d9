-- ===== src/Prompt/Resolve.antt =====
-- cmd/gzb/resolve.go: what a device argument means. A device is its public record (Zigbee.Devices), and
-- an error is a case of its own, with what its message shows.
pub mod Tiers
pub mod Target
pub mod Named
pub mod Scope
use gzb.Base.{
  ℕ, Bool, true, false, not, ◌&&◌, ◌||◌, Option, none, some, List, [], ◌∷◌, ◌==◌, ltb,
  if◌then◌else◌, Bytes,
}
use gzb.Base.Int.{ℤ}
use gzb.Base.Result.{Result, ok, err, ◌>>=◌, ◌>>◌, check}
use gzb.Base.Strings.{same, has_prefix}
use gzb.Base.Letters.{Text, Letters, is_blank, has_suffix, contains, lower, equal_fold, trim_space}
use gzb.Store.{Device}
use gzb.Store.Name.{normalize_name, parse_node_id}
use gzb.Zigbee.Devices.{endpoint_for, describe_snapshot}

pub data ResolveError (F : Type 0) : Type 0 where
  no_such_device : ResolveError F
  ambiguous : Text → List (Device F) → ResolveError F
  endpoint_out_of_range : ℤ → ResolveError F

-- `resolution`
pub record Resolution (F : Type 0) : Type 0 where
  pub node : ℕ
  pub name : Bytes
  pub device : Option (Device F)

abbrev pub is_tier : ℕ → Option ℕ → Bool
is_tier n none = false
is_tier n (some m) = m == n

abbrev pub is_given : Option ℕ → Bool
is_given none = false
is_given (some ep) = true

module _ (letters : Letters) {F : Type 0} where
  -- The switch of `findDevice`: in which of the four lists a device is put, if in any.
  unfoldable pub tier : Text → Device F → Option ℕ
  unfolding has_suffix contains
  tier fold d =
      if is_blank d.name
      then none
      else if same (lower letters d.name) fold
      then some 0
      else if has_prefix (lower letters d.name) fold
      then some 1
      else if has_suffix (lower letters d.name) fold
      then some 2
      else if contains (lower letters d.name) fold
      then some 3
      else none

  -- `tiers[n]` behind the loop.
  unfoldable pub tier_list : Text → ℕ → List (Device F) → List (Device F)
  tier_list fold n [] = []
  tier_list fold n (d ∷ ds) =
      if is_tier n (tier fold d) then d ∷ tier_list fold n ds else tier_list fold n ds

  -- The second loop: the first list that is not empty decides.
  abbrev pub pick : Text → List (List (Device F)) → Result (ResolveError F) (Device F)
  pick q [] = err no_such_device
  pick q ([] ∷ rest) = pick q rest
  pick q ((d ∷ []) ∷ rest) = ok d
  pick q ((d ∷ d' ∷ ds) ∷ rest) = err (ambiguous q (d ∷ d' ∷ ds))

  unfoldable pub find_named : List (Device F) → Text → Result (ResolveError F) (Device F)
  unfolding tier_list tier normalize_name
  find_named ds q =
      let fold = lower letters (normalize_name letters q) in
      pick q
        (tier_list fold 0 ds ∷ tier_list fold 1 ds ∷ tier_list fold 2 ds ∷ tier_list fold 3 ds ∷ [])

  unfoldable pub by_address : List (Device F) → Text → Option (Device F)
  unfolding equal_fold
  by_address [] q = none
  by_address (d ∷ ds) q =
      let rest = by_address ds q in
      if not (is_blank d.ieee) && equal_fold letters d.ieee q then some d else rest

  unfoldable pub by_node : List (Device F) → ℕ → Result (ResolveError F) (Device F)
  by_node [] id = err no_such_device
  by_node (d ∷ ds) id = let rest = by_node ds id in if d.node_id == id then ok d else rest

  -- `findDevice`
  unfoldable pub find_among :
      Option (Device F) → Option ℕ → List (Device F) → Text → Result (ResolveError F) (Device F)
  unfolding find_named by_node
  find_among (some d) id ds q = ok d
  find_among none (some id) ds q = by_node ds id
  find_among none none ds q = find_named ds q

  unfoldable pub find_device : List (Device F) → Text → Result (ResolveError F) (Device F)
  unfolding find_among by_address parse_node_id trim_space
  find_device ds query =
      let q = trim_space letters query in
      if is_blank q
      then err no_such_device
      else find_among (by_address ds q) (parse_node_id letters q) ds q

  -- `withCluster`
  unfoldable pub with_cluster : List (Device F) → ℕ → List (Device F)
  unfolding endpoint_for
  with_cluster [] cluster = []
  with_cluster (d ∷ ds) cluster =
      if is_given (endpoint_for d cluster)
      then d ∷ with_cluster ds cluster
      else with_cluster ds cluster

  -- The end of `resolveDevice`.
  abbrev bare : Bytes → Option ℕ → Result (ResolveError F) (Resolution F)
  bare arg none = err no_such_device
  bare arg (some node) = ok (record { node = node; name = arg; device = none })

  unfoldable pub resolution_of :
      Text → Result (ResolveError F) (Device F) → Result (ResolveError F) (Resolution F)
  unfolding parse_node_id describe_snapshot
  resolution_of arg (ok d) =
      ok (record { node = d.node_id; name = describe_snapshot d; device = some d })
  resolution_of arg (err no_such_device) = bare arg (parse_node_id letters arg)
  resolution_of arg (err (ambiguous q ds)) = err (ambiguous q ds)
  resolution_of arg (err (endpoint_out_of_range n)) = err (endpoint_out_of_range n)

  -- `if errors.Is(err, zigbee.ErrNoDevice)`
  abbrev pub or_else :
      Result (ResolveError F) (Device F)
      → Result (ResolveError F) (Device F)
      → Result (ResolveError F) (Device F)
  or_else (ok d) other = ok d
  or_else (err no_such_device) other = other
  or_else (err (ambiguous q ds)) other = err (ambiguous q ds)
  or_else (err (endpoint_out_of_range n)) other = err (endpoint_out_of_range n)

  -- `resolveDevice`
  unfoldable pub resolve_device :
      List (Device F) → Text → ℕ → Result (ResolveError F) (Resolution F)
  unfolding resolution_of find_device with_cluster
  resolve_device ds arg scope = resolution_of arg (
      if scope == 0
      then find_device ds arg
      else or_else (find_device (with_cluster ds scope) arg) (find_device ds arg))
