-- ===== src/Prompt/Resolve/Target.antt =====
-- cmd/gzb/resolve.go: which endpoint a command goes to.
use gzb.Base.{
  ℕ, Bool, false, not, ◌||◌, Option, none, some, List, [], ◌∷◌, ◌==◌, ltb, if◌then◌else◌, Bytes,
}
use gzb.Base.Int.{ℤ, pos, negsuc}
use gzb.Base.Result.{Result, ok, ◌>>=◌, ◌>>◌, check}
use gzb.Base.Letters.{Text, Letters}
use gzb.Store.{Device}
use gzb.Zigbee.Devices.{endpoint_for}
use gzb.Zigbee.Command.{Target}
use gzb.Prompt.Resolve.{ResolveError, endpoint_out_of_range, resolve_device}

abbrev pub first_app_endpoint : ℕ
first_app_endpoint = 1

abbrev pub last_app_endpoint : ℕ
last_app_endpoint = 240

-- `checkEndpoint`
unfoldable pub in_app_range : ℤ → Bool
in_app_range (pos n) = n == 0 || not (ltb n first_app_endpoint || ltb last_app_endpoint n)
in_app_range (negsuc n) = false

unfoldable pub check_endpoint : {F : Type 0} → ℤ → Result (ResolveError F) (Unit {0})
unfolding in_app_range
check_endpoint endpoint = check (in_app_range endpoint) (endpoint_out_of_range endpoint)

-- `uint8(endpoint)`, for an endpoint that is given.
abbrev pub given_or : ℤ → ℕ → ℕ
given_or (pos n) other = if n == 0 then other else n
given_or (negsuc n) other = other

abbrev pub light_clusters : List ℕ
light_clusters = 0x0006 ∷ 0x0008 ∷ 0x0300 ∷ []

module _ {F : Type 0} where
  abbrev pub endpoint_of : Option (Device F) → ℕ → ℕ
  endpoint_of none cluster = first_app_endpoint
  endpoint_of (some d) cluster = elim (endpoint_for d cluster) [
    | some ep ↦ ep
    | none ↦ first_app_endpoint
  ]

  -- The loop over `lightClusters`: on/off, level and colour control.
  abbrev pub light_endpoint : Option (Device F) → List ℕ → ℕ
  light_endpoint none clusters = first_app_endpoint
  light_endpoint (some d) [] = first_app_endpoint
  light_endpoint (some d) (c ∷ cs) =
      let rest = light_endpoint (some d) cs in
      elim (endpoint_for d c) [ some ep ↦ ep | none ↦ rest ]

  module _ (letters : Letters) where
    -- `resolveTarget`
    unfoldable pub resolve_target :
        List (Device F) → Text → ℕ → ℤ → Result (ResolveError F) (Target × Bytes)
    unfolding check_endpoint resolve_device
    resolve_target ds arg cluster endpoint = do
      check_endpoint endpoint
      r ← resolve_device letters ds arg cluster
      ok (
        record {
          node = r.node;
          endpoint = given_or endpoint (endpoint_of r.device cluster);
          cluster = cluster;
        },
        r.name,
      )

    -- `resolveLight`: the node, the endpoint and the name.
    unfoldable pub resolve_light :
        List (Device F) → Text → ℤ → Result (ResolveError F) (ℕ × ℕ × Bytes)
    unfolding check_endpoint resolve_device
    resolve_light ds arg endpoint = do
      check_endpoint endpoint
      r ← resolve_device letters ds arg 0x0006
      ok (r.node, given_or endpoint (light_endpoint r.device light_clusters), r.name)
