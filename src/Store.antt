-- ===== src/Store.antt =====
-- internal/store/store.go: the registry. A map is an association list, of which only look-ups are used;
-- where the source walks it, in an order that Go leaves open, the order of the list stands for that
-- order. A time is a number, and the zero time is `none`. Strings are their bytes. Files and JSON are
-- left out.
pub mod Map
pub mod Observe
pub mod Peer
pub mod Keys
pub mod Name
use gzb.Base.{
  ℕ, ◌+◌, ◌/◌, ◌%◌, Bool, true, false, not, ◌&&◌, ◌||◌, Option, none, some, List, [], ◌∷◌, ◌++◌,
  ◌==◌, ltb, if◌then◌else◌, Bytes,
}
use gzb.Base.Strings.{same, has_prefix}

pub record Endpoint : Type 0 where
  pub id : ℕ
  pub profile : ℕ
  pub device : ℕ
  pub input : List ℕ
  pub output : List ℕ

-- The value is a float64, of which nothing is asked here.
pub record Reading (F : Type 0) : Type 0 where
  pub quantity : Bytes
  pub value : F
  pub unit : Bytes
  pub at : ℕ

pub record Device (F : Type 0) : Type 0 where
  pub ieee : Bytes
  pub node_id : ℕ
  pub first_seen : Option ℕ
  pub last_seen : Option ℕ
  pub node_type : Bytes
  pub parent : Option ℕ
  pub capability : Option ℕ
  pub name : Bytes
  pub readings : List (Reading F)
  pub manufacturer : Bytes
  pub model : Bytes
  pub power_source : Bytes
  pub endpoints : List Endpoint
  pub interviewed : Option ℕ
  pub inherited_from : Bytes

-- `&Device{IEEE: ieee}`
abbrev pub blank : {F : Type 0} → Bytes → Device F
blank addr = record {
  ieee = addr;
  node_id = 0;
  first_seen = none;
  last_seen = none;
  node_type = [];
  parent = none;
  capability = none;
  name = [];
  readings = [];
  manufacturer = [];
  model = [];
  power_source = [];
  endpoints = [];
  interviewed = none;
  inherited_from = [];
}

-- A map entry.
pub record Entry (F : Type 0) : Type 0 where
  pub key : Bytes
  pub device : Device F

abbrev pub Store : Type 0 → Type 0
Store F = List (Entry F)

-- "unknown:"
abbrev pub unknown_prefix : Bytes
unknown_prefix = 117 ∷ 110 ∷ 107 ∷ 110 ∷ 111 ∷ 119 ∷ 110 ∷ 58 ∷ []

-- A digit of `%X`.
abbrev pub hex_digit : ℕ → ℕ
hex_digit d = if ltb d 10 then 48 + d else 55 + d

-- `%04X` of a uint16, behind "0x".
unfoldable pub hex_word : ℕ → Bytes
hex_word node =
    48
    ∷ 120
    ∷ hex_digit (node / 4096 % 16)
    ∷ hex_digit (node / 256 % 16)
    ∷ hex_digit (node / 16 % 16)
    ∷ hex_digit (node % 16)
    ∷ []

-- `unknownIEEE`
unfoldable pub unknown_ieee : ℕ → Bytes
unfolding hex_word
unknown_ieee node = unknown_prefix ++ hex_word node

abbrev pub is_empty : {A : Type 0} → List A → Bool
is_empty [] = true
is_empty (x ∷ xs) = false

-- `IsZero` and the instant of a time.
abbrev pub never : Option ℕ → Bool
never none = true
never (some t) = false

abbrev pub since : Option ℕ → ℕ
since none = 0
since (some t) = t

-- `<` on strings.
unfoldable pub before : Bytes → Bytes → Bool
before [] [] = false
before [] (b ∷ bs) = true
before (a ∷ rest) [] = false
before (a ∷ rest) (b ∷ bs) = ltb a b || a == b && before rest bs

module _ {F : Type 0} where
  -- `Identified`
  unfoldable pub identified : Device F → Bool
  identified d = not (has_prefix d.ieee unknown_prefix)

  -- `s.Devices[k]`, `s.Devices[k] = d` and `delete(s.Devices, k)`.
  unfoldable pub get : Store F → Bytes → Option (Device F)
  get [] k = none
  get (e ∷ es) k = let rest = get es k in if same e.key k then some e.device else rest

  unfoldable pub put : Store F → Bytes → Device F → Store F
  put [] k d = record { key = k; device = d } ∷ []
  put (e ∷ es) k d =
      let rest = put es k d in
      if same e.key k then record { key = e.key; device = d } ∷ es else e ∷ rest

  unfoldable pub delete : Store F → Bytes → Store F
  delete [] k = []
  delete (e ∷ es) k = let rest = delete es k in if same e.key k then rest else e ∷ rest

  -- `ByNodeID`: the key of the device found.
  unfoldable pub by_node_id : Store F → ℕ → Option (Entry F)
  by_node_id [] id = none
  by_node_id (e ∷ es) id =
      let rest = by_node_id es id in if e.device.node_id == id then some e else rest

  -- The two assignments at the end of `Observe`.
  abbrev pub seen : Device F → ℕ → ℕ → Device F
  seen d node now = record d { node_id = node; last_seen = some now }

  -- `Observe`, on what the two look-ups give.
  unfoldable pub observe_known :
      Option (Device F) → Option (Device F) → Store F → Bytes → ℕ → ℕ → Store F × Device F × Bool
  observe_known (some d) pending s ieee node now =
      (put s ieee (seen d node now), seen d node now, false)
  observe_known none (some p) s ieee node now =
      let d = seen (record p { ieee = ieee }) node now in
      (put (delete s (unknown_ieee node)) ieee d, d, false)
  observe_known none none s ieee node now =
      let d = seen (record (blank ieee) { first_seen = some now }) node now in
      (put s ieee d, d, true)

  unfoldable pub observe : Store F → Bytes → ℕ → ℕ → Store F × Device F × Bool
  observe s ieee node now = observe_known (get s ieee) (get s (unknown_ieee node)) s ieee node now

  -- `ObserveNodeID`
  unfoldable pub observe_found : Option (Entry F) → Store F → ℕ → ℕ → Store F × Device F × Bool
  observe_found (some e) s node now =
      let d = record e.device { last_seen = some now } in (put s e.key d, d, false)
  observe_found none s node now =
      let d = seen (record (blank (unknown_ieee node)) { first_seen = some now }) node now in
      (put s (unknown_ieee node) d, d, true)

  unfoldable pub observe_node_id : Store F → ℕ → ℕ → Store F × Device F × Bool
  observe_node_id s node now = observe_found (by_node_id s node) s node now

  abbrev pub is_some : Option (Device F) → Bool
  is_some none = false
  is_some (some d) = true

  -- `Remove`
  unfoldable pub remove : Store F → Bytes → Store F × Bool
  remove s ieee = if not (is_some (get s ieee)) then (s, false) else (delete s ieee, true)

  -- `Describe`; a space stands between the two.
  unfoldable pub describe : Device F → Bytes
  describe d =
      if not (is_empty d.name)
      then d.name
      else if not (is_empty d.manufacturer) && not (is_empty d.model)
      then d.manufacturer ++ (32 ∷ d.model)
      else if not (is_empty d.model)
      then d.model
      else d.ieee

  -- The switch of `PeerOfModel`: the devices that it leaves out.
  unfoldable pub left_out : Bytes → Bytes → Bytes → Device F → Bool
  left_out manufacturer model exclude d =
      same d.ieee exclude
      || not (identified d)
      || not (is_empty d.inherited_from)
      || not (same d.manufacturer manufacturer)
      || not (same d.model model)
      || is_empty d.endpoints
      || never d.interviewed

  -- `best == nil || ...`: a later interview, or the smaller address at the same time.
  unfoldable pub replaces : Option (Device F) → Device F → Bool
  replaces none d = true
  replaces (some best) d =
      let at = since d.interviewed in
      let best_at = since best.interviewed in
      ltb best_at at || at == best_at && before d.ieee best.ieee

  unfoldable pub peer_from : Bytes → Bytes → Bytes → Option (Device F) → Store F → Option (Device F)
  peer_from manufacturer model exclude best [] = best
  peer_from manufacturer model exclude best (e ∷ es) =
      peer_from manufacturer model exclude
        (if left_out manufacturer model exclude e.device
          then best
          else if replaces best e.device
          then some e.device
          else best)
        es

  -- `PeerOfModel`
  unfoldable pub peer_of_model : Store F → Bytes → Bytes → Bytes → Option (Device F)
  peer_of_model s manufacturer model exclude =
      if is_empty model then none else peer_from manufacturer model exclude none s

-- `HasCluster`: the first endpoint with the cluster among its inputs.
unfoldable pub lists_cluster : List ℕ → ℕ → Bool
lists_cluster [] cluster = false
lists_cluster (c ∷ cs) cluster = c == cluster || lists_cluster cs cluster

unfoldable pub endpoint_of_cluster : List Endpoint → ℕ → Option ℕ
endpoint_of_cluster [] cluster = none
endpoint_of_cluster (ep ∷ eps) cluster =
    let rest = endpoint_of_cluster eps cluster in
    if lists_cluster ep.input cluster then some ep.id else rest

unfoldable pub has_cluster : {F : Type 0} → Device F → ℕ → Option ℕ
has_cluster d cluster = endpoint_of_cluster d.endpoints cluster
