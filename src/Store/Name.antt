-- ===== src/Store/Name.antt =====
-- internal/store/name.go: the names that people give devices. A text is the list of its code points,
-- and an error is a case of its own here, with what its message shows.

pub mod Unique
pub mod Kept
pub mod Naming
pub mod Found
pub mod Addresses
use gzb.Base.{
  ℕ, Bool, true, false, not, ◌&&◌, ◌||◌, Option, none, some, List, [], ◌∷◌, ◌++◌, ◌==◌, ltb,
  if◌then◌else◌, Bytes, length, take, drop,
}
use gzb.Base.Result.{Result, ok, err, ◌>>◌, check}
use gzb.Base.Strings.{same, has_prefix}
use gzb.Base.Letters.{
  Text, Letters, is_blank, contains, join, lower, upper, equal_fold, byte_length, trim_space,
  fields, has_control, split, parse_uint,
}
use gzb.Store.{Device, Entry, Store, get, put, by_node_id, since, before}

pub data NameError (F : Type 0) : Type 0 where
  no_device : NameError F
  empty_name : NameError F
  long_name : NameError F
  control_character : NameError F
  looks_like_node_id : NameError F
  looks_like_address : NameError F
  name_is_taken : Bytes → NameError F
  ambiguous : Text → List (Device F) → NameError F

abbrev pub max_name_len : ℕ
max_name_len = 64

-- `ParseUint` with 16 and 8 bits of every part.
abbrev are_octets : List Text → Bool
are_octets [] = true
are_octets (p ∷ ps) = elim (parse_uint 16 8 p) [ some v ↦ are_octets ps | none ↦ false ]

-- `looksLikeIEEE`
unfoldable pub looks_like_ieee : Text → Bool
unfolding split parse_uint
looks_like_ieee s = length (split 58 s) == 8 && are_octets (split 58 s)

module _ (letters : Letters) where
  -- `NormalizeName`
  unfoldable pub normalize_name : Text → Text
  unfolding fields join
  normalize_name s = join (fields letters s)

  -- `ParseNodeID`
  unfoldable pub parse_node_id : Text → Option ℕ
  unfolding byte_length equal_fold parse_uint same
  parse_node_id s =
      if ltb (byte_length letters s) 3 || not (equal_fold letters (take 2 s) (48 ∷ 120 ∷ []))
      then none
      else parse_uint 16 16 (drop 2 s)

  abbrev is_node_id : Option ℕ → Bool
  is_node_id none = false
  is_node_id (some v) = true

  module _ {F : Type 0} where
    -- `ValidateName`
    unfoldable pub validate_name : Text → Result (NameError F) (Unit {0})
    unfolding byte_length has_control parse_node_id looks_like_ieee
    validate_name name = do
      check (not (is_blank name)) empty_name
      check (not (ltb max_name_len (byte_length letters name))) long_name
      check (not (has_control letters name)) control_character
      check (not (is_node_id (parse_node_id name))) looks_like_node_id
      check (not (looks_like_ieee name)) looks_like_address

    -- `byName`
    abbrev pub carries : Text → Device F → Bool
    carries name d = not (is_blank d.name) && equal_fold letters d.name name

    unfoldable pub by_name : Store F → Text → Option (Device F)
    by_name [] name = none
    by_name (e ∷ es) name =
        let rest = by_name es name in if carries name e.device then some e.device else rest

    -- `other.IEEE != d.IEEE`
    abbrev pub free_for : Device F → Option (Device F) → Result (NameError F) (Unit {0})
    free_for d none = ok tt
    free_for d (some other) = check (same other.ieee d.ieee) (name_is_taken other.ieee)

    -- `SetName`, on what the look-up gives.
    unfoldable pub set_name_of :
        Option (Device F) → Store F → Bytes → Text → Result (NameError F) (Store F × Device F)
    unfolding normalize_name validate_name by_name
    set_name_of none s ieee name = err no_device
    set_name_of (some d) s ieee name = do
      validate_name (normalize_name name)
      free_for d (by_name s (normalize_name name))
      ok (
        (put s (upper letters ieee) (record d { name = normalize_name name })),
        record d { name = normalize_name name },
      )

    unfoldable pub set_name : Store F → Bytes → Text → Result (NameError F) (Store F × Device F)
    unfolding set_name_of
    set_name s ieee name = set_name_of (get s (upper letters ieee)) s ieee name

    -- `ClearName`
    unfoldable pub clear_name_of :
        Option (Device F) → Store F → Bytes → Result (NameError F) (Store F × Device F × Text)
    clear_name_of none s ieee = err no_device
    clear_name_of (some d) s ieee =
        ok (put s (upper letters ieee) (record d { name = [] }), record d { name = [] }, d.name)

    unfoldable pub clear_name : Store F → Bytes → Result (NameError F) (Store F × Device F × Text)
    unfolding clear_name_of
    clear_name s ieee = clear_name_of (get s (upper letters ieee)) s ieee

-- The order of `List`.
unfoldable pub precedes : {F : Type 0} → Device F → Device F → Bool
precedes a b =
    let seen = since a.last_seen in
    let seen_b = since b.last_seen in
    if not (seen == seen_b) then ltb seen_b seen else before a.ieee b.ieee

unfoldable pub insert_sorted : {F : Type 0} → Device F → List (Device F) → List (Device F)
unfolding precedes
insert_sorted d [] = d ∷ []
insert_sorted d (x ∷ xs) =
    let rest = insert_sorted d xs in if precedes x d then x ∷ rest else d ∷ x ∷ xs

-- `List`
unfoldable pub list_devices : {F : Type 0} → Store F → List (Device F)
unfolding insert_sorted
list_devices [] = []
list_devices (e ∷ es) = insert_sorted e.device (list_devices es)

-- What the walk over the devices ends with.
pub data Search (F : Type 0) : Type 0 where
  exact : Device F → Search F
  loose : List (Device F) → List (Device F) → Search F

module _ (letters : Letters) {F : Type 0} where
  abbrev pub grown : Bool → List (Device F) → Device F → List (Device F)
  grown b ds d = if b then ds ++ d ∷ [] else ds

  unfoldable pub search_names :
      Text → List (Device F) → List (Device F) → List (Device F) → Search F
  search_names fold [] prefix substring = loose prefix substring
  search_names fold (d ∷ ds) prefix substring =
      let name = lower letters d.name in
      let named = not (is_blank d.name) in
      let starts = has_prefix name fold in
      let rest =
        search_names fold ds (grown (named && starts) prefix d)
          (grown (named && not starts && contains name fold) substring d) in
      if named && same name fold then exact d else rest

  -- The second loop: the first list that is not empty decides.
  abbrev pub pick : Text → List (List (Device F)) → Result (NameError F) (Device F)
  pick q [] = err no_device
  pick q ([] ∷ rest) = pick q rest
  pick q ((d ∷ []) ∷ rest) = ok d
  pick q ((d ∷ d' ∷ ds) ∷ rest) = err (ambiguous q (d ∷ d' ∷ ds))

  abbrev pub answer : Text → Search F → Result (NameError F) (Device F)
  answer q (exact d) = ok d
  answer q (loose prefix substring) = pick q (prefix ∷ substring ∷ [])

  abbrev pub at_node : Option (Entry F) → Result (NameError F) (Device F)
  at_node none = err no_device
  at_node (some e) = ok e.device

  -- `Resolve`, behind the two kinds of address.
  unfoldable pub resolve_name : Store F → Text → Result (NameError F) (Device F)
  unfolding search_names normalize_name list_devices
  resolve_name s q =
      answer q (search_names (lower letters (normalize_name letters q)) (list_devices s) [] [])

  unfoldable pub resolve_address :
      Option (Device F) → Option ℕ → Store F → Text → Result (NameError F) (Device F)
  unfolding resolve_name
  resolve_address (some d) id s q = ok d
  resolve_address none (some id) s q = at_node (by_node_id s id)
  resolve_address none none s q = resolve_name s q

  unfoldable pub resolve : Store F → Text → Result (NameError F) (Device F)
  unfolding resolve_address parse_node_id trim_space
  resolve s query =
      let q = trim_space letters query in
      if is_blank q
      then err no_device
      else resolve_address (get s (upper letters q)) (parse_node_id letters q) s q
