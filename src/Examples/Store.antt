-- ===== src/Examples/Store.antt =====
-- internal/store/store.go at concrete inputs.
use gzb.Base.{ℕ, ◌≤◌, ◌≡◌, ◌≢◌, ◌⊎◌, refl, arith, false, none, some, [], ◌∷◌, Bytes, All}
use gzb.Base.Strings.{same, has_prefix}
use gzb.Store.{
  Device, Entry, Store, blank, get, unknown_ieee, observe, peer_of_model, peer_from, left_out,
  since, identified, replaces,
}
use gzb.Store.Map.{IsFiled}
use gzb.Store.Observe.{observe_promotes, observe_leaves_placeholder}
use gzb.Store.Peer.{Holds, Qualifies, peer_of_model-Qualifies}

abbrev lamp_key : Bytes
lamp_key = 48 ∷ 48 ∷ 58 ∷ 49 ∷ []

-- A device that was heard at network address 0x0001, and a lamp at 0x0002.
abbrev heard_first : Device ℕ
heard_first = record (blank (unknown_ieee 1)) {
  node_id = 1;
  first_seen = some 10;
  last_seen = some 10;
  name = 104 ∷ [];
}

abbrev lamp : Device ℕ
lamp = record (blank lamp_key) {
  node_id = 2;
  manufacturer = 65 ∷ [];
  model = 66 ∷ [];
  endpoints =
      record { id = 1; profile = 0x0104; device = 0x0100; input = 6 ∷ []; output = [] } ∷ [];
  interviewed = some 5;
}

abbrev registry : Store ℕ
registry =
    record { key = unknown_ieee 1; device = heard_first }
    ∷ record { key = lamp_key; device = lamp }
    ∷ []

abbrev new_key : Bytes
new_key = 49 ∷ 48 ∷ 58 ∷ 50 ∷ []

registry-IsFiled : All IsFiled registry
registry-IsFiled = (refl, (refl, tt))

different : (a b : ℕ) (x y : Bytes) → a ≢ b → (a ∷ x) ≢ (b ∷ y)
different a b x y ne e = ne cc

new_key_is_identified : new_key ≢ unknown_ieee 1
unfolding unknown_ieee
new_key_is_identified = different _ _ _ _ (λ e. omega arith)

lamp_is_identified : lamp_key ≢ unknown_ieee 1
unfolding unknown_ieee
lamp_is_identified = different _ _ _ _ (λ e. omega arith)

lamp_is_not_new : lamp_key ≢ new_key
lamp_is_not_new = different _ _ _ _ (λ e. omega arith)

observe_promotes_example :
    (get (observe registry new_key 1 20).0 new_key
      ≡ some (record heard_first { ieee = new_key; node_id = 1; last_seen = some 20 }))
    × (get (observe registry new_key 1 20).0 (unknown_ieee 1) ≡ none)
    × ((observe registry new_key 1 20).2 ≡ false)
unfolding get same unknown_ieee
observe_promotes_example =
    observe_promotes registry new_key 1 20 heard_first new_key_is_identified refl refl

observe_leaves_placeholder_example :
    (get (observe registry lamp_key 1 20).0 (unknown_ieee 1) ≡ some heard_first)
    × (get (observe registry lamp_key 1 20).0 lamp_key
        ≡ some (record lamp { node_id = 1; last_seen = some 20 }))
unfolding get same unknown_ieee
observe_leaves_placeholder_example =
    observe_leaves_placeholder registry lamp_key 1 20 lamp heard_first lamp_is_identified refl refl

peer_of_model-Qualifies_example :
    Holds registry lamp
    × Qualifies (65 ∷ []) (66 ∷ []) new_key lamp
    × All
        (λ (e : Entry ℕ).
          (¬ Qualifies (65 ∷ []) (66 ∷ []) new_key e.device)
          ⊎ (since e.device.interviewed ≤ since lamp.interviewed))
        registry
unfolding peer_of_model peer_from left_out identified same has_prefix unknown_ieee replaces
peer_of_model-Qualifies_example =
    peer_of_model-Qualifies (65 ∷ []) (66 ∷ []) new_key registry lamp refl
