-- ===== src/Store/Name/Addresses.antt =====
-- internal/store: the keys of the registry, through all that it is told.
use gzb.Base.{
  ℕ, ◌≡◌, ◌≢◌, refl, arith, subst, sym, ◌==◌, Bool-cases, Option, Option-cases, none, some, List,
  [], ◌∷◌, Bytes, All, inl, inr,
}
use gzb.Base.Result.{ok, Result-cases, ok-injective}
use gzb.Base.Letters.{Text, Letters, upper}
use gzb.Base.Strings.{same, same-eq}
use gzb.Store.{
  Device, Entry, Store, get, put, delete, by_node_id, observe_known, observe, observe_found,
  observe_node_id, remove, unknown_ieee,
}
use gzb.Store.Name.{set_name, clear_name, clear_name_of}
use gzb.Store.Name.Naming.{
  Change, sighted, named, unnamed, change, change_all, or_unchanged, set_name-Named,
}
use gzb.Store.Observe.{Sighting, joined, heard, removed, record_sighting}

-- Of a key: it does not begin with a capital U, as no address does, which is written in digits and
-- the letters A to F, and as no key of a placeholder does.
abbrev pub IsKey : Bytes → Type 0
IsKey [] = Unit {0}
IsKey (c ∷ cs) = c ≢ b'U'

-- The joins that the registry is told of are of such addresses.
abbrev pub JoinsByAddress : Change → Type 0
JoinsByAddress (sighted (joined ieee node now)) = IsKey ieee
JoinsByAddress _ = Unit {0}

unknown_ieee-IsKey : (node : ℕ) → IsKey (unknown_ieee node)
unfolding unknown_ieee
unknown_ieee-IsKey node e = absurd (omega (arith, e))

module _ {F : Type 0} where
  abbrev pub HasKeys : Store F → Type 0
  HasKeys s = All (λ (e : Entry F). IsKey e.key) s

  put-HasKeys : (s : Store F) (k : Bytes) (d : Device F) → HasKeys s → IsKey k → HasKeys (put s k d)
  unfolding put
  put-HasKeys [] k d h p = (p, tt)
  put-HasKeys (x ∷ xs) k d h p = elim (Bool-cases (same x.key k)) [
    | inl q ↦ simp q (h.0, h.1)
    | inr q ↦ simp q (h.0, put-HasKeys xs k d h.1 p)
  ]

  delete-HasKeys : (s : Store F) (k : Bytes) → HasKeys s → HasKeys (delete s k)
  unfolding delete
  delete-HasKeys [] k h = tt
  delete-HasKeys (x ∷ xs) k h = elim (Bool-cases (same x.key k)) [
    | inl q ↦ simp q (delete-HasKeys xs k h.1)
    | inr q ↦ simp q (h.0, delete-HasKeys xs k h.1)
  ]

  get-IsKey : (s : Store F) (k : Bytes) (d : Device F) → HasKeys s → get s k ≡ some d → IsKey k
  unfolding get
  get-IsKey [] k d h e = cc
  get-IsKey (x ∷ xs) k d h e = elim (Bool-cases (same x.key k)) [
    | inl q ↦ subst IsKey (same-eq x.key k q) h.0
    | inr q ↦ get-IsKey xs k d h.1 (simp q at e)
  ]

  by_node_id-IsKey :
      (s : Store F) (node : ℕ) (e : Entry F) → HasKeys s → by_node_id s node ≡ some e → IsKey e.key
  unfolding by_node_id
  by_node_id-IsKey [] node e h q = cc
  by_node_id-IsKey (x ∷ xs) node e h q = elim (Bool-cases (x.device.node_id == node)) [
    | inl here ↦ subst (λ (t : Entry F). IsKey t.key) (found x e (simp here at q)) h.0
    | inr there ↦ by_node_id-IsKey xs node e h.1 (simp there at q)
  ]
    where
      found : (x e : Entry F) → ◌≡◌ {A = Option (Entry F)} (some x) (some e) → x ≡ e
      found x e q = cc

  observe_known-HasKeys :
      (known pending : Option (Device F)) (s : Store F) (ieee : Bytes) (node now : ℕ)
      → HasKeys s
      → IsKey ieee
      → HasKeys (observe_known known pending s ieee node now).0
  unfolding observe_known
  observe_known-HasKeys (some d) pending s ieee node now h p = put-HasKeys s ieee _ h p
  observe_known-HasKeys none (some d) s ieee node now h p =
      put-HasKeys (delete s (unknown_ieee node)) ieee _ (delete-HasKeys s (unknown_ieee node) h) p
  observe_known-HasKeys none none s ieee node now h p = put-HasKeys s ieee _ h p

  observe_found-HasKeys :
      (found : Option (Entry F)) (s : Store F) (node now : ℕ)
      → HasKeys s
      → by_node_id s node ≡ found
      → HasKeys (observe_found found s node now).0
  unfolding observe_found
  observe_found-HasKeys (some e) s node now h q =
      put-HasKeys s e.key _ h (by_node_id-IsKey s node e h q)
  observe_found-HasKeys none s node now h q =
      put-HasKeys s (unknown_ieee node) _ h (unknown_ieee-IsKey node)

  remove-HasKeys : (s : Store F) (ieee : Bytes) → HasKeys s → HasKeys (remove s ieee).0
  unfolding remove
  remove-HasKeys s ieee h = ground (arith, delete-HasKeys s ieee h)

  record_sighting-HasKeys :
      (s : Store F) (x : Sighting)
      → HasKeys s
      → JoinsByAddress (sighted x)
      → HasKeys (record_sighting s x)
  unfolding record_sighting observe observe_node_id
  record_sighting-HasKeys s (joined ieee node now) h p =
      observe_known-HasKeys (get s ieee) (get s (unknown_ieee node)) s ieee node now h p
  record_sighting-HasKeys s (heard node now) h p =
      observe_found-HasKeys (by_node_id s node) s node now h refl
  record_sighting-HasKeys s (removed ieee) h p = remove-HasKeys s ieee h

module _ {F : Type 0} (letters : Letters) where
  set_name-HasKeys :
      (s : Store F) (ieee : Bytes) (name : Text) (out : Store F × Device F)
      → HasKeys s
      → set_name letters s ieee name ≡ ok out
      → HasKeys out.0
  set_name-HasKeys s ieee name out h e =
      let (d, g, _, _, r) = set_name-Named letters s ieee name out e in
      subst (λ (t : Store F × Device F). HasKeys t.0) (sym r)
        (put-HasKeys s (upper letters ieee) _ h (get-IsKey s (upper letters ieee) d h g))

  clear_name_of-HasKeys :
      (found : Option (Device F)) (s : Store F) (ieee : Bytes) (out : Store F × Device F × Text)
      → HasKeys s
      → get s (upper letters ieee) ≡ found
      → clear_name_of letters found s ieee ≡ ok out
      → HasKeys out.0
  unfolding clear_name_of
  clear_name_of-HasKeys none s ieee out h g e = cc
  clear_name_of-HasKeys (some d) s ieee out h g e =
      subst (λ (t : Store F × Device F × Text). HasKeys t.0) (ok-injective e)
        (put-HasKeys s (upper letters ieee) _ h (get-IsKey s (upper letters ieee) d h g))

  clear_name-HasKeys :
      (s : Store F) (ieee : Bytes) (out : Store F × Device F × Text)
      → HasKeys s
      → clear_name letters s ieee ≡ ok out
      → HasKeys out.0
  unfolding clear_name
  clear_name-HasKeys s ieee out h e =
      clear_name_of-HasKeys (get s (upper letters ieee)) s ieee out h refl e

  change-HasKeys :
      (s : Store F) (x : Change) → HasKeys s → JoinsByAddress x → HasKeys (change letters s x)
  unfolding change or_unchanged
  change-HasKeys s (sighted x) h p = record_sighting-HasKeys s x h p
  change-HasKeys s (named ieee name) h p = elim (Result-cases (set_name letters s ieee name)) [
    | inl (out, e) ↦ rw e (set_name-HasKeys s ieee name out h e)
    | inr (x, e) ↦ rw e h
  ]
  change-HasKeys s (unnamed ieee) h p = elim (Result-cases (clear_name letters s ieee)) [
    | inl (out, e) ↦ rw e (clear_name-HasKeys s ieee out h e)
    | inr (x, e) ↦ rw e h
  ]

  pub change_all-HasKeys :
      (s : Store F) (xs : List Change)
      → HasKeys s
      → All JoinsByAddress xs
      → HasKeys (change_all letters s xs)
  unfolding change_all
  change_all-HasKeys s [] h p = h
  change_all-HasKeys s (x ∷ xs) h p =
      change_all-HasKeys (change letters s x) xs (change-HasKeys s x h p.0) p.1

  -- The key of a placeholder in capitals is no key.
  pub no_capital_key :
      (s : Store F) (node : ℕ)
      → HasKeys s
      → letters.to_upper b'u' ≡ b'U'
      → get s (upper letters (unknown_ieee node)) ≡ none
  unfolding unknown_ieee
  no_capital_key s node h u = elim (Option-cases (get s (upper letters (unknown_ieee node)))) [
    | inl e ↦ e
    | inr (d, e) ↦ absurd (get-IsKey s (upper letters (unknown_ieee node)) d h e u)
  ]
