-- ===== src/Ezsp/Scan/Merge.antt =====
-- internal/ezsp/scan.go: `mergeNetwork` against a description of the result that does not fold.
use gzb.Base.{
  ℕ, ◌≡◌, refl, sym, ap, ◌∙◌, arith, Bool, true, false, ◌||◌, Option, none, some, List, [], ◌∷◌,
  ltb, if◌then◌else◌, Bool-cases, inl, inr, All,
}
use gzb.Base.Int.{ℤ}
use gzb.Base.Strings.{same, same_self, same-eq}
use gzb.Ezsp.Scan.{FoundNetwork, same_network, hear, merge_network}

-- The entry of the network that `k` belongs to.
unfoldable pub find : FoundNetwork → List FoundNetwork → Option FoundNetwork
find k [] = none
find k (f ∷ fs) = let rest = find k fs in if same_network f k then some f else rest

-- Every network once.
abbrev pub IsDistinct : List FoundNetwork → Type 0
IsDistinct [] = Unit {0}
IsDistinct (f ∷ fs) = All (λ g. same_network f g ≡ false) fs × IsDistinct fs

unfoldable pub merge_all : List FoundNetwork → List FoundNetwork → List FoundNetwork
merge_all found [] = found
merge_all found (b ∷ bs) = merge_all (merge_network found b) bs

-- The description: the beacons of one network; whether one of them is open; the signal of the first
-- of the strongest.
unfoldable pub of_network : FoundNetwork → List FoundNetwork → List FoundNetwork
of_network k [] = []
of_network k (b ∷ bs) = let rest = of_network k bs in if same_network b k then b ∷ rest else rest

unfoldable pub any_open : List FoundNetwork → Bool
any_open [] = false
any_open (b ∷ bs) = b.allowing_join || any_open bs

unfoldable pub strongest : ℕ × ℤ → List FoundNetwork → ℕ × ℤ
strongest s [] = s
strongest s (b ∷ bs) = strongest (if ltb s.0 b.lqi then (b.lqi, b.rssi) else s) bs

unfoldable pub described : FoundNetwork → List FoundNetwork → FoundNetwork
described b bs =
    let signal = strongest (b.lqi, b.rssi) bs in
    record b { allowing_join = b.allowing_join || any_open bs; lqi = signal.0; rssi = signal.1 }

unfoldable pub summary : List FoundNetwork → Option FoundNetwork
summary [] = none
summary (b ∷ bs) = some (described b bs)

-- One network is the same as another if three fields are.
abbrev Together : FoundNetwork → FoundNetwork → Type 0
Together a b =
    (a.channel ≡ b.channel) × (a.pan_id ≡ b.pan_id) × (a.extended_pan_id ≡ b.extended_pan_id)

same_network-Together : (a b : FoundNetwork) → same_network a b ≡ true → Together a b
unfolding same_network
same_network-Together a b e =
    (ground arith, ground arith, same-eq a.extended_pan_id b.extended_pan_id (ground arith))

Together-same_network : (a b : FoundNetwork) → Together a b → same_network a b ≡ true
unfolding same_network
Together-same_network a b (c, p, x) =
    ground (arith, same_self b.extended_pan_id, ap (λ t. same t b.extended_pan_id) x)

same_network_euclid :
    (a b k : FoundNetwork)
    → same_network a k ≡ true
    → same_network b k ≡ true
    → same_network a b ≡ true
same_network_euclid a b k h h' =
    let (c, p, x) = same_network-Together a k h in
    let (c', p', x') = same_network-Together b k h' in
    Together-same_network a b (c ∙ sym c', p ∙ sym p', x ∙ sym x')

same_network_trans :
    (a b k : FoundNetwork)
    → same_network a b ≡ true
    → same_network b k ≡ true
    → same_network a k ≡ true
same_network_trans a b k h h' =
    let (c, p, x) = same_network-Together a b h in
    let (c', p', x') = same_network-Together b k h' in
    Together-same_network a k (c ∙ c', p ∙ p', x ∙ x')

same_network_sym : (a b : FoundNetwork) → same_network a b ≡ true → same_network b a ≡ true
same_network_sym a b h =
    let (c, p, x) = same_network-Together a b h in Together-same_network b a (sym c, sym p, sym x)

same_network_congr :
    (a b k : FoundNetwork) → same_network a b ≡ true → same_network a k ≡ same_network b k
same_network_congr a b k h = elim (Bool-cases (same_network b k)) [
  | inl is ↦ same_network_trans a b k h is ∙ sym is
  | inr is_not ↦ elim (Bool-cases (same_network a k)) [
    | inl is ↦ is ∙ sym (same_network_trans b a k (same_network_sym a b h) is)
    | inr neither ↦ neither ∙ sym is_not
  ]
]

hear-same_network : (f n k : FoundNetwork) → same_network (hear f n) k ≡ same_network f k
unfolding same_network hear
hear-same_network f n k = ground arith

same_network-hear : (g f n : FoundNetwork) → same_network g (hear f n) ≡ same_network g f
unfolding same_network hear
same_network-hear g f n = ground arith

abbrev pub joined : Option FoundNetwork → FoundNetwork → FoundNetwork
joined none n = n
joined (some f) n = hear f n

find-merge_network :
    (k : FoundNetwork) (fs : List FoundNetwork) (n : FoundNetwork)
    → find k (merge_network fs n)
      ≡ (if same_network n k then some (joined (find k fs) n) else find k fs)
unfolding find merge_network
find-merge_network k [] n = refl
find-merge_network k (f ∷ fs) n = elim (Bool-cases (same_network f n)) [
  | inl is ↦ ground (arith, hear-same_network f n k, same_network_congr f n k is)
  | inr is_not ↦ ground (arith, find-merge_network k fs n, same_network_euclid f n k)
]

abbrev total : Option FoundNetwork → List FoundNetwork → Option FoundNetwork
total o [] = o
total o (b ∷ bs) = total (some (joined o b)) bs

find-merge_all :
    (k : FoundNetwork) (fs bs : List FoundNetwork)
    → find k (merge_all fs bs) ≡ total (find k fs) (of_network k bs)
unfolding merge_all of_network
find-merge_all k fs [] = refl
find-merge_all k fs (b ∷ bs) =
    ground (arith, find-merge_all k (merge_network fs b) bs, find-merge_network k fs b)

described-hear :
    (f b : FoundNetwork) (bs : List FoundNetwork) → described (hear f b) bs ≡ described f (b ∷ bs)
unfolding described any_open strongest hear
described-hear f b bs = ground arith

total-described :
    (f : FoundNetwork) (bs : List FoundNetwork) → total (some f) bs ≡ some (described f bs)
unfolding described any_open strongest
total-described f [] = ground arith
total-described f (b ∷ bs) = total-described (hear f b) bs ∙ ap some (described-hear f b bs)

-- Whatever beacons a scan hears, in whatever order, the list that the merges start from empty lists for
-- each network what its beacons amount to: the identity of the first, open if one of them is,
-- and the signal of the first of the strongest; and nothing for a network without a beacon.
pub find-merge_all-summary :
    (k : FoundNetwork) (bs : List FoundNetwork)
    → find k (merge_all [] bs) ≡ summary (of_network k bs)
unfolding summary find
find-merge_all-summary k bs =
    elim (of_network k bs)
        as (λ t. find k (merge_all [] bs) ≡ total none t → find k (merge_all [] bs) ≡ summary t) [
          | [] ↦ λ e. e
          | b ∷ rest ↦ λ e. e ∙ total-described b rest
        ]
      (find-merge_all k [] bs)

hear_distinct :
    (f n : FoundNetwork) (fs : List FoundNetwork)
    → All (λ g. same_network f g ≡ false) fs
    → All (λ g. same_network (hear f n) g ≡ false) fs
hear_distinct f n [] h = tt
hear_distinct f n (g ∷ fs) h = (hear-same_network f n g ∙ h.0, hear_distinct f n fs h.1)

merge_network-apart :
    (g : FoundNetwork) (fs : List FoundNetwork) (n : FoundNetwork)
    → All (λ x. same_network g x ≡ false) fs
    → same_network g n ≡ false
    → All (λ x. same_network g x ≡ false) (merge_network fs n)
unfolding merge_network
merge_network-apart g [] n h ne = (ne, tt)
merge_network-apart g (f ∷ fs) n h ne = elim (Bool-cases (same_network f n)) [
  | inl is ↦ rw is (same_network-hear g f n ∙ h.0, h.1)
  | inr is_not ↦ rw is_not (h.0, merge_network-apart g fs n h.1 ne)
]

-- A merge keeps every network at one entry.
pub merge_network-IsDistinct :
    (fs : List FoundNetwork) (n : FoundNetwork) → IsDistinct fs → IsDistinct (merge_network fs n)
unfolding merge_network
merge_network-IsDistinct [] n h = (tt, tt)
merge_network-IsDistinct (f ∷ fs) n h = elim (Bool-cases (same_network f n)) [
  | inl is ↦ rw is (hear_distinct f n fs h.0, h.1)
  | inr is_not ↦
      rw is_not (merge_network-apart f fs n h.0 is_not, merge_network-IsDistinct fs n h.1)
]

pub merge_all-IsDistinct :
    (fs bs : List FoundNetwork) → IsDistinct fs → IsDistinct (merge_all fs bs)
unfolding merge_all
merge_all-IsDistinct fs [] h = h
merge_all-IsDistinct fs (b ∷ bs) h =
    merge_all-IsDistinct (merge_network fs b) bs (merge_network-IsDistinct fs b h)
