-- ===== src/Prompt/Resolve/Tiers.antt =====
-- cmd/gzb/resolve.go: which device a name means, and what the scope of a command does to that.
use gzb.Base.{
  ℕ, zero, suc, ◌+◌, ◌≤◌, ◌<◌, ◌≡◌, refl, ap, subst, ◌∙◌, arith, true, false, Option, none, some,
  List, [], ◌∷◌, ◌++◌, ◌==◌, ==_iff, ==_self, ==_ne, le_or_lt, Bool-cases, inl, inr, All,
}
use gzb.Base.Result.{ok, ok-injective}
use gzb.Base.Letters.{Text, Letters}
use gzb.Store.{Device}
use gzb.Prompt.Resolve.{is_tier, tier, tier_list, pick}

-- In no tier, or in a later one.
abbrev pub IsBeyond : ℕ → Option ℕ → Type 0
IsBeyond t none = Unit {0}
IsBeyond t (some n) = t < n

module _ (letters : Letters) {F : Type 0} where
  -- One device is in a tier, and all others are in later tiers or in none.
  abbrev pub StandsOut : Text → List (Device F) → Device F → ℕ → Type 0
  StandsOut fold ds d t =
      (front : List (Device F)) × (back : List (Device F)) × (ds ≡ front ++ d ∷ back)
      × (tier letters fold d ≡ some t)
      × All (λ e. IsBeyond t (tier letters fold e)) front
      × All (λ e. IsBeyond t (tier letters fold e)) back

  -- A list without a device of the tier.
  abbrev pub IsOutside : Text → ℕ → Device F → Type 0
  IsOutside fold n e = is_tier n (tier letters fold e) ≡ false

  pub tier_list-nil :
      (fold : Text) (n : ℕ) (ds : List (Device F))
      → tier_list letters fold n ds ≡ []
      → All (IsOutside fold n) ds
  unfolding tier_list
  tier_list-nil fold n [] h = tt
  tier_list-nil fold n (d ∷ ds) h = elim (Bool-cases (is_tier n (tier letters fold d))) [
    | inl e ↦ absurd (cc (rw e at h))
    | inr e ↦ (e, tier_list-nil fold n ds (rw e at h))
  ]

  pub tier_list-one :
      (fold : Text) (n : ℕ) (d : Device F) (ds : List (Device F))
      → tier_list letters fold n ds ≡ d ∷ []
      → (front : List (Device F)) × (back : List (Device F)) × (ds ≡ front ++ d ∷ back)
        × (is_tier n (tier letters fold d) ≡ true)
        × All (IsOutside fold n) front
        × All (IsOutside fold n) back
  unfolding tier_list
  tier_list-one fold n d [] h = cc
  tier_list-one fold n d (x ∷ ds) h = elim (Bool-cases (is_tier n (tier letters fold x))) [
    | inl e ↦ at_the_front (rw e at h) e
    | inr e ↦
        let (front, back, q, t, f, b) = tier_list-one fold n d ds (rw e at h) in
        (x ∷ front, back, ap (λ (l : List (Device F)). x ∷ l) q, t, (e, f), b)
  ]
    where
      at_the_front :
          x ∷ tier_list letters fold n ds ≡ d ∷ []
          → is_tier n (tier letters fold x) ≡ true
          → (front : List (Device F)) × (back : List (Device F)) × (x ∷ ds ≡ front ++ d ∷ back)
            × (is_tier n (tier letters fold d) ≡ true)
            × All (IsOutside fold n) front
            × All (IsOutside fold n) back
      at_the_front k e =
          let same_device : x ≡ d = cc in
          (
            [],
            ds,
            ap (λ (t : Device F). t ∷ ds) same_device,
            subst (λ (t : Device F). is_tier n (tier letters fold t) ≡ true) same_device e,
            tt,
            tier_list-nil fold n ds (cc),
          )

  -- The other way round.
  pub tier_list-outside :
      (fold : Text) (n : ℕ) (ds : List (Device F))
      → All (IsOutside fold n) ds
      → tier_list letters fold n ds ≡ []
  unfolding tier_list
  tier_list-outside fold n [] h = refl
  tier_list-outside fold n (d ∷ ds) h = rw (h.0) (tier_list-outside fold n ds h.1)

  pub tier_list-skip :
      (fold : Text) (n : ℕ) (ds rest : List (Device F))
      → All (IsOutside fold n) ds
      → tier_list letters fold n (ds ++ rest) ≡ tier_list letters fold n rest
  unfolding tier_list
  tier_list-skip fold n [] rest h = refl
  tier_list-skip fold n (d ∷ ds) rest h = rw (h.0) (tier_list-skip fold n ds rest h.1)

  -- The lists of `k` tiers, from tier `n` on.
  unfoldable pub tiers : Text → ℕ → ℕ → List (Device F) → List (List (Device F))
  tiers fold n zero ds = []
  tiers fold n (suc k) ds = tier_list letters fold n ds ∷ tiers fold (suc n) k ds

  -- The first tier that is not empty decides.
  abbrev pub Decides : Text → List (Device F) → Device F → ℕ → ℕ → Type 0
  Decides fold ds d n t =
      (n ≤ t)
      × (tier_list letters fold t ds ≡ d ∷ [])
      × ((m : ℕ) → n ≤ m → m < t → tier_list letters fold m ds ≡ [])

  pub pick-Decides :
      (q fold : Text) (ds : List (Device F)) (d : Device F) (k n : ℕ)
      → pick letters q (tiers fold n k ds) ≡ ok d
      → (t : ℕ) × (t < n + k) × Decides fold ds d n t
  unfolding tiers
  pick-Decides q fold ds d zero n h = cc
  pick-Decides q fold ds d (suc k) n h =
      first (tier_list letters fold n ds) refl h (pick-Decides q fold ds d k (suc n))
    where
      earlier :
          {t : ℕ}
          → tier_list letters fold n ds ≡ []
          → ((m : ℕ) → suc n ≤ m → m < t → tier_list letters fold m ds ≡ [])
          → (m : ℕ) → n ≤ m
          → m < t
          → tier_list letters fold m ds ≡ []
      earlier e before m a b = elim (Bool-cases (n == m)) [
        | inl q ↦ subst (λ (i : ℕ). tier_list letters fold i ds ≡ []) ((==_iff n m).0 q) e
        | inr q ↦ before m (ground arith) b
      ]

      first :
          (l : List (Device F))
          → tier_list letters fold n ds ≡ l
          → pick letters q (l ∷ tiers fold (suc n) k ds) ≡ ok d
          → (pick letters q (tiers fold (suc n) k ds) ≡ ok d
              → (t : ℕ) × (t < suc n + k) × Decides fold ds d (suc n) t)
          → (t : ℕ) × (t < n + suc k) × Decides fold ds d n t
      first [] e h ih =
          let (t, lt, (le, one, before)) = ih h in
          (t, omega arith, (omega arith, one, earlier e before))
      first (x ∷ []) e h ih = (
        n,
        omega arith,
        (
          omega arith,
          e ∙ ap (λ (t : Device F). t ∷ []) (ok-injective h),
          λ m a b. absurd (omega arith),
        ),
      )
      first (x ∷ y ∷ ys) e h ih = cc

  pub Decides-pick :
      (q fold : Text) (ds : List (Device F)) (d : Device F) (k n t : ℕ)
      → t < n + k
      → Decides fold ds d n t
      → pick letters q (tiers fold n k ds) ≡ ok d
  unfolding tiers
  Decides-pick q fold ds d zero n t lt h = absurd (omega (arith, h.0))
  Decides-pick q fold ds d (suc k) n t lt (le, one, before) = elim (Bool-cases (n == t)) [
    | inl e ↦ rw ((==_iff n t).0 e, one) refl
    | inr e ↦ rw (before n (omega arith) (ground arith)) (
        Decides-pick q fold ds d k (suc n) t (omega arith)
          (ground arith, one, λ m a b. before m (omega arith) b))
  ]

  -- Not in tier `t` nor in an earlier one.
  pub beyond :
      (fold : Text) (t : ℕ) (ds : List (Device F))
      → ((m : ℕ) → m < suc t → All (IsOutside fold m) ds)
      → All (λ e. IsBeyond t (tier letters fold e)) ds
  beyond fold t [] h = tt
  beyond fold t (d ∷ ds) h =
      (later (tier letters fold d) (λ m a. (h m a).0), beyond fold t ds (λ m a. (h m a).1))
    where
      later : (o : Option ℕ) → ((m : ℕ) → m < suc t → is_tier m o ≡ false) → IsBeyond t o
      later none h = tt
      later (some n) h = elim (le_or_lt n t) [
        | inl a ↦ cc (h n (omega arith), ==_self n)
        | inr a ↦ a
      ]

  pub outside :
      (fold : Text) (t m : ℕ) (ds : List (Device F))
      → m < suc t
      → All (λ e. IsBeyond t (tier letters fold e)) ds
      → All (IsOutside fold m) ds
  outside fold t m [] a h = tt
  outside fold t m (d ∷ ds) a h = (apart (tier letters fold d) h.0, outside fold t m ds a h.1)
    where
      apart : (o : Option ℕ) → IsBeyond t o → is_tier m o ≡ false
      apart none h = refl
      apart (some n) h = ==_ne n m (λ e. absurd (omega arith))
