-- ===== src/Prompt/Resolve/Named.antt =====
-- cmd/gzb/resolve.go: a name means the device that stands out, and what the scope does to that.
use gzb.Base.{
  ℕ, suc, ◌<◌, ◌↔◌, ◌≡◌, refl, sym, ap, ◌∙◌, arith, true, Option, none, some, List, [], ◌∷◌, ◌++◌,
  ◌==◌, ==_self, ==_ne, ==_iff, inl, inr, Bool-cases, All, All-append, All-split,
}
use gzb.Base.Result.{ok}
use gzb.Base.Letters.{Text, Letters, lower}
use gzb.Store.{Device}
use gzb.Store.Name.{normalize_name}
use gzb.Prompt.Resolve.{is_tier, tier, tier_list, pick, find_named}
use gzb.Prompt.Resolve.Tiers.{
  StandsOut, IsOutside, tiers, tier_list-one, tier_list-outside, tier_list-skip, tier_list-nil,
  pick-Decides, Decides-pick, beyond, outside,
}

is_tier-some : (t : ℕ) (o : Option ℕ) → is_tier t o ≡ true → o ≡ some t
is_tier-some t none h = cc
is_tier-some t (some n) h = ap some ((==_iff n t).0 h)

module _ (letters : Letters) {F : Type 0} where
  tier-lt : (fold : Text) (d : Device F) (t : ℕ) → tier letters fold d ≡ some t → t < 4
  unfolding tier
  tier-lt fold d t h = ground arith

  find_named-pick :
      (ds : List (Device F)) (q : Text)
      → find_named letters ds q
        ≡ pick letters q (tiers letters (lower letters (normalize_name letters q)) 0 4 ds)
  unfolding find_named tiers
  find_named-pick ds q = refl

  -- The list of a tier with one device in it.
  tier_list-StandsOut :
      (fold : Text) (ds : List (Device F)) (d : Device F) (t : ℕ)
      → StandsOut letters fold ds d t
      → tier_list letters fold t ds ≡ d ∷ []
  tier_list-StandsOut fold ds d t (front, back, e, own, f, b) = rw e (
      tier_list-skip letters fold t front (d ∷ back)
        (outside letters fold t t front (omega arith) f)
      ∙ with_own
      ∙ ap (λ (l : List (Device F)). d ∷ l)
          (tier_list-outside letters fold t back (outside letters fold t t back (omega arith) b)))
    where
      with_own : tier_list letters fold t (d ∷ back) ≡ d ∷ tier_list letters fold t back
      with_own = unfold tier_list in rw (own, ==_self t) refl

  earlier-StandsOut :
      (fold : Text) (ds : List (Device F)) (d : Device F) (t m : ℕ)
      → StandsOut letters fold ds d t
      → m < t
      → tier_list letters fold m ds ≡ []
  earlier-StandsOut fold ds d t m (front, back, e, own, f, b) lt =
      tier_list-outside letters fold m ds (
        rw e (
          All-append (IsOutside letters fold m) front (d ∷ back)
            (outside letters fold t m front (omega arith) f)
            (
              rw own (==_ne t m (λ q. absurd (omega arith))),
              outside letters fold t m back (omega arith) b,
            )))

  one-StandsOut :
      (fold : Text) (ds : List (Device F)) (d : Device F) (t : ℕ)
      → tier_list letters fold t ds ≡ d ∷ []
      → ((m : ℕ) → m < t → tier_list letters fold m ds ≡ [])
      → StandsOut letters fold ds d t
  one-StandsOut fold ds d t one before =
      let (front, back, e, own, f, b) = tier_list-one letters fold t d ds one in
      (
        front,
        back,
        e,
        is_tier-some t (tier letters fold d) own,
        beyond letters fold t front (λ m lt. (parts front back e f b m lt).0),
        beyond letters fold t back (λ m lt. (parts front back e f b m lt).1),
      )
    where
      parts :
          (front back : List (Device F))
          → ds ≡ front ++ d ∷ back
          → All (IsOutside letters fold t) front
          → All (IsOutside letters fold t) back
          → (m : ℕ) → m < suc t
          → All (IsOutside letters fold m) front × All (IsOutside letters fold m) back
      parts front back e f b m lt = elim (Bool-cases (m == t)) [
        | inl q ↦ rw ((==_iff m t).0 q) (f, b)
        | inr q ↦
            let all : All (IsOutside letters fold m) (front ++ d ∷ back) =
              rw e at (tier_list-nil letters fold m ds (before m (ground arith))) in
            let (f', b') = All-split (IsOutside letters fold m) front (d ∷ back) all in (f', b'.1)
      ]

  -- `findDevice` takes a name for a device exactly when that device stands out: it is in one of the
  -- four tiers (the same name, a prefix, a suffix, a part, with case and spaces put aside), and every
  -- other device of the list is in a later tier or in none.
  pub find_named-StandsOut :
      (ds : List (Device F)) (q : Text) (d : Device F)
      → (find_named letters ds q ≡ ok d)
        ↔ ((t : ℕ) × StandsOut letters (lower letters (normalize_name letters q)) ds d t)
  find_named-StandsOut ds q d = (found, stands_out)
    where
      found :
          find_named letters ds q ≡ ok d
          → (t : ℕ) × StandsOut letters (lower letters (normalize_name letters q)) ds d t
      found h =
          let fold : Text = lower letters (normalize_name letters q) in
          let (t, _, (_, one, before)) =
            pick-Decides letters q fold ds d 4 0 (sym (find_named-pick ds q) ∙ h) in
          (t, one-StandsOut fold ds d t one (λ m lt. before m (omega arith) lt))

      stands_out :
          (t : ℕ) × StandsOut letters (lower letters (normalize_name letters q)) ds d t
          → find_named letters ds q ≡ ok d
      stands_out (t, h) =
          let fold : Text = lower letters (normalize_name letters q) in
          find_named-pick ds q
          ∙ Decides-pick letters q fold ds d 4 0 t (tier-lt fold d t h.3) (
            omega arith,
            tier_list-StandsOut fold ds d t h,
            λ m _ lt. earlier-StandsOut fold ds d t m h lt,
          )
