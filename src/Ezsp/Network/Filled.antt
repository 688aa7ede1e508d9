-- ===== src/Ezsp/Network/Filled.antt =====
-- internal/ezsp/network.go: what the open fields of a configuration are filled with.
use gzb.Base.{
  ℕ, zero, suc, ◌<◌, ◌≡◌, ◌≢◌, refl, ap, arith, Bool, true, false, Option, none, some, Bytes, ◌==◌,
  ==_iff, ◌⊎◌, inl, inr,
}
use gzb.Base.Int.{ℤ, pos, negsuc}
use gzb.Base.Result.{Result, ok, err}
use gzb.Base.Strings.{same, same_self, same-eq}
use gzb.Ezsp.Talk.{Failure}
use gzb.Ezsp.Network.{
  no_address, no_key, FormationConfig, Randoms, read_random, fill, with_key, with_extended,
  with_pan_id, random_pan_id, power_or_default,
}
use gzb.Ezsp.Network.Start.{Drawn, IsReserved, random_pan_id-ok}

-- A field that is open takes a value of the source, and any other stays.
abbrev pub IsFilled : {A : Type 0} → A → (A → Type 0) → A → A → Type 0
IsFilled unset source before now =
    ((before ≢ unset) × (now ≡ before)) ⊎ ((before ≡ unset) × source now)

-- The draws in front of the `j`-th are all reserved.
abbrev pub AllReserved : (ℕ → Option (ℕ × ℕ)) → ℕ → Type 0
AllReserved draws zero = Unit {0}
AllReserved draws (suc j) = IsReserved (draws j) × AllReserved draws j

-- The first of eight draws that is not reserved.
abbrev pub IsDrawn : (ℕ → Option (ℕ × ℕ)) → ℕ → Type 0
IsDrawn draws id =
    (id ≢ 0) × (id ≢ 0xFFFF) × ((j : ℕ) × (j < 8) × Drawn draws j id × AllReserved draws j)

all_reserved :
    (draws : ℕ → Option (ℕ × ℕ)) (j : ℕ)
    → ((m : ℕ) → m < j → IsReserved (draws m))
    → AllReserved draws j
all_reserved draws zero h = tt
all_reserved draws (suc j) h = (h j (omega arith), all_reserved draws j (λ m lt. h m (omega arith)))

random_pan_id-IsDrawn :
    (draws : ℕ → Option (ℕ × ℕ)) (id : ℕ) → random_pan_id draws ≡ ok id → IsDrawn draws id
random_pan_id-IsDrawn draws id e =
    let (low, high, (j, lt, d, all)) = random_pan_id-ok draws id e in
    (low, high, (j, lt, d, all_reserved draws j all))

fill-ok :
    {A : Type 0} (b : Bool) (cfg out : FormationConfig) (put : A → FormationConfig)
    (r : Result Failure A)
    → fill b cfg put r ≡ ok out
    → ((b ≡ false) × (out ≡ cfg)) ⊎ ((b ≡ true) × ((a : A) × (r ≡ ok a) × (out ≡ put a)))
fill-ok false cfg out put r h = inl (refl, cc)
fill-ok true cfg out put (ok a) h = inr (refl, (a, refl, cc))
fill-ok true cfg out put (err e) h = cc

read_random-ok : (o : Option Bytes) (b : Bytes) → read_random o ≡ ok b → o ≡ some b
read_random-ok none b h = cc
read_random-ok (some a) b h = cc

pub differ : (a b : Bytes) → same a b ≡ false → a ≢ b
differ a b h e = contradiction
  where
    contradiction : ⊥
    contradiction = ground (arith, same_self b, ap (λ (t : Bytes). same t b) e)

pub with_key-IsFilled :
    (cfg : FormationConfig) (rnd : Randoms) (out : FormationConfig)
    → with_key cfg rnd ≡ ok out
    → (b : Bytes) × (out ≡ record cfg { network_key = b })
      × IsFilled no_key (λ k. rnd.key ≡ some k) cfg.network_key b
unfolding with_key
with_key-IsFilled cfg rnd out h =
    elim (fill-ok (same cfg.network_key no_key) cfg out _ (read_random rnd.key) h) [
      | inl (q, e) ↦ (cfg.network_key, e, inl (differ _ _ q, refl))
      | inr (q, (b, got, e)) ↦ (b, e, inr (same-eq _ _ q, read_random-ok rnd.key b got))
    ]

pub with_extended-IsFilled :
    (cfg : FormationConfig) (rnd : Randoms) (out : FormationConfig)
    → with_extended cfg rnd ≡ ok out
    → (b : Bytes) × (out ≡ record cfg { extended_pan_id = b })
      × IsFilled no_address (λ k. rnd.extended ≡ some k) cfg.extended_pan_id b
unfolding with_extended
with_extended-IsFilled cfg rnd out h =
    elim (fill-ok (same cfg.extended_pan_id no_address) cfg out _ (read_random rnd.extended) h) [
      | inl (q, e) ↦ (cfg.extended_pan_id, e, inl (differ _ _ q, refl))
      | inr (q, (b, got, e)) ↦ (b, e, inr (same-eq _ _ q, read_random-ok rnd.extended b got))
    ]

pub with_pan_id-IsFilled :
    (cfg : FormationConfig) (rnd : Randoms) (out : FormationConfig)
    → with_pan_id cfg rnd ≡ ok out
    → (id : ℕ) × (out ≡ record cfg { pan_id = id }) × IsFilled 0 (IsDrawn rnd.draws) cfg.pan_id id
unfolding with_pan_id
with_pan_id-IsFilled cfg rnd out h =
    elim (fill-ok (cfg.pan_id == 0) cfg out _ (random_pan_id rnd.draws) h) [
      | inl (q, e) ↦ (cfg.pan_id, e, inl (λ z. ground (arith, z), refl))
      | inr (q, (id, got, e)) ↦
          (id, e, inr ((==_iff cfg.pan_id 0).0 q, random_pan_id-IsDrawn rnd.draws id got))
    ]

-- A power that is not given is 8 dBm.
abbrev pub IsPower : ℤ → ℤ → Type 0
IsPower before now = IsFilled (pos 0) (λ z. z ≡ pos 8) before now

pub power_or_default-IsPower : (z : ℤ) → IsPower z (power_or_default z)
unfolding power_or_default
power_or_default-IsPower (pos zero) = inr (refl, refl)
power_or_default-IsPower (pos (suc n)) = inl (λ e. absurd cc, refl)
power_or_default-IsPower (negsuc n) = inl (λ e. absurd cc, refl)
