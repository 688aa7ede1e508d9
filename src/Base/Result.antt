-- ===== src/Base/Result.antt =====
-- Go's `(value, error)` pair, where the code returns no value beside an error.
use mathlib.Core.Path.{◌≡◌, refl}
use mathlib.Core.Bool.{Bool, true, false}
use mathlib.Core.Logic.{◌⊎◌, inl, inr}

pub data Result (E A : Type 0) : Type 0 where
  ok : A → Result E A
  err : E → Result E A

infixl 5 ◌>>=◌ ◌>>◌
abbrev pub ◌>>=◌ : {E A B : Type 0} → Result E A → (A → Result E B) → Result E B
ok a >>= f = f a
err e >>= f = err e

abbrev pub ◌>>◌ : {E B : Type 0} → Result E (Unit {0}) → Result E B → Result E B
m >> k = m >>= λ _. k

-- `if !c { return err }`
abbrev pub check : {E : Type 0} → Bool → E → Result E (Unit {0})
check true e = ok tt
check false e = err e

pub Result-cases :
    {E A : Type 0} (r : Result E A) → ((a : A) × (r ≡ ok a)) ⊎ ((e : E) × (r ≡ err e))
Result-cases (ok a) = inl (a, refl)
Result-cases (err e) = inr (e, refl)

-- A successful bind has two successful parts.
pub bind-eq-ok :
    {E A B : Type 0} (m : Result E A) (next : A → Result E B) {out : B}
    → (m >>= next) ≡ ok out
    → (got : A) × (m ≡ ok got) × (next got ≡ ok out)
bind-eq-ok (ok got) next h = (got, refl, h)
bind-eq-ok (err _) next h = cc

pub ok-injective : {E A : Type 0} {a b : A} → ◌≡◌ {A = Result E A} (ok a) (ok b) → a ≡ b
ok-injective h = cc

pub check-true : {E : Type 0} (c : Bool) (e : E) (u : Unit {0}) → check c e ≡ ok u → c ≡ true
check-true true e u h = refl
check-true false e u h = cc

-- A chain that succeeds passed its first check.
pub check-then :
    {E B : Type 0} (c : Bool) (e : E) (next : Result E B) {out : B}
    → (check c e >> next) ≡ ok out
    → (c ≡ true) × (next ≡ ok out)
check-then true e next h = (refl, h)
check-then false e next h = cc
