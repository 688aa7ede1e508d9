-- ===== src/Base/Strings.antt =====
-- Strings as their bytes: `==` and `strings.HasPrefix`.
use Prim.Native.String.{String}
use Prim.Native.Char.{code}
use mathlib.Core.Path.{◌≡◌, refl}
use mathlib.Core.Logic.{◌≢◌, inl, inr}
use mathlib.Core.Bool.{Bool, true, false, ◌&&◌}
use mathlib.Core.List.{[], ◌∷◌}
use native.Mathlib.Omega.{arith}
use gzb.Base.Tests.{◌==◌, ==_self, Bool-cases}
use gzb.Base.Wire.{Bytes}

-- `==` on strings.
unfoldable pub same : Bytes → Bytes → Bool
same [] [] = true
same [] (b ∷ bs) = false
same (a ∷ rest) [] = false
same (a ∷ rest) (b ∷ bs) = a == b && same rest bs

-- `strings.HasPrefix(s, prefix)`
unfoldable pub has_prefix : Bytes → Bytes → Bool
has_prefix s [] = true
has_prefix [] (p ∷ ps) = false
has_prefix (b ∷ bs) (p ∷ ps) = b == p && has_prefix bs ps

pub same_self : (a : Bytes) → same a a ≡ true
unfolding same
same_self [] = refl
same_self (x ∷ a) = rw (==_self x, same_self a) refl

pub same-eq : (a b : Bytes) → same a b ≡ true → a ≡ b
unfolding same
same-eq [] [] e = refl
same-eq [] (y ∷ b) e = cc
same-eq (x ∷ a) [] e = cc
same-eq (x ∷ a) (y ∷ b) e = ground (arith, same-eq a b)

pub same-false : (a b : Bytes) → a ≢ b → same a b ≡ false
same-false a b ne = elim (Bool-cases (same a b)) [ inl e ↦ absurd (ne (same-eq a b e)) | inr e ↦ e ]

-- A text of ASCII characters as its bytes. `String` has its own `[]` and `∷`.
abbrev pub text : String → Bytes
text String.[] = []
text (String.◌∷◌ c s) = code c ∷ text s
