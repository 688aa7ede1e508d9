-- ===== src/Prompt/Words/Common.antt =====
-- cmd/gzb/repl_grammar.go: `commonPrefix`, against the bytes that two texts share at their start.
use gzb.Base.{
  ℕ, zero, suc, ◌≡◌, refl, sym, ap, ◌∙◌, arith, true, false, inl, inr, List, [], ◌∷◌, ◌==◌,
  if◌then◌else◌, Bool-cases, Bytes, All, length, take,
}
use gzb.Base.Strings.{has_prefix}
use gzb.Prompt.Words.{shorten, common_from, common_prefix}

abbrev pub Begins : Bytes → Bytes → Type 0
Begins s p = has_prefix s p ≡ true

shared : Bytes → Bytes → Bytes
shared [] b = []
shared (x ∷ a) [] = []
shared (x ∷ a) (y ∷ b) = if x == y then x ∷ shared a b else []

Begins-self : (a : Bytes) → Begins a a
unfolding has_prefix
Begins-self [] = refl
Begins-self (x ∷ a) = ground (arith, Begins-self a)

Begins-trans : (a b c : Bytes) → Begins a b → Begins b c → Begins a c
unfolding has_prefix
Begins-trans a b [] h k = refl
Begins-trans a [] (z ∷ c) h k = cc
Begins-trans [] (y ∷ b) (z ∷ c) h k = cc
Begins-trans (x ∷ a) (y ∷ b) (z ∷ c) h k = ground (arith, Begins-trans a b c)

Begins-shared_left : (a b : Bytes) → Begins a (shared a b)
unfolding has_prefix shared
Begins-shared_left [] b = refl
Begins-shared_left (x ∷ a) [] = refl
Begins-shared_left (x ∷ a) (y ∷ b) = ground (arith, Begins-shared_left a b)

Begins-shared_right : (a b : Bytes) → Begins b (shared a b)
unfolding has_prefix shared
Begins-shared_right [] b = refl
Begins-shared_right (x ∷ a) [] = refl
Begins-shared_right (x ∷ a) (y ∷ b) = ground (arith, Begins-shared_right a b)

shared_greatest : (a b p : Bytes) → Begins a p → Begins b p → Begins (shared a b) p
unfolding has_prefix shared
shared_greatest a b [] h k = refl
shared_greatest [] b (z ∷ p) h k = cc
shared_greatest (x ∷ a) [] (z ∷ p) h k = cc
shared_greatest (x ∷ a) (y ∷ b) (z ∷ p) h k = ground (arith, shared_greatest a b p)

shared_whole : (a b : Bytes) → Begins b a → shared a b ≡ a
unfolding has_prefix shared
shared_whole [] b h = refl
shared_whole (x ∷ a) [] h = cc
shared_whole (x ∷ a) (y ∷ b) h = ground (arith, shared_whole a b)

-- The last byte of a text that is no prefix is not shared.
shared_shorter :
    (n : ℕ) (a b : Bytes)
    → has_prefix b (take (suc n) a) ≡ false
    → shared (take n a) b ≡ shared (take (suc n) a) b
unfolding has_prefix shared
shared_shorter zero [] b h = refl
shared_shorter zero (x ∷ a) [] h = refl
shared_shorter zero (x ∷ a) (y ∷ b) h = ground arith
shared_shorter (suc n) [] b h = refl
shared_shorter (suc n) (x ∷ a) [] h = refl
shared_shorter (suc n) (x ∷ a) (y ∷ b) h = ground (arith, shared_shorter n a b)

shorten-shared : (n : ℕ) (a b : Bytes) → shorten n a b ≡ shared (take n a) b
unfolding shorten shared
shorten-shared zero a b = refl
shorten-shared (suc n) a b = elim (Bool-cases (has_prefix b (take (suc n) a))) [
  | inl h ↦ rw h (sym (shared_whole (take (suc n) a) b h))
  | inr h ↦ rw h (shorten-shared n a b ∙ shared_shorter n a b h)
]

take_all : (a : Bytes) → take (length a) a ≡ a
take_all [] = refl
take_all (x ∷ a) = ap (λ (t : Bytes). x ∷ t) (take_all a)

-- What the loop leaves begins every text, and is begun by whatever begins all of them.
abbrev pub IsCommonPrefix : Bytes → List Bytes → Type 0
IsCommonPrefix p all =
    All (λ c. Begins c p) all × ((q : Bytes) → All (λ c. Begins c q) all → Begins p q)

weaken :
    (p q : Bytes) (cs : List Bytes)
    → Begins q p
    → All (λ c. Begins c q) cs
    → All (λ c. Begins c p) cs
weaken p q [] h k = tt
weaken p q (c ∷ cs) h k = (Begins-trans c q p k.0 h, weaken p q cs h k.1)

common_from-IsCommonPrefix :
    (p : Bytes) (cs : List Bytes) → IsCommonPrefix (common_from p cs) (p ∷ cs)
unfolding common_from
common_from-IsCommonPrefix p [] = ((Begins-self p, tt), λ q h. h.0)
common_from-IsCommonPrefix p (c ∷ cs) =
    let s : Bytes = shorten (length p) p c in
    let e : s ≡ shared p c =
      shorten-shared (length p) p c ∙ ap (λ (t : Bytes). shared t c) (take_all p) in
    let ih : IsCommonPrefix (common_from s cs) (s ∷ cs) = common_from-IsCommonPrefix s cs in
    (
      (
        Begins-trans p s _ (rw e (Begins-shared_left p c)) ih.0.0,
        (Begins-trans c s _ (rw e (Begins-shared_right p c)) ih.0.0, ih.0.1),
      ),
      λ q h. ih.1 q (rw e (shared_greatest p c q h.0 h.1.0), h.1.1),
    )

-- For a list of candidates that is not empty, `commonPrefix` returns a text that every candidate
-- begins with, and that begins with every text that all candidates begin with: the longest such.
pub common_prefix-IsCommonPrefix :
    (c : Bytes) (cs : List Bytes) → IsCommonPrefix (common_prefix (c ∷ cs)) (c ∷ cs)
unfolding common_prefix
common_prefix-IsCommonPrefix c cs = common_from-IsCommonPrefix c cs
