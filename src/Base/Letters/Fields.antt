-- ===== src/Base/Letters/Fields.antt =====
-- A text whose fields are joined by single spaces is left as it is by `strings.Fields` with
-- `strings.Join`, and by `strings.TrimSpace`.
use Prim.Native.Nat.{ℕ}
use mathlib.Core.Path.{◌≡◌, refl, sym, ap, ap₂, ◌∙◌}
use mathlib.Core.Logic.{◌≢◌, inl, inr}
use mathlib.Core.Bool.{Bool, true, false, ◌&&◌}
use mathlib.Core.List.{List, [], ◌∷◌, ◌++◌, append-nil, append_assoc}
use gzb.Base.Tests.{Bool-cases}
use gzb.Base.Lists.{All, All-append}
use gzb.Base.Letters.{
  Text, Letters, is_blank, join, trim_left, trim_right, trim_space, flush, fields_from, fields,
}

and_false : (b : Bool) → (b && false) ≡ false
and_false true = refl
and_false false = refl

not_blank : (w s : Text) → s ≢ [] → is_blank (w ++ s) ≡ false
not_blank [] [] ne = absurd (ne refl)
not_blank [] (c ∷ s) ne = refl
not_blank (x ∷ w) s ne = refl

module _ (letters : Letters) where
  -- A field is not empty, and has no space in it.
  abbrev pub IsField : Text → Type 0
  IsField w = (w ≢ []) × All (λ c. letters.is_space c ≡ false) w

  flush-AreFields :
      (w : Text) → All (λ c. letters.is_space c ≡ false) w → All IsField (flush letters w)
  flush-AreFields [] h = tt
  flush-AreFields (c ∷ w) h = ((λ e. cc, h), tt)

  fields_from-AreFields :
      (w s : Text) → All (λ c. letters.is_space c ≡ false) w → All IsField (fields_from letters w s)
  unfolding fields_from
  fields_from-AreFields w [] h = flush-AreFields w h
  fields_from-AreFields w (c ∷ s) h = elim (Bool-cases (letters.is_space c)) [
    | inl e ↦ rw e (
        All-append IsField (flush letters w) (fields_from letters [] s) (flush-AreFields w h)
          (fields_from-AreFields [] s tt))
    | inr e ↦ rw e (
        fields_from-AreFields (w ++ c ∷ []) s
          (All-append (λ (x : ℕ). letters.is_space x ≡ false) w (c ∷ []) h (e, tt)))
  ]

  pub fields-AreFields : (s : Text) → All IsField (fields letters s)
  unfolding fields
  fields-AreFields s = fields_from-AreFields [] s tt

  -- A field is read to its end.
  fields_from-field :
      (w v rest : Text)
      → All (λ c. letters.is_space c ≡ false) v
      → fields_from letters w (v ++ rest) ≡ fields_from letters (w ++ v) rest
  unfolding fields_from
  fields_from-field w [] rest h = ap (λ (t : Text). fields_from letters t rest) (sym (append-nil w))
  fields_from-field w (c ∷ v) rest h = rw (h.0) (
      fields_from-field (w ++ c ∷ []) v rest h.1
      ∙ ap (λ (t : Text). fields_from letters t rest) (append_assoc w (c ∷ []) v))

  flush_one : (w : Text) → w ≢ [] → flush letters w ≡ w ∷ []
  flush_one [] ne = absurd (ne refl)
  flush_one (c ∷ w) ne = refl

  module _ (space : letters.is_space 32 ≡ true) where
    pub fields-join : (ws : List Text) → All IsField ws → fields letters (join ws) ≡ ws
    unfolding fields join
    fields-join [] h = refl
    fields-join (w ∷ []) h =
        ap (fields_from letters []) (sym (append-nil w))
        ∙ fields_from-field [] w [] h.0.1
        ∙ flush_one w h.0.0
    fields-join (w ∷ v ∷ ws) h =
        fields_from-field [] w (32 ∷ join (v ∷ ws)) h.0.1
        ∙ rw space (ap₂ ◌++◌ (flush_one w h.0.0) (fields-join (v ∷ ws) h.1))

  trim_left-join : (ws : List Text) → All IsField ws → trim_left letters (join ws) ≡ join ws
  unfolding trim_left join
  trim_left-join [] h = refl
  trim_left-join ([] ∷ ws) h = absurd (h.0.0 refl)
  trim_left-join ((c ∷ w) ∷ []) h = rw (h.0.1.0) refl
  trim_left-join ((c ∷ w) ∷ v ∷ ws) h = rw (h.0.1.0) refl

  -- What ends in a text that is left as it is, is left as it is.
  trim_right-append :
      (w s : Text) → s ≢ [] → trim_right letters s ≡ s → trim_right letters (w ++ s) ≡ w ++ s
  unfolding trim_right
  trim_right-append [] s ne h = h
  trim_right-append (c ∷ w) s ne h = rw (trim_right-append w s ne h, not_blank w s ne) refl

  trim_right-field : (w : Text) → All (λ c. letters.is_space c ≡ false) w → trim_right letters w ≡ w
  unfolding trim_right
  trim_right-field [] h = refl
  trim_right-field (c ∷ w) h = rw (trim_right-field w h.1, h.0, and_false (is_blank w)) refl

  join-ne-nil : (ws : List Text) → All IsField ws → ws ≢ [] → join ws ≢ []
  unfolding join
  join-ne-nil [] h ne e = ne refl
  join-ne-nil ([] ∷ ws) h ne e = h.0.0 refl
  join-ne-nil ((c ∷ w) ∷ []) h ne e = cc
  join-ne-nil ((c ∷ w) ∷ v ∷ ws) h ne e = cc

  trim_right-join : (ws : List Text) → All IsField ws → trim_right letters (join ws) ≡ join ws
  unfolding join
  trim_right-join [] h = unfold trim_right in refl
  trim_right-join (w ∷ []) h = trim_right-field w h.0.1
  trim_right-join (w ∷ v ∷ ws) h =
      ap (trim_right letters) (sym (append_assoc w (32 ∷ []) (join (v ∷ ws))))
      ∙ trim_right-append (w ++ 32 ∷ []) (join (v ∷ ws)) (join-ne-nil (v ∷ ws) h.1 (λ e. cc))
          (trim_right-join (v ∷ ws) h.1)
      ∙ append_assoc w (32 ∷ []) (join (v ∷ ws))

  pub trim_space-join : (ws : List Text) → All IsField ws → trim_space letters (join ws) ≡ join ws
  unfolding trim_space
  trim_space-join ws h = ap (trim_right letters) (trim_left-join ws h) ∙ trim_right-join ws h
