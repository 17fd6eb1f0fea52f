-- ===== src/Js/Text/Empty.antt =====
-- A text with a first character is not empty.
use Prim.Native.Char.{Char}
use Prim.Native.String.{◌∷◌, ◌++◌ as str_append}
use text.Mathlib.TextLemmas.{cons≢nil, cons-append}
use arcops.Prelude.{String, ◌≡◌, ap, ◌∙◌, false, inl, inr, Bool-cases, eq_iff, ◌==◌}

pub cons-ne_empty : (c : Char) (s : String) → (c ∷ s == "") ≡ false
cons-ne_empty c s = elim (Bool-cases (c ∷ s == "")) [
  | inl e ↦ absurd (cons≢nil ((eq_iff (c ∷ s) "").0 e))
  | inr e ↦ e
]

pub append-ne_empty : (c : Char) (s t : String) → (str_append (c ∷ s) t == "") ≡ false
append-ne_empty c s t = ap (λ u. u == "") (cons-append c s t) ∙ cons-ne_empty c (str_append s t)
