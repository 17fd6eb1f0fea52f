-- ===== src/Js/Text/Trim.antt =====
-- `trim` is idempotent.
use Prim.Native.Char.{Char}
use Prim.Native.String.{[], ◌∷◌, ◌++◌ as str_append}
use text.Mathlib.TextLemmas.{nil-append, cons-append}
use arcops.Prelude.{String, ◌≡◌, refl, ap, ◌∙◌, inl, inr, Bool, false, Bool-cases}
use arcops.Js.Text.{drop_start, drop_end, keep_or_drop, trim}
use arcops.Js.Text.Chars.{is_space}

module _ (p : Char → Bool) where
  abbrev StartsOut : String → Type 0
  StartsOut [] = Unit
  StartsOut (c ∷ s) = p c ≡ false

  StartsOut-drop_start : (s : String) → StartsOut (drop_start p s)
  unfolding drop_start
  StartsOut-drop_start [] = tt
  StartsOut-drop_start (c ∷ s) = elim (Bool-cases (p c)) [
    | inl e ↦ rw (e, StartsOut) (StartsOut-drop_start s)
    | inr e ↦ rw (e, StartsOut) e
  ]

  drop_start_of_StartsOut : (s : String) → StartsOut s → drop_start p s ≡ s
  unfolding drop_start
  drop_start_of_StartsOut [] h = refl
  drop_start_of_StartsOut (c ∷ s) h = rw h

  StartsOut-keep : (c : Char) (r : String) → p c ≡ false → StartsOut (keep_or_drop p c r)
  StartsOut-keep c [] h = rw h h
  StartsOut-keep c (d ∷ r) h = h

  StartsOut-drop_end : (s : String) → StartsOut s → StartsOut (drop_end p s)
  unfolding drop_end
  StartsOut-drop_end [] h = tt
  StartsOut-drop_end (c ∷ s) h = StartsOut-keep c (drop_end p s) h

  drop_end-keep :
      (c : Char) (r : String)
      → drop_end p r ≡ r
      → drop_end p (keep_or_drop p c r) ≡ keep_or_drop p c r
  unfolding drop_end
  drop_end-keep c [] h = elim (Bool-cases (p c)) [ inl e ↦ rw e | inr e ↦ rw e (rw e) ]
  drop_end-keep c (d ∷ r) h = ap (keep_or_drop p c) h

  pub drop_end_idem : (s : String) → drop_end p (drop_end p s) ≡ drop_end p s
  unfolding drop_end
  drop_end_idem [] = refl
  drop_end_idem (c ∷ s) = drop_end-keep c (drop_end p s) (drop_end_idem s)

  pub drop_start-drop_end-drop_start :
      (s : String) → drop_start p (drop_end p (drop_start p s)) ≡ drop_end p (drop_start p s)
  drop_start-drop_end-drop_start s =
      drop_start_of_StartsOut (drop_end p (drop_start p s))
        (StartsOut-drop_end (drop_start p s) (StartsOut-drop_start s))

pub trim-drop_start : (s : String) → trim (drop_start is_space s) ≡ trim s
unfolding trim
trim-drop_start s =
    ap (drop_end is_space)
      (drop_start_of_StartsOut is_space (drop_start is_space s) (StartsOut-drop_start is_space s))

pub trim_idem : (s : String) → trim (trim s) ≡ trim s
unfolding trim
trim_idem s =
    ap (drop_end is_space) (drop_start-drop_end-drop_start is_space s)
    ∙ drop_end_idem is_space (drop_start is_space s)

keep-append :
    (c d : Char) (s : String)
    → keep_or_drop is_space c (str_append s (d ∷ "")) ≡ c ∷ str_append s (d ∷ "")
keep-append c d [] = rw nil-append refl
keep-append c d (e ∷ s) = rw (cons-append e s (d ∷ "")) refl

drop_end-append :
    (d : Char) (s : String)
    → is_space d ≡ false
    → drop_end is_space (str_append s (d ∷ "")) ≡ str_append s (d ∷ "")
unfolding drop_end
drop_end-append d [] h = rw nil-append (rw h refl)
drop_end-append d (c ∷ s) h =
    rw cons-append (ap (keep_or_drop is_space c) (drop_end-append d s h) ∙ keep-append c d s)

-- A text between two characters that are no white space is left as it is.
pub trim-framed :
    (c d : Char) (s : String)
    → is_space c ≡ false
    → is_space d ≡ false
    → trim (c ∷ str_append s (d ∷ "")) ≡ c ∷ str_append s (d ∷ "")
unfolding trim drop_start drop_end
trim-framed c d s h k =
    rw h (ap (keep_or_drop is_space c) (drop_end-append d s k) ∙ keep-append c d s)
