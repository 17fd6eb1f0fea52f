-- ===== src/Web/Sql/Text.antt =====
-- A text without white space and semicolons, which is what `tidy` and the splitting leave alone.
use Prim.Native.Char.{Char, code}
use Prim.Native.String.{[], ◌∷◌, ◌++◌ as str_append}
use text.Mathlib.TextLemmas.{nil-append, cons-append}
use arcops.Prelude.{
  suc, String, ◌≡◌, refl, sym, ap, ◌∙◌, Bool, true, false, ◌||◌, List, [], ◌∷◌, arith, eqb,
  if◌then◌else◌, Bool-cases, inl, inr,
}
use arcops.Js.Text.{template, trim, split, drop_start, drop_end, keep_or_drop, cons_head}
use arcops.Js.Text.Chars.{is_space}
use arcops.Web.Sql.{is_semicolon, tidy, quotes}

abbrev pub is_blank : Char → Bool
is_blank c = is_space c || is_semicolon c

unfoldable pub essence : String → String
essence [] = ""
essence (c ∷ s) = if is_blank c then essence s else c ∷ essence s

essence-blank : (c : Char) (s : String) → is_blank c ≡ true → essence (c ∷ s) ≡ essence s
unfolding essence
essence-blank c s h = rw (h, essence)

pub essence-semicolon : (s : String) → essence (str_append ";" s) ≡ essence s
unfolding essence is_space
essence-semicolon s = rw cons-append (rw nil-append)

pub essence-append : (s t : String) → essence (str_append s t) ≡ str_append (essence s) (essence t)
unfolding essence
essence-append [] t = rw nil-append (rw nil-append)
essence-append (c ∷ s) t = elim (Bool-cases (is_blank c)) [
  | inl e ↦ rw cons-append (rw (e, essence) (essence-append s t))
  | inr e ↦ rw cons-append (rw (e, essence) (rw cons-append (ap (λ r. c ∷ r) (essence-append s t))))
]

module _ (p : Char → Bool) (within : (c : Char) → p c ≡ true → is_blank c ≡ true) where
  essence-drop_start : (s : String) → essence (drop_start p s) ≡ essence s
  unfolding drop_start essence
  essence-drop_start [] = refl
  essence-drop_start (c ∷ s) = elim (Bool-cases (p c)) [
    | inl e ↦ rw (e, drop_start) (rw (within c e) (essence-drop_start s))
    | inr e ↦ rw (e, drop_start) refl
  ]

  essence-keep : (c : Char) (r : String) → essence (keep_or_drop p c r) ≡ essence (c ∷ r)
  unfolding essence
  essence-keep c [] = elim (Bool-cases (p c)) [ inl e ↦ rw e (rw (within c e)) | inr e ↦ rw e refl ]
  essence-keep c (d ∷ r) = refl

  essence-drop_end : (s : String) → essence (drop_end p s) ≡ essence s
  unfolding drop_end essence
  essence-drop_end [] = refl
  essence-drop_end (c ∷ s) =
      essence-keep c (drop_end p s) ∙ ap (λ r. if is_blank c then r else c ∷ r) (essence-drop_end s)

space_within : (c : Char) → is_space c ≡ true → is_blank c ≡ true
space_within c h = rw h

semicolon_within : (c : Char) → is_semicolon c ≡ true → is_blank c ≡ true
semicolon_within c h = ground arith

pub essence-trim : (s : String) → essence (trim s) ≡ essence s
unfolding trim
essence-trim s =
    essence-drop_end is_space space_within (drop_start is_space s)
    ∙ essence-drop_start is_space space_within s

pub essence-tidy : (s : String) → essence (tidy s) ≡ essence s
unfolding tidy
essence-tidy s =
    essence-trim (drop_end is_semicolon (drop_start is_semicolon (trim s)))
    ∙ (essence-drop_end is_semicolon semicolon_within (drop_start is_semicolon (trim s))
        ∙ (essence-drop_start is_semicolon semicolon_within (trim s) ∙ essence-trim s))

template-cons_head :
    (c : Char) (parts : List String) → template (cons_head c parts) ≡ c ∷ template parts
template-cons_head c [] = rw cons-append (rw nil-append)
template-cons_head c (p ∷ parts) = cons-append c p (template parts)

split-semicolon :
    (c : Char) (s : String) → is_semicolon c ≡ true → split b';' (c ∷ s) ≡ "" ∷ split b';' s
unfolding split
split-semicolon c s h = rw h

split-other :
    (c : Char) (s : String)
    → is_semicolon c ≡ false
    → split b';' (c ∷ s) ≡ cons_head c (split b';' s)
unfolding split
split-other c s h = rw h

-- Splitting at semicolons takes only blank characters out.
pub essence-split : (s : String) → essence (template (split b';' s)) ≡ essence s
unfolding essence
essence-split [] = unfold split in refl
essence-split (c ∷ s) = elim (Bool-cases (is_semicolon c)) [
  | inl e ↦
      ap (λ r. essence (template r)) (split-semicolon c s e)
      ∙ (ap essence (nil-append (template (split b';' s)))
          ∙ (essence-split s ∙ sym (essence-blank c s (semicolon_within c e))))
  | inr e ↦
      ap (λ r. essence (template r)) (split-other c s e)
      ∙ (ap essence (template-cons_head c (split b';' s))
          ∙ ap (λ r. if is_blank c then r else c ∷ r) (essence-split s))
]

quote_ne_space : (c : Char) → is_blank c ≡ true → eqb (code c) b'\'' ≡ false
unfolding is_space
quote_ne_space c h = ground arith

-- Quotes are not blank, so they are counted alike in what is left.
pub quotes-essence : (s : String) → quotes (essence s) ≡ quotes s
unfolding quotes essence
quotes-essence [] = refl
quotes-essence (c ∷ s) = elim (Bool-cases (is_blank c)) [
  | inl e ↦ rw (e, essence) (rw (quote_ne_space c e) (quotes-essence s))
  | inr e ↦ rw (e, essence) (ap (λ n. if eqb (code c) b'\'' then suc n else n) (quotes-essence s))
]
