-- ===== src/Js/Text/Query/Pieces.antt =====
-- The pieces of a query of two names.
use Prim.Native.Char.{Char, code}
use Prim.Native.String.{[], ◌∷◌, ◌++◌ as str_append}
use text.Mathlib.TextLemmas.{nil-append, cons-append}
use arcops.Prelude.{
  String, ◌≡◌, refl, ap, ◌∙◌, [], ◌∷◌, Bool, true, false, not, ◌||◌, eqb, ◌==◌, arith,
}
use arcops.Js.Text.{split, cons_head}
use arcops.Js.Text.Empty.{cons-ne_empty}
use arcops.Js.Text.Every.{every, every-cons, every-append, every_mono}
use arcops.Js.Text.Query.{decoded, cut, pair_of, search_params}

-- No separator of a query, and no mark of a fragment.
abbrev pub is_value_char : Char → Bool
is_value_char c = not (eqb (code c) b'&' || eqb (code c) b'=' || eqb (code c) b'#')

abbrev pub IsValue : String → Type 0
IsValue s = every is_value_char s ≡ true

-- No separator between two pieces.
abbrev is_piece_char : Char → Bool
is_piece_char c = not (eqb (code c) b'&')

abbrev IsPiece : String → Type 0
IsPiece s = every is_piece_char s ≡ true

not_and : (c : Char) → is_piece_char c ≡ true → eqb (code c) b'&' ≡ false
not_and c h = ground arith

not_equals : (c : Char) → is_value_char c ≡ true → eqb (code c) b'=' ≡ false
not_equals c h = ground arith

IsPiece-of_value : (s : String) → IsValue s → IsPiece s
IsPiece-of_value = every_mono is_value_char is_piece_char (λ c h. ground arith)

split-piece : (s : String) → IsPiece s → split b'&' s ≡ s ∷ []
unfolding split
split-piece [] h = refl
split-piece (c ∷ s) h =
    let (e, t) = every-cons is_piece_char c s h in
    rw (not_and c e) (ap (cons_head c) (split-piece s t))

-- A text of one character in front of another text.
append_char : (c : Char) (t : String) → str_append (c ∷ "") t ≡ c ∷ t
append_char c t = cons-append c "" t ∙ ap (λ r. c ∷ r) (nil-append t)

split-and :
    (s t : String) → IsPiece s → split b'&' (str_append s (str_append "&" t)) ≡ s ∷ split b'&' t
unfolding split
split-and [] t h = ap (split b'&') (nil-append (str_append "&" t) ∙ append_char "&" t)
split-and (c ∷ s) t h =
    let (e, v) = every-cons is_piece_char c s h in
    ap (split b'&') (cons-append c s (str_append "&" t))
    ∙ rw (not_and c e) (ap (cons_head c) (split-and s t v))

cut-equals : (k v : String) → IsValue k → cut (str_append k (str_append "=" v)) ≡ (k, v)
unfolding cut
cut-equals [] v h = ap cut (nil-append (str_append "=" v) ∙ append_char "=" v)
cut-equals (c ∷ k) v h =
    let (e, t) = every-cons is_value_char c k h in
    ap cut (cons-append c k (str_append "=" v))
    ∙ rw (not_equals c e) (ap (λ (r : String × String). (c ∷ r.0, r.1)) (cut-equals k v t))

piece-ne_empty : (k v : String) → (str_append k (str_append "=" v) == "") ≡ false
piece-ne_empty [] v =
    ap (λ s. s == "") (nil-append (str_append "=" v) ∙ append_char "=" v) ∙ cons-ne_empty "=" v
piece-ne_empty (c ∷ k) v =
    ap (λ s. s == "") (cons-append c k (str_append "=" v))
    ∙ cons-ne_empty c (str_append k (str_append "=" v))

pair_of-equals :
    (k v : String)
    → IsValue k
    → pair_of (str_append k (str_append "=" v)) ≡ (decoded k, decoded v) ∷ []
unfolding pair_of
pair_of-equals k v h = rw (piece-ne_empty k v) (rw (cut-equals k v h) refl)

IsPiece-equals : (k v : String) → IsValue k → IsValue v → IsPiece (str_append k (str_append "=" v))
IsPiece-equals k v h g =
    every-append is_piece_char k (str_append "=" v) (IsPiece-of_value k h)
      (every-append is_piece_char "=" v (unfold every in refl) (IsPiece-of_value v g))

-- A query of two names with their values.
pub search_params-two :
    (k v l w : String)
    → IsValue k
    → IsValue v
    → IsValue l
    → IsValue w
    → search_params (
        str_append
          (str_append k (str_append "=" v))
          (str_append "&" (str_append l (str_append "=" w))))
      ≡ (decoded k, decoded v) ∷ (decoded l, decoded w) ∷ []
unfolding search_params
search_params-two k v l w hk hv hl hw =
    rw
      (split-and (str_append k (str_append "=" v)) (str_append l (str_append "=" w))
        (IsPiece-equals k v hk hv))
      (rw (split-piece (str_append l (str_append "=" w)) (IsPiece-equals l w hl hw))
        (rw (pair_of-equals k v hk, pair_of-equals l w hl) refl))
