-- ===== src/Js/Text/Every.antt =====
-- A test that every character of a text passes, and what the string methods keep of it.
use Prim.Native.Char.{Char}
use Prim.Native.String.{[], ◌∷◌, ◌++◌ as str_append}
use text.Mathlib.TextLemmas.{nil-append, cons-append}
use arcops.Prelude.{
  String, ◌≡◌, refl, Bool, true, ◌&&◌, Bool-cases, inl, inr, List, [], ◌∷◌, All, arith,
}
use arcops.Js.Text.{template, drop_start, drop_end, keep_or_drop, trim, to_lower, to_upper, join}
use arcops.Js.Text.Chars.{is_space, lower_char, upper_char}

module _ (p : Char → Bool) where
  unfoldable pub every : String → Bool
  every [] = true
  every (c ∷ s) = p c && every s

  pub every-cons : (c : Char) (s : String) → every (c ∷ s) ≡ true → (p c ≡ true) × (every s ≡ true)
  unfolding every
  every-cons c s h = ground arith

  pub cons_of_every : (c : Char) (s : String) → p c ≡ true → every s ≡ true → every (c ∷ s) ≡ true
  unfolding every
  cons_of_every c s e h = rw e h

  pub every-append :
      (s t : String) → every s ≡ true → every t ≡ true → every (str_append s t) ≡ true
  every-append [] t h k = rw nil-append k
  every-append (c ∷ s) t h k =
      let both = every-cons c s h in
      rw cons-append (cons_of_every c (str_append s t) both.0 (every-append s t both.1 k))

  pub every-template :
      (ss : List String) → All (λ s. every s ≡ true) ss → every (template ss) ≡ true
  every-template [] h = unfold every in refl
  every-template (s ∷ ss) (h, hs) = every-append s (template ss) h (every-template ss hs)

  pub every-join :
      (d : String) (ss : List String)
      → every d ≡ true
      → All (λ s. every s ≡ true) ss
      → every (join d ss) ≡ true
  unfolding join
  every-join d [] e h = unfold every in refl
  every-join d (s ∷ []) e h = h.0
  every-join d (s ∷ t ∷ ss) e (h, hs) =
      every-template (s ∷ d ∷ join d (t ∷ ss) ∷ []) (h, (e, (every-join d (t ∷ ss) e hs, tt)))

  module _ (q : Char → Bool) where
    every-drop_start : (s : String) → every s ≡ true → every (drop_start q s) ≡ true
    unfolding drop_start
    every-drop_start [] h = h
    every-drop_start (c ∷ s) h = elim (Bool-cases (q c)) [
      | inl e ↦ rw e (every-drop_start s (every-cons c s h).1)
      | inr e ↦ rw e h
    ]

    every-keep :
        (c : Char) (r : String) → p c ≡ true → every r ≡ true → every (keep_or_drop q c r) ≡ true
    every-keep c [] e h = elim (Bool-cases (q c)) [
      | inl i ↦ rw i h
      | inr i ↦ rw i (cons_of_every c "" e h)
    ]
    every-keep c (d ∷ r) e h = cons_of_every c (d ∷ r) e h

    every-drop_end : (s : String) → every s ≡ true → every (drop_end q s) ≡ true
    unfolding drop_end
    every-drop_end [] h = h
    every-drop_end (c ∷ s) h =
        let both = every-cons c s h in every-keep c (drop_end q s) both.0 (every-drop_end s both.1)

  pub every-trim : (s : String) → every s ≡ true → every (trim s) ≡ true
  unfolding trim
  every-trim s h = every-drop_end is_space (drop_start is_space s) (every-drop_start is_space s h)

  pub every-to_lower :
      ((c : Char) → p c ≡ true → p (lower_char c) ≡ true)
      → (s : String) → every s ≡ true
      → every (to_lower s) ≡ true
  unfolding to_lower
  every-to_lower keep [] h = h
  every-to_lower keep (c ∷ s) h =
      let both = every-cons c s h in
      cons_of_every (lower_char c) (to_lower s) (keep c both.0) (every-to_lower keep s both.1)

  pub every-to_upper :
      ((c : Char) → p c ≡ true → p (upper_char c) ≡ true)
      → (s : String) → every s ≡ true
      → every (to_upper s) ≡ true
  unfolding to_upper
  every-to_upper keep [] h = h
  every-to_upper keep (c ∷ s) h =
      let both = every-cons c s h in
      cons_of_every (upper_char c) (to_upper s) (keep c both.0) (every-to_upper keep s both.1)

pub every_mono :
    (p q : Char → Bool)
    → ((c : Char) → p c ≡ true → q c ≡ true)
    → (s : String) → every p s ≡ true
    → every q s ≡ true
every_mono p q weaker [] h = unfold every in refl
every_mono p q weaker (c ∷ s) h =
    let (e, t) = every-cons p c s h in cons_of_every q c s (weaker c e) (every_mono p q weaker s t)
