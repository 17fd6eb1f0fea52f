-- ===== src/Js/Text/Slash.antt =====
-- The URL of the storage ends in no slash that could be dropped.
use Prim.Native.String.{[], ◌∷◌}
use text.Mathlib.TextLemmas.{nil-append, cons-append}
use arcops.Prelude.{String, ◌≡◌, refl, ap, subst, [], ◌∷◌}
use arcops.Js.Text.{template, drop_last_slash}

pub drop_last_slash-append :
    (s : String)
    → drop_last_slash (template (s ∷ "/api/storage" ∷ [])) ≡ template (s ∷ "/api/storage" ∷ [])
unfolding drop_last_slash
drop_last_slash-append [] = refl
drop_last_slash-append (c ∷ []) = rw (cons-append, nil-append) refl
drop_last_slash-append (c ∷ d ∷ s) =
    rw (cons-append, cons-append)
      (ap (λ t. c ∷ t)
        (subst (λ t. drop_last_slash t ≡ t) (cons-append d s "/api/storage")
          (drop_last_slash-append (d ∷ s))))
