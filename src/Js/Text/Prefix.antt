-- ===== src/Js/Text/Prefix.antt =====
-- What a text that was put in front is stripped to.
use Prim.Native.Char.{code}
use Prim.Native.String.{[], ◌∷◌, ◌++◌ as str_append}
use text.Mathlib.TextLemmas.{nil-append, cons-append}
use arcops.Prelude.{ℕ, String, ◌≡◌, true, some, arith, eqb}
use arcops.Js.Text.{starts_with, strip_prefix}

eqb_self : (n : ℕ) → eqb n n ≡ true
eqb_self n = ground arith

pub strip_prefix-append : (s t : String) → strip_prefix s (str_append s t) ≡ some t
unfolding strip_prefix
strip_prefix-append [] t = rw nil-append
strip_prefix-append (c ∷ s) t = rw (cons-append, eqb_self (code c)) (strip_prefix-append s t)

pub starts_with-append : (s t : String) → starts_with (str_append s t) s ≡ true
unfolding starts_with
starts_with-append s t = rw (strip_prefix-append s t)
