-- ===== src/Pages/Dashboard/Names.antt =====
-- The names that stored files are shown by.
use Prim.Native.Char.{Char, code}
use Prim.Native.String.{[], ◌∷◌, ◌++◌ as str_append}
use text.Mathlib.TextLemmas.{nil-append, cons-append}
use arcops.Prelude.{String, ◌≡◌, refl, true, false, none, some, [], ◌∷◌, arith, eqb}
use arcops.Js.Text.{strip_prefix}
use arcops.Js.Text.Prefix.{strip_prefix-append}
use arcops.Pages.Dashboard.{after_segment, without_folder, asset_name}

-- No character is a slash.
abbrev pub IsSegment : String → Type 0
IsSegment [] = Unit
IsSegment (c ∷ s) = (eqb (code c) b'/' ≡ false) × IsSegment s

after_segment-append :
    (id name : String)
    → IsSegment id
    → after_segment true (str_append id (str_append "/" name)) ≡ some name
unfolding after_segment
after_segment-append [] name h = rw (nil-append, cons-append, nil-append) refl
after_segment-append (c ∷ id) name (e, h) = rw (cons-append, e) (after_segment-append id name h)

-- A file that is stored for a tenant under the folder of the uploads is shown by its name alone, if that
-- does not itself begin with the folder of the sandbox.
asset_name-upload :
    (c : Char) (id name : String)
    → IsSegment (c ∷ id)
    → strip_prefix "sandbox/" name ≡ none
    → asset_name
        (str_append "uploads/" (str_append "tenant_" (str_append (c ∷ id) (str_append "/" name))))
      ≡ name
unfolding asset_name without_folder after_segment
asset_name-upload c id name (e, h) f = ground (
  arith,
  e,
  f,
  strip_prefix-append "uploads/" (str_append "tenant_" (str_append (c ∷ id) (str_append "/" name))),
  strip_prefix-append "tenant_" (str_append (c ∷ id) (str_append "/" name)),
  cons-append c id (str_append "/" name),
  after_segment-append id name h,
)
