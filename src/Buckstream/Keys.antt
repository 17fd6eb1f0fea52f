-- ===== src/Buckstream/Keys.antt =====
-- The keys of stored files.
use arcops.Prelude.{String, ◌≡◌, false, [], ◌∷◌, arith}
use arcops.Js.Text.{template, starts_with}
use arcops.Js.World.{World}
use arcops.Buckstream.{Client, target_key, delete}
use arcops.Js.Text.Prefix.{starts_with-append}

target_key-prefixed :
    (key : String)
    → starts_with key "uploads/" ≡ false
    → target_key (template ("uploads/" ∷ key ∷ [])) ≡ target_key key
unfolding target_key
target_key-prefixed key h = ground (arith, h, starts_with-append "uploads/" (template (key ∷ [])))

-- A file is deleted by its key with or without the folder of the uploads in front, by the same request
-- and with the same outcome.
delete-prefixed :
    (c : Client) (key : String) (w : World)
    → starts_with key "uploads/" ≡ false
    → delete c (template ("uploads/" ∷ key ∷ [])) w ≡ delete c key w
unfolding delete
delete-prefixed c key w h = rw (target_key-prefixed key h)
