-- ===== src/Pages/ApiKeys.antt =====
-- `ApiKeyBento`, web/src/components/api-key-bento.tsx: the list of API keys and the form for a new one.
pub mod View
pub mod Outcomes
pub mod Tests
use arcops.Prelude.{
  String, Bool, true, false, not, ◌&&◌, Option, none, some, List, [], ◌∷◌, map, filter, any, ◌==◌,
  if◌then◌else◌,
}
use arcops.Js.Text.{template, trim}
use arcops.Js.Json.{Json, str, get, truthy, or_else, to_string, is_array, array_of, is_nullish}
use arcops.Js.Exec.{pure, throw, catch, prop, type_error, ◌>>=◌, ◌>>◌}
use arcops.Js.World.{set_timeout}
use arcops.Js.World.Object.{Object, Method, io, read, update}
use arcops.Web.ArcAuth.{list_api_keys, create_api_key, delete_api_key}

pub record ApiKeyItem : Type 0 where
  pub id : Json
  pub name : Json
  pub key_prefix : String
  pub created_at : String

-- The text that was last copied stands for the clipboard.
pub record Panel : Type 0 where
  pub keys : List ApiKeyItem
  pub is_modal_open : Bool
  pub new_key_name : String
  pub generated_key : Json
  pub copied : Bool
  pub clipboard : Option String

-- What the platform gives: the date of a value as a text, the time, and random hexadecimal digits, of
-- which the first four are given on their own.
pub record Platform : Type 0 where
  pub locale_date : Json → String
  pub now : String
  pub random_start : String
  pub random_rest : String

abbrev masked : Json → String
masked prefix = template (to_string (or_else prefix (str "arc_live_")) ∷ "...****" ∷ [])

-- A key of the server as an item of the list.
abbrev formatted : Platform → Json → ApiKeyItem
formatted platform k = record {
  id = get k "id";
  name = or_else (get k "name") (str "API Key");
  key_prefix = masked (get k "key_prefix");
  created_at =
      if truthy (get k "created_at") then platform.locale_date (get k "created_at") else "Active";
}

abbrev set_keys : List ApiKeyItem → Method Panel Unit
set_keys keys = update λ p. record p { keys = keys }

unfoldable pub has_id : String → ApiKeyItem → Bool
has_id id item = elim item.id [ str s ↦ s == id | _ ↦ false ]

-- The item of the answer of the server, and the key that is shown once.
abbrev created : Platform → Panel → Json → Panel
created platform p result = record p {
  keys =
      (record {
        id = or_else (get result "id") (str (template ("key_" ∷ platform.now ∷ [])));
        name = or_else (get result "name") (str (trim p.new_key_name));
        key_prefix = masked (get result "key_prefix");
        created_at = "Just now";
      })
      ∷ p.keys;
  generated_key = get result "key";
}

-- The key that the page makes up, and what it shows, when the server gives none.
abbrev pub made_up_key : Platform → String
made_up_key platform = template ("arc_live_" ∷ platform.random_start ∷ platform.random_rest ∷ [])

abbrev pub made_up : Platform → Panel → Panel
made_up platform p = record p {
  keys =
      (record {
        id = str (template ("key_" ∷ platform.now ∷ []));
        name = str (trim p.new_key_name);
        key_prefix = template ("arc_live_" ∷ platform.random_start ∷ "...****" ∷ []);
        created_at = "Just now";
      })
      ∷ p.keys;
  generated_key = str (made_up_key platform);
}

module _ (platform : Platform) (gateway : String) where
  show_keys : Json → Method Panel Unit
  show_keys live =
      if is_array live
      then (if any is_nullish (array_of live)
          then throw type_error
          else set_keys (map (formatted platform) (array_of live)))
      else pure tt

  -- `fetchKeys`
  unfoldable pub fetch_keys : Method Panel Unit
  unfolding show_keys
  fetch_keys = catch (do live ← io (list_api_keys gateway); show_keys live) (λ _. set_keys [])

  -- `handleDeleteKey`
  unfoldable pub delete_key : String → Method Panel Unit
  unfolding has_id
  delete_key id = do
    catch (io (delete_api_key gateway id)) (λ _. pure tt)
    update λ p. record p { keys = filter (λ k. not (has_id id k)) p.keys }

  show_created : Json → Method Panel Unit
  unfolding trim
  show_created result =
      if is_nullish result then throw type_error else update (λ p. created platform p result)

  -- `handleCreateKey`
  unfoldable pub create_key : Method Panel Unit
  unfolding show_created trim
  create_key = do
    panel ← read (λ p. p)
    if trim panel.new_key_name == ""
        then pure tt
        else catch
            (do result ← io (create_api_key gateway (trim panel.new_key_name)); show_created result)
            (λ _. update (made_up platform))

-- `handleCopyGeneratedKey`; the mark goes when the timer fires.
unfoldable pub copy_generated_key : Method Panel Unit
copy_generated_key = do
  key ← read (λ p. p.generated_key)
  if truthy key
      then (do
        update λ p. record p { clipboard = some (to_string key); copied = true }
        io set_timeout)
      else pure tt

-- `closeModal`
unfoldable pub close_modal : Panel → Panel
close_modal p = record p {
  is_modal_open = false;
  new_key_name = "";
  generated_key = Json.null;
  copied = false;
}
