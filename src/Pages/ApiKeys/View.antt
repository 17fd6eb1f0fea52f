-- ===== src/Pages/ApiKeys/View.antt =====
-- What the panel of API keys shows, and the controls of its dialog,
-- web/src/components/api-key-bento.tsx.
use arcops.Prelude.{
  String, Bool, true, false, Option, none, some, List, [], ◌∷◌, map, if◌then◌else◌,
}
use arcops.Js.Text.{template}
use arcops.Js.Json.{truthy, to_string}
use arcops.Pages.ApiKeys.{ApiKeyItem, Panel}

-- The list
pub record Row : Type 0 where
  pub name : String
  pub key_prefix : String
  pub created : String

abbrev pub row : ApiKeyItem → Row
row item = record {
  name = to_string item.name;
  key_prefix = item.key_prefix;
  created = template ("Created " ∷ item.created_at ∷ []);
}

pub data Listed : Type 0 where
  no_keys : Listed
  rows : List Row → Listed

unfoldable pub listed : List ApiKeyItem → Listed
listed [] = no_keys
listed (item ∷ items) = rows (map row (item ∷ items))

-- The dialog: a form for the name of a new key, or the key, that is shown once, with the mark of a copy.
pub data Dialog : Type 0 where
  ask_name : String → Dialog
  save_key : String → Bool → Dialog

unfoldable pub title : Dialog → String
title (ask_name name) = "Create New API Key"
title (save_key key copied) = "Save Your API Key"

unfoldable pub dialog : Panel → Option Dialog
dialog p =
    if p.is_modal_open
    then some (
        if truthy p.generated_key
        then save_key (to_string p.generated_key) p.copied
        else ask_name p.new_key_name)
    else none

-- The controls
abbrev pub open_modal : Panel → Panel
open_modal p = record p { is_modal_open = true }

abbrev pub type_name : String → Panel → Panel
type_name s p = record p { new_key_name = s }

-- The timer of a copy fires.
abbrev pub unmark : Panel → Panel
unmark p = record p { copied = false }
