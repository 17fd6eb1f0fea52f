-- ===== src/Pages/ApiKeys/Outcomes.antt =====
-- How the handlers of the panel end.
use arcops.Prelude.{
  String, ◌≡◌, refl, true, false, some, map, not, List, [], ◌∷◌, filter, All, arith, ◌==◌,
  Bool-cases, inl, inr,
}
use arcops.Js.Text.{template, trim}
use arcops.Js.Text.Empty.{append-ne_empty}
use arcops.Js.Json.{to_string}
use arcops.Js.Exec.{Error, Result, ok, err, continue, handle, pure}
use arcops.Js.World.Object.{Object, update}
use arcops.Web.ArcAuth.{create_api_key, delete_api_key}
use arcops.Pages.ApiKeys.{
  Platform, Panel, ApiKeyItem, has_id, made_up, made_up_key, create_key, delete_key,
}
use arcops.Pages.ApiKeys.View.{dialog, save_key, listed, rows, row}

module _ (platform : Platform) (gateway : String) where
  create_key-made_up :
      (o : Object Panel) (e : Error)
      → (trim o.this.new_key_name == "") ≡ false
      → (create_api_key gateway (trim o.this.new_key_name) o.world).0 ≡ err e
      → ((create_key platform gateway o).0 ≡ ok tt)
        × ((create_key platform gateway o).1.this ≡ made_up platform o.this)
  unfolding create_key
  create_key-made_up o e h f = ground arith

  made_up_key-ne_empty : (made_up_key platform == "") ≡ false
  made_up_key-ne_empty =
      append-ne_empty "a" "rc_live_" (template (platform.random_start ∷ platform.random_rest ∷ []))

  made_up-dialog :
      (p : Panel)
      → p.is_modal_open ≡ true
      → dialog (made_up platform p) ≡ some (save_key (made_up_key platform) p.copied)
  unfolding dialog to_string
  made_up-dialog p h = rw h (rw made_up_key-ne_empty refl)

  -- If creating a key throws, a network failure and a refusal of the server among it, the open dialog
  -- says to save a key all the same, one that the panel made up itself, and the list begins with it as
  -- one that was created just now.
  pub create_key-shown :
      (o : Object Panel) (e : Error)
      → o.this.is_modal_open ≡ true
      → (trim o.this.new_key_name == "") ≡ false
      → (create_api_key gateway (trim o.this.new_key_name) o.world).0 ≡ err e
      → ((create_key platform gateway o).0 ≡ ok tt)
        × ((dialog (create_key platform gateway o).1.this
              ≡ some (save_key (made_up_key platform) o.this.copied))
            × (listed (create_key platform gateway o).1.this.keys
                ≡ rows (
                    record {
                      name = trim o.this.new_key_name;
                      key_prefix = template ("arc_live_" ∷ platform.random_start ∷ "...****" ∷ []);
                      created = "Created Just now";
                    }
                    ∷ map row o.this.keys)))
  unfolding listed to_string
  create_key-shown o e m h f =
      let (done, this) = create_key-made_up o e h f in
      (done, (rw this (made_up-dialog o.this m), rw this refl))

  rest_has_no_id :
      (id : String) (ks : List ApiKeyItem)
      → All (λ k. has_id id k ≡ false) (filter (λ k. not (has_id id k)) ks)
  rest_has_no_id id [] = tt
  rest_has_no_id id (k ∷ ks) = elim (Bool-cases (has_id id k)) [
    | inl e ↦ rw (e, All) (rest_has_no_id id ks)
    | inr e ↦ rw (e, All) (e, rest_has_no_id id ks)
  ]

  abbrev IsDeleted : String → Result (Unit {0}) × Object Panel → Type 0
  IsDeleted id done = (done.0 ≡ ok tt) × All (λ k. has_id id k ≡ false) done.1.this.keys

  -- What follows the call of the client, with what that came to.
  abbrev after_delete : String → Object Panel → Result (Unit {0}) → Result (Unit {0}) × Object Panel
  after_delete id o r =
      continue (λ _. update λ p. record p { keys = filter (λ k. not (has_id id k)) p.keys })
        (handle (λ _. pure tt) (r, record o { world = (delete_api_key gateway id o.world).1 }))

  -- After a deletion the panel shows no key with that identifier, whatever the network and the server
  -- do, so also when the server kept the key.
  delete_key-gone :
      (id : String) (o : Object Panel)
      → ((delete_key platform gateway id o).0 ≡ ok tt)
        × All (λ k. has_id id k ≡ false) (delete_key platform gateway id o).1.this.keys
  unfolding delete_key
  delete_key-gone id o =
      elim (delete_api_key gateway id o.world).0 as (λ r. IsDeleted id (after_delete id o r)) [
        | ok u ↦ (refl, rest_has_no_id id o.this.keys)
        | err e ↦ (refl, rest_has_no_id id o.this.keys)
      ]
