-- ===== src/Assets/Service/Tests.antt =====
-- Updating and deleting the sample pump.
use elunic_myturck.Base.{
  ◌≡◌, refl, Bool, true, false, none, some, [], ◌∷◌, String, any, eq_iff, str_eq, if◌then◌else◌,
}
use elunic_myturck.Base.Results.{ok, err, not_found}
use elunic_myturck.Assets.{AssetEntity, field_updated, soft_deleted, name, AssetStore}
use elunic_myturck.Assets.Activities.{create_activity}
use elunic_myturck.Assets.Samples.{tables, calls, is_type, user, pump, store, renaming}
use elunic_myturck.Assets.Reading.{
  get_asset_by_id, get_assets_by_ids_bulk, get_assets_where_id_not_in, get_assets_by_type_id,
  find_assets_by_alias,
}
use elunic_myturck.Assets.Service.{
  truthy_text, update_simple, save_asset, update_type, update_asset, update_asset_by_id,
  hierarchy_row, soft_delete_by_id,
}
use elunic_myturck.Assets.Service.Fields.{with_fields}
use elunic_myturck.Assets.Service.Updating.{
  type_after, fields_only, update_asset_by_id-fields, update_asset_again,
}
use elunic_myturck.Assets.Service.Deleting.{soft_delete_by_id-hidden}

abbrev renamed : AssetEntity String
renamed = record pump { name = "pump 2" }

-- The description is the one of before, so only the name is logged.
abbrev after_renaming : AssetStore tables
after_renaming = record store {
  assets = renamed ∷ record pump { id = "y"; tenant_id = "other" } ∷ [];
  activities =
      create_activity user field_updated "x" (some "name") (some (name "pump 1"))
        (some (name "pump 2")) none
      ∷ [];
}

renames : update_asset tables calls (λ k. "n") user "x" renaming store ≡ ok after_renaming
unfolding update_asset update_type save_asset update_simple get_asset_by_id
renames = refl

renames_by_id :
    update_asset_by_id tables calls (λ k. "n") user "x" renaming store
    ≡ ok (renamed, after_renaming)
unfolding update_asset_by_id update_asset update_type save_asset update_simple get_asset_by_id
renames_by_id = refl

update_asset_by_id-fields_example :
    (a : AssetEntity String) × (get_asset_by_id "t" "x" store.assets ≡ ok a)
    × (renamed ≡ record (with_fields str_eq renaming a) { asset_type_id = "pump" })
    × (type_after tables calls "t" (truthy_text renaming.asset_type) a.asset_type_id ≡ ok "pump")
update_asset_by_id-fields_example =
    update_asset_by_id-fields tables calls eq_iff (λ k. "n") user "x" renaming store after_renaming
      renamed renames_by_id

type_sound : (t t' tenant : String) → calls.find_type tenant t ≡ ok t' → t' ≡ t
type_sound t t' tenant h = by_test (is_type t) h
  where
    by_test : (b : Bool) → (if b then ok t else err not_found) ≡ ok t' → t' ≡ t
    by_test true h = cc h
    by_test false h = absurd (cc h)

type_typed : (t t' tenant : String) → calls.find_type tenant t ≡ ok t' → calls.has_type t' ≡ true
type_typed t t' tenant h = by_test (is_type t) refl h
  where
    by_test :
        (b : Bool) → is_type t ≡ b → (if b then ok t else err not_found) ≡ ok t' → is_type t' ≡ true
    by_test true e h = cc (e, h)
    by_test false e h = absurd (cc h)

update_asset_again_example :
    (s : AssetStore tables) × (update_asset tables calls
        (λ k. "m")
        user
        "x"
        (fields_only tables calls renaming)
        after_renaming
      ≡ ok s)
    × (s.assets ≡ after_renaming.assets)
    × (s.properties ≡ after_renaming.properties)
    × (s.activities ≡ after_renaming.activities)
update_asset_again_example =
    update_asset_again tables calls eq_iff type_sound type_typed (λ k. "n") (λ k. "m") user "x"
      renaming store after_renaming renames

abbrev after_deletion : AssetStore tables
after_deletion = record store {
  assets = record pump { is_deleted = true } ∷ record pump { id = "y"; tenant_id = "other" } ∷ [];
  hierarchy = [];
  activities = create_activity user soft_deleted "x" none none none none ∷ [];
}

deletes : soft_delete_by_id tables calls (λ deleted h. false) user "x" store ≡ ok after_deletion
unfolding soft_delete_by_id get_asset_by_id
deletes = refl

soft_delete_by_id-hidden_example :
    (get_asset_by_id "t" "x" after_deletion.assets ≡ err not_found)
    × (any (hierarchy_row tables calls "t" "x") after_deletion.hierarchy ≡ false)
    × (any (λ a. str_eq a.id "x") (get_assets_by_ids_bulk "t" ("x" ∷ []) after_deletion.assets)
        ≡ false)
    × (any (λ a. str_eq a.id "x") (get_assets_where_id_not_in "t" ("x" ∷ []) after_deletion.assets)
        ≡ false)
    × (any (λ a. str_eq a.id "x") (get_assets_by_type_id "t" "pump" after_deletion.assets) ≡ false)
    × (any (λ a. str_eq a.id "x") (find_assets_by_alias str_eq "t" "p" [] after_deletion.assets)
        ≡ false)
    × (get_asset_by_id "t" "z" after_deletion.assets ≡ get_asset_by_id "t" "z" store.assets)
soft_delete_by_id-hidden_example =
    soft_delete_by_id-hidden tables calls (λ deleted h. false) user "x" "z" ("x" ∷ []) "pump" "p"
      str_eq [] store after_deletion refl deletes
