-- ===== src/Assets/Creation/Tests.antt =====
-- Creating a pump with its required speed, and cloning the one that there is.
use elunic_myturck.Base.{ℕ, ◌≡◌, refl, Option, none, some, List, [], ◌∷◌, All, map, filter, String}
use elunic_myturck.Base.Results.{Result, ok, err, bad_request}
use elunic_myturck.Overlay.{
  United, united_property, sort_by_score, insert_by_score, apply_rows, apply_row,
}
use elunic_myturck.Properties.{join}
use elunic_myturck.Properties.Service.{
  united_all, get_property_by_asset_id, get_properties_by_asset_id, add_missing, get_raw,
}
use elunic_myturck.Properties.Service.Changes.{
  patch_by_asset, clone_rows, clone_properties, taken_rows, migrate_properties,
}
use elunic_myturck.Properties.Service.Changes.Copying.{content}
use elunic_myturck.Properties.Service.Changes.Writing.{stored_value}
use elunic_myturck.Assets.{AssetEntity, AssetStore, UpdateAssetDto}
use elunic_myturck.Assets.Samples.{
  tables, calls, user, pump, properties, required_value, store, renaming, creation,
}
use elunic_myturck.Assets.Reading.{get_asset_by_id, get_type_id_by_asset_id}
use elunic_myturck.Assets.Service.{update_simple, save_asset, update_type, update_asset}
use elunic_myturck.Assets.Creation.{
  is_required, for_create, write_required, properties_of, handle_required_fields, create_asset,
  clone_asset,
}
use elunic_myturck.Assets.Creation.Required.{Given, handle_required_fields-Given}
use elunic_myturck.Assets.Creation.Cloning.{rows_of, clone_asset-content}

abbrev values_after : Result (AssetEntity String × AssetStore tables) → Result (List (Option ℕ))
values_after (ok (a, s)) = ok (map (λ v. v.value) s.properties.values)
values_after (err e) = err e

creates :
    values_after
      (create_asset tables calls "new" (λ k. "o2") user (creation (("speed", 9) ∷ [])) store)
    ≡ ok (none ∷ some 6 ∷ some 7 ∷ some 9 ∷ [])
unfolding create_asset save_asset handle_required_fields write_required for_create get_asset_by_id
    get_type_id_by_asset_id get_properties_by_asset_id get_property_by_asset_id add_missing
    united_all join united_property apply_rows sort_by_score insert_by_score apply_row
    patch_by_asset
creates = refl

-- Without the speed nothing is created.
refuses :
    create_asset tables calls "new" (λ k. "o2") user (creation (("size", 9) ∷ [])) store
    ≡ err bad_request
unfolding create_asset save_asset handle_required_fields get_asset_by_id get_type_id_by_asset_id
    get_properties_by_asset_id add_missing united_all join united_property apply_rows sort_by_score
    insert_by_score apply_row
refuses = refl

-- The pump without its row for the speed.
abbrev blank_store : AssetStore tables
blank_store = record store {
  properties = record properties { values = required_value "v1" "d1" none none ∷ [] };
}

abbrev speed : Result (List (United ℕ ℕ))
speed = (properties_of tables calls (λ k. "o2") "t" "x" blank_store).1

abbrev listed : Result (List (United ℕ ℕ)) → List (United ℕ ℕ)
listed (ok us) = us
listed (err e) = []

fetches : speed ≡ ok (listed speed)
unfolding get_asset_by_id get_type_id_by_asset_id get_properties_by_asset_id add_missing united_all
    join united_property apply_rows sort_by_score insert_by_score apply_row
fetches = refl

abbrev written_store : AssetStore tables
written_store = record store {
  properties = record properties {
    values =
        required_value "v1" "d1" none none
        ∷ record (required_value "o2" "d1" (some "x") (some 9)) { is_required = none }
        ∷ [];
  };
}

writes :
    handle_required_fields tables calls (λ k. "o2") "t" "x" (("speed", 9) ∷ []) blank_store
    ≡ ok written_store
unfolding handle_required_fields write_required for_create get_asset_by_id get_type_id_by_asset_id
    get_properties_by_asset_id get_property_by_asset_id add_missing united_all join united_property
    apply_rows sort_by_score insert_by_score apply_row patch_by_asset
writes = refl

handle_required_fields-Given_example :
    All
      (Given (("speed", 9) ∷ []) (λ id. stored_value id written_store.properties.values))
      (filter is_required (listed speed))
unfolding get_asset_by_id get_type_id_by_asset_id get_properties_by_asset_id add_missing united_all
    join united_property apply_rows sort_by_score insert_by_score apply_row
handle_required_fields-Given_example =
    handle_required_fields-Given tables calls (λ k. "o2") "t" "x" (("speed", 9) ∷ []) blank_store
      written_store (listed speed) fetches refl refl writes

-- A clone that becomes a valve keeps the speed of the pump.
abbrev as_valve : UpdateAssetDto String
as_valve = record renaming { asset_type = some "valve" }

abbrev cloned : Result (AssetEntity String × AssetStore tables)
cloned = clone_asset tables calls "new" (λ k. "n") (λ k. "o2") user "x" as_valve store

abbrev result_of :
    Result (AssetEntity String × AssetStore tables) → AssetEntity String × AssetStore tables
result_of (ok out) = out
result_of (err e) = (pump, store)

clones : cloned ≡ ok (result_of cloned)
unfolding clone_asset update_asset update_type save_asset update_simple get_asset_by_id
    clone_properties clone_rows migrate_properties taken_rows get_raw join
clones = refl

clone_asset-content_example :
    map (content tables.properties) (rows_of tables calls "t" "new" (result_of cloned).1)
    ≡ map (content tables.properties) (rows_of tables calls "t" "x" store)
clone_asset-content_example =
    clone_asset-content tables calls "new" (λ k. "n") (λ k. "o2") user "x" as_valve store
      (result_of cloned).1 (result_of cloned).0 refl clones
