-- ===== src/Assets/Reading.antt =====
-- The lookups of asset.service.ts, and the one of asset-type.service.ts that goes by an asset.
pub mod Existing
pub mod Found
mod Tests
use elunic_myturck.Base.{
  ℕ, Bool, true, false, not, Option, none, some, List, [], ◌∷◌, map, filter, any, length, String,
  str_eq, ◌==◌, ◌&&◌, ◌||◌, if◌then◌else◌,
}
use elunic_myturck.Base.Names.{member}
use elunic_myturck.Base.Results.{Result, ok, err, not_found, ◌>>=◌, guard}
use elunic_myturck.Assets.{AssetEntity, Related, AliasFields}

-- `uniq` of lodash, which keeps the first of equal names.
abbrev pub without : String → List String → List String
without a [] = []
without a (x ∷ xs) = if str_eq x a then without a xs else x ∷ without a xs

abbrev pub uniq : List String → List String
uniq [] = []
uniq (x ∷ xs) = x ∷ without x (uniq xs)

abbrev pub first_or_not_found {ℓ} : {A : Type ℓ} → List A → Result A
first_or_not_found [] = err not_found
first_or_not_found (x ∷ xs) = ok x

module _ {N : Type 0} where
  -- What a query for assets of the tenant sees: soft-deleted assets are left out.
  abbrev pub is_live : String → AssetEntity N → Bool
  is_live tenant a = str_eq a.tenant_id tenant && not a.is_deleted

  -- `checkIfAssetsExistByIdOrFail`
  unfoldable pub check_if_assets_exist :
      String → List String → List (AssetEntity N) → Result (Unit {0})
  check_if_assets_exist tenant ids assets =
      guard
        (length (map (λ a. a.id) (filter (λ a. member a.id (uniq ids) && is_live tenant a) assets))
          == length (uniq ids))
        not_found

  -- `getAssetByIdOrFail`
  unfoldable pub get_asset_by_id : String → String → List (AssetEntity N) → Result (AssetEntity N)
  get_asset_by_id tenant id assets =
      first_or_not_found (filter (λ a. str_eq a.id id && is_live tenant a) assets)

  -- `getAssetsWhereIdNotIn` and `getAssetsByIdsBulk`
  unfoldable pub get_assets_where_id_not_in :
      String → List String → List (AssetEntity N) → List (AssetEntity N)
  get_assets_where_id_not_in tenant ids assets =
      filter (λ a. not (member a.id ids) && is_live tenant a) assets

  unfoldable pub get_assets_by_ids_bulk :
      String → List String → List (AssetEntity N) → List (AssetEntity N)
  get_assets_by_ids_bulk tenant ids assets =
      filter (λ a. member a.id ids && is_live tenant a) assets

  -- `getAssetsByTypeId`
  unfoldable pub get_assets_by_type_id :
      String → String → List (AssetEntity N) → List (AssetEntity N)
  get_assets_by_type_id tenant type_id assets =
      filter (λ a. is_live tenant a && str_eq a.asset_type_id type_id) assets

  -- `findAssetsByAlias`; `like` is the test of the database for LIKE.
  unfoldable pub find_assets_by_alias :
      (String → String → Bool)
      → String
      → String
      → List (Related AliasFields)
      → List (AssetEntity N)
      → List (AssetEntity N)
  find_assets_by_alias like tenant alias aliases assets =
      filter
        (λ a.
          is_live tenant a
          && any
              (λ x.
                str_eq x.asset_id a.id
                && (str_eq x.tenant_id tenant
                    && (str_eq x.fields.alias alias || like x.fields.alias alias)))
              aliases)
        assets

  -- `getTypeIdByAssetIdOrFail`; `find_type` is `getTypeByIdOrThrow`, with the id that it finds.
  unfoldable pub get_type_id_by_asset_id :
      (String → Result String) → String → String → List (AssetEntity N) → Result String
  get_type_id_by_asset_id find_type tenant id assets = do
    a ← get_asset_by_id tenant id assets
    find_type a.asset_type_id

-- `getAssetAliasByType`
pub get_asset_alias_by_type :
    String → String → List (Related AliasFields) → List (Related AliasFields)
get_asset_alias_by_type tenant type aliases =
    filter (λ x. str_eq x.tenant_id tenant && str_eq x.fields.type type) aliases
