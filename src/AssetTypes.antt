-- ===== src/AssetTypes.antt =====
-- Asset types, which extend one another: asset-manager-backend/src/asset-type/asset-type.service.ts. The
-- check for loops is that of Hierarchy. A transaction that throws leaves the table as it was; that it may
-- have emptied the cache is left out, and so is the time limit of the cache.
pub mod Inheritance
pub mod Updates
pub mod Deletion
mod Tests
use elunic_myturck.Base.{
  ℕ, zero, suc, ◌<◌, Bool, true, false, not, Option, none, some, List, [], ◌∷◌, ◌++◌, find, filter,
  any, map, String, str_eq, ◌&&◌, if◌then◌else◌,
}
use elunic_myturck.Base.Repository.{Repository}
use elunic_myturck.Base.Results.{
  Result, ok, err, Exception, not_found, conflict, out_of_fuel, ◌>>=◌, ◌>>◌, guard,
}
use elunic_myturck.Hierarchy.{HierarchyItem, Forest, check}

-- `AssetTypeEntity`; `F` holds the columns that are only stored: the name, the description and the
-- equipment type.
pub record AssetType (F : Type 0) : Type 0 where
  pub id : String
  pub tenant_id : String
  pub is_built_in : Bool
  pub extends_type : Option String
  pub is_deleted : Bool
  pub fields : F

-- The data of a request: the change of the stored columns, whether it names the equipment type, and
-- the id in `extendsType`.
pub record TypeDto (F : Type 0) : Type 0 where
  pub set_fields : F → F
  pub has_equipment : Bool
  pub extends_type : Option String

-- A test for null and for the empty text.
abbrev pub truthy_id : Option String → Option String
truthy_id none = none
truthy_id (some p) = if str_eq p "" then none else some p

abbrev pub as_exception {ℓ} : {A : Type ℓ} → Exception → Result A → Result A
as_exception e (ok a) = ok a
as_exception e (err d) = err e

abbrev pub with_parent : Option String → List String → List String
with_parent none pending = pending
with_parent (some p) pending = pending ++ p ∷ []

-- The keys of the cache are of the tenant and the type.
abbrev pub cached_ids :
    String → String → List ((String × String) × List String) → Option (List String)
cached_ids tenant id [] = none
cached_ids tenant id ((k, ids) ∷ rest) =
    if str_eq k.0 tenant && str_eq k.1 id then some ids else cached_ids tenant id rest

abbrev pub flushed :
    Option String → List ((String × String) × List String) → List ((String × String) × List String)
flushed none cache = cache
flushed (some p) cache = []

module _ {F : Type 0} where
  -- `assetType && assetType.extendsTypeId`
  pub parent_of : List (AssetType F) → String → Option String
  parent_of types id = elim (find (λ t. str_eq t.id id) types) [
    | none ↦ none
    | some t ↦ truthy_id t.extends_type
  ]

  -- The loop of `getInheritedAssetTypeIds`; its fuel counts its passes.
  pub inherited_loop : ℕ → List (AssetType F) → List String → List String → Result (List String)
  inherited_loop fuel types [] visited = ok visited
  inherited_loop zero types (id ∷ pending) visited = err out_of_fuel
  inherited_loop (suc fuel) types (id ∷ pending) visited =
      let skip = inherited_loop fuel types pending visited in
      let visit =
        inherited_loop fuel types (with_parent (parent_of types id) pending) (visited ++ id ∷ []) in
      if str_eq id "" then skip else visit

  abbrev pub to_hierarchy_item : AssetType F → HierarchyItem
  to_hierarchy_item t = record { id = t.id; parent_id = t.extends_type }

  module _ (r : Repository (AssetType F)) where
    pub record TypeState : Type 0 where
      pub table : r.Table
      pub cache : List ((String × String) × List String)

    -- `find({ where: { tenantId } })`, which leaves out what is soft-deleted.
    abbrev pub types_of : String → r.Table → List (AssetType F)
    types_of tenant t = filter (λ x. str_eq x.tenant_id tenant && not x.is_deleted) (r.rows t)

    pub get_type_by_id : String → String → r.Table → Result (AssetType F)
    get_type_by_id tenant id t = elim (find (λ x. str_eq x.id id) (types_of tenant t)) [
      | none ↦ err not_found
      | some x ↦ ok x
    ]

    -- `getInheritedAssetTypeIds`
    pub get_inherited_type_ids : ℕ → String → String → TypeState → Result (List String × TypeState)
    get_inherited_type_ids fuel tenant id st = elim (cached_ids tenant id st.cache) [
      | some ids ↦ ok (ids, st)
      | none ↦ do
        ids ← inherited_loop fuel (types_of tenant st.table) (id ∷ []) []
        ok (ids, record st { cache = ((tenant, id), ids) ∷ st.cache })
    ]

    -- `checkAssetTypesForLoops`
    pub check_for_loops : String → r.Table → Result (Forest (Unit {0}))
    check_for_loops tenant t =
        as_exception conflict (check (map to_hierarchy_item (types_of tenant t)))

    -- The test that the type to extend exists.
    abbrev pub check_extended : String → Option String → r.Table → Result (Unit {0})
    check_extended tenant none t = ok tt
    check_extended tenant (some p) t = get_type_by_id tenant p t >>= λ x. ok tt

    pub create_asset_type :
        String → String → F → TypeDto F → TypeState → Result (AssetType F × TypeState)
    create_asset_type new_id tenant blank dto st = do
      let new : AssetType F = record {
        id = new_id;
        tenant_id = tenant;
        is_built_in = false;
        extends_type = truthy_id dto.extends_type;
        is_deleted = false;
        fields = dto.set_fields blank;
      }
      check_extended tenant (truthy_id dto.extends_type) st.table
      let t = r.insert new st.table
      _ ← check_for_loops tenant t
      x ← get_type_by_id tenant new_id t
      ok (x, record st { table = t })

    -- The changes of `updateAssetType`; without a type to extend, the old one stays.
    abbrev pub apply_dto : TypeDto F → AssetType F → AssetType F
    apply_dto dto x = elim (truthy_id dto.extends_type) [
      | none ↦ record x { fields = dto.set_fields x.fields }
      | some p ↦ record x { fields = dto.set_fields x.fields; extends_type = some p }
    ]

    pub update_asset_type :
        String → String → TypeDto F → TypeState → Result (AssetType F × TypeState)
    update_asset_type tenant id dto st = do
      old ← get_type_by_id tenant id st.table
      guard (not (old.is_built_in && dto.has_equipment)) conflict
      check_extended tenant (truthy_id dto.extends_type) st.table
      let t = r.update (λ x. str_eq x.id id) (apply_dto dto) st.table
      _ ← check_for_loops tenant t
      x ← get_type_by_id tenant id t
      ok (x, record { table = t; cache = flushed (truthy_id dto.extends_type) st.cache })

    -- `isBuiltInByIdOrFail`
    pub is_built_in_by_id : String → String → TypeState → Result Bool
    is_built_in_by_id tenant id st = do x ← get_type_by_id tenant id st.table; ok x.is_built_in

    pub soft_delete_by_id : String → String → TypeState → Result TypeState
    soft_delete_by_id tenant id st = do
      _ ← get_type_by_id tenant id st.table
      ok (record st {
        table =
            r.update (λ x. str_eq x.id id && str_eq x.tenant_id tenant)
              (λ x. record x { is_deleted = true }) st.table;
      })

    -- The type that `ensureDefaultAssetTypesForTenant` adds to a tenant without built-in types.
    pub ensure_default_types : String → String → F → TypeState → TypeState
    ensure_default_types new_id tenant generic st =
        if any (λ x. x.is_built_in) (types_of tenant st.table) then st else (record st {
          table =
              r.insert
                (record {
                  id = new_id;
                  tenant_id = tenant;
                  is_built_in = true;
                  extends_type = none;
                  is_deleted = false;
                  fields = generic;
                })
                st.table;
        })
