-- ===== src/Hierarchy/Service.antt =====
-- The table of the asset tree and the cache of built trees:
-- asset-manager-backend/src/asset-hierarchy/asset-hierarchy.service.ts. `order_by` is the order of the
-- database by parent and index, `assets_of` what the asset service has for ids.
mod Allowing
pub mod Caching
pub mod Moves
pub mod Refinement
mod Saving
mod Tests
use elunic_myturck.Base.{
  ℕ, suc, Bool, true, false, not, Option, none, some, List, [], ◌∷◌, map, filter, any, String,
  str_eq, ◌&&◌, if◌then◌else◌,
}
use elunic_myturck.Base.Repository.{Repository}
use elunic_myturck.Base.Results.{Result, ok, err, conflict, internal_error, ◌>>=◌, ◌>>◌, guard}
use elunic_myturck.Hierarchy.{HierarchyItem, Forest, build, check}

-- `AssetHierarchyEntity`
pub record HierarchyEntity : Type 0 where
  pub id : String
  pub tenant_id : String
  pub parent_id : Option String
  pub order_index : ℕ

-- `newParentId || null`
abbrev pub or_null : Option String → Option String
or_null none = none
or_null (some p) = if str_eq p "" then none else some p

abbrev pub names_parent : String → Option String → Bool
names_parent id none = false
names_parent id (some p) = str_eq id p

-- `treeCache.get` and `treeCache.del`
unfoldable pub get_cached {ℓ} : {T : Type ℓ} → String → List (String × T) → Option T
get_cached tenant [] = none
get_cached tenant ((k, tree) ∷ rest) = if str_eq k tenant then some tree else get_cached tenant rest

unfoldable pub delete_cached {ℓ} : {T : Type ℓ} → String → List (String × T) → List (String × T)
delete_cached tenant [] = []
delete_cached tenant ((k, tree) ∷ rest) =
    if str_eq k tenant then delete_cached tenant rest else (k, tree) ∷ delete_cached tenant rest

abbrev pub to_item : HierarchyEntity → HierarchyItem
to_item h = record { id = h.id; parent_id = h.parent_id }

module _ {A : Type 0} (r : Repository HierarchyEntity)
    (order_by : List HierarchyEntity → List HierarchyEntity)
    (assets_of : List String → List (String × A)) where
  -- The table and the cache.
  pub record State : Type 0 where
    pub table : r.Table
    pub cache : List (String × Forest A)

  -- The rows that `fetchAssetTree` loads.
  abbrev pub hierarchy_of : String → r.Table → List HierarchyItem
  hierarchy_of tenant t =
      map to_item (order_by (filter (λ h. str_eq h.tenant_id tenant) (r.rows t)))

  -- `fetchAssetTree` with all information, and only the structure
  unfoldable pub fetch_asset_tree : String → r.Table → Result (Forest A)
  fetch_asset_tree tenant t =
      build (hierarchy_of tenant t) (assets_of (map (λ n. n.id) (hierarchy_of tenant t)))

  unfoldable pub check_asset_tree : String → r.Table → Result (Forest A)
  check_asset_tree tenant t = check (hierarchy_of tenant t)

  -- `clearCache`
  unfoldable pub clear_cache : Option String → State → State
  clear_cache none st = record st { cache = [] }
  clear_cache (some tenant) st = record st { cache = delete_cached tenant st.cache }

  -- `fetchAssetTreeCached`
  unfoldable pub fetch_asset_tree_cached : String → State → Result (Forest A × State)
  fetch_asset_tree_cached tenant st = elim (get_cached tenant st.cache) [
    | some tree ↦ ok (tree, st)
    | none ↦ do
      tree ← fetch_asset_tree tenant st.table
      ok (tree, record st { cache = (tenant, tree) ∷ st.cache })
  ]

  unfoldable pub get_asset_tree : String → Bool → State → Result (Forest A × State)
  get_asset_tree tenant true st = fetch_asset_tree_cached tenant st
  get_asset_tree tenant false st = do tree ← fetch_asset_tree tenant st.table; ok (tree, st)

  -- `repo.save` of an entity with this id: it updates the row of the id, or inserts one.
  unfoldable pub save_parent : String → String → Option String → r.Table → r.Table
  save_parent tenant id parent t =
      if any (λ h. str_eq h.id id) (r.rows t)
      then r.update (λ h. str_eq h.id id) (λ h. record h { parent_id = parent; tenant_id = tenant })
          t
      else r.insert (record { id = id; tenant_id = tenant; parent_id = parent; order_index = 0 }) t

  -- The foreign key of the parent.
  abbrev pub parent_exists : Option String → r.Table → Bool
  parent_exists none t = true
  parent_exists (some p) t = any (λ h. str_eq h.id p) (r.rows t)

  -- `setAssetChildOfAssetById`, run to its end: the source clears the cache inside the transaction, before the
  -- commit, and only a request that runs in between can tell.
  unfoldable pub set_asset_child_of : String → String → Option String → State → Result State
  set_asset_child_of tenant id parent st = do
    guard (not (names_parent id parent)) conflict
    guard (parent_exists (or_null parent) st.table) internal_error
    _ ← check_asset_tree tenant (save_parent tenant id (or_null parent) st.table)
    ok (
        clear_cache (some tenant)
          (record st { table = save_parent tenant id (or_null parent) st.table }))

  -- The loop of `applyHierarchyOrder`, from an index on.
  unfoldable pub apply_hierarchy_order : String → ℕ → List String → r.Table → r.Table
  apply_hierarchy_order tenant i [] t = t
  apply_hierarchy_order tenant i (id ∷ ids) t = apply_hierarchy_order tenant (suc i) ids (
      r.update (λ h. str_eq h.id id && str_eq h.tenant_id tenant)
        (λ h. record h { order_index = i }) t)
