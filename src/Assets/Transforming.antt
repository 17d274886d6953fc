-- ===== src/Assets/Transforming.antt =====
-- Transformations of the asset tree: applyHierarchyTransformation of
-- asset-manager-backend/src/asset-hierarchy/asset-hierarchy.service.ts, with what it calls of the asset service. The
-- activity that it logs is its result, the tree.
pub mod Transformed
mod Tests
use elunic_myturck.Base.{
  ℕ, Bool, true, false, not, Option, none, some, List, [], ◌∷◌, ◌++◌, map, filter, length, String,
  str_eq, ltb, ◌&&◌, ◌||◌, if◌then◌else◌,
}
use elunic_myturck.Base.Repository.{Repository}
use elunic_myturck.Base.Results.{Result, ok, err, bad_request, ◌>>=◌, ◌>>◌}
use elunic_myturck.Hierarchy.{Forest}
use elunic_myturck.Hierarchy.Service.{
  HierarchyEntity, State, or_null, fetch_asset_tree, clear_cache, set_asset_child_of,
  apply_hierarchy_order,
}
use elunic_myturck.Assets.{AssetEntity}
use elunic_myturck.Assets.Reading.{check_if_assets_exist, get_assets_by_ids_bulk}

-- `TransformType`; `other` is any other text in its place, since the schema of the request allows it.
pub data TransformType : Type 0 where
  child_of delete other : TransformType

-- `TransformAction`
pub record TransformAction : Type 0 where
  pub type : TransformType
  pub id : String
  pub child_of : Option String
  pub order : Option (List String)

abbrev pub listed : Option String → List String
listed none = []
listed (some p) = p ∷ []

abbrev pub listed_order : Option (List String) → List String
listed_order none = []
listed_order (some ids) = ids

-- All ids that a request mentions.
pub referenced_ids : List TransformAction → List String
referenced_ids [] = []
referenced_ids (a ∷ as') =
    (a.id ∷ (listed (or_null a.child_of) ++ listed_order a.order)) ++ referenced_ids as'

-- The tables of one tenant's request: `below` tells which rows the foreign key deletes together with others.
module _ {N : Type 0} (r : Repository HierarchyEntity)
    (order_by : List HierarchyEntity → List HierarchyEntity)
    (below : List HierarchyEntity → HierarchyEntity → Bool) (tenant : String)
    (assets : List (AssetEntity N)) where
  abbrev pub assets_of : List String → List (String × AssetEntity N)
  assets_of ids = map (λ a. (a.id, a)) (get_assets_by_ids_bulk tenant ids assets)

  abbrev pub Tree : Type 0
  Tree = State r order_by assets_of

  abbrev pub set_table : r.Table → Tree → Tree
  set_table t st = record st { table = t }

  -- `deleteAssetFromTreeById` does not wait for the deletion: `in_time` tells which of them are carried out before the
  -- next statement; the others come when the tree has been logged.
  abbrev pub row_of : String → HierarchyEntity → Bool
  row_of id h = str_eq h.id id && str_eq h.tenant_id tenant

  abbrev pub delete_row : String → Tree → Tree
  delete_row id st =
      set_table
        (r.delete (λ h. row_of id h || below (filter (row_of id) (r.rows st.table)) h) st.table) st

  unfoldable pub delete_asset_from_tree : (String → Bool) → String → Tree → Tree
  delete_asset_from_tree in_time id st =
      clear_cache r order_by assets_of (some tenant) (if in_time id then delete_row id st else st)

  abbrev pub is_late : (String → Bool) → TransformType → String → Bool
  is_late in_time delete id = not (in_time id)
  is_late in_time child_of id = false
  is_late in_time other id = false

  -- The deletions that nothing has waited for.
  unfoldable pub late_deletions : (String → Bool) → List TransformAction → Tree → Tree
  late_deletions in_time [] st = st
  late_deletions in_time (a ∷ as') st =
      late_deletions in_time as' (if is_late in_time a.type a.id then delete_row a.id st else st)

  -- The order is applied only if it has at least two elements.
  abbrev pub apply_order : Option (List String) → Tree → Tree
  apply_order none st = st
  apply_order (some ids) st =
      if ltb 1 (length ids)
      then set_table (apply_hierarchy_order r order_by assets_of tenant 0 ids st.table) st
      else st

  abbrev pub transform : (String → Bool) → TransformType → TransformAction → Tree → Result Tree
  transform in_time child_of a st =
      set_asset_child_of r order_by assets_of tenant a.id (or_null a.child_of) st
  transform in_time delete a st = ok (delete_asset_from_tree in_time a.id st)
  transform in_time other a st = err bad_request

  pub apply_actions : (String → Bool) → List TransformAction → Tree → Result Tree
  apply_actions in_time [] st = ok st
  apply_actions in_time (a ∷ as') st = do
    st' ← transform in_time a.type a st
    apply_actions in_time as' (apply_order a.order st')

  -- `applyHierarchyTransformation`, with the tree that it logs
  pub apply_transformation :
      (String → Bool) → List TransformAction → Tree → Result (Forest (AssetEntity N) × Tree)
  apply_transformation in_time actions st = do
    check_if_assets_exist tenant (referenced_ids actions) assets
    st' ← apply_actions in_time actions st
    tree ← fetch_asset_tree r order_by assets_of tenant st'.table
    ok (tree, late_deletions in_time actions st')
