-- ===== src/Hierarchy/Service/Allowing.antt =====
-- Whether an asset may be moved, apart from the cache.
use elunic_myturck.Base.{◌≡◌, refl, Bool, true, false, not, Option, some, List, String}
use elunic_myturck.Base.Repository.{Repository}
use elunic_myturck.Base.Results.{Result, ok, ◌>>=◌, guard, conflict, internal_error}
use elunic_myturck.Hierarchy.{Forest}
use elunic_myturck.Hierarchy.Service.{
  HierarchyEntity, or_null, State, check_asset_tree, clear_cache, save_parent, set_asset_child_of,
  names_parent, parent_exists,
}

module _ {A : Type 0} (r : Repository HierarchyEntity)
    (order_by : List HierarchyEntity → List HierarchyEntity)
    (assets_of : List String → List (String × A)) where
  -- Whether a move is allowed, by the table alone.
  abbrev pub allowed : String → String → Option String → r.Table → Result (Forest A)
  allowed tenant id parent t = guard (not (names_parent id parent)) conflict >>= λ _.
      guard (parent_exists r order_by assets_of (or_null parent) t) internal_error >>= λ _.
      check_asset_tree r order_by assets_of tenant
        (save_parent r order_by assets_of tenant id (or_null parent) t)

  -- A move without the cache, and then the cache.
  pub set_asset_child_of-allowed :
      (tenant id : String) (parent : Option String) (st : State r order_by assets_of)
      → set_asset_child_of r order_by assets_of tenant id parent st ≡ (
          allowed tenant id parent st.table >>= λ _. ok (
            clear_cache r order_by assets_of (some tenant) (record st {
              table = save_parent r order_by assets_of tenant id (or_null parent) st.table;
            })))
  unfolding set_asset_child_of
  set_asset_child_of-allowed tenant id parent st =
      by_guards (not (names_parent id parent))
        (parent_exists r order_by assets_of (or_null parent) st.table)
    where
      checked : Result (Forest A)
      checked =
          check_asset_tree r order_by assets_of tenant
            (save_parent r order_by assets_of tenant id (or_null parent) st.table)

      next : Forest A → Result (State r order_by assets_of)
      next _ = ok (
          clear_cache r order_by assets_of (some tenant) (record st {
            table = save_parent r order_by assets_of tenant id (or_null parent) st.table;
          }))

      by_guards :
          (a b : Bool)
          → (guard a conflict >>= λ _. (guard b internal_error >>= λ _. (checked >>= next)))
            ≡ ((guard a conflict >>= λ _. (guard b internal_error >>= λ _. checked)) >>= next)
      by_guards true true = refl
      by_guards true false = refl
      by_guards false b = refl
