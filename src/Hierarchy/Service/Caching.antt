-- ===== src/Hierarchy/Service/Caching.antt =====
-- Reading the tree of a tenant, with and without a tree in the cache.
use elunic_myturck.Base.{
  ◌≡◌, refl, true, false, none, some, List, [], ◌∷◌, arith, String, str_eq, eq_iff,
}
use elunic_myturck.Base.Repository.{Repository}
use elunic_myturck.Base.Results.{ok, ◌>>=◌}
use elunic_myturck.Hierarchy.{Forest}
use elunic_myturck.Hierarchy.Service.{
  HierarchyEntity, get_cached, delete_cached, State, fetch_asset_tree, fetch_asset_tree_cached,
  get_asset_tree,
}

-- What is found after a deletion was there before it, under another key.
pub get_cached-deleted :
    {T : Type 0} (tenant other : String) (cache : List (String × T)) (tree : T)
    → get_cached other (delete_cached tenant cache) ≡ some tree
    → (str_eq tenant other ≡ false) × (get_cached other cache ≡ some tree)
unfolding get_cached delete_cached
get_cached-deleted tenant other [] tree h = absurd (cc h)
get_cached-deleted tenant other ((k, x) ∷ rest) tree h = ground (
  arith,
  get_cached-deleted tenant other rest tree,
  eq_iff k tenant,
  eq_iff k other,
  eq_iff tenant other,
)

module _ {A : Type 0} (r : Repository HierarchyEntity)
    (order_by : List HierarchyEntity → List HierarchyEntity)
    (assets_of : List String → List (String × A)) where
  -- The state with a tree kept in the cache.
  unfoldable pub kept : String → Forest A → State r order_by assets_of → State r order_by assets_of
  kept tenant tree st = record st { cache = (tenant, tree) ∷ st.cache }

  pub read-hit :
      (tenant : String) (tree : Forest A) (st : State r order_by assets_of)
      → get_cached tenant st.cache ≡ some tree
      → get_asset_tree r order_by assets_of tenant true st ≡ ok (tree, st)
  unfolding get_asset_tree fetch_asset_tree_cached
  read-hit tenant tree st h = rw (get_asset_tree, fetch_asset_tree_cached, h) refl

  pub read-miss :
      (tenant : String) (st : State r order_by assets_of)
      → get_cached tenant st.cache ≡ none
      → get_asset_tree r order_by assets_of tenant true st ≡ (
          fetch_asset_tree r order_by assets_of tenant st.table >>= λ tree.
          ok (tree, kept tenant tree st))
  unfolding get_asset_tree fetch_asset_tree_cached kept
  read-miss tenant st h = rw (get_asset_tree, fetch_asset_tree_cached, h) refl
