-- ===== src/Hierarchy/Service/Moves.antt =====
-- Moving an asset in the tree.
use elunic_myturck.Base.{◌≡◌, sym, ap, ◌∙◌, true, not, Option, List, String}
use elunic_myturck.Base.Names.{member}
use elunic_myturck.Base.Repository.{Repository}
use elunic_myturck.Base.Results.{ok, >>=-eq-ok, guard-eq-ok, ok-injective}
use elunic_myturck.Hierarchy.{Forest, check, ids_of}
use elunic_myturck.Hierarchy.Rooted.{Rooted, build-Rooted}
use elunic_myturck.Hierarchy.Service.{
  HierarchyEntity, or_null, delete_cached, State, hierarchy_of, fetch_asset_tree, check_asset_tree,
  clear_cache, save_parent, set_asset_child_of, names_parent, parent_exists,
}

module _ {A : Type 0} (r : Repository HierarchyEntity)
    (order_by : List HierarchyEntity → List HierarchyEntity)
    (assets_of : List String → List (String × A)) where
  -- The parts of a move that succeeded.
  pub moved :
      (tenant id : String) (parent : Option String) (st st' : State r order_by assets_of)
      → set_asset_child_of r order_by assets_of tenant id parent st ≡ ok st'
      → (tree : Forest A) × (check (hierarchy_of r order_by assets_of tenant st'.table) ≡ ok tree)
        × (st'.cache ≡ delete_cached tenant st.cache)
  unfolding set_asset_child_of check_asset_tree clear_cache
  moved tenant id parent st st' h =
      let (_, h1) = guard-eq-ok (not (names_parent id parent)) _ _ h in
      let (_, h2) =
        guard-eq-ok (parent_exists r order_by assets_of (or_null parent) st.table) _ _ h1 in
      let (tree, checked, h3) =
        >>=-eq-ok
          (check_asset_tree r order_by assets_of tenant
            (save_parent r order_by assets_of tenant id (or_null parent) st.table))
          _ h2 in
      (
        tree,
        ap (λ s. check (hierarchy_of r order_by assets_of tenant s.table)) (sym (ok-injective h3))
            ∙ checked,
        ap (λ s. s.cache) (sym (ok-injective h3)),
      )

  -- Where the tree of a tenant can be built, its hierarchy has no loops and islands.
  pub fetch_asset_tree-Rooted :
      (tenant : String) (t : r.Table) (tree : Forest A)
      → fetch_asset_tree r order_by assets_of tenant t ≡ ok tree
      → (a : String) → member a (ids_of (hierarchy_of r order_by assets_of tenant t)) ≡ true
      → Rooted (hierarchy_of r order_by assets_of tenant t) a
  unfolding fetch_asset_tree
  fetch_asset_tree-Rooted tenant t tree h a m = build-Rooted _ _ tree h a m
