-- ===== src/Hierarchy/Service/Tests.antt =====
-- A hall with a belt, under which a pump is put.
use elunic_myturck.Base.{◌≡◌, refl, true, none, some, List, [], ◌∷◌, map, String}
use elunic_myturck.Base.Repository.{Repository, list_repository}
use elunic_myturck.Base.Results.{ok, err, conflict}
use elunic_myturck.Hierarchy.{
  Forest, empty, node, run, check, to_tree_nodes, visit, visit_all, build_tree, set_children,
  count_nodes_in_tree, asset_of,
}
use elunic_myturck.Hierarchy.Service.{
  HierarchyEntity, State, check_asset_tree, clear_cache, fetch_asset_tree_cached, get_asset_tree,
  get_cached, delete_cached, save_parent, set_asset_child_of, apply_hierarchy_order,
}

abbrev pub table : Repository HierarchyEntity
table = list_repository HierarchyEntity

abbrev pub as_stored : List HierarchyEntity → List HierarchyEntity
as_stored hs = hs

abbrev pub named : List String → List (String × String)
named ids = map (λ id. (id, id)) ids

abbrev pub hall : HierarchyEntity
hall = record { id = "hall"; tenant_id = "t"; parent_id = none; order_index = 0 }

abbrev pub belt : HierarchyEntity
belt = record { id = "belt"; tenant_id = "t"; parent_id = some "hall"; order_index = 0 }

abbrev pump : HierarchyEntity
pump = record { id = "pump"; tenant_id = "t"; parent_id = some "belt"; order_index = 0 }

abbrev pub before : State table as_stored named
before = record { table = hall ∷ belt ∷ []; cache = ("t", empty) ∷ [] }

abbrev after : State table as_stored named
after = record { table = hall ∷ belt ∷ pump ∷ []; cache = [] }

abbrev pub tree : Forest String
tree =
    node "hall" (some "hall")
      (node "belt" (some "belt") (node "pump" (some "pump") empty empty) empty) empty

moves : set_asset_child_of table as_stored named "t" "pump" (some "belt") before ≡ ok after
unfolding set_asset_child_of check_asset_tree check run to_tree_nodes visit visit_all build_tree
    set_children count_nodes_in_tree asset_of save_parent clear_cache delete_cached
moves = refl

-- The hall cannot be put under its own belt.
refuses_loop :
    set_asset_child_of table as_stored named "t" "hall" (some "belt") before ≡ err conflict
unfolding set_asset_child_of check_asset_tree check run to_tree_nodes visit visit_all build_tree
    set_children count_nodes_in_tree asset_of save_parent
refuses_loop = refl

orders :
    apply_hierarchy_order table as_stored named "t" 0 ("belt" ∷ "hall" ∷ []) (hall ∷ belt ∷ [])
    ≡ record hall { order_index = 1 } ∷ belt ∷ []
unfolding apply_hierarchy_order
orders = refl

serves_cached : get_asset_tree table as_stored named "t" true before ≡ ok (empty, before)
unfolding get_asset_tree fetch_asset_tree_cached get_cached
serves_cached = refl
