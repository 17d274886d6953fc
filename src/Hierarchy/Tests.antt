-- ===== src/Hierarchy/Tests.antt =====
-- A tree of two levels, in the order of no traversal.
use elunic_myturck.Base.{◌≡◌, ◌≢◌, refl, true, false, none, some, List, [], ◌∷◌, String, filter}
use elunic_myturck.Base.Names.{member, distinct}
use elunic_myturck.Base.Results.{ok, err, conflict, out_of_fuel}
use elunic_myturck.Hierarchy.{
  HierarchyItem, Forest, empty, node, Builder, is_root, ids_of, top_ids, run, check, asset_of,
  to_tree_nodes, visit, visit_all, build_tree, set_children, count_nodes_in_tree, build,
  get_all_node_ids, ids_below,
}
use elunic_myturck.Hierarchy.Shape.{run-IsTreeOf, IsTreeOf}
use elunic_myturck.Hierarchy.Termination.{run-ne-fuel}
use elunic_myturck.Hierarchy.Rooted.{run-Rooted, preorder, Rooted}

abbrev rows : List HierarchyItem
rows =
    record { id = "pump"; parent_id = some "hall" }
    ∷ record { id = "hall"; parent_id = none }
    ∷ record { id = "belt"; parent_id = some "hall" }
    ∷ []

abbrev builder : Builder String
builder = record {
  nodes = rows;
  assets = ("hall", "H") ∷ ("belt", "B") ∷ ("pump", "P") ∷ [];
  is_check_mode = false;
}

abbrev tree : Forest String
tree =
    node "hall" (some "H") (node "pump" (some "P") empty (node "belt" (some "B") empty empty)) empty

runs_tree : run builder ≡ ok tree
unfolding run to_tree_nodes visit visit_all build_tree set_children count_nodes_in_tree asset_of
runs_tree = refl

-- A cycle has no root, so it is not counted.
cycle_conflict :
    check {A = String}
      (record { id = "a"; parent_id = some "b" } ∷ record { id = "b"; parent_id = some "a" } ∷ [])
    ≡ err conflict
unfolding check run to_tree_nodes visit visit_all build_tree set_children count_nodes_in_tree
    asset_of
cycle_conflict = refl

run-ne-fuel_example : run builder ≢ err out_of_fuel
run-ne-fuel_example = run-ne-fuel builder

run-IsTreeOf_example : (top_ids tree ≡ ids_of (filter is_root rows)) × IsTreeOf builder tree
run-IsTreeOf_example = run-IsTreeOf builder tree runs_tree

run-Rooted_example :
    (distinct (preorder tree) ≡ true)
    × ((a : String)
        → member a (ids_of rows) ≡ true
        → (member a (preorder tree) ≡ true) × Rooted rows a)
run-Rooted_example = run-Rooted builder tree runs_tree

builds_tree : build rows builder.assets ≡ ok tree
unfolding build run to_tree_nodes visit visit_all build_tree set_children count_nodes_in_tree
    asset_of
builds_tree = refl

lists_ids : get_all_node_ids tree ≡ "hall" ∷ "pump" ∷ "belt" ∷ []
unfolding get_all_node_ids ids_below top_ids
lists_ids = refl
