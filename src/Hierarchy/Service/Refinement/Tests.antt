-- ===== src/Hierarchy/Service/Refinement/Tests.antt =====
-- A tree that is read, moved in by two tenants, and read again.
use elunic_myturck.Base.{◌≡◌, refl, none, some, List, [], ◌∷◌}
use elunic_myturck.Base.Results.{ok, err, conflict}
use elunic_myturck.Hierarchy.{
  empty, node, run, build, check, to_tree_nodes, visit, visit_all, build_tree, set_children,
  count_nodes_in_tree, asset_of,
}
use elunic_myturck.Hierarchy.Service.{
  State, fetch_asset_tree, check_asset_tree, get_cached, save_parent,
}
use elunic_myturck.Hierarchy.Service.Refinement.{
  Request, read, move, serve_all, spec_all, all_owned, Fresh, serve_all-eq,
}
use elunic_myturck.Hierarchy.Service.Tests.{table, as_stored, named, hall, belt, tree}

abbrev uncached : State table as_stored named
uncached = record { table = hall ∷ belt ∷ []; cache = [] }

abbrev requests : List Request
requests =
    read "t"
    ∷ move "t" "pump" (some "belt")
    ∷ move "u" "press" none
    ∷ move "t" "hall" (some "belt")
    ∷ read "t"
    ∷ []

uncached-Fresh : Fresh table as_stored named uncached
unfolding Fresh get_cached
uncached-Fresh tenant tree h = absurd (cc h)

serve_all-eq_example :
    serve_all table as_stored named requests uncached
    ≡ ok (some (node "hall" (some "hall") (node "belt" (some "belt") empty empty) empty))
      ∷ ok none
      ∷ ok none
      ∷ err conflict
      ∷ ok (some tree)
      ∷ []
unfolding spec_all all_owned fetch_asset_tree check_asset_tree build check run to_tree_nodes visit
    visit_all build_tree set_children count_nodes_in_tree asset_of save_parent
serve_all-eq_example = serve_all-eq table as_stored named requests uncached uncached-Fresh refl
