-- ===== src/Assets/Transforming/Tests.antt =====
-- A belt that is moved under a hall, in a tree that was cached before.
use elunic_myturck.Base.{
  ◌≡◌, refl, Bool, Option, any, str_eq, true, false, none, some, List, [], ◌∷◌, String,
}
use elunic_myturck.Base.Names.{member}
use elunic_myturck.Base.Repository.{Repository, list_repository}
use elunic_myturck.Base.Results.{ok, err, not_found}
use elunic_myturck.Hierarchy.{
  Forest, empty, node, run, build, check, to_tree_nodes, visit, visit_all, build_tree, set_children,
  count_nodes_in_tree, asset_of,
}
use elunic_myturck.Hierarchy.Rooted.{Rooted}
use elunic_myturck.Hierarchy.Service.{
  HierarchyEntity, hierarchy_of, fetch_asset_tree, check_asset_tree, clear_cache, delete_cached,
  get_asset_tree, save_parent, set_asset_child_of,
}
use elunic_myturck.Assets.{AssetEntity}
use elunic_myturck.Assets.Samples.{pump}
use elunic_myturck.Assets.Reading.{is_live, check_if_assets_exist, get_assets_by_ids_bulk}
use elunic_myturck.Assets.Reading.Existing.{ids_where}
use elunic_myturck.Assets.Transforming.{
  late_deletions, TransformAction, child_of, delete, assets_of, Tree, delete_asset_from_tree,
  referenced_ids, apply_actions, apply_transformation,
}
use elunic_myturck.Assets.Transforming.Transformed.{apply_transformation-tree}

abbrev table : Repository HierarchyEntity
table = list_repository HierarchyEntity

abbrev as_stored : List HierarchyEntity → List HierarchyEntity
as_stored hs = hs

abbrev children : List HierarchyEntity → HierarchyEntity → Bool
children hs h = member_parent h.parent_id hs
  where
    member_parent : Option String → List HierarchyEntity → Bool
    member_parent none hs = false
    member_parent (some p) hs = any (λ x. str_eq x.id p) hs

abbrev hall : AssetEntity String
hall = record pump { id = "hall" }

abbrev belt : AssetEntity String
belt = record pump { id = "belt" }

abbrev assets : List (AssetEntity String)
assets = hall ∷ belt ∷ []

abbrev row : String → Option String → HierarchyEntity
row id parent = record { id = id; tenant_id = "t"; parent_id = parent; order_index = 0 }

abbrev before : Tree table as_stored children "t" assets
before = record { table = row "hall" none ∷ row "belt" none ∷ []; cache = ("t", empty) ∷ [] }

abbrev after : Tree table as_stored children "t" assets
after = record { table = row "hall" none ∷ row "belt" (some "hall") ∷ []; cache = [] }

abbrev move_belt : TransformAction
move_belt = record {
  type = child_of;
  id = "belt";
  child_of = some "hall";
  order = some ("belt" ∷ []);
}

abbrev tree : Forest (AssetEntity String)
tree = node "hall" (some hall) (node "belt" (some belt) empty empty) empty

moves :
    apply_transformation table as_stored children "t" assets (λ id. true) (move_belt ∷ []) before
    ≡ ok (tree, after)
unfolding apply_transformation check_if_assets_exist referenced_ids apply_actions set_asset_child_of
    check_asset_tree check run to_tree_nodes visit visit_all build_tree set_children
    count_nodes_in_tree asset_of save_parent clear_cache delete_cached fetch_asset_tree build
    get_assets_by_ids_bulk late_deletions
moves = refl

-- An id that is no asset is not found, whatever the action.
refuses_unknown :
    apply_transformation table as_stored children "t" assets
      (λ id. true)
      (record move_belt { type = delete; id = "press" } ∷ [])
      before
    ≡ err not_found
unfolding apply_transformation check_if_assets_exist referenced_ids
refuses_unknown = refl

-- With the hall goes what is below it.
deletes :
    (delete_asset_from_tree table as_stored children "t" assets (λ id. true) "hall" after).table
    ≡ []
unfolding delete_asset_from_tree clear_cache delete_cached
deletes = refl

-- A deletion that comes late leaves the asset in the tree that is logged.
logs_deleted :
    apply_transformation table as_stored children "t" assets
      (λ id. false)
      (record move_belt { type = delete; order = none } ∷ [])
      after
    ≡ ok (tree, record after { table = row "hall" none ∷ [] })
unfolding apply_transformation check_if_assets_exist referenced_ids apply_actions
    delete_asset_from_tree check run to_tree_nodes visit visit_all build_tree set_children
    count_nodes_in_tree asset_of clear_cache delete_cached fetch_asset_tree build
    get_assets_by_ids_bulk late_deletions
logs_deleted = refl

apply_transformation-tree_example :
    (member "hall" (ids_where (is_live "t") assets) ≡ true)
    × Rooted
        (hierarchy_of table as_stored
          (assets_of table as_stored children "t" assets)
          "t"
          after.table)
        "belt"
    × ((st : Tree table as_stored children "t" assets) × (get_asset_tree table as_stored
            (assets_of table as_stored children "t" assets)
            "t"
            true
            after
          ≡ ok (tree, st)))
unfolding referenced_ids
apply_transformation-tree_example =
    apply_transformation-tree table as_stored children "t" assets (λ id. true) move_belt [] before
      after tree "hall" "belt" refl refl moves refl refl
