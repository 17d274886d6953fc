-- ===== src/Hierarchy.antt =====
-- The asset tree: asset-manager-backend/src/asset-hierarchy/asset-hierarchy-builder.ts. The tree is
-- built from the rows of the hierarchy table; the recursion takes fuel, one unit for each level.
pub mod Inversion
pub mod Shape
pub mod Termination
pub mod Rooted
pub mod Service
mod Tests
use elunic_myturck.Base.{
  ℕ, zero, suc, ◌+◌, Bool, true, false, Option, none, some, List, [], ◌∷◌, ◌++◌, map, length,
  filter, find, String, str_eq, ◌==◌, if◌then◌else◌,
}
use elunic_myturck.Base.Names.{member}
use elunic_myturck.Base.Results.{Result, ok, err, conflict, out_of_fuel, ◌>>=◌, ◌>>◌, guard}

-- `HierarchyItem`
pub record HierarchyItem : Type 0 where
  pub id : String
  pub parent_id : Option String

-- A list of `AssetTreeNodeDto`: each node has its id, the asset's own fields (none in check mode),
-- its children, and behind it the nodes that follow in the list.
pub data Forest {ℓ} (A : Type ℓ) : Type ℓ where
  empty : Forest A
  node : String → Option A → Forest A → Forest A → Forest A

-- The fields of `AssetHierarchyBuilder`, without the list of visited ids, which is passed along. An
-- asset is its id and what `AssetEntity.toExternal` makes of it.
pub record Builder {ℓ} (A : Type ℓ) : Type ℓ where
  pub nodes : List HierarchyItem
  pub assets : List (String × A)
  pub is_check_mode : Bool

-- `n.parentId === null` and `n.parentId === id`
abbrev pub is_root : HierarchyItem → Bool
is_root n = elim n.parent_id [ none ↦ true | some _ ↦ false ]

abbrev pub is_child_of : String → HierarchyItem → Bool
is_child_of id n = elim n.parent_id [ none ↦ false | some p ↦ str_eq p id ]

abbrev pub ids_of : List HierarchyItem → List String
ids_of = map (λ n. n.id)

-- Nodes with their children, and the ids visited so far; and the recursive call of `buildTree`.
abbrev pub Built {ℓ} : Type ℓ → Type ℓ
Built A = List (String × Forest A) × List String

abbrev pub Below {ℓ} : Type ℓ → Type ℓ
Below A = List String → List String → Result (Built A)

module _ {ℓ} {A : Type ℓ} where
  -- `toTreeNode` of an entry with this id: the asset's fields, or none in check mode.
  unfoldable pub asset_of : Builder A → String → Result (Option A)
  asset_of b id = if b.is_check_mode then ok none else elim (find (λ a. str_eq a.0 id) b.assets) [
    | none ↦ err conflict
    | some a ↦ ok (some a.1)
  ]

  -- `entries.map(this.toTreeNode.bind(this))`
  unfoldable pub to_tree_nodes : Builder A → List (String × Forest A) → Result (Forest A)
  to_tree_nodes b [] = ok empty
  to_tree_nodes b ((id, children) ∷ rest) = do
    asset ← asset_of b id
    others ← to_tree_nodes b rest
    ok (node id asset children others)

  -- One pass of the loop over the current roots. `below` is the recursive call.
  unfoldable pub visit :
      Builder A → Below A → String → List String → Result (Forest A × List String)
  visit b below id visited = if member id visited then err conflict else do
    r ← below (ids_of (filter (is_child_of id) b.nodes)) (visited ++ id ∷ [])
    children ← to_tree_nodes b r.0
    ok (children, r.1)

  unfoldable pub visit_all : Builder A → Below A → List String → List String → Result (Built A)
  visit_all b below [] visited = ok ([], visited)
  visit_all b below (id ∷ ids) visited = do
    r ← visit b below id visited
    others ← visit_all b below ids r.1
    ok ((id, r.0) ∷ others.0, others.1)

  -- `buildTree`: the nodes with these ids and their children, and the ids visited so far.
  unfoldable pub build_tree : ℕ → Builder A → Below A
  build_tree zero b ids visited = err out_of_fuel
  build_tree (suc fuel) b ids visited = visit_all b (build_tree fuel b) ids visited

  -- `node.children = …` for each of the root nodes
  unfoldable pub set_children : Forest A → List (String × Forest A) → Forest A
  set_children empty built = empty
  set_children (node id a children rest) [] = node id a children rest
  set_children (node id a children rest) ((_, c) ∷ built) = node id a c (set_children rest built)

  -- `countNodesInTree` and `getAllNodeIds`
  unfoldable pub count_nodes_in_tree : Forest A → ℕ
  count_nodes_in_tree empty = 0
  count_nodes_in_tree (node id a children rest) =
      suc (count_nodes_in_tree children + count_nodes_in_tree rest)

  pub top_ids : Forest A → List String
  top_ids empty = []
  top_ids (node id a children rest) = id ∷ top_ids rest

  pub ids_below : Forest A → List String
  unfolding top_ids
  ids_below empty = []
  ids_below (node id a children rest) = (top_ids children ++ ids_below children) ++ ids_below rest

  pub get_all_node_ids : Forest A → List String
  unfolding ids_below
  get_all_node_ids roots = top_ids roots ++ ids_below roots

  abbrev pub leaf : String → String × Forest A
  leaf id = (id, empty)

  unfoldable pub run : Builder A → Result (Forest A)
  run b = do
    roots ← to_tree_nodes b (map leaf (ids_of (filter is_root b.nodes)))
    built ← build_tree (suc (length b.nodes)) b (ids_of (filter is_root b.nodes)) []
    guard (count_nodes_in_tree (set_children roots built.0) == length b.nodes) conflict
    ok (set_children roots built.0)

  -- `AssetHierarchyBuilder.build` and `AssetHierarchyBuilder.check`
  unfoldable pub build : List HierarchyItem → List (String × A) → Result (Forest A)
  build nodes assets = run (record { nodes = nodes; assets = assets; is_check_mode = false })

  unfoldable pub check : List HierarchyItem → Result (Forest A)
  check nodes = run (record { nodes = nodes; assets = []; is_check_mode = true })
