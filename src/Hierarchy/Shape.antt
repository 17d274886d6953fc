-- ===== src/Hierarchy/Shape.antt =====
-- The tree that the builder returns has the shape of the hierarchy table.
use elunic_myturck.Base.{ℕ, zero, suc, ◌≡◌, refl, ap, ◌∙◌, List, [], ◌∷◌, filter, map, String}
use elunic_myturck.Base.Results.{ok}
use elunic_myturck.Hierarchy.Inversion.{
  visit-eq-ok, visit_all-nil-eq-ok, visit_all-cons-eq-ok, to_tree_nodes-cons-eq-ok,
  to_tree_nodes-nil-eq-ok, run-eq-ok,
}
use elunic_myturck.Hierarchy.{
  Forest, empty, node, Builder, Built, Below, ids_of, is_child_of, is_root, asset_of, to_tree_nodes,
  visit_all, build_tree, run, leaf, set_children, top_ids,
}

module _ {ℓ} {A : Type ℓ} where
  -- Every node carries its asset, and its children are the rows that name it as parent, in their order.
  abbrev pub IsTreeOf : Builder A → Forest A → Type ℓ
  IsTreeOf b empty = Unit
  IsTreeOf b (node id a children rest) =
      (asset_of b id ≡ ok a)
      × (top_ids children ≡ ids_of (filter (is_child_of id) b.nodes))
      × IsTreeOf b children
      × IsTreeOf b rest

  abbrev pub AreBuilt : Builder A → List (String × Forest A) → Type ℓ
  AreBuilt b [] = Unit
  AreBuilt b ((id, children) ∷ rest) =
      (top_ids children ≡ ids_of (filter (is_child_of id) b.nodes))
      × IsTreeOf b children
      × AreBuilt b rest

  abbrev pub keys : List (String × Forest A) → List String
  keys = map (λ r. r.0)

  to_tree_nodes-IsTreeOf :
      (b : Builder A) (built : List (String × Forest A)) (f : Forest A)
      → to_tree_nodes b built ≡ ok f
      → AreBuilt b built
      → (top_ids f ≡ keys built) × IsTreeOf b f
  unfolding top_ids
  to_tree_nodes-IsTreeOf b [] f h good = rw (to_tree_nodes-nil-eq-ok b f h) (refl, tt)
  to_tree_nodes-IsTreeOf b ((id, children) ∷ rest) f h (shape, below, later) =
      let (a, others, found, mapped, e) = to_tree_nodes-cons-eq-ok b id children rest f h in
      let (top, tree) = to_tree_nodes-IsTreeOf b rest others mapped later in
      rw e (ap (λ r. id ∷ r) top, (found, shape, below, tree))

  abbrev pub KeepsShape : Builder A → Below A → Type ℓ
  KeepsShape b below =
      (ids visited : List String) (r : Built A)
      → below ids visited ≡ ok r
      → (keys r.0 ≡ ids) × AreBuilt b r.0

  module _ (b : Builder A) (below : Below A) (keeps : KeepsShape b below) where
    visit_all-KeepsShape : KeepsShape b (visit_all b below)
    visit_all-KeepsShape [] visited r h = rw (visit_all-nil-eq-ok b below visited r h) (refl, tt)
    visit_all-KeepsShape (id ∷ ids) visited r h =
        let (first, others, run_first, run_rest, e) =
          visit_all-cons-eq-ok b below id ids visited r h in
        let (built, _, run_below, mapped, _) = visit-eq-ok b below id visited first run_first in
        let (same_keys, good) = keeps _ _ built run_below in
        let (top, tree) = to_tree_nodes-IsTreeOf b built.0 first.0 mapped good in
        let (keys_rest, rest) = visit_all-KeepsShape ids first.1 others run_rest in
        rw e (ap (λ r. id ∷ r) keys_rest, (top ∙ same_keys, tree, rest))

  pub build_tree-KeepsShape : (fuel : ℕ) (b : Builder A) → KeepsShape b (build_tree fuel b)
  unfolding build_tree
  build_tree-KeepsShape zero b ids visited r h = absurd (cc h)
  build_tree-KeepsShape (suc fuel) b ids visited r h =
      visit_all-KeepsShape b (build_tree fuel b) (build_tree-KeepsShape fuel b) ids visited r h

  -- The roots were made into nodes before their children were known.
  set_children-IsTreeOf :
      (b : Builder A) (ids : List String) (roots : Forest A) (built : List (String × Forest A))
      → to_tree_nodes b (map leaf ids) ≡ ok roots
      → keys built ≡ ids
      → AreBuilt b built
      → (top_ids (set_children roots built) ≡ ids) × IsTreeOf b (set_children roots built)
  unfolding set_children top_ids
  set_children-IsTreeOf b [] roots built h e good =
      rw (to_tree_nodes-nil-eq-ok b roots h) (refl, tt)
  set_children-IsTreeOf b (id ∷ ids) roots [] h e good = absurd (cc e)
  set_children-IsTreeOf b (id ∷ ids) roots ((k, children) ∷ built) h e (shape, below, later) =
      let (a, others, found, mapped, same) = to_tree_nodes-cons-eq-ok b id _ _ roots h in
      let key : k ≡ id = cc e in
      let rest : keys built ≡ ids = cc e in
      let (top, tree) = set_children-IsTreeOf b ids others built mapped rest later in
      rw same (ap (λ r. id ∷ r) top, (found, rw (← key) shape, below, tree))

  -- A tree that the builder returns has the rows without a parent as its roots, in their order; below
  -- each node stand the rows that name it as parent, in their order; and each node carries its asset.
  pub run-IsTreeOf :
      (b : Builder A) (f : Forest A)
      → run b ≡ ok f
      → (top_ids f ≡ ids_of (filter is_root b.nodes)) × IsTreeOf b f
  run-IsTreeOf b f h =
      let (roots, built, mapped, visited, e, _) = run-eq-ok b f h in
      let (same_keys, good) = build_tree-KeepsShape _ b _ _ built visited in
      rw e (set_children-IsTreeOf b _ roots built.0 mapped same_keys good)
