-- ===== src/Hierarchy/Inversion.antt =====
-- What has happened when a part of the tree builder has returned.
use elunic_myturck.Base.{
  ◌≡◌, sym, ap, ◌∙◌, false, List, [], ◌∷◌, ◌++◌, length, filter, String, Option, Bool-cases, inl,
  inr, arith, map, suc,
}
use elunic_myturck.Base.Names.{member}
use elunic_myturck.Base.Results.{ok, >>=-eq-ok, guard-eq-ok, ok-injective}
use elunic_myturck.Hierarchy.{
  Forest, empty, node, Builder, ids_of, is_child_of, is_root, asset_of, to_tree_nodes, visit,
  visit_all, Built, Below, build_tree, run, leaf, set_children, count_nodes_in_tree,
}

module _ {ℓ} {A : Type ℓ} where
  module _ (b : Builder A) (below : Below A) where
    pub visit-eq-ok :
        (id : String) (visited : List String) (r : Forest A × List String)
        → visit b below id visited ≡ ok r
        → (built : Built A) × (member id visited ≡ false)
          × (below (ids_of (filter (is_child_of id) b.nodes)) (visited ++ id ∷ []) ≡ ok built)
          × (to_tree_nodes b built.0 ≡ ok r.0)
          × (built.1 ≡ r.1)
    unfolding visit
    visit-eq-ok id visited r h = elim (Bool-cases (member id visited)) [
      | inl old ↦ absurd (cc (rw (old, visit) at h))
      | inr new ↦
          let (built, run, h') = >>=-eq-ok _ _ (rw (new, visit) at h) in
          let (children, mapped, h'') = >>=-eq-ok _ _ h' in
          let e : (children, built.1) ≡ r = ok-injective h'' in
          (
            built,
            new,
            run,
            mapped ∙ ap (λ (p : Forest A × List String). ok p.0) e,
            ap (λ (p : Forest A × List String). p.1) e,
          )
    ]

    pub visit_all-nil-eq-ok :
        (visited : List String) (r : Built A)
        → visit_all b below [] visited ≡ ok r
        → r ≡ ([], visited)
    unfolding visit_all
    visit_all-nil-eq-ok visited r h = sym (ok-injective h)

    pub visit_all-cons-eq-ok :
        (id : String) (ids visited : List String) (r : Built A)
        → visit_all b below (id ∷ ids) visited ≡ ok r
        → (first : Forest A × List String) × (others : Built A) × (visit b below id visited
            ≡ ok first)
          × (visit_all b below ids first.1 ≡ ok others)
          × (r ≡ ((id, first.0) ∷ others.0, others.1))
    unfolding visit_all
    visit_all-cons-eq-ok id ids visited r h =
        let (first, run, h') = >>=-eq-ok _ _ h in
        let (others, rest, h'') = >>=-eq-ok _ _ h' in
        (first, others, run, rest, sym (ok-injective h''))

  pub to_tree_nodes-nil-eq-ok :
      (b : Builder A) (f : Forest A) → to_tree_nodes b [] ≡ ok f → f ≡ empty
  unfolding to_tree_nodes
  to_tree_nodes-nil-eq-ok b f h = sym (ok-injective h)

  pub to_tree_nodes-cons-eq-ok :
      (b : Builder A) (id : String) (children : Forest A) (rest : List (String × Forest A))
      (f : Forest A)
      → to_tree_nodes b ((id, children) ∷ rest) ≡ ok f
      → (a : Option A) × (others : Forest A) × (asset_of b id ≡ ok a)
        × (to_tree_nodes b rest ≡ ok others)
        × (f ≡ node id a children others)
  unfolding to_tree_nodes
  to_tree_nodes-cons-eq-ok b id children rest f h =
      let (a, found, h') = >>=-eq-ok _ _ h in
      let (others, mapped, h'') = >>=-eq-ok _ _ h' in
      (a, others, found, mapped, sym (ok-injective h''))

  pub run-eq-ok :
      (b : Builder A) (f : Forest A)
      → run b ≡ ok f
      → (roots : Forest A) × (built : Built A) × (to_tree_nodes b
            (map leaf (ids_of (filter is_root b.nodes)))
          ≡ ok roots)
        × (build_tree (suc (length b.nodes)) b (ids_of (filter is_root b.nodes)) [] ≡ ok built)
        × (f ≡ set_children roots built.0)
        × (count_nodes_in_tree f ≡ length b.nodes)
  unfolding run
  run-eq-ok b f h =
      let (roots, mapped, h') = >>=-eq-ok _ _ h in
      let (built, visited, h'') = >>=-eq-ok _ _ h' in
      let (counted, h''') = guard-eq-ok _ _ _ h'' in
      let e = ok-injective h''' in
      (roots, built, mapped, visited, sym e, rw (← e) (ground (arith, counted)))
