-- ===== src/Hierarchy/Termination.antt =====
-- The recursion of `buildTree` ends on every hierarchy: each level visits an id for the first time.
use elunic_myturck.Base.{
  ℕ, zero, suc, ◌+◌, ◌≤◌, ◌<◌, ◌≡◌, ◌≢◌, refl, Bool, true, false, List, [], ◌∷◌, ◌++◌, length,
  filter, arith, String, str_eq, eq_iff, Bool-cases, inl, inr, if◌then◌else◌, Option-cases, find,
}
use elunic_myturck.Base.Names.{member, member-append, str_eq_self}
use elunic_myturck.Base.Results.{ok, err, conflict, out_of_fuel, >>=-ne-err, guard-ne-err}
use elunic_myturck.Hierarchy.Inversion.{visit-eq-ok, visit_all-nil-eq-ok, visit_all-cons-eq-ok}
use elunic_myturck.Hierarchy.{
  Built, Below, HierarchyItem, Forest, Builder, ids_of, is_child_of, is_root, asset_of,
  to_tree_nodes, visit, visit_all, build_tree, run,
}

-- The nodes whose ids were not visited.
remaining : List HierarchyItem → List String → ℕ
remaining [] visited = 0
remaining (n ∷ ns) visited = (if member n.id visited then 0 else 1) + remaining ns visited

remaining-append-le :
    (nodes : List HierarchyItem) (visited more : List String)
    → remaining nodes (visited ++ more) ≤ remaining nodes visited
unfolding remaining
remaining-append-le [] visited more = omega arith
remaining-append-le (n ∷ ns) visited more =
    ground (arith, member-append n.id visited more, remaining-append-le ns visited more)

remaining-visit :
    (nodes : List HierarchyItem) (id : String) (visited : List String)
    → member id (ids_of nodes) ≡ true
    → member id visited ≡ false
    → remaining nodes (visited ++ id ∷ []) < remaining nodes visited
unfolding remaining
remaining-visit [] id visited h new = cc
remaining-visit (n ∷ ns) id visited h new = elim (Bool-cases (str_eq n.id id)) [
  | inl same ↦
      let e : n.id ≡ id = (eq_iff n.id id).0 same in
      let known : member n.id visited ≡ false = rw e new in
      ground (
        arith,
        member-append n.id visited (id ∷ []),
        eq_iff id n.id,
        remaining-append-le ns visited (id ∷ []),
      )
  | inr other ↦ ground (
    arith,
    member-append n.id visited (id ∷ []),
    eq_iff id n.id,
    eq_iff n.id id,
    remaining-visit ns id visited,
  )
]

remaining-le-length :
    (nodes : List HierarchyItem) (visited : List String) → remaining nodes visited ≤ length nodes
unfolding remaining
remaining-le-length [] visited = omega arith
remaining-le-length (n ∷ ns) visited = ground (arith, remaining-le-length ns visited)

pub filter-ids :
    (p : HierarchyItem → Bool) (nodes : List HierarchyItem) (a : String)
    → member a (ids_of (filter p nodes)) ≡ true
    → member a (ids_of nodes) ≡ true
filter-ids p [] a h = cc
filter-ids p (n ∷ ns) a h = ground (arith, filter-ids p ns a)

module _ {ℓ} {A : Type ℓ} where
  asset_of-ne-fuel : (b : Builder A) (id : String) → asset_of b id ≢ err out_of_fuel
  unfolding asset_of
  asset_of-ne-fuel b id = elim (Bool-cases b.is_check_mode) [
    | inl checking ↦ rw (checking, asset_of) cc
    | inr building ↦ elim (Option-cases (find (λ a. str_eq a.0 id) b.assets)) [
      | inl missing ↦ rw (building, missing, asset_of) cc
      | inr (a, found) ↦ rw (building, found, asset_of) cc
    ]
  ]

  to_tree_nodes-ne-fuel :
      (b : Builder A) (built : List (String × Forest A)) → to_tree_nodes b built ≢ err out_of_fuel
  unfolding to_tree_nodes
  to_tree_nodes-ne-fuel b [] = cc
  to_tree_nodes-ne-fuel b ((id, children) ∷ rest) =
      >>=-ne-err (asset_of b id) _ out_of_fuel (asset_of-ne-fuel b id) (λ a _.
        >>=-ne-err (to_tree_nodes b rest) _ out_of_fuel (to_tree_nodes-ne-fuel b rest) (λ f _. cc))

  -- What the recursive call keeps: nothing that was visited is forgotten.
  abbrev Grows : Builder A → Below A → Type ℓ
  Grows b below =
      (ids visited : List String) (r : Built A)
      → below ids visited ≡ ok r
      → remaining b.nodes r.1 ≤ remaining b.nodes visited

  module _ (b : Builder A) (below : Below A) (grows : Grows b below) where
    visit-grows :
        (id : String) (visited : List String) (r : Forest A × List String)
        → visit b below id visited ≡ ok r
        → remaining b.nodes r.1 ≤ remaining b.nodes visited
    visit-grows id visited r h =
        let (built, new, run, mapped, e) = visit-eq-ok b below id visited r h in
        rw (← e) (omega (arith, grows _ _ built run, remaining-append-le b.nodes visited (id ∷ [])))

    visit_all-Grows : Grows b (visit_all b below)
    visit_all-Grows [] visited r h = rw (visit_all-nil-eq-ok b below visited r h) (omega arith)
    visit_all-Grows (id ∷ ids) visited r h =
        let (first, others, run, rest, e) = visit_all-cons-eq-ok b below id ids visited r h in
        rw e
          (omega (arith, visit-grows id visited first run, visit_all-Grows ids first.1 others rest))

  build_tree-Grows : (fuel : ℕ) (b : Builder A) → Grows b (build_tree fuel b)
  unfolding build_tree
  build_tree-Grows zero b ids visited r h = absurd (cc h)
  build_tree-Grows (suc fuel) b ids visited r h =
      visit_all-Grows b (build_tree fuel b) (build_tree-Grows fuel b) ids visited r h

  -- The recursive call returns or throws an exception of the program, if its fuel is more than the
  -- number of nodes left.
  abbrev Ends : ℕ → Builder A → Below A → Type ℓ
  Ends fuel b below =
      (ids visited : List String)
      → ((a : String) → member a ids ≡ true → member a (ids_of b.nodes) ≡ true)
      → remaining b.nodes visited < fuel
      → below ids visited ≢ err out_of_fuel

  module _ (fuel : ℕ) (b : Builder A) (below : Below A) (ends : Ends fuel b below)
      (grows : Grows b below) where
    visit-ends :
        (id : String) (visited : List String)
        → member id (ids_of b.nodes) ≡ true
        → remaining b.nodes visited < suc fuel
        → visit b below id visited ≢ err out_of_fuel
    unfolding visit
    visit-ends id visited known left = elim (Bool-cases (member id visited)) [
      | inl old ↦ rw (old, visit) cc
      | inr new ↦
          rw (new, visit)
            (>>=-ne-err _ _ out_of_fuel
              (ends _ _ (filter-ids (is_child_of id) b.nodes)
                (omega (arith, remaining-visit b.nodes id visited known new)))
              (λ r _. >>=-ne-err _ _ out_of_fuel (to_tree_nodes-ne-fuel b r.0) (λ f _. cc)))
    ]

    visit_all-Ends : Ends (suc fuel) b (visit_all b below)
    unfolding visit_all
    visit_all-Ends [] visited known left = cc
    visit_all-Ends (id ∷ ids) visited known left =
        >>=-ne-err _ _ out_of_fuel
          (visit-ends id visited (known id (rw (str_eq_self id) refl)) left)
          (λ first run.
            >>=-ne-err _ _ out_of_fuel
              (visit_all-Ends ids first.1 (λ a m. known a (ground arith))
                (omega (arith, visit-grows b below grows id visited first run)))
              (λ others _. cc))

  build_tree-Ends : (fuel : ℕ) (b : Builder A) → Ends fuel b (build_tree fuel b)
  unfolding build_tree
  build_tree-Ends zero b ids visited known left = absurd (omega arith)
  build_tree-Ends (suc fuel) b ids visited known left =
      visit_all-Ends fuel b (build_tree fuel b) (build_tree-Ends fuel b) (build_tree-Grows fuel b)
        ids visited known left

  -- The builder ends on every hierarchy, also on one with loops or with one id in two rows: the fuel
  -- that the model gives it is never used up.
  pub run-ne-fuel : (b : Builder A) → run b ≢ err out_of_fuel
  unfolding run
  run-ne-fuel b = >>=-ne-err _ _ out_of_fuel (to_tree_nodes-ne-fuel b _) (λ roots _.
      >>=-ne-err _ _ out_of_fuel
        (build_tree-Ends (suc (length b.nodes)) b _ [] (filter-ids is_root b.nodes)
          (omega (arith, remaining-le-length b.nodes [])))
        (λ built _. guard-ne-err _ conflict out_of_fuel _ cc))
