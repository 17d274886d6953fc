-- ===== src/Hierarchy/Rooted.antt =====
-- What an accepted hierarchy satisfies: every row is reached from a row without a parent, and no id
-- stands in the tree twice.
use elunic_myturck.Base.{
  ℕ, zero, suc, ◌≡◌, refl, sym, ap, ◌∙◌, true, List, [], ◌∷◌, ◌++◌, length, filter, map, arith,
  String, str_eq, length-map, append_assoc, append-nil, length-append, Bool-cases, inl, inr,
}
use elunic_myturck.Base.Names.{
  str_eq_self, member, member-append, distinct, pigeonhole, distinct-snoc,
}
use elunic_myturck.Base.Results.{ok}
use elunic_myturck.Hierarchy.Inversion.{
  visit-eq-ok, visit_all-nil-eq-ok, visit_all-cons-eq-ok, to_tree_nodes-cons-eq-ok,
  to_tree_nodes-nil-eq-ok, run-eq-ok,
}
use elunic_myturck.Hierarchy.Shape.{build_tree-KeepsShape, IsTreeOf, keys, run-IsTreeOf}
use elunic_myturck.Hierarchy.Termination.{filter-ids}
use elunic_myturck.Hierarchy.{
  HierarchyItem, Forest, empty, node, Builder, Built, Below, ids_of, is_child_of, is_root,
  to_tree_nodes, visit, visit_all, build_tree, run, build, check, leaf, set_children, top_ids,
  count_nodes_in_tree,
}

-- The id of a row without a parent, or of a row whose parent's id is such an id.
pub data Rooted (nodes : List HierarchyItem) : String → Type 0 where
  root : (a : String) → member a (ids_of (filter is_root nodes)) ≡ true → Rooted nodes a
  child :
      (p a : String)
      → Rooted nodes p
      → member a (ids_of (filter (is_child_of p) nodes)) ≡ true
      → Rooted nodes a

pub member_of_Rooted :
    (nodes : List HierarchyItem) {a : String} → Rooted nodes a → member a (ids_of nodes) ≡ true
member_of_Rooted nodes (root a h) = filter-ids is_root nodes a h
member_of_Rooted nodes (child p a r h) = filter-ids (is_child_of p) nodes a h

module _ {ℓ} {A : Type ℓ} where
  -- The ids of a tree, each node before its children.
  pub preorder : Forest A → List String
  preorder empty = []
  preorder (node id a children rest) = id ∷ (preorder children ++ preorder rest)

  built_ids : List (String × Forest A) → List String
  unfolding preorder
  built_ids [] = []
  built_ids ((id, children) ∷ rest) = id ∷ (preorder children ++ built_ids rest)

  pub length-preorder : (f : Forest A) → length (preorder f) ≡ count_nodes_in_tree f
  unfolding preorder count_nodes_in_tree
  length-preorder empty = refl
  length-preorder (node id a children rest) = omega (
    arith,
    length-append (preorder children) (preorder rest),
    length-preorder children,
    length-preorder rest,
  )

  to_tree_nodes-preorder :
      (b : Builder A) (built : List (String × Forest A)) (f : Forest A)
      → to_tree_nodes b built ≡ ok f
      → preorder f ≡ built_ids built
  unfolding built_ids
  to_tree_nodes-preorder b [] f h = rw (to_tree_nodes-nil-eq-ok b f h) refl
  to_tree_nodes-preorder b ((id, children) ∷ rest) f h =
      let (a, others, found, mapped, e) = to_tree_nodes-cons-eq-ok b id children rest f h in
      rw (e, preorder)
        (ap (λ r. id ∷ (preorder children ++ r)) (to_tree_nodes-preorder b rest others mapped))

  set_children-preorder :
      (b : Builder A) (ids : List String) (roots : Forest A) (built : List (String × Forest A))
      → to_tree_nodes b (map leaf ids) ≡ ok roots
      → keys built ≡ ids
      → preorder (set_children roots built) ≡ built_ids built
  unfolding set_children built_ids
  set_children-preorder b [] roots [] h e = rw (to_tree_nodes-nil-eq-ok b roots h) refl
  set_children-preorder b [] roots (r ∷ built) h e = absurd (cc e)
  set_children-preorder b (id ∷ ids) roots [] h e = absurd (cc e)
  set_children-preorder b (id ∷ ids) roots ((k, children) ∷ built) h e =
      let (a, others, found, mapped, same) = to_tree_nodes-cons-eq-ok b id _ _ roots h in
      let key : k ≡ id = cc e in
      let rest : keys built ≡ ids = cc e in
      rw (same, preorder, key)
        (ap (λ r. id ∷ (preorder children ++ r))
          (set_children-preorder b ids others built mapped rest))

  -- The ids visited are those visited before and then those built, none twice.
  abbrev Logs : Builder A → Below A → Type ℓ
  Logs b below =
      (ids visited : List String) (r : Built A)
      → below ids visited ≡ ok r
      → distinct visited ≡ true
      → (r.1 ≡ visited ++ built_ids r.0) × (distinct r.1 ≡ true)

  module _ (b : Builder A) (below : Below A) (logs : Logs b below) where
    visit-Logs :
        (id : String) (visited : List String) (r : Forest A × List String)
        → visit b below id visited ≡ ok r
        → distinct visited ≡ true
        → (r.1 ≡ visited ++ (id ∷ preorder r.0)) × (distinct r.1 ≡ true)
    visit-Logs id visited r h d =
        let (built, new, run_below, mapped, e) = visit-eq-ok b below id visited r h in
        let (log, still) = logs _ _ built run_below (distinct-snoc visited id d new) in
        (
          sym e
              ∙ log
              ∙ append_assoc visited (id ∷ []) (built_ids built.0)
              ∙ ap (λ s. visited ++ (id ∷ s)) (sym (to_tree_nodes-preorder b built.0 r.0 mapped)),
          rw (← e) still,
        )

    visit_all-Logs : Logs b (visit_all b below)
    unfolding built_ids
    visit_all-Logs [] visited r h d =
        rw (visit_all-nil-eq-ok b below visited r h) (sym (append-nil visited), d)
    visit_all-Logs (id ∷ ids) visited r h d =
        let (first, others, run_first, run_rest, e) =
          visit_all-cons-eq-ok b below id ids visited r h in
        let (log, still) = visit-Logs id visited first run_first d in
        let (log', still') = visit_all-Logs ids first.1 others run_rest still in
        rw e (
          log'
              ∙ ap (λ s. s ++ built_ids others.0) log
              ∙ append_assoc visited (id ∷ preorder first.0) (built_ids others.0),
          still',
        )

  build_tree-Logs : (fuel : ℕ) (b : Builder A) → Logs b (build_tree fuel b)
  unfolding build_tree
  build_tree-Logs zero b ids visited r h d = absurd (cc h)
  build_tree-Logs (suc fuel) b ids visited r h d =
      visit_all-Logs b (build_tree fuel b) (build_tree-Logs fuel b) ids visited r h d

  Rooted-of_preorder :
      (b : Builder A) (f : Forest A)
      → IsTreeOf b f
      → ((a : String) → member a (top_ids f) ≡ true → Rooted b.nodes a)
      → (a : String) → member a (preorder f) ≡ true
      → Rooted b.nodes a
  unfolding preorder top_ids
  Rooted-of_preorder b empty tree top a h = absurd (cc h)
  Rooted-of_preorder b (node id x children rest) (_, shape, below, later) top a h =
      elim (Bool-cases (str_eq id a)) [
        | inl same ↦ top a (rw same refl)
        | inr other ↦ elim (Bool-cases (member a (preorder children))) [
          | inl inside ↦
              Rooted-of_preorder b children below
                (λ c m. child id c (top id (rw (str_eq_self id) refl)) (rw shape at m)) a inside
          | inr outside ↦
              Rooted-of_preorder b rest later (λ c m. top c (ground arith)) a
                (ground (arith, member-append a (preorder children) (preorder rest)))
        ]
      ]

  -- If the builder returns a tree, then no id stands in it twice, it holds the id of every row, and
  -- every row is reached from a row without a parent: the hierarchy has no loop and no island.
  pub run-Rooted :
      (b : Builder A) (f : Forest A)
      → run b ≡ ok f
      → (distinct (preorder f) ≡ true)
        × ((a : String)
            → member a (ids_of b.nodes) ≡ true
            → (member a (preorder f) ≡ true) × Rooted b.nodes a)
  run-Rooted b f h =
      let (roots, built, mapped, visited, e, counted) = run-eq-ok b f h in
      let (same_keys, good) = build_tree-KeepsShape _ b _ _ built visited in
      let (log, once) = build_tree-Logs _ b _ [] built visited refl in
      let same : preorder f ≡ built_ids built.0 =
        ap preorder e ∙ set_children-preorder b _ roots built.0 mapped same_keys in
      let (top, tree) = run-IsTreeOf b f h in
      let reached : (a : String) → member a (preorder f) ≡ true → Rooted b.nodes a =
        Rooted-of_preorder b f tree (λ a m. root a (rw top at m)) in
      let single : distinct (preorder f) ≡ true = rw (same, ← log) once in
      let all_in : (a : String) → member a (ids_of b.nodes) ≡ true → member a (preorder f) ≡ true =
        pigeonhole (preorder f) (ids_of b.nodes) single
          (λ a m. member_of_Rooted b.nodes (reached a m))
          (length-preorder f ∙ counted ∙ sym (length-map (λ n. n.id) b.nodes)) in
      (single, λ a m. (all_in a m, reached a (all_in a m)))

  pub check-Rooted :
      (nodes : List HierarchyItem) (f : Forest A)
      → check nodes ≡ ok f
      → (a : String) → member a (ids_of nodes) ≡ true
      → Rooted nodes a
  unfolding check
  check-Rooted nodes f h a m = ((run-Rooted _ f h).1 a m).1

  pub build-Rooted :
      (nodes : List HierarchyItem) (assets : List (String × A)) (f : Forest A)
      → build nodes assets ≡ ok f
      → (a : String) → member a (ids_of nodes) ≡ true
      → Rooted nodes a
  unfolding build
  build-Rooted nodes assets f h a m = ((run-Rooted _ f h).1 a m).1
