-- ===== src/Assets/Transforming/Transformed.antt =====
-- What a transformation that succeeds leaves.
use elunic_myturck.Base.{
  ◌≡◌, refl, sym, ap, ◌∙◌, Bool, true, false, any, arith, Option, none, some, List, [], ◌∷◌, map,
  String, ltb, length, Bool-cases, Option-cases, inl, inr,
}
use mathlib.Core.Path.{subst}
use elunic_myturck.Base.Names.{member, distinct, str_eq_self}
use elunic_myturck.Base.Repository.{Repository}
use elunic_myturck.Base.Results.{ok, ◌>>=◌, >>=-eq-ok, ok-injective}
use elunic_myturck.Hierarchy.{Forest, ids_of}
use elunic_myturck.Hierarchy.Rooted.{Rooted}
use elunic_myturck.Hierarchy.Service.{
  HierarchyEntity, or_null, get_cached, delete_cached, hierarchy_of, fetch_asset_tree, clear_cache,
  get_asset_tree,
}
use elunic_myturck.Hierarchy.Service.Moves.{moved, fetch_asset_tree-Rooted}
use elunic_myturck.Hierarchy.Service.Caching.{get_cached-deleted, kept, read-miss}
use elunic_myturck.Assets.{AssetEntity}
use elunic_myturck.Assets.Reading.{is_live, check_if_assets_exist}
use elunic_myturck.Assets.Reading.Existing.{ids_where, check_if_assets_exist_iff}
use elunic_myturck.Assets.Transforming.{
  TransformType, child_of, delete, other, TransformAction, referenced_ids, assets_of, Tree,
  delete_asset_from_tree, is_late, late_deletions, apply_order, transform, apply_actions,
  apply_transformation,
}

get_cached-delete_cached :
    {T : Type 0} (tenant : String) (cache : List (String × T))
    → get_cached tenant (delete_cached tenant cache) ≡ none
get_cached-delete_cached tenant cache =
    elim (Option-cases (get_cached tenant (delete_cached tenant cache))) [
      | inl gone ↦ gone
      | inr (tree, there) ↦
          let (differs, _) = get_cached-deleted tenant tenant cache tree there in
          absurd (cc (differs, str_eq_self tenant))
    ]

module _ {N : Type 0} (r : Repository HierarchyEntity)
    (order_by : List HierarchyEntity → List HierarchyEntity)
    (below : List HierarchyEntity → HierarchyEntity → Bool) (tenant : String)
    (assets : List (AssetEntity N)) where
  abbrev State_ : Type 0
  State_ = Tree r order_by below tenant assets

  -- The tenant has no tree in the cache.
  abbrev Uncached : State_ → Type 0
  Uncached st = get_cached tenant st.cache ≡ none

  apply_order-cache :
      (o : Option (List String)) (st : State_)
      → (apply_order r order_by below tenant assets o st).cache ≡ st.cache
  apply_order-cache none st = refl
  apply_order-cache (some ids) st = elim (Bool-cases (ltb 1 (length ids))) [
    | inl many ↦ rw many refl
    | inr few ↦ rw few refl
  ]

  transform-Uncached :
      (in_time : String → Bool) (t : TransformType) (a : TransformAction) (st : State_)
      {st' : State_}
      → transform r order_by below tenant assets in_time t a st ≡ ok st'
      → Uncached st'
  unfolding delete_asset_from_tree clear_cache
  transform-Uncached in_time child_of a st {st'} h =
      let (_, _, cleared) =
        moved r order_by (assets_of r order_by below tenant assets) tenant a.id (or_null a.child_of)
          st st' h in
      ap (get_cached tenant) cleared ∙ get_cached-delete_cached tenant st.cache
  transform-Uncached in_time delete a st h =
      subst Uncached (ok-injective h) (elim (Bool-cases (in_time a.id)) [
        | inl soon ↦ rw soon (get_cached-delete_cached tenant st.cache)
        | inr late ↦ rw late (get_cached-delete_cached tenant st.cache)
      ])
  transform-Uncached in_time other a st h = absurd (cc h)

  apply_actions-Uncached :
      (in_time : String → Bool) (as' : List TransformAction) (st st' : State_)
      → Uncached st
      → apply_actions r order_by below tenant assets in_time as' st ≡ ok st'
      → Uncached st'
  unfolding apply_actions
  apply_actions-Uncached in_time [] st st' u h = subst Uncached (ok-injective h) u
  apply_actions-Uncached in_time (a ∷ as') st st' u h =
      let (st1, transformed, h1) =
        >>=-eq-ok (transform r order_by below tenant assets in_time a.type a st) _ h in
      apply_actions-Uncached in_time as' (apply_order r order_by below tenant assets a.order st1)
        st'
        (ap (get_cached tenant) (apply_order-cache a.order st1)
          ∙ transform-Uncached in_time a.type a st transformed)
        h1

  apply_actions-some :
      (in_time : String → Bool) (a : TransformAction) (as' : List TransformAction) (st st' : State_)
      → apply_actions r order_by below tenant assets in_time (a ∷ as') st ≡ ok st'
      → Uncached st'
  unfolding apply_actions
  apply_actions-some in_time a as' st st' h =
      let (st1, transformed, h1) =
        >>=-eq-ok (transform r order_by below tenant assets in_time a.type a st) _ h in
      apply_actions-Uncached in_time as' (apply_order r order_by below tenant assets a.order st1)
        st'
        (ap (get_cached tenant) (apply_order-cache a.order st1)
          ∙ transform-Uncached in_time a.type a st transformed)
        h1

  late_deletions-none :
      (in_time : String → Bool) (as' : List TransformAction) (st : State_)
      → any (λ y. is_late r order_by below tenant assets in_time y.type y.id) as' ≡ false
      → late_deletions r order_by below tenant assets in_time as' st ≡ st
  unfolding late_deletions
  late_deletions-none in_time [] st h = refl
  late_deletions-none in_time (a ∷ as') st h =
      let late : is_late r order_by below tenant assets in_time a.type a.id ≡ false =
        ground arith in
      rw late (late_deletions-none in_time as' st (ground arith))

  -- A transformation that succeeds mentions only assets of the tenant that are not deleted, leaves a hierarchy of the
  -- tenant without loops and islands, and the tree that is served after it is the one that it has logged. It has at least one
  -- action, each deletion is carried out before the next statement, although the code does not wait for it, and the ids
  -- of the assets are distinct.
  pub apply_transformation-tree :
      (in_time : String → Bool) (a : TransformAction) (as' : List TransformAction) (st st' : State_)
      (tree : Forest (AssetEntity N)) (b x : String)
      → distinct (map (λ y. y.id) assets) ≡ true
      → any (λ y. is_late r order_by below tenant assets in_time y.type y.id) (a ∷ as') ≡ false
      → apply_transformation r order_by below tenant assets in_time (a ∷ as') st ≡ ok (tree, st')
      → member b (referenced_ids (a ∷ as')) ≡ true
      → member x (
          ids_of
            (hierarchy_of r order_by (assets_of r order_by below tenant assets) tenant st'.table))
        ≡ true
      → (member b (ids_where (is_live tenant) assets) ≡ true)
        × Rooted
            (hierarchy_of r order_by (assets_of r order_by below tenant assets) tenant st'.table)
            x
        × ((st'' : State_) × (get_asset_tree r order_by
                (assets_of r order_by below tenant assets)
                tenant
                true
                st'
              ≡ ok (tree, st'')))
  unfolding apply_transformation
  apply_transformation-tree in_time a as' st st' tree b x d soon h mentioned row =
      let ao = assets_of r order_by below tenant assets in
      let (_, exist, h1) =
        >>=-eq-ok (check_if_assets_exist tenant (referenced_ids (a ∷ as')) assets) _ h in
      let (st1, applied, h2) =
        >>=-eq-ok (apply_actions r order_by below tenant assets in_time (a ∷ as') st) _ h1 in
      let (tree1, fetched, h3) = >>=-eq-ok (fetch_asset_tree r order_by ao tenant st1.table) _ h2 in
      let same : st1 ≡ st' =
        sym (late_deletions-none in_time (a ∷ as') st1 soon) ∙ ap (λ q. q.1) (ok-injective h3) in
      let fetched' : fetch_asset_tree r order_by ao tenant st'.table ≡ ok tree =
        ap (λ s. fetch_asset_tree r order_by ao tenant s.table) (sym same)
        ∙ (fetched ∙ ap (λ q. ok q.0) (ok-injective h3)) in
      let uncached : Uncached st' =
        subst Uncached same (apply_actions-some in_time a as' st st1 applied) in
      (
        (check_if_assets_exist_iff tenant (referenced_ids (a ∷ as')) assets d).0 exist b mentioned,
        fetch_asset_tree-Rooted r order_by ao tenant st'.table tree fetched' x row,
        (
          kept r order_by ao tenant tree st',
          read-miss r order_by ao tenant st' uncached
              ∙ ap (λ q. q >>= λ t. ok (t, kept r order_by ao tenant t st')) fetched',
        ),
      )
