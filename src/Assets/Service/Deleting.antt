-- ===== src/Assets/Service/Deleting.antt =====
-- Soft-deleting an asset.
use elunic_myturck.Base.{
  ◌≡◌, refl, sym, ap, ◌∙◌, Bool, true, false, not, List, [], ◌∷◌, filter, any, String, str_eq,
  arith, ◌||◌,
}
use elunic_myturck.Base.Results.{ok, err, not_found, >>=-eq-ok, ok-injective}
use elunic_myturck.Hierarchy.Service.{HierarchyEntity}
use elunic_myturck.Assets.{AssetTables, AssetStore, AssetUser, AssetEntity, Related, AliasFields}
use elunic_myturck.Assets.Reading.{
  get_asset_by_id, is_live, get_assets_by_ids_bulk, get_assets_where_id_not_in,
  get_assets_by_type_id, find_assets_by_alias,
}
use elunic_myturck.Assets.Reading.Found.{
  any-mark_deleted, mark_deleted, get_asset_by_id-mark_deleted, get_asset_by_id-mark_deleted_other,
}
use elunic_myturck.Assets.Service.{Calls, all_assets, hierarchy_row, soft_delete_by_id}

any-filter-not :
    {A : Type 0} (p q : A → Bool) (xs : List A) → any p (filter (λ x. not (p x || q x)) xs) ≡ false
any-filter-not p q [] = refl
any-filter-not p q (x ∷ xs) = ground (arith, any-filter-not p q xs)

module _ {V N : Type 0} (r : AssetTables V N) (c : Calls V N) where
  -- After an asset was soft-deleted, no query of its tenant finds it, be it by its id, by a list of ids, by all but some
  -- ids, by a type or by an alias, and it has no row in the hierarchy; what is found under any other id is the same.
  pub soft_delete_by_id-hidden :
      (below : List HierarchyEntity → HierarchyEntity → Bool) (user : AssetUser) (id i : String)
      (ids : List String) (type_id alias : String) (like : String → String → Bool)
      (aliases : List (Related AliasFields)) (s s' : AssetStore r)
      → str_eq i id ≡ false
      → soft_delete_by_id r c below user id s ≡ ok s'
      → (get_asset_by_id user.tenant_id id (all_assets r c s') ≡ err not_found)
        × (any (hierarchy_row r c user.tenant_id id) (r.hierarchy.rows s'.hierarchy) ≡ false)
        × (any (λ a. str_eq a.id id) (get_assets_by_ids_bulk user.tenant_id ids (all_assets r c s'))
            ≡ false)
        × (any
              (λ a. str_eq a.id id)
              (get_assets_where_id_not_in user.tenant_id ids (all_assets r c s'))
            ≡ false)
        × (any
              (λ a. str_eq a.id id)
              (get_assets_by_type_id user.tenant_id type_id (all_assets r c s'))
            ≡ false)
        × (any
              (λ a. str_eq a.id id)
              (find_assets_by_alias like user.tenant_id alias aliases (all_assets r c s'))
            ≡ false)
        × (get_asset_by_id user.tenant_id i (all_assets r c s')
            ≡ get_asset_by_id user.tenant_id i (all_assets r c s))
  unfolding soft_delete_by_id get_assets_by_ids_bulk get_assets_where_id_not_in
      get_assets_by_type_id find_assets_by_alias
  soft_delete_by_id-hidden below user id i ids type_id alias like aliases s s' other h =
      let (_, _, done_) = >>=-eq-ok (get_asset_by_id user.tenant_id id (all_assets r c s)) _ h in
      let marked : all_assets r c s' ≡ mark_deleted user.tenant_id id (all_assets r c s) =
        ap (all_assets r c) (sym (ok-injective done_)) ∙ r.assets.rows-update _ _ s.assets in
      let unseen : (asks : AssetEntity N → Bool)
          → ((a : AssetEntity N) → asks a ≡ true → is_live user.tenant_id a ≡ true)
          → any (λ a. str_eq a.id id) (filter asks (all_assets r c s')) ≡ false =
        λ asks live.
          ap (λ rows. any (λ a. str_eq a.id id) (filter asks rows)) marked
          ∙ any-mark_deleted user.tenant_id id asks (all_assets r c s) live in
      (
        ap (get_asset_by_id user.tenant_id id) marked
            ∙ get_asset_by_id-mark_deleted user.tenant_id id (all_assets r c s),
        ap (λ t. any (hierarchy_row r c user.tenant_id id) (r.hierarchy.rows t.hierarchy))
              (sym (ok-injective done_))
            ∙ (ap (any (hierarchy_row r c user.tenant_id id))
                  (r.hierarchy.rows-delete _ s.hierarchy)
                ∙ any-filter-not (hierarchy_row r c user.tenant_id id) _
                    (r.hierarchy.rows s.hierarchy)),
        unseen _ (λ a k. ground arith),
        unseen _ (λ a k. ground arith),
        unseen _ (λ a k. ground arith),
        unseen _ (λ a k. ground arith),
        ap (get_asset_by_id user.tenant_id i) marked
            ∙ get_asset_by_id-mark_deleted_other user.tenant_id id i (all_assets r c s) other,
      )
