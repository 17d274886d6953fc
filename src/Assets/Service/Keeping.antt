-- ===== src/Assets/Service/Keeping.antt =====
-- What an update keeps of the values of properties.
use elunic_myturck.Base.{
  ℕ, ◌≡◌, sym, ap, ◌∙◌, true, Option, none, some, [], filter, String, str_eq, eq_iff, ◌&&◌, arith,
  Bool-cases, inl, inr, if◌then◌else◌,
}
use elunic_myturck.Base.Results.{ok, internal_error, ◌>>=◌, >>=-eq-ok, guard-eq-ok, ok-injective}
use elunic_myturck.Properties.Service.{all_values}
use elunic_myturck.Properties.Service.Changes.{of_asset}
use elunic_myturck.Properties.Service.Changes.Copying.{migrate_properties-none}
use elunic_myturck.Assets.{AssetEntity, UpdateAssetDto, AssetTables, AssetStore, AssetUser}
use elunic_myturck.Assets.Reading.{is_live, get_asset_by_id}
use elunic_myturck.Assets.Reading.Found.{get_asset_by_id-holds}
use elunic_myturck.Assets.Service.{
  Calls, simple_props, truthy_text, update_simple, all_assets, log, retyped, update_type,
  update_asset,
}
use elunic_myturck.Assets.Service.Fields.{update_simple-id}
use elunic_myturck.Assets.Service.Updating.{save_asset-parts}

module _ {V N : Type 0} (r : AssetTables V N) (c : Calls V N) where
  abbrev Same : AssetStore r → AssetStore r → Type 0
  Same s s' = all_values r.properties s'.properties ≡ all_values r.properties s.properties

  update_type-values :
      (ids : ℕ → String) (user : AssetUser) (t : Option String) (a : AssetEntity N)
      (s : AssetStore r) {out : AssetEntity N × AssetStore r}
      → filter (of_asset r.properties user.tenant_id a.id) (all_values r.properties s.properties)
        ≡ []
      → update_type r c ids user t a s ≡ ok out
      → Same s out.1
  unfolding update_type
  update_type-values ids user none a s none_yet h =
      ap (λ q. all_values r.properties q.1.properties) (sym (ok-injective h))
  update_type-values ids user (some t) a s none_yet h =
      let (_, h1) = guard-eq-ok (c.has_type a.asset_type_id) internal_error _ h in
      let renamed =
        c.find_type user.tenant_id t >>= λ new_type. ok (retyped r c ids user t a s new_type) in
      elim (Bool-cases (str_eq a.asset_type_id t)) [
        | inl same ↦
            ap (λ q. all_values r.properties q.1.properties)
              (sym (ok-injective (ap (λ q. if q then ok (a, s) else renamed) (sym same) ∙ h1)))
        | inr other ↦
            let (new_type, found, moved) =
              >>=-eq-ok (c.find_type user.tenant_id t) _
                (ap (λ q. if q then ok (a, s) else renamed) (sym other) ∙ h1) in
            ap (λ q. all_values r.properties q.1.properties) (sym (ok-injective moved))
            ∙ migrate_properties-none r.properties c.order_by ids user.tenant_id a.id new_type
                s.properties none_yet
      ]

  -- The update of an asset that has no rows keeps all rows.
  pub update_asset-values :
      (ids : ℕ → String) (user : AssetUser) (id : String) (u : UpdateAssetDto N)
      (s s' : AssetStore r)
      → filter (of_asset r.properties user.tenant_id id) (all_values r.properties s.properties) ≡ []
      → update_asset r c ids user id u s ≡ ok s'
      → all_values r.properties s'.properties ≡ all_values r.properties s.properties
  unfolding update_asset
  update_asset-values ids user id u s s' none_yet h =
      let (a, found, h1) = >>=-eq-ok (get_asset_by_id user.tenant_id id (all_assets r c s)) _ h in
      let (t, typed, h2) =
        >>=-eq-ok
          (update_type r c ids user (truthy_text u.asset_type)
            (update_simple c.same_name user u simple_props a).0
            (log r c (update_simple c.same_name user u simple_props a).1 s))
          _ h1 in
      let (_, kept) = save_asset-parts r c t.0 _ _ _ s' h2 in
      let same_id : (update_simple c.same_name user u simple_props a).0.id ≡ id =
        update_simple-id c.same_name user u simple_props a
        ∙ id_of a (get_asset_by_id-holds user.tenant_id id (all_assets r c s) found) in
      ap (all_values r.properties) kept
      ∙ update_type-values ids user (truthy_text u.asset_type) _ _
          (ap
              (λ i.
                filter (of_asset r.properties user.tenant_id i)
                  (all_values r.properties s.properties))
              same_id
            ∙ none_yet)
          typed
    where
      id_of : (a : AssetEntity N) → (str_eq a.id id && is_live user.tenant_id a) ≡ true → a.id ≡ id
      id_of a h = (eq_iff a.id id).0 (ground arith)
