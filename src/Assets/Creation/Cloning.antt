-- ===== src/Assets/Creation/Cloning.antt =====
-- What a clone has of the properties of the asset that it is made of.
use elunic_myturck.Base.{ℕ, ◌≡◌, sym, ap, ◌∙◌, List, [], map, filter, String}
use elunic_myturck.Base.Results.{ok, internal_error, >>=-eq-ok, guard-eq-ok, ok-injective}
use elunic_myturck.Properties
use elunic_myturck.Properties.Service.{all_values}
use elunic_myturck.Properties.Service.Changes.{of_asset}
use elunic_myturck.Properties.Service.Changes.Copying.{content, clone_properties-content}
use elunic_myturck.Assets.{AssetEntity, UpdateAssetDto, AssetTables, AssetStore, AssetUser}
use elunic_myturck.Assets.Reading.{get_asset_by_id}
use elunic_myturck.Assets.Service.{Calls, all_assets, update_asset}
use elunic_myturck.Assets.Service.Keeping.{update_asset-values}
use elunic_myturck.Assets.Creation.{cloned_asset, clone_asset}

module _ {V N : Type 0} (r : AssetTables V N) (c : Calls V N) where
  -- The rows of an asset among the values of properties.
  abbrev pub rows_of : String → String → AssetStore r → List (Properties.ValueEntity V)
  rows_of tenant id s =
      filter (of_asset r.properties tenant id) (all_values r.properties s.properties)

  -- A clone that succeeds has rows with the contents of those of the asset, of the same definitions and in the same
  -- order, whichever type the request gives the clone. The id of the clone is new.
  pub clone_asset-content :
      (new_id : String) (ids clone_ids : ℕ → String) (user : AssetUser) (id : String)
      (u : UpdateAssetDto N) (s s' : AssetStore r) (b : AssetEntity N)
      → rows_of user.tenant_id new_id s ≡ []
      → clone_asset r c new_id ids clone_ids user id u s ≡ ok (b, s')
      → map (content r.properties) (rows_of user.tenant_id new_id s')
        ≡ map (content r.properties) (rows_of user.tenant_id id s)
  unfolding clone_asset
  clone_asset-content new_id ids clone_ids user id u s s' b new h =
      let (a, _, h1) = >>=-eq-ok (get_asset_by_id user.tenant_id id (all_assets r c s)) _ h in
      let (_, h2) = guard-eq-ok (c.has_type a.asset_type_id) internal_error _ h1 in
      let stored : AssetStore r = record s {
        assets = r.assets.insert (cloned_asset r c new_id a) s.assets;
      } in
      let (s1, updated_, h3) = >>=-eq-ok (update_asset r c ids user new_id u stored) _ h2 in
      let (_, _, h4) = >>=-eq-ok (get_asset_by_id user.tenant_id new_id (all_assets r c s1)) _ h3 in
      let (_, _, h5) = >>=-eq-ok (get_asset_by_id user.tenant_id new_id _) _ h4 in
      let values = update_asset-values r c ids user new_id u stored s1 new updated_ in
      ap (λ q. map (content r.properties) (rows_of user.tenant_id new_id q.1))
        (sym (ok-injective h5))
      ∙ (clone_properties-content r.properties clone_ids user.tenant_id id new_id s1.properties
            (ap (filter (of_asset r.properties user.tenant_id new_id)) values ∙ new)
          ∙ ap
              (λ vs.
                map (content r.properties) (filter (of_asset r.properties user.tenant_id id) vs))
              values)
