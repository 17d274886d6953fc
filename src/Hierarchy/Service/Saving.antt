-- ===== src/Hierarchy/Service/Saving.antt =====
-- Saving the parent of an asset, and the trees of the other tenants.
use elunic_myturck.Base.{
  ◌≡◌, refl, ap, ◌∙◌, Bool, true, false, not, Option, List, [], ◌∷◌, ◌++◌, map, filter, any, all,
  arith, String, str_eq, eq_iff, ◌||◌, if◌then◌else◌,
}
use elunic_myturck.Base.Repository.{Repository, map_where}
use elunic_myturck.Base.Results.{Result}
use elunic_myturck.Hierarchy.{Forest, build}
use elunic_myturck.Hierarchy.Service.{HierarchyEntity, to_item, fetch_asset_tree, save_parent}

module _ {A : Type 0} (r : Repository HierarchyEntity)
    (order_by : List HierarchyEntity → List HierarchyEntity)
    (assets_of : List String → List (String × A)) where
  rows-moved :
      (tenant other id : String) (parent : Option String) (rows : List HierarchyEntity)
      → str_eq tenant other ≡ false
      → all (λ h. not (str_eq h.id id) || str_eq h.tenant_id tenant) rows ≡ true
      → filter
          (λ h. str_eq h.tenant_id other)
          (map_where
            (λ h. str_eq h.id id)
            (λ h. record h { parent_id = parent; tenant_id = tenant })
            rows)
        ≡ filter (λ h. str_eq h.tenant_id other) rows
  rows-moved tenant other id parent [] n o = refl
  rows-moved tenant other id parent (h ∷ hs) n o = ground (
    arith,
    rows-moved tenant other id parent hs,
    eq_iff h.tenant_id tenant,
    eq_iff h.tenant_id other,
    eq_iff tenant other,
  )

  rows-added :
      (other : String) (x : HierarchyEntity) (rows : List HierarchyEntity)
      → str_eq x.tenant_id other ≡ false
      → filter (λ h. str_eq h.tenant_id other) (rows ++ x ∷ [])
        ≡ filter (λ h. str_eq h.tenant_id other) rows
  rows-added other x [] n = ground arith
  rows-added other x (h ∷ hs) n = ground (arith, rows-added other x hs)

  -- Saving a row of one tenant leaves the tree of another, where the id is no row of another tenant.
  pub save_parent-other :
      (tenant other id : String) (parent : Option String) (t : r.Table)
      → str_eq tenant other ≡ false
      → all (λ h. not (str_eq h.id id) || str_eq h.tenant_id tenant) (r.rows t) ≡ true
      → fetch_asset_tree r order_by assets_of other
          (save_parent r order_by assets_of tenant id parent t)
        ≡ fetch_asset_tree r order_by assets_of other t
  unfolding save_parent fetch_asset_tree
  save_parent-other tenant other id parent t n o =
      ap {A = List HierarchyEntity} (λ rows. fetch_rows rows)
        (same (any (λ h. str_eq h.id id) (r.rows t)))
    where
      fetch_rows : List HierarchyEntity → Result (Forest A)
      fetch_rows rows =
          build (map to_item (order_by rows))
            (assets_of (map (λ x. x.id) (map to_item (order_by rows))))

      same :
          (b : Bool)
          → filter
              (λ h. str_eq h.tenant_id other)
              (r.rows (
                if b
                then r.update
                    (λ h. str_eq h.id id)
                    (λ h. record h { parent_id = parent; tenant_id = tenant })
                    t
                else r.insert
                    (record { id = id; tenant_id = tenant; parent_id = parent; order_index = 0 })
                    t))
            ≡ filter (λ h. str_eq h.tenant_id other) (r.rows t)
      same true =
          ap (filter (λ h. str_eq h.tenant_id other)) (r.rows-update _ _ t)
          ∙ rows-moved tenant other id parent (r.rows t) n o
      same false =
          ap (filter (λ h. str_eq h.tenant_id other)) (r.rows-insert _ t)
          ∙ rows-added other _ (r.rows t) n
