-- ===== src/Properties/Service/Changes/Copying.antt =====
-- The rows of an asset copied to another one, and the migration of an asset that has no rows.
use elunic_myturck.Base.{
  ℕ, suc, ◌≡◌, refl, sym, ap, ◌∙◌, Bool, not, none, some, List, [], ◌∷◌, ◌++◌, append-nil,
  append_assoc, map, filter, String, str_eq, ◌&&◌, arith,
}
use elunic_myturck.Base.Names.{member, str_eq_self}
use elunic_myturck.Properties.{DefinitionEntity, ValueEntity, Tables, Store}
use elunic_myturck.Properties.Service.{all_values, set_values, get_raw}
use elunic_myturck.Properties.Service.Changes.{
  of_asset, clone_rows, clone_properties, taken_rows, migrate_properties,
}

module _ {V N : Type 0} (r : Tables V N) where
  -- A row without its id and its asset.
  abbrev pub content : ValueEntity V → ValueEntity V
  content v = record v { id = ""; asset_id = none }

  copies : (ℕ → String) → ℕ → String → List (ValueEntity V) → List (ValueEntity V)
  copies ids k to [] = []
  copies ids k to (v ∷ vs) = record v { id = ids k; asset_id = some to } ∷ copies ids (suc k) to vs

  clone_rows-copies :
      (ids : ℕ → String) (k : ℕ) (to : String) (vs : List (ValueEntity V)) (t : r.values.Table)
      → r.values.rows (clone_rows r ids k to vs t) ≡ r.values.rows t ++ copies ids k to vs
  unfolding clone_rows copies
  clone_rows-copies ids k to [] t = sym (append-nil (r.values.rows t))
  clone_rows-copies ids k to (v ∷ vs) t =
      clone_rows-copies ids (suc k) to vs
        (r.values.insert (record v { id = ids k; asset_id = some to }) t)
      ∙ (ap (λ rows. rows ++ copies ids (suc k) to vs) (r.values.rows-insert _ t)
          ∙ append_assoc (r.values.rows t) (record v { id = ids k; asset_id = some to } ∷ [])
              (copies ids (suc k) to vs))

  -- The copies are rows of the new asset in the tenant, with the contents of the old ones.
  copies-content :
      (tenant from to : String) (ids : ℕ → String) (k : ℕ) (xs : List (ValueEntity V))
      → map content
          (filter (of_asset r tenant to) (copies ids k to (filter (of_asset r tenant from) xs)))
        ≡ map content (filter (of_asset r tenant from) xs)
  unfolding copies
  copies-content tenant from to ids k [] = refl
  copies-content tenant from to ids k (x ∷ xs) = ground (
    arith,
    copies-content tenant from to ids k xs,
    copies-content tenant from to ids (suc k) xs,
    str_eq_self to,
  )

  filter-append :
      (p : ValueEntity V → Bool) (xs ys : List (ValueEntity V))
      → filter p (xs ++ ys) ≡ filter p xs ++ filter p ys
  filter-append p [] ys = refl
  filter-append p (x ∷ xs) ys = ground (arith, filter-append p xs ys)

  -- Cloning to an asset that has no rows gives it rows with the contents of those of the other one.
  pub clone_properties-content :
      (ids : ℕ → String) (tenant from to : String) (s : Store r)
      → filter (of_asset r tenant to) (all_values r s) ≡ []
      → map content
          (filter (of_asset r tenant to) (all_values r (clone_properties r ids tenant from to s)))
        ≡ map content (filter (of_asset r tenant from) (all_values r s))
  unfolding clone_properties
  clone_properties-content ids tenant from to s none_yet =
      ap (λ rows. map content (filter (of_asset r tenant to) rows))
        (clone_rows-copies ids 0 to _ s.values)
      ∙ (ap (map content) (filter-append (of_asset r tenant to) (all_values r s) _)
          ∙ (ap
                (λ rows. map content (
                  rows
                  ++ filter (of_asset r tenant to)
                      (copies ids 0 to (filter (of_asset r tenant from) (all_values r s)))))
                none_yet
              ∙ copies-content tenant from to ids 0 (all_values r s)))

  taken_rows-none :
      (s : Store r) (ids : ℕ → String) (k : ℕ) (tenant asset : String)
      (es : List (DefinitionEntity N × List (ValueEntity V))) (t : r.values.Table)
      → taken_rows r s ids k tenant asset [] es t ≡ t
  unfolding taken_rows
  taken_rows-none s ids k tenant asset [] t = refl
  taken_rows-none s ids k tenant asset ((d, vs) ∷ es) t =
      taken_rows-none s ids (suc k) tenant asset es t

  filter-all :
      (tenant : String) (xs : List (ValueEntity V))
      → filter (λ v. not (member v.id [] && str_eq v.tenant_id tenant)) xs ≡ xs
  filter-all tenant [] = refl
  filter-all tenant (x ∷ xs) = ap (λ ys. x ∷ ys) (filter-all tenant xs)

  -- The migration of an asset without rows leaves all rows.
  pub migrate_properties-none :
      (order_by : List (DefinitionEntity N × List (ValueEntity V))
        → List (DefinitionEntity N × List (ValueEntity V)))
      (ids : ℕ → String) (tenant asset new_type : String) (s : Store r)
      → filter (of_asset r tenant asset) (all_values r s) ≡ []
      → all_values r (migrate_properties r order_by ids tenant asset new_type s) ≡ all_values r s
  unfolding migrate_properties
  migrate_properties-none order_by ids tenant asset new_type s none_yet =
      let kept : List (ValueEntity V) → r.values.Table = λ old.
        r.values.delete (λ v. member v.id (map (λ o. o.id) old) && str_eq v.tenant_id tenant)
          s.values in
      let migrated : List (ValueEntity V) → r.values.Table = λ old.
        taken_rows r s ids 0 tenant asset old
          (get_raw r order_by tenant (new_type ∷ []) (set_values r (kept old) s)) (kept old) in
      ap (λ old. r.values.rows (migrated old)) none_yet
      ∙ (ap r.values.rows (taken_rows-none s ids 0 tenant asset _ (kept []))
          ∙ (r.values.rows-delete _ s.values ∙ filter-all tenant (all_values r s)))
