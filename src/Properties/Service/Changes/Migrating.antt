-- ===== src/Properties/Service/Changes/Migrating.antt =====
-- Which values an asset has after its type has changed.
use elunic_myturck.Base.{
  ℕ, suc, ◌≡◌, refl, sym, Bool, true, false, not, Option, none, some, List, [], ◌∷◌, find, filter,
  any, all, All, All-map, All-snoc, All-filter, map, String, str_eq, ◌&&◌, ◌||◌, arith,
}
use mathlib.Core.Path.{subst}
use elunic_myturck.Base.Names.{member, str_eq_self}
use elunic_myturck.Properties.{DefinitionEntity, ValueEntity, join, Tables, Store}
use elunic_myturck.Properties.Service.{all_definitions, all_values, get_raw}
use elunic_myturck.Properties.Service.Changes.{
  of_asset, matches, taken_over, taken_rows, migrate_properties,
}

module _ {V N : Type 0} (r : Tables V N) (tenant asset new_type : String) where
  abbrev Entry : Type 0
  Entry = DefinitionEntity N × List (ValueEntity V)

  abbrev mine : ValueEntity V → Bool
  mine = of_asset r tenant asset

  -- A definition of this id belongs to the new type.
  abbrev pub belongs : List (DefinitionEntity N) → String → Bool
  belongs ds id =
      any
        (λ d.
          str_eq d.id id && (member d.asset_type_id (new_type ∷ []) && str_eq d.tenant_id tenant))
        ds

  listed-more :
      (x : ValueEntity V) (xs ys : List (ValueEntity V))
      → All (λ v. mine v ≡ true → member v.id (map (λ o. o.id) (filter mine xs)) ≡ true) ys
      → All (λ v. mine v ≡ true → member v.id (map (λ o. o.id) (filter mine (x ∷ xs))) ≡ true) ys
  listed-more x xs ys h = All-map ys (λ v k q. ground (arith, k q)) h

  listed :
      (xs : List (ValueEntity V))
      → All (λ v. mine v ≡ true → member v.id (map (λ o. o.id) (filter mine xs)) ≡ true) xs
  listed [] = tt
  listed (x ∷ xs) = (λ q. ground (arith, q, str_eq_self x.id), listed-more x xs xs (listed xs))

  -- The deletion leaves no value of the asset.
  kept_rows :
      (xs : List (ValueEntity V))
      → All
          (λ v. mine v ≡ false)
          (filter
            (λ v. not (member v.id (map (λ o. o.id) (filter mine xs)) && str_eq v.tenant_id tenant))
            xs)
  kept_rows xs =
      All-filter (λ v. mine v ≡ false) _ xs (All-map xs (λ v k q. ground (arith, k)) (listed xs))

  abbrev wanted : DefinitionEntity N → Bool
  wanted d = member d.asset_type_id (new_type ∷ []) && str_eq d.tenant_id tenant

  join-all :
      (good : String → Bool) (q : ValueEntity V → Bool) (vs : List (ValueEntity V))
      (xs : List (DefinitionEntity N))
      → All (λ d. wanted d ≡ true → good d.id ≡ true) xs
      → all (λ e. good e.0.id) (join wanted q xs vs) ≡ true
  unfolding join
  join-all good q vs [] h = refl
  join-all good q vs (d ∷ xs) h = ground (arith, h.0, join-all good q vs xs h.1)

  belongs-more :
      (x : DefinitionEntity N) (ds ys : List (DefinitionEntity N))
      → All (λ d. wanted d ≡ true → belongs ds d.id ≡ true) ys
      → All (λ d. wanted d ≡ true → belongs (x ∷ ds) d.id ≡ true) ys
  belongs-more x ds ys h = All-map ys (λ d k q. or_right _ (k q)) h
    where
      or_right : (a : Bool) {b : Bool} → b ≡ true → (a || b) ≡ true
      or_right a h = ground arith

  wanted-belongs :
      (ds : List (DefinitionEntity N)) → All (λ d. wanted d ≡ true → belongs ds d.id ≡ true) ds
  wanted-belongs [] = tt
  wanted-belongs (d ∷ ds) = (
    λ q. first_ (str_eq d.id d.id) (wanted d) _ (str_eq_self d.id) q,
    belongs-more d ds ds (wanted-belongs ds),
  )
    where
      first_ : (a b c : Bool) → a ≡ true → b ≡ true → ((a && b) || c) ≡ true
      first_ a b c h k = ground arith

  taken_rows-All :
      (P : ValueEntity V → Type 0) (s : Store r) (ids : ℕ → String) (k : ℕ)
      (old : List (ValueEntity V)) (es : List Entry) (t : r.values.Table) (good : String → Bool)
      → ((id d : String) (v : ValueEntity V) → good d ≡ true → P (taken_over r id tenant asset d v))
      → all (λ e. good e.0.id) es ≡ true
      → All P (r.values.rows t)
      → All P (r.values.rows (taken_rows r s ids k tenant asset old es t))
  unfolding taken_rows
  taken_rows-All P s ids k old [] t good make h rows = rows
  taken_rows-All P s ids k old ((d, vs) ∷ es) t good make h rows =
      by_find (find (matches r s d) old)
        (taken_rows-All P s ids (suc k) old es t good make (ground arith) rows)
        (λ v. taken_rows-All P s ids (suc k) old es _ good make (ground arith) (
          subst (All P) (sym (r.values.rows-insert _ t))
            (All-snoc P (r.values.rows t) _ rows (make (ids k) d.id v (ground arith)))))
    where
      by_find :
          (o : Option (ValueEntity V))
          → All P (r.values.rows (taken_rows r s ids (suc k) tenant asset old es t))
          → ((v : ValueEntity V)
              → All P (
                  r.values.rows (
                    taken_rows r s ids
                      (suc k)
                      tenant
                      asset
                      old
                      es
                      (r.values.insert (taken_over r (ids k) tenant asset d.id v) t))))
          → All P (
              r.values.rows (elim o [
                | none ↦ taken_rows r s ids (suc k) tenant asset old es t
                | some v ↦
                    taken_rows r s ids
                      (suc k)
                      tenant
                      asset
                      old
                      es
                      (r.values.insert (taken_over r (ids k) tenant asset d.id v) t)
              ]))
      by_find none left taken = left
      by_find (some v) left taken = taken v

  -- After the type of an asset has changed, each value that the asset has is one of a property of the
  -- new type. The order of the database adds no row to a query.
  pub migrate_properties-belongs :
      (order_by : List Entry → List Entry) (ids : ℕ → String) (s : Store r)
      → ((good : Entry → Bool) (es : List Entry)
          → all good es ≡ true
          → all good (order_by es) ≡ true)
      → All
          (λ v.
            of_asset r tenant asset v ≡ true → belongs (all_definitions r s) v.definition_id ≡ true)
          (all_values r (migrate_properties r order_by ids tenant asset new_type s))
  unfolding migrate_properties get_raw
  migrate_properties-belongs order_by ids s keeps =
      let old = filter mine (all_values r s) in
      let gone : ValueEntity V → Bool =
        λ v. member v.id (map (λ o. o.id) old) && str_eq v.tenant_id tenant in
      let kept = r.values.delete gone s.values in
      let good = belongs (all_definitions r s) in
      taken_rows-All (λ v. mine v ≡ true → good v.definition_id ≡ true) s ids 0 old _ kept good
        (λ id d v h q. h)
        (keeps (λ e. good e.0.id) _
          (join-all good _ _ (all_definitions r s) (wanted-belongs (all_definitions r s))))
        (subst (All (λ v. mine v ≡ true → good v.definition_id ≡ true))
          (sym (r.values.rows-delete gone s.values))
          (All-map _ (λ v h q. absurd (cc (h, q))) (kept_rows (all_values r s))))
