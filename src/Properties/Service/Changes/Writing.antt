-- ===== src/Properties/Service/Changes/Writing.antt =====
-- Which value a row has after the property of an asset was changed.
use elunic_myturck.Base.{
  ℕ, ◌≡◌, refl, sym, ap, ◌∙◌, true, false, Option, none, some, List, [], ◌∷◌, filter, any, String,
  str_eq, eq_iff, arith, if◌then◌else◌, inl, inr,
}
use elunic_myturck.Base.Repository.{map_where}
use elunic_myturck.Base.Results.{Result, ok, Result-cases}
use elunic_myturck.Overlay.{United}
use elunic_myturck.Properties.{ValueEntity, Tables, Store}
use elunic_myturck.Properties.Service.{
  OverwriteDto, after, first_or_not_found, all_values, set_values, get_property_by_asset_id,
}
use elunic_myturck.Properties.Service.Changes.{overwrite, is_value, patch_by_asset}

module _ {V : Type 0} where
  -- The value of the row of an id.
  abbrev pub stored_value : String → List (ValueEntity V) → Option V
  stored_value id [] = none
  stored_value id (v ∷ vs) = if str_eq v.id id then v.value else stored_value id vs

module _ {V N : Type 0} (r : Tables V N) where
  -- The rows after a change of the row of an id.
  abbrev pub overwritten : String → OverwriteDto V → List (ValueEntity V) → List (ValueEntity V)
  overwritten id dto rows = map_where (λ x. str_eq x.id id) (overwrite r dto) rows

  pub stored_value-other :
      (i id : String) (dto : OverwriteDto V) (rows : List (ValueEntity V))
      → str_eq i id ≡ false
      → stored_value i (overwritten id dto rows) ≡ stored_value i rows
  stored_value-other i id dto [] other = refl
  stored_value-other i id dto (x ∷ xs) other =
      ground (arith, stored_value-other i id dto xs, eq_iff x.id i, eq_iff x.id id, eq_iff i id)

  pub stored_value-overwritten :
      (id : String) (v : V) (dto : OverwriteDto V) (rows : List (ValueEntity V))
      → dto.value ≡ some (some v)
      → any (λ x. str_eq x.id id) rows ≡ true
      → stored_value id (overwritten id dto rows) ≡ some v
  stored_value-overwritten id v dto [] given has = absurd (cc has)
  stored_value-overwritten id v dto (x ∷ xs) given has =
      ground (arith, stored_value-overwritten id v dto xs given)

  found-any :
      (tenant id asset : String) (rows : List (ValueEntity V)) {v : ValueEntity V}
      → first_or_not_found (filter (is_value r tenant asset id) rows) ≡ ok v
      → any (λ x. str_eq x.id id) rows ≡ true
  found-any tenant id asset [] h = absurd (cc h)
  found-any tenant id asset (x ∷ xs) {v} h = ground (arith, found-any tenant id asset xs {v = v})

  -- A change that returns has found its row, and leaves the rows with that one changed.
  pub patch_by_asset-overwritten :
      (tenant id asset : String) (dto : OverwriteDto V) (s : Store r) {u : United V ℕ}
      → (patch_by_asset r tenant id asset dto s).1 ≡ ok u
      → (any (λ x. str_eq x.id id) (all_values r s) ≡ true)
        × (all_values r (patch_by_asset r tenant id asset dto s).0
            ≡ overwritten id dto (all_values r s))
  unfolding patch_by_asset
  patch_by_asset-overwritten tenant id asset dto s h =
      let lookup_ : Result (ValueEntity V) =
        first_or_not_found (filter (is_value r tenant asset id) (all_values r s)) in
      let s' : Store r =
        set_values r (r.values.update (λ x. str_eq x.id id) (overwrite r dto) s.values) s in
      let next : ValueEntity V → Store r × Result (United V ℕ) =
        λ _. (s', get_property_by_asset_id r tenant asset id s') in
      elim (Result-cases lookup_) [
        | inl (v, e) ↦ (
          found-any tenant id asset (all_values r s) e,
          ap (λ q. all_values r (after s q next).0) e ∙ r.values.rows-update _ _ s.values,
        )
        | inr (thrown, e) ↦ absurd (cc (sym (ap (λ q. (after s q next).1) e) ∙ h))
      ]
