-- ===== src/Properties/Service/Tests.antt =====
-- Fetching properties, and the theorem at an example.
use elunic_myturck.Base.{
  all, not, ◌||◌, ℕ, ◌≡◌, refl, Bool, true, false, Option, none, some, List, [], ◌∷◌, map, String,
}
use elunic_myturck.Base.Results.{Result, ok, err, not_found, ◌>>=◌}
use elunic_myturck.Overlay.{
  United, united_property, sort_by_score, insert_by_score, apply_rows, apply_row,
}
use elunic_myturck.Properties.{Store, sanitize_property_key, join}
use elunic_myturck.Properties.Service.{
  asked_for, united_all, get_property_by_asset_type_id, get_property_by_asset_id, get_raw,
  get_properties_by_asset_type_id, add_missing, get_properties_by_asset_id,
}
use elunic_myturck.Properties.Service.Samples.{lists, store}
use elunic_myturck.Properties.Service.Fetching.{get_properties_by_asset_id-again, complete}

-- Only the first character that is not allowed is removed.
sanitized : sanitize_property_key "a b c" ≡ "ab c"
unfolding sanitize_property_key
sanitized = refl

abbrev types : String → Result (List String)
types id = ok (id ∷ [])

abbrev summary : Result (List (United ℕ ℕ)) → Result (List (Option ℕ × Bool))
summary (err e) = err e
summary (ok us) = ok (map {B = Option ℕ × Bool} (λ u. (u.value, u.is_overwritten)) us)

abbrev fetch : String → Store lists → Store lists × Result (List (United ℕ ℕ))
fetch asset s = get_properties_by_asset_id lists (λ k. "o2") "t" asset (ok "pump") types none none s

-- The first time, a property does not count as overwritten, and from then on it does.
fetches :
    (summary (fetch "y" store).1 ≡ ok ((some 5, false) ∷ []))
    × (summary (fetch "y" (fetch "y" store).0).1 ≡ ok ((some 5, true) ∷ []))
    × (summary (fetch "x" store).1 ≡ ok ((some 7, true) ∷ []))
unfolding get_properties_by_asset_id add_missing join united_all united_property sort_by_score
    insert_by_score apply_rows apply_row
fetches = (refl, refl, refl)

-- One property of an asset comes without the values of its definition.
fetches_one : (get_property_by_asset_id lists "t" "x" "o1" store >>= λ u. ok u.value) ≡ ok (some 7)
unfolding get_property_by_asset_id join united_property sort_by_score insert_by_score apply_rows
    apply_row
fetches_one = refl

fetches_type :
    summary (get_properties_by_asset_type_id lists (λ es. es) "t" (types "valve") "valve" store)
    ≡ ok ((some 6, false) ∷ (some 2, false) ∷ [])
unfolding get_properties_by_asset_type_id get_raw join united_all united_property sort_by_score
    insert_by_score apply_rows apply_row
fetches_type = refl

of_no_type : get_property_by_asset_type_id lists "t" "pump" "v2" store ≡ err not_found
unfolding get_property_by_asset_type_id join
of_no_type = refl

get_properties_by_asset_id-again_example :
    ((fetch "y" (fetch "y" store).0).0 ≡ (fetch "y" store).0)
    × (all
          (λ d.
            not (asked_for lists "t" ("pump" ∷ []) none none d)
            || complete lists "t" "y" (fetch "y" store).0.values d.id)
          (fetch "y" store).0.definitions
        ≡ true)
unfolding get_properties_by_asset_id add_missing join united_all united_property sort_by_score
    insert_by_score apply_rows apply_row
get_properties_by_asset_id-again_example =
    get_properties_by_asset_id-again lists "t" "y" (λ k. "o2") (λ k. "o2") "pump" ("pump" ∷ [])
      types none none store refl refl
