-- ===== src/Properties/Service/Changes/Tests.antt =====
-- Changing properties, and the theorem at an example.
use elunic_myturck.Base.{
  ℕ, ◌≡◌, refl, true, false, none, some, [], ◌∷◌, ◌++◌, map, String, ltb, All,
}
use elunic_myturck.Base.Results.{ok, err, conflict, bad_request}
use elunic_myturck.Substitution.{number}
use elunic_myturck.Properties.{Store, sanitize_property_key, join}
use elunic_myturck.Properties.Service.{CreateDto, PatchDto, get_raw, all_values}
use elunic_myturck.Properties.Service.Samples.{lists, store, value, definition}
use elunic_myturck.Properties.Service.Changes.{
  check_new, create_property, patch_by_asset_type, patch_by_asset, delete_overwrite,
  delete_definition, clone_rows, clone_properties, taken_rows, migrate_properties, of_asset,
}
use elunic_myturck.Properties.Service.Changes.Migrating.{belongs, migrate_properties-belongs}

abbrev dto : String → CreateDto ℕ String
dto key = record {
  name = "n";
  key = key;
  value_type = number;
  value = some 1;
  position = 0;
  is_hidden = false;
  is_required = false;
}

refuses :
    (check_new lists "t" (ok "pump") (dto "speed") store ≡ err conflict)
    × (check_new lists "t" (ok "pump") (dto "!") store ≡ err bad_request)
    × (check_new lists "t" (ok "pump") (dto "size") store ≡ ok ("pump", "size"))
unfolding check_new sanitize_property_key
refuses = (refl, refl, refl)

-- Unlike a creation, a change may give a property the key of another one of its type.
abbrev patch : PatchDto ℕ String
patch = record {
  name = none;
  key = some "speed";
  value_type = none;
  value = some 0;
  position = none;
  is_hidden = none;
  is_required = none;
}

same_keys :
    map (λ d. d.key) (patch_by_asset_type lists (ltb 0) "t" "v3" "valve" patch store).0.definitions
    ≡ "speed" ∷ "speed" ∷ "speed" ∷ []
unfolding patch_by_asset_type join
same_keys = refl

creates :
    map
      (λ d. d.key)
      (create_property lists "d4" "v4" "t" (ok "pump") (dto "size") store).0.definitions
    ≡ "speed" ∷ "speed" ∷ "size" ∷ "size" ∷ []
unfolding create_property check_new sanitize_property_key
creates = refl

clears :
    map
      (λ v. v.value)
      (delete_overwrite lists "t" "o1" "x"
        (record {
          id = some "o1";
          key = "speed";
          value = some 7;
          position = none;
          is_hidden = none;
          is_required = some false;
          is_overwritten = true;
          fields_overwritten = [];
          is_foreign_asset_type = false;
          origin_asset_type = "pump";
        }
          ∷ [])
        store).0.values
    ≡ some 5 ∷ some 6 ∷ some 2 ∷ none ∷ []
unfolding delete_overwrite patch_by_asset
clears = refl

deletes :
    delete_definition lists "t" "v1" "pump" store
    ≡ ok (record {
      definitions = definition "d2" "valve" "speed" ∷ definition "d3" "valve" "size" ∷ [];
      values = value "v2" "d2" none (some 6) ∷ value "v3" "d3" none (some 2) ∷ [];
    })
unfolding delete_definition join
deletes = refl

clones :
    (clone_properties lists (λ k. "o9") "t" "x" "z" store).values
    ≡ store.values ++ value "o9" "d1" (some "z") (some 7) ∷ []
unfolding clone_properties clone_rows
clones = refl

abbrev migrated : Store lists
migrated = record store {
  values =
      value "v1" "d1" none (some 5)
      ∷ value "v2" "d2" none (some 6)
      ∷ value "v3" "d3" none (some 2)
      ∷ value "o9" "d2" (some "x") (some 7)
      ∷ [];
}

-- The value of a property of the same key and type is taken over.
migrates : migrate_properties lists (λ es. es) (λ k. "o9") "t" "x" "valve" store ≡ migrated
unfolding migrate_properties taken_rows get_raw join
migrates = refl

migrate_properties-belongs_example :
    All
      (λ v.
        of_asset lists "t" "x" v ≡ true
        → belongs lists "t" "x" "valve" store.definitions v.definition_id ≡ true)
      (all_values lists (migrate_properties lists (λ es. es) (λ k. "o9") "t" "x" "valve" store))
migrate_properties-belongs_example =
    migrate_properties-belongs lists "t" "x" "valve" (λ es. es) (λ k. "o9") store (λ good es h. h)
