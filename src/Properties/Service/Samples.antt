-- ===== src/Properties/Service/Samples.antt =====
-- Two types of assets with properties, and an asset that overwrites one: data for the tests.
use elunic_myturck.Base.{ℕ, false, none, some, [], ◌∷◌, String, Option}
use elunic_myturck.Base.Repository.{list_repository}
use elunic_myturck.Substitution.{number}
use elunic_myturck.Properties.{DefinitionEntity, ValueEntity, Tables, Store}

abbrev pub lists : Tables ℕ String
lists = record {
  definitions = list_repository (DefinitionEntity String);
  values = list_repository (ValueEntity ℕ);
}

abbrev pub definition : String → String → String → DefinitionEntity String
definition id type_id key = record {
  id = id;
  tenant_id = "t";
  asset_type_id = type_id;
  key = key;
  name = key;
  value_type = number;
}

abbrev pub value : String → String → Option String → Option ℕ → ValueEntity ℕ
value id definition_id asset v = record {
  id = id;
  tenant_id = "t";
  definition_id = definition_id;
  asset_id = asset;
  value = v;
  position = none;
  is_hidden = none;
  is_required = some false;
}

abbrev pub store : Store lists
store = record {
  definitions =
      definition "d1" "pump" "speed"
      ∷ definition "d2" "valve" "speed"
      ∷ definition "d3" "valve" "size"
      ∷ [];
  values =
      value "v1" "d1" none (some 5)
      ∷ value "v2" "d2" none (some 6)
      ∷ value "v3" "d3" none (some 2)
      ∷ value "o1" "d1" (some "x") (some 7)
      ∷ [];
}
