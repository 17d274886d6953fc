-- ===== src/Assets/Samples.antt =====
-- A tenant with a pump, whose type requires a speed: data for the tests.
use elunic_myturck.Base.{
  ℕ, Bool, true, false, not, Option, none, some, List, [], ◌∷◌, ◌++◌, map, filter, String, str_eq,
  if◌then◌else◌,
}
use elunic_myturck.Base.Names.{member}
use elunic_myturck.Base.Repository.{list_repository}
use elunic_myturck.Base.Results.{ok, err, not_found}
use elunic_myturck.Hierarchy.Service.{HierarchyEntity}
use elunic_myturck.Properties
use elunic_myturck.Properties.{DefinitionEntity, ValueEntity}
use elunic_myturck.Properties.Service.Samples.{lists, definition, value}
use elunic_myturck.Assets.{
  AssetEntity, Related, NewRelated, AliasFields, DocumentFields, RelatedTable, saved, inserted,
  AssetTables, AssetStore, AssetUser, UpdateAssetDto, CreateAssetDto,
}
use elunic_myturck.Assets.Service.{Calls}

abbrev stored_id : Option String → String
stored_id none = "new"
stored_id (some id) = id

abbrev pub stored_rows : {D : Type 0} → List (NewRelated D) → List (Related D)
stored_rows = map (λ x. record {
  id = stored_id x.id;
  tenant_id = x.tenant_id;
  asset_id = x.asset_id;
  created_by = x.created_by;
  fields = x.fields;
})

-- A table whose save puts new rows in the place of those of the asset.
abbrev pub related_list : (D : Type 0) → RelatedTable D
related_list D = record {
  Table = List (Related D);
  rows = λ t. t;
  save = λ asset new t. saved (
    filter (λ x. not (str_eq x.asset_id asset)) t ++ stored_rows new,
    map inserted (stored_rows new),
  );
}

abbrev pub tables : AssetTables ℕ String
tables = record {
  assets = list_repository (AssetEntity String);
  hierarchy = list_repository HierarchyEntity;
  aliases = related_list AliasFields;
  documents = related_list DocumentFields;
  properties = lists;
}

abbrev pub is_type : String → Bool
is_type t = member t ("pump" ∷ "valve" ∷ [])

abbrev pub calls : Calls ℕ String
calls = record {
  same_name = str_eq;
  find_type = λ tenant t. if is_type t then ok t else err not_found;
  inherited = λ tenant t. ok (t ∷ []);
  has_type = is_type;
  order_by = λ es. es;
  clone_file = λ id. err not_found;
}

abbrev pub user : AssetUser
user = record { id = "u"; tenant_id = "t" }

abbrev pub pump : AssetEntity String
pump = record {
  id = "x";
  tenant_id = "t";
  name = "pump 1";
  description = none;
  image_id = some "image";
  asset_type_id = "pump";
  is_deleted = false;
}

abbrev pub required_value : String → String → Option String → Option ℕ → ValueEntity ℕ
required_value id definition_id asset v = record (value id definition_id asset v) {
  is_required = some true;
}

abbrev pub properties : Properties.Store lists
properties = record {
  definitions = definition "d1" "pump" "speed" ∷ definition "d2" "valve" "size" ∷ [];
  values =
      required_value "v1" "d1" none none
      ∷ value "v2" "d2" none (some 6)
      ∷ value "o1" "d1" (some "x") (some 7)
      ∷ [];
}

abbrev pub store : AssetStore tables
store = record {
  assets = pump ∷ record pump { id = "y"; tenant_id = "other" } ∷ [];
  hierarchy = record { id = "x"; tenant_id = "t"; parent_id = none; order_index = 0 } ∷ [];
  aliases = [];
  documents = [];
  properties = properties;
  activities = [];
}

-- A request that gives a new name and keeps the description.
abbrev pub renaming : UpdateAssetDto String
renaming = record {
  description = some none;
  image_id = none;
  name = some "pump 2";
  asset_type = none;
  aliases = none;
  documents = none;
}

abbrev pub creation : List (String × ℕ) → CreateAssetDto ℕ String
creation given = record {
  description = none;
  image_id = none;
  name = "pump 3";
  asset_type = some "pump";
  aliases = some (
      record { id = none; fields = record { alias = "p3"; type = "GENERAL"; description = none } }
      ∷ []);
  documents = none;
  required_properties = given;
}
