-- ===== src/Properties/Service.antt =====
-- The operations of AssetPropertyService. What a service answers about asset types is an argument, and so are
-- the ids of new rows. The order of the query of a type's properties (by position and key) is `order_by`.
pub mod Fetching
pub mod Changes
pub mod Samples
mod Tests
use elunic_myturck.Base.{
  ℕ, suc, Bool, true, false, not, Option, none, some, List, [], ◌∷◌, ◌++◌, find, filter, any, all,
  map, String, str_eq, ◌&&◌, ◌||◌, if◌then◌else◌,
}
use elunic_myturck.Base.Names.{member}
use elunic_myturck.Base.Repository.{Repository}
use elunic_myturck.Base.Results.{
  Result, ok, err, bad_request, not_found, conflict, internal_error, ◌>>=◌, ◌>>◌, guard,
}
use elunic_myturck.Substitution.{PropertyType}
use elunic_myturck.Overlay.{
  ValueRow, Definition, United, Mode, no_overlay, overlay, united_property,
}
use elunic_myturck.Properties.{
  DefinitionEntity, ValueEntity, sanitize_property_key, is_none, is_of_asset, to_value_row, join,
  to_definition, same_type, Tables, Store,
}

-- `new UnitedPropertyDto(...)` for each row of a query.
unfoldable pub united_all :
    {V N : Type 0}
    → String
    → Mode
    → List (DefinitionEntity N × List (ValueEntity V))
    → Result (List (United V ℕ))
united_all origin mode [] = ok []
united_all origin mode ((d, vs) ∷ ds) = do
  u ← united_property (to_definition d (map to_value_row vs)) origin mode
  us ← united_all origin mode ds
  ok (u ∷ us)

-- `getOne` and the error for no row
abbrev pub first_or_not_found : {A : Type 0} → List A → Result A
first_or_not_found [] = err not_found
first_or_not_found (x ∷ xs) = ok x

-- `CreatePropertyDefReqDto`, `UpdatePropertyDefReqClassDto` and `UpdatePropertyValReqDto`; a field of an
-- update is none where the request does not have it, and in the last one may be set to null.
pub record CreateDto (V N : Type 0) : Type 0 where
  pub name : N
  pub key : String
  pub value_type : PropertyType
  pub value : Option V
  pub position : ℕ
  pub is_hidden : Bool
  pub is_required : Bool

pub record PatchDto (V N : Type 0) : Type 0 where
  pub name : Option N
  pub key : Option String
  pub value_type : Option PropertyType
  pub value : Option V
  pub position : Option ℕ
  pub is_hidden : Option Bool
  pub is_required : Option Bool

pub record OverwriteDto (V : Type 0) : Type 0 where
  pub value : Option (Option V)
  pub position : Option (Option ℕ)
  pub is_hidden : Option (Option Bool)
  pub is_required : Option (Option Bool)

abbrev pub or_old : {A : Type 0} → Option A → A → A
or_old none old = old
or_old (some new) old = new

-- `if (x) { old = x }`
abbrev pub or_old_text : Option String → String → String
or_old_text none old = old
or_old_text (some new) old = if str_eq new "" then old else new

abbrev pub if_set : {A : Type 0} → Option A → Option A → Option A
if_set none old = old
if_set (some new) old = some new

-- The row of an overwrite without any field.
abbrev pub blank_overwrite : {V : Type 0} → String → String → String → String → ValueEntity V
blank_overwrite id tenant asset definition = record {
  id = id;
  tenant_id = tenant;
  definition_id = definition;
  asset_id = some asset;
  value = none;
  position = none;
  is_hidden = none;
  is_required = none;
}

-- A step that may throw, in code without a transaction: what was stored before stays.
abbrev pub after : {A B S : Type 0} → S → Result A → (A → S × Result B) → S × Result B
after s (ok a) next = next a
after s (err e) next = (s, err e)

module _ {V N : Type 0} (r : Tables V N) where
  open r use {definitions, values}

  abbrev pub all_definitions : Store r → List (DefinitionEntity N)
  all_definitions s = definitions.rows s.definitions

  abbrev pub all_values : Store r → List (ValueEntity V)
  all_values s = values.rows s.values

  abbrev pub set_values : values.Table → Store r → Store r
  set_values t s = record s { values = t }

  -- The conditions of the queries.
  abbrev pub of_type : String → String → DefinitionEntity N → Bool
  of_type tenant type_id d = str_eq d.asset_type_id type_id && str_eq d.tenant_id tenant

  abbrev pub own_value : String → ValueEntity V → Bool
  own_value tenant v = is_none v.asset_id && str_eq v.tenant_id tenant

  abbrev pub value_for : String → String → ValueEntity V → Bool
  value_for tenant asset v =
      str_eq v.tenant_id tenant && (is_none v.asset_id || is_of_asset asset v.asset_id)

  pub get_property_by_asset_type_id : String → String → String → Store r → Result (United V ℕ)
  get_property_by_asset_type_id tenant type_id id s = do
    found ← first_or_not_found (
        join (of_type tenant type_id) (λ v. own_value tenant v && str_eq v.id id)
          (all_definitions s) (all_values s))
    united_property (to_definition found.0 (map to_value_row found.1)) type_id no_overlay

  -- The condition on the id leaves one row of values, so that nothing is laid over anything.
  unfoldable pub get_property_by_asset_id : String → String → String → Store r → Result (United V ℕ)
  get_property_by_asset_id tenant asset id s = do
    found ← first_or_not_found (
        join (λ d. str_eq d.tenant_id tenant) (λ v. value_for tenant asset v && str_eq v.id id)
          (all_definitions s) (all_values s))
    united_property (to_definition found.0 (map to_value_row found.1)) found.0.asset_type_id overlay

  -- `getPropertiesByAssetTypeIdRaw`
  unfoldable pub get_raw :
      (List (DefinitionEntity N × List (ValueEntity V))
        → List (DefinitionEntity N × List (ValueEntity V)))
      → String
      → List String
      → Store r
      → List (DefinitionEntity N × List (ValueEntity V))
  get_raw order_by tenant type_ids s = order_by (
      join (λ d. member d.asset_type_id type_ids && str_eq d.tenant_id tenant) (own_value tenant)
        (all_definitions s) (all_values s))

  pub get_properties_by_asset_type_id :
      (List (DefinitionEntity N × List (ValueEntity V))
        → List (DefinitionEntity N × List (ValueEntity V)))
      → String
      → Result (List String)
      → String
      → Store r
      → Result (List (United V ℕ))
  get_properties_by_asset_type_id order_by tenant inherited type_id s = do
    type_ids ← inherited
    united_all type_id no_overlay (get_raw order_by tenant type_ids s)

  -- The rows that `getPropertiesByAssetId` loads; the filters are none where they are not given.
  abbrev pub passes : Option String → String → Bool
  passes none key = true
  passes (some wanted) key = str_eq key wanted

  abbrev pub passes_type : Option PropertyType → PropertyType → Bool
  passes_type none t = true
  passes_type (some wanted) t = same_type t wanted

  abbrev pub asked_for :
      String → List String → Option String → Option PropertyType → DefinitionEntity N → Bool
  asked_for tenant type_ids key value_type d =
      member d.asset_type_id type_ids
      && (passes key d.key && (passes_type value_type d.value_type && str_eq d.tenant_id tenant))

  -- The loop that adds the missing overwrites. What it pushes has no `asset` yet, only the id.
  unfoldable pub add_missing :
      (ℕ → String)
      → ℕ
      → String
      → String
      → List (DefinitionEntity N × List (ValueEntity V))
      → Store r
      → Store r × Result (List (DefinitionEntity N × List (ValueEntity V)))
  add_missing ids k tenant asset [] s = (s, ok [])
  add_missing ids k tenant asset ((d, vs) ∷ ds) s =
      let new = blank_overwrite (ids k) tenant asset d.id in
      let added =
        add_missing ids (suc k) tenant asset ds (set_values (values.insert new s.values) s) in
      let kept = add_missing ids k tenant asset ds s in
      if not (any (λ v. is_none v.asset_id) vs)
      then (s, err internal_error)
      else (if any (λ v. is_of_asset asset v.asset_id) vs
          then (kept.0, kept.1 >>= λ rest. ok ((d, vs) ∷ rest))
          else (
            added.0,
            added.1 >>= λ rest. ok ((d, vs ++ record new { asset_id = none } ∷ []) ∷ rest),
          ))

  abbrev pub united_rows :
      String
      → Store r × Result (List (DefinitionEntity N × List (ValueEntity V)))
      → Store r × Result (List (United V ℕ))
  united_rows type_id out = (out.0, out.1 >>= united_all type_id overlay)

  -- `asset_type` is the type of the asset, and `inherited` what it and the types that it extends are.
  unfoldable pub get_properties_by_asset_id :
      (ℕ → String)
      → String
      → String
      → Result String
      → (String → Result (List String))
      → Option String
      → Option PropertyType
      → Store r
      → Store r × Result (List (United V ℕ))
  get_properties_by_asset_id ids tenant asset asset_type inherited key value_type s =
      after s asset_type (λ type_id. after s (inherited type_id) (λ type_ids. united_rows type_id (
        add_missing ids 0 tenant asset
          (join (asked_for tenant type_ids key value_type) (value_for tenant asset)
            (all_definitions s) (all_values s))
          s)))
