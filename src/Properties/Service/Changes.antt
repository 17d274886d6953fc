-- ===== src/Properties/Service/Changes.antt =====
-- The operations of AssetPropertyService that create, change, move and delete properties.
pub mod Migrating
pub mod Writing
pub mod Copying
mod Tests
use elunic_myturck.Base.{
  ℕ, suc, Bool, true, false, not, Option, none, some, List, [], ◌∷◌, ◌++◌, find, filter, any, map,
  String, str_eq, ◌&&◌, if◌then◌else◌,
}
use elunic_myturck.Base.Names.{member}
use elunic_myturck.Base.Repository.{Repository}
use elunic_myturck.Base.Results.{
  Result, ok, err, bad_request, not_found, conflict, internal_error, ◌>>=◌, ◌>>◌, guard,
}
use elunic_myturck.Overlay.{United}
use elunic_myturck.Substitution.{PropertyType}
use elunic_myturck.Properties.{
  DefinitionEntity, ValueEntity, sanitize_property_key, is_of_asset, join, same_type, Tables, Store,
}
use elunic_myturck.Properties.Service.{
  after, CreateDto, PatchDto, OverwriteDto, or_old, or_old_text, if_set, first_or_not_found,
  all_definitions, all_values, set_values, of_type, own_value, get_property_by_asset_type_id,
  get_property_by_asset_id, get_raw,
}

module _ {V N : Type 0} (r : Tables V N) where
  open r use {definitions, values}

  -- What `createProperty` tests, with the type and the key that it goes on with. `asset_type` is the id
  -- that `getTypeByIdOrThrow` answers with.
  pub check_new : String → Result String → CreateDto V N → Store r → Result (String × String)
  check_new tenant asset_type dto s = do
    type_id ← asset_type
    let key = sanitize_property_key dto.key
    guard (not (str_eq key "")) bad_request
    guard (not (any (λ d. of_type r tenant type_id d && str_eq d.key key) (all_definitions r s)))
        conflict
    ok (type_id, key)

  abbrev pub add_property :
      String → String → String → String → String → CreateDto V N → Store r → Store r
  add_property new_definition new_value tenant type_id key dto s = record {
    definitions =
        definitions.insert
          (record {
            id = new_definition;
            tenant_id = tenant;
            asset_type_id = type_id;
            key = key;
            name = dto.name;
            value_type = dto.value_type;
          })
          s.definitions;
    values =
        values.insert
          (record {
            id = new_value;
            tenant_id = tenant;
            definition_id = new_definition;
            asset_id = none;
            value = dto.value;
            position = some dto.position;
            is_hidden = some dto.is_hidden;
            is_required = some dto.is_required;
          })
          s.values;
  }

  pub create_property :
      String
      → String
      → String
      → Result String
      → CreateDto V N
      → Store r
      → Store r × Result (United V ℕ)
  create_property new_definition new_value tenant asset_type dto s =
      after s (check_new tenant asset_type dto s) (λ t.
        let s' = add_property new_definition new_value tenant t.0 t.1 dto s in
        (s', get_property_by_asset_type_id r tenant t.0 new_value s'))

  -- `patchPropertyByIdAndAssetTypeId`; `is_truthy` is the test of a value.
  abbrev pub patch_definition : PatchDto V N → DefinitionEntity N → DefinitionEntity N
  patch_definition dto d = record d {
    name = or_old dto.name d.name;
    key = or_old_text dto.key d.key;
    value_type = or_old dto.value_type d.value_type;
  }

  abbrev pub truthy_value : (V → Bool) → Option V → Option V → Option V
  truthy_value is_truthy none old = old
  truthy_value is_truthy (some new) old = if is_truthy new then some new else old

  abbrev pub patch_value : (V → Bool) → PatchDto V N → ValueEntity V → ValueEntity V
  patch_value is_truthy dto v = record v {
    value = truthy_value is_truthy dto.value v.value;
    position = if_set dto.position v.position;
    is_hidden = if_set dto.is_hidden v.is_hidden;
    is_required = if_set dto.is_required v.is_required;
  }

  pub patch_by_asset_type :
      (V → Bool) → String → String → String → PatchDto V N → Store r → Store r × Result (United V ℕ)
  patch_by_asset_type is_truthy tenant id type_id dto s =
      after s
        (first_or_not_found (
          join (of_type r tenant type_id) (λ v. str_eq v.id id && str_eq v.tenant_id tenant)
            (all_definitions r s) (all_values r s)))
        (λ found.
          let s' : Store r = record {
            definitions =
                definitions.update (λ d. str_eq d.id found.0.id) (patch_definition dto)
                  s.definitions;
            values = values.update (λ v. str_eq v.id id) (patch_value is_truthy dto) s.values;
          } in
          (s', get_property_by_asset_type_id r tenant type_id id s'))

  -- `patchPropertyByIdAndAssetId`
  abbrev pub overwrite : OverwriteDto V → ValueEntity V → ValueEntity V
  overwrite dto v = record v {
    value = or_old dto.value v.value;
    position = or_old dto.position v.position;
    is_hidden = or_old dto.is_hidden v.is_hidden;
    is_required = or_old dto.is_required v.is_required;
  }

  abbrev pub is_value : String → String → String → ValueEntity V → Bool
  is_value tenant asset id v =
      str_eq v.id id && (str_eq v.tenant_id tenant && is_of_asset asset v.asset_id)

  unfoldable pub patch_by_asset :
      String → String → String → OverwriteDto V → Store r → Store r × Result (United V ℕ)
  patch_by_asset tenant id asset dto s =
      after s (first_or_not_found (filter (is_value tenant asset id) (all_values r s))) (λ v.
        let s' = set_values r (values.update (λ x. str_eq x.id id) (overwrite dto) s.values) s in
        (s', get_property_by_asset_id r tenant asset id s'))

  abbrev pub clear_dto : OverwriteDto V
  clear_dto = record {
    value = some none;
    position = some none;
    is_hidden = some none;
    is_required = some none;
  }

  abbrev pub requires : Option Bool → Bool
  requires none = false
  requires (some b) = b

  abbrev pub has_united_id : String → United V ℕ → Bool
  has_united_id id u = is_of_asset id u.id

  -- `deletePropertyOverwriteByIdAndAssetId`, from the store and the properties that
  -- `getPropertiesByAssetId` leaves.
  pub delete_overwrite :
      String → String → String → List (United V ℕ) → Store r → Store r × Result (United V ℕ)
  delete_overwrite tenant id asset properties s =
      after s
        (first_or_not_found (filter (has_united_id id) properties) >>= λ u.
          guard (not (requires u.is_required)) conflict)
        (λ _. patch_by_asset tenant id asset clear_dto s)

  -- `deletePropertyDefinitionByIdAndAssetTypeId`; the foreign key of the values cascades.
  pub delete_definition : String → String → String → Store r → Result (Store r)
  delete_definition tenant id type_id s = do
    found ← first_or_not_found (
        join (of_type r tenant type_id) (λ v. own_value r tenant v && str_eq v.id id)
          (all_definitions r s) (all_values r s))
    ok (record {
      definitions = definitions.delete (λ d. str_eq d.id found.0.id) s.definitions;
      values = values.delete (λ v. str_eq v.definition_id found.0.id) s.values;
    })

  -- `clonePropsForAssetId`
  abbrev pub of_asset : String → String → ValueEntity V → Bool
  of_asset tenant asset v = is_of_asset asset v.asset_id && str_eq v.tenant_id tenant

  unfoldable pub clone_rows :
      (ℕ → String) → ℕ → String → List (ValueEntity V) → values.Table → values.Table
  clone_rows ids k to [] t = t
  clone_rows ids k to (v ∷ vs) t =
      clone_rows ids (suc k) to vs (values.insert (record v { id = ids k; asset_id = some to }) t)

  unfoldable pub clone_properties : (ℕ → String) → String → String → String → Store r → Store r
  clone_properties ids tenant from to s =
      set_values r (clone_rows ids 0 to (filter (of_asset tenant from) (all_values r s)) s.values) s

  -- `migratePropsOnAssetTypeChangeForAsset`
  abbrev pub definition_of : Store r → ValueEntity V → List (DefinitionEntity N)
  definition_of s v = filter (λ d. str_eq d.id v.definition_id) (all_definitions r s)

  abbrev pub matches : Store r → DefinitionEntity N → ValueEntity V → Bool
  matches s d v =
      any (λ e. str_eq e.key d.key && same_type e.value_type d.value_type) (definition_of s v)

  abbrev pub taken_over : String → String → String → String → ValueEntity V → ValueEntity V
  taken_over id tenant asset definition v = record v {
    id = id;
    tenant_id = tenant;
    definition_id = definition;
    asset_id = some asset;
  }

  -- The rows that the loop over the properties of the new type saves.
  unfoldable pub taken_rows :
      Store r
      → (ℕ → String)
      → ℕ
      → String
      → String
      → List (ValueEntity V)
      → List (DefinitionEntity N × List (ValueEntity V))
      → values.Table
      → values.Table
  taken_rows s ids k tenant asset old [] t = t
  taken_rows s ids k tenant asset old ((d, _) ∷ ds) t = elim (find (matches s d) old) [
    | none ↦ taken_rows s ids (suc k) tenant asset old ds t
    | some v ↦
        taken_rows s ids (suc k) tenant asset old ds
          (values.insert (taken_over (ids k) tenant asset d.id v) t)
  ]

  unfoldable pub migrate_properties :
      (List (DefinitionEntity N × List (ValueEntity V))
        → List (DefinitionEntity N × List (ValueEntity V)))
      → (ℕ → String)
      → String
      → String
      → String
      → Store r
      → Store r
  migrate_properties order_by ids tenant asset new_type s =
      let old = filter (of_asset tenant asset) (all_values r s) in
      let kept =
        values.delete (λ v. member v.id (map (λ o. o.id) old) && str_eq v.tenant_id tenant)
          s.values in
      set_values r
        (taken_rows s ids 0 tenant asset old
          (get_raw r order_by tenant (new_type ∷ []) (set_values r kept s)) kept)
        s
