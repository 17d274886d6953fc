-- ===== src/Assets/Service.antt =====
-- The operations of AssetService that change something, without creation and cloning. An operation in a
-- transaction is a function from the store to a result with a new store: where it throws, the store stays.
pub mod Fields
pub mod Updating
pub mod Keeping
pub mod Deleting
mod Tests
use elunic_myturck.Base.{
  ℕ, Bool, true, false, not, Option, none, some, List, [], ◌∷◌, ◌++◌, map, filter, String, str_eq,
  ◌&&◌, ◌||◌, if◌then◌else◌,
}
use elunic_myturck.Base.Results.{Result, ok, err, conflict, internal_error, ◌>>=◌, ◌>>◌, guard}
use elunic_myturck.Properties.{DefinitionEntity, ValueEntity}
use elunic_myturck.Properties.Service.Changes.{migrate_properties}
use elunic_myturck.Hierarchy.Service.{HierarchyEntity}
use elunic_myturck.Assets.{
  AssetEntity, AliasFields, DocumentFields, Related, RelatedDto, NewRelated, UpdateAssetDto,
  field_updated, asset_type_updated, soft_deleted, ActivityValue, text, name, Activity, Change,
  Saved, saved, duplicate_alias, failed, RelatedTable, AssetTables, AssetStore, AssetUser,
}
use elunic_myturck.Assets.Activities.{
  create_activity, alias_value, document_value, on_change, activities_for_deleted,
}
use elunic_myturck.Assets.Reading.{get_asset_by_id}

-- `SIMPLE_PROPS`
pub data SimpleProp : Type 0 where
  description_prop image_id_prop name_prop : SimpleProp

abbrev pub simple_props : List SimpleProp
simple_props = description_prop ∷ image_id_prop ∷ name_prop ∷ []

abbrev pub prop_key : SimpleProp → String
prop_key description_prop = "description"
prop_key image_id_prop = "imageId"
prop_key name_prop = "name"

-- `isEqual` of two texts or nulls
abbrev pub same_text : Option String → Option String → Bool
same_text none none = true
same_text (some a) (some b) = str_eq a b
same_text _ _ = false

-- `has(update, prop) && !isEqual(get(asset, prop), get(update, prop))`
abbrev pub differs_text : Option (Option String) → Option String → Bool
differs_text none old = false
differs_text (some new) old = not (same_text old new)

abbrev pub text_value : {N : Type 0} → Option String → Option (ActivityValue N)
text_value none = none
text_value (some t) = some (text t)

abbrev pub given_value : {N : Type 0} → Option (Option String) → Option (ActivityValue N)
given_value none = none
given_value (some t) = text_value t

abbrev pub given_text : Option (Option String) → Option String → Option String
given_text none old = old
given_text (some new) old = new

abbrev pub truthy_text : Option String → Option String
truthy_text none = none
truthy_text (some t) = if str_eq t "" then none else some t

module _ {N : Type 0} (same_name : N → N → Bool) where
  abbrev pub differs_name : Option N → N → Bool
  differs_name none old = false
  differs_name (some new) old = not (same_name old new)

  abbrev pub given_name : Option N → Option (ActivityValue N)
  given_name none = none
  given_name (some new) = some (name new)

  abbrev pub or_name : Option N → N → N
  or_name none old = old
  or_name (some new) old = new

  abbrev pub differs : UpdateAssetDto N → AssetEntity N → SimpleProp → Bool
  differs u a description_prop = differs_text u.description a.description
  differs u a image_id_prop = differs_text u.image_id a.image_id
  differs u a name_prop = differs_name u.name a.name

  -- `get(asset, prop)` and `get(update, prop)`
  abbrev pub old_value : AssetEntity N → SimpleProp → Option (ActivityValue N)
  old_value a description_prop = text_value a.description
  old_value a image_id_prop = text_value a.image_id
  old_value a name_prop = some (name a.name)

  abbrev pub new_value : UpdateAssetDto N → SimpleProp → Option (ActivityValue N)
  new_value u description_prop = given_value u.description
  new_value u image_id_prop = given_value u.image_id
  new_value u name_prop = given_name u.name

  abbrev pub set_prop : UpdateAssetDto N → AssetEntity N → SimpleProp → AssetEntity N
  set_prop u a description_prop = record a { description = given_text u.description a.description }
  set_prop u a image_id_prop = record a { image_id = given_text u.image_id a.image_id }
  set_prop u a name_prop = record a { name = or_name u.name a.name }

  -- The loop over the simple properties: the asset and what was logged.
  unfoldable pub update_simple :
      AssetUser
      → UpdateAssetDto N
      → List SimpleProp
      → AssetEntity N
      → AssetEntity N × List (Activity N)
  update_simple user u [] a = (a, [])
  update_simple user u (p ∷ ps) a =
      let changed = update_simple user u ps (set_prop u a p) in
      let unchanged = update_simple user u ps a in
      if differs u a p
      then (
        changed.0,
        create_activity user field_updated a.id (some (prop_key p)) (old_value a p) (new_value u p)
              none
            ∷ changed.1,
      )
      else unchanged

-- What the operations call of the services beside this one, and of lodash: equality of names, `getTypeByIdOrThrow`
-- and `getInheritedAssetTypeIds` for a tenant, the order of the query for the properties of a type, and
-- `cloneFileByIdOrFail`.
pub record Calls (V N : Type 0) : Type 0 where
  pub same_name : N → N → Bool
  pub find_type : String → String → Result String
  pub inherited : String → String → Result (List String)
  -- Whether the type of an asset is loaded with it, which leaves out soft-deleted types.
  pub has_type : String → Bool
  pub order_by :
      List (DefinitionEntity N × List (ValueEntity V))
      → List (DefinitionEntity N × List (ValueEntity V))
  pub clone_file : String → Result String

-- `repo.create(dto.map(x => ({ ...x, … })))`
abbrev pub to_related : {D : Type 0} → AssetUser → String → RelatedDto D → NewRelated D
to_related user asset x = record {
  id = x.id;
  tenant_id = user.tenant_id;
  asset_id = asset;
  created_by = user.id;
  fields = x.fields;
}

abbrev pub related :
    {D : Type 0} → AssetUser → String → Option (List (RelatedDto D)) → Option (List (NewRelated D))
related user asset none = none
related user asset (some xs) = some (map (to_related user asset) xs)

-- Saving one of the relations with the asset; where it was not set, nothing is saved.
abbrev pub save_related :
    {D : Type 0} (t : RelatedTable D)
    → String
    → Option (List (NewRelated D))
    → t.Table
    → Saved (t.Table × List (Change D))
save_related t asset none x = saved (x, [])
save_related t asset (some new) x = t.save asset new x

-- `handleAssetUpdateExceptions`: what the caller gets to see of an error.
abbrev pub handle_exceptions {ℓ} : {A : Type ℓ} → Saved A → Result A
handle_exceptions (saved a) = ok a
handle_exceptions duplicate_alias = err conflict
handle_exceptions failed = err internal_error

abbrev pub of_asset : {D : Type 0} → String → Related D → Bool
of_asset asset x = str_eq x.asset_id asset

abbrev pub deleted_activities :
    {D N : Type 0}
    → String
    → (Related D → ActivityValue N)
    → List (Related D)
    → Option (List (NewRelated D))
    → List (Activity N)
deleted_activities field show before none = []
deleted_activities field show before (some after) = activities_for_deleted field show before after

module _ {V N : Type 0} (r : AssetTables V N) (c : Calls V N) where
  abbrev pub all_assets : AssetStore r → List (AssetEntity N)
  all_assets s = r.assets.rows s.assets

  abbrev pub log : List (Activity N) → AssetStore r → AssetStore r
  log entries s = record s { activities = s.activities ++ entries }

  -- `assetRepo.save(asset)` of a stored asset, with its relations; the subscribers log what they are told.
  unfoldable pub save_asset :
      AssetEntity N
      → Option (List (NewRelated DocumentFields))
      → Option (List (NewRelated AliasFields))
      → AssetStore r
      → Result (AssetStore r)
  save_asset a documents aliases s = do
    d ← handle_exceptions (save_related r.documents a.id documents s.documents)
    x ← handle_exceptions (save_related r.aliases a.id aliases s.aliases)
    ok (record s {
      assets = r.assets.update (λ b. str_eq b.id a.id) (λ _. a) s.assets;
      documents = d.0;
      aliases = x.0;
      activities =
          s.activities
          ++ (map (on_change "documents" document_value) d.1
              ++ map (on_change "aliases" alias_value) x.1);
    })

  -- The change of the asset type: the asset and the store with the properties migrated.
  abbrev pub retyped :
      (ℕ → String)
      → AssetUser
      → String
      → AssetEntity N
      → AssetStore r
      → String
      → AssetEntity N × AssetStore r
  retyped ids user type_id a s new_type = (
    record a { asset_type_id = new_type },
    record s {
      properties =
          migrate_properties r.properties c.order_by ids user.tenant_id a.id new_type s.properties;
      activities =
          s.activities
          ++ create_activity user asset_type_updated a.id (some "assetType")
              (some (text a.asset_type_id)) (some (text type_id)) none
            ∷ [];
    },
  )

  unfoldable pub update_type :
      (ℕ → String)
      → AssetUser
      → Option String
      → AssetEntity N
      → AssetStore r
      → Result (AssetEntity N × AssetStore r)
  update_type ids user none a s = ok (a, s)
  update_type ids user (some type_id) a s = do
    guard (c.has_type a.asset_type_id) internal_error
    if str_eq a.asset_type_id type_id
        then ok (a, s)
        else (c.find_type user.tenant_id type_id >>= λ new_type.
            ok (retyped ids user type_id a s new_type))

  -- `updateAssetByIdUnite`; `ids` are those of the values of properties that may be created.
  unfoldable pub update_asset :
      (ℕ → String) → AssetUser → String → UpdateAssetDto N → AssetStore r → Result (AssetStore r)
  update_asset ids user id u s = do
    a ← get_asset_by_id user.tenant_id id (all_assets s)
    let changed = update_simple c.same_name user u simple_props a
    t ← update_type ids user (truthy_text u.asset_type) changed.0 (log changed.1 s)
    let documents = related user id u.documents
    let aliases = related user id u.aliases
    let deleted =
        deleted_activities "documents" document_value
          (filter (of_asset id) (r.documents.rows s.documents)) documents
        ++ deleted_activities "aliases" alias_value
            (filter (of_asset id) (r.aliases.rows s.aliases)) aliases
    save_asset t.0 documents aliases (log deleted t.1)

  pub update_asset_by_id :
      (ℕ → String)
      → AssetUser
      → String
      → UpdateAssetDto N
      → AssetStore r
      → Result (AssetEntity N × AssetStore r)
  update_asset_by_id ids user id u s = do
    s' ← update_asset ids user id u s
    a ← get_asset_by_id user.tenant_id id (all_assets s')
    ok (a, s')

  -- `softDeleteById`; `below` tells which rows the foreign key of the hierarchy deletes together with others.
  abbrev pub hierarchy_row : String → String → HierarchyEntity → Bool
  hierarchy_row tenant id h = str_eq h.id id && str_eq h.tenant_id tenant

  pub soft_delete_by_id :
      (List HierarchyEntity → HierarchyEntity → Bool)
      → AssetUser
      → String
      → AssetStore r
      → Result (AssetStore r)
  soft_delete_by_id below user id s = do
    a ← get_asset_by_id user.tenant_id id (all_assets s)
    ok (record s {
      assets =
          r.assets.update (λ b. str_eq b.id id && str_eq b.tenant_id user.tenant_id)
            (λ b. record b { is_deleted = true }) s.assets;
      hierarchy =
          r.hierarchy.delete
            (λ h.
              hierarchy_row user.tenant_id id h
              || below (filter (hierarchy_row user.tenant_id id) (r.hierarchy.rows s.hierarchy)) h)
            s.hierarchy;
      activities = s.activities ++ create_activity user soft_deleted id none none none none ∷ [];
    })
