-- ===== src/Assets.antt =====
-- Assets: asset-manager-backend/src/asset/asset.service.ts, its entities and requests, and what the subscribers
-- of activity-log/ write about aliases and documents. `N` is the type of names, `V` that of property values.
pub mod Reading
pub mod Activities
pub mod Service
pub mod Creation
pub mod Transforming
pub mod Samples
use elunic_myturck.Base.{
  Bool, true, false, not, Option, none, some, List, [], ◌∷◌, ◌++◌, map, filter, String, str_eq,
  ◌&&◌, if◌then◌else◌,
}
use elunic_myturck.Base.Repository.{Repository}
use elunic_myturck.Base.Results.{Result, ok, err, conflict, internal_error}
use elunic_myturck.Hierarchy.Service.{HierarchyEntity}
use elunic_myturck.Properties
use elunic_myturck.Properties.{Tables}

-- `AssetEntity`, without its image map and its dates; its relations are tables of their own.
pub record AssetEntity (N : Type 0) : Type 0 where
  pub id : String
  pub tenant_id : String
  pub name : N
  pub description : Option String
  pub image_id : Option String
  pub asset_type_id : String
  pub is_deleted : Bool

-- The columns of `AssetAliasEntity` and of `AssetDocumentEntity` that a request gives.
pub record AliasFields : Type 0 where
  pub alias : String
  pub type : String
  pub description : Option String

pub record DocumentFields : Type 0 where
  pub document_id : String
  pub document_type : Option String
  pub description : Option String

-- A row of one of the two tables, and what `create` makes of a part of a request, where the id may be left out.
pub record Related (D : Type 0) : Type 0 where
  pub id : String
  pub tenant_id : String
  pub asset_id : String
  pub created_by : String
  pub fields : D

pub record RelatedDto (D : Type 0) : Type 0 where
  pub id : Option String
  pub fields : D

pub record NewRelated (D : Type 0) : Type 0 where
  pub id : Option String
  pub tenant_id : String
  pub asset_id : String
  pub created_by : String
  pub fields : D

-- `CreateAssetDtoRequest` and `UpdateAssetDtoRequest`: a field is none where the request does not have it. The
-- asset type is an id, or the id in an object.
pub record UpdateAssetDto (N : Type 0) : Type 0 where
  pub description : Option (Option String)
  pub image_id : Option (Option String)
  pub name : Option N
  pub asset_type : Option String
  pub aliases : Option (List (RelatedDto AliasFields))
  pub documents : Option (List (RelatedDto DocumentFields))

pub record CreateAssetDto (V N : Type 0) : Type 0 where
  pub description : Option (Option String)
  pub image_id : Option (Option String)
  pub name : N
  pub asset_type : Option String
  pub aliases : Option (List (RelatedDto AliasFields))
  pub documents : Option (List (RelatedDto DocumentFields))
  pub required_properties : List (String × V)

-- `ActivityEventType`, as far as assets use it
pub data ActivityEvent : Type 0 where
  created field_updated collection_updated asset_type_updated soft_deleted : ActivityEvent

-- `ActivityValueType`
pub data ActivityValue (N : Type 0) : Type 0 where
  text : String → ActivityValue N
  name : N → ActivityValue N
  simple : (name : Option N) (description image_id : Option (Option String)) → ActivityValue N
  alias : (id : String) (fields : AliasFields) → ActivityValue N
  document : (id : String) (fields : DocumentFields) → ActivityValue N

-- `ActivityLogEntity`; the type of the object is always ASSET here.
pub record Activity (N : Type 0) : Type 0 where
  pub tenant_id : String
  pub ref_id : String
  pub event : ActivityEvent
  pub field_key : Option String
  pub old_value : Option (ActivityValue N)
  pub new_value : Option (ActivityValue N)
  pub description : Option String
  pub created_by : String

-- What TypeORM tells the subscribers of a table while it saves.
pub data Change (D : Type 0) : Type 0 where
  inserted : Related D → Change D
  updated : (before after : Related D) → Change D

-- How a save ends: an error of the database says whether it is about a duplicate entry of the aliases.
pub data Saved {ℓ} (A : Type ℓ) : Type ℓ where
  saved : A → Saved A
  duplicate_alias : Saved A
  failed : Saved A

-- A table of relations. Saving an asset with a list of them inserts, updates and removes rows; TypeORM decides
-- which, so the save is an argument of the model.
pub record RelatedTable (D : Type 0) : Type 1 where
  pub Table : Type 0
  pub rows : Table → List (Related D)
  pub save : String → List (NewRelated D) → Table → Saved (Table × List (Change D))

pub record AssetTables (V N : Type 0) : Type 1 where
  pub assets : Repository (AssetEntity N)
  pub hierarchy : Repository HierarchyEntity
  pub aliases : RelatedTable AliasFields
  pub documents : RelatedTable DocumentFields
  pub properties : Tables V N

pub record AssetStore {V N : Type 0} (r : AssetTables V N) : Type 0 where
  pub assets : r.assets.Table
  pub hierarchy : r.hierarchy.Table
  pub aliases : r.aliases.Table
  pub documents : r.documents.Table
  pub properties : Properties.Store r.properties
  pub activities : List (Activity N)

-- `AuthInfo`
pub record AssetUser : Type 0 where
  pub id : String
  pub tenant_id : String
