-- ===== src/Assets/Creation.antt =====
-- Creating and cloning assets: createAssetUnite, createAssetHandleRequiredFields and cloneAssetById of
-- asset-manager-backend/src/asset/asset.service.ts.
pub mod Required
pub mod Cloning
mod Tests
use elunic_myturck.Base.{
  ℕ, Bool, true, false, not, Option, none, some, List, [], ◌∷◌, filter, String, str_eq,
  if◌then◌else◌,
}
use elunic_myturck.Base.Results.{Result, ok, err, bad_request, internal_error, ◌>>=◌, ◌>>◌, guard}
use elunic_myturck.Overlay.{United, is_some}
use elunic_myturck.Properties
use elunic_myturck.Properties.Service.{OverwriteDto, get_properties_by_asset_id}
use elunic_myturck.Properties.Service.Changes.{patch_by_asset, clone_properties}
use elunic_myturck.Assets.{
  AssetEntity, CreateAssetDto, UpdateAssetDto, created, simple, AssetTables, AssetStore, AssetUser,
}
use elunic_myturck.Assets.Activities.{create_activity}
use elunic_myturck.Assets.Reading.{get_asset_by_id, get_type_id_by_asset_id}
use elunic_myturck.Assets.Service.{
  Calls, related, all_assets, log, save_asset, update_asset, truthy_text, given_text,
}

abbrev pub or_empty : Option String → String
or_empty none = ""
or_empty (some t) = t

abbrev pub is_true : Option Bool → Bool
is_true none = false
is_true (some b) = b

module _ {V : Type 0} where
  -- `has(providedProps, key)` and `providedProps[key]`
  abbrev pub provided : String → List (String × V) → Option V
  provided key [] = none
  provided key ((k, v) ∷ ps) = if str_eq k key then some v else provided key ps

  abbrev pub is_missing : List (String × V) → United V ℕ → Bool
  is_missing ps u = not (is_some (provided u.key ps))

  abbrev pub is_required : United V ℕ → Bool
  is_required u = is_true u.is_required

  abbrev pub no_missing : List (United V ℕ) → Bool
  no_missing [] = true
  no_missing (u ∷ us) = false

  -- `forCreate[key] = { value, prop }`: an entry of this key stays where it is.
  abbrev pub put_entry :
      String → V × String → List (String × (V × String)) → List (String × (V × String))
  put_entry key e [] = (key, e) ∷ []
  put_entry key e ((k, old) ∷ es) =
      if str_eq k key then (k, e) ∷ es else (k, old) ∷ put_entry key e es

  abbrev pub put_provided :
      United V ℕ → Option V → List (String × (V × String)) → List (String × (V × String))
  put_provided u none es = es
  put_provided u (some v) es = put_entry u.key (v, or_empty u.id) es

  -- The loop over the required properties, as far as it fills `forCreate`.
  pub for_create :
      List (String × V)
      → List (United V ℕ)
      → List (String × (V × String))
      → List (String × (V × String))
  for_create ps [] es = es
  for_create ps (u ∷ us) es = for_create ps us (put_provided u (provided u.key ps) es)

  abbrev pub value_dto : V → OverwriteDto V
  value_dto v = record {
    value = some (some v);
    position = none;
    is_hidden = none;
    is_required = none;
  }

module _ {V N : Type 0} (r : AssetTables V N) (c : Calls V N) where
  -- The loop that writes the values. Keys that read as array indices come first in JavaScript; each write is to the
  -- row of its own property.
  pub write_required :
      String
      → String
      → List (String × (V × String))
      → Properties.Store r.properties
      → Result (Properties.Store r.properties)
  write_required tenant asset [] s = ok s
  write_required tenant asset ((key, (v, id)) ∷ es) s = do
    _ ← (patch_by_asset r.properties tenant id asset (value_dto v) s).1
    write_required tenant asset es (patch_by_asset r.properties tenant id asset (value_dto v) s).0

  -- The properties of an asset that is stored, with the overwrites that were missing.
  abbrev pub properties_of :
      (ℕ → String)
      → String
      → String
      → AssetStore r
      → Properties.Store r.properties × Result (List (United V ℕ))
  properties_of ids tenant asset s =
      get_properties_by_asset_id r.properties ids tenant asset
        (get_type_id_by_asset_id (c.find_type tenant) tenant asset (all_assets r c s))
        (c.inherited tenant) none none s.properties

  -- `createAssetHandleRequiredFields`
  pub handle_required_fields :
      (ℕ → String) → String → String → List (String × V) → AssetStore r → Result (AssetStore r)
  handle_required_fields ids tenant asset given s = do
    props ← (properties_of ids tenant asset s).1
    guard (no_missing (filter (is_missing given) (filter is_required props))) bad_request
    written ←
        write_required tenant asset (for_create given (filter is_required props) [])
          (properties_of ids tenant asset s).0
    ok (record s { properties = written })

  abbrev pub new_asset : String → AssetUser → String → CreateAssetDto V N → AssetEntity N
  new_asset id user type_id dto = record {
    id = id;
    tenant_id = user.tenant_id;
    name = dto.name;
    description = given_text dto.description none;
    image_id = given_text dto.image_id none;
    asset_type_id = type_id;
    is_deleted = false;
  }

  -- `createAssetUnite`; `new_id` is the id that the database generates.
  pub create_asset :
      String
      → (ℕ → String)
      → AssetUser
      → CreateAssetDto V N
      → AssetStore r
      → Result (AssetEntity N × AssetStore r)
  create_asset new_id ids user dto s = do
    type_id ← c.find_type user.tenant_id (or_empty (truthy_text dto.asset_type))
    let a = new_asset new_id user type_id dto
    let stored : AssetStore r = record s { assets = r.assets.insert a s.assets }
    let created_entry =
        create_activity user created new_id none none
          (some (simple (some dto.name) dto.description dto.image_id)) none
    s' ←
        save_asset r c a (related user new_id dto.documents) (related user new_id dto.aliases)
          (log r c (created_entry ∷ []) stored)
    s'' ← handle_required_fields ids user.tenant_id new_id dto.required_properties s'
    a' ← get_asset_by_id user.tenant_id new_id (all_assets r c s'')
    ok (a', s'')

  -- The image of the clone: where it cannot be cloned, there is none.
  abbrev pub or_none : Result String → Option String
  or_none (ok id) = some id
  or_none (err e) = none

  abbrev pub clone_image : Option String → Option String
  clone_image none = none
  clone_image (some id) = if str_eq id "" then none else or_none (c.clone_file id)

  abbrev pub cloned_asset : String → AssetEntity N → AssetEntity N
  cloned_asset new_id a = record a { id = new_id; image_id = clone_image a.image_id }

  -- `cloneAssetById`
  pub clone_asset :
      String
      → (ℕ → String)
      → (ℕ → String)
      → AssetUser
      → String
      → UpdateAssetDto N
      → AssetStore r
      → Result (AssetEntity N × AssetStore r)
  clone_asset new_id ids clone_ids user id u s = do
    a ← get_asset_by_id user.tenant_id id (all_assets r c s)
    guard (c.has_type a.asset_type_id) internal_error
    let stored : AssetStore r = record s {
      assets = r.assets.insert (cloned_asset new_id a) s.assets;
    }
    s' ← update_asset r c ids user new_id u stored
    _ ← get_asset_by_id user.tenant_id new_id (all_assets r c s')
    let copied : AssetStore r = record s' {
      properties = clone_properties r.properties clone_ids user.tenant_id id new_id s'.properties;
    }
    let entry =
        create_activity user created new_id none none
          (some (simple u.name u.description u.image_id)) (some "CLONED")
    let s'' = log r c (entry ∷ []) copied
    a' ← get_asset_by_id user.tenant_id new_id (all_assets r c s'')
    ok (a', s'')
