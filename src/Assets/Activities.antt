-- ===== src/Assets/Activities.antt =====
-- What is written to the activity log: activity-log/activity-log.service.ts, AssetAliasActivityCreator.ts and
-- AssetDocumentActivityCreator.ts of asset-manager-backend/src.
use elunic_myturck.Base.{
  Bool, false, not, Option, none, some, List, map, filter, any, String, str_eq, if◌then◌else◌,
}
use elunic_myturck.Assets.{
  AliasFields, DocumentFields, Related, NewRelated, ActivityEvent, collection_updated,
  ActivityValue, text, alias, document, Activity, Change, inserted, updated, AssetUser,
}

-- `value || null`: the empty text counts as null.
abbrev pub or_null_value : {N : Type 0} → Option (ActivityValue N) → Option (ActivityValue N)
or_null_value none = none
or_null_value (some (text t)) = if str_eq t "" then none else some (text t)
or_null_value (some v) = some v

abbrev pub or_null_text : Option String → Option String
or_null_text none = none
or_null_text (some t) = if str_eq t "" then none else some t

module _ {N : Type 0} where
  -- `ActivityLogService.create`: the entry that it inserts
  unfoldable pub create_activity :
      AssetUser
      → ActivityEvent
      → String
      → Option String
      → Option (ActivityValue N)
      → Option (ActivityValue N)
      → Option String
      → Activity N
  create_activity user event id field old new description = record {
    tenant_id = user.tenant_id;
    ref_id = id;
    event = event;
    field_key = or_null_text field;
    old_value = or_null_value old;
    new_value = or_null_value new;
    description = or_null_text description;
    created_by = user.id;
  }

  -- The entry of a subscriber, about the row that it is told of.
  abbrev pub collection_activity :
      {D : Type 0}
      → String
      → Related D
      → Option (ActivityValue N)
      → Option (ActivityValue N)
      → Activity N
  collection_activity field x old new = record {
    tenant_id = x.tenant_id;
    ref_id = x.asset_id;
    event = collection_updated;
    field_key = some field;
    old_value = old;
    new_value = new;
    description = none;
    created_by = x.created_by;
  }

  -- `cloneObjectAndFilter`: the id and the columns that a request gives.
  abbrev pub alias_value : Related AliasFields → ActivityValue N
  alias_value x = alias x.id x.fields

  abbrev pub document_value : Related DocumentFields → ActivityValue N
  document_value x = document x.id x.fields

  -- `afterInsert` and `beforeUpdate`; `field` and `show` are what the two subscribers differ in.
  abbrev pub on_change :
      {D : Type 0} → String → (Related D → ActivityValue N) → Change D → Activity N
  on_change field show (inserted x) = collection_activity field x none (some (show x))
  on_change field show (updated before after) =
      collection_activity field after (some (show before)) (some (show after))

  -- `beforeRemove`
  abbrev pub before_remove :
      {D : Type 0} → String → (Related D → ActivityValue N) → Related D → Activity N
  before_remove field show x = collection_activity field x (some (show x)) none

-- `createActivitiesForDeletedRelations`: the rows of the asset whose ids the new list does not have.
abbrev pub has_id : {D : Type 0} → String → NewRelated D → Bool
has_id id new = elim new.id [ none ↦ false | some i ↦ str_eq i id ]

unfoldable pub deleted_relations :
    {D : Type 0} → List (Related D) → List (NewRelated D) → List (Related D)
deleted_relations before after = filter (λ o. not (any (has_id o.id) after)) before

unfoldable pub activities_for_deleted :
    {D N : Type 0}
    → String
    → (Related D → ActivityValue N)
    → List (Related D)
    → List (NewRelated D)
    → List (Activity N)
activities_for_deleted field show before after =
    map (before_remove field show) (deleted_relations before after)
