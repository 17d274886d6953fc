-- ===== src/Overlay.antt =====
-- The overlay of property values:
-- asset-manager-backend/src/asset-property/dto/UnitedPropertyDto.ts. A property of an asset type has a
-- value row of its own, and an asset may overwrite it, field by field, by a second row.
pub mod Sorting
pub mod Fields
mod Tests
use elunic_myturck.Base.{
  ℕ, Bool, true, false, not, Option, none, some, List, [], ◌∷◌, ◌++◌, String, str_eq, ltb,
  if◌then◌else◌,
}
use elunic_myturck.Base.Results.{Result, ok, err, internal_error}

-- The columns of `AssetPropertyValueEntity` that are read; `V` and `P` are the types of a value and
-- of a position.
pub record ValueRow {ℓ} (V P : Type ℓ) : Type ℓ where
  pub id : String
  pub asset : Option String
  pub value : Option V
  pub position : Option P
  pub is_hidden : Option Bool
  pub is_required : Option Bool

-- `AssetPropertyDefinitionEntity`
pub record Definition {ℓ} (V P : Type ℓ) : Type ℓ where
  pub key : String
  pub asset_type_id : String
  pub values : List (ValueRow V P)

pub data Mode : Type 0 where
  no_overlay overlay : Mode

pub data FieldName : Type 0 where
  value position is_hidden is_required : FieldName

-- `UnitedPropertyDto`; a field that no row sets is undefined.
pub record United {ℓ} (V P : Type ℓ) : Type ℓ where
  pub id : Option String
  pub key : String
  pub value : Option V
  pub position : Option P
  pub is_hidden : Option Bool
  pub is_required : Option Bool
  pub is_overwritten : Bool
  pub fields_overwritten : List FieldName
  pub is_foreign_asset_type : Bool
  pub origin_asset_type : String

abbrev pub is_some {ℓ} : {X : Type ℓ} → Option X → Bool
is_some none = false
is_some (some x) = true

abbrev pub or_else {ℓ} : {X : Type ℓ} → Option X → Option X → Option X
or_else none old = old
or_else (some x) old = some x

-- `this.meta.fieldsOverwritten.push(…)` under its two tests
abbrev pub note {κ} : {X : Type κ} → Bool → Option X → FieldName → List FieldName
note overwriting none f = []
note overwriting (some x) f = if overwriting then f ∷ [] else []

module _ {ℓ} {V P : Type ℓ} where
  -- The scores of the comparison function.
  abbrev pub score : ValueRow V P → ℕ
  score v = if is_some v.asset then 0 else 100

  -- `values.sort((a, b) => score(b) - score(a))`: a stable sort, here by insertion.
  unfoldable pub insert_by_score : ValueRow V P → List (ValueRow V P) → List (ValueRow V P)
  insert_by_score v [] = v ∷ []
  insert_by_score v (w ∷ ws) =
      if ltb (score v) (score w) then w ∷ insert_by_score v ws else v ∷ w ∷ ws

  unfoldable pub sort_by_score : List (ValueRow V P) → List (ValueRow V P)
  sort_by_score [] = []
  sort_by_score (v ∷ vs) = insert_by_score v (sort_by_score vs)

  -- One pass of the loop over the values.
  unfoldable pub apply_row : United V P → ValueRow V P → United V P
  apply_row u v = record u {
    id = some v.id;
    value = or_else v.value u.value;
    position = or_else v.position u.position;
    is_hidden = or_else v.is_hidden u.is_hidden;
    is_required = or_else v.is_required u.is_required;
    is_overwritten = is_some v.asset;
    fields_overwritten =
        u.fields_overwritten
        ++ (note (is_some v.asset) v.value FieldName.value
            ++ (note (is_some v.asset) v.position FieldName.position
                ++ (note (is_some v.asset) v.is_hidden FieldName.is_hidden
                    ++ note (is_some v.asset) v.is_required FieldName.is_required)));
  }

  unfoldable pub apply_rows : Mode → United V P → List (ValueRow V P) → United V P
  apply_rows mode u [] = u
  apply_rows no_overlay u (v ∷ vs) = apply_row u v
  apply_rows overlay u (v ∷ vs) = apply_rows overlay (apply_row u v) vs

  abbrev pub blank : Definition V P → String → United V P
  blank prop origin = record {
    id = none;
    key = prop.key;
    value = none;
    position = none;
    is_hidden = none;
    is_required = none;
    is_overwritten = false;
    fields_overwritten = [];
    is_foreign_asset_type = not (str_eq origin prop.asset_type_id);
    origin_asset_type = prop.asset_type_id;
  }

  abbrev pub no_rows : List (ValueRow V P) → Bool
  no_rows [] = true
  no_rows (v ∷ vs) = false

  -- The constructor.
  unfoldable pub united_property : Definition V P → String → Mode → Result (United V P)
  united_property prop origin mode =
      if no_rows prop.values
      then err internal_error
      else ok (apply_rows mode (blank prop origin) (sort_by_score prop.values))
