-- ===== src/Properties.antt =====
-- Properties of asset types and assets: asset-manager-backend/src/asset-property/asset-property.service.ts.
-- A definition belongs to an asset type and has a value of its own; an asset may overwrite it by another row
-- of values. `V` is the type of values, `N` that of names. The types that an asset's type extends
-- are the answer of the asset type service (`AssetTypes`).
pub mod Service
use Prim.Native.Char.{code}
use Prim.Native.String.{String}
use elunic_myturck.Base.{
  ℕ, suc, Bool, true, false, not, Option, none, some, List, [], ◌∷◌, ◌++◌, find, filter, any, map,
  str_eq, leb, ◌==◌, ◌&&◌, ◌||◌, if◌then◌else◌,
}
use elunic_myturck.Base.Names.{member}
use elunic_myturck.Base.Repository.{Repository}
use elunic_myturck.Base.Results.{
  Result, ok, err, bad_request, not_found, conflict, internal_error, ◌>>=◌, ◌>>◌, guard,
}
use elunic_myturck.Substitution.{PropertyType, string, number, date, boolean, file}
use elunic_myturck.Overlay.{
  ValueRow, Definition, United, Mode, no_overlay, overlay, united_property,
}

abbrev pub same_type : PropertyType → PropertyType → Bool
same_type string string = true
same_type number number = true
same_type date date = true
same_type boolean boolean = true
same_type file file = true
same_type _ _ = false

-- `AssetPropertyDefinitionEntity` and `AssetPropertyValueEntity` as they are stored, without their dates
pub record DefinitionEntity (N : Type 0) : Type 0 where
  pub id : String
  pub tenant_id : String
  pub asset_type_id : String
  pub key : String
  pub name : N
  pub value_type : PropertyType

pub record ValueEntity (V : Type 0) : Type 0 where
  pub id : String
  pub tenant_id : String
  pub definition_id : String
  pub asset_id : Option String
  pub value : Option V
  pub position : Option ℕ
  pub is_hidden : Option Bool
  pub is_required : Option Bool

-- `santizePropertyKey`: without the flag `g`, only the first character that is not allowed is removed.
abbrev pub is_key_code : ℕ → Bool
is_key_code c =
    (leb 97 c && leb c 122)
    || ((leb 65 c && leb c 90) || ((leb 48 c && leb c 57) || (c == 45 || c == 95)))

-- The white space and line ends of `trim`.
abbrev pub is_space : ℕ → Bool
is_space c =
    (leb 9 c && leb c 13)
    || (c == 32
        || (c == 160
            || (c == 5760
                || ((leb 8192 c && leb c 8202)
                    || (c == 8232
                        || (c == 8233
                            || (c == 8239 || (c == 8287 || (c == 12288 || c == 65279)))))))))

abbrev pub remove_first_invalid : String → String
remove_first_invalid String.[] = String.[]
remove_first_invalid (String.◌∷◌ c s) =
    if is_key_code (code c) then String.◌∷◌ c (remove_first_invalid s) else s

abbrev pub trim_start : String → String
trim_start String.[] = String.[]
trim_start (String.◌∷◌ c s) = if is_space (code c) then trim_start s else String.◌∷◌ c s

abbrev pub is_blank : String → Bool
is_blank String.[] = true
is_blank (String.◌∷◌ c s) = is_space (code c) && is_blank s

abbrev pub trim_end : String → String
trim_end String.[] = String.[]
trim_end (String.◌∷◌ c s) =
    if is_space (code c) && is_blank s then String.[] else String.◌∷◌ c (trim_end s)

pub sanitize_property_key : String → String
sanitize_property_key key = trim_end (trim_start (remove_first_invalid key))

abbrev pub is_none {ℓ} : {A : Type ℓ} → Option A → Bool
is_none none = true
is_none (some a) = false

abbrev pub is_of_asset : String → Option String → Bool
is_of_asset id none = false
is_of_asset id (some a) = str_eq a id

module _ {V : Type 0} where
  abbrev pub to_value_row : ValueEntity V → ValueRow V ℕ
  to_value_row v = record {
    id = v.id;
    asset = v.asset_id;
    value = v.value;
    position = v.position;
    is_hidden = v.is_hidden;
    is_required = v.is_required;
  }

  -- The rows of `leftJoinAndSelect('props.values', 'val')` under conditions on both; a definition
  -- without such a value falls out, since the conditions are those of the whole query.
  abbrev pub values_of :
      (ValueEntity V → Bool) → List (ValueEntity V) → String → List (ValueEntity V)
  values_of q vs id = filter (λ v. str_eq v.definition_id id && q v) vs

  abbrev pub no_values : List (ValueEntity V) → Bool
  no_values [] = true
  no_values (v ∷ vs) = false

module _ {V N : Type 0} where
  unfoldable pub join :
      (DefinitionEntity N → Bool)
      → (ValueEntity V → Bool)
      → List (DefinitionEntity N)
      → List (ValueEntity V)
      → List (DefinitionEntity N × List (ValueEntity V))
  join p q [] vs = []
  join p q (d ∷ ds) vs =
      let rest = join p q ds vs in
      if p d && not (no_values (values_of q vs d.id)) then (d, values_of q vs d.id) ∷ rest else rest

  abbrev pub to_definition : DefinitionEntity N → List (ValueRow V ℕ) → Definition V ℕ
  to_definition d rows = record { key = d.key; asset_type_id = d.asset_type_id; values = rows }

-- The two repositories and their contents.
pub record Tables (V N : Type 0) : Type 1 where
  pub definitions : Repository (DefinitionEntity N)
  pub values : Repository (ValueEntity V)

pub record Store {V N : Type 0} (r : Tables V N) : Type 0 where
  pub definitions : r.definitions.Table
  pub values : r.values.Table
