-- ===== src/Overlay/Fields.antt =====
-- Which row each field of a united property comes from.
use elunic_myturck.Base.{
  ◌≡◌, ◌≢◌, refl, true, List, [], ◌∷◌, ◌++◌, arith, filter, Option, none, some, String, ◌∙◌,
}
use elunic_myturck.Base.Results.{ok}
use elunic_myturck.Overlay.{
  ValueRow, Definition, United, FieldName, overlay, or_else, note, apply_row, apply_rows, blank,
  united_property,
}
use elunic_myturck.Overlay.Sorting.{of_asset, of_definition, sort_by_score-eq-partition}

or_else_assoc {κ} :
    {X : Type κ} (a b c : Option X) → or_else a (or_else b c) ≡ or_else (or_else a b) c
or_else_assoc none b c = refl
or_else_assoc (some x) b c = refl

or_else-none {κ} : {X : Type κ} (a : Option X) → or_else a none ≡ a
or_else-none none = refl
or_else-none (some x) = refl

module _ {ℓ} {V P : Type ℓ} where
  -- The last row that sets a field.
  abbrev pub latest {κ} : {X : Type κ} → (ValueRow V P → Option X) → List (ValueRow V P) → Option X
  latest field [] = none
  latest field (v ∷ vs) = or_else (latest field vs) (field v)

  pub record Latest (vs : List (ValueRow V P)) (u : United V P) : Type ℓ where
    pub value : u.value ≡ latest (λ v. v.value) vs
    pub position : u.position ≡ latest (λ v. v.position) vs
    pub is_hidden : u.is_hidden ≡ latest (λ v. v.is_hidden) vs
    pub is_required : u.is_required ≡ latest (λ v. v.is_required) vs

  apply_rows-value :
      (vs : List (ValueRow V P)) (u : United V P)
      → (apply_rows overlay u vs).value ≡ or_else (latest (λ v. v.value) vs) u.value
  unfolding apply_rows apply_row
  apply_rows-value [] u = refl
  apply_rows-value (v ∷ vs) u =
      apply_rows-value vs (apply_row u v) ∙ or_else_assoc _ v.value u.value

  apply_rows-position :
      (vs : List (ValueRow V P)) (u : United V P)
      → (apply_rows overlay u vs).position ≡ or_else (latest (λ v. v.position) vs) u.position
  unfolding apply_rows apply_row
  apply_rows-position [] u = refl
  apply_rows-position (v ∷ vs) u =
      apply_rows-position vs (apply_row u v) ∙ or_else_assoc _ v.position u.position

  apply_rows-is_hidden :
      (vs : List (ValueRow V P)) (u : United V P)
      → (apply_rows overlay u vs).is_hidden ≡ or_else (latest (λ v. v.is_hidden) vs) u.is_hidden
  unfolding apply_rows apply_row
  apply_rows-is_hidden [] u = refl
  apply_rows-is_hidden (v ∷ vs) u =
      apply_rows-is_hidden vs (apply_row u v) ∙ or_else_assoc _ v.is_hidden u.is_hidden

  apply_rows-is_required :
      (vs : List (ValueRow V P)) (u : United V P)
      → (apply_rows overlay u vs).is_required
        ≡ or_else (latest (λ v. v.is_required) vs) u.is_required
  unfolding apply_rows apply_row
  apply_rows-is_required [] u = refl
  apply_rows-is_required (v ∷ vs) u =
      apply_rows-is_required vs (apply_row u v) ∙ or_else_assoc _ v.is_required u.is_required

  -- With the overlay, for a property that has rows, each of the four fields is that of the last row that sets it, where the rows of
  -- the definition come before those of assets, whatever their order in the database.
  pub united_property-Latest :
      (prop : Definition V P) (origin : String)
      → prop.values ≢ []
      → (u : United V P) × (united_property prop origin overlay ≡ ok u)
        × Latest (filter of_definition prop.values ++ filter of_asset prop.values) u
  unfolding united_property
  united_property-Latest prop origin some_row =
      let vs = filter of_definition prop.values ++ filter of_asset prop.values in
      let sorted = sort_by_score-eq-partition prop.values in
      (
        apply_rows overlay (blank prop origin) vs,
        rw sorted (ground arith),
        record {
          value = apply_rows-value vs (blank prop origin) ∙ or_else-none _;
          position = apply_rows-position vs (blank prop origin) ∙ or_else-none _;
          is_hidden = apply_rows-is_hidden vs (blank prop origin) ∙ or_else-none _;
          is_required = apply_rows-is_required vs (blank prop origin) ∙ or_else-none _;
        },
      )

  -- The fields that a row sets.
  abbrev pub fields_set : ValueRow V P → List FieldName
  fields_set v =
      note true v.value FieldName.value
      ++ (note true v.position FieldName.position
          ++ (note true v.is_hidden FieldName.is_hidden
              ++ note true v.is_required FieldName.is_required))
