-- ===== src/Overlay/Tests.antt =====
-- A property of an asset type, overwritten by one asset.
use elunic_myturck.Base.{◌≡◌, ◌≢◌, true, false, none, some, [], ◌∷◌, ◌++◌, String, ℕ, filter}
use elunic_myturck.Base.Results.{ok}
use elunic_myturck.Overlay.{ValueRow, Definition, United, overlay, united_property}
use elunic_myturck.Overlay.Sorting.{of_asset, of_definition}
use elunic_myturck.Overlay.Fields.{Latest, united_property-Latest}

abbrev of_type : ValueRow String ℕ
of_type = record {
  id = "v1";
  asset = none;
  value = some "red";
  position = some 3;
  is_hidden = some false;
  is_required = none;
}

abbrev of_pump : ValueRow String ℕ
of_pump = record {
  id = "v2";
  asset = some "pump";
  value = some "blue";
  position = none;
  is_hidden = some true;
  is_required = none;
}

abbrev colour : Definition String ℕ
colour = record { key = "colour"; asset_type_id = "machine"; values = of_pump ∷ of_type ∷ [] }

united_property-Latest_example :
    (u : United String ℕ) × (united_property colour "machine" overlay ≡ ok u)
    × Latest (filter of_definition colour.values ++ filter of_asset colour.values) u
united_property-Latest_example = united_property-Latest colour "machine" cons_ne
  where
    cons_ne : colour.values ≢ []
    cons_ne h = cc h
