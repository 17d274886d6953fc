-- ===== src/AssetTypes/Tests.antt =====
-- A tenant with two asset types, and the theorems at it.
use elunic_myturck.Base.{◌≡◌, ◌≢◌, refl, true, false, none, some, [], ◌∷◌, String}
use elunic_myturck.Base.Repository.{Repository, list_repository}
use elunic_myturck.Base.Results.{ok, err, out_of_fuel}
use elunic_myturck.Hierarchy.{
  check, run, build_tree, visit_all, visit, to_tree_nodes, asset_of, set_children,
  count_nodes_in_tree,
}
use elunic_myturck.AssetTypes.{
  AssetType, TypeDto, parent_of, inherited_loop, TypeState, get_type_by_id, get_inherited_type_ids,
  check_for_loops, create_asset_type, update_asset_type, soft_delete_by_id, is_built_in_by_id,
  ensure_default_types,
}
use elunic_myturck.AssetTypes.Updates.{Inherits, update_asset_type-Inherits}
use elunic_myturck.AssetTypes.Deletion.{create_asset_type-soft_delete_by_id}

abbrev table : Repository (AssetType String)
table = list_repository (AssetType String)

abbrev pump : AssetType String
pump = record {
  id = "a";
  tenant_id = "t";
  is_built_in = true;
  extends_type = none;
  is_deleted = false;
  fields = "pump";
}

abbrev small_pump : AssetType String
small_pump = record {
  id = "b";
  tenant_id = "t";
  is_built_in = false;
  extends_type = some "a";
  is_deleted = false;
  fields = "small pump";
}

abbrev valve : AssetType String
valve = record {
  id = "c";
  tenant_id = "t";
  is_built_in = false;
  extends_type = none;
  is_deleted = false;
  fields = "valve";
}

abbrev state : TypeState table
state = record { table = pump ∷ small_pump ∷ []; cache = [] }

abbrev with_valve : TypeState table
with_valve = record { table = pump ∷ small_pump ∷ valve ∷ []; cache = (("t", "c"), "c" ∷ []) ∷ [] }

abbrev dto : TypeDto String
dto = record { set_fields = λ x. "valve"; has_equipment = false; extends_type = none }

abbrev under_b : TypeDto String
under_b = record { set_fields = λ x. x; has_equipment = false; extends_type = some "b" }

abbrev moved : TypeState table
moved = record {
  table = pump ∷ small_pump ∷ record valve { extends_type = some "b" } ∷ [];
  cache = [];
}

abbrev gone : TypeState table
gone = record { table = record pump { is_deleted = true } ∷ small_pump ∷ []; cache = [] }

creates :
    create_asset_type table "c" "t" "" dto state
    ≡ ok (valve, record state { table = pump ∷ small_pump ∷ valve ∷ [] })
unfolding create_asset_type get_type_by_id check_for_loops check run build_tree visit_all visit
    to_tree_nodes asset_of set_children count_nodes_in_tree
creates = refl

inherits :
    get_inherited_type_ids table 9 "t" "c" moved
    ≡ ok ("c" ∷ "b" ∷ "a" ∷ [], record moved { cache = (("t", "c"), "c" ∷ "b" ∷ "a" ∷ []) ∷ [] })
unfolding get_inherited_type_ids inherited_loop parent_of
inherits = refl

-- Without the check, a loop would make the lookup run for ever.
loops :
    inherited_loop 50 (record pump { extends_type = some "b" } ∷ small_pump ∷ []) ("a" ∷ []) []
    ≡ err out_of_fuel
unfolding inherited_loop parent_of
loops = refl

update_asset_type-Inherits_example : Inherits table moved "t" "c"
unfolding update_asset_type get_type_by_id check_for_loops check run build_tree visit_all visit
    to_tree_nodes asset_of set_children count_nodes_in_tree
update_asset_type-Inherits_example =
    update_asset_type-Inherits table "t" "c" under_b with_valve refl refl refl "c" refl refl

generic :
    (ensure_default_types table "g" "u" "generic" state).table
    ≡ pump
      ∷ small_pump
      ∷ record {
        id = "g";
        tenant_id = "u";
        is_built_in = true;
        extends_type = none;
        is_deleted = false;
        fields = "generic";
      }
      ∷ []
unfolding ensure_default_types
generic = refl

create_asset_type-soft_delete_by_id_example :
    create_asset_type table "c" "t" "" dto gone ≢ ok (valve, gone)
unfolding soft_delete_by_id get_type_by_id
create_asset_type-soft_delete_by_id_example =
    create_asset_type-soft_delete_by_id table "t" "a" "b" state small_pump refl refl refl refl "c"
      refl refl "" dto (valve, gone)

is_built_in_test : is_built_in_by_id table "t" "a" state ≡ ok true
unfolding is_built_in_by_id get_type_by_id
is_built_in_test = refl
