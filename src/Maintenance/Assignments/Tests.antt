-- ===== src/Maintenance/Assignments/Tests.antt =====
-- Taking the assignment of the sample tenant out of use and back.
use elunic_myturck.Base.{◌+◌, ◌≡◌, refl, true, false, none, some, [], ◌∷◌}
use elunic_myturck.Base.Results.{ok, err, bad_request, entity_not_found}
use elunic_myturck.Maintenance.{Store, Assignment, days}
use elunic_myturck.Maintenance.Samples.{hour_clock, tables, due_execution, store, user, at_110}
use elunic_myturck.Maintenance.Cascades.{delete_assignments}
use elunic_myturck.Maintenance.Executions.{
  schedule_next_execution, add_execution, procedure_of, execution_state, is_due_soon, is_over_due,
}
use elunic_myturck.Maintenance.Executions.Latest.{latest_count}
use elunic_myturck.Maintenance.Assignments.{
  set_active, get_current_procedure, get_many, get_one, delete, deactivate, activate, create,
  reactivate, create_or_activate,
}
use elunic_myturck.Maintenance.Assignments.Activation.{create_or_activate_inactive}

abbrev pump_x : Assignment hour_clock
pump_x = record { id = "a"; tenant_id = "t"; asset_id = "x"; procedure_id = "p"; active = true }

abbrev idle : Store hour_clock tables
idle = record store { assignments = set_active hour_clock false pump_x ∷ [] }

deactivates : deactivate hour_clock tables user "x" "p" store ≡ ok idle
unfolding deactivate get_one get_current_procedure
deactivates = refl

get_many_test : get_many hour_clock tables user (some "p") none store ≡ ok (pump_x ∷ [])
unfolding get_many get_current_procedure
get_many_test = refl

get_many_inactive_test : get_many hour_clock tables user none (some "x") idle ≡ ok []
unfolding get_many get_current_procedure
get_many_inactive_test = refl

-- The executions of an assignment go with it, and their results.
delete_test :
    delete hour_clock tables user "x" "p" store
    ≡ ok (record store { assignments = []; executions = []; results = [] })
unfolding delete delete_assignments
delete_test = refl

-- An assignment that is active is not activated again.
refuses :
    create_or_activate hour_clock tables at_110 user "b" "x" (err entity_not_found) "p" store
    ≡ err bad_request
unfolding create_or_activate reactivate activate get_one get_current_procedure
refuses = refl

-- Another asset of the right type is assigned, and its first execution is scheduled.
creates :
    create_or_activate hour_clock tables at_110 user "b" "y"
      (ok (record { id = "y"; asset_type_id = "pump" }))
      "p"
      store
    ≡ ok (
      record pump_x { id = "b"; asset_id = "y" },
      record store {
        assignments = pump_x ∷ record pump_x { id = "b"; asset_id = "y" } ∷ [];
        executions =
            due_execution
            ∷ record due_execution { id = "e2"; assignment_id = "b"; due_date = 158 }
            ∷ [];
      },
    )
unfolding create_or_activate create get_one get_current_procedure schedule_next_execution
    add_execution procedure_of execution_state is_due_soon is_over_due
creates = refl

create_or_activate_inactive_example :
    (s' : Store hour_clock tables) × (create_or_activate hour_clock tables at_110 user "b" "x"
        (err entity_not_found)
        "p"
        idle
      ≡ ok (pump_x, s'))
    × (latest_count hour_clock tables "a" s' ≡ latest_count hour_clock tables "a" idle + 1)
unfolding get_one get_current_procedure procedure_of
create_or_activate_inactive_example =
    create_or_activate_inactive hour_clock tables at_110 user "b" "x" (err entity_not_found) "p"
      idle (set_active hour_clock false pump_x)
      (record {
        id = "p";
        tenant_id = "t";
        name = "inspect";
        description = "";
        asset_type_id = "pump";
        interval = 2;
        interval_unit = days;
        outdated_since = none;
        root = none;
      })
      refl refl refl refl
