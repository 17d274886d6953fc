-- ===== src/Maintenance/Executions/Tests.antt =====
-- Completing, advancing and scheduling the execution of the sample tenant.
use elunic_myturck.Base.{
  arith, ◌≡◌, refl, true, false, [], ◌∷◌, all, any, not, ◌&&◌, map, none, some,
}
use elunic_myturck.Base.Repository.{find_or_fail}
use elunic_myturck.Base.Results.{ok}
use elunic_myturck.Maintenance.{
  StepResult, Procedure, Assignment, Store, Execution, is_execution, open_, completed, skipped,
}
use elunic_myturck.Maintenance.Samples.{hour_clock, tables, due_execution, store, user, at_110}
use elunic_myturck.Base.Counting.{count}
use elunic_myturck.Maintenance.Executions.StepResults.{upsert_step-count}
use elunic_myturck.Maintenance.Executions.{
  get_one, all_executions, execution_state, set_complete, update_execution_states, is_due_soon,
  is_over_due, tenant_has_strict_interval, add_execution, schedule_next_execution, mandatory_steps,
  has_result, check_steps, completed_state, assignment_of, procedure_of, results_of, upsert_step,
  update_result, insert_result, is_result, create_execution_when_strict_interval,
  over_due_executions,
}
use elunic_myturck.Maintenance.Executions.Cron.{update_execution_states-rows, tick}
use elunic_myturck.Maintenance.Executions.Completion.{set_complete-ok, IsCompletion}
use elunic_myturck.Maintenance.Executions.Given.{is_optional_or_given, state_given}
use elunic_myturck.Maintenance.Executions.Passing.{passes_on, is_latest_row}
use elunic_myturck.Maintenance.Executions.Latest.{set_complete-latest_count, latest_count}

abbrev finished : Execution hour_clock
finished = record due_execution {
  completed_at = some 110;
  completed_by = some "u";
  state = completed;
  latest_execution = false;
}

abbrev after : Store hour_clock tables
after = record store {
  executions = finished ∷ record due_execution { id = "e2"; due_date = 148; state = open_ } ∷ [];
}

-- The execution that is scheduled next is due two days after the old due date.
completes : set_complete hour_clock tables at_110 user "e1" store ≡ ok (finished, after)
unfolding set_complete mandatory_steps has_result check_steps completed_state assignment_of
    procedure_of results_of schedule_next_execution add_execution execution_state is_due_soon
    is_over_due
completes = refl

update_execution_states-rows_example :
    all_executions hour_clock tables (update_execution_states hour_clock tables 110 store)
    ≡ map (tick hour_clock 110) (due_execution ∷ [])
update_execution_states-rows_example = update_execution_states-rows hour_clock tables 110 store refl

set_complete-latest_count_example :
    (before : Execution hour_clock) × (a : Assignment hour_clock) × (p : Procedure hour_clock)
    × (row : Execution hour_clock) × (find_or_fail
          (is_execution "e1" "t")
          (all_executions hour_clock tables store)
        ≡ ok before)
    × (assignment_of hour_clock tables store before.assignment_id ≡ ok a)
    × (procedure_of hour_clock tables store a ≡ ok p)
    × (any (is_latest_row hour_clock tables "e2" a.id) (all_executions hour_clock tables after)
        ≡ passes_on hour_clock tables a p before)
    × (find_or_fail (is_execution "e1" "t") (all_executions hour_clock tables after) ≡ ok row)
    × (row.latest_execution
        ≡ (before.latest_execution && not (passes_on hour_clock tables a p before)))
    × (latest_count hour_clock tables "a" after ≡ latest_count hour_clock tables "a" store)
set_complete-latest_count_example =
    set_complete-latest_count hour_clock tables at_110 user "e1" store "a" refl refl completes

set_complete-ok_example :
    (before : Execution hour_clock) × (a : Assignment hour_clock) × (e : Execution hour_clock)
    × (find_or_fail (is_execution "e1" "t") (all_executions hour_clock tables store) ≡ ok before)
    × (assignment_of hour_clock tables store before.assignment_id ≡ ok a)
    × (before.completed_at ≡ none)
    × (all (is_optional_or_given store.results "t" a.procedure_id before.id) store.steps ≡ true)
    × (find_or_fail (is_execution "e1" "t") (all_executions hour_clock tables after) ≡ ok e)
    × IsCompletion hour_clock tables at_110 user
        (state_given store.results before.id)
        before.assignment_id
        e
set_complete-ok_example = set_complete-ok hour_clock tables at_110 user "e1" store refl completes

-- A second result for the same step replaces the first.
upserts :
    upsert_step hour_clock tables at_110 user "e1" "s" (some "ok") skipped store
    ≡ ok (
      record {
        id = "r";
        tenant_id = "t";
        execution_id = "e1";
        step_id = "s";
        status = skipped;
        value = some "ok";
      },
      record store {
        results =
            record {
              id = "r";
              tenant_id = "t";
              execution_id = "e1";
              step_id = "s";
              status = skipped;
              value = some "ok";
            }
            ∷ [];
      },
    )
unfolding upsert_step update_result
upserts = refl

abbrev no_results : Store hour_clock tables
no_results = record store { results = [] }

abbrev skipped_result : StepResult
skipped_result = record {
  id = "e2";
  tenant_id = "t";
  execution_id = "e1";
  step_id = "s";
  status = skipped;
  value = none;
}

inserts :
    upsert_step hour_clock tables at_110 user "e1" "s" none skipped no_results
    ≡ ok (skipped_result, record no_results { results = skipped_result ∷ [] })
unfolding upsert_step insert_result
inserts = refl

upsert_step-count_example :
    count (is_result hour_clock tables "t" "s" "e1") (skipped_result ∷ []) ≡ 1
unfolding count
upsert_step-count_example =
    upsert_step-count hour_clock tables at_110 user "e1" "s" none skipped no_results (omega arith)
      inserts

-- A strict interval goes on from the execution that was not completed.
schedules_strictly :
    create_execution_when_strict_interval hour_clock tables at_110 due_execution store
    ≡ ok (record store {
      executions =
          record due_execution { latest_execution = false }
          ∷ record due_execution { id = "e2"; due_date = 148; state = open_ }
          ∷ [];
    })
unfolding create_execution_when_strict_interval assignment_of procedure_of execution_state
    is_due_soon is_over_due
schedules_strictly = refl

finds_over_due : over_due_executions hour_clock tables 110 store ≡ due_execution ∷ []
unfolding over_due_executions
finds_over_due = refl

fetches_interval : tenant_has_strict_interval none (some "strictInterval") ≡ (true, some true)
unfolding tenant_has_strict_interval
fetches_interval = refl

get_one_test : get_one hour_clock tables user "e1" store ≡ ok due_execution
unfolding get_one
get_one_test = refl
