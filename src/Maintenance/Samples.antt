-- ===== src/Maintenance/Samples.antt =====
-- A tenant with one procedure, whose execution is due, on a clock that counts hours: data for the tests.
use elunic_myturck.Base.{ℕ, ◌+◌, ◌-◌, ◌*◌, true, false, leb, ltb, [], ◌∷◌, none, if◌then◌else◌}
use elunic_myturck.Base.Int.{pos, negsuc}
use elunic_myturck.Base.Repository.{list_repository}
use elunic_myturck.Maintenance.{
  Clock, Repositories, Store, Execution, Assignment, Procedure, ProcedureStep, LibraryStep,
  StepResult, Auth, IntervalUnit, hours, days, months, years, open_, done,
}
use elunic_myturck.Maintenance.Executions.{Context}

abbrev pub hours_in : IntervalUnit → ℕ
hours_in hours = 1
hours_in days = 24
hours_in months = 720
hours_in years = 8760

abbrev pub hour_clock : Clock
hour_clock = record {
  Time = ℕ;
  add = λ t n u. t + n * hours_in u;
  diff_hours = λ a b. if leb b a then pos (a - b) else negsuc (b - a - 1);
  is_before = ltb;
}

abbrev pub tables : Repositories hour_clock
tables = record {
  procedures = list_repository (Procedure hour_clock);
  assignments = list_repository (Assignment hour_clock);
  executions = list_repository (Execution hour_clock);
  steps = list_repository ProcedureStep;
  library = list_repository LibraryStep;
  results = list_repository StepResult;
}

abbrev pub due_execution : Execution hour_clock
due_execution = record {
  id = "e1";
  tenant_id = "t";
  assignment_id = "a";
  due_date = 100;
  completed_at = none;
  completed_by = none;
  state = open_;
  latest_execution = true;
}

abbrev pub store : Store hour_clock tables
store = record {
  procedures =
      record {
        id = "p";
        tenant_id = "t";
        name = "inspect";
        description = "";
        asset_type_id = "pump";
        interval = 2;
        interval_unit = days;
        outdated_since = none;
        root = none;
      }
      ∷ [];
  assignments =
      record { id = "a"; tenant_id = "t"; asset_id = "x"; procedure_id = "p"; active = true } ∷ [];
  executions = due_execution ∷ [];
  steps =
      record {
        id = "s";
        tenant_id = "t";
        procedure_id = "p";
        name = "oil";
        description = "check the oil";
        mandatory = true;
        skippable = false;
        key = none;
        position = 0;
        parent = none;
      }
      ∷ [];
  library = [];
  results =
      record {
        id = "r";
        tenant_id = "t";
        execution_id = "e1";
        step_id = "s";
        status = done;
        value = none;
      }
      ∷ [];
}

abbrev pub user : Auth
user = record { id = "u"; tenant_id = "t" }

abbrev pub at_110 : Context hour_clock
at_110 = record { now = 110; strict = true; new_id = "e2" }
