-- ===== src/Maintenance.antt =====
-- The maintenance service: maintenance-backend/src. Its entities, the tables that hold them, and the
-- clock; the services are in the modules below.
pub mod Executions
pub mod Cascades
pub mod Assignments
pub mod Procedures
pub mod Samples
use elunic_myturck.Base.{
  ℕ, Bool, true, false, Option, none, some, List, [], ◌∷◌, String, str_eq, ◌&&◌, find, filter,
}
use elunic_myturck.Base.Int.{ℤ}
use elunic_myturck.Base.Repository.{Repository, find_or_fail}
use elunic_myturck.Base.Results.{Result, ok, err, internal_error, ◌>>=◌}

-- `INTERVAL_UNITS`
pub data IntervalUnit : Type 0 where
  hours days months years : IntervalUnit

-- `ExecutionState` and `StepResultStatus`
pub data ExecutionState : Type 0 where
  open_ due_soon over_due completed partially_completed : ExecutionState

pub data StepResultStatus : Type 0 where
  done error skipped : StepResultStatus

-- What the services use of `Date` and of the library moment: a moment later by an interval, the
-- difference in hours, cut towards zero, and the order of the database.
pub record Clock : Type 1 where
  pub Time : Type 0
  pub add : Time → ℕ → IntervalUnit → Time
  pub diff_hours : Time → Time → ℤ
  pub is_before : Time → Time → Bool

module _ (c : Clock) where
  open c use {Time}

  -- `ProcedureEntity`; `root` is the id of the procedure that this one is a later version of.
  pub record Procedure : Type 0 where
    pub id : String
    pub tenant_id : String
    pub name : String
    pub description : String
    pub asset_type_id : String
    pub interval : ℕ
    pub interval_unit : IntervalUnit
    pub outdated_since : Option Time
    pub root : Option String

  -- `AssetAssignmentEntity`
  pub record Assignment : Type 0 where
    pub id : String
    pub tenant_id : String
    pub asset_id : String
    pub procedure_id : String
    pub active : Bool

  -- `ExecutionEntity`; a `latestExecution` of null, which the column allows, counts as false.
  pub record Execution : Type 0 where
    pub id : String
    pub tenant_id : String
    pub assignment_id : String
    pub due_date : Time
    pub completed_at : Option Time
    pub completed_by : Option String
    pub state : ExecutionState
    pub latest_execution : Bool

-- `ProcedureStepEntity`; its type, content and variable, which are only copied, are left out.
pub record ProcedureStep : Type 0 where
  pub id : String
  pub tenant_id : String
  pub procedure_id : String
  pub name : String
  pub description : String
  pub mandatory : Bool
  pub skippable : Bool
  pub key : Option String
  pub position : ℕ
  pub parent : Option String

-- `ProcedureLibraryStepEntity`, from which the steps of procedures are copied.
pub record LibraryStep : Type 0 where
  pub id : String
  pub tenant_id : String
  pub name : String
  pub description : String
  pub mandatory : Bool
  pub skippable : Bool
  pub key : Option String
  pub tags : List String

-- `ExecutionStepResultEntity`
pub record StepResult : Type 0 where
  pub id : String
  pub tenant_id : String
  pub execution_id : String
  pub step_id : String
  pub status : StepResultStatus
  pub value : Option String

-- The fields of `AuthInfo` that the services read.
pub record Auth : Type 0 where
  pub id : String
  pub tenant_id : String

-- The repositories of the service.
pub record Repositories (c : Clock) : Type 1 where
  pub procedures : Repository (Procedure c)
  pub assignments : Repository (Assignment c)
  pub executions : Repository (Execution c)
  pub steps : Repository ProcedureStep
  pub library : Repository LibraryStep
  pub results : Repository StepResult

pub record Store (c : Clock) (r : Repositories c) : Type 0 where
  pub procedures : r.procedures.Table
  pub assignments : r.assignments.Table
  pub executions : r.executions.Table
  pub steps : r.steps.Table
  pub library : r.library.Table
  pub results : r.results.Table

-- `where: { id, tenantId }`
abbrev pub is_execution : {c : Clock} → String → String → Execution c → Bool
is_execution id tenant e = str_eq e.id id && str_eq e.tenant_id tenant
