-- ===== src/Maintenance/Procedures/Versions.antt =====
-- A new version of a procedure: `updateProcedure` of
-- maintenance-backend/src/maintenance-procedure/maintenance-procedure.service.ts. A request is a complex
-- update exactly if it has steps, since all its other fields are among the simple ones.
pub mod Naming
pub mod Copies
pub mod Pairs
pub mod Moving
pub mod Current
mod Tests
use elunic_myturck.Base.{
  ℕ, zero, suc, Bool, true, false, not, Option, none, some, List, [], ◌∷◌, String, str_eq, ◌&&◌,
  filter, map, if◌then◌else◌,
}
use elunic_myturck.Base.Names.{member}
use elunic_myturck.Base.Repository.{Repository, find_or_fail}
use elunic_myturck.Base.Results.{Result, ok, err, ◌>>=◌}
use elunic_myturck.Maintenance.{
  Clock, Repositories, Store, Procedure, Assignment, Execution, Auth, open_,
}
use elunic_myturck.Maintenance.Executions.{is_some}
use elunic_myturck.Maintenance.Assignments.{or_root}
use elunic_myturck.Maintenance.Procedures.{
  StepDto, ProcedureDto, UpdateDto, NewIds, or_default, insert_all, all_procedures,
  create_procedure, get_current,
}

module _ (c : Clock) where
  open c use {Time}

  module _ (r : Repositories c) where
    open r use {procedures, assignments, executions, results}

    abbrev pub has_procedure_id : String → Procedure c → Bool
    has_procedure_id id p = str_eq p.id id

    -- `pick(dto, SIMPLE_EDIT_PROCEDURE_PROPS)`, which `update` sets.
    abbrev pub edit : UpdateDto → Procedure c → Procedure c
    edit dto p = record p {
      name = or_default dto.name p.name;
      description = or_default dto.description p.description;
      interval = or_default dto.interval p.interval;
      interval_unit = or_default dto.interval_unit p.interval_unit;
    }

    -- `{ ...pick(entity, COPIED_PROCEDURE_PROPS), ...dto }` where the request has steps.
    abbrev pub updated_dto : UpdateDto → List StepDto → Procedure c → ProcedureDto
    updated_dto dto ds entity = record {
      name = or_default dto.name entity.name;
      description = or_default dto.description entity.description;
      interval = or_default dto.interval entity.interval;
      interval_unit = or_default dto.interval_unit entity.interval_unit;
      steps = ds;
    }

    abbrev pub outdate : Time → Procedure c → Procedure c
    outdate now p = record p { outdated_since = some now }

    abbrev pub set_root : String → Procedure c → Procedure c
    set_root id p = record p { root = some id }

    abbrev pub set_procedures : procedures.Table → Store c r → Store c r
    set_procedures t s = record s { procedures = t }

    -- The new rows of `assignments.map(a => ({ ...pick(a, COPIED_ASSIGNMENT_PROPS), ... }))`.
    abbrev pub copied_assignments :
        (ℕ → String) → ℕ → String → String → List (Assignment c) → List (Assignment c)
    copied_assignments ids k tenant procedure [] = []
    copied_assignments ids k tenant procedure (a ∷ rest) =
        record {
          id = ids k;
          tenant_id = tenant;
          asset_id = a.asset_id;
          procedure_id = procedure;
          active = a.active;
        }
        ∷ copied_assignments ids (suc k) tenant procedure rest

    -- `newAssignments[assignments.findIndex(a => a.id === id)]`
    abbrev pub counterpart :
        String → List (Assignment c) → List (Assignment c) → Option (Assignment c)
    counterpart id [] new = none
    counterpart id (a ∷ rest) [] = none
    counterpart id (a ∷ rest) (n ∷ new) = if str_eq a.id id then some n else counterpart id rest new

    -- `executionRepo.save({ tenantId, assignment, dueDate })`: the state is the first of the column's
    -- enumeration, and `latestExecution` is null.
    abbrev pub copied_execution : String → String → String → Execution c → Execution c
    copied_execution id tenant assignment e = record {
      id = id;
      tenant_id = tenant;
      assignment_id = assignment;
      due_date = e.due_date;
      completed_at = none;
      completed_by = none;
      state = open_;
      latest_execution = false;
    }

    -- The loop over the open executions, as the rows that it saves.
    pub copied_executions :
        (ℕ → String)
        → ℕ
        → String
        → List (Assignment c)
        → List (Assignment c)
        → List (Execution c)
        → List (Execution c)
    copied_executions ids k tenant old new [] = []
    copied_executions ids k tenant old new (e ∷ es) =
        let rest = copied_executions ids (suc k) tenant old new es in
        elim (counterpart e.assignment_id old new) [
          | none ↦ rest
          | some a ↦ if a.active then copied_execution (ids k) tenant a.id e ∷ rest else rest
        ]

    abbrev pub is_assigned_to : String → String → Assignment c → Bool
    is_assigned_to tenant procedure a = str_eq a.tenant_id tenant && str_eq a.procedure_id procedure

    abbrev pub is_open_of : String → List (Assignment c) → Execution c → Bool
    is_open_of tenant old e =
        str_eq e.tenant_id tenant
        && (member e.assignment_id (map (λ a. a.id) old) && not (is_some e.completed_at))

    -- What follows the creation of the new version `p`: the assignments and the open executions move
    -- to it from the version before. The executions that are deleted take their results with them.
    pub move_to_version : NewIds → Auth → String → String → Procedure c → Store c r → Store c r
    move_to_version ids auth before root_id p s =
        let old = filter (is_assigned_to auth.tenant_id before) (assignments.rows s.assignments) in
        let new = copied_assignments ids.assignment 0 auth.tenant_id p.id old in
        let ongoing = filter (is_open_of auth.tenant_id old) (executions.rows s.executions) in
        let added = copied_executions ids.execution 0 auth.tenant_id old new ongoing in
        record s {
          assignments = insert_all assignments new s.assignments;
          executions =
              executions.delete (λ e. member e.id (map (λ o. o.id) ongoing))
                (insert_all executions added s.executions);
          results = results.delete (λ x. member x.execution_id (map (λ o. o.id) ongoing)) s.results;
          procedures = procedures.update (has_procedure_id p.id) (set_root root_id) s.procedures;
        }

    -- The case of a request that only has simple changes.
    pub edit_version : UpdateDto → Procedure c → Store c r → Result (String × Store c r)
    edit_version dto entity s = ok (
      entity.id,
      set_procedures (procedures.update (has_procedure_id entity.id) (edit dto) s.procedures) s,
    )

    -- The other case, where a new version replaces the current one.
    pub replace_version :
        NewIds
        → Time
        → Auth
        → Result String
        → String
        → UpdateDto
        → List StepDto
        → Procedure c
        → Store c r
        → Result (String × Store c r)
    replace_version ids now auth asset_type id dto ds entity s = do
      new ← create_procedure c r ids auth asset_type (updated_dto dto ds entity) (
          set_procedures (procedures.update (has_procedure_id entity.id) (outdate now) s.procedures)
            s)
      ok (new.0.id, move_to_version ids auth entity.id id new.0 new.1)

    -- The transaction up to its last lookup; `asset_types` is what the asset service answers for
    -- an asset type.
    pub save_update :
        NewIds
        → Time
        → Auth
        → (String → Result String)
        → String
        → UpdateDto
        → Option (List StepDto)
        → Procedure c × Option (Procedure c)
        → Store c r
        → Result (String × Store c r)
    save_update ids now auth asset_types id dto none (root, current) s =
        edit_version dto (or_root c current root) s
    save_update ids now auth asset_types id dto (some ds) (root, current) s =
        replace_version ids now auth (asset_types root.asset_type_id) id dto ds
          (or_root c current root) s

    pub update_procedure :
        NewIds
        → Time
        → Auth
        → (String → Result String)
        → String
        → UpdateDto
        → Store c r
        → Result (Procedure c × Store c r)
    update_procedure ids now auth asset_types id dto s = do
      versions ← get_current c r auth id s
      saved ← save_update ids now auth asset_types id dto dto.steps versions s
      p ← find_or_fail (has_procedure_id saved.0) (all_procedures c r saved.1)
      ok (p, saved.1)
