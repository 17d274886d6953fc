-- ===== src/Maintenance/Executions.antt =====
-- Executions of maintenance procedures:
-- maintenance-backend/src/maintenance-execution/maintenance-execution.service.ts. A transaction takes
-- the store and returns a new one; a transaction that throws leaves the store as it was.
pub mod States
pub mod Cron
pub mod Parts
pub mod Given
pub mod Passing
pub mod Scheduling
pub mod Completion
pub mod Latest
pub mod StepResults
pub mod Paging
mod Tests
use elunic_myturck.Base.{
  ℕ, Bool, true, false, not, Option, none, some, List, [], ◌∷◌, map, String, str_eq, ◌&&◌, ◌||◌,
  find, filter, any, if◌then◌else◌,
}
use elunic_myturck.Base.Int.{ℤ, pos, ltb_ℤ}
use elunic_myturck.Base.Names.{member}
use elunic_myturck.Base.Repository.{Repository, find_or_fail}
use elunic_myturck.Base.Results.{Result, ok, err, bad_request, internal_error, ◌>>=◌, ◌>>◌, guard}
use elunic_myturck.Maintenance.{
  Clock, Repositories, Store, Execution, Assignment, Procedure, ProcedureStep, StepResult, Auth,
  ExecutionState, open_, due_soon, over_due, completed, partially_completed, StepResultStatus, done,
  error, skipped, is_execution,
}

-- `DUE_SOON_THRESHOLD_HOURS`
abbrev pub due_soon_threshold_hours : ℤ
due_soon_threshold_hours = pos 24

abbrev pub is_some {ℓ} : {X : Type ℓ} → Option X → Bool
is_some none = false
is_some (some x) = true

abbrev pub is_open : ExecutionState → Bool
is_open open_ = true
is_open _ = false

abbrev pub is_due_soon_state : ExecutionState → Bool
is_due_soon_state due_soon = true
is_due_soon_state _ = false

abbrev pub is_skipped : StepResultStatus → Bool
is_skipped skipped = true
is_skipped _ = false

-- `s.status === StepResultStatus.OK || s.status === StepResultStatus.ERROR`
abbrev pub is_executed : StepResultStatus → Bool
is_executed done = true
is_executed error = true
is_executed skipped = false

-- `tenantHasStrictInterval`: from the cached entry, or else from the setting that the identity service
-- sends (none if the call fails). With the entry that the cache holds afterwards.
pub tenant_has_strict_interval : Option Bool → Option String → Bool × Option Bool
tenant_has_strict_interval (some cached) fetched = (cached, some cached)
tenant_has_strict_interval none none = (false, none)
tenant_has_strict_interval none (some value) =
    (str_eq value "strictInterval", some (str_eq value "strictInterval"))

module _ (c : Clock) where
  open c use {Time, add, diff_hours, is_before}

  unfoldable pub is_due_soon : Execution c → Time → Bool
  is_due_soon e now = ltb_ℤ (diff_hours e.due_date now) due_soon_threshold_hours

  unfoldable pub is_over_due : Execution c → Time → Bool
  is_over_due e now = ltb_ℤ (diff_hours e.due_date now) (pos 0)

  -- `executionStateForExecution`
  unfoldable pub execution_state : Execution c → Time → ExecutionState
  execution_state e now =
      if is_due_soon e now then due_soon else if is_over_due e now then over_due else open_

  -- What a call finds around it: the time, the setting of the tenant, and the id that the database
  -- generates for a new row.
  pub record Context : Type 0 where
    pub now : Time
    pub strict : Bool
    pub new_id : String

  -- A new row: `repo.save({ tenantId, assignment, dueDate, latestExecution: true })`
  abbrev pub new_execution : String → String → String → Time → Execution c
  new_execution id tenant assignment due = record {
    id = id;
    tenant_id = tenant;
    assignment_id = assignment;
    due_date = due;
    completed_at = none;
    completed_by = none;
    state = open_;
    latest_execution = true;
  }

  abbrev pub set_state : ExecutionState → Execution c → Execution c
  set_state state e = record e { state = state }

  abbrev pub not_latest : Execution c → Execution c
  not_latest e = record e { latest_execution = false }

  abbrev pub has_id : String → Execution c → Bool
  has_id id e = str_eq e.id id

  -- `!assignment.active || assignment.outdated || (previousExecution && !previousExecution.latestExecution)`
  abbrev pub is_superseded : Option (Execution c) → Bool
  is_superseded none = false
  is_superseded (some e) = not e.latest_execution

  abbrev pub next_due_date : Context → Procedure c → Option (Execution c) → Time
  next_due_date ctx p none = add ctx.now p.interval p.interval_unit
  next_due_date ctx p (some previous) =
      if ctx.strict
      then add previous.due_date p.interval p.interval_unit
      else add ctx.now p.interval p.interval_unit

  abbrev pub complete : Context → Auth → ExecutionState → Execution c → Execution c
  complete ctx auth state e = record e {
    completed_at = some ctx.now;
    completed_by = some auth.id;
    state = state;
  }

  module _ (r : Repositories c) where
    open r use {executions, assignments, procedures, steps, results}

    abbrev pub all_executions : Store c r → List (Execution c)
    all_executions s = executions.rows s.executions

    pub get_one : Auth → String → Store c r → Result (Execution c)
    get_one auth id s = find_or_fail (is_execution id auth.tenant_id) (all_executions s)

    abbrev pub set_executions : executions.Table → Store c r → Store c r
    set_executions t s = record s { executions = t }

    -- The relations of an execution and of an assignment, which foreign keys keep in place.
    pub assignment_of : Store c r → String → Result (Assignment c)
    assignment_of s id = elim (find (λ a. str_eq a.id id) (assignments.rows s.assignments)) [
      | none ↦ err internal_error
      | some a ↦ ok a
    ]

    unfoldable pub procedure_of : Store c r → Assignment c → Result (Procedure c)
    procedure_of s a =
        elim (find (λ p. str_eq p.id a.procedure_id) (procedures.rows s.procedures)) [
          | none ↦ err internal_error
          | some p ↦ ok p
        ]

    pub results_of : Store c r → Execution c → List StepResult
    results_of s e = filter (λ t. str_eq t.execution_id e.id) (results.rows s.results)

    -- The transaction `func`: save the new execution, retire the previous one, set the state.
    unfoldable pub add_execution :
        Context → Execution c → Option (Execution c) → Store c r → Store c r
    add_execution ctx new none s =
        set_executions
          (executions.update (has_id new.id) (set_state (execution_state new ctx.now))
            (executions.insert new s.executions))
          s
    add_execution ctx new (some previous) s =
        set_executions
          (executions.update (has_id new.id) (set_state (execution_state new ctx.now)) (
            executions.update (has_id previous.id) not_latest (executions.insert new s.executions)))
          s

    unfoldable pub schedule_next_execution :
        Context → Auth → Assignment c → Option (Execution c) → Store c r → Result (Store c r)
    schedule_next_execution ctx auth a previous s = do
      p ← procedure_of s a
      ok (
          if not a.active || (is_some p.outdated_since || is_superseded previous)
          then s
          else (add_execution ctx
              (new_execution ctx.new_id auth.tenant_id a.id (next_due_date ctx p previous)) previous
              s))

    -- The mandatory steps of the procedure, and the test that each has a result that was not skipped.
    pub mandatory_steps : Store c r → Auth → Assignment c → List ProcedureStep
    mandatory_steps s auth a =
        filter (λ p. p.mandatory)
          (filter (λ p. str_eq p.tenant_id auth.tenant_id && str_eq p.procedure_id a.procedure_id)
            (steps.rows s.steps))

    pub has_result : List StepResult → ProcedureStep → Bool
    has_result found step =
        any (λ t. str_eq t.step_id step.id) (filter (λ t. is_executed t.status) found)

    pub check_steps : List StepResult → List ProcedureStep → Result (Unit {0})
    check_steps found [] = ok tt
    check_steps found (step ∷ rest) =
        if has_result found step then check_steps found rest else err bad_request

    pub completed_state : List StepResult → ExecutionState
    completed_state found =
        if any (λ t. not (is_skipped t.status)) found then completed else partially_completed

    pub set_complete : Context → Auth → String → Store c r → Result (Execution c × Store c r)
    set_complete ctx auth id s = do
      e ← find_or_fail (is_execution id auth.tenant_id) (all_executions s)
      a ← assignment_of s e.assignment_id
      guard (not (is_some e.completed_at)) bad_request
      check_steps (results_of s e) (mandatory_steps s auth a)
      s' ← schedule_next_execution ctx auth a (some e) (
          set_executions
            (executions.update (is_execution id auth.tenant_id)
              (complete ctx auth (completed_state (results_of s e))) s.executions)
            s)
      e' ← find_or_fail (has_id e.id) (all_executions s')
      ok (e', s')

    -- `upsertStep`
    abbrev pub is_result : String → String → String → StepResult → Bool
    is_result tenant step execution t =
        str_eq t.tenant_id tenant && (str_eq t.step_id step && str_eq t.execution_id execution)

    -- The update of a result that is there, and the insertion of a new one.
    pub update_result :
        String → Option String → StepResultStatus → Store c r → Result (StepResult × Store c r)
    update_result id value status s = do
      let t =
          results.update (λ x. str_eq x.id id) (λ x. record x { value = value; status = status })
            s.results
      x ← find_or_fail (λ x. str_eq x.id id) (results.rows t)
      ok (x, record s { results = t })

    abbrev pub new_result :
        Context → Auth → String → String → Option String → StepResultStatus → StepResult
    new_result ctx auth execution step value status = record {
      id = ctx.new_id;
      tenant_id = auth.tenant_id;
      execution_id = execution;
      step_id = step;
      status = status;
      value = value;
    }

    pub insert_result :
        Context
        → Auth
        → String
        → String
        → Option String
        → StepResultStatus
        → Store c r
        → Result (StepResult × Store c r)
    insert_result ctx auth id step_id value status s = do
      step ←
          find_or_fail (λ p. str_eq p.id step_id && str_eq p.tenant_id auth.tenant_id)
            (steps.rows s.steps)
      e ← find_or_fail (is_execution id auth.tenant_id) (all_executions s)
      let t = results.insert (new_result ctx auth e.id step.id value status) s.results
      x ← find_or_fail (λ x. str_eq x.id ctx.new_id) (results.rows t)
      ok (x, record s { results = t })

    pub upsert_step :
        Context
        → Auth
        → String
        → String
        → Option String
        → StepResultStatus
        → Store c r
        → Result (StepResult × Store c r)
    upsert_step ctx auth id step_id value status s =
        elim (find (is_result auth.tenant_id step_id id) (results.rows s.results)) [
          | some existing ↦ update_result existing.id value status s
          | none ↦ insert_result ctx auth id step_id value status s
        ]

    -- `updateExecutionsByState` and the cron job `updateExecutionStates`
    pub update_executions_by_state :
        Time → (ExecutionState → Bool) → ExecutionState → ℤ → Store c r → Store c r
    update_executions_by_state now is_state next threshold s =
        let due =
          filter (λ e. ltb_ℤ (diff_hours e.due_date now) threshold)
            (filter (λ e. is_state e.state) (all_executions s)) in
        set_executions
          (executions.update (λ e. member e.id (map (λ d. d.id) due)) (set_state next) s.executions)
          s

    pub update_execution_states : Time → Store c r → Store c r
    update_execution_states now s =
        update_executions_by_state now is_due_soon_state over_due (pos 0)
          (update_executions_by_state now is_open due_soon due_soon_threshold_hours s)

    -- `createExecutionWhenStrictInterval`
    pub create_execution_when_strict_interval :
        Context → Execution c → Store c r → Result (Store c r)
    create_execution_when_strict_interval ctx e s = do
      a ← assignment_of s e.assignment_id
      p ← procedure_of s a
      ok (
          if not a.active || is_some p.outdated_since || not ctx.strict
          then s
          else (let new =
                new_execution ctx.new_id e.tenant_id a.id
                  (add e.due_date p.interval p.interval_unit) in
              set_executions
                (executions.update (has_id new.id) (set_state (execution_state new ctx.now))
                  (executions.insert new (executions.update (has_id e.id) not_latest s.executions)))
                s))

    -- What `checkOverDueExecutions` calls `createExecutionWhenStrictInterval` for.
    pub over_due_executions : Time → Store c r → List (Execution c)
    over_due_executions now s =
        filter (λ e. is_before e.due_date now && e.latest_execution) (all_executions s)
