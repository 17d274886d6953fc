-- ===== src/Maintenance/Executions/Completion.antt =====
-- Completing an execution.
use elunic_myturck.Base.{
  ◌≡◌, All, all, not, ◌&&◌, none, refl, ap, ◌∙◌, Bool, true, false, [], ◌∷◌, ◌++◌, arith, String,
  str_eq, eq_iff, if◌then◌else◌, some,
}
use elunic_myturck.Base.Repository.{
  map_where, find_or_fail, find_or_fail-holds, find_or_fail-append, find_or_fail-map_where,
}
use elunic_myturck.Base.Results.{ok}
use elunic_myturck.Maintenance.{
  Clock, Repositories, Store, Execution, Auth, ExecutionState, is_execution, Assignment,
  ProcedureStep, completed, partially_completed,
}
use elunic_myturck.Maintenance.Executions.{
  is_skipped, is_executed, has_result, mandatory_steps, assignment_of, Context, all_executions,
  set_state, set_executions, not_latest, has_id, complete, results_of, add_execution,
  completed_state, set_complete, execution_state,
}
use elunic_myturck.Maintenance.Executions.Given.{
  was_skipped, is_given, is_optional_or_given, state_given, executed-was_skipped,
  skipped-was_skipped, is_some-none, any-filter, any-filters, All-all, all-filters,
}
use elunic_myturck.Maintenance.Executions.Parts.{Completed, set_complete-Completed}
use elunic_myturck.Maintenance.Executions.Scheduling.{
  add_execution-rows, schedule_next_execution-both,
}

module _ (c : Clock) (r : Repositories c) where
  -- The row is the completed one.
  pub record IsCompletion (ctx : Context c) (auth : Auth) (result : ExecutionState) (owner : String)
      (e : Execution c) : Type 0 where
    pub completed_at : e.completed_at ≡ some ctx.now
    pub completed_by : e.completed_by ≡ some auth.id
    pub state : e.state ≡ result
    pub assignment_id : e.assignment_id ≡ owner

  IsCompletion-not_latest :
      {ctx : Context c} {auth : Auth} {result : ExecutionState} {owner : String} (b : Bool)
      (e : Execution c)
      → IsCompletion ctx auth result owner e
      → IsCompletion ctx auth result owner (if b then not_latest c e else e)
  IsCompletion-not_latest true e w = record {
    completed_at = w.completed_at;
    completed_by = w.completed_by;
    state = w.state;
    assignment_id = w.assignment_id;
  }
  IsCompletion-not_latest false e w = w

  -- The row that `id` names, in the store.
  abbrev Found : Context c → Auth → String → ExecutionState → String → Store c r → Type 0
  Found ctx auth id result owner s =
      (e : Execution c) × (find_or_fail (is_execution id auth.tenant_id) (all_executions c r s)
        ≡ ok e)
      × IsCompletion ctx auth result owner e

  is_execution-id :
      (id tenant : String) (e : Execution c) → is_execution id tenant e ≡ true → e.id ≡ id
  is_execution-id id tenant e h = (eq_iff e.id id).0 (ground arith)

  retired-id : (b : Bool) (e : Execution c) → (if b then not_latest c e else e).id ≡ e.id
  retired-id true e = refl
  retired-id false e = refl

  -- The row that `id` names, after another one was added and `previous` was retired.
  pub add_execution-found :
      (ctx : Context c) (auth : Auth) (id : String) (new previous : Execution c) (s : Store c r)
      {e : Execution c}
      → str_eq id new.id ≡ false
      → find_or_fail (is_execution id auth.tenant_id) (all_executions c r s) ≡ ok e
      → find_or_fail
          (is_execution id auth.tenant_id)
          (all_executions c r (add_execution c r ctx new (some previous) s))
        ≡ ok (if has_id c previous.id e then not_latest c e else e)
  add_execution-found ctx auth id new previous s {e} fresh found =
      let p : Execution c → Bool = is_execution {c = c} id auth.tenant_id in
      let retire = map_where (has_id c previous.id) (not_latest c) in
      let e' = if has_id c previous.id e then not_latest c e else e in
      let same : e.id ≡ id =
        is_execution-id id auth.tenant_id e (find_or_fail-holds p (all_executions c r s) found) in
      let other : has_id c new.id e' ≡ false =
        ap (λ x. str_eq x new.id) (retired-id (has_id c previous.id e) e ∙ same) ∙ fresh in
      ap (find_or_fail p) (add_execution-rows c r ctx new previous s)
      ∙ find_or_fail-map_where p (has_id c new.id) (set_state c _)
          (retire (all_executions c r s ++ new ∷ [])) (λ x. refl)
          (find_or_fail-map_where p (has_id c previous.id) (not_latest c)
            (all_executions c r s ++ new ∷ []) (λ x. refl)
            (find_or_fail-append p (all_executions c r s) (new ∷ []) found))
      ∙ ap (λ b. ok (if b then set_state c (execution_state c new ctx.now) e' else e')) other

  -- The row that `id` names is completed.
  pub complete-found :
      (ctx : Context c) (auth : Auth) (id : String) (s : Store c r) (result : ExecutionState)
      {before : Execution c}
      → find_or_fail (is_execution id auth.tenant_id) (all_executions c r s) ≡ ok before
      → find_or_fail (is_execution id auth.tenant_id) (
          r.executions.rows (
            r.executions.update
              (is_execution id auth.tenant_id)
              (complete c ctx auth result)
              s.executions))
        ≡ ok (complete c ctx auth result before)
  complete-found ctx auth id s result {before} found =
      let p : Execution c → Bool = is_execution {c = c} id auth.tenant_id in
      let row = complete c ctx auth result before in
      ap (find_or_fail p) (r.executions.rows-update p (complete c ctx auth result) s.executions)
      ∙ find_or_fail-map_where p p (complete c ctx auth result) (all_executions c r s) (λ x. refl)
          found
      ∙ ap (λ b. ok (if b then row else before)) (find_or_fail-holds p (all_executions c r s) found)

  add_execution-Found :
      (ctx : Context c) (auth : Auth) (id : String) (result : ExecutionState) (owner : String)
      (new previous : Execution c) (s : Store c r)
      → str_eq id new.id ≡ false
      → Found ctx auth id result owner s
      → Found ctx auth id result owner (add_execution c r ctx new (some previous) s)
  add_execution-Found ctx auth id result owner new previous s fresh (e, found, w) = (
    (if has_id c previous.id e then not_latest c e else e),
    add_execution-found ctx auth id new previous s fresh found,
    IsCompletion-not_latest (has_id c previous.id e) e w,
  )

  -- The row of the completed execution has the time, the user and the state that its results give, and
  -- belongs to the same assignment.
  pub set_complete-row :
      (ctx : Context c) (auth : Auth) (id : String) (s : Store c r) {s' : Store c r}
      → str_eq id ctx.new_id ≡ false
      → (d : Completed c r ctx auth id s s')
      → (e : Execution c) × (find_or_fail (is_execution id auth.tenant_id) (all_executions c r s')
          ≡ ok e)
        × IsCompletion ctx auth
            (completed_state c r (results_of c r s d.before))
            d.before.assignment_id
            e
  set_complete-row ctx auth id s {s'} fresh d =
      let result = completed_state c r (results_of c r s d.before) in
      let start : Found ctx auth id result d.before.assignment_id (set_executions c r _ s) = (
        complete c ctx auth result d.before,
        complete-found ctx auth id s result d.found,
        record { completed_at = refl; completed_by = refl; state = refl; assignment_id = refl },
      ) in
      schedule_next_execution-both c r (Found ctx auth id result d.before.assignment_id) ctx auth
        d.assignment d.before _ d.scheduled start
        (λ due latest.
          add_execution-Found ctx auth id result d.before.assignment_id _ d.before _ fresh start)

  results_of-has_result :
      (s : Store c r) (before : Execution c) (step : ProcedureStep)
      → has_result c r (results_of c r s before) step
        ≡ is_given (r.results.rows s.results) before.id step
  unfolding results_of has_result
  results_of-has_result s before step =
      any-filters (λ t. str_eq t.step_id step.id) (λ t. is_executed t.status)
        (λ t. not (was_skipped t.status)) (λ t. str_eq t.execution_id before.id)
        (r.results.rows s.results) (λ t. executed-was_skipped t.status)

  results_of-completed_state :
      (s : Store c r) (before : Execution c)
      → completed_state c r (results_of c r s before)
        ≡ state_given (r.results.rows s.results) before.id
  unfolding results_of completed_state
  results_of-completed_state s before =
      ap (λ b. if b then completed else partially_completed)
        (any-filter (λ t. not (is_skipped t.status)) (λ t. not (was_skipped t.status))
          (λ t. str_eq t.execution_id before.id) (r.results.rows s.results)
          (λ t. ap not (skipped-was_skipped t.status)))

  steps_given :
      (s : Store c r) (auth : Auth) (a : Assignment c) (before : Execution c)
      → All
          (λ step. has_result c r (results_of c r s before) step ≡ true)
          (mandatory_steps c r s auth a)
      → all
          (is_optional_or_given (r.results.rows s.results) auth.tenant_id a.procedure_id before.id)
          (r.steps.rows s.steps)
        ≡ true
  unfolding mandatory_steps
  steps_given s auth a before done_ =
      all-filters (has_result c r (results_of c r s before))
        (is_given (r.results.rows s.results) before.id) (λ p. p.mandatory)
        (λ p. str_eq p.tenant_id auth.tenant_id && str_eq p.procedure_id a.procedure_id)
        (r.steps.rows s.steps) (results_of-has_result s before) (All-all _ _ done_)

  -- A completion that succeeds found an execution of the tenant that was not completed, and each
  -- mandatory step of the procedure of its assignment has a result of this execution that is not
  -- SKIPPED; afterwards the row of that id has the completion time and the user, belongs to the same
  -- assignment, and is COMPLETED if some result of the execution is not SKIPPED, else
  -- PARTIALLY_COMPLETED. The id of the row that may be created is not the given one.
  pub set_complete-ok :
      (ctx : Context c) (auth : Auth) (id : String) (s : Store c r) {e' : Execution c}
      {s' : Store c r}
      → str_eq id ctx.new_id ≡ false
      → set_complete c r ctx auth id s ≡ ok (e', s')
      → (before : Execution c) × (a : Assignment c) × (e : Execution c) × (find_or_fail
            (is_execution id auth.tenant_id)
            (all_executions c r s)
          ≡ ok before)
        × (assignment_of c r s before.assignment_id ≡ ok a)
        × (before.completed_at ≡ none)
        × (all
              (is_optional_or_given
                (r.results.rows s.results)
                auth.tenant_id
                a.procedure_id
                before.id)
              (r.steps.rows s.steps)
            ≡ true)
        × (find_or_fail (is_execution id auth.tenant_id) (all_executions c r s') ≡ ok e)
        × IsCompletion ctx auth
            (state_given (r.results.rows s.results) before.id)
            before.assignment_id
            e
  set_complete-ok ctx auth id s fresh h =
      let d = set_complete-Completed c r ctx auth id s h in
      let (e, found, w) = set_complete-row ctx auth id s fresh d in
      (
        d.before,
        d.assignment,
        e,
        d.found,
        d.assigned,
        is_some-none d.before.completed_at d.not_completed,
        steps_given s auth d.assignment d.before d.steps_done,
        found,
        record {
          completed_at = w.completed_at;
          completed_by = w.completed_by;
          state = w.state ∙ results_of-completed_state s d.before;
          assignment_id = w.assignment_id;
        },
      )
