-- ===== src/Maintenance/Cascades.antt =====
-- What the database of the maintenance service deletes along with a row: the foreign keys of
-- maintenance-backend/src/migrations/1654081336903-Initialize.ts and 1658480092532-ProcedureVersioning.ts.
use elunic_myturck.Base.{Bool, false, not, ◌&&◌, Option, none, some, List, String, any, filter, map}
use elunic_myturck.Base.Names.{member}
use elunic_myturck.Base.Results.{Result, ok, internal_error, guard, ◌>>◌}
use elunic_myturck.Maintenance.{
  Clock, Repositories, Store, Procedure, Assignment, Execution, ProcedureStep,
}

module _ (c : Clock) where
  abbrev pub refers_to : List String → Option String → Bool
  refers_to ids none = false
  refers_to ids (some id) = member id ids

  abbrev pub clear_root : Procedure c → Procedure c
  clear_root p = record p { root = none }

  module _ (r : Repositories c) where
    open r use {procedures, assignments, executions, steps, results}

    -- Assignments take their executions with them, and these their results.
    unfoldable pub delete_assignments : (Assignment c → Bool) → Store c r → Store c r
    delete_assignments p s =
        let gone = map (λ a. a.id) (filter p (assignments.rows s.assignments)) in
        let of_gone : Execution c → Bool = λ e. member e.assignment_id gone in
        let gone_executions = map (λ e. e.id) (filter of_gone (executions.rows s.executions)) in
        record s {
          assignments = assignments.delete p s.assignments;
          executions = executions.delete of_gone s.executions;
          results = results.delete (λ x. member x.execution_id gone_executions) s.results;
        }

    -- Procedures take their steps and assignments with them, and are the root of no other procedure. The key from
    -- results to steps has no rule: the database may refuse to delete a step that has a result, if it comes to the
    -- step before it comes to the execution.
    unfoldable pub delete_procedures : Bool → List String → Store c r → Result (Store c r)
    delete_procedures refuses ids s =
        let own : ProcedureStep → Bool = λ t. member t.procedure_id ids in
        let gone_steps = map (λ t. t.id) (filter own (steps.rows s.steps)) in
        guard (not (refuses && any (λ x. member x.step_id gone_steps) (results.rows s.results)))
          internal_error
        >> ok (record (delete_assignments (λ a. member a.procedure_id ids) s) {
          steps = steps.delete own s.steps;
          procedures =
              procedures.update (λ p. refers_to ids p.root) clear_root
                (procedures.delete (λ p. member p.id ids) s.procedures);
        })
