-- ===== src/Maintenance/Executions/Parts.antt =====
-- The parts of a completion that returned.
use elunic_myturck.Base.{
  ◌≡◌, sym, ap, ◌∙◌, true, false, not, List, [], ◌∷◌, All, arith, String, if◌then◌else◌, Bool-cases,
  inl, inr, some,
}
use elunic_myturck.Base.Repository.{find_or_fail}
use elunic_myturck.Base.Results.{ok, err, bad_request, >>=-eq-ok, guard-eq-ok, ok-injective}
use elunic_myturck.Maintenance.{
  Clock, Repositories, Store, Execution, Assignment, ProcedureStep, StepResult, Auth, is_execution,
}
use elunic_myturck.Maintenance.Executions.{
  Context, is_some, all_executions, set_executions, has_id, complete, assignment_of, results_of,
  schedule_next_execution, mandatory_steps, has_result, check_steps, completed_state, set_complete,
}

module _ (c : Clock) (r : Repositories c) where
  pub check_steps-ok :
      (found : List StepResult) (steps : List ProcedureStep)
      → check_steps c r found steps ≡ ok tt
      → All (λ step. has_result c r found step ≡ true) steps
  unfolding check_steps
  check_steps-ok found [] h = tt
  check_steps-ok found (step ∷ rest) h = elim (Bool-cases (has_result c r found step)) [
    | inl hit ↦ (
      hit,
      check_steps-ok found rest
          (sym (ap (λ b. if b then check_steps c r found rest else err bad_request) hit) ∙ h),
    )
    | inr miss ↦
        absurd
          (cc (sym (ap (λ b. if b then check_steps c r found rest else err bad_request) miss) ∙ h))
  ]

  -- The parts of a completion that returned.
  pub record Completed (ctx : Context c) (auth : Auth) (id : String) (s s' : Store c r)
      : Type 0 where
    pub before : Execution c
    pub assignment : Assignment c
    pub found : find_or_fail (is_execution id auth.tenant_id) (all_executions c r s) ≡ ok before
    pub assigned : assignment_of c r s before.assignment_id ≡ ok assignment
    pub not_completed : is_some before.completed_at ≡ false
    pub steps_done :
        All
          (λ step. has_result c r (results_of c r s before) step ≡ true)
          (mandatory_steps c r s auth assignment)
    pub scheduled :
        schedule_next_execution c r ctx auth assignment (some before) (
          set_executions c r
            (r.executions.update
              (is_execution id auth.tenant_id)
              (complete c ctx auth (completed_state c r (results_of c r s before)))
              s.executions)
            s)
        ≡ ok s'

  pub set_complete-Completed :
      (ctx : Context c) (auth : Auth) (id : String) (s : Store c r) {e' : Execution c}
      {s' : Store c r}
      → set_complete c r ctx auth id s ≡ ok (e', s')
      → Completed ctx auth id s s'
  unfolding set_complete
  set_complete-Completed ctx auth id s {e'} {s'} h =
      let (e, found, h1) =
        >>=-eq-ok (find_or_fail (is_execution id auth.tenant_id) (all_executions c r s)) _ h in
      let (a, assigned, h2) = >>=-eq-ok (assignment_of c r s e.assignment_id) _ h1 in
      let (open_, h3) = guard-eq-ok (not (is_some e.completed_at)) bad_request _ h2 in
      let (u, checked, h4) =
        >>=-eq-ok (check_steps c r (results_of c r s e) (mandatory_steps c r s auth a)) _ h3 in
      let (s1, scheduled, h5) =
        >>=-eq-ok (schedule_next_execution c r ctx auth a (some e) _) _ h4 in
      let (e1, found1, h6) =
        >>=-eq-ok (find_or_fail (has_id c e.id) (all_executions c r s1)) _ h5 in
      record {
        before = e;
        assignment = a;
        found = found;
        assigned = assigned;
        not_completed = ground (arith, open_);
        steps_done = check_steps-ok _ _ checked;
        scheduled = scheduled ∙ ap (λ p. ok (p.1)) (ok-injective h6);
      }
