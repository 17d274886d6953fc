-- ===== src/Maintenance/Executions/StepResults.antt =====
-- The results of the steps of an execution.
use elunic_myturck.Base.{
  ℕ, ◌+◌, ◌≤◌, ◌≡◌, refl, sym, ap, ◌∙◌, Bool, true, ◌&&◌, find, arith, String, str_eq,
  if◌then◌else◌, Option, Option-cases, inl, inr,
}
use elunic_myturck.Base.Counting.{
  count, count-none, count-some, count-append, count-single, count-map_where,
}
use elunic_myturck.Base.Names.{str_eq_self}
use elunic_myturck.Base.Repository.{find_or_fail, find_or_fail-holds}
use elunic_myturck.Base.Results.{ok, >>=-eq-ok, ok-injective}
use elunic_myturck.Maintenance.{
  Clock, Repositories, Store, StepResult, StepResultStatus, Auth, is_execution,
}
use elunic_myturck.Maintenance.Executions.{
  Context, is_result, all_executions, upsert_step, insert_result, update_result, new_result,
}

at_most : {a b : ℕ} → 1 ≤ a → a ≤ 1 → b ≡ a → b ≡ 1
at_most h k e = omega arith

and_left : (a b : Bool) → (a && b) ≡ true → a ≡ true
and_left a b h = ground arith

module _ (c : Clock) (r : Repositories c) where
  update_result-count :
      (p : StepResult → Bool) (id : String) (value : Option String) (status : StepResultStatus)
      (s : Store c r) {x : StepResult} {s' : Store c r}
      → ((t : StepResult) → p (record t { value = value; status = status }) ≡ p t)
      → update_result c r id value status s ≡ ok (x, s')
      → count p (r.results.rows s'.results) ≡ count p (r.results.rows s.results)
  unfolding update_result
  update_result-count p id value status s keeps h =
      let (x, found, h1) = >>=-eq-ok (find_or_fail (λ x. str_eq x.id id) _) _ h in
      ap (λ q. count p (r.results.rows q.1.results)) (sym (ok-injective h1))
      ∙ ap (count p) (r.results.rows-update _ _ s.results)
      ∙ count-map_where p (λ x. str_eq x.id id) _ (r.results.rows s.results) keeps

  insert_result-count :
      (ctx : Context c) (auth : Auth) (id step_id : String) (value : Option String)
      (status : StepResultStatus) (s : Store c r) {x : StepResult} {s' : Store c r}
      → insert_result c r ctx auth id step_id value status s ≡ ok (x, s')
      → count (is_result c r auth.tenant_id step_id id) (r.results.rows s'.results)
        ≡ count (is_result c r auth.tenant_id step_id id) (r.results.rows s.results) + 1
  unfolding insert_result
  insert_result-count ctx auth id step_id value status s h =
      let (step, step_found, h1) = >>=-eq-ok (find_or_fail _ (r.steps.rows s.steps)) _ h in
      let (e, e_found, h2) = >>=-eq-ok (find_or_fail (is_execution id auth.tenant_id) _) _ h1 in
      let (x, found, h3) = >>=-eq-ok (find_or_fail (λ x. str_eq x.id ctx.new_id) _) _ h2 in
      let p = is_result c r auth.tenant_id step_id id in
      let step_hit : str_eq step.id step_id ≡ true =
        and_left (str_eq step.id step_id) (str_eq step.tenant_id auth.tenant_id)
          (find_or_fail-holds _ (r.steps.rows s.steps) step_found) in
      let e_hit : str_eq e.id id ≡ true =
        and_left (str_eq e.id id) (str_eq e.tenant_id auth.tenant_id)
          (find_or_fail-holds (is_execution id auth.tenant_id) (all_executions c r s) e_found) in
      let hit : p (new_result c r ctx auth e.id step.id value status) ≡ true =
        rw (str_eq_self auth.tenant_id) (rw step_hit (rw e_hit refl)) in
      ap (λ q. count p (r.results.rows q.1.results)) (sym (ok-injective h3))
      ∙ ap (count p) (r.results.rows-insert _ s.results)
      ∙ count-append p (r.results.rows s.results) _
      ∙ ap (λ n. count p (r.results.rows s.results) + n) (count-single p _)
      ∙ ap (λ b. count p (r.results.rows s.results) + (if b then 1 else 0)) hit

  -- A step of an execution that has at most one result has exactly one after its result was saved,
  -- whether that was updated or inserted.
  pub upsert_step-count :
      (ctx : Context c) (auth : Auth) (id step_id : String) (value : Option String)
      (status : StepResultStatus) (s : Store c r) {x : StepResult} {s' : Store c r}
      → count (is_result c r auth.tenant_id step_id id) (r.results.rows s.results) ≤ 1
      → upsert_step c r ctx auth id step_id value status s ≡ ok (x, s')
      → count (is_result c r auth.tenant_id step_id id) (r.results.rows s'.results) ≡ 1
  unfolding upsert_step
  upsert_step-count ctx auth id step_id value status s {x} {s'} most h =
      let p = is_result c r auth.tenant_id step_id id in
      let rows = r.results.rows s.results in
      elim (Option-cases (find p rows)) [
        | inl missing ↦
            insert_result-count ctx auth id step_id value status s (rw (upsert_step, missing) at h)
            ∙ ap (λ n. n + 1) (count-none p rows missing)
        | inr (existing, there) ↦ at_most (count-some p rows there) most (
            update_result-count p existing.id value status s (λ t. refl)
              (rw (upsert_step, there) at h))
      ]
