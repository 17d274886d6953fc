-- ===== src/Maintenance/Assignments/Activation.antt =====
-- Activating and deactivating an assignment.
use elunic_myturck.Base.{
  ◌+◌, ◌≡◌, refl, ap, ◌∙◌, Bool, true, false, String, str_eq, if◌then◌else◌, none,
}
use elunic_myturck.Base.Names.{str_eq_self}
use elunic_myturck.Base.Repository.{find_or_fail, find_or_fail-map_where}
use elunic_myturck.Base.Results.{Result, ok, >>=-eq-ok}
use elunic_myturck.Maintenance.{Clock, Repositories, Store, Execution, Assignment, Procedure, Auth}
use elunic_myturck.Maintenance.Executions.{
  Context, is_some, procedure_of, next_due_date, add_execution, schedule_next_execution,
  new_execution,
}
use elunic_myturck.Maintenance.Executions.Latest.{
  latest_count, latest_count-executions, add_execution-latest_count_first,
}
use elunic_myturck.Maintenance.Assignments.{
  Asset, is_assignment, set_active, all_assignments, set_assignments, get_current_procedure,
  get_one, activate, reactivate, create_or_activate,
}

module _ (c : Clock) (r : Repositories c) where
  get_one-set_active :
      (auth : Auth) (asset id : String) (active : Bool) (s : Store c r) {a : Assignment c}
      → get_one c r auth asset id s ≡ ok a
      → get_one c r auth asset id (
          set_assignments c r
            (r.assignments.update (λ x. str_eq x.id a.id) (set_active c active) s.assignments)
            s)
        ≡ ok (set_active c active a)
  unfolding get_one get_current_procedure
  get_one-set_active auth asset id active s {a} h =
      let (p, current, found) = >>=-eq-ok (get_current_procedure c r auth id s) _ h in
      let q = is_assignment c auth.tenant_id asset p.id in
      rw current (
        ap (find_or_fail q)
          (r.assignments.rows-update (λ x. str_eq x.id a.id) (set_active c active) s.assignments)
        ∙ find_or_fail-map_where q (λ x. str_eq x.id a.id) (set_active c active)
            (all_assignments c r s) (λ x. refl) found
        ∙ ap (λ b. ok (if b then set_active c active a else a)) (str_eq_self a.id))

  activates :
      (a : Assignment c) (s : Store c r)
      → a.active ≡ false
      → activate c r a s
        ≡ ok (
            set_assignments c r
              (r.assignments.update (λ x. str_eq x.id a.id) (set_active c true) s.assignments)
              s)
  unfolding activate
  activates a s h = rw h refl

  schedules :
      (ctx : Context c) (auth : Auth) (a : Assignment c) (p : Procedure c) (s : Store c r)
      → a.active ≡ false
      → procedure_of c r s a ≡ ok p
      → is_some p.outdated_since ≡ false
      → schedule_next_execution c r ctx auth (set_active c true a) none (
          set_assignments c r
            (r.assignments.update (λ x. str_eq x.id a.id) (set_active c true) s.assignments)
            s)
        ≡ ok (
            add_execution c r ctx
              (new_execution c ctx.new_id auth.tenant_id a.id (next_due_date c ctx p none))
              none
              (set_assignments c r
                (r.assignments.update (λ x. str_eq x.id a.id) (set_active c true) s.assignments)
                s))
  unfolding schedule_next_execution procedure_of
  schedules ctx auth a p s h owner valid = rw owner (rw valid refl)

  get_one-add_execution :
      (ctx : Context c) (auth : Auth) (asset id : String) (new : Execution c) (s : Store c r)
      → get_one c r auth asset id (add_execution c r ctx new none s) ≡ get_one c r auth asset id s
  unfolding get_one get_current_procedure add_execution
  get_one-add_execution ctx auth asset id new s = refl

  reactivates :
      (ctx : Context c) (auth : Auth) (asset id : String) (a : Assignment c) (s s1 s2 : Store c r)
      {a' : Assignment c}
      → activate c r a s ≡ ok s1
      → schedule_next_execution c r ctx auth (set_active c true a) none s1 ≡ ok s2
      → get_one c r auth asset id s2 ≡ ok a'
      → reactivate c r ctx auth asset id a s ≡ ok (a', s2)
  unfolding reactivate
  reactivates ctx auth asset id a s s1 s2 h k l = rw h (rw k (rw l refl))

  -- An assignment that is not active is activated: the result is the assignment, now active, and one
  -- execution more that counts as its latest, whatever executions it has already. The procedure of the
  -- assignment is in the table and not outdated.
  pub create_or_activate_inactive :
      (ctx : Context c) (auth : Auth) (new_id asset : String) (answer : Result Asset) (id : String)
      (s : Store c r) (a : Assignment c) (p : Procedure c)
      → get_one c r auth asset id s ≡ ok a
      → a.active ≡ false
      → procedure_of c r s a ≡ ok p
      → is_some p.outdated_since ≡ false
      → (s' : Store c r) × (create_or_activate c r ctx auth new_id asset answer id s
          ≡ ok (set_active c true a, s'))
        × (latest_count c r a.id s' ≡ latest_count c r a.id s + 1)
  unfolding create_or_activate
  create_or_activate_inactive ctx auth new_id asset answer id s a p found inactive owner valid =
      let s1 =
        set_assignments c r
          (r.assignments.update (λ x. str_eq x.id a.id) (set_active c true) s.assignments) s in
      let new = new_execution c ctx.new_id auth.tenant_id a.id (next_due_date c ctx p none) in
      let s2 = add_execution c r ctx new none s1 in
      (
        s2,
        rw (create_or_activate, found)
            (reactivates ctx auth asset id a s s1 s2 (activates a s inactive)
              (schedules ctx auth a p s inactive owner valid)
              (get_one-add_execution ctx auth asset id new s1
                ∙ get_one-set_active auth asset id true s found)),
        add_execution-latest_count_first c r ctx new s1 a.id
            ∙ ap (λ b. latest_count c r a.id s1 + (if b then 1 else 0)) (str_eq_self a.id)
            ∙ ap (λ n. n + 1) (latest_count-executions c r a.id s1 s refl),
      )
