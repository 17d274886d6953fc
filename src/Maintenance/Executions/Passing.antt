-- ===== src/Maintenance/Executions/Passing.antt =====
-- Which execution has the mark of the latest one after a completion.
use elunic_myturck.Base.{
  ◌≡◌, refl, sym, ap, ◌∙◌, Bool, true, false, not, ◌&&◌, ◌||◌, List, [], ◌∷◌, ◌++◌, any, arith,
  String, str_eq, eq_iff, if◌then◌else◌, some, Bool-cases, inl, inr,
}
use elunic_myturck.Base.Names.{str_eq_self}
use elunic_myturck.Base.Repository.{map_where, find_or_fail}
use elunic_myturck.Base.Results.{ok, >>=-eq-ok, ok-injective}
use elunic_myturck.Maintenance.{
  Clock, Repositories, Store, Execution, Assignment, Auth, Procedure, is_execution, ExecutionState,
}
use elunic_myturck.Maintenance.Executions.{
  Context, is_some, all_executions, set_state, set_executions, not_latest, has_id, complete,
  new_execution, procedure_of, next_due_date, add_execution, schedule_next_execution,
  execution_state,
}
use elunic_myturck.Maintenance.Executions.Scheduling.{add_execution-rows}
use elunic_myturck.Maintenance.Executions.Completion.{add_execution-found, complete-found}

flag : (a o l : Bool) → (not a || (o || not l)) ≡ not (a && (not o && l))
flag a o l = ground arith

choose {ℓ} : {A : Type ℓ} (b : Bool) (x y : A) → (if not b then x else y) ≡ (if b then y else x)
choose true x y = refl
choose false x y = refl

any-map_where-same {ℓ} :
    {A : Type ℓ} (q h : A → Bool) (f : A → A) (xs : List A)
    → ((x : A) → q (f x) ≡ q x)
    → any q (map_where h f xs) ≡ any q xs
any-map_where-same q h f [] same = refl
any-map_where-same q h f (x ∷ xs) same = ground (arith, same x, any-map_where-same q h f xs same)

any-last {ℓ} :
    {A : Type ℓ} (q g : A → Bool) (k : A → A) (new : A) (xs : List A)
    → g new ≡ false
    → q new ≡ true
    → any q (map_where g k (xs ++ new ∷ [])) ≡ true
any-last q g k new [] other holds = rw other (rw holds refl)
any-last q g k new (x ∷ xs) other holds = ground (arith, any-last q g k new xs other holds)

any-part {ℓ} :
    {A : Type ℓ} (p q : A → Bool) (xs : List A)
    → any p xs ≡ false
    → any (λ x. p x && q x) xs ≡ false
any-part p q [] h = refl
any-part p q (x ∷ xs) h = ground (arith, any-part p q xs)

module _ (c : Clock) (r : Repositories c) where
  -- An execution passes its mark on if its assignment is active, the procedure is not outdated, and it has the mark.
  abbrev pub passes_on : Assignment c → Procedure c → Execution c → Bool
  passes_on a p e = a.active && (not (is_some p.outdated_since) && e.latest_execution)

  -- The row `id` is a latest execution of the assignment.
  abbrev pub is_latest_row : String → String → Execution c → Bool
  is_latest_row id owner e = str_eq e.id id && (e.latest_execution && str_eq e.assignment_id owner)

  schedule_next_execution-eq :
      (ctx : Context c) (auth : Auth) (a : Assignment c) (previous : Execution c) (s : Store c r)
      {s' : Store c r}
      → schedule_next_execution c r ctx auth a (some previous) s ≡ ok s'
      → (p : Procedure c) × (procedure_of c r s a ≡ ok p)
        × (s' ≡ (
            if passes_on a p previous
            then (add_execution c r ctx
                (new_execution c ctx.new_id auth.tenant_id a.id
                  (next_due_date c ctx p (some previous)))
                (some previous)
                s)
            else s))
  unfolding schedule_next_execution
  schedule_next_execution-eq ctx auth a previous s h =
      let (p, found, e) = >>=-eq-ok (procedure_of c r s a) _ h in
      let added : Store c r =
        add_execution c r ctx
          (new_execution c ctx.new_id auth.tenant_id a.id (next_due_date c ctx p (some previous)))
          (some previous) s in
      (
        p,
        found,
        sym (ok-injective e)
            ∙ ap (λ b. if b then s else added)
                (flag a.active (is_some p.outdated_since) previous.latest_execution)
            ∙ choose (passes_on a p previous) s added,
      )

  pub new_id-fresh :
      (id tenant new_id : String) (xs : List (Execution c)) {e : Execution c}
      → any (has_id c new_id) xs ≡ false
      → find_or_fail (is_execution id tenant) xs ≡ ok e
      → str_eq id new_id ≡ false
  new_id-fresh id tenant new_id [] h k = absurd (cc k)
  new_id-fresh id tenant new_id (x ∷ xs) {e} h k =
      elim (Bool-cases (is_execution {c = c} id tenant x)) [
        | inl here ↦ ground (arith, eq_iff x.id id, eq_iff x.id new_id, eq_iff id new_id)
        | inr there ↦ new_id-fresh id tenant new_id xs {e = e} (ground arith) (
            ap (λ b. if b then ok x else find_or_fail (is_execution {c = c} id tenant) xs)
              (sym there)
            ∙ k)
      ]

  -- Where the mark is after the execution `id`, which was `before`, was completed and the next one was scheduled.
  pub schedule_next_execution-passes :
      (ctx : Context c) (auth : Auth) (id : String) (s : Store c r) {s' : Store c r}
      {before : Execution c} (a : Assignment c) (result : ExecutionState)
      → any (has_id c ctx.new_id) (all_executions c r s) ≡ false
      → find_or_fail (is_execution id auth.tenant_id) (all_executions c r s) ≡ ok before
      → before.id ≡ id
      → schedule_next_execution c r ctx auth a (some before) (
          set_executions c r
            (r.executions.update
              (is_execution id auth.tenant_id)
              (complete c ctx auth result)
              s.executions)
            s)
        ≡ ok s'
      → (p : Procedure c) × (row : Execution c) × (procedure_of c r s a ≡ ok p)
        × (any (is_latest_row ctx.new_id a.id) (all_executions c r s') ≡ passes_on a p before)
        × (find_or_fail (is_execution id auth.tenant_id) (all_executions c r s') ≡ ok row)
        × (row.latest_execution ≡ (before.latest_execution && not (passes_on a p before)))
  unfolding procedure_of
  schedule_next_execution-passes ctx auth id s {s'} {before} a result fresh found own h =
      let s1 : Store c r =
        set_executions c r
          (r.executions.update (is_execution id auth.tenant_id) (complete c ctx auth result)
            s.executions)
          s in
      let (p, is_p, out) = schedule_next_execution-eq ctx auth a before s1 h in
      let done_ = complete-found c r ctx auth id s result found in
      let q = is_latest_row ctx.new_id a.id in
      let differs = new_id-fresh id auth.tenant_id ctx.new_id (all_executions c r s) fresh found in
      let new =
        new_execution c ctx.new_id auth.tenant_id a.id (next_due_date c ctx p (some before)) in
      elim (Bool-cases (passes_on a p before)) [
        | inl passes ↦
            let added : s' ≡ add_execution c r ctx new (some before) s1 =
              out ∙ ap (λ b. if b then add_execution c r ctx new (some before) s1 else s1) passes in
            let other : str_eq ctx.new_id before.id ≡ false =
              ground (arith, eq_iff ctx.new_id before.id, eq_iff id ctx.new_id) in
            (
              p,
              not_latest c (complete c ctx auth result before),
              is_p,
              ap (λ t. any q (all_executions c r t)) added
                  ∙ ap (any q) (add_execution-rows c r ctx new before s1)
                  ∙ any-map_where-same q (has_id c ctx.new_id)
                      (set_state c (execution_state c new ctx.now)) _ (λ x. refl)
                  ∙ any-last q (has_id c before.id) (not_latest c) new (all_executions c r s1) other
                      (rw (str_eq_self ctx.new_id) (str_eq_self a.id))
                  ∙ sym passes,
              ap (λ t. find_or_fail (is_execution id auth.tenant_id) (all_executions c r t)) added
                  ∙ add_execution-found c r ctx auth id new before s1 differs done_
                  ∙ ap
                      (λ b. ok (
                        if b
                        then not_latest c (complete c ctx auth result before)
                        else complete c ctx auth result before))
                      (str_eq_self before.id),
              ground arith,
            )
        | inr keeps ↦
            let same : s' ≡ s1 =
              out ∙ ap (λ b. if b then add_execution c r ctx new (some before) s1 else s1) keeps in
            (
              p,
              complete c ctx auth result before,
              is_p,
              ap (λ t. any q (all_executions c r t)) same
                  ∙ ap (any q) (r.executions.rows-update _ _ s.executions)
                  ∙ any-map_where-same q _ (complete c ctx auth result) _ (λ x. refl)
                  ∙ any-part (has_id c ctx.new_id) _ (all_executions c r s) fresh
                  ∙ sym keeps,
              ap (λ t. find_or_fail (is_execution id auth.tenant_id) (all_executions c r t)) same
                  ∙ done_,
              ground arith,
            )
      ]
