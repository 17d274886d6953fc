-- ===== src/Maintenance/Executions/Scheduling.antt =====
-- What scheduling the next execution does to the store.
use elunic_myturck.Base.{
  ◌≡◌, refl, ap, ◌∙◌, Bool, true, false, not, ◌||◌, [], ◌∷◌, ◌++◌, arith, if◌then◌else◌, some,
}
use mathlib.Core.Path.{subst}
use elunic_myturck.Base.Repository.{map_where}
use elunic_myturck.Base.Results.{ok, >>=-eq-ok, ok-injective}
use elunic_myturck.Maintenance.{Clock, Repositories, Store, Execution, Assignment, Auth}
use elunic_myturck.Maintenance.Executions.{
  Context, is_some, all_executions, set_state, not_latest, has_id, new_execution, procedure_of,
  next_due_date, is_superseded, add_execution, schedule_next_execution, execution_state,
}

module _ (c : Clock) (r : Repositories c) where
  if-both {ℓ κ} :
      {A : Type ℓ} (P : A → Type κ) (b : Bool) (x y : A)
      → (b ≡ true → P x)
      → (b ≡ false → P y)
      → P (if b then x else y)
  if-both P true x y p q = p refl
  if-both P false x y p q = q refl

  three : (a b l : Bool) → (a || (b || not l)) ≡ false → l ≡ true
  three a b l h = ground arith

  pub add_execution-rows :
      (ctx : Context c) (new previous : Execution c) (s : Store c r)
      → all_executions c r (add_execution c r ctx new (some previous) s)
        ≡ map_where
            (has_id c new.id)
            (set_state c (execution_state c new ctx.now))
            (map_where (has_id c previous.id) (not_latest c) (all_executions c r s ++ new ∷ []))
  unfolding add_execution
  add_execution-rows ctx new previous s =
      let retire = map_where (has_id c previous.id) (not_latest c) in
      let state = map_where (has_id c new.id) (set_state c (execution_state c new ctx.now)) in
      r.executions.rows-update (has_id c new.id) (set_state c (execution_state c new ctx.now)) _
      ∙ ap state (r.executions.rows-update (has_id c previous.id) (not_latest c) _)
      ∙ ap (λ xs. state (retire xs)) (r.executions.rows-insert new s.executions)

  -- What scheduling does, for a property of the store that both branches have.
  pub schedule_next_execution-both {κ} :
      (P : Store c r → Type κ) (ctx : Context c) (auth : Auth) (a : Assignment c)
      (previous : Execution c) (s : Store c r) {s' : Store c r}
      → schedule_next_execution c r ctx auth a (some previous) s ≡ ok s'
      → P s
      → ((due : c.Time)
          → previous.latest_execution ≡ true
          → P (
              add_execution c r ctx
                (new_execution c ctx.new_id auth.tenant_id a.id due)
                (some previous)
                s))
      → P s'
  unfolding schedule_next_execution
  schedule_next_execution-both P ctx auth a previous s {s'} h kept added =
      let (p, found, e) = >>=-eq-ok (procedure_of c r s a) _ h in
      let done = not a.active || (is_some p.outdated_since || is_superseded c (some previous)) in
      subst P (ok-injective e) (
        if-both P done s _ (λ _. kept)
          (λ b.
            added (next_due_date c ctx p (some previous))
              (three (not a.active) (is_some p.outdated_since) previous.latest_execution b)))
