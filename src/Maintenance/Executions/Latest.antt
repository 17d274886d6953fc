-- ===== src/Maintenance/Executions/Latest.antt =====
-- The latest execution of an assignment.
use elunic_myturck.Base.{
  ℕ, ◌+◌, ◌≡◌, refl, sym, ap, ◌∙◌, Bool, true, false, not, any, ◌&&◌, List, [], ◌∷◌, ◌++◌, map,
  find, arith, String, str_eq, eq_iff, if◌then◌else◌, Bool-cases, inl, inr, Option, none, some,
}
use elunic_myturck.Base.Counting.{
  count, count-append, count-map_where, count-retire, count-single, count-found,
}
use elunic_myturck.Base.Names.{distinct}
use elunic_myturck.Base.Repository.{map_where, find_or_fail, find_or_fail-holds}
use elunic_myturck.Base.Results.{ok, err, ok-injective, internal_error}
use elunic_myturck.Maintenance.{
  Procedure, Clock, Repositories, Store, Execution, Assignment, Auth, is_execution,
}
use elunic_myturck.Maintenance.Executions.{
  procedure_of, Context, all_executions, set_state, set_executions, not_latest, has_id, complete,
  assignment_of, results_of, add_execution, completed_state, set_complete, execution_state,
}
use elunic_myturck.Maintenance.Executions.Parts.{Completed, set_complete-Completed}
use elunic_myturck.Maintenance.Executions.Passing.{
  passes_on, is_latest_row, new_id-fresh, schedule_next_execution-passes,
}
use elunic_myturck.Maintenance.Executions.Scheduling.{
  add_execution-rows, schedule_next_execution-both,
}

counts : {a b c d e f g h : ℕ} → a + b ≡ c → c ≡ d + e → b ≡ f + g → e ≡ h → g ≡ 0 → f ≡ h → a ≡ d
counts p q r s t u = omega arith

and_left : (a b : Bool) → (a && b) ≡ true → a ≡ true
and_left a b h = ground arith

some-injective {ℓ} : {A : Type ℓ} {x y : A} → some x ≡ some y → x ≡ y
some-injective h = cc

different : (a b x : String) → str_eq a x ≡ false → b ≡ a → str_eq x b ≡ false
different a b x h e = ground (arith, eq_iff a x, eq_iff x b)

module _ (c : Clock) (r : Repositories c) where
  -- The latest executions of an assignment.
  abbrev is_latest_of : String → Execution c → Bool
  is_latest_of b e = e.latest_execution && str_eq e.assignment_id b

  pub latest_count : String → Store c r → ℕ
  latest_count b s = count (is_latest_of b) (all_executions c r s)

  pub latest_count-executions :
      (b : String) (s t : Store c r)
      → s.executions ≡ t.executions
      → latest_count b s ≡ latest_count b t
  unfolding latest_count
  latest_count-executions b s t h = ap (λ e. count (is_latest_of b) (r.executions.rows e)) h

  find-assignment :
      (id : String) (xs : List (Assignment c)) {a : Assignment c}
      → find (λ x. str_eq x.id id) xs ≡ some a
      → a.id ≡ id
  find-assignment id [] h = absurd (cc h)
  find-assignment id (x ∷ xs) {a} h = elim (Bool-cases (str_eq x.id id)) [
    | inl hit ↦
        let same : x ≡ a =
          some-injective
            (sym (ap (λ b. if b then some x else find (λ y. str_eq y.id id) xs) hit) ∙ h) in
        sym (ap (λ y. y.id) same) ∙ (eq_iff x.id id).0 hit
    | inr miss ↦
        find-assignment id xs
          (sym (ap (λ b. if b then some x else find (λ y. str_eq y.id id) xs) miss) ∙ h)
  ]

  assignment_of-id :
      (s : Store c r) (id : String) {a : Assignment c} → assignment_of c r s id ≡ ok a → a.id ≡ id
  unfolding assignment_of
  assignment_of-id s id {a} h = find-assignment id (r.assignments.rows s.assignments) (found_in _ h)
    where
      found_in :
          (o : Option (Assignment c))
          → elim o [ none ↦ err internal_error | some x ↦ ok x ] ≡ ok a
          → o ≡ some a
      found_in none k = absurd (cc k)
      found_in (some x) k = ap some (ok-injective k)

  found-id :
      (id tenant : String) (xs : List (Execution c)) {e : Execution c}
      → find_or_fail (is_execution id tenant) xs ≡ ok e
      → e.id ≡ id
  found-id id tenant xs {e} h =
      (eq_iff e.id id).0 (and_left _ _ (find_or_fail-holds (is_execution id tenant) xs h))

  add_execution-latest_count :
      (ctx : Context c) (new previous : Execution c) (s : Store c r) (b : String)
      → new.latest_execution ≡ true
      → new.assignment_id ≡ previous.assignment_id
      → str_eq new.id previous.id ≡ false
      → count (λ e. str_eq e.id previous.id && is_latest_of b e) (all_executions c r s)
        ≡ (if is_latest_of b previous then 1 else 0)
      → previous.latest_execution ≡ true
      → latest_count b (add_execution c r ctx new (some previous) s) ≡ latest_count b s
  unfolding latest_count
  add_execution-latest_count ctx new previous s b l owner fresh one latest =
      let rows = all_executions c r s in
      let p = is_latest_of b in
      let stated =
        ap (count p) (add_execution-rows c r ctx new previous s)
        ∙ count-map_where p (has_id c new.id) (set_state c (execution_state c new ctx.now)) _
            (λ x. refl) in
      let t : Execution c → Bool = λ e. str_eq e.id previous.id && p e in
      let sum : count p (map_where (has_id c previous.id) (not_latest c) (rows ++ new ∷ []))
            + count t (rows ++ new ∷ [])
          ≡ count p (rows ++ new ∷ []) =
        count-retire p (has_id c previous.id) (not_latest c) (rows ++ new ∷ []) (λ x. refl) in
      let same_flag : p new ≡ p previous = rw l (rw latest (rw owner refl)) in
      let last = count-single p new ∙ ap (λ f. if f then 1 else 0) same_flag in
      let fresh_row : count t (new ∷ []) ≡ 0 =
        count-single t new ∙ ap (λ f. if f && p new then 1 else 0) fresh in
      stated
      ∙ counts sum (count-append p rows (new ∷ [])) (count-append t rows (new ∷ [])) last fresh_row
          one

  -- A first execution, which retires none.
  pub add_execution-latest_count_first :
      (ctx : Context c) (new : Execution c) (s : Store c r) (b : String)
      → latest_count b (add_execution c r ctx new none s)
        ≡ latest_count b s + (if is_latest_of b new then 1 else 0)
  unfolding latest_count add_execution
  add_execution-latest_count_first ctx new s b =
      let p = is_latest_of b in
      let state = set_state c (execution_state c new ctx.now) in
      ap (count p) (
        r.executions.rows-update (has_id c new.id) state _
        ∙ ap (map_where (has_id c new.id) state) (r.executions.rows-insert new s.executions))
      ∙ count-map_where p (has_id c new.id) state (all_executions c r s ++ new ∷ []) (λ x. refl)
      ∙ count-append p (all_executions c r s) (new ∷ [])
      ∙ ap (λ n. count p (all_executions c r s) + n) (count-single p new)

  latest_count-kept :
      (ctx : Context c) (auth : Auth) (id : String) (s : Store c r) {s' : Store c r} (b : String)
      → distinct (map (λ e. e.id) (all_executions c r s)) ≡ true
      → str_eq id ctx.new_id ≡ false
      → Completed c r ctx auth id s s'
      → latest_count b s' ≡ latest_count b s
  unfolding latest_count
  latest_count-kept ctx auth id s {s' = s'} b ids fresh d =
      let rows = all_executions c r s in
      let p = is_latest_of b in
      let t : Execution c → Bool = λ e. str_eq e.id d.before.id && p e in
      let find : Execution c → Bool = is_execution {c = c} id auth.tenant_id in
      let finish = complete c ctx auth (completed_state c r (results_of c r s d.before)) in
      let finished = r.executions.rows-update find finish s.executions in
      let start : latest_count b
            (set_executions c r (r.executions.update find finish s.executions) s)
          ≡ latest_count b s =
        ap (count p) finished ∙ count-map_where p find finish rows (λ x. refl) in
      let one =
        ap (count t) finished
        ∙ count-map_where t find finish rows (λ x. refl)
        ∙ count-found (λ e. e.id) find p rows ids d.found in
      let same : d.before.id ≡ id = found-id id auth.tenant_id rows d.found in
      schedule_next_execution-both c r (λ u. latest_count b u ≡ latest_count b s) ctx auth
        d.assignment d.before _ d.scheduled start
        (λ due latest.
          add_execution-latest_count ctx _ d.before _ b refl
            (assignment_of-id s d.before.assignment_id d.assigned)
            (different id d.before.id ctx.new_id fresh same) one latest
          ∙ start)

  -- Completing an execution passes its mark as the latest one on exactly if its assignment is active,
  -- the procedure is not outdated and it has the mark: then the row with the new id is a latest
  -- execution of that assignment, and the completed one is none any more; otherwise there is no such
  -- row, and the completed one keeps the mark if it had it. Either way the number of latest executions
  -- of every assignment stays the same. The ids of the executions are distinct, and the id of the row
  -- that may be created is new.
  pub set_complete-latest_count :
      (ctx : Context c) (auth : Auth) (id : String) (s : Store c r) {e' : Execution c}
      {s' : Store c r} (b : String)
      → distinct (map (λ e. e.id) (all_executions c r s)) ≡ true
      → any (has_id c ctx.new_id) (all_executions c r s) ≡ false
      → set_complete c r ctx auth id s ≡ ok (e', s')
      → (before : Execution c) × (a : Assignment c) × (p : Procedure c) × (row : Execution c)
        × (find_or_fail (is_execution id auth.tenant_id) (all_executions c r s) ≡ ok before)
        × (assignment_of c r s before.assignment_id ≡ ok a)
        × (procedure_of c r s a ≡ ok p)
        × (any (is_latest_row c r ctx.new_id a.id) (all_executions c r s')
            ≡ passes_on c r a p before)
        × (find_or_fail (is_execution id auth.tenant_id) (all_executions c r s') ≡ ok row)
        × (row.latest_execution ≡ (before.latest_execution && not (passes_on c r a p before)))
        × (latest_count b s' ≡ latest_count b s)
  set_complete-latest_count ctx auth id s b ids fresh h =
      let d = set_complete-Completed c r ctx auth id s h in
      let (p, row, is_p, passed, found, left) =
        schedule_next_execution-passes c r ctx auth id s d.assignment
          (completed_state c r (results_of c r s d.before)) fresh d.found
          (found-id id auth.tenant_id (all_executions c r s) d.found) d.scheduled in
      let differs =
        new_id-fresh c r id auth.tenant_id ctx.new_id (all_executions c r s) fresh d.found in
      (
        d.before,
        d.assignment,
        p,
        row,
        d.found,
        d.assigned,
        is_p,
        passed,
        found,
        left,
        latest_count-kept ctx auth id s b ids differs d,
      )
