-- ===== src/Maintenance/Procedures/Versions/Moving.antt =====
-- What happens to the executions of a procedure when a new version replaces it.
use elunic_myturck.Base.{
  any, ℕ, ◌≡◌, refl, sym, ap, ◌∙◌, Bool, false, not, List, ◌++◌, String, filter, map,
}
use mathlib.Core.Path.{subst}
use elunic_myturck.Base.Names.{member}
use elunic_myturck.Base.Results.{Result, ok, >>=-eq-ok, ok-injective}
use elunic_myturck.Maintenance.{Clock, Repositories, Store, Procedure, Assignment, Execution, Auth}
use elunic_myturck.Maintenance.Executions.{all_executions}
use elunic_myturck.Maintenance.Procedures.{StepDto, UpdateDto, NewIds, create_procedure}
use elunic_myturck.Maintenance.Procedures.Creation.{create_procedure-Created}
use elunic_myturck.Maintenance.Procedures.Versions.{
  has_procedure_id, outdate, set_procedures, updated_dto, copied_assignments, copied_executions,
  is_assigned_to, is_open_of, move_to_version, replace_version,
}
use elunic_myturck.Maintenance.Procedures.Versions.Pairs.{
  AllPairs, IsCopy, any-append_right, copied_executions-pairs,
}
use elunic_myturck.Maintenance.Procedures.Versions.Copies.{
  rows-insert_all, filter-append, filter-all, is_active_in, copied_executions-all,
}

module _ (c : Clock) (r : Repositories c) where
  -- The assignments of a version, and its executions that are not completed.
  abbrev pub assigned_to : Auth → String → Store c r → List (Assignment c)
  assigned_to auth before s =
      filter (is_assigned_to c r auth.tenant_id before) (r.assignments.rows s.assignments)

  abbrev pub ongoing_of : Auth → String → Store c r → List (Execution c)
  ongoing_of auth before s =
      filter (is_open_of c r auth.tenant_id (assigned_to auth before s)) (all_executions c r s)

  abbrev pub is_ongoing : Auth → String → Store c r → Execution c → Bool
  is_ongoing auth before s e = member e.id (map (λ o. o.id) (ongoing_of auth before s))

  -- The executions after a move: those that stay, and the copies.
  pub Moved : Auth → String → String → Store c r → Store c r → Type 0
  Moved auth before version s s' =
      (copies : List (Execution c)) × (all_executions c r s'
        ≡ filter (λ e. not (is_ongoing auth before s e)) (all_executions c r s) ++ copies)
      × AllPairs
          (IsCopy c r (assigned_to auth before s) (r.assignments.rows s'.assignments) version)
          (filter (λ e. is_active_in c r (assigned_to auth before s) e.assignment_id)
            (ongoing_of auth before s))
          copies

  ongoing-tables {κ} :
      (P : List (Execution c) → Type κ) (auth : Auth) (before : String) (s t : Store c r)
      → s.assignments ≡ t.assignments
      → s.executions ≡ t.executions
      → P (ongoing_of auth before s)
      → P (ongoing_of auth before t)
  ongoing-tables P auth before s t d e h =
      subst (λ x. P (ongoing_of auth before (record t { executions = x }))) e
        (subst
          (λ x.
            P (ongoing_of auth before (record t { assignments = x; executions = s.executions })))
          d h)

  Moved-tables :
      (auth : Auth) (before version : String) (s t u : Store c r)
      → s.assignments ≡ t.assignments
      → s.executions ≡ t.executions
      → Moved auth before version s u
      → Moved auth before version t u
  unfolding Moved
  Moved-tables auth before version s t u d e h =
      subst (λ x. Moved auth before version (record t { executions = x }) u) e
        (subst
          (λ x.
            Moved auth before version (record t { assignments = x; executions = s.executions }) u)
          d h)

  move_to_version-Moved :
      (ids : NewIds) (auth : Auth) (before id : String) (p : Procedure c) (s : Store c r)
      → ((k : ℕ) → member (ids.execution k) (map (λ o. o.id) (ongoing_of auth before s)) ≡ false)
      → Moved auth before p.id s (move_to_version c r ids auth before id p s)
  unfolding move_to_version Moved
  move_to_version-Moved ids auth before id p s fresh =
      let old = assigned_to auth before s in
      let new = copied_assignments c r ids.assignment 0 auth.tenant_id p.id old in
      let copies =
        copied_executions c r ids.execution 0 auth.tenant_id old new (ongoing_of auth before s) in
      let stays : Execution c → Bool = λ e. not (is_ongoing auth before s e) in
      (
        copies,
        r.executions.rows-delete _ _
            ∙ ap (filter stays) (rows-insert_all r.executions copies s.executions)
            ∙ filter-append stays (all_executions c r s) copies
            ∙ ap (λ xs. filter stays (all_executions c r s) ++ xs)
                (filter-all stays copies (
                  copied_executions-all c r stays ids.execution 0 auth.tenant_id old new _
                    (λ k a e. rw (fresh k) refl))),
        copied_executions-pairs c r ids.execution 0 ids.assignment auth.tenant_id p.id old _ _
            (λ q h.
              ap (any q) (rows-insert_all r.assignments new s.assignments)
              ∙ any-append_right q (r.assignments.rows s.assignments) new h),
      )

  -- When a version is replaced, its executions that are not completed are deleted. Those of active
  -- assignments have copies, in the same order: each copy has the due date of its execution, is not
  -- completed, does not count as the latest execution of its assignment, and belongs to an active
  -- assignment of the new version, to the asset that the old assignment was for. The ids of the new rows
  -- are new.
  pub replace_version-Moved :
      (ids : NewIds) (now : c.Time) (auth : Auth) (asset_type : Result String) (id : String)
      (dto : UpdateDto) (ds : List StepDto) (entity : Procedure c) (s : Store c r)
      {new : String × Store c r}
      → ((k : ℕ) → member (ids.execution k) (map (λ o. o.id) (ongoing_of auth entity.id s)) ≡ false)
      → replace_version c r ids now auth asset_type id dto ds entity s ≡ ok new
      → Moved auth entity.id new.0 s new.1
  unfolding replace_version
  replace_version-Moved ids now auth asset_type id dto ds entity s fresh h =
      let start =
        set_procedures c r
          (r.procedures.update (has_procedure_id c r entity.id) (outdate c r now) s.procedures) s in
      let (created, run, e) =
        >>=-eq-ok (create_procedure c r ids auth asset_type (updated_dto c r dto ds entity) start) _
          h in
      let (type_id, d) = create_procedure-Created c r ids auth asset_type _ start run in
      subst (λ t. Moved auth entity.id t.0 s t.1) (ok-injective e)
        (Moved-tables auth entity.id created.0.id created.1 s _ d.assignments_after
          d.executions_after
          (move_to_version-Moved ids auth entity.id id created.0 created.1 (
            ongoing-tables (λ os. (k : ℕ) → member (ids.execution k) (map (λ o. o.id) os) ≡ false)
              auth entity.id s created.1 (sym d.assignments_after) (sym d.executions_after) fresh)))
