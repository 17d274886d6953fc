-- ===== src/Maintenance/Procedures/Versions/Current.antt =====
-- Which version of a procedure is the current one after an update.
use elunic_myturck.Base.{
  ◌≤◌, ◌≡◌, refl, sym, ap, ◌∙◌, Bool, true, false, Option, none, some, List, [], ◌∷◌, ◌++◌, String,
  find, map, any, arith, if◌then◌else◌, Bool-cases, inl, inr,
}
use mathlib.Core.Path.{subst}
use elunic_myturck.Base.Counting.{count}
use elunic_myturck.Base.Names.{member, str_eq_self}
use elunic_myturck.Base.Searching.{
  map_where-none, map_where-append, find-snoc, find-any, any-map_where, retire-any,
}
use elunic_myturck.Base.Repository.{
  map_where, find_or_fail, find_or_fail-append, find_or_fail-map_where,
}
use elunic_myturck.Base.Results.{Result, ok, >>=-eq-ok, ok-injective}
use elunic_myturck.Maintenance.{Clock, Repositories, Store, Procedure, Auth}
use elunic_myturck.Maintenance.Executions.{is_some}
use elunic_myturck.Maintenance.Assignments.{is_root_procedure, is_current, or_root}
use elunic_myturck.Maintenance.Procedures.{
  StepDto, UpdateDto, NewIds, new_procedure, all_procedures, create_procedure, get_current,
  get_procedure,
}
use elunic_myturck.Maintenance.Procedures.Creation.{create_procedure-Created}
use elunic_myturck.Maintenance.Procedures.Versions.{
  has_procedure_id, outdate, set_root, set_procedures, updated_dto, move_to_version,
  replace_version, save_update, update_procedure,
}

module _ (c : Clock) (r : Repositories c) where
  fresh_id :
      (id : String) (rows : List (Procedure c))
      → member id (map (λ p. p.id) rows) ≡ false
      → any (has_procedure_id c r id) rows ≡ false
  fresh_id id [] h = refl
  fresh_id id (x ∷ xs) h = ground (arith, fresh_id id xs)

  outdated_id :
      (now : c.Time) (t : Procedure c → Bool) (rows : List (Procedure c))
      → map (λ p. p.id) (map_where t (outdate c r now) rows) ≡ map (λ p. p.id) rows
  outdated_id now t [] = refl
  outdated_id now t (x ∷ xs) = elim (Bool-cases (t x)) [
    | inl hit ↦ rw hit (ap (λ ys. x.id ∷ ys) (outdated_id now t xs))
    | inr miss ↦ rw miss (ap (λ ys. x.id ∷ ys) (outdated_id now t xs))
  ]

  -- The table of procedures after a replacement: the rows before, one of them outdated, and the new version.
  replace_version-rows :
      (ids : NewIds) (now : c.Time) (auth : Auth) (asset_type : Result String) (id : String)
      (dto : UpdateDto) (ds : List StepDto) (entity : Procedure c) (s : Store c r)
      {new : String × Store c r}
      → member ids.procedure (map (λ p. p.id) (all_procedures c r s)) ≡ false
      → replace_version c r ids now auth asset_type id dto ds entity s ≡ ok new
      → (type_id : String) × (new.0 ≡ ids.procedure)
        × (all_procedures c r new.1
            ≡ map_where (has_procedure_id c r entity.id) (outdate c r now) (all_procedures c r s)
              ++ set_root c r id (
                  new_procedure c ids.procedure auth.tenant_id type_id
                    (updated_dto c r dto ds entity))
                ∷ [])
  unfolding replace_version move_to_version
  replace_version-rows ids now auth asset_type id dto ds entity s fresh h =
      let rows = all_procedures c r s in
      let start =
        set_procedures c r
          (r.procedures.update (has_procedure_id c r entity.id) (outdate c r now) s.procedures) s in
      let (created, run, e) =
        >>=-eq-ok (create_procedure c r ids auth asset_type (updated_dto c r dto ds entity) start) _
          h in
      let (type_id, d) = create_procedure-Created c r ids auth asset_type _ start run in
      let own = has_procedure_id c r ids.procedure in
      let new_version =
        new_procedure c ids.procedure auth.tenant_id type_id (updated_dto c r dto ds entity) in
      let made = ap (λ p. p.id) d.made in
      let outdated = map_where (has_procedure_id c r entity.id) (outdate c r now) rows in
      (
        type_id,
        ap (λ t. t.0) (sym (ok-injective e)) ∙ made,
        ap (λ t. all_procedures c r t.1) (sym (ok-injective e))
            ∙ r.procedures.rows-update _ _ created.1.procedures
            ∙ ap
                (λ i.
                  map_where (has_procedure_id c r i) (set_root c r id)
                    (all_procedures c r created.1))
                made
            ∙ ap (map_where own (set_root c r id)) (
                d.procedures_after
                ∙ ap (λ xs. xs ++ created.0 ∷ []) (r.procedures.rows-update _ _ s.procedures)
                ∙ ap (λ p. outdated ++ p ∷ []) d.made)
            ∙ map_where-append own (set_root c r id) outdated _
            ∙ ap (λ xs. xs ++ map_where own (set_root c r id) (new_version ∷ []))
                (map_where-none own (set_root c r id) outdated (
                  fresh_id ids.procedure outdated (
                    ap (member ids.procedure)
                      (outdated_id now (has_procedure_id c r entity.id) rows)
                    ∙ fresh)))
            ∙ ap (λ b. outdated ++ (if b then set_root c r id new_version else new_version) ∷ [])
                (str_eq_self ids.procedure),
      )

  -- The row that was current is outdated, so that no row but the new one is current.
  outdated-current :
      (now : c.Time) (tenant id : String) (root : Procedure c) (rows : List (Procedure c))
      (current : Option (Procedure c))
      → count (is_current c tenant id) rows ≤ 1
      → find (is_current c tenant id) rows ≡ current
      → any
          (is_current c tenant id)
          (map_where (has_procedure_id c r (or_root c current root).id) (outdate c r now) rows)
        ≡ false
  outdated-current now tenant id root rows none once h =
      any-map_where (is_current c tenant id) _ (outdate c r now) rows (λ x q. ground arith)
        (find-any (is_current c tenant id) rows h)
  outdated-current now tenant id root rows (some current) once h =
      retire-any (is_current c tenant id) _ (outdate c r now) rows (λ x. ground arith) once h
        (str_eq_self current.id)

  get_procedure-rows :
      (auth : Auth) (id : String) (s : Store c r) {root p : Procedure c}
      → find_or_fail (is_root_procedure c auth.tenant_id id) (all_procedures c r s) ≡ ok root
      → find (is_current c auth.tenant_id id) (all_procedures c r s) ≡ some p
      → get_procedure c r auth id s ≡ ok p
  unfolding get_procedure get_current
  get_procedure-rows auth id s h k = rw h (rw k refl)

  find_id :
      (id : String) (rows : List (Procedure c)) (p : Procedure c)
      → any (has_procedure_id c r id) rows ≡ false
      → p.id ≡ id
      → find_or_fail (has_procedure_id c r id) (rows ++ p ∷ []) ≡ ok p
  find_id id [] p h e = rw e (rw (str_eq_self id) refl)
  find_id id (x ∷ xs) p h e = ground (arith, find_id id xs p)

  get_current-eq-ok :
      (auth : Auth) (id : String) (s : Store c r) {versions : Procedure c × Option (Procedure c)}
      → get_current c r auth id s ≡ ok versions
      → (find_or_fail (is_root_procedure c auth.tenant_id id) (all_procedures c r s)
          ≡ ok versions.0)
        × (find (is_current c auth.tenant_id id) (all_procedures c r s) ≡ versions.1)
  unfolding get_current
  get_current-eq-ok auth id s h =
      let (root, found, e) =
        >>=-eq-ok (find_or_fail (is_root_procedure c auth.tenant_id id) (all_procedures c r s)) _
          h in
      (found ∙ ap (λ t. ok t.0) (ok-injective e), ap (λ t. t.1) (ok-injective e))

  -- The lookups after a replacement.
  replaced-current :
      (ids : NewIds) (now : c.Time) (auth : Auth) (id : String) (s s' : Store c r)
      (versions : Procedure c × Option (Procedure c)) (p : Procedure c)
      → count (is_current c auth.tenant_id id) (all_procedures c r s) ≤ 1
      → member ids.procedure (map (λ q. q.id) (all_procedures c r s)) ≡ false
      → get_current c r auth id s ≡ ok versions
      → p.id ≡ ids.procedure
      → is_current c auth.tenant_id id p ≡ true
      → all_procedures c r s'
        ≡ map_where
            (has_procedure_id c r (or_root c versions.1 versions.0).id)
            (outdate c r now)
            (all_procedures c r s)
          ++ p ∷ []
      → (get_procedure c r auth id s' ≡ ok p)
        × (find_or_fail (has_procedure_id c r ids.procedure) (all_procedures c r s') ≡ ok p)
  replaced-current ids now auth id s s' (root, current) p once fresh versions named is_new
        rows_after =
      let rows = all_procedures c r s in
      let t = has_procedure_id c r (or_root c current root).id in
      let (root_found, current_found) = get_current-eq-ok auth id s versions in
      let q = is_root_procedure c auth.tenant_id id in
      (
        get_procedure-rows auth id s'
            (ap (find_or_fail q) rows_after
              ∙ find_or_fail-append q (map_where t (outdate c r now) rows) (p ∷ [])
                  (find_or_fail-map_where q t (outdate c r now) rows (λ x. refl) root_found))
            (ap (find (is_current c auth.tenant_id id)) rows_after
              ∙ find-snoc (is_current c auth.tenant_id id) _ p
                  (outdated-current now auth.tenant_id id root rows current once current_found)
                  is_new),
        ap (find_or_fail (has_procedure_id c r ids.procedure)) rows_after
            ∙ find_id ids.procedure _ p
                (fresh_id ids.procedure _
                  (ap (member ids.procedure) (outdated_id now t rows) ∙ fresh))
                named,
      )

  save_update-current :
      (ids : NewIds) (now : c.Time) (auth : Auth) (asset_types : String → Result String)
      (id : String) (dto : UpdateDto) (ds : Option (List StepDto))
      (versions : Procedure c × Option (Procedure c)) (s : Store c r) {saved : String × Store c r}
      → is_some ds ≡ true
      → count (is_current c auth.tenant_id id) (all_procedures c r s) ≤ 1
      → member ids.procedure (map (λ q. q.id) (all_procedures c r s)) ≡ false
      → get_current c r auth id s ≡ ok versions
      → save_update c r ids now auth asset_types id dto ds versions s ≡ ok saved
      → (p : Procedure c) × (get_procedure c r auth id saved.1 ≡ ok p)
        × (find_or_fail (has_procedure_id c r saved.0) (all_procedures c r saved.1) ≡ ok p)
        × (p.id ≡ ids.procedure)
  unfolding save_update
  save_update-current ids now auth asset_types id dto none versions s complex once fresh current
        run =
      absurd (cc complex)
  save_update-current ids now auth asset_types id dto (some ds) (root, last) s {saved} complex once
        fresh current run =
      let (type_id, named, rows_after) =
        replace_version-rows ids now auth _ id dto ds _ s fresh run in
      let p = set_root c r id (
        new_procedure c ids.procedure auth.tenant_id type_id
          (updated_dto c r dto ds (or_root c last root))) in
      let (got, found) =
        replaced-current ids now auth id s saved.1 (root, last) p once fresh current refl
          (rw (str_eq_self auth.tenant_id) (rw (str_eq_self id) refl)) rows_after in
      (
        p,
        got,
        ap (λ i. find_or_fail (has_procedure_id c r i) (all_procedures c r saved.1)) named ∙ found,
        refl,
      )

  -- After an update with steps that succeeds, the procedure of this id is the new version, which the update
  -- has returned. At most one version was current before, and the id of the new row is new.
  pub update_procedure-get_procedure :
      (ids : NewIds) (now : c.Time) (auth : Auth) (asset_types : String → Result String)
      (id : String) (dto : UpdateDto) (s : Store c r) {p : Procedure c} {s' : Store c r}
      → is_some dto.steps ≡ true
      → count (is_current c auth.tenant_id id) (all_procedures c r s) ≤ 1
      → member ids.procedure (map (λ q. q.id) (all_procedures c r s)) ≡ false
      → update_procedure c r ids now auth asset_types id dto s ≡ ok (p, s')
      → (get_procedure c r auth id s' ≡ ok p) × (p.id ≡ ids.procedure)
  unfolding update_procedure
  update_procedure-get_procedure ids now auth asset_types id dto s {p} {s'} complex once fresh h =
      let (versions, current, h1) = >>=-eq-ok (get_current c r auth id s) _ h in
      let (saved, run, h2) =
        >>=-eq-ok (save_update c r ids now auth asset_types id dto dto.steps versions s) _ h1 in
      let (q, found, e) =
        >>=-eq-ok (find_or_fail (has_procedure_id c r saved.0) (all_procedures c r saved.1)) _ h2 in
      let (new, got, same, named) =
        save_update-current ids now auth asset_types id dto dto.steps versions s complex once fresh
          current run in
      let returned : new ≡ p = ok-injective (sym same ∙ found) ∙ ap (λ t. t.0) (ok-injective e) in
      subst (λ t. (get_procedure c r auth id t ≡ ok p) × (p.id ≡ ids.procedure))
        (ap (λ t. t.1) (ok-injective e))
        (got ∙ ap (λ x. ok x) returned, sym (ap (λ x. x.id) returned) ∙ named)
