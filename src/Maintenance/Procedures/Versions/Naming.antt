-- ===== src/Maintenance/Procedures/Versions/Naming.antt =====
-- The names of procedures under updates.
use elunic_myturck.Base.{
  ◌≤◌, ◌≡◌, ◌⊎◌, refl, sym, Bool, true, false, Option, none, some, List, [], ◌∷◌, String, arith,
  inl, inr,
}
use mathlib.Core.Path.{subst}
use elunic_myturck.Base.Counting.{count}
use elunic_myturck.Base.Repository.{map_where, find_or_fail}
use elunic_myturck.Base.Results.{Result, ok, >>=-eq-ok, ok-injective}
use elunic_myturck.Maintenance.{Clock, Repositories, Store, Procedure, Auth}
use elunic_myturck.Maintenance.Executions.{is_some}
use elunic_myturck.Maintenance.Procedures.{
  StepDto, UpdateDto, NewIds, or_default, is_active_named, all_procedures, create_procedure,
  get_current,
}
use elunic_myturck.Maintenance.Procedures.Creation.{NamesOnce, create_procedure-NamesOnce}
use elunic_myturck.Maintenance.Procedures.Versions.{
  has_procedure_id, edit, outdate, set_root, set_procedures, updated_dto, move_to_version,
  edit_version, replace_version, save_update, update_procedure,
}

-- An update after which no other row counts.
count-map_where-le {ℓ} :
    {A : Type ℓ} (p r : A → Bool) (f : A → A) (xs : List A)
    → ((x : A) → p (f x) ≡ true → p x ≡ true)
    → count p (map_where r f xs) ≤ count p xs
unfolding count
count-map_where-le p r f [] k = omega arith
count-map_where-le p r f (x ∷ xs) k = ground (arith, count-map_where-le p r f xs k, k x)

module _ (c : Clock) (r : Repositories c) where
  update-NamesOnce :
      (t : Procedure c → Bool) (f : Procedure c → Procedure c) (s : Store c r)
      → ((tenant name : String) (p : Procedure c)
          → is_active_named c tenant name (f p) ≡ true
          → is_active_named c tenant name p ≡ true)
      → NamesOnce c r s
      → NamesOnce c r (set_procedures c r (r.procedures.update t f s.procedures) s)
  update-NamesOnce t f s keeps once tenant name =
      let q = is_active_named c tenant name in
      subst (λ xs. count q xs ≤ 1) (sym (r.procedures.rows-update t f s.procedures))
        (omega (
          arith,
          count-map_where-le q t f (all_procedures c r s) (keeps tenant name),
          once tenant name,
        ))

  outdated_inactive :
      (now : c.Time) (tenant name : String) (p : Procedure c)
      → is_active_named c tenant name (outdate c r now p) ≡ true
      → is_active_named c tenant name p ≡ true
  outdated_inactive now tenant name p h = ground arith

  move_to_version-NamesOnce :
      (ids : NewIds) (auth : Auth) (before id : String) (p : Procedure c) (s : Store c r)
      → NamesOnce c r s
      → NamesOnce c r (move_to_version c r ids auth before id p s)
  unfolding move_to_version
  move_to_version-NamesOnce ids auth before id p s once =
      update-NamesOnce (has_procedure_id c r p.id) (set_root c r id) s (λ tenant name x h. h) once

  replace_version-NamesOnce :
      (ids : NewIds) (now : c.Time) (auth : Auth) (asset_type : Result String) (id : String)
      (dto : UpdateDto) (ds : List StepDto) (entity : Procedure c) (s : Store c r)
      {new : String × Store c r}
      → replace_version c r ids now auth asset_type id dto ds entity s ≡ ok new
      → NamesOnce c r s
      → NamesOnce c r new.1
  unfolding replace_version
  replace_version-NamesOnce ids now auth asset_type id dto ds entity s h once =
      let start =
        set_procedures c r
          (r.procedures.update (has_procedure_id c r entity.id) (outdate c r now) s.procedures) s in
      let (created, run, e) =
        >>=-eq-ok (create_procedure c r ids auth asset_type (updated_dto c r dto ds entity) start) _
          h in
      subst (λ t. NamesOnce c r t.1) (ok-injective e)
        (move_to_version-NamesOnce ids auth entity.id id created.0 created.1 (
          create_procedure-NamesOnce c r ids auth asset_type _ start run (
            update-NamesOnce (has_procedure_id c r entity.id) (outdate c r now) s
              (outdated_inactive now) once)))

  edit_version-NamesOnce :
      (dto : UpdateDto) (entity : Procedure c) (s : Store c r) {new : String × Store c r}
      → edit_version c r dto entity s ≡ ok new
      → dto.name ≡ none
      → NamesOnce c r s
      → NamesOnce c r new.1
  unfolding edit_version
  edit_version-NamesOnce dto entity s h unnamed once =
      subst (λ t. NamesOnce c r t.1) (ok-injective h)
        (update-NamesOnce (has_procedure_id c r entity.id) (edit c r dto) s
          (λ tenant name p k.
            subst
              (λ n. is_active_named c tenant name (record p { name = or_default n p.name }) ≡ true)
              unnamed k)
          once)

  save_update-NamesOnce :
      (ids : NewIds) (now : c.Time) (auth : Auth) (asset_types : String → Result String)
      (id : String) (dto : UpdateDto) (ds : Option (List StepDto))
      (versions : Procedure c × Option (Procedure c)) (s : Store c r) {new : String × Store c r}
      → (is_some ds ≡ false → dto.name ≡ none)
      → NamesOnce c r s
      → save_update c r ids now auth asset_types id dto ds versions s ≡ ok new
      → NamesOnce c r new.1
  unfolding save_update
  save_update-NamesOnce ids now auth asset_types id dto none (root, current) s unnamed once run =
      edit_version-NamesOnce dto _ s run (unnamed refl) once
  save_update-NamesOnce ids now auth asset_types id dto (some ds) (root, current) s unnamed once
        run =
      replace_version-NamesOnce ids now auth _ id dto ds _ s run once

  -- An update that has new steps, or that does not rename the procedure, keeps the names of the active
  -- procedures of each tenant distinct.
  pub update_procedure-NamesOnce :
      (ids : NewIds) (now : c.Time) (auth : Auth) (asset_types : String → Result String)
      (id : String) (dto : UpdateDto) (s : Store c r) {p : Procedure c} {s' : Store c r}
      → (dto.name ≡ none) ⊎ (is_some dto.steps ≡ true)
      → NamesOnce c r s
      → update_procedure c r ids now auth asset_types id dto s ≡ ok (p, s')
      → NamesOnce c r s'
  unfolding update_procedure
  update_procedure-NamesOnce ids now auth asset_types id dto s {p} {s'} either once h =
      let (versions, current, h1) = >>=-eq-ok (get_current c r auth id s) _ h in
      let (saved, run, h2) =
        >>=-eq-ok (save_update c r ids now auth asset_types id dto dto.steps versions s) _ h1 in
      let (q, found, e) =
        >>=-eq-ok (find_or_fail (has_procedure_id c r saved.0) (all_procedures c r saved.1)) _ h2 in
      subst (λ t. NamesOnce c r t.1) (ok-injective e)
        (save_update-NamesOnce ids now auth asset_types id dto dto.steps versions s
          (named_or_new either) once run)
    where
      named_or_new :
          (dto.name ≡ none) ⊎ (is_some dto.steps ≡ true)
          → is_some dto.steps ≡ false
          → dto.name ≡ none
      named_or_new (inl e) h = e
      named_or_new (inr e) h = absurd (cc (e, h))
