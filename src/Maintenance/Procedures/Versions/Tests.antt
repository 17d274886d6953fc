-- ===== src/Maintenance/Procedures/Versions/Tests.antt =====
-- A new version of a procedure, and the theorems at it.
use elunic_myturck.Base.{Option, String, ◌≡◌, ◌≤◌, refl, none, some, [], ◌∷◌, map, arith, inl}
use elunic_myturck.Base.Counting.{count}
use elunic_myturck.Base.Results.{Result, ok}
use elunic_myturck.Maintenance.{Store, Procedure}
use elunic_myturck.Maintenance.Samples.{hour_clock, tables, user}
use elunic_myturck.Maintenance.Procedures.{
  stored, individual, final_steps, store_procedure, create_procedure, get_current, get_procedure,
  is_active_named,
}
use elunic_myturck.Maintenance.Procedures.Versions.{
  copied_executions, edit_version, replace_version, save_update, update_procedure, move_to_version,
}
use elunic_myturck.Maintenance.Procedures.Versions.Naming.{update_procedure-NamesOnce}
use elunic_myturck.Maintenance.Procedures.Versions.Moving.{Moved, replace_version-Moved}
use elunic_myturck.Maintenance.Procedures.Versions.Current.{update_procedure-get_procedure}
use elunic_myturck.Maintenance.Procedures.Samples.{
  oil, with_library, new_ids, update_dto, rename_dto, types, store_of, old_procedure, new_version,
  two_procedures, one_procedure,
}

abbrev updated : Result (Procedure hour_clock × Store hour_clock tables)
updated = update_procedure hour_clock tables new_ids 100 user types "p" update_dto with_library

-- The positions of the new steps are those of the request, and the library step has its parent.
steps_in_order :
    map {B = String × Option String} (λ t. (t.name, t.parent)) (store_of updated).steps
    ≡ ("oil", none) ∷ ("oil", none) ∷ ("belt", some "l") ∷ []
unfolding update_procedure save_update replace_version create_procedure store_procedure final_steps
    get_current move_to_version copied_executions
steps_in_order = refl

renames :
    count
      (is_active_named hour_clock "t" "inspect")
      (store_of (
        update_procedure hour_clock tables new_ids 100 user types "q" rename_dto
          two_procedures)).procedures
    ≡ 2
unfolding update_procedure save_update edit_version get_current count
renames = refl

update_procedure-NamesOnce_example :
    count (is_active_named hour_clock "t" "inspect") (store_of updated).procedures ≤ 1
unfolding update_procedure save_update replace_version create_procedure store_procedure final_steps
    get_current move_to_version copied_executions
update_procedure-NamesOnce_example =
    update_procedure-NamesOnce hour_clock tables new_ids 100 user types "p" update_dto with_library
      (inl refl) one_procedure refl "t" "inspect"

replace_version-Moved_example : Moved hour_clock tables user "p" "p2" with_library (
    store_of (
      replace_version hour_clock tables new_ids 100 user
        (ok "pump")
        "p"
        update_dto
        (individual oil ∷ stored "l" ∷ [])
        old_procedure
        with_library))
unfolding replace_version create_procedure store_procedure final_steps move_to_version
    copied_executions
replace_version-Moved_example =
    replace_version-Moved hour_clock tables new_ids 100 user (ok "pump") "p" update_dto
      (individual oil ∷ stored "l" ∷ []) old_procedure with_library (λ k. refl) refl

update_procedure-get_procedure_example :
    (get_procedure hour_clock tables user "p" (store_of updated) ≡ ok new_version)
    × (new_version.id ≡ "p2")
unfolding update_procedure save_update replace_version create_procedure store_procedure final_steps
    get_current move_to_version copied_executions count
update_procedure-get_procedure_example =
    update_procedure-get_procedure hour_clock tables new_ids 100 user types "p" update_dto
      with_library refl (omega arith) refl refl
