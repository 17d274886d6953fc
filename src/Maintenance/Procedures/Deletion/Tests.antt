-- ===== src/Maintenance/Procedures/Deletion/Tests.antt =====
-- A procedure that has a second version, beside another one: deleting it.
use elunic_myturck.Base.{
  ◌≡◌, refl, true, false, not, ◌&&◌, some, List, [], ◌∷◌, All, any, filter, map, String, str_eq,
}
use elunic_myturck.Base.Names.{member}
use elunic_myturck.Base.Results.{ok, err, entity_not_found, internal_error}
use elunic_myturck.Maintenance.{Store, Assignment}
use elunic_myturck.Maintenance.Samples.{hour_clock, tables, store, user}
use elunic_myturck.Maintenance.Cascades.{delete_assignments, delete_procedures}
use elunic_myturck.Maintenance.Procedures.{all_procedures, get_current, get_procedure}
use elunic_myturck.Maintenance.Procedures.Samples.{old_procedure, new_version}
use elunic_myturck.Maintenance.Procedures.Deletion.{
  FileService, unassign_all, unlink, remove_doc_links, delete_procedure,
}
use elunic_myturck.Maintenance.Procedures.Deletion.Family.{is_family, delete_procedure-family}

-- Documents with the ids that they have links to.
abbrev files : FileService
files = record {
  State = List (String × List String);
  documents = λ refs st. ok (
      map (λ d. record { id = d.0; links = some d.1 })
        (filter (λ d. any (λ ref. member ref refs) d.1) st));
  unassign = λ doc ref st.
      some (map (λ d. (d.0, filter (λ x. not (str_eq d.0 doc && str_eq x ref)) d.1)) st);
}

abbrev versions : Store hour_clock tables
versions = record store {
  procedures = old_procedure ∷ new_version ∷ record old_procedure { id = "q"; name = "clean" } ∷ [];
  assignments =
      record { id = "a"; tenant_id = "t"; asset_id = "x"; procedure_id = "p2"; active = true }
      ∷ record { id = "b"; tenant_id = "t"; asset_id = "x"; procedure_id = "q"; active = true }
      ∷ [];
}

abbrev left : Store hour_clock tables
left = record {
  procedures = record old_procedure { id = "q"; name = "clean" } ∷ [];
  assignments =
      record { id = "b"; tenant_id = "t"; asset_id = "x"; procedure_id = "q"; active = true } ∷ [];
  executions = [];
  steps = [];
  library = [];
  results = [];
}

delete_procedure_test :
    delete_procedure files hour_clock tables false user "p" versions
      (("manual", "s" ∷ "z" ∷ []) ∷ [])
    ≡ ok (left, ("manual", "z" ∷ []) ∷ [])
unfolding delete_procedure get_current remove_doc_links unlink unassign_all delete_procedures
    delete_assignments
delete_procedure_test = refl

refused_test :
    delete_procedure files hour_clock tables true user "p" versions [] ≡ err internal_error
unfolding delete_procedure get_current remove_doc_links unlink unassign_all delete_procedures
    delete_assignments
refused_test = refl

delete_procedure-family_example :
    (map (λ p. p.id) (all_procedures hour_clock tables left)
      ≡ map
          (λ p. p.id)
          (filter
            (λ p. not (is_family files hour_clock tables "t" "p" p))
            (all_procedures hour_clock tables versions)))
    × (get_procedure hour_clock tables user "p" left ≡ err entity_not_found)
    × All
        (λ (a : Assignment hour_clock).
          any
            (λ p. is_family files hour_clock tables "t" "p" p && str_eq p.id a.procedure_id)
            (all_procedures hour_clock tables versions)
          ≡ false)
        left.assignments
delete_procedure-family_example =
    delete_procedure-family files hour_clock tables false user "p" versions left
      (("manual", "s" ∷ "z" ∷ []) ∷ []) (("manual", "z" ∷ []) ∷ []) refl delete_procedure_test
