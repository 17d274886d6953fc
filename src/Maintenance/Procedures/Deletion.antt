-- ===== src/Maintenance/Procedures/Deletion.antt =====
-- Deleting a procedure with all its versions: deleteProcedure and removeDocLinks of
-- maintenance-backend/src/maintenance-procedure/maintenance-procedure.service.ts. The file service, which keeps the
-- documents, is an interface. What a request that fails has changed there by then is left out.
pub mod Family
mod Tests
use elunic_myturck.Base.{
  Bool, true, false, not, ◌&&◌, Option, none, some, List, [], ◌∷◌, String, str_eq, filter, map,
  if◌then◌else◌,
}
use elunic_myturck.Base.Names.{member}
use elunic_myturck.Base.Repository.{find_or_fail}
use elunic_myturck.Base.Results.{Result, ok, err, ◌>>=◌}
use elunic_myturck.Maintenance.{Clock, Repositories, Store, Procedure, ProcedureStep, Auth}
use elunic_myturck.Maintenance.Cascades.{delete_procedures}
use elunic_myturck.Maintenance.Assignments.{has_root}
use elunic_myturck.Maintenance.Procedures.{all_procedures, get_current}

-- `DocumentDto`, of which the id and the ids in its links are read
pub record Document : Type 0 where
  pub id : String
  pub links : Option (List String)

-- The calls of the file service.
pub record FileService : Type 1 where
  pub State : Type 0
  -- the documents that have a link to one of the ids, with all their links
  pub documents : List String → State → Result (List Document)
  -- `unassign`, which does nothing where it fails
  pub unassign : String → String → State → Option State

-- `doc.links?.filter(l => refIds.includes(l.refId)) || []`
abbrev pub links_among : List String → Option (List String) → List String
links_among refs none = []
links_among refs (some links) = filter (λ ref. member ref refs) links

module _ (files : FileService) where
  -- `.catch(() => {})`
  abbrev pub or_same : files.State → Option files.State → files.State
  or_same before none = before
  or_same before (some after) = after

  unfoldable pub unassign_all : String → List String → files.State → files.State
  unassign_all doc [] st = st
  unassign_all doc (ref ∷ refs) st = unassign_all doc refs (or_same st (files.unassign doc ref st))

  unfoldable pub unlink : List String → List Document → files.State → files.State
  unlink refs [] st = st
  unlink refs (d ∷ docs) st = unlink refs docs (unassign_all d.id (links_among refs d.links) st)

  unfoldable pub remove_doc_links : List ProcedureStep → files.State → Result files.State
  remove_doc_links steps st = files.documents (map (λ t. t.id) steps) st >>= λ docs.
      ok (unlink (map (λ t. t.id) steps) docs st)

  module _ (c : Clock) (r : Repositories c) where
    -- `{ tenantId, root }`
    abbrev pub is_derivative : String → String → Procedure c → Bool
    is_derivative tenant id p = str_eq p.tenant_id tenant && has_root c id p.root

    -- `{ tenantId, id }`
    abbrev pub is_own : String → String → Procedure c → Bool
    is_own tenant id p = str_eq p.tenant_id tenant && str_eq p.id id

    -- The first argument is whether the database refuses to delete steps with results.
    unfoldable pub delete_procedure :
        Bool → Auth → String → Store c r → files.State → Result (Store c r × files.State)
    delete_procedure refuses auth id s st = get_current c r auth id s >>= λ versions.
        find_or_fail (is_own auth.tenant_id versions.0.id) (all_procedures c r s) >>= λ entity.
        remove_doc_links (filter (λ t. str_eq t.procedure_id entity.id) (r.steps.rows s.steps)) st
        >>= λ unlinked.
            delete_procedures c r refuses
              (versions.0.id
                ∷ map (λ p. p.id)
                    (filter (is_derivative auth.tenant_id versions.0.id) (all_procedures c r s)))
              s
            >>= λ rest. ok (rest, unlinked)
