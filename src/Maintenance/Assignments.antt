-- ===== src/Maintenance/Assignments.antt =====
-- Assignments of assets to maintenance procedures:
-- maintenance-backend/src/asset-assignment/asset-assignment.service.ts. The asset is what the asset service
-- answers. Where both this answer and the procedure are missing, the model throws the error of the asset.
-- Nothing here throws after a first write, so an error stands for an unchanged store.
pub mod Activation
mod Tests
use elunic_myturck.Base.{
  ℕ, Bool, true, false, not, Option, none, some, List, [], ◌∷◌, String, str_eq, ◌&&◌, find, any,
  filter, if◌then◌else◌,
}
use elunic_myturck.Base.Repository.{Repository, find_or_fail}
use elunic_myturck.Base.Results.{
  Result, ok, err, Exception, bad_request, internal_error, entity_not_found, not_found, conflict,
  out_of_fuel, ◌>>=◌, ◌>>◌, guard,
}
use elunic_myturck.Maintenance.{Clock, Repositories, Store, Assignment, Procedure, Auth}
use elunic_myturck.Maintenance.Cascades.{delete_assignments}
use elunic_myturck.Maintenance.Executions.{Context, is_some, schedule_next_execution}

-- What the services read of an asset.
pub record Asset : Type 0 where
  pub id : String
  pub asset_type_id : String

module _ (c : Clock) where
  -- The conditions of `getCurrentProcedure`.
  abbrev pub is_root_procedure : String → String → Procedure c → Bool
  is_root_procedure tenant id p =
      str_eq p.id id && (str_eq p.tenant_id tenant && not (is_some p.root))

  abbrev pub has_root : String → Option String → Bool
  has_root id none = false
  has_root id (some root) = str_eq root id

  abbrev pub is_current : String → String → Procedure c → Bool
  is_current tenant id p =
      str_eq p.tenant_id tenant && (has_root id p.root && not (is_some p.outdated_since))

  abbrev pub or_root : Option (Procedure c) → Procedure c → Procedure c
  or_root none root = root
  or_root (some current) root = current

  abbrev pub is_assignment : String → String → String → Assignment c → Bool
  is_assignment tenant asset procedure a =
      str_eq a.asset_id asset && (str_eq a.procedure_id procedure && str_eq a.tenant_id tenant)

  abbrev pub same_procedure : Option (Procedure c) → Assignment c → Bool
  same_procedure none a = true
  same_procedure (some p) a = str_eq a.procedure_id p.id

  abbrev pub same_asset : Option String → Assignment c → Bool
  same_asset none a = true
  same_asset (some id) a = str_eq a.asset_id id

  abbrev pub set_active : Bool → Assignment c → Assignment c
  set_active active a = record a { active = active }

  module _ (r : Repositories c) where
    open r use {assignments, procedures}

    abbrev pub all_assignments : Store c r → List (Assignment c)
    all_assignments s = assignments.rows s.assignments

    abbrev pub set_assignments : assignments.Table → Store c r → Store c r
    set_assignments t s = record s { assignments = t }

    pub get_current_procedure : Auth → String → Store c r → Result (Procedure c)
    get_current_procedure auth id s = do
      root ← find_or_fail (is_root_procedure auth.tenant_id id) (procedures.rows s.procedures)
      ok (or_root (find (is_current auth.tenant_id id) (procedures.rows s.procedures)) root)

    -- The condition of `getMany`, where `none` is an option that is not given.
    abbrev pub is_selected : String → Option String → Option (Procedure c) → Assignment c → Bool
    is_selected tenant asset p a =
        str_eq a.tenant_id tenant && (same_procedure p a && (same_asset asset a && a.active))

    -- The procedure of `getMany`, if it asks for one.
    abbrev pub wanted_procedure : Auth → Option String → Store c r → Result (Option (Procedure c))
    wanted_procedure auth none s = ok none
    wanted_procedure auth (some id) s = get_current_procedure auth id s >>= λ p. ok (some p)

    pub get_many : Auth → Option String → Option String → Store c r → Result (List (Assignment c))
    get_many auth procedure asset s = do
      p ← wanted_procedure auth procedure s
      ok (filter (is_selected auth.tenant_id asset p) (all_assignments s))

    pub get_one : Auth → String → String → Store c r → Result (Assignment c)
    get_one auth asset id s = do
      p ← get_current_procedure auth id s
      find_or_fail (is_assignment auth.tenant_id asset p.id) (all_assignments s)

    -- `delete`, which takes the procedure of the id as it is, and not its current version.
    pub delete : Auth → String → String → Store c r → Result (Store c r)
    delete auth asset id s = do
      p ←
          find_or_fail (λ p. str_eq p.id id && str_eq p.tenant_id auth.tenant_id)
            (procedures.rows s.procedures)
      ok (delete_assignments c r (is_assignment auth.tenant_id asset p.id) s)

    pub deactivate : Auth → String → String → Store c r → Result (Store c r)
    deactivate auth asset id s = do
      a ← get_one auth asset id s
      guard a.active bad_request
      ok (
          set_assignments
            (assignments.update (λ x. str_eq x.id a.id) (set_active false) s.assignments) s)

    pub activate : Assignment c → Store c r → Result (Store c r)
    activate a s = do
      guard (not a.active) bad_request
      ok (
          set_assignments
            (assignments.update (λ x. str_eq x.id a.id) (set_active true) s.assignments) s)

    -- `create`; a second row for the same asset and procedure breaks the unique key of the table.
    pub create :
        Context c
        → Auth
        → String
        → Result Asset
        → String
        → Store c r
        → Result (Assignment c × Store c r)
    create ctx auth new_id answer id s = do
      asset ← answer
      p ← get_current_procedure auth id s
      guard (str_eq asset.asset_type_id p.asset_type_id) bad_request
      guard (not (any (is_assignment auth.tenant_id asset.id p.id) (all_assignments s)))
          internal_error
      let a : Assignment c = record {
        id = new_id;
        tenant_id = auth.tenant_id;
        asset_id = asset.id;
        procedure_id = p.id;
        active = true;
      }
      s' ←
          schedule_next_execution c r ctx auth a none
            (set_assignments (assignments.insert a s.assignments) s)
      a' ← find_or_fail (λ x. str_eq x.id new_id) (all_assignments s')
      ok (a', s')

    -- The rest of `createOrActivate` for an assignment that is there.
    pub reactivate :
        Context c
        → Auth
        → String
        → String
        → Assignment c
        → Store c r
        → Result (Assignment c × Store c r)
    reactivate ctx auth asset id a s = do
      s1 ← activate a s
      s2 ← schedule_next_execution c r ctx auth (set_active true a) none s1
      a' ← get_one auth asset id s2
      ok (a', s2)

    -- Only an entity that is not found is caught.
    pub create_or_activate :
        Context c
        → Auth
        → String
        → String
        → Result Asset
        → String
        → Store c r
        → Result (Assignment c × Store c r)
    create_or_activate ctx auth new_id asset answer id s = elim (get_one auth asset id s) [
      | ok a ↦ reactivate ctx auth asset id a s
      | err entity_not_found ↦ create ctx auth new_id answer id s
      | err e ↦ err e
    ]
