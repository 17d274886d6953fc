-- ===== src/Maintenance/Procedures.antt =====
-- Maintenance procedures and their versions:
-- maintenance-backend/src/maintenance-procedure/maintenance-procedure.service.ts. The asset type is what the
-- asset service answers. A transaction that throws leaves the store as it was. The links to
-- documents that a new procedure gets in another service are left out. Ids in requests are not empty.
pub mod Versions
pub mod Deletion
pub mod Creation
pub mod Samples
mod Tests
use elunic_myturck.Base.{
  ℕ, zero, suc, ◌+◌, Bool, true, false, not, Option, none, some, List, [], ◌∷◌, ◌++◌, String,
  str_eq, ◌&&◌, find, any, all, filter, map, if◌then◌else◌,
}
use elunic_myturck.Base.Names.{member, distinct}
use elunic_myturck.Base.Repository.{Repository, find_or_fail}
use elunic_myturck.Base.Results.{
  Result, ok, err, not_found, conflict, internal_error, ◌>>=◌, ◌>>◌, guard,
}
use elunic_myturck.Maintenance.{
  Clock, Repositories, Store, Procedure, Assignment, Execution, ProcedureStep, LibraryStep, Auth,
  IntervalUnit, open_,
}
use elunic_myturck.Maintenance.Executions.{is_some}
use elunic_myturck.Maintenance.Assignments.{is_root_procedure, is_current, or_root}

-- `CreateProcedureStepDto`, without what `ProcedureStep` leaves out.
pub record NewStep : Type 0 where
  pub name : String
  pub description : String
  pub mandatory : Bool
  pub skippable : Bool
  pub key : Option String

-- A step of a request: the id of a library step, a step that is added to the library with tags,
-- or a step of this procedure only.
pub data StepDto : Type 0 where
  stored : (id : String) → StepDto
  shared : (step : NewStep) (tags : List String) → StepDto
  individual : (step : NewStep) → StepDto

-- `CreateProcedureDto` without the asset type
pub record ProcedureDto : Type 0 where
  pub name : String
  pub description : String
  pub interval : ℕ
  pub interval_unit : IntervalUnit
  pub steps : List StepDto

-- `UpdateProcedureDto`
pub record UpdateDto : Type 0 where
  pub name : Option String
  pub description : Option String
  pub interval : Option ℕ
  pub interval_unit : Option IntervalUnit
  pub steps : Option (List StepDto)

-- The ids that the database generates for the rows that a call inserts.
pub record NewIds : Type 0 where
  pub procedure : String
  pub library : ℕ → String
  pub step : ℕ → String
  pub assignment : ℕ → String
  pub execution : ℕ → String

abbrev pub or_default {ℓ} : {A : Type ℓ} → Option A → A → A
or_default none a = a
or_default (some b) a = b

-- The three kinds of steps: `partition` by being an id, and then by `libraryOptions`.
abbrev pub stored_ids : List StepDto → List String
stored_ids [] = []
stored_ids (stored id ∷ ds) = id ∷ stored_ids ds
stored_ids (_ ∷ ds) = stored_ids ds

abbrev pub shared_steps : List StepDto → List (NewStep × List String)
shared_steps [] = []
shared_steps (shared step tags ∷ ds) = (step, tags) ∷ shared_steps ds
shared_steps (_ ∷ ds) = shared_steps ds

abbrev pub individual_steps : List StepDto → List NewStep
individual_steps [] = []
individual_steps (individual step ∷ ds) = step ∷ individual_steps ds
individual_steps (_ ∷ ds) = individual_steps ds

-- `pick(libStep, COPIED_STEP_PROPS)`
abbrev pub copied : LibraryStep → NewStep
copied l = record {
  name = l.name;
  description = l.description;
  mandatory = l.mandatory;
  skippable = l.skippable;
  key = l.key;
}

abbrev pub library_step : String → String → NewStep → List String → LibraryStep
library_step id tenant step tags = record {
  id = id;
  tenant_id = tenant;
  name = step.name;
  description = step.description;
  mandatory = step.mandatory;
  skippable = step.skippable;
  key = step.key;
  tags = tags;
}

-- The rows that `libStepRepo.save` returns.
abbrev pub added_library_steps :
    (ℕ → String) → ℕ → String → List (NewStep × List String) → List LibraryStep
added_library_steps ids k tenant [] = []
added_library_steps ids k tenant ((step, tags) ∷ rest) =
    library_step (ids k) tenant step tags ∷ added_library_steps ids (suc k) tenant rest

-- The steps in the order of the request: library steps are looked up, and the two other kinds are
-- taken from the front of their lists by `shift`. A lookup of nothing is a type error.
unfoldable pub final_steps :
    List LibraryStep
    → List StepDto
    → List LibraryStep
    → List NewStep
    → Result (List (NewStep × Option LibraryStep))
final_steps found [] added own = ok []
final_steps found (stored id ∷ ds) added own = elim (find (λ l. str_eq l.id id) found) [
  | none ↦ err internal_error
  | some l ↦ final_steps found ds added own >>= λ rest. ok ((copied l, some l) ∷ rest)
]
final_steps found (shared step tags ∷ ds) [] own = err internal_error
final_steps found (shared step tags ∷ ds) (l ∷ added) own =
    final_steps found ds added own >>= λ rest. ok ((copied l, some l) ∷ rest)
final_steps found (individual step ∷ ds) added [] = err internal_error
final_steps found (individual step ∷ ds) added (own ∷ more) =
    final_steps found ds added more >>= λ rest. ok ((own, none) ∷ rest)

abbrev pub parent_id : Option LibraryStep → Option String
parent_id none = none
parent_id (some l) = some l.id

-- The rows that `stepRepo.save` stores.
abbrev pub step_rows :
    (ℕ → String) → ℕ → String → String → List (NewStep × Option LibraryStep) → List ProcedureStep
step_rows ids k tenant procedure [] = []
step_rows ids k tenant procedure ((step, parent) ∷ rest) =
    record {
      id = ids k;
      tenant_id = tenant;
      procedure_id = procedure;
      name = step.name;
      description = step.description;
      mandatory = step.mandatory;
      skippable = step.skippable;
      key = step.key;
      position = k;
      parent = parent_id parent;
    }
    ∷ step_rows ids (suc k) tenant procedure rest

abbrev pub keys_of : List ProcedureStep → List String
keys_of [] = []
keys_of (s ∷ ss) = elim s.key [ none ↦ keys_of ss | some k ↦ k ∷ keys_of ss ]

-- `repo.save(rows)`
abbrev pub insert_all : {Row : Type 0} (repo : Repository Row) → List Row → repo.Table → repo.Table
insert_all repo [] t = t
insert_all repo (x ∷ xs) t = insert_all repo xs (repo.insert x t)

module _ (c : Clock) where
  open c use {Time}

  abbrev pub new_procedure : String → String → String → ProcedureDto → Procedure c
  new_procedure id tenant asset_type dto = record {
    id = id;
    tenant_id = tenant;
    name = dto.name;
    description = dto.description;
    asset_type_id = asset_type;
    interval = dto.interval;
    interval_unit = dto.interval_unit;
    outdated_since = none;
    root = none;
  }

  -- The condition of the search for a procedure of the same name.
  abbrev pub is_active_named : String → String → Procedure c → Bool
  is_active_named tenant name p =
      str_eq p.tenant_id tenant && (str_eq p.name name && not (is_some p.outdated_since))

  module _ (r : Repositories c) where
    open r use {procedures, steps, library, assignments, executions}

    abbrev pub all_procedures : Store c r → List (Procedure c)
    all_procedures s = procedures.rows s.procedures

    -- `func` of `createProcedure`; the unique keys of library steps (the name) and of steps (the name
    -- and the key in the procedure) are those of the database.
    pub store_procedure :
        NewIds
        → Auth
        → String
        → ProcedureDto
        → List LibraryStep
        → Store c r
        → Result (Procedure c × Store c r)
    store_procedure ids auth asset_type dto found s = do
      guard (not (any (is_active_named auth.tenant_id dto.name) (all_procedures s))) conflict
      let p = new_procedure ids.procedure auth.tenant_id asset_type dto
      let added = added_library_steps ids.library 0 auth.tenant_id (shared_steps dto.steps)
      let taken =
          map (λ l. l.name)
            (filter (λ l. str_eq l.tenant_id auth.tenant_id) (library.rows s.library))
      guard (distinct (map (λ l. l.name) added) && all (λ l. not (member l.name taken)) added)
          internal_error
      final ← final_steps found dto.steps added (individual_steps dto.steps)
      let new = step_rows ids.step 0 auth.tenant_id p.id final
      guard (distinct (map (λ t. t.name) new) && distinct (keys_of new)) internal_error
      ok (
        p,
        record s {
          procedures = procedures.insert p s.procedures;
          library = insert_all library added s.library;
          steps = insert_all steps new s.steps;
        },
      )

    abbrev pub found_steps : Auth → List StepDto → Store c r → List LibraryStep
    found_steps auth ds s =
        filter (λ l. str_eq l.tenant_id auth.tenant_id && member l.id (stored_ids ds))
          (library.rows s.library)

    pub create_procedure :
        NewIds → Auth → Result String → ProcedureDto → Store c r → Result (Procedure c × Store c r)
    create_procedure ids auth asset_type dto s = do
      type_id ← asset_type
      guard
          (all (λ id. any (λ l. str_eq l.id id) (found_steps auth dto.steps s))
            (stored_ids dto.steps))
          not_found
      store_procedure ids auth type_id dto (found_steps auth dto.steps s) s

    -- `getCurrent`: the root, and the current version if it is another one.
    pub get_current : Auth → String → Store c r → Result (Procedure c × Option (Procedure c))
    get_current auth id s = do
      root ← find_or_fail (is_root_procedure c auth.tenant_id id) (all_procedures s)
      ok (root, find (is_current c auth.tenant_id id) (all_procedures s))

    pub get_procedure : Auth → String → Store c r → Result (Procedure c)
    get_procedure auth id s = do
      versions ← get_current auth id s
      ok (or_root c versions.1 versions.0)
