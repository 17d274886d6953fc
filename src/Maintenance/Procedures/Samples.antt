-- ===== src/Maintenance/Procedures/Samples.antt =====
-- A tenant with one procedure and one library step: data for the tests.
use elunic_myturck.Base.{true, false, none, some, [], ◌∷◌, arith, String, Option}
use elunic_myturck.Base.Counting.{count}
use elunic_myturck.Base.Results.{Result, ok, err}
use elunic_myturck.Maintenance.{Store, Procedure, LibraryStep, days}
use elunic_myturck.Maintenance.Samples.{hour_clock, tables, store}
use elunic_myturck.Maintenance.Procedures.{NewStep, stored, individual, UpdateDto, NewIds}
use elunic_myturck.Maintenance.Procedures.Creation.{NamesOnce}

abbrev pub oil : NewStep
oil = record {
  name = "oil";
  description = "check the oil";
  mandatory = true;
  skippable = false;
  key = none;
}

abbrev pub belt : LibraryStep
belt = record {
  id = "l";
  tenant_id = "t";
  name = "belt";
  description = "";
  mandatory = true;
  skippable = true;
  key = some "k";
  tags = [];
}

abbrev pub with_library : Store hour_clock tables
with_library = record store { library = belt ∷ [] }

abbrev pub new_ids : NewIds
new_ids = record {
  procedure = "p2";
  library = λ k. "l2";
  step = λ k. "s2";
  assignment = λ k. "a2";
  execution = λ k. "e9";
}

abbrev pub update_dto : UpdateDto
update_dto = record {
  name = none;
  description = some "again";
  interval = none;
  interval_unit = none;
  steps = some (individual oil ∷ stored "l" ∷ []);
}

abbrev pub rename_dto : UpdateDto
rename_dto = record {
  name = some "inspect";
  description = none;
  interval = none;
  interval_unit = none;
  steps = none;
}

abbrev pub types : String → Result String
types id = ok id

abbrev pub store_of : {A : Type 0} → Result (A × Store hour_clock tables) → Store hour_clock tables
store_of (ok t) = t.1
store_of (err e) = with_library

abbrev pub procedure_of :
    Result (Procedure hour_clock × Store hour_clock tables) → Option (Procedure hour_clock)
procedure_of (ok t) = some t.0
procedure_of (err e) = none

abbrev pub old_procedure : Procedure hour_clock
old_procedure = record {
  id = "p";
  tenant_id = "t";
  name = "inspect";
  description = "";
  asset_type_id = "pump";
  interval = 2;
  interval_unit = days;
  outdated_since = none;
  root = none;
}

abbrev pub new_version : Procedure hour_clock
new_version = record old_procedure { id = "p2"; description = "again"; root = some "p" }

-- Without steps, a procedure can be renamed to the name of another one.
abbrev pub two_procedures : Store hour_clock tables
two_procedures = record store {
  procedures = old_procedure ∷ record old_procedure { id = "q"; name = "clean" } ∷ [];
}

pub one_procedure : NamesOnce hour_clock tables with_library
unfolding count
one_procedure tenant name = ground arith
