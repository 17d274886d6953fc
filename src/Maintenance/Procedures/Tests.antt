-- ===== src/Maintenance/Procedures/Tests.antt =====
-- The creation of procedures, and the theorems at an example.
use elunic_myturck.Base.{◌≡◌, refl, [], ◌∷◌}
use elunic_myturck.Base.Results.{ok, err, not_found, conflict}
use elunic_myturck.Maintenance.{days}
use elunic_myturck.Maintenance.Samples.{hour_clock, tables, user}
use elunic_myturck.Maintenance.Procedures.{stored, store_procedure, create_procedure}
use elunic_myturck.Maintenance.Procedures.Samples.{with_library, new_ids}

-- The name of another active procedure is refused, and so is a step that is not in the library.
refused :
    create_procedure hour_clock tables new_ids user
      (ok "pump")
      (record {
        name = "inspect";
        description = "";
        interval = 1;
        interval_unit = days;
        steps = [];
      })
      with_library
    ≡ err conflict
unfolding create_procedure store_procedure
refused = refl

unknown :
    create_procedure hour_clock tables new_ids user
      (ok "pump")
      (record {
        name = "other";
        description = "";
        interval = 1;
        interval_unit = days;
        steps = stored "z" ∷ [];
      })
      with_library
    ≡ err not_found
unfolding create_procedure
unknown = refl
