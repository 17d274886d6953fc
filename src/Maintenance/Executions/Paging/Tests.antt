-- ===== src/Maintenance/Executions/Paging/Tests.antt =====
-- Three executions, read in pages of two.
use elunic_myturck.Base.{◌≤◌, ◌≡◌, refl, List, [], ◌∷◌, some, false, length}
use elunic_myturck.Base.Results.{ok, err, internal_error}
use elunic_myturck.Maintenance.{Store, Execution}
use elunic_myturck.Maintenance.Samples.{hour_clock, tables, due_execution, store}
use elunic_myturck.Maintenance.Executions.Paging.{
  FindExecutionsQuery, one_asset, ResponsePagingMeta, get_many, pages, get_many-pages,
}

abbrev as_stored : List (Execution hour_clock) → List (Execution hour_clock)
as_stored es = es

abbrev second : Execution hour_clock
second = record due_execution { id = "e2" }

abbrev third : Execution hour_clock
third = record due_execution { id = "e3" }

abbrev three : Store hour_clock tables
three = record store {
  executions =
      due_execution
      ∷ record due_execution { id = "e4"; completed_at = some 90 }
      ∷ second
      ∷ third
      ∷ [];
}

abbrev query : FindExecutionsQuery
query = record { asset_id = one_asset "x"; completed = some false; limit = 2; page = 2 }

abbrev answer_meta : ResponsePagingMeta
answer_meta = record { page = 2; page_count = 2; total = 3; count = 1 }

second_page : get_many hour_clock tables as_stored "t" query three ≡ ok (third ∷ [], answer_meta)
unfolding get_many
second_page = refl

-- The schema of the query allows page 0.
refuses_zero :
    get_many hour_clock tables as_stored "t" (record query { page = 0 }) three ≡ err internal_error
unfolding get_many
refuses_zero = refl

get_many-pages_example :
    (length (third ∷ []) ≤ 2)
    × (pages hour_clock tables as_stored "t" query three 2
        ≡ ok (due_execution ∷ second ∷ third ∷ []))
get_many-pages_example =
    get_many-pages hour_clock tables as_stored "t" query three 1 (third ∷ []) answer_meta
      (λ xs. refl) refl second_page
