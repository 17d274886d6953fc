-- ===== src/Migrations/Tests.antt =====
-- Runs of the migrations of a tenant, and the theorems at them.
use elunic_myturck.Base.{ℕ, zero, suc, ◌≤◌, ◌≡◌, refl, true, false, List, [], ◌∷◌, arith}
use elunic_myturck.Base.Text.{Text, codes}
use elunic_myturck.Migrations.{
  Shared, cache_key, count_rows, Phase, Move, enter, acquire, missing, up_done, insert, set_cached,
  is_released, update, System, pick, Reach, start, later,
}
use elunic_myturck.Migrations.Safety.{mutual_exclusion, recorded_once, running_unrecorded}
use elunic_myturck.Migrations.Completeness.{recorded, finished-recorded}

abbrev names : List Text
names = codes "a" ∷ []

abbrev tenant : ℕ → Text
tenant i = codes "t"

quiet :
    (phase : ℕ → Phase) (i : ℕ) (p : Phase)
    → ((j : ℕ) → is_released (phase j) ≡ false)
    → is_released p ≡ false
    → (j : ℕ) → is_released (update phase i p j) ≡ false
quiet phase i p h q j = ground (arith, h j)

abbrev Run : System → Type 0
Run s = Reach names false tenant [] s × ((j : ℕ) → is_released (s.phase j) ≡ false)

abbrev move :
    {s : System} {m : Shared} {p : Phase}
    → Run s
    → (i : ℕ) → Move names false (tenant i) s.shared (s.phase i) m p
    → is_released p ≡ false
    → Run (record { shared = m; phase = update s.phase i p })
move {s} {p} r i mv q = (later r.0 (pick i (λ j ne. r.1 j) mv), quiet s.phase i p r.1 q)

-- Two requests arrive, and the second takes the lock first.
abbrev both_wait : (s : System) × Run s
both_wait = (_, move (move (start, λ j. refl) 0 (enter refl) refl) 1 (enter refl) refl)

abbrev one_runs : (s : System) × Run s
one_runs = (_, move (move both_wait.1 1 (acquire refl) refl) 1 (missing refl refl) refl)

abbrev one_recorded : (s : System) × Run s
one_recorded = (_, move (move (move one_runs.1 1 up_done refl) 1 insert refl) 1 set_cached refl)

once_at_start : (name t : Text) → count_rows name t [] ≤ 1
once_at_start name t = omega arith

mutual_exclusion_example : suc zero ≡ 1
mutual_exclusion_example =
    mutual_exclusion (λ j. refl) once_at_start one_runs.1.0 1 1 refl refl refl

recorded_once_example : count_rows (codes "a") (codes "t") one_recorded.0.shared.rows ≤ 1
recorded_once_example =
    recorded_once (λ j. refl) once_at_start one_recorded.1.0 (codes "a") (codes "t")

running_unrecorded_example : count_rows (codes "a") (codes "t") one_runs.0.shared.rows ≡ 0
running_unrecorded_example =
    running_unrecorded (λ j. refl) once_at_start one_runs.1.0 1 (codes "a") [] refl

finished-recorded_example :
    recorded (cache_key (codes "a") (codes "t")) one_recorded.0.shared.rows ≡ true
finished-recorded_example = finished-recorded one_recorded.1.0 1 refl (codes "a") refl
