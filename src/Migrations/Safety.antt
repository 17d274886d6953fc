-- ===== src/Migrations/Safety.antt =====
-- What the lock and the migration table guarantee.
use elunic_myturck.Base.{ℕ, ◌≤◌, ◌≡◌, Bool, true, false, List}
use elunic_myturck.Base.Text.{Text, text_eq, text_eq_self}
use elunic_myturck.Migrations.{default_id, lock_id, count_rows, running, System, Reach}
use elunic_myturck.Migrations.Invariant.{owns, Reach-Inv}

module _ {names : List Text} {allows : Bool} {tenant : ℕ → Text} {rows : List (Text × Text)}
    {s : System} where
  -- Two requests of one tenant are never between the acquisition and the release of the lock together. No
  -- tenant is called `default`, and the table starts with each migration recorded at most once for a tenant.
  pub mutual_exclusion :
      ((j : ℕ) → text_eq (tenant j) default_id ≡ false)
      → ((name t : Text) → count_rows name t rows ≤ 1)
      → Reach names allows tenant rows s
      → (i j : ℕ) → tenant i ≡ tenant j
      → owns (s.phase i) ≡ true
      → owns (s.phase j) ≡ true
      → i ≡ j
  mutual_exclusion unnamed once r i j same qi qj =
      (Reach-Inv unnamed once r).unique i j qi qj (rw same (text_eq_self (lock_id (tenant j))))

  -- No migration is recorded twice for a tenant, however the requests interleave and whichever of them fail.
  -- No tenant is called `default`, and the table starts so.
  pub recorded_once :
      ((j : ℕ) → text_eq (tenant j) default_id ≡ false)
      → ((name t : Text) → count_rows name t rows ≤ 1)
      → Reach names allows tenant rows s
      → (name t : Text) → count_rows name t s.shared.rows ≤ 1
  recorded_once unnamed once r = (Reach-Inv unnamed once r).once

  -- A migration that is executing for a tenant is not recorded for it, under the same conditions.
  pub running_unrecorded :
      ((j : ℕ) → text_eq (tenant j) default_id ≡ false)
      → ((name t : Text) → count_rows name t rows ≤ 1)
      → Reach names allows tenant rows s
      → (i : ℕ) (name : Text) (rest : List Text) → s.phase i ≡ running name rest
      → count_rows name (tenant i) s.shared.rows ≡ 0
  running_unrecorded unnamed once r i name rest e =
      (Reach-Inv unnamed once r).absent i name (rw e (text_eq_self name))
