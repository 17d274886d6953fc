-- ===== src/Maintenance/Executions/States.antt =====
-- The state that a new execution starts in.
use elunic_myturck.Base.{◌≡◌, refl, true, arith}
use elunic_myturck.Base.Int.{ℤ, pos, negsuc, ltb_ℤ}
use elunic_myturck.Maintenance.Executions.{due_soon_threshold_hours}

pub ltb_ℤ-threshold : (z : ℤ) → ltb_ℤ z (pos 0) ≡ true → ltb_ℤ z due_soon_threshold_hours ≡ true
ltb_ℤ-threshold (pos n) h = ground arith
ltb_ℤ-threshold (negsuc n) h = refl
