-- ===== src/Assets/Reading/Tests.antt =====
-- Looking up the assets of the sample tenant.
use elunic_myturck.Base.{◌≡◌, ◌↔◌, refl, true, [], ◌∷◌, String}
use elunic_myturck.Base.Names.{member}
use elunic_myturck.Base.Results.{ok, err, not_found}
use elunic_myturck.Assets.Samples.{store}
use elunic_myturck.Assets.Reading.{check_if_assets_exist, is_live}
use elunic_myturck.Assets.Reading.Existing.{ids_where, check_if_assets_exist_iff}

-- The same id twice is one asset.
finds_twice : check_if_assets_exist "t" ("x" ∷ "x" ∷ []) store.assets ≡ ok tt
unfolding check_if_assets_exist
finds_twice = refl

misses_other : check_if_assets_exist "t" ("x" ∷ "y" ∷ []) store.assets ≡ err not_found
unfolding check_if_assets_exist
misses_other = refl

check_if_assets_exist_iff_example :
    (check_if_assets_exist "t" ("x" ∷ "x" ∷ []) store.assets ≡ ok tt) ↔ (
      (b : String)
      → member b ("x" ∷ "x" ∷ []) ≡ true
      → member b (ids_where (is_live "t") store.assets) ≡ true)
check_if_assets_exist_iff_example = check_if_assets_exist_iff "t" ("x" ∷ "x" ∷ []) store.assets refl
