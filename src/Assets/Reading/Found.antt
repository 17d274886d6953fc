-- ===== src/Assets/Reading/Found.antt =====
-- Which asset is found by its id.
use elunic_myturck.Base.{
  ◌≡◌, refl, sym, ap, ◌∙◌, true, false, List, [], ◌∷◌, filter, String, str_eq, eq_iff, arith,
  Bool-cases, inl, inr, if◌then◌else◌, ◌&&◌, Bool, any,
}
use elunic_myturck.Base.Names.{str_eq_self}
use elunic_myturck.Base.Repository.{map_where}
use elunic_myturck.Base.Results.{ok, err, not_found, ok-injective}
use elunic_myturck.Assets.{AssetEntity}
use elunic_myturck.Assets.Reading.{first_or_not_found, is_live, get_asset_by_id}

module _ {N : Type 0} where
  pub get_asset_by_id-holds :
      (tenant id : String) (rows : List (AssetEntity N)) {a : AssetEntity N}
      → get_asset_by_id tenant id rows ≡ ok a
      → (str_eq a.id id && is_live tenant a) ≡ true
  unfolding get_asset_by_id
  get_asset_by_id-holds tenant id [] h = absurd (cc h)
  get_asset_by_id-holds tenant id (x ∷ xs) {a} h =
      let rest = filter (λ y. str_eq y.id id && is_live tenant y) xs in
      elim (Bool-cases (str_eq x.id id && is_live tenant x)) [
        | inl here ↦
            let same : x ≡ a =
              ok-injective
                (ap (λ b. first_or_not_found (if b then x ∷ rest else rest)) (sym here) ∙ h) in
            rw (← same) here
        | inr there ↦
            get_asset_by_id-holds tenant id xs
              (ap (λ b. first_or_not_found (if b then x ∷ rest else rest)) (sym there) ∙ h)
      ]

  -- After all rows of an id were replaced, the replacement is found under this id.
  pub get_asset_by_id-replaced :
      (tenant id : String) (b : AssetEntity N) (rows : List (AssetEntity N)) {a : AssetEntity N}
      → get_asset_by_id tenant id rows ≡ ok a
      → (str_eq b.id id && is_live tenant b) ≡ true
      → get_asset_by_id tenant id (map_where (λ x. str_eq x.id b.id) (λ _. b) rows) ≡ ok b
  unfolding get_asset_by_id
  get_asset_by_id-replaced tenant id b [] h k = absurd (cc h)
  get_asset_by_id-replaced tenant id b (x ∷ xs) {a} h k = ground (
    arith,
    get_asset_by_id-replaced tenant id b xs {a = a},
    eq_iff x.id b.id,
    eq_iff x.id id,
    eq_iff b.id id,
  )

  pub replaced_again :
      (b : AssetEntity N) (rows : List (AssetEntity N))
      → map_where (λ x. str_eq x.id b.id) (λ _. b) (map_where (λ x. str_eq x.id b.id) (λ _. b) rows)
        ≡ map_where (λ x. str_eq x.id b.id) (λ _. b) rows
  replaced_again b [] = refl
  replaced_again b (x ∷ xs) = ground (arith, replaced_again b xs, str_eq_self b.id)

  -- The rows of an id in a tenant, marked as deleted.
  abbrev pub mark_deleted : String → String → List (AssetEntity N) → List (AssetEntity N)
  mark_deleted tenant id rows =
      map_where (λ b. str_eq b.id id && str_eq b.tenant_id tenant)
        (λ b. record b { is_deleted = true }) rows

  pub get_asset_by_id-mark_deleted :
      (tenant id : String) (rows : List (AssetEntity N))
      → get_asset_by_id tenant id (mark_deleted tenant id rows) ≡ err not_found
  unfolding get_asset_by_id
  get_asset_by_id-mark_deleted tenant id [] = refl
  get_asset_by_id-mark_deleted tenant id (x ∷ xs) =
      ground (arith, get_asset_by_id-mark_deleted tenant id xs)

  -- No query that asks for live rows returns a row that was marked.
  pub any-mark_deleted :
      (tenant id : String) (asks : AssetEntity N → Bool) (rows : List (AssetEntity N))
      → ((a : AssetEntity N) → asks a ≡ true → is_live tenant a ≡ true)
      → any (λ a. str_eq a.id id) (filter asks (mark_deleted tenant id rows)) ≡ false
  any-mark_deleted tenant id asks [] live = refl
  any-mark_deleted tenant id asks (x ∷ xs) live =
      let marked = record x { is_deleted = true } in
      ground (arith, any-mark_deleted tenant id asks xs live, live x, live marked)

  live-mark_deleted :
      (tenant id i : String) (rows : List (AssetEntity N))
      → str_eq i id ≡ false
      → filter (λ a. str_eq a.id i && is_live tenant a) (mark_deleted tenant id rows)
        ≡ filter (λ a. str_eq a.id i && is_live tenant a) rows
  live-mark_deleted tenant id i [] other = refl
  live-mark_deleted tenant id i (x ∷ xs) other =
      ground (arith, live-mark_deleted tenant id i xs, eq_iff x.id i, eq_iff x.id id, eq_iff i id)

  pub get_asset_by_id-mark_deleted_other :
      (tenant id i : String) (rows : List (AssetEntity N))
      → str_eq i id ≡ false
      → get_asset_by_id tenant i (mark_deleted tenant id rows) ≡ get_asset_by_id tenant i rows
  unfolding get_asset_by_id
  get_asset_by_id-mark_deleted_other tenant id i rows other =
      ap first_or_not_found (live-mark_deleted tenant id i rows other)
