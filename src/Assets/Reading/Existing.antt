-- ===== src/Assets/Reading/Existing.antt =====
-- The check that all assets of a request exist, which compares two numbers.
use elunic_myturck.Base.{
  ℕ, ◌≡◌, ◌↔◌, refl, sym, ◌∙◌, Bool, true, not, List, [], ◌∷◌, map, filter, length, String, str_eq,
  eq_iff, ◌==◌, ◌&&◌, arith,
}
use elunic_myturck.Base.Names.{member, distinct, str_eq_self, pigeonhole, length-le}
use elunic_myturck.Base.Results.{ok, not_found, guard}
use elunic_myturck.Assets.{AssetEntity}
use elunic_myturck.Assets.Reading.{without, uniq, is_live, check_if_assets_exist}

member-without :
    (a b : String) (xs : List String) → member b (without a xs) ≡ (member b xs && not (str_eq b a))
member-without a b [] = refl
member-without a b (x ∷ xs) =
    ground (arith, member-without a b xs, eq_iff x a, eq_iff x b, eq_iff b a)

distinct-without :
    (a : String) (xs : List String) → distinct xs ≡ true → distinct (without a xs) ≡ true
distinct-without a [] d = refl
distinct-without a (x ∷ xs) d = ground (arith, distinct-without a xs, member-without a x xs)

uniq-distinct : (xs : List String) → distinct (uniq xs) ≡ true
uniq-distinct [] = refl
uniq-distinct (x ∷ xs) = ground (
  arith,
  distinct-without x (uniq xs) (uniq-distinct xs),
  member-without x x (uniq xs),
  str_eq_self x,
)

member-uniq : (a : String) (xs : List String) → member a (uniq xs) ≡ member a xs
member-uniq a [] = refl
member-uniq a (x ∷ xs) =
    ground (arith, member-without x a (uniq xs), member-uniq a xs, eq_iff x a, eq_iff a x)

counted : (m n : ℕ) → guard (m == n) not_found ≡ ok tt → m ≡ n
counted m n h = ground arith

passed : (m n : ℕ) → m ≡ n → guard (m == n) not_found ≡ ok tt
passed m n h = ground arith

both : (a : Bool) {b : Bool} → a ≡ true → b ≡ true → (a && b) ≡ true
both a h k = ground arith

module _ {N : Type 0} where
  -- The ids that a query returns.
  abbrev pub ids_where : (AssetEntity N → Bool) → List (AssetEntity N) → List String
  ids_where p assets = map (λ a. a.id) (filter p assets)

  ids_where-member :
      (p : AssetEntity N → Bool) (b : String) (assets : List (AssetEntity N))
      → member b (ids_where p assets) ≡ true
      → member b (map (λ a. a.id) assets) ≡ true
  ids_where-member p b [] h = h
  ids_where-member p b (a ∷ as') h = ground (arith, ids_where-member p b as')

  ids_where-distinct :
      (p : AssetEntity N → Bool) (assets : List (AssetEntity N))
      → distinct (map (λ a. a.id) assets) ≡ true
      → distinct (ids_where p assets) ≡ true
  ids_where-distinct p [] d = refl
  ids_where-distinct p (a ∷ as') d =
      ground (arith, ids_where-distinct p as', ids_where-member p a.id as')

  -- A condition on the id beside another one.
  ids_where-both :
      (tenant : String) (ids : List String) (b : String) (assets : List (AssetEntity N))
      → member b (ids_where (λ a. member a.id ids && is_live tenant a) assets)
        ≡ (member b ids && member b (ids_where (is_live tenant) assets))
  ids_where-both tenant ids b [] = ground arith
  ids_where-both tenant ids b (a ∷ as') =
      ground (arith, ids_where-both tenant ids b as', eq_iff a.id b)

  -- The check of the ids of a request passes exactly if each of them is one of an asset of the tenant that is
  -- not deleted, however often it is named. The ids of the assets are distinct.
  pub check_if_assets_exist_iff :
      (tenant : String) (ids : List String) (assets : List (AssetEntity N))
      → distinct (map (λ a. a.id) assets) ≡ true
      → (check_if_assets_exist tenant ids assets ≡ ok tt)
        ↔ ((b : String) → member b ids ≡ true → member b (ids_where (is_live tenant) assets) ≡ true)
  unfolding check_if_assets_exist
  check_if_assets_exist_iff tenant ids assets d = (all_exist, passes)
    where
      found : List String
      found = ids_where (λ a. member a.id (uniq ids) && is_live tenant a) assets

      found-member :
          (b : String)
          → member b found ≡ (member b (uniq ids) && member b (ids_where (is_live tenant) assets))
      found-member b = ids_where-both tenant (uniq ids) b assets

      found-asked : (b : String) → member b found ≡ true → member b (uniq ids) ≡ true
      found-asked b m = ground (arith, found-member b)

      same_number :
          check_if_assets_exist tenant ids assets ≡ ok tt → length found ≡ length (uniq ids)
      same_number h = counted (length found) (length (uniq ids)) h

      all_exist :
          check_if_assets_exist tenant ids assets ≡ ok tt
          → (b : String) → member b ids ≡ true
          → member b (ids_where (is_live tenant) assets) ≡ true
      all_exist h b m =
          let found_b : member b found ≡ true =
            pigeonhole found (uniq ids) (ids_where-distinct _ assets d) found-asked (same_number h)
              b (member-uniq b ids ∙ m) in
          ground (arith, found-member b)

      passes :
          ((b : String) → member b ids ≡ true → member b (ids_where (is_live tenant) assets) ≡ true)
          → check_if_assets_exist tenant ids assets ≡ ok tt
      passes h =
          let below = length-le found (uniq ids) (ids_where-distinct _ assets d) found-asked in
          let above = length-le (uniq ids) found (uniq-distinct ids) (λ b m.
            found-member b ∙ both (member b (uniq ids)) m (h b (sym (member-uniq b ids) ∙ m))) in
          passed (length found) (length (uniq ids)) (omega arith)
