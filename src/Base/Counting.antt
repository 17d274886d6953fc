-- ===== src/Base/Counting.antt =====
-- How many rows of a list have a property, and what an update changes about that.
use elunic_myturck.Base.{
  ℕ, ◌+◌, ◌≡◌, refl, sym, ap, ◌∙◌, Bool, true, false, ◌&&◌, List, [], ◌∷◌, ◌++◌, map, filter, find,
  none, some, ◌≤◌, length, arith, String, str_eq, if◌then◌else◌, Bool-cases, inl, inr,
}
use mathlib.Core.Path.{subst}
use elunic_myturck.Base.Names.{member, distinct, str_eq_self, fresh_ne}
use elunic_myturck.Base.Repository.{map_where, find_or_fail}
use elunic_myturck.Base.Results.{ok, ok-injective}

module _ {ℓ} {A : Type ℓ} where
  unfoldable pub count : (A → Bool) → List A → ℕ
  count p xs = length (filter p xs)

  pub count-append : (p : A → Bool) (xs ys : List A) → count p (xs ++ ys) ≡ count p xs + count p ys
  unfolding count
  count-append p [] ys = omega arith
  count-append p (x ∷ xs) ys = ground (arith, count-append p xs ys)

  pub count-map_where :
      (p r : A → Bool) (f : A → A) (xs : List A)
      → ((x : A) → p (f x) ≡ p x)
      → count p (map_where r f xs) ≡ count p xs
  unfolding count
  count-map_where p r f [] k = refl
  count-map_where p r f (x ∷ xs) k = ground (arith, count-map_where p r f xs k, k x)

  -- An update after which the rows it selects no longer count.
  pub count-retire :
      (p r : A → Bool) (f : A → A) (xs : List A)
      → ((x : A) → p (f x) ≡ false)
      → count p (map_where r f xs) + count (λ x. r x && p x) xs ≡ count p xs
  unfolding count
  count-retire p r f [] k = omega arith
  count-retire p r f (x ∷ xs) k = ground (arith, count-retire p r f xs k, k x)

  pub count-single : (p : A → Bool) (x : A) → count p (x ∷ []) ≡ (if p x then 1 else 0)
  unfolding count
  count-single p x = ground arith

  pub count-absent :
      (id : A → String) (p : A → Bool) (a : String) (xs : List A)
      → member a (map id xs) ≡ false
      → count (λ x. str_eq (id x) a && p x) xs ≡ 0
  unfolding count
  count-absent id p a [] h = refl
  count-absent id p a (x ∷ xs) h = ground (arith, count-absent id p a xs)

  pub count-first :
      (id : A → String) (p : A → Bool) (x : A) (xs : List A)
      → member (id x) (map id xs) ≡ false
      → count (λ y. str_eq (id y) (id x) && p y) (x ∷ xs) ≡ (if p x then 1 else 0)
  unfolding count
  count-first id p x xs h = ground (arith, count-absent id p (id x) xs h, str_eq_self (id x))

  pub find_or_fail-member :
      (id : A → String) (t : A → Bool) (xs : List A) {e : A}
      → find_or_fail t xs ≡ ok e
      → member (id e) (map id xs) ≡ true
  find_or_fail-member id t [] h = absurd (cc h)
  find_or_fail-member id t (x ∷ xs) {e} h = elim (Bool-cases (t x)) [
    | inl hit ↦
        let same : x ≡ e =
          ok-injective (sym (ap (λ b. if b then ok x else find_or_fail t xs) hit) ∙ h) in
        rw same (rw (str_eq_self (id e)) refl)
    | inr miss ↦ ground (
      arith,
      find_or_fail-member id t xs (sym (ap (λ b. if b then ok x else find_or_fail t xs) miss) ∙ h),
    )
  ]

  -- Where no id stands twice, the row that was found is the only one with its id.
  pub count-found :
      (id : A → String) (t p : A → Bool) (xs : List A) {e : A}
      → distinct (map id xs) ≡ true
      → find_or_fail t xs ≡ ok e
      → count (λ x. str_eq (id x) (id e) && p x) xs ≡ (if p e then 1 else 0)
  unfolding count
  count-found id t p [] d h = absurd (cc h)
  count-found id t p (x ∷ xs) {e} d h = elim (Bool-cases (t x)) [
    | inl hit ↦
        let same : x ≡ e =
          ok-injective (sym (ap (λ b. if b then ok x else find_or_fail t xs) hit) ∙ h) in
        subst
          (λ y.
            length (filter (λ z. str_eq (id z) (id y) && p z) (x ∷ xs)) ≡ (if p y then 1 else 0))
          same (count-first id p x xs (ground arith))
    | inr miss ↦
        let later = sym (ap (λ b. if b then ok x else find_or_fail t xs) miss) ∙ h in
        let other : str_eq (id x) (id e) ≡ false =
          fresh_ne (id x) (id e) (map id xs) (ground arith) (find_or_fail-member id t xs later) in
        rw other (count-found id t p xs (ground arith) later)
  ]

  -- Nothing is found where nothing counts, and something where one does.
  pub count-none : (p : A → Bool) (xs : List A) → find p xs ≡ none → count p xs ≡ 0
  unfolding count
  count-none p [] h = refl
  count-none p (x ∷ xs) h = ground (arith, count-none p xs)

  pub count-some : (p : A → Bool) (xs : List A) {x : A} → find p xs ≡ some x → 1 ≤ count p xs
  unfolding count
  count-some p [] h = absurd (cc h)
  count-some p (y ∷ ys) {x} h = ground (arith, count-some p ys {x = x})

  pub count-filter-le : (p k : A → Bool) (xs : List A) → count p (filter k xs) ≤ count p xs
  unfolding count
  count-filter-le p k [] = omega arith
  count-filter-le p k (x ∷ xs) = ground (arith, count-filter-le p k xs)

  pub member-filter_absent :
      (id : A → String) (k : A → Bool) (a : String) (xs : List A)
      → member a (map id xs) ≡ false
      → member a (map id (filter k xs)) ≡ false
  member-filter_absent id k a [] h = refl
  member-filter_absent id k a (x ∷ xs) h = ground (arith, member-filter_absent id k a xs)

  pub distinct-filter :
      (id : A → String) (k : A → Bool) (xs : List A)
      → distinct (map id xs) ≡ true
      → distinct (map id (filter k xs)) ≡ true
  distinct-filter id k [] h = refl
  distinct-filter id k (x ∷ xs) h =
      ground (arith, distinct-filter id k xs, member-filter_absent id k (id x) xs)
