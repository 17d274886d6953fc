-- ===== src/Overlay/Sorting.antt =====
-- The sort of the values puts the rows of the definition before those of assets, and keeps the order
-- within both.
use elunic_myturck.Base.{
  ◌≡◌, refl, Bool, not, true, false, List, [], ◌∷◌, ◌++◌, arith, filter, Bool-cases, inl, inr,
}
use elunic_myturck.Overlay.{ValueRow, is_some, insert_by_score, sort_by_score}

module _ {ℓ} {V P : Type ℓ} where
  abbrev pub of_asset : ValueRow V P → Bool
  of_asset v = is_some v.asset

  abbrev pub of_definition : ValueRow V P → Bool
  of_definition v = not (is_some v.asset)

  insert-of_asset :
      (v : ValueRow V P) (ds os : List (ValueRow V P))
      → of_asset v ≡ true
      → insert_by_score v (filter of_definition ds ++ filter of_asset os)
        ≡ filter of_definition ds ++ insert_by_score v (filter of_asset os)
  unfolding insert_by_score
  insert-of_asset v [] os h = refl
  insert-of_asset v (d ∷ ds) os h = ground (arith, insert-of_asset v ds os)

  insert_first :
      (v : ValueRow V P) (os : List (ValueRow V P))
      → insert_by_score v (filter of_asset os) ≡ v ∷ filter of_asset os
  unfolding insert_by_score
  insert_first v [] = refl
  insert_first v (o ∷ os) = ground (arith, insert_first v os)

  insert-of_definition :
      (v : ValueRow V P) (ds os : List (ValueRow V P))
      → of_asset v ≡ false
      → insert_by_score v (filter of_definition ds ++ filter of_asset os)
        ≡ v ∷ (filter of_definition ds ++ filter of_asset os)
  unfolding insert_by_score
  insert-of_definition v [] os h = insert_first v os
  insert-of_definition v (d ∷ ds) os h = ground (arith, insert-of_definition v ds os)

  -- Sorting is a stable partition: first the rows without an asset, then those of assets.
  pub sort_by_score-eq-partition :
      (vs : List (ValueRow V P)) → sort_by_score vs ≡ filter of_definition vs ++ filter of_asset vs
  unfolding sort_by_score
  sort_by_score-eq-partition [] = refl
  sort_by_score-eq-partition (v ∷ vs) = elim (Bool-cases (of_asset v)) [
    | inl mine ↦
        rw (sort_by_score-eq-partition vs, mine)
          (rw (insert-of_asset v vs vs mine, insert_first v vs) refl)
    | inr ours ↦ rw (sort_by_score-eq-partition vs, ours) (insert-of_definition v vs vs ours)
  ]
