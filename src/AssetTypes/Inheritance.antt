-- ===== src/AssetTypes/Inheritance.antt =====
-- The loop that collects the types a type extends ends where the check for loops has passed.
use elunic_myturck.Base.{
  ℕ, zero, suc, ◌≤◌, ◌≡◌, refl, ap, ◌∙◌, Bool, true, false, Option, none, some, List, [], ◌∷◌, ◌++◌,
  find, filter, map, String, str_eq, eq_iff, arith, append_assoc, if◌then◌else◌, Bool-cases, inl,
  inr,
}
use elunic_myturck.Base.Names.{member, distinct}
use elunic_myturck.Base.Results.{ok}
use elunic_myturck.Hierarchy.{HierarchyItem, is_root, is_child_of, ids_of}
use elunic_myturck.Hierarchy.Rooted.{Rooted, root, child}
use elunic_myturck.AssetTypes.{
  AssetType, truthy_id, parent_of, with_parent, inherited_loop, to_hierarchy_item,
}

truthy_id-nonempty : (o : Option String) (p : String) → truthy_id o ≡ some p → str_eq p "" ≡ false
truthy_id-nonempty none p h = absurd (cc h)
truthy_id-nonempty (some q) p h = ground (arith, eq_iff q "", eq_iff p "")

root_extends :
    (o : Option String) (id : String)
    → is_root (record { id = id; parent_id = o }) ≡ true
    → truthy_id o ≡ none
root_extends none id h = refl
root_extends (some p) id h = absurd (cc h)

child_extends :
    (o : Option String) (id p : String)
    → is_child_of p (record { id = id; parent_id = o }) ≡ true
    → truthy_id o ≡ truthy_id (some p)
child_extends none id p h = absurd (cc h)
child_extends (some q) id p h = ap (λ x. truthy_id (some x)) ((eq_iff q p).0 h)

module _ {F : Type 0} where
  -- A type, the type that it extends, and so on, up to one that extends none.
  pub data Chain (types : List (AssetType F)) : String → List String → Type 0 where
    last : (a : String) → parent_of types a ≡ none → Chain types a (a ∷ [])
    next :
        (a p : String) {ids : List String}
        → parent_of types a ≡ some p
        → Chain types p ids
        → Chain types a (a ∷ ids)

  -- With enough fuel the loop returns this.
  unfoldable pub Returns : List (AssetType F) → List String → List String → List String → Type 0
  Returns types pending visited result =
      (enough : ℕ) × ((fuel : ℕ)
        → enough ≤ fuel
        → inherited_loop fuel types pending visited ≡ ok result)

  parent_of-nonempty :
      (types : List (AssetType F)) (a p : String) → parent_of types a ≡ some p → str_eq p "" ≡ false
  unfolding parent_of
  parent_of-nonempty types a p h = by_row (find (λ t. str_eq t.id a) types) h
    where
      by_row :
          (o : Option (AssetType F))
          → elim o [ none ↦ none | some t ↦ truthy_id t.extends_type ] ≡ some p
          → str_eq p "" ≡ false
      by_row none h = absurd (cc h)
      by_row (some t) h = truthy_id-nonempty t.extends_type p h

  visit-step :
      (fuel : ℕ) (types : List (AssetType F)) (a : String) (visited : List String)
      → str_eq a "" ≡ false
      → inherited_loop (suc fuel) types (a ∷ []) visited
        ≡ inherited_loop fuel types (with_parent (parent_of types a) []) (visited ++ a ∷ [])
  unfolding inherited_loop
  visit-step fuel types a visited h = rw h refl

  one_more :
      (n : ℕ) (types : List (AssetType F)) (a : String) (visited result : List String)
      → str_eq a "" ≡ false
      → ((fuel : ℕ)
          → n ≤ fuel
          → inherited_loop fuel types (with_parent (parent_of types a) []) (visited ++ a ∷ [])
            ≡ ok result)
      → (fuel : ℕ) → suc n ≤ fuel
      → inherited_loop fuel types (a ∷ []) visited ≡ ok result
  one_more n types a visited result named run zero h = absurd (omega (arith, h))
  one_more n types a visited result named run (suc fuel) h =
      visit-step fuel types a visited named ∙ run fuel (omega (arith, h))

  ended :
      (fuel : ℕ) (types : List (AssetType F)) (visited : List String)
      → inherited_loop fuel types [] visited ≡ ok visited
  unfolding inherited_loop
  ended zero types visited = refl
  ended (suc fuel) types visited = refl

  -- The loop returns the chain.
  pub Chain-Returns :
      (types : List (AssetType F)) (a : String) {ids : List String} (visited : List String)
      → str_eq a "" ≡ false
      → Chain types a ids
      → Returns types (a ∷ []) visited (visited ++ ids)
  unfolding Returns
  Chain-Returns types a visited named (last _ h) = (
    1,
    one_more 0 types a visited _ named (λ fuel _.
        ap (λ o. inherited_loop fuel types (with_parent o []) (visited ++ a ∷ [])) h
        ∙ ended fuel types _),
  )
  Chain-Returns types a visited named (next _ p h c) =
      let (n, run) = Chain-Returns types p (visited ++ a ∷ []) (parent_of-nonempty types a p h) c in
      (
        suc n,
        one_more n types a visited _ named (λ fuel e.
            ap (λ o. inherited_loop fuel types (with_parent o []) (visited ++ a ∷ [])) h
            ∙ run fuel e
            ∙ ap ok (append_assoc visited (a ∷ []) _)),
      )

  absent :
      (P : HierarchyItem → Bool) (a : String) (types : List (AssetType F))
      → member a (map (λ t. t.id) types) ≡ false
      → member a (ids_of (filter P (map to_hierarchy_item types))) ≡ false
  absent P a [] h = refl
  absent P a (t ∷ ts) h = ground (arith, absent P a ts)

  -- Where no id stands twice, the row that meets a condition is the one that is found by its id.
  pub find-filter :
      (P : HierarchyItem → Bool) (a : String) (types : List (AssetType F))
      → distinct (map (λ t. t.id) types) ≡ true
      → member a (ids_of (filter P (map to_hierarchy_item types))) ≡ true
      → (t : AssetType F) × (find (λ x. str_eq x.id a) types ≡ some t)
        × (P (to_hierarchy_item t) ≡ true)
  find-filter P a [] d h = absurd (cc h)
  find-filter P a (t ∷ ts) d h = elim (Bool-cases (str_eq t.id a)) [
    | inl same ↦
        let id_same : t.id ≡ a = (eq_iff t.id a).0 same in
        (
          t,
          ap (λ b. if b then some t else find (λ x. str_eq x.id a) ts) same,
          ground (arith, absent P a ts, id_same),
        )
    | inr other ↦
        let (u, found, met) = find-filter P a ts (ground arith) (ground arith) in
        (u, ap (λ b. if b then some t else find (λ x. str_eq x.id a) ts) other ∙ found, met)
  ]

  parent_of-found :
      (types : List (AssetType F)) (a : String) (t : AssetType F)
      → find (λ x. str_eq x.id a) types ≡ some t
      → parent_of types a ≡ truthy_id t.extends_type
  unfolding parent_of
  parent_of-found types a t h = rw (parent_of, h) refl

  pub Rooted-Chain :
      (types : List (AssetType F)) {a : String}
      → distinct (map (λ t. t.id) types) ≡ true
      → Rooted (map to_hierarchy_item types) a
      → (ids : List String) × Chain types a ids
  Rooted-Chain types {a} d (root _ h) =
      let (t, found, met) = find-filter is_root a types d h in
      (a ∷ [], last a (parent_of-found types a t found ∙ root_extends t.extends_type t.id met))
  Rooted-Chain types {a} d (child p _ r h) =
      let (t, found, met) = find-filter (is_child_of p) a types d h in
      let parent = parent_of-found types a t found ∙ child_extends t.extends_type t.id p met in
      let (ids, chain) = Rooted-Chain types d r in
      elim (Bool-cases (str_eq p "")) [
        | inl unnamed ↦ (a ∷ [], last a (parent ∙ ap (λ b. if b then none else some p) unnamed))
        | inr named ↦
            (a ∷ ids, next a p (parent ∙ ap (λ b. if b then none else some p) named) chain)
      ]
