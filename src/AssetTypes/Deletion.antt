-- ===== src/AssetTypes/Deletion.antt =====
-- What the deletion of a type that others extend leads to.
use elunic_myturck.Base.{
  map-append, ◌≡◌, ◌≢◌, refl, sym, ap, ◌∙◌, true, false, not, Option, none, some, List, [], ◌∷◌,
  ◌++◌, find, filter, map, String, str_eq, eq_iff, ◌&&◌, arith, if◌then◌else◌, Bool-cases, inl, inr,
}
use elunic_myturck.Base.Names.{member, distinct, member-append, distinct-snoc}
use elunic_myturck.Base.Repository.{Repository, map_where}
use elunic_myturck.Base.Results.{ok, >>=-eq-ok, ok-injective}
use elunic_myturck.Hierarchy.{is_root, is_child_of, ids_of}
use elunic_myturck.Hierarchy.Rooted.{Rooted, root, child, member_of_Rooted}
use elunic_myturck.AssetTypes.{
  AssetType, TypeDto, to_hierarchy_item, TypeState, types_of, get_type_by_id, create_asset_type,
  soft_delete_by_id,
}
use elunic_myturck.AssetTypes.Inheritance.{find-filter}
use elunic_myturck.AssetTypes.Updates.{ids_same, checked-Rooted, create_asset_type-checked}

root-none :
    (o : Option String) (id : String)
    → is_root (record { id = id; parent_id = o }) ≡ true
    → o ≡ none
root-none none id h = refl
root-none (some p) id h = absurd (cc h)

child-some :
    (o : Option String) (id q : String)
    → is_child_of q (record { id = id; parent_id = o }) ≡ true
    → o ≡ some q
child-some none id q h = absurd (cc h)
child-some (some p) id q h = ap some ((eq_iff p q).0 h)

some_same {ℓ} : {A : Type ℓ} {x y : A} → some x ≡ some y → x ≡ y
some_same h = cc

module _ {F : Type 0} where
  -- No row is below a parent that is not there.
  Rooted-dangling :
      (types : List (AssetType F)) (a p : String) (t : AssetType F)
      → distinct (map (λ x. x.id) types) ≡ true
      → find (λ x. str_eq x.id a) types ≡ some t
      → t.extends_type ≡ some p
      → member p (ids_of (map to_hierarchy_item types)) ≡ false
      → ¬ Rooted (map to_hierarchy_item types) a
  Rooted-dangling types a p t d found extends gone (root _ m) =
      let (u, found', met) = find-filter is_root a types d m in
      absurd (
        cc (
          root-none u.extends_type u.id met,
          ap (λ x. x.extends_type) (some_same (sym found ∙ found')),
          extends,
        ))
  Rooted-dangling types a p t d found extends gone (child q _ above m) =
      let (u, found', met) = find-filter (is_child_of q) a types d m in
      let same : p ≡ q = some_same (
        sym extends
        ∙ ap (λ x. x.extends_type) (some_same (sym found ∙ found'))
        ∙ child-some u.extends_type u.id q met) in
      absurd (cc (gone, same, member_of_Rooted (map to_hierarchy_item types) above))

  find-append :
      (a : String) (types more : List (AssetType F)) (t : AssetType F)
      → find (λ x. str_eq x.id a) types ≡ some t
      → find (λ x. str_eq x.id a) (types ++ more) ≡ some t
  find-append a [] more t h = absurd (cc h)
  find-append a (x ∷ xs) more t h = elim (Bool-cases (str_eq x.id a)) [
    | inl hit ↦
        ap (λ b. if b then some x else find (λ y. str_eq y.id a) (xs ++ more)) hit
        ∙ sym (ap (λ b. if b then some x else find (λ y. str_eq y.id a) xs) hit)
        ∙ h
    | inr miss ↦
        ap (λ b. if b then some x else find (λ y. str_eq y.id a) (xs ++ more)) miss
        ∙ find-append a xs more t
            (sym (ap (λ b. if b then some x else find (λ y. str_eq y.id a) xs) miss) ∙ h)
  ]

  find-member :
      (a : String) (types : List (AssetType F)) (t : AssetType F)
      → find (λ x. str_eq x.id a) types ≡ some t
      → member a (map (λ x. x.id) types) ≡ true
  find-member a [] t h = absurd (cc h)
  find-member a (x ∷ xs) t h = ground (arith, find-member a xs t)

  deleted-member :
      (p tenant : String) (rows : List (AssetType F))
      → member p (
          map
            (λ x. x.id)
            (filter
              (λ x. str_eq x.tenant_id tenant && not x.is_deleted)
              (map_where
                (λ x. str_eq x.id p && str_eq x.tenant_id tenant)
                (λ x. record x { is_deleted = true })
                rows)))
        ≡ false
  deleted-member p tenant [] = refl
  deleted-member p tenant (x ∷ xs) = ground (arith, deleted-member p tenant xs)

  filter-snoc :
      (tenant : String) (rows : List (AssetType F)) (x : AssetType F)
      → x.tenant_id ≡ tenant
      → x.is_deleted ≡ false
      → filter (λ y. str_eq y.tenant_id tenant && not y.is_deleted) (rows ++ x ∷ [])
        ≡ filter (λ y. str_eq y.tenant_id tenant && not y.is_deleted) rows ++ x ∷ []
  filter-snoc tenant [] x h k = ground (arith, eq_iff x.tenant_id tenant)
  filter-snoc tenant (y ∷ ys) x h k = ground (arith, filter-snoc tenant ys x)

module _ {F : Type 0} (r : Repository (AssetType F)) where
  soft_delete_by_id-gone :
      (tenant p : String) (st : TypeState r) {st' : TypeState r}
      → soft_delete_by_id r tenant p st ≡ ok st'
      → member p (map (λ x. x.id) (types_of r tenant st'.table)) ≡ false
  unfolding soft_delete_by_id
  soft_delete_by_id-gone tenant p st {st'} h =
      let (x, found, e) = >>=-eq-ok (get_type_by_id r tenant p st.table) _ h in
      ap (λ z. member p (map (λ x. x.id) (types_of r tenant z.table))) (sym (ok-injective e))
      ∙ ap
          (λ rows.
            member p
              (map (λ x. x.id) (filter (λ x. str_eq x.tenant_id tenant && not x.is_deleted) rows)))
          (r.rows-update _ _ st.table)
      ∙ deleted-member p tenant (r.rows st.table)

  -- After a type was soft-deleted that another type of the tenant extends, no creation of an asset type
  -- succeeds, whatever type it is. The ids of the types are distinct, and that of the new one is new.
  pub create_asset_type-soft_delete_by_id :
      (tenant p a : String) (st : TypeState r) {st' : TypeState r} (t : AssetType F)
      → soft_delete_by_id r tenant p st ≡ ok st'
      → find (λ x. str_eq x.id a) (types_of r tenant st'.table) ≡ some t
      → t.extends_type ≡ some p
      → distinct (map (λ x. x.id) (types_of r tenant st'.table)) ≡ true
      → (new_id : String) → member new_id (map (λ x. x.id) (types_of r tenant st'.table)) ≡ false
      → str_eq new_id p ≡ false
      → (blank : F) (dto : TypeDto F) (out : AssetType F × TypeState r)
      → create_asset_type r new_id tenant blank dto st' ≢ ok out
  create_asset_type-soft_delete_by_id tenant p a st {st'} t h found extends d new_id fresh other
        blank dto (x, st2) made =
      let types = types_of r tenant st'.table in
      let (f, new, checked, _, stored, named, owned, kept) =
        create_asset_type-checked r new_id tenant blank dto st' made in
      let rows_after : types_of r tenant st2.table ≡ types ++ new ∷ [] =
        ap (types_of r tenant) stored
        ∙ ap (filter (λ y. str_eq y.tenant_id tenant && not y.is_deleted))
            (r.rows-insert new st'.table)
        ∙ filter-snoc tenant (r.rows st'.table) new owned kept in
      let ids_after : map (λ y. y.id) (types_of r tenant st2.table)
          ≡ map (λ y. y.id) types ++ new_id ∷ [] =
        ap (map (λ y. y.id)) rows_after
        ∙ map-append (λ y. y.id) types (new ∷ [])
        ∙ ap (λ i. map (λ y. y.id) types ++ i ∷ []) named in
      let found_after =
        ap (find (λ y. str_eq y.id a)) rows_after ∙ find-append a types (new ∷ []) t found in
      Rooted-dangling (types_of r tenant st2.table) a p t
        (ap distinct ids_after ∙ distinct-snoc (map (λ y. y.id) types) new_id d fresh) found_after
        extends
        (ap (member p) (ids_same r (types_of r tenant st2.table) ∙ ids_after)
          ∙ not_among p new_id (map (λ y. y.id) types) (soft_delete_by_id-gone tenant p st h) other)
        (checked-Rooted r tenant st2.table checked a (find-member a _ t found_after))
    where
      not_among :
          (p new_id : String) (ids : List String)
          → member p ids ≡ false
          → str_eq new_id p ≡ false
          → member p (ids ++ new_id ∷ []) ≡ false
      not_among p new_id ids h k = ground (arith, member-append p ids (new_id ∷ []))
