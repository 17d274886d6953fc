-- ===== src/AssetTypes/Updates.antt =====
-- What the check for loops guarantees after a change, and when it refuses every change.
use elunic_myturck.Base.{
  ℕ, ◌≤◌, ◌≡◌, refl, sym, ap, ◌∙◌, true, false, Option, none, some, List, [], ◌∷◌, map, String,
  str_eq,
}
use mathlib.Core.Path.{subst}
use elunic_myturck.Base.Names.{member, distinct}
use elunic_myturck.Base.Repository.{Repository}
use elunic_myturck.Base.Results.{Result, ok, err, conflict, >>=-eq-ok, guard-eq-ok, ok-injective}
use elunic_myturck.Hierarchy.{Forest, check, ids_of}
use elunic_myturck.Hierarchy.Rooted.{Rooted, check-Rooted}
use elunic_myturck.AssetTypes.{
  AssetType, TypeDto, truthy_id, as_exception, inherited_loop, to_hierarchy_item, cached_ids,
  TypeState, types_of, get_type_by_id, get_inherited_type_ids, check_for_loops, check_extended,
  create_asset_type, apply_dto, flushed, update_asset_type,
}
use elunic_myturck.AssetTypes.Inheritance.{Chain, Returns, Chain-Returns, Rooted-Chain}

as_exception-eq-ok {ℓ} :
    {A : Type ℓ} (r : Result A) {a : A} → as_exception conflict r ≡ ok a → r ≡ ok a
as_exception-eq-ok (ok b) h = h
as_exception-eq-ok (err e) h = absurd (cc h)

module _ {F : Type 0} (r : Repository (AssetType F)) where
  pub ids_same :
      (types : List (AssetType F)) → ids_of (map to_hierarchy_item types) ≡ map (λ t. t.id) types
  ids_same [] = refl
  ids_same (t ∷ ts) = ap (λ ids. t.id ∷ ids) (ids_same ts)

  -- After a check that passed, every type of the tenant is below one that extends none.
  pub checked-Rooted :
      (tenant : String) (t : r.Table) {f : Forest (Unit {0})}
      → check_for_loops r tenant t ≡ ok f
      → (a : String) → member a (map (λ x. x.id) (types_of r tenant t)) ≡ true
      → Rooted (map to_hierarchy_item (types_of r tenant t)) a
  unfolding check_for_loops
  checked-Rooted tenant t {f} h a m =
      ((check-Rooted (map to_hierarchy_item (types_of r tenant t)) f
          (as_exception-eq-ok (check (map to_hierarchy_item (types_of r tenant t))) h))
        a (ap (member a) (ids_same (types_of r tenant t)) ∙ m))

  -- The lookup of the types that a type extends returns their chain, with enough fuel.
  pub Inherits : TypeState r → String → String → Type 0
  Inherits st tenant a =
      (ids : List String) × Chain (types_of r tenant st.table) a ids
      × (enough : ℕ) × ((fuel : ℕ)
          → enough ≤ fuel
          → (after : TypeState r) × (get_inherited_type_ids r fuel tenant a st ≡ ok (ids, after)))

  lookup :
      (fuel : ℕ) (tenant a : String) (st : TypeState r) {ids : List String}
      → cached_ids tenant a st.cache ≡ none
      → inherited_loop fuel (types_of r tenant st.table) (a ∷ []) [] ≡ ok ids
      → (after : TypeState r) × (get_inherited_type_ids r fuel tenant a st ≡ ok (ids, after))
  unfolding get_inherited_type_ids
  lookup fuel tenant a st {ids} h k =
      (record st { cache = ((tenant, a), ids) ∷ st.cache }, rw (get_inherited_type_ids, h, k) refl)

  checked-Inherits :
      (tenant : String) (st : TypeState r) {f : Forest (Unit {0})}
      → check_for_loops r tenant st.table ≡ ok f
      → distinct (map (λ x. x.id) (types_of r tenant st.table)) ≡ true
      → (a : String) → str_eq a "" ≡ false
      → member a (map (λ x. x.id) (types_of r tenant st.table)) ≡ true
      → cached_ids tenant a st.cache ≡ none
      → Inherits st tenant a
  unfolding Inherits Returns
  checked-Inherits tenant st h d a named m miss =
      let types = types_of r tenant st.table in
      let (ids, chain) = Rooted-Chain types d (checked-Rooted tenant st.table h a m) in
      let (enough, run) = Chain-Returns types a [] named chain in
      (ids, chain, enough, λ fuel e. lookup fuel tenant a st miss (run fuel e))

  flushed-none :
      (o : Option String) (p tenant a : String) (cache : List ((String × String) × List String))
      → o ≡ some p
      → cached_ids tenant a (flushed o cache) ≡ none
  flushed-none none p tenant a cache h = absurd (cc h)
  flushed-none (some q) p tenant a cache h = refl

  -- After an update that succeeds and names a type to extend, the lookup for every type of the tenant ends, and
  -- returns the type, the one that it extends, and so on, as they are now. The ids of the types are distinct,
  -- and the given one is not empty.
  pub update_asset_type-Inherits :
      (tenant id : String) (dto : TypeDto F) (st : TypeState r) {x : AssetType F}
      {st' : TypeState r} {p : String}
      → truthy_id dto.extends_type ≡ some p
      → update_asset_type r tenant id dto st ≡ ok (x, st')
      → distinct (map (λ t. t.id) (types_of r tenant st'.table)) ≡ true
      → (a : String) → str_eq a "" ≡ false
      → member a (map (λ t. t.id) (types_of r tenant st'.table)) ≡ true
      → Inherits st' tenant a
  unfolding update_asset_type
  update_asset_type-Inherits tenant id dto st {x} {st'} {p} extends h d a named m =
      let (old, found, h1) = >>=-eq-ok (get_type_by_id r tenant id st.table) _ h in
      let (allowed, h2) = guard-eq-ok _ conflict _ h1 in
      let (exists_, present, h3) =
        >>=-eq-ok (check_extended r tenant (truthy_id dto.extends_type) st.table) _ h2 in
      let t = r.update (λ y. str_eq y.id id) (apply_dto r dto) st.table in
      let (f, checked, h4) = >>=-eq-ok (check_for_loops r tenant t) _ h3 in
      let (y, again, e) = >>=-eq-ok (get_type_by_id r tenant id t) _ h4 in
      let same = ap (λ z. z.1) (ok-injective e) in
      checked-Inherits tenant st'
        (subst (λ z. check_for_loops r tenant z.table ≡ ok f) same checked) d a named m
        (subst (λ z. cached_ids tenant a z.cache ≡ none) same
          (flushed-none (truthy_id dto.extends_type) p tenant a st.cache extends))

  -- What a creation that succeeds has stored and checked.
  pub create_asset_type-checked :
      (new_id tenant : String) (blank : F) (dto : TypeDto F) (st : TypeState r) {x : AssetType F}
      {st' : TypeState r}
      → create_asset_type r new_id tenant blank dto st ≡ ok (x, st')
      → (f : Forest (Unit {0})) × (new : AssetType F) × (check_for_loops r tenant st'.table ≡ ok f)
        × (st'.cache ≡ st.cache)
        × (st'.table ≡ r.insert new st.table)
        × (new.id ≡ new_id)
        × (new.tenant_id ≡ tenant)
        × (new.is_deleted ≡ false)
  unfolding create_asset_type
  create_asset_type-checked new_id tenant blank dto st {x} {st'} h =
      let (exists_, present, h1) =
        >>=-eq-ok (check_extended r tenant (truthy_id dto.extends_type) st.table) _ h in
      let new : AssetType F = record {
        id = new_id;
        tenant_id = tenant;
        is_built_in = false;
        extends_type = truthy_id dto.extends_type;
        is_deleted = false;
        fields = dto.set_fields blank;
      } in
      let (f, checked, h2) = >>=-eq-ok (check_for_loops r tenant (r.insert new st.table)) _ h1 in
      let (y, again, e) = >>=-eq-ok (get_type_by_id r tenant new_id (r.insert new st.table)) _ h2 in
      let same = ap (λ z. z.1) (ok-injective e) in
      (
        f,
        new,
        subst (λ z. check_for_loops r tenant z.table ≡ ok f) same checked,
        ap (λ z. z.cache) (sym same),
        ap (λ z. z.table) (sym same),
        refl,
        refl,
        refl,
      )
