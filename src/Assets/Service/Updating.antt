-- ===== src/Assets/Service/Updating.antt =====
-- Updating an asset, and updating it again.
use elunic_myturck.Base.{
  ℕ, ◌≡◌, ◌↔◌, refl, sym, ap, ◌∙◌, Bool, true, Option, none, some, List, [], ◌++◌, append-nil,
  String, str_eq, eq_iff, Bool-cases, inl, inr, if◌then◌else◌, ◌&&◌,
}
use mathlib.Core.Path.{subst}
use elunic_myturck.Base.Repository.{map_where}
use elunic_myturck.Base.Results.{
  Result, ok, internal_error, ◌>>=◌, >>=-eq-ok, guard-eq-ok, ok-injective,
}
use elunic_myturck.Assets.{
  AssetEntity, AliasFields, DocumentFields, NewRelated, UpdateAssetDto, Activity, AssetTables,
  AssetStore, AssetUser,
}
use elunic_myturck.Assets.Reading.{is_live, get_asset_by_id}
use elunic_myturck.Assets.Reading.Found.{
  get_asset_by_id-holds, get_asset_by_id-replaced, replaced_again,
}
use elunic_myturck.Assets.Service.{
  Calls, simple_props, truthy_text, update_simple, save_related, handle_exceptions, all_assets, log,
  save_asset, update_type, retyped, update_asset, retyped, update_asset_by_id,
}
use elunic_myturck.Assets.Service.Fields.{with_fields, update_simple-fields, update_simple_again}

module _ {V N : Type 0} (r : AssetTables V N) (c : Calls V N) where
  -- The asset type after an update that names one, or none.
  abbrev pub type_after : String → Option String → String → Result String
  type_after tenant none old = ok old
  type_after tenant (some t) old = if str_eq old t then ok old else c.find_type tenant t

  pub save_asset-parts :
      (a : AssetEntity N) (d : Option (List (NewRelated DocumentFields)))
      (x : Option (List (NewRelated AliasFields))) (s s' : AssetStore r)
      → save_asset r c a d x s ≡ ok s'
      → (all_assets r c s' ≡ map_where (λ y. str_eq y.id a.id) (λ _. a) (all_assets r c s))
        × (s'.properties ≡ s.properties)
  unfolding save_asset
  save_asset-parts a d x s s' h =
      let (_, _, h1) =
        >>=-eq-ok (handle_exceptions (save_related r.documents a.id d s.documents)) _ h in
      let (_, _, h2) =
        >>=-eq-ok (handle_exceptions (save_related r.aliases a.id x s.aliases)) _ h1 in
      (
        ap (λ t. all_assets r c t) (sym (ok-injective h2)) ∙ r.assets.rows-update _ _ s.assets,
        ap (λ t. t.properties) (sym (ok-injective h2)),
      )

  -- What the change of the type leaves of an asset and of a store.
  abbrev Retyped :
      AssetUser
      → Option String
      → AssetEntity N
      → AssetStore r
      → AssetEntity N × AssetStore r
      → Type 0
  Retyped user t a s out =
      (out.0 ≡ record a { asset_type_id = out.0.asset_type_id })
      × (type_after user.tenant_id t a.asset_type_id ≡ ok out.0.asset_type_id)
      × (out.1.assets ≡ s.assets)

  update_type-Retyped :
      (ids : ℕ → String) (user : AssetUser) (t : Option String) (a : AssetEntity N)
      (s : AssetStore r) {out : AssetEntity N × AssetStore r}
      → update_type r c ids user t a s ≡ ok out
      → Retyped user t a s out
  unfolding update_type
  update_type-Retyped ids user none a s h =
      subst (Retyped user none a s) (ok-injective h) (refl, refl, refl)
  update_type-Retyped ids user (some t) a s {out} h =
      let (_, h1) = guard-eq-ok (c.has_type a.asset_type_id) internal_error _ h in
      let type_if : Bool → Result String =
        λ q. if q then ok a.asset_type_id else c.find_type user.tenant_id t in
      let renamed =
        c.find_type user.tenant_id t >>= λ new_type. ok (retyped r c ids user t a s new_type) in
      elim (Bool-cases (str_eq a.asset_type_id t)) [
        | inl same ↦
            let kept = ok-injective (ap (λ q. if q then ok (a, s) else renamed) (sym same) ∙ h1) in
            subst (Retyped user (some t) a s) kept (refl, ap type_if same, refl)
        | inr other ↦
            let (new_type, found, moved) =
              >>=-eq-ok (c.find_type user.tenant_id t) _
                (ap (λ q. if q then ok (a, s) else renamed) (sym other) ∙ h1) in
            subst (Retyped user (some t) a s) (ok-injective moved)
              (refl, ap type_if other ∙ found, refl)
      ]

  -- The parts of an update that succeeded: the asset that it found, and the one that it left.
  update_asset-parts :
      (same_name_iff : (a b : N) → (c.same_name a b ≡ true) ↔ (a ≡ b)) (ids : ℕ → String)
      (user : AssetUser) (id : String) (u : UpdateAssetDto N) (s s' : AssetStore r)
      → update_asset r c ids user id u s ≡ ok s'
      → (a b : AssetEntity N) × (get_asset_by_id user.tenant_id id (all_assets r c s) ≡ ok a)
        × (b ≡ record (with_fields c.same_name u a) { asset_type_id = b.asset_type_id })
        × (type_after user.tenant_id (truthy_text u.asset_type) a.asset_type_id
            ≡ ok b.asset_type_id)
        × (all_assets r c s' ≡ map_where (λ y. str_eq y.id b.id) (λ _. b) (all_assets r c s))
        × ((a' : AssetEntity N) × (st : AssetStore r) × (st' : AssetStore r) × (update_type r c ids
                user
                (truthy_text u.asset_type)
                a'
                st
              ≡ ok (b, st')))
  unfolding update_asset
  update_asset-parts same_name_iff ids user id u s s' h =
      let (a, found, h1) = >>=-eq-ok (get_asset_by_id user.tenant_id id (all_assets r c s)) _ h in
      let (t, typed, h2) =
        >>=-eq-ok
          (update_type r c ids user (truthy_text u.asset_type)
            (update_simple c.same_name user u simple_props a).0
            (log r c (update_simple c.same_name user u simple_props a).1 s))
          _ h1 in
      let (fields, type_of, table) =
        update_type-Retyped ids user (truthy_text u.asset_type) _ _ typed in
      let (rows, _) = save_asset-parts t.0 _ _ _ s' h2 in
      let named = update_simple-fields c.same_name same_name_iff user u a in
      (
        a,
        t.0,
        found,
        fields ∙ ap {A = AssetEntity N} (λ x. record x { asset_type_id = t.0.asset_type_id }) named,
        ap (λ x. type_after user.tenant_id (truthy_text u.asset_type) x.asset_type_id) (sym named)
            ∙ type_of,
        rows ∙ ap (λ x. map_where (λ y. str_eq y.id t.0.id) (λ _. t.0) (r.assets.rows x)) table,
        ((update_simple c.same_name user u simple_props a).0, _, t.1, typed),
      )

  -- A request without aliases and documents.
  abbrev pub fields_only : UpdateAssetDto N → UpdateAssetDto N
  fields_only u = record u { aliases = none; documents = none }

  found_again :
      (user : AssetUser) (id : String) (u : UpdateAssetDto N) (a b : AssetEntity N)
      (s s' : AssetStore r)
      → get_asset_by_id user.tenant_id id (all_assets r c s) ≡ ok a
      → b ≡ record (with_fields c.same_name u a) { asset_type_id = b.asset_type_id }
      → all_assets r c s' ≡ map_where (λ y. str_eq y.id b.id) (λ _. b) (all_assets r c s)
      → get_asset_by_id user.tenant_id id (all_assets r c s') ≡ ok b
  found_again user id u a b s s' found fields rows =
      ap (get_asset_by_id user.tenant_id id) rows
      ∙ get_asset_by_id-replaced user.tenant_id id b (all_assets r c s) found (
          ap (λ x. str_eq x.id id && is_live user.tenant_id x) fields
          ∙ get_asset_by_id-holds user.tenant_id id (all_assets r c s) found)

  update_type_again :
      ((t t' tenant : String) → c.find_type tenant t ≡ ok t' → t' ≡ t)
      → ((t t' tenant : String) → c.find_type tenant t ≡ ok t' → c.has_type t' ≡ true)
      → (ids ids' : ℕ → String) (user : AssetUser) (t : Option String) (a : AssetEntity N)
        (s s2 : AssetStore r) {out : AssetEntity N × AssetStore r}
      → update_type r c ids user t a s ≡ ok out
      → update_type r c ids' user t out.0 s2 ≡ ok (out.0, s2)
  unfolding update_type
  update_type_again sound typed ids ids' user none a s s2 h = refl
  update_type_again sound typed ids ids' user (some t) a s s2 {out} h =
      let (has, h1) = guard-eq-ok (c.has_type a.asset_type_id) internal_error _ h in
      let renamed =
        c.find_type user.tenant_id t >>= λ new_type. ok (retyped r c ids user t a s new_type) in
      let settled : (x : AssetEntity N)
          → c.has_type x.asset_type_id ≡ true
          → str_eq x.asset_type_id t ≡ true
          → update_type r c ids' user (some t) x s2 ≡ ok (x, s2) =
        λ x k e. rw (k, update_type) (rw (e, update_type) refl) in
      elim (Bool-cases (str_eq a.asset_type_id t)) [
        | inl same ↦
            let kept = ok-injective (ap (λ q. if q then ok (a, s) else renamed) (sym same) ∙ h1) in
            subst (λ q. update_type r c ids' user (some t) q.0 s2 ≡ ok (q.0, s2)) kept
              (settled a has same)
        | inr other ↦
            let (new_type, found, moved) =
              >>=-eq-ok (c.find_type user.tenant_id t) _
                (ap (λ q. if q then ok (a, s) else renamed) (sym other) ∙ h1) in
            subst (λ q. update_type r c ids' user (some t) q.0 s2 ≡ ok (q.0, s2))
              (ok-injective moved)
              (settled _ (typed t new_type user.tenant_id found)
                ((eq_iff new_type t).1 (sound t new_type user.tenant_id found)))
      ]

  module _ (same_name_iff : (a b : N) → (c.same_name a b ≡ true) ↔ (a ≡ b)) where
    -- An update that succeeds finds the asset and returns it with each field that the request gives, and with the
    -- others as they were; the type is the one that is found for the request, or the old one. Names are
    -- compared for equality.
    pub update_asset_by_id-fields :
        (ids : ℕ → String) (user : AssetUser) (id : String) (u : UpdateAssetDto N)
        (s s' : AssetStore r) (b : AssetEntity N)
        → update_asset_by_id r c ids user id u s ≡ ok (b, s')
        → (a : AssetEntity N) × (get_asset_by_id user.tenant_id id (all_assets r c s) ≡ ok a)
          × (b ≡ record (with_fields c.same_name u a) { asset_type_id = b.asset_type_id })
          × (type_after user.tenant_id (truthy_text u.asset_type) a.asset_type_id
              ≡ ok b.asset_type_id)
    unfolding update_asset_by_id
    update_asset_by_id-fields ids user id u s s' b h =
        let (s1, updated_, h1) = >>=-eq-ok (update_asset r c ids user id u s) _ h in
        let (b1, found1, h2) =
          >>=-eq-ok (get_asset_by_id user.tenant_id id (all_assets r c s1)) _ h1 in
        let (a, b', found, fields, type_of, rows, _) =
          update_asset-parts same_name_iff ids user id u s s1 updated_ in
        let again = found_again user id u a b' s s1 found fields rows in
        let same : b' ≡ b = ok-injective (sym again ∙ found1) ∙ ap (λ q. q.0) (ok-injective h2) in
        (
          a,
          found,
          subst (λ x. x ≡ record (with_fields c.same_name u a) { asset_type_id = x.asset_type_id })
              same fields,
          subst
              (λ x.
                type_after user.tenant_id (truthy_text u.asset_type) a.asset_type_id
                ≡ ok x.asset_type_id)
              same type_of,
        )

    -- An update of fields and type alone that succeeded can be made again: it returns, and changes neither the assets nor the
    -- properties and logs nothing. Names are compared for equality, a type that is found is found under its own id, and the
    -- check whether that type exists passes.
    pub update_asset_again :
        ((t t' tenant : String) → c.find_type tenant t ≡ ok t' → t' ≡ t)
        → ((t t' tenant : String) → c.find_type tenant t ≡ ok t' → c.has_type t' ≡ true)
        → (ids ids' : ℕ → String) (user : AssetUser) (id : String) (u : UpdateAssetDto N)
          (s s' : AssetStore r)
        → update_asset r c ids user id (fields_only u) s ≡ ok s'
        → (s'' : AssetStore r) × (update_asset r c ids' user id (fields_only u) s' ≡ ok s'')
          × (all_assets r c s'' ≡ all_assets r c s')
          × (s''.properties ≡ s'.properties)
          × (s''.activities ≡ s'.activities)
    unfolding update_asset save_asset
    update_asset_again sound typed ids ids' user id u s s' h =
        let (a, b, found, fields, _, rows, (_, _, _, retyped_)) =
          update_asset-parts same_name_iff ids user id (fields_only u) s s' h in
        let again = found_again user id (fields_only u) a b s s' found fields rows in
        let simple_ : update_simple c.same_name user (fields_only u) simple_props b ≡ (b, []) =
          subst (λ x. update_simple c.same_name user (fields_only u) simple_props x ≡ (x, []))
            (sym fields)
            (update_simple_again c.same_name same_name_iff user (fields_only u)
              (record a { asset_type_id = b.asset_type_id })) in
        let type_ =
          update_type_again sound typed ids ids' user (truthy_text u.asset_type) _ _ (log r c [] s')
            retyped_ in
        let type_id = truthy_text u.asset_type in
        let simple_of : AssetEntity N → AssetEntity N × List (Activity N) =
          λ x. update_simple c.same_name user (fields_only u) simple_props x in
        let finish : AssetEntity N × AssetStore r → Result (AssetStore r) =
          λ t. save_asset r c t.0 none none (log r c [] t.1) in
        let t' : r.assets.Table = r.assets.update (λ y. str_eq y.id b.id) (λ _. b) s'.assets in
        (
          record s' { assets = t'; activities = ((s'.activities ++ []) ++ []) ++ [] },
          ap
                (λ g. g >>= λ x.
                  update_type r c ids' user type_id (simple_of x).0 (log r c (simple_of x).1 s')
                  >>= finish)
                again
              ∙ (ap (λ q. update_type r c ids' user type_id q.0 (log r c q.1 s') >>= finish) simple_
                  ∙ ap (λ m. m >>= finish) type_),
          r.assets.rows-update _ _ s'.assets
              ∙ (ap (map_where (λ y. str_eq y.id b.id) (λ _. b)) rows
                  ∙ (replaced_again b (all_assets r c s) ∙ sym rows)),
          refl,
          append-nil _ ∙ (append-nil _ ∙ append-nil _),
        )
