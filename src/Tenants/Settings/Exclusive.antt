-- ===== src/Tenants/Settings/Exclusive.antt =====
-- That a device group is the setting of one tenant at most.
use elunic_myturck.Base.{
  filter, ◌+◌, ◌≤◌, ◌≡◌, refl, sym, ap, ◌∙◌, Bool, true, false, not, ◌&&◌, Option, none, some, List,
  [], ◌∷◌, ◌++◌, any, map, map-append, append_assoc, String, str_eq, eq_iff, arith, if◌then◌else◌,
  Bool-cases, inl, inr, ◌==◌, All,
}
use mathlib.Core.Path.{subst}
use elunic_myturck.Base.Names.{distinct, member-append}
use elunic_myturck.Base.Counting.{
  count-filter-le, distinct-filter, count, count-append, count-single, count-map_where,
  count-retire, count-found,
}
use elunic_myturck.Base.Results.{
  Result, ok, err, >>=-eq-ok, guard-eq-ok, ok-injective, bad_request, conflict,
}
use elunic_myturck.Base.Repository.{Repository, map_where, find_or_fail, find_or_fail-holds}
use elunic_myturck.Tenants.Settings.{
  TenantSettingsEntity, SettingDefault, UpdateSettingsDto, settings_defaults, group_key, truthy,
  is_setting, has_value, default_of, immutable, is_unique, assigned, or_not_found, create_default,
  create_each, create_default_settings, get_one_by_key, is_taken, update_one, delete_settings,
  Unused, Requests,
}

distinct-drop :
    (xs ys : List String) (y : String) → distinct (xs ++ y ∷ ys) ≡ true → distinct (xs ++ ys) ≡ true
distinct-drop [] ys y h = ground arith
distinct-drop (x ∷ xs) ys y h =
    ground (arith, distinct-drop xs ys y, member-append x xs (y ∷ ys), member-append x xs ys)

distinct-prefix : (xs ys : List String) → distinct (xs ++ ys) ≡ true → distinct xs ≡ true
distinct-prefix [] ys h = refl
distinct-prefix (x ∷ xs) ys h = ground (arith, distinct-prefix xs ys, member-append x xs ys)

-- An update that only gives the rows it selects a property `q` makes no more rows have `p` than it selects with `q`.
count-assign {ℓ} :
    {A : Type ℓ} (p q r : A → Bool) (f : A → A) (xs : List A)
    → ((x : A) → p (f x) ≡ true → q x ≡ true)
    → count p (map_where r f xs) ≤ count p xs + count (λ x. r x && q x) xs
unfolding count
count-assign p q r f [] k = omega arith
count-assign p q r f (x ∷ xs) k = ground (arith, count-assign p q r f xs k, k x)

count-any {ℓ} : {A : Type ℓ} (p : A → Bool) (xs : List A) → any p xs ≡ false → count p xs ≡ 0
unfolding count
count-any p [] h = refl
count-any p (x ∷ xs) h = ground (arith, count-any p xs)

and_left : (a b : Bool) → (a && b) ≡ true → a ≡ true
and_left a b h = ground arith

pub and_right : (a b : Bool) → b ≡ false → (a && b) ≡ false
and_right a b h = ground arith

pub right_of : (a b : Bool) → (a && b) ≡ true → b ≡ true
right_of a b h = ground arith

pub or_not_found-eq-ok {ℓ} : {A : Type ℓ} (m : Result A) {a : A} → or_not_found m ≡ ok a → m ≡ ok a
or_not_found-eq-ok (ok a) h = h
or_not_found-eq-ok (err e) h = absurd (cc h)

pub assigned-id : (w : Option String) (s : TenantSettingsEntity) → (assigned w s).id ≡ s.id
assigned-id none s = refl
assigned-id (some v) s = refl

ids-map_where :
    (w : Option String) (p : TenantSettingsEntity → Bool) (xs : List TenantSettingsEntity)
    → map (λ s. s.id) (map_where p (assigned w) xs) ≡ map (λ s. s.id) xs
ids-map_where w p [] = refl
ids-map_where w p (x ∷ xs) = ground (arith, ids-map_where w p xs, assigned-id w x)

module _ (r : Repository TenantSettingsEntity) where
  abbrev ids : r.Table → List String
  ids t = map (λ s. s.id) (r.rows t)

  -- The ids are distinct, and no two settings have the same device group.
  abbrev pub Exclusive : r.Table → Type 0
  Exclusive t =
      (distinct (ids t) ≡ true)
      × ((group : String) → truthy group ≡ true → count (has_value group_key group) (r.rows t) ≤ 1)

  -- What an update that succeeds has found, has tested and has stored.
  pub update_one-parts :
      (tenant_id key : String) (dto : UpdateSettingsDto) (t u : r.Table) {s : TenantSettingsEntity}
      → update_one r tenant_id key dto t ≡ ok (s, u)
      → (e : TenantSettingsEntity) × (find_or_fail (is_setting tenant_id key) (r.rows t) ≡ ok e)
        × ((immutable (default_of key) && truthy e.value) ≡ false)
        × (is_taken r key dto.value t ≡ false)
        × (r.rows u ≡ map_where (λ x. str_eq x.id e.id) (assigned dto.value) (r.rows t))
  unfolding update_one get_one_by_key
  update_one-parts tenant_id key dto t u h =
      let (e, found, h1) = >>=-eq-ok (get_one_by_key r tenant_id key t) _ h in
      let (free, h2) =
        guard-eq-ok (not (immutable (default_of key) && truthy e.value)) bad_request _ h1 in
      let (new, h3) = guard-eq-ok (not (is_taken r key dto.value t)) conflict _ h2 in
      (
        e,
        or_not_found-eq-ok _ found,
        ground arith,
        ground arith,
        ap (λ q. r.rows q.1) (sym (ok-injective h3)) ∙ r.rows-update _ _ t,
      )

  insert-count :
      (p : TenantSettingsEntity → Bool) (x : TenantSettingsEntity) (t : r.Table)
      → p x ≡ false
      → count p (r.rows (r.insert x t)) ≡ count p (r.rows t)
  insert-count p x t h =
      ap (count p) (r.rows-insert x t)
      ∙ count-append p (r.rows t) (x ∷ [])
      ∙ ap (λ n. count p (r.rows t) + n) (count-single p x ∙ ap (λ b. if b then 1 else 0) h)
      ∙ omega arith

  insert-ids : (x : TenantSettingsEntity) (t : r.Table) → ids (r.insert x t) ≡ ids t ++ x.id ∷ []
  insert-ids x t =
      ap (map (λ s. s.id)) (r.rows-insert x t) ∙ map-append (λ s. s.id) (r.rows t) (x ∷ [])

  -- A default of no group.
  abbrev NoGroup : SettingDefault → Type 0
  NoGroup d = (str_eq d.key group_key && truthy d.value) ≡ false

  no_group :
      (key value group : String)
      → (str_eq key group_key && truthy value) ≡ false
      → truthy group ≡ true
      → (str_eq key group_key && str_eq value group) ≡ false
  no_group key value group h k = ground (arith, eq_iff value group)

  create_each-Exclusive :
      (new_ids : String → String) (tenant_id : String) (ds : List SettingDefault) (t : r.Table)
      → All NoGroup ds
      → Unused r new_ids ds t
      → Exclusive t
      → Exclusive (create_each r new_ids tenant_id ds t)
  unfolding create_each create_default
  create_each-Exclusive new_ids tenant_id [] t none_ fresh h = h
  create_each-Exclusive new_ids tenant_id (d ∷ ds) t none_ fresh h =
      let x : TenantSettingsEntity = record {
        id = new_ids d.key;
        tenant_id = tenant_id;
        key = d.key;
        value = d.value;
      } in
      let rest = map (λ d. new_ids d.key) ds in
      elim (Bool-cases (count (is_setting tenant_id d.key) (r.rows t) == 0)) [
        | inl new_ ↦
            let unused : distinct (ids (r.insert x t) ++ rest) ≡ true =
              ap (λ q. distinct (q ++ rest)) (insert-ids x t)
              ∙ ap distinct (append_assoc (ids t) (x.id ∷ []) rest)
              ∙ fresh in
            rw new_ (
              create_each-Exclusive new_ids tenant_id ds (r.insert x t) none_.1 unused (
                distinct-prefix (ids (r.insert x t)) rest unused,
                λ group k.
                    subst (λ n. n ≤ 1)
                      (sym (
                        insert-count (has_value group_key group) x t
                          (no_group d.key d.value group none_.0 k)))
                      (h.1 group k),
              ))
        | inr there ↦ rw there (
            create_each-Exclusive new_ids tenant_id ds t none_.1
              (distinct-drop (ids t) rest (new_ids d.key) fresh) h)
      ]

  create_default_settings-Exclusive :
      (new_ids : String → String) (tenant_id : String) (t : r.Table)
      → Unused r new_ids settings_defaults t
      → Exclusive t
      → Exclusive (create_default_settings r new_ids tenant_id t)
  unfolding create_default_settings
  create_default_settings-Exclusive new_ids tenant_id t =
      create_each-Exclusive new_ids tenant_id settings_defaults t (refl, (refl, tt))

  free_group :
      (key group w ekey : String) (t : r.Table)
      → str_eq ekey key ≡ true
      → str_eq ekey group_key ≡ true
      → str_eq w group ≡ true
      → truthy group ≡ true
      → is_taken r key (some w) t ≡ false
      → any (has_value group_key group) (r.rows t) ≡ false
  unfolding is_taken
  free_group key group w ekey t same at_group hit k free =
      let to_group : key ≡ group_key =
        sym ((eq_iff ekey key).0 same) ∙ (eq_iff ekey group_key).0 at_group in
      let to_value : w ≡ group = (eq_iff w group).0 hit in
      let b : (truthy group && any (has_value group_key group) (r.rows t)) ≡ false =
        subst
          (λ (q : String × String).
            (is_unique (default_of q.0) && truthy q.1 && any (has_value q.0 q.1) (r.rows t))
            ≡ false)
          {x = (key, w)} {y = (group_key, group)} (λ i. (to_group i, to_value i)) free in
      sym (ap (λ q. q && any (has_value group_key group) (r.rows t)) k) ∙ b

  -- The setting of another value counts no longer for the group, and that of the same value counts now.
  assigned-count :
      (key group : String) (w : Option String) (e : TenantSettingsEntity) (t : r.Table)
      → str_eq e.key key ≡ true
      → is_taken r key w t ≡ false
      → truthy group ≡ true
      → count (λ x. str_eq x.id e.id && str_eq x.key group_key) (r.rows t)
        ≡ (if str_eq e.key group_key then 1 else 0)
      → count (has_value group_key group) (r.rows t) ≤ 1
      → count
          (has_value group_key group)
          (map_where (λ x. str_eq x.id e.id) (assigned w) (r.rows t))
        ≤ 1
  unfolding is_taken
  assigned-count key group none e t same free k one most =
      subst (λ n. n ≤ 1)
        (sym (
          count-map_where (has_value group_key group) (λ x. str_eq x.id e.id) (assigned none)
            (r.rows t) (λ x. refl)))
        most
  assigned-count key group (some w) e t same free k one most =
      let hits : TenantSettingsEntity → Bool = λ x. str_eq x.id e.id in
      let at_group : TenantSettingsEntity → Bool = λ x. str_eq x.key group_key in
      let given =
        count-assign (has_value group_key group) at_group hits (assigned (some w)) (r.rows t)
          (λ x h. and_left (str_eq x.key group_key) (str_eq w group) h) in
      elim (Bool-cases (str_eq w group)) [
        | inr other ↦ omega (
          arith,
          most,
          count-retire (has_value group_key group) hits (assigned (some w)) (r.rows t)
              (λ x. and_right (str_eq x.key group_key) (str_eq w group) other),
        )
        | inl hit ↦ elim (Bool-cases (str_eq e.key group_key)) [
          | inr elsewhere ↦ omega (arith, given, most, one ∙ ap (λ b. if b then 1 else 0) elsewhere)
          | inl here ↦ omega (
            arith,
            given,
            one ∙ ap (λ b. if b then 1 else 0) here,
            count-any (has_value group_key group) (r.rows t)
                (free_group key group w e.key t same here hit k free),
          )
        ]
      ]

  pub update_one-Exclusive :
      (tenant_id key : String) (dto : UpdateSettingsDto) (t u : r.Table) {s : TenantSettingsEntity}
      → update_one r tenant_id key dto t ≡ ok (s, u)
      → Exclusive t
      → Exclusive u
  update_one-Exclusive tenant_id key dto t u h x =
      let (e, found, _, free, stored) = update_one-parts tenant_id key dto t u h in
      (
        ap (λ rows. distinct (map (λ s. s.id) rows)) stored
            ∙ ap distinct (ids-map_where dto.value (λ x. str_eq x.id e.id) (r.rows t))
            ∙ x.0,
        λ group k.
            subst (λ rows. count (has_value group_key group) rows ≤ 1) (sym stored)
              (assigned-count key group dto.value e t
                (right_of (str_eq e.tenant_id tenant_id) (str_eq e.key key)
                  (find_or_fail-holds (is_setting tenant_id key) (r.rows t) found))
                free k
                (count-found (λ s. s.id) (is_setting tenant_id key) (λ x. str_eq x.key group_key)
                  (r.rows t) x.0 found)
                (x.1 group k)),
      )

  delete_settings-Exclusive :
      (tenant_id : String) (t : r.Table) → Exclusive t → Exclusive (delete_settings r tenant_id t)
  unfolding delete_settings
  delete_settings-Exclusive tenant_id t x =
      let stays : TenantSettingsEntity → Bool = λ s. not (str_eq s.tenant_id tenant_id) in
      let rows : r.rows (r.delete (λ s. str_eq s.tenant_id tenant_id) t) ≡ filter stays (r.rows t) =
        r.rows-delete (λ s. str_eq s.tenant_id tenant_id) t in
      (
        ap (λ q. distinct (map (λ s. s.id) q)) rows
            ∙ distinct-filter (λ s. s.id) stays (r.rows t) x.0,
        λ group k. omega (
          arith,
          ap (count (has_value group_key group)) rows,
          count-filter-le (has_value group_key group) stays (r.rows t),
          x.1 group k,
        ),
      )

  -- Whatever requests are made, in any order, no two settings get the same device group: each group is connected to one
  -- tenant at most, if that is so before. The ids of new rows are not in use, and the requests do not overlap.
  pub Requests-Exclusive : {t t' : r.Table} → Requests r t t' → Exclusive t → Exclusive t'
  Requests-Exclusive Requests.finished x = x
  Requests-Exclusive (Requests.removed tenant_id {t} {t'} rest) x =
      Requests-Exclusive rest (delete_settings-Exclusive tenant_id t x)
  Requests-Exclusive (Requests.created new_ids tenant_id {t} {t'} fresh rest) x =
      Requests-Exclusive rest (create_default_settings-Exclusive new_ids tenant_id t fresh x)
  Requests-Exclusive (Requests.updated tenant_id key dto {s} {t} {u} {t'} h rest) x =
      Requests-Exclusive rest (update_one-Exclusive tenant_id key dto t u h x)
