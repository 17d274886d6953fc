-- ===== src/Tenants/Settings/Kept.antt =====
-- That the device group of a tenant, once it is set, stays.
use elunic_myturck.Base.{
  not, ◌≡◌, refl, sym, ap, ◌∙◌, Bool, true, false, ◌&&◌, Option, none, some, List, [], ◌∷◌, map,
  filter, String, str_eq, eq_iff, arith, if◌then◌else◌, Bool-cases, inl, inr, ◌==◌,
}
use mathlib.Core.Path.{subst}
use elunic_myturck.Base.Names.{member, distinct}
use elunic_myturck.Base.Counting.{count, find_or_fail-member}
use elunic_myturck.Base.Results.{ok, ok-injective}
use elunic_myturck.Base.Repository.{
  Repository, find_or_fail, find_or_fail-holds, find_or_fail-append, find_or_fail-map_where,
}
use elunic_myturck.Tenants.Settings.{
  TenantSettingsEntity, SettingDefault, UpdateSettingsDto, settings_defaults, group_key, truthy,
  is_setting, default_of, immutable, assigned, or_not_found, create_default, create_each,
  create_default_settings, get_one_by_key, update_one, delete_settings, Requests, Stays,
}
use elunic_myturck.Tenants.Settings.Exclusive.{
  Exclusive, Requests-Exclusive, update_one-parts, update_one-Exclusive, or_not_found-eq-ok,
  right_of,
}

head_fresh : (a : String) (xs : List String) → distinct (a ∷ xs) ≡ true → member a xs ≡ false
head_fresh a xs d = ground arith

tail_distinct : (a : String) (xs : List String) → distinct (a ∷ xs) ≡ true → distinct xs ≡ true
tail_distinct a xs d = ground arith

first_of {ℓ} :
    {A : Type ℓ} (p : A → Bool) (z : A) (zs : List A) {x : A}
    → p z ≡ true
    → find_or_fail p (z ∷ zs) ≡ ok x
    → z ≡ x
first_of p z zs here h =
    ok-injective (sym (ap (λ b. if b then ok z else find_or_fail p zs) here) ∙ h)

rest_of {ℓ} :
    {A : Type ℓ} (p : A → Bool) (z : A) (zs : List A) {x : A}
    → p z ≡ false
    → find_or_fail p (z ∷ zs) ≡ ok x
    → find_or_fail p zs ≡ ok x
rest_of p z zs later h = sym (ap (λ b. if b then ok z else find_or_fail p zs) later) ∙ h

-- Where no id stands twice, a row that is found under one condition and has the id of a row that is found under
-- another one is that row.
same_row {ℓ} :
    {A : Type ℓ} (id : A → String) (p q : A → Bool) (xs : List A) {x y : A}
    → distinct (map id xs) ≡ true
    → find_or_fail p xs ≡ ok x
    → find_or_fail q xs ≡ ok y
    → id x ≡ id y
    → x ≡ y
same_row id p q [] d h k e = absurd (cc h)
same_row id p q (z ∷ zs) {x} {y} d h k e =
    let fresh = head_fresh (id z) (map id zs) d in
    elim (Bool-cases (p z)) [
      | inl here ↦ elim (Bool-cases (q z)) [
        | inl there ↦ sym (first_of p z zs here h) ∙ first_of q z zs there k
        | inr later ↦
            let same : id z ≡ id y = ap id (first_of p z zs here h) ∙ e in
            let stands = find_or_fail-member id q zs (rest_of q z zs later k) in
            absurd (cc (fresh, same, stands))
      ]
      | inr later ↦ elim (Bool-cases (q z)) [
        | inl there ↦
            let same : id z ≡ id x = ap id (first_of q z zs there k) ∙ sym e in
            let stands = find_or_fail-member id p zs (rest_of p z zs later h) in
            absurd (cc (fresh, same, stands))
        | inr last ↦
            same_row id p q zs (tail_distinct (id z) (map id zs) d) (rest_of p z zs later h)
              (rest_of q z zs last k) e
      ]
    ]

assigned-is_setting :
    (tenant key : String) (w : Option String) (s : TenantSettingsEntity)
    → is_setting tenant key (assigned w s) ≡ is_setting tenant key s
assigned-is_setting tenant key none s = refl
assigned-is_setting tenant key (some v) s = refl

of_other :
    (owner tenant other : String) (b : Bool)
    → (str_eq owner tenant && b) ≡ true
    → str_eq other tenant ≡ false
    → not (str_eq owner other) ≡ true
of_other owner tenant other b h k =
    ground (arith, eq_iff owner tenant, eq_iff owner other, eq_iff other tenant)

find_or_fail-filter {ℓ} :
    {A : Type ℓ} (p k : A → Bool) (xs : List A) {a : A}
    → ((x : A) → p x ≡ true → k x ≡ true)
    → find_or_fail p xs ≡ ok a
    → find_or_fail p (filter k xs) ≡ ok a
find_or_fail-filter p k [] keep h = h
find_or_fail-filter p k (x ∷ xs) {a} keep h = elim (Bool-cases (p x)) [
  | inl here ↦ rw (keep x here) (rw here (ap ok (first_of p x xs here h)))
  | inr later ↦ elim (Bool-cases (k x)) [
    | inl kept ↦ rw kept (rw later (find_or_fail-filter p k xs keep (rest_of p x xs later h)))
    | inr gone ↦ rw gone (find_or_fail-filter p k xs keep (rest_of p x xs later h))
  ]
]

module _ (r : Repository TenantSettingsEntity) where
  create_each-found :
      (p : TenantSettingsEntity → Bool) (new_ids : String → String) (tenant_id : String)
      (ds : List SettingDefault) (t : r.Table) {e : TenantSettingsEntity}
      → find_or_fail p (r.rows t) ≡ ok e
      → find_or_fail p (r.rows (create_each r new_ids tenant_id ds t)) ≡ ok e
  unfolding create_each create_default
  create_each-found p new_ids tenant_id [] t h = h
  create_each-found p new_ids tenant_id (d ∷ ds) t h =
      elim (Bool-cases (count (is_setting tenant_id d.key) (r.rows t) == 0)) [
        | inl new_ ↦ rw new_ (
            create_each-found p new_ids tenant_id ds _
              (ap (find_or_fail p) (r.rows-insert _ t) ∙ find_or_fail-append p (r.rows t) _ h))
        | inr there ↦ rw there (create_each-found p new_ids tenant_id ds t h)
      ]

  key_of :
      (tenant key : String) (e : TenantSettingsEntity) (t : r.Table)
      → find_or_fail (is_setting tenant key) (r.rows t) ≡ ok e
      → e.key ≡ key
  key_of tenant key e t found = (eq_iff e.key key).0 (
      right_of (str_eq e.tenant_id tenant) (str_eq e.key key)
        (find_or_fail-holds (is_setting tenant key) (r.rows t) found))

  -- An update that succeeds is not one of a device group that is set.
  update_one-found :
      (tenant_id key tenant : String) (dto : UpdateSettingsDto) (t u : r.Table)
      {s e : TenantSettingsEntity}
      → distinct (map (λ s. s.id) (r.rows t)) ≡ true
      → truthy e.value ≡ true
      → update_one r tenant_id key dto t ≡ ok (s, u)
      → find_or_fail (is_setting tenant group_key) (r.rows t) ≡ ok e
      → find_or_fail (is_setting tenant group_key) (r.rows u) ≡ ok e
  update_one-found tenant_id key tenant dto t u {s} {e} d set h found =
      let (x, x_found, free, _, stored) = update_one-parts r tenant_id key dto t u h in
      let changed =
        find_or_fail-map_where (is_setting tenant group_key) (λ y. str_eq y.id x.id)
          (assigned dto.value) (r.rows t) (assigned-is_setting tenant group_key dto.value) found in
      elim (Bool-cases (str_eq e.id x.id)) [
        | inr other ↦
            ap (find_or_fail (is_setting tenant group_key)) stored
            ∙ changed
            ∙ ap (λ b. ok (if b then assigned dto.value e else e)) other
        | inl same ↦
            let e_x : e ≡ x =
              same_row (λ s. s.id) (is_setting tenant group_key) (is_setting tenant_id key)
                (r.rows t) d found x_found ((eq_iff e.id x.id).0 same) in
            let e_key : e.key ≡ group_key = key_of tenant group_key e t found in
            let x_key : x.key ≡ key = key_of tenant_id key x t x_found in
            let at_group : key ≡ group_key = sym x_key ∙ ap (λ s. s.key) (sym e_x) ∙ e_key in
            let refused : truthy e.value ≡ false =
              ap (λ s. truthy s.value) e_x
              ∙ subst (λ k. (immutable (default_of k) && truthy x.value) ≡ false) at_group free in
            absurd (cc (set, refused))
      ]

  delete_settings-found :
      (tenant_id tenant : String) (t : r.Table) {e : TenantSettingsEntity}
      → str_eq tenant_id tenant ≡ false
      → find_or_fail (is_setting tenant group_key) (r.rows t) ≡ ok e
      → find_or_fail (is_setting tenant group_key) (r.rows (delete_settings r tenant_id t)) ≡ ok e
  unfolding delete_settings
  delete_settings-found tenant_id tenant t other found =
      ap (find_or_fail (is_setting tenant group_key))
        (r.rows-delete (λ s. str_eq s.tenant_id tenant_id) t)
      ∙ find_or_fail-filter (is_setting tenant group_key) (λ s. not (str_eq s.tenant_id tenant_id))
          (r.rows t)
          (λ s here. of_other s.tenant_id tenant tenant_id (str_eq s.key group_key) here other)
          found

  Requests-found :
      (tenant : String) {t t' : r.Table} {e : TenantSettingsEntity} (steps : Requests r t t')
      → Stays r tenant steps
      → Exclusive r t
      → truthy e.value ≡ true
      → find_or_fail (is_setting tenant group_key) (r.rows t) ≡ ok e
      → find_or_fail (is_setting tenant group_key) (r.rows t') ≡ ok e
  unfolding create_default_settings
  Requests-found tenant Requests.finished stays x set found = found
  Requests-found tenant (Requests.removed tenant_id {t} {t'} rest) stays x set found =
      Requests-found tenant rest stays.1
        (Requests-Exclusive r (Requests.removed tenant_id Requests.finished) x) set
        (delete_settings-found tenant_id tenant t stays.0 found)
  Requests-found tenant (Requests.created new_ids tenant_id {t} {t'} fresh rest) stays x set found =
      Requests-found tenant rest stays
        (Requests-Exclusive r (Requests.created new_ids tenant_id fresh Requests.finished) x) set
        (create_each-found (is_setting tenant group_key) new_ids tenant_id settings_defaults t
          found)
  Requests-found tenant (Requests.updated tenant_id key dto {s} {t} {u} {t'} h rest) stays x set
        found =
      Requests-found tenant rest stays (update_one-Exclusive r tenant_id key dto t u h x) set
        (update_one-found tenant_id key tenant dto t u x.0 set h found)

  -- A device group that a tenant has is its group after whatever requests, in any order, that do not remove the tenant:
  -- the row is the same. The ids
  -- are distinct and no group is the setting of two tenants, the ids of new rows are not in use, and the requests do not
  -- overlap.
  pub Requests-get_one_by_key :
      (tenant : String) {t t' : r.Table} (e : TenantSettingsEntity) (steps : Requests r t t')
      → Stays r tenant steps
      → Exclusive r t
      → truthy e.value ≡ true
      → get_one_by_key r tenant group_key t ≡ ok e
      → get_one_by_key r tenant group_key t' ≡ ok e
  unfolding get_one_by_key
  Requests-get_one_by_key tenant {t} {t'} e steps stays x set got = ap or_not_found (
      Requests-found tenant {e = e} steps stays x set
        (or_not_found-eq-ok (find_or_fail (is_setting tenant group_key) (r.rows t)) got))
