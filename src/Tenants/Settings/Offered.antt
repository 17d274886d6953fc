-- ===== src/Tenants/Settings/Offered.antt =====
-- The device groups that are offered to tenants.
use elunic_myturck.Base.{
  ◌≡◌, refl, sym, ap, ◌∙◌, Bool, true, false, not, ◌&&◌, ◌||◌, some, List, [], ◌∷◌, map, filter,
  any, String, str_eq, eq_iff, arith, if◌then◌else◌, Bool-cases, inl, inr,
}
use mathlib.Core.Path.{subst}
use elunic_myturck.Base.Names.{member, str_eq_self}
use elunic_myturck.Base.Results.{ok, ok-injective}
use elunic_myturck.Base.Repository.{
  Repository, find_or_fail, find_or_fail-holds, find_or_fail-map_where,
}
use elunic_myturck.Tenants.Settings.{
  TenantSettingsEntity, GroupDto, group_key, truthy, is_setting, has_value, default_of, immutable,
  assigned, or_not_found, get_one_by_key, is_taken, update_one, get_available_groups,
}
use elunic_myturck.Tenants.Settings.Exclusive.{or_not_found-eq-ok, and_right, right_of}

any-filter {ℓ} :
    {A : Type ℓ} (p q : A → Bool) (xs : List A) → any p (filter q xs) ≡ any (λ x. q x && p x) xs
any-filter p q [] = refl
any-filter p q (x ∷ xs) = ground (arith, any-filter p q xs)

any_found {ℓ} :
    {A : Type ℓ} (p q : A → Bool) (xs : List A) {a : A}
    → find_or_fail p xs ≡ ok a
    → q a ≡ true
    → any q xs ≡ true
any_found p q [] h k = absurd (cc h)
any_found p q (x ∷ xs) {a} h k = elim (Bool-cases (p x)) [
  | inl here ↦
      let same : x ≡ a =
        ok-injective (sym (ap (λ b. if b then ok x else find_or_fail p xs) here) ∙ h) in
      rw same (rw k refl)
  | inr later ↦
      let rest : any q xs ≡ true =
        any_found p q xs (sym (ap (λ b. if b then ok x else find_or_fail p xs) later) ∙ h) k in
      ground (arith, rest)
]

-- A connected group's setting, and the settings that are connected to some group.
abbrev connected : TenantSettingsEntity → Bool
connected s = str_eq s.key group_key && truthy s.value

abbrev offered : List TenantSettingsEntity → GroupDto → Bool
offered rows g = not (any (λ s. str_eq s.value g.id) (filter connected rows))

offered-free :
    (i : String) (rows : List TenantSettingsEntity) (groups : List GroupDto)
    → member i (map (λ g. g.id) (filter (offered rows) groups)) ≡ true
    → any (λ s. str_eq s.value i) (filter connected rows) ≡ false
offered-free i rows [] h = absurd (cc h)
offered-free i rows (g ∷ groups) h = elim (Bool-cases (offered rows g)) [
  | inr hidden ↦ offered-free i rows groups (
      sym (
        ap
          (λ b. member i (
            map (λ g. g.id)
              (if b then g ∷ filter (offered rows) groups else filter (offered rows) groups)))
          hidden)
      ∙ h)
  | inl shown ↦
      let h' : (str_eq g.id i || member i (map (λ g. g.id) (filter (offered rows) groups))) ≡ true =
        sym (
          ap
            (λ b. member i (
              map (λ g. g.id)
                (if b then g ∷ filter (offered rows) groups else filter (offered rows) groups)))
            shown)
        ∙ h in
      elim (Bool-cases (str_eq g.id i)) [
        | inl same ↦
            subst (λ j. any (λ s. str_eq s.value j) (filter connected rows) ≡ false)
              ((eq_iff g.id i).0 same)
              (not_true (any (λ s. str_eq s.value g.id) (filter connected rows)) shown)
        | inr other ↦ offered-free i rows groups (ground arith)
      ]
]
  where
    not_true : (b : Bool) → not b ≡ true → b ≡ false
    not_true b h = ground arith

-- A connected group is not offered.
hidden :
    (i : String) (rows : List TenantSettingsEntity) (groups : List GroupDto)
    → any (λ s. str_eq s.value i) (filter connected rows) ≡ true
    → member i (map (λ g. g.id) (filter (offered rows) groups)) ≡ false
hidden i rows groups h =
    elim (Bool-cases (member i (map (λ g. g.id) (filter (offered rows) groups)))) [
      | inr no_ ↦ no_
      | inl yes_ ↦ absurd (cc (h, offered-free i rows groups yes_))
    ]

free_pairs :
    (i : String) (rows : List TenantSettingsEntity)
    → truthy i ≡ true
    → any (λ s. connected s && str_eq s.value i) rows ≡ false
    → any (has_value group_key i) rows ≡ false
free_pairs i [] k h = refl
free_pairs i (x ∷ rows) k h = ground (arith, free_pairs i rows k, eq_iff x.value i)

module _ (r : Repository TenantSettingsEntity) where
  -- The update of a setting without a value to a value that is not taken.
  update_one-eq :
      (tenant key w : String) (t : r.Table) {e : TenantSettingsEntity}
      → get_one_by_key r tenant key t ≡ ok e
      → truthy e.value ≡ false
      → is_taken r key (some w) t ≡ false
      → update_one r tenant key (record { value = some w }) t
        ≡ ok (assigned (some w) e, r.update (λ x. str_eq x.id e.id) (assigned (some w)) t)
  unfolding update_one
  update_one-eq tenant key w t {e} got empty_ free =
      rw got (rw empty_ (rw free (rw (and_right (immutable (default_of key)) false refl) refl)))

  -- A device group that is offered can be given to a tenant that has none yet: the update succeeds, the tenant then has
  -- that group, and it is offered no longer. The id of the group is not empty.
  pub get_available_groups-update_one :
      (tenant : String) (groups : List GroupDto) (group : String) (t : r.Table)
      {e : TenantSettingsEntity}
      → truthy group ≡ true
      → get_one_by_key r tenant group_key t ≡ ok e
      → truthy e.value ≡ false
      → member group (map (λ g. g.id) (get_available_groups r groups t)) ≡ true
      → (u : r.Table) × (update_one r tenant group_key (record { value = some group }) t
          ≡ ok (record e { value = group }, u))
        × (get_one_by_key r tenant group_key u ≡ ok (record e { value = group }))
        × (member group (map (λ g. g.id) (get_available_groups r groups u)) ≡ false)
  unfolding get_available_groups get_one_by_key is_taken
  get_available_groups-update_one tenant groups group t {e} k got empty_ shown =
      let hits : TenantSettingsEntity → Bool = λ x. str_eq x.id e.id in
      let u : r.Table = r.update hits (assigned (some group)) t in
      let found : find_or_fail (is_setting tenant group_key) (r.rows t) ≡ ok e =
        or_not_found-eq-ok _ got in
      let at_group : str_eq e.key group_key ≡ true =
        right_of (str_eq e.tenant_id tenant) (str_eq e.key group_key)
          (find_or_fail-holds (is_setting tenant group_key) (r.rows t) found) in
      let free : any (has_value group_key group) (r.rows t) ≡ false =
        free_pairs group (r.rows t) k (
          sym (any-filter (λ s. str_eq s.value group) connected (r.rows t))
          ∙ offered-free group (r.rows t) groups shown) in
      let now : find_or_fail (is_setting tenant group_key) (r.rows u)
          ≡ ok (record e { value = group }) =
        ap (find_or_fail (is_setting tenant group_key))
          (r.rows-update hits (assigned (some group)) t)
        ∙ find_or_fail-map_where (is_setting tenant group_key) hits (assigned (some group))
            (r.rows t) (λ x. refl) found
        ∙ ap (λ b. ok (if b then record e { value = group } else e)) (str_eq_self e.id) in
      let taken : any (λ s. str_eq s.value group) (filter connected (r.rows u)) ≡ true =
        any-filter (λ s. str_eq s.value group) connected (r.rows u)
        ∙ any_found (is_setting tenant group_key) (λ s. connected s && str_eq s.value group)
            (r.rows u) now (rw at_group (rw k (str_eq_self group))) in
      (
        u,
        update_one-eq tenant group_key group t got empty_ (rw k free),
        ap or_not_found now,
        hidden group (r.rows u) groups taken,
      )
