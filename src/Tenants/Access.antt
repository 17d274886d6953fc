-- ===== src/Tenants/Access.antt =====
-- Who reaches a tenant, and that whoever creates one does.
use elunic_myturck.Base.{
  ◌≡◌, refl, sym, ap, ◌∙◌, Bool, true, false, ◌&&◌, Option, none, some, List, [], ◌∷◌, ◌++◌, map,
  filter, find, any, String, str_eq, arith, if◌then◌else◌, Bool-cases, inl, inr,
}
use elunic_myturck.Base.Names.{member, str_eq_self}
use elunic_myturck.Base.Results.{Exception, ok, err, >>=-eq-ok, ok-injective, not_found, forbidden}
use elunic_myturck.Base.Repository.{Repository, find_or_fail}
use elunic_myturck.Tenants.Settings.{TenantSettingsEntity, or_not_found}
use elunic_myturck.Tenants.Keycloak
use elunic_myturck.Tenants.Keycloak.{
  Client, Group, TenantUnite, group_prefix, to_tenant_id, to_tenant_unite, united, find_tenants,
  find_tenants_for_user, by_keycloak_id, by_tenant_id, read_again, add_user_to_tenant, or_throw,
  wrap_call,
}
use elunic_myturck.Tenants.Service.{
  TenantEntity, UserInfo, CreateTenantDto, UpdateTenantDto, TenantStore, new_tenant,
  get_tenant_ids_for_user, is_current_user_of_tenant, ensure_current_user_of_tenant, get_by_id,
  create_tenant, update_tenant, remove_tenant,
}

-- Whether a group is one of the tenant and one of those of the user.
abbrev pub joined : List Group → String → Group → Bool
joined own tenant_id g = str_eq (to_tenant_id g.name) tenant_id && member g.id (map (λ o. o.id) own)

member-joined :
    (own : List Group) (tenant_id : String) (groups : List Group)
    → member tenant_id (
        map
          (λ t. t.tenant_id)
          (filter (λ t. member t.keycloak_id (map (λ g. g.id) own)) (map to_tenant_unite groups)))
      ≡ any (joined own tenant_id) groups
member-joined own tenant_id [] = refl
member-joined own tenant_id (g ∷ groups) = ground (arith, member-joined own tenant_id groups)

some_same {ℓ} : {A : Type ℓ} {x y : A} → some x ≡ some y → x ≡ y
some_same h = cc

wrap_call-eq-ok {ℓ} : {A : Type ℓ} (o : Option A) {a : A} → wrap_call o ≡ ok a → o ≡ some a
wrap_call-eq-ok none h = absurd (cc h)
wrap_call-eq-ok (some a) h = ap some (ok-injective h)

or_throw-eq-ok {ℓ} :
    {A : Type ℓ} (e : Exception) (o : Option A) {a : A} → or_throw e o ≡ ok a → o ≡ some a
or_throw-eq-ok e none h = absurd (cc h)
or_throw-eq-ok e (some a) h = ap some (ok-injective h)

united-eq-some :
    (o : Option Group) {t : TenantUnite}
    → united o ≡ some t
    → (g : Group) × (o ≡ some g) × (g.id ≡ t.keycloak_id)
united-eq-some none h = absurd (cc h)
united-eq-some (some g) h = (g, refl, ap (λ t. t.keycloak_id) (some_same h))

find_absent {ℓ} :
    {A : Type ℓ} (p : A → Bool) (xs : List A) (x : A)
    → any p xs ≡ false
    → p x ≡ true
    → find_or_fail p (xs ++ x ∷ []) ≡ ok x
find_absent p [] x h k = rw k refl
find_absent p (y ∷ ys) x h k = ground (arith, find_absent p ys x)

any-found {ℓ} :
    {A : Type ℓ} (f : Group → A) (p : A → Bool) (q : Group → Bool) (groups : List Group) {a : A}
    → find p (map f groups) ≡ some a
    → ((g : Group) → f g ≡ a → p (f g) ≡ true → q g ≡ true)
    → any q groups ≡ true
any-found f p q [] h k = absurd (cc h)
any-found f p q (g ∷ groups) {a} h k = elim (Bool-cases (p (f g))) [
  | inl here ↦
      rw
        (k g (some_same (sym (ap (λ b. if b then some (f g) else find p (map f groups)) here) ∙ h))
          here)
        refl
  | inr later ↦
      let rest : any q groups ≡ true =
        any-found f p q groups
          (sym (ap (λ b. if b then some (f g) else find p (map f groups)) later) ∙ h) k in
      ground (arith, rest)
]

module _ (r : Repository TenantEntity) (q : Repository TenantSettingsEntity) (k : Client) where
  -- What the test of a user's tenants answers where Keycloak answers.
  is_current_user_of_tenant-joined :
      (user : UserInfo) (tenant_id : String) (st : k.State) {groups own : List Group}
      → user.is_multi_tenant_admin ≡ false
      → k.find_groups group_prefix st ≡ some groups
      → k.list_groups user.id st ≡ some own
      → is_current_user_of_tenant r q k user tenant_id st ≡ ok (any (joined own tenant_id) groups)
  unfolding is_current_user_of_tenant get_tenant_ids_for_user find_tenants_for_user find_tenants
  is_current_user_of_tenant-joined user tenant_id st {groups} {own} plain found listed =
      rw plain (rw listed (rw found (ap ok (member-joined own tenant_id groups))))

  -- An admin of all tenants passes as well.
  is_current_user_of_tenant-mine :
      (user : UserInfo) (tenant_id : String) (st : k.State) {groups own : List Group}
      → k.find_groups group_prefix st ≡ some groups
      → k.list_groups user.id st ≡ some own
      → any (joined own tenant_id) groups ≡ true
      → is_current_user_of_tenant r q k user tenant_id st ≡ ok true
  unfolding is_current_user_of_tenant
  is_current_user_of_tenant-mine user tenant_id st found listed mine =
      elim (Bool-cases user.is_multi_tenant_admin) [
        | inl admin ↦ rw admin refl
        | inr plain ↦
            is_current_user_of_tenant-joined user tenant_id st plain found listed ∙ ap ok mine
      ]

  -- A user who is not an admin of all tenants and is in no group of a tenant can neither read nor update nor remove it:
  -- each of the requests is refused with a ForbiddenException, whatever it asks for. Keycloak answers which groups there
  -- are.
  pub outsider_forbidden :
      (all_tenants : Option String) (user : UserInfo) (id : String) (dto : UpdateTenantDto)
      (s : TenantStore r q k) {groups own : List Group}
      → user.is_multi_tenant_admin ≡ false
      → k.find_groups group_prefix s.keycloak ≡ some groups
      → k.list_groups user.id s.keycloak ≡ some own
      → any (joined own id) groups ≡ false
      → (get_by_id r q k user id s ≡ err forbidden)
        × (update_tenant r q k user id dto s ≡ err forbidden)
        × (remove_tenant r q k all_tenants user id s ≡ err forbidden)
  unfolding get_by_id update_tenant remove_tenant ensure_current_user_of_tenant
  outsider_forbidden all_tenants user id dto s {groups} {own} plain found listed outside =
      let refused : is_current_user_of_tenant r q k user id s.keycloak ≡ ok false =
        is_current_user_of_tenant-joined user id s.keycloak plain found listed ∙ ap ok outside in
      (rw refused refl, rw refused refl, rw refused refl)

  module _
      (reads : (id : String) (st : k.State) (g : Group)
        → k.find_group id st ≡ some (some g)
        → g.id ≡ id)
      (adds : (user group : String) (st st' : k.State)
        → k.add_to_group user group st ≡ some st'
        → (own : List Group) × (k.list_groups user st' ≡ some own)
          × (member group (map (λ o. o.id) own) ≡ true))
      (keeps : (user group : String) (st st' : k.State)
        → k.add_to_group user group st ≡ some st'
        → k.find_groups group_prefix st' ≡ k.find_groups group_prefix st) where
    -- The tenant that is read again is the group that was found.
    read_again-id :
        (o : Option TenantUnite) (st : k.State) {t : TenantUnite}
        → read_again k o st ≡ ok (some t)
        → (f : TenantUnite) × (o ≡ some f) × (t.keycloak_id ≡ f.keycloak_id)
    unfolding read_again by_keycloak_id
    read_again-id none st h = absurd (cc h)
    read_again-id (some f) st h =
        let (found, got, made) = >>=-eq-ok (wrap_call (k.find_group f.keycloak_id st)) _ h in
        let (g, is_g, same) = united-eq-some found (ok-injective made) in
        (f, refl, sym same ∙ reads f.keycloak_id st g (wrap_call-eq-ok _ got ∙ ap some is_g))

    add_user_to_tenant-joined :
        (id user : String) (st : k.State) {st' : k.State}
        → add_user_to_tenant k id user st ≡ ok st'
        → (groups : List Group) × (own : List Group) × (k.find_groups group_prefix st'
            ≡ some groups)
          × (k.list_groups user st' ≡ some own)
          × (any (joined own id) groups ≡ true)
    unfolding add_user_to_tenant by_tenant_id find_tenants
    add_user_to_tenant-joined id user st h =
        let (found, h1, h2) = >>=-eq-ok (by_tenant_id k id st) _ h in
        let (t, h3, h4) = >>=-eq-ok (or_throw not_found found) _ h2 in
        let (tenants, h5, h6) = >>=-eq-ok (find_tenants k st) _ h1 in
        let (groups, h7, h8) = >>=-eq-ok (wrap_call (k.find_groups group_prefix st)) _ h5 in
        let (f, first, same) =
          read_again-id (find (λ t. str_eq t.tenant_id id) tenants) st
            (h6 ∙ ap ok (or_throw-eq-ok not_found found h3)) in
        let added = wrap_call-eq-ok (k.add_to_group user t.keycloak_id st) h4 in
        let (own, listed, mine) = adds user t.keycloak_id st _ added in
        (
          groups,
          own,
          keeps user t.keycloak_id st _ added ∙ wrap_call-eq-ok _ h7,
          listed,
          any-found to_tenant_unite (λ t. str_eq t.tenant_id id) (joined own id) groups
              (ap (find (λ t. str_eq t.tenant_id id)) (ok-injective h8) ∙ first)
              (λ g at here.
                let group_id : g.id ≡ t.keycloak_id = ap (λ t. t.keycloak_id) at ∙ sym same in
                rw here (rw group_id mine)),
        )

    -- Whoever has created a tenant is a user of it: the tenant is read back as it was created, also by a user who is not
    -- an admin of all tenants. The id of the tenant is new; a group of Keycloak is read under its own id, and after
    -- a user has been added to a group, the groups are the same and the user has that group.
    pub create_tenant-get_by_id :
        (user : UserInfo) (dto : CreateTenantDto) (id : String) (setting_ids : String → String)
        (s : TenantStore r q k) {t : TenantEntity} {s' : TenantStore r q k}
        → any (λ t. str_eq t.id id) (r.rows s.tenants) ≡ false
        → create_tenant r q k user dto id setting_ids s ≡ ok (t, s')
        → get_by_id r q k user id s' ≡ ok t
    unfolding create_tenant get_by_id ensure_current_user_of_tenant
    create_tenant-get_by_id user dto id setting_ids s {t} {s'} new_ h =
        let (made, h1, h2) = >>=-eq-ok (Keycloak.create k id s.keycloak) _ h in
        let (st, h3, h4) = >>=-eq-ok (add_user_to_tenant k id user.id made.1) _ h2 in
        let (groups, own, found, listed, mine) = add_user_to_tenant-joined id user.id made.1 h3 in
        let out = ok-injective h4 in
        let state : st ≡ s'.keycloak = ap (λ o. o.1.keycloak) out in
        let member_ : is_current_user_of_tenant r q k user id s'.keycloak ≡ ok true =
          ap (is_current_user_of_tenant r q k user id) (sym state)
          ∙ is_current_user_of_tenant-mine user id st found listed mine in
        let stored : r.rows s'.tenants ≡ r.rows s.tenants ++ t ∷ [] =
          ap (λ o. r.rows o.1.tenants) (sym out)
          ∙ r.rows-insert (new_tenant user dto id) s.tenants
          ∙ ap (λ o. r.rows s.tenants ++ o.0 ∷ []) out in
        rw member_ (
          ap or_not_found (
            ap (find_or_fail (λ t. str_eq t.id id)) stored
            ∙ find_absent (λ t. str_eq t.id id) (r.rows s.tenants) t new_
                (ap (λ o. str_eq o.0.id id) (sym out) ∙ str_eq_self id)))
