-- ===== src/Tenants/Service.antt =====
-- identity-backend/src/tenant/tenant.service.ts and tenant.entity.ts: the tenants in the database, and who may read and
-- change them. A request runs alone; where it throws, its transaction is rolled back, and the groups of Keycloak that it
-- has made by then are not (their state after an exception is left out). The dates of rows are left out, and a
-- tenant is read without its settings.
use elunic_myturck.Base.{
  Bool, true, ◌||◌, Option, none, some, List, map, filter, String, str_eq, if◌then◌else◌,
}
use elunic_myturck.Base.Names.{member}
use elunic_myturck.Base.Results.{Result, ok, guard, ◌>>=◌, ◌>>◌, not_found, bad_request, forbidden}
use elunic_myturck.Base.Repository.{Repository, find_or_fail}
use elunic_myturck.Tenants.Settings.{
  TenantSettingsEntity, create_default_settings, delete_settings, or_not_found,
}
use elunic_myturck.Tenants.Keycloak
use elunic_myturck.Tenants.Keycloak.{
  Client, find_tenants, find_tenants_for_user, by_tenant_id, remove_by_id, add_user_to_tenant,
  or_throw,
}

pub record TenantEntity : Type 0 where
  pub id : String
  pub name : String
  pub description : Option String
  pub enabled : Bool
  pub owner_id : Option String
  pub created_by : String

-- What is read of `AuthInfo`.
pub record UserInfo : Type 0 where
  pub id : String
  pub is_multi_tenant_admin : Bool

-- `CreateTenantClassDto`; `null` is `none`.
pub record CreateTenantDto : Type 0 where
  pub name : String
  pub description : Option String
  pub enabled : Option Bool
  pub owner_id : Option String

-- `UpdateTenantClassDto`: the outer `none` is a field that is not given, the inner one is `null`.
pub record UpdateTenantDto : Type 0 where
  pub name : Option String
  pub description : Option (Option String)
  pub enabled : Option Bool
  pub owner_id : Option String

-- `a || b` of texts
abbrev pub text_or : Option String → Option String → Option String
text_or none b = b
text_or (some a) b = if str_eq a "" then b else some a

-- `dto.enabled || true`
abbrev pub enabled_or_true : Option Bool → Bool
enabled_or_true none = true
enabled_or_true (some enabled) = enabled || true

-- A field that `pick` takes over if it is given.
abbrev pub given {ℓ} : {A : Type ℓ} → Option A → A → A
given none old = old
given (some new) old = new

abbrev pub given_owner : Option String → Option String → Option String
given_owner none old = old
given_owner (some new) old = some new

-- `Object.assign(tenant, pick(dto, ['name', 'description', 'enabled', 'ownerId']))`
abbrev pub assign_tenant : UpdateTenantDto → TenantEntity → TenantEntity
assign_tenant dto t = record t {
  name = given dto.name t.name;
  description = given dto.description t.description;
  enabled = given dto.enabled t.enabled;
  owner_id = given_owner dto.owner_id t.owner_id;
}

abbrev pub new_tenant : UserInfo → CreateTenantDto → String → TenantEntity
new_tenant user dto id = record {
  id = id;
  name = dto.name;
  description = text_or dto.description none;
  enabled = enabled_or_true dto.enabled;
  owner_id = text_or dto.owner_id (some user.id);
  created_by = user.id;
}

module _ (r : Repository TenantEntity) (q : Repository TenantSettingsEntity) (k : Client) where
  -- The tables and the state of Keycloak.
  pub record TenantStore : Type 0 where
    pub tenants : r.Table
    pub settings : q.Table
    pub keycloak : k.State

  unfoldable pub get_tenant_ids_for_user : UserInfo → k.State → Result (List String)
  get_tenant_ids_for_user user st =
      (if user.is_multi_tenant_admin then find_tenants k st else find_tenants_for_user k user.id st)
      >>= λ found. ok (map (λ t. t.tenant_id) found)

  unfoldable pub is_current_user_of_tenant : UserInfo → String → k.State → Result Bool
  is_current_user_of_tenant user tenant_id st =
      if user.is_multi_tenant_admin
      then ok true
      else (get_tenant_ids_for_user user st >>= λ ids. ok (member tenant_id ids))

  -- The exceptions of the test pass, since the `try` does not wait for it.
  unfoldable pub is_user_in_tenant : UserInfo → String → k.State → Result Bool
  is_user_in_tenant user tenant_id st = is_current_user_of_tenant user tenant_id st

  unfoldable pub ensure_current_user_of_tenant : UserInfo → String → k.State → Result (Unit {0})
  ensure_current_user_of_tenant user tenant_id st =
      is_current_user_of_tenant user tenant_id st >>= λ is_member. guard is_member forbidden

  unfoldable pub find_all_tenants : UserInfo → TenantStore → Result (List TenantEntity)
  find_all_tenants user s = get_tenant_ids_for_user user s.keycloak >>= λ ids.
      ok (filter (λ t. member t.id ids) (r.rows s.tenants))

  unfoldable pub get_by_id : UserInfo → String → TenantStore → Result TenantEntity
  get_by_id user id s =
      ensure_current_user_of_tenant user id s.keycloak
      >> or_not_found (find_or_fail (λ t. str_eq t.id id) (r.rows s.tenants))

  -- The ids are those that the database gives to the tenant and to its settings.
  unfoldable pub create_tenant :
      UserInfo
      → CreateTenantDto
      → String
      → (String → String)
      → TenantStore
      → Result (TenantEntity × TenantStore)
  create_tenant user dto id setting_ids s = Keycloak.create k id s.keycloak >>= λ made.
      add_user_to_tenant k id user.id made.1 >>= λ joined. ok (
        new_tenant user dto id,
        record {
          tenants = r.insert (new_tenant user dto id) s.tenants;
          settings = create_default_settings q setting_ids id s.settings;
          keycloak = joined;
        },
      )

  unfoldable pub update_tenant :
      UserInfo → String → UpdateTenantDto → TenantStore → Result (TenantEntity × TenantStore)
  update_tenant user id dto s =
      ensure_current_user_of_tenant user id s.keycloak
      >> (get_by_id user id s >>= λ t. by_tenant_id k t.id s.keycloak >>= λ found.
          or_throw not_found found >>= λ group. ok (
            assign_tenant dto t,
            record s { tenants = r.update (λ x. str_eq x.id t.id) (assign_tenant dto) s.tenants },
          ))

  unfoldable pub remove_tenant :
      Option String → UserInfo → String → TenantStore → Result TenantStore
  remove_tenant all_tenants user id s =
      ensure_current_user_of_tenant user id s.keycloak
      >> (by_tenant_id k id s.keycloak >>= λ found. or_throw bad_request found >>= λ group.
          remove_by_id k all_tenants group.keycloak_id s.keycloak >>= λ rest. ok (record s {
            tenants = r.delete (λ x. str_eq x.id id) s.tenants;
            settings = delete_settings q id s.settings;
            keycloak = rest;
          }))
