-- ===== src/Tenants/Keycloak.antt =====
-- identity-backend/src/keycloak/keycloak-tenants.service.ts: a tenant is a group of Keycloak whose name is `tenant-` and
-- the id of the tenant. Keycloak is an interface: its calls return nothing where they fail, and wrapCall turns that into
-- an exception. Texts are sequences of characters here; `substring` counts UTF-16 units, which is the same where the
-- first seven characters have one unit each.
use elunic_myturck.Base.{
  ℕ, zero, suc, Bool, not, Option, none, some, List, map, filter, find, String, str_eq,
}
use elunic_myturck.Base.Names.{member}
use elunic_myturck.Base.Results.{
  Exception, Result, ok, err, guard, ◌>>=◌, ◌>>◌, not_found, conflict, internal_error,
}

-- `GroupRepresentation`
pub record Group : Type 0 where
  pub id : String
  pub name : String
  pub path : String

-- What the creation of a group answers: its id, the status 409, or another error.
pub data Creation (State : Type 0) : Type 0 where
  created : String → State → Creation State
  exists_already failed : Creation State

-- The calls of the admin client of Keycloak.
pub record Client : Type 1 where
  pub State : Type 0
  -- `groups.find({ search })`
  pub find_groups : String → State → Option (List Group)
  -- `groups.findOne`, which finds a group or none
  pub find_group : String → State → Option (Option Group)
  pub create_group : String → State → Creation State
  pub delete_group : String → State → Option State
  -- `users.listGroups` and `users.addToGroup`
  pub list_groups : String → State → Option (List Group)
  pub add_to_group : String → String → State → Option State

pub record TenantUnite : Type 0 where
  pub keycloak_id : String
  pub tenant_id : String

-- `KeycloakTenantGroupPrefix`
abbrev pub group_prefix : String
group_prefix = "tenant-"

-- `KeycloakTenantsAllRootGroupName`
abbrev pub root_group_name : String
root_group_name = "tenants-all"

abbrev pub concat : String → String → String
concat String.[] t = t
concat (String.◌∷◌ c s) t = String.◌∷◌ c (concat s t)

-- `s.substring(n)`
abbrev pub substring_from : ℕ → String → String
substring_from zero s = s
substring_from (suc n) String.[] = String.[]
substring_from (suc n) (String.◌∷◌ c s) = substring_from n s

abbrev pub to_keycloak_group_name : String → String
to_keycloak_group_name tenant_id = concat group_prefix tenant_id

abbrev pub to_tenant_id : String → String
to_tenant_id name = substring_from 7 name

abbrev pub to_tenant_unite : Group → TenantUnite
to_tenant_unite g = record { keycloak_id = g.id; tenant_id = to_tenant_id g.name }

abbrev pub united : Option Group → Option TenantUnite
united none = none
united (some g) = some (to_tenant_unite g)

-- `if (!found) throw e`
abbrev pub or_throw {ℓ} : {A : Type ℓ} → Exception → Option A → Result A
or_throw e none = err e
or_throw e (some a) = ok a

-- `wrapCall` with a handler that throws an InternalServerErrorException, or none
abbrev pub wrap_call {ℓ} : {A : Type ℓ} → Option A → Result A
wrap_call none = err internal_error
wrap_call (some a) = ok a

module _ (k : Client) where
  unfoldable pub find_tenants : k.State → Result (List TenantUnite)
  find_tenants st =
      wrap_call (k.find_groups group_prefix st) >>= λ groups. ok (map to_tenant_unite groups)

  unfoldable pub find_tenants_for_user : String → k.State → Result (List TenantUnite)
  find_tenants_for_user user st = wrap_call (k.list_groups user st) >>= λ groups.
      find_tenants st >>= λ tenants.
      ok (filter (λ t. member t.keycloak_id (map (λ g. g.id) groups)) tenants)

  unfoldable pub by_keycloak_id : String → k.State → Result (Option TenantUnite)
  by_keycloak_id id st = wrap_call (k.find_group id st) >>= λ found. ok (united found)

  unfoldable pub read_again : Option TenantUnite → k.State → Result (Option TenantUnite)
  read_again none st = ok none
  read_again (some t) st = by_keycloak_id t.keycloak_id st

  unfoldable pub by_tenant_id : String → k.State → Result (Option TenantUnite)
  by_tenant_id tenant_id st = find_tenants st >>= λ tenants.
      read_again (find (λ t. str_eq t.tenant_id tenant_id) tenants) st

  -- The first argument is the id of the group of all tenants, where init has found it.
  unfoldable pub remove_by_id : Option String → String → k.State → Result k.State
  remove_by_id none id st = err internal_error
  remove_by_id (some all_tenants) id st =
      guard (not (str_eq all_tenants id)) internal_error >> wrap_call (k.delete_group id st)

  abbrev pub answer : Creation k.State → Result (String × k.State)
  answer (created id st) = ok (id, st)
  answer exists_already = err conflict
  answer failed = err internal_error

  unfoldable pub create : String → k.State → Result (TenantUnite × k.State)
  create id st = answer (k.create_group (to_keycloak_group_name id) st) >>= λ g.
      by_keycloak_id g.0 g.1 >>= λ found. or_throw internal_error found >>= λ t. ok (t, g.1)

  unfoldable pub add_user_to_tenant : String → String → k.State → Result k.State
  add_user_to_tenant tenant_id user st = by_tenant_id tenant_id st >>= λ found.
      or_throw not_found found >>= λ t. wrap_call (k.add_to_group user t.keycloak_id st)

  abbrev pub at_root : String → Group → Bool
  at_root name g = str_eq g.path (concat "/" name)

  -- The group's id, if it has one.
  abbrev pub checked_id : Option Group → Result String
  checked_id none = err internal_error
  checked_id (some g) = guard (not (str_eq g.id "")) internal_error >> ok g.id

  abbrev pub answer_or_internal : Creation k.State → Result k.State
  answer_or_internal (created id st) = ok st
  answer_or_internal exists_already = err internal_error
  answer_or_internal failed = err internal_error

  abbrev pub create_and_find : String → Option Group → k.State → Result (Option Group × k.State)
  create_and_find name (some g) st = ok (some g, st)
  create_and_find name none st = answer_or_internal (k.create_group name st) >>= λ made.
      wrap_call (k.find_groups name made) >>= λ groups. ok (find (at_root name) groups, made)

  -- What init asks for with the name of the group of all tenants.
  unfoldable pub get_id_of_tenant_by_name_or_create : String → k.State → Result (String × k.State)
  get_id_of_tenant_by_name_or_create name st = wrap_call (k.find_groups name st) >>= λ groups.
      create_and_find name (find (at_root name) groups) st >>= λ found.
      checked_id found.0 >>= λ id. ok (id, found.1)
