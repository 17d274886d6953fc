-- ===== src/Tenants/Tests.antt =====
-- A Keycloak that keeps its groups in a list and the groups of each user in another one.
use elunic_myturck.Base.{
  ◌≡◌, refl, sym, ap, ◌∙◌, Bool, true, false, not, ◌&&◌, Option, none, some, List, [], ◌∷◌, ◌++◌,
  map, filter, find, any, String, str_eq, eq_iff, if◌then◌else◌, Bool-cases, inl, inr, ◌==◌,
}
use Prim.Native.Char.{code}
use elunic_myturck.Base.Names.{member, str_eq_self}
use elunic_myturck.Base.Counting.{count}
use elunic_myturck.Base.Repository.{Repository, list_repository}
use elunic_myturck.Base.Results.{ok, err, forbidden, internal_error}
use elunic_myturck.Tenants.Settings.{
  TenantSettingsEntity, group_key, create_default_settings, delete_settings, create_each,
  create_default,
}
use elunic_myturck.Tenants.Keycloak
use elunic_myturck.Tenants.Keycloak.{
  Client, Group, Creation, group_prefix, concat, root_group_name, find_tenants,
  find_tenants_for_user, by_keycloak_id, by_tenant_id, read_again, remove_by_id, add_user_to_tenant,
  get_id_of_tenant_by_name_or_create,
}
use elunic_myturck.Tenants.Service.{
  TenantEntity, UserInfo, CreateTenantDto, UpdateTenantDto, TenantStore, get_tenant_ids_for_user,
  is_current_user_of_tenant, is_user_in_tenant, ensure_current_user_of_tenant, find_all_tenants,
  get_by_id, create_tenant, update_tenant, remove_tenant,
}
use elunic_myturck.Tenants.Access.{outsider_forbidden, create_tenant-get_by_id}

abbrev Directory : Type 0
Directory = List Group × List (String × Group)

abbrev starts_with : String → String → Bool
starts_with String.[] t = true
starts_with (String.◌∷◌ c s) String.[] = false
starts_with (String.◌∷◌ c s) (String.◌∷◌ d t) = code c == code d && starts_with s t

abbrev joining : Option Group → String → Directory → Option Directory
joining none user st = none
joining (some g) user st = some (st.0, (user, g) ∷ st.1)

abbrev of_user : String → List (String × Group) → List Group
of_user user ms = map (λ m. m.1) (filter (λ m. str_eq m.0 user) ms)

abbrev group_of : String → Group
group_of name = record { id = concat "id of " name; name = name; path = concat "/" name }

abbrev keycloak : Client
keycloak = record {
  State = Directory;
  find_groups = λ search st. some (filter (λ g. starts_with search g.name) st.0);
  find_group = λ id st. some (find (λ g. str_eq g.id id) st.0);
  create_group = λ name st.
      if any (λ g. str_eq g.name name) st.0
      then Creation.exists_already
      else Creation.created (concat "id of " name) (st.0 ++ group_of name ∷ [], st.1);
  delete_group = λ id st.
      some (filter (λ g. not (str_eq g.id id)) st.0, filter (λ m. not (str_eq m.1.id id)) st.1);
  list_groups = λ user st. some (of_user user st.1);
  add_to_group = λ user id st. joining (find (λ g. str_eq g.id id) st.0) user st;
}

some_same {ℓ} : {A : Type ℓ} {x y : A} → some x ≡ some y → x ≡ y
some_same h = cc

find-id :
    (id : String) (groups : List Group) (g : Group)
    → find (λ g. str_eq g.id id) groups ≡ some g
    → g.id ≡ id
find-id id [] g h = absurd (cc h)
find-id id (x ∷ xs) g h = elim (Bool-cases (str_eq x.id id)) [
  | inl here ↦
      ap (λ g. g.id)
        (sym (
          some_same (sym (ap (λ b. if b then some x else find (λ g. str_eq g.id id) xs) here) ∙ h)))
      ∙ (eq_iff x.id id).0 here
  | inr later ↦
      find-id id xs g
        (sym (ap (λ b. if b then some x else find (λ g. str_eq g.id id) xs) later) ∙ h)
]

joining-eq-some :
    (o : Option Group) (user : String) (st st' : Directory)
    → joining o user st ≡ some st'
    → (g : Group) × (o ≡ some g) × (st' ≡ (st.0, (user, g) ∷ st.1))
joining-eq-some none user st st' h = absurd (cc h)
joining-eq-some (some g) user st st' h = (g, refl, sym (some_same h))

reads :
    (id : String) (st : Directory) (g : Group)
    → keycloak.find_group id st ≡ some (some g)
    → g.id ≡ id
reads id st g h = find-id id st.0 g (some_same h)

adds :
    (user group : String) (st st' : Directory)
    → keycloak.add_to_group user group st ≡ some st'
    → (own : List Group) × (keycloak.list_groups user st' ≡ some own)
      × (member group (map (λ o. o.id) own) ≡ true)
adds user group st st' h =
    let (g, found, new_) = joining-eq-some (find (λ g. str_eq g.id group) st.0) user st st' h in
    let hit : str_eq g.id group ≡ true = (eq_iff g.id group).1 (find-id group st.0 g found) in
    (
      of_user user st'.1,
      refl,
      ap (λ s. member group (map (λ o. o.id) (of_user user s.1))) new_
          ∙ rw (str_eq_self user) (rw hit refl),
    )

keeps :
    (user group : String) (st st' : Directory)
    → keycloak.add_to_group user group st ≡ some st'
    → keycloak.find_groups group_prefix st' ≡ keycloak.find_groups group_prefix st
keeps user group st st' h =
    let (g, found, new_) = joining-eq-some (find (λ g. str_eq g.id group) st.0) user st st' h in
    ap (keycloak.find_groups group_prefix) new_

abbrev r : Repository TenantEntity
r = list_repository TenantEntity

abbrev q : Repository TenantSettingsEntity
q = list_repository TenantSettingsEntity

abbrev bob : UserInfo
bob = record { id = "bob"; is_multi_tenant_admin = false }

abbrev eve : UserInfo
eve = record { id = "eve"; is_multi_tenant_admin = false }

abbrev admin : UserInfo
admin = record { id = "ann"; is_multi_tenant_admin = true }

abbrev empty_store : TenantStore r q keycloak
empty_store = record { tenants = []; settings = []; keycloak = (group_of root_group_name ∷ [], []) }

abbrev plant_dto : CreateTenantDto
plant_dto = record { name = "Plant"; description = none; enabled = some false; owner_id = none }

-- The tenant is enabled, although the request says otherwise.
abbrev plant : TenantEntity
plant = record {
  id = "p1";
  name = "Plant";
  description = none;
  enabled = true;
  owner_id = some "bob";
  created_by = "bob";
}

abbrev rename : UpdateTenantDto
rename = record { name = some "Works"; description = none; enabled = none; owner_id = none }

abbrev setting_ids : String → String
setting_ids key = if str_eq key group_key then "s2" else "s1"

abbrev with_plant : TenantStore r q keycloak
with_plant = record {
  tenants = plant ∷ [];
  settings =
      record {
        id = "s1";
        tenant_id = "p1";
        key = "maintenance-interval-start";
        value = "onExecution";
      }
      ∷ record { id = "s2"; tenant_id = "p1"; key = group_key; value = "" }
      ∷ [];
  keycloak =
      (group_of root_group_name ∷ group_of "tenant-p1" ∷ [], ("bob", group_of "tenant-p1") ∷ []);
}

create_tenant_test :
    create_tenant r q keycloak bob plant_dto "p1" setting_ids empty_store ≡ ok (plant, with_plant)
unfolding create_tenant Keycloak.create add_user_to_tenant by_tenant_id find_tenants read_again
    by_keycloak_id create_default_settings create_each create_default count
create_tenant_test = refl

create_tenant-get_by_id_example : get_by_id r q keycloak bob "p1" with_plant ≡ ok plant
create_tenant-get_by_id_example =
    create_tenant-get_by_id r q keycloak reads adds keeps bob plant_dto "p1" setting_ids empty_store
      refl create_tenant_test

outsider_forbidden_example :
    (get_by_id r q keycloak eve "p1" with_plant ≡ err forbidden)
    × (update_tenant r q keycloak eve "p1" rename with_plant ≡ err forbidden)
    × (remove_tenant r q keycloak none eve "p1" with_plant ≡ err forbidden)
outsider_forbidden_example =
    outsider_forbidden r q keycloak none eve "p1" rename with_plant refl refl refl refl

rename_test :
    update_tenant r q keycloak bob "p1" rename with_plant
    ≡ ok (
      record plant { name = "Works" },
      record with_plant { tenants = record plant { name = "Works" } ∷ [] },
    )
unfolding update_tenant ensure_current_user_of_tenant is_current_user_of_tenant
    get_tenant_ids_for_user find_tenants_for_user find_tenants get_by_id by_tenant_id read_again
    by_keycloak_id
rename_test = refl

remove_test :
    remove_tenant r q keycloak (some "id of tenants-all") admin "p1" with_plant
    ≡ ok (record with_plant {
      tenants = [];
      settings = [];
      keycloak = (group_of root_group_name ∷ [], []);
    })
unfolding remove_tenant delete_settings ensure_current_user_of_tenant is_current_user_of_tenant
    by_tenant_id find_tenants read_again by_keycloak_id remove_by_id
remove_test = refl

root_test :
    remove_by_id keycloak (some "id of tenants-all") "id of tenants-all" with_plant.keycloak
    ≡ err internal_error
unfolding remove_by_id
root_test = refl

find_all_tenants_test : find_all_tenants r q keycloak bob with_plant ≡ ok (plant ∷ [])
unfolding find_all_tenants get_tenant_ids_for_user find_tenants_for_user find_tenants
find_all_tenants_test = refl

is_user_in_tenant_test : is_user_in_tenant r q keycloak eve "p1" with_plant.keycloak ≡ ok false
unfolding is_user_in_tenant is_current_user_of_tenant get_tenant_ids_for_user find_tenants_for_user
    find_tenants
is_user_in_tenant_test = refl

root_created_test :
    get_id_of_tenant_by_name_or_create keycloak root_group_name ([], [])
    ≡ ok ("id of tenants-all", (group_of root_group_name ∷ [], []))
unfolding get_id_of_tenant_by_name_or_create
root_created_test = refl
