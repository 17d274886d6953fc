-- ===== src/Tenants/Settings.antt =====
-- identity-backend/src/tenant-settings/tenant-settings.service.ts and tenant-settings.entity.ts: the settings that each
-- tenant has, and the device groups of Cumulocity that are connected to tenants. The groups themselves come from
-- Cumulocity and are arguments. A request runs alone.
use elunic_myturck.Base.{
  ◌≡◌, ◌++◌, Bool, true, false, not, ◌&&◌, Option, none, some, List, [], ◌∷◌, filter, find, any,
  map, String, str_eq, if◌then◌else◌, ◌==◌,
}
use elunic_myturck.Base.Names.{distinct}
use elunic_myturck.Base.Counting.{count}
pub mod Exclusive
pub mod Kept
pub mod Offered
mod Tests
use elunic_myturck.Base.Results.{
  Result, ok, err, guard, ◌>>=◌, ◌>>◌, not_found, bad_request, conflict,
}
use elunic_myturck.Base.Repository.{Repository, find_or_fail}

pub record TenantSettingsEntity : Type 0 where
  pub id : String
  pub tenant_id : String
  pub key : String
  pub value : String

-- `TennantSettingDefault`
pub record SettingDefault : Type 0 where
  pub key : String
  pub value : String
  pub is_immutable : Bool
  pub unique : Bool

-- `UpdateTenantSettingsClassDto`
pub record UpdateSettingsDto : Type 0 where
  pub value : Option String

-- `GroupDto`, of which the id is read here
pub record GroupDto : Type 0 where
  pub id : String
  pub name : String

abbrev pub interval_key : String
interval_key = "maintenance-interval-start"

-- `TENANT_DEVICE_GROUP_SETTING_KEY`
abbrev pub group_key : String
group_key = "device-group-id"

abbrev pub settings_defaults : List SettingDefault
settings_defaults =
    record { key = interval_key; value = "onExecution"; is_immutable = false; unique = false }
    ∷ record { key = group_key; value = ""; is_immutable = true; unique = true }
    ∷ []

-- Whether a text is truthy.
abbrev pub truthy : String → Bool
truthy value = not (str_eq value "")

-- `{ tenantId, key }`
abbrev pub is_setting : String → String → TenantSettingsEntity → Bool
is_setting tenant_id key s = str_eq s.tenant_id tenant_id && str_eq s.key key

-- `{ key, value }`
abbrev pub has_value : String → String → TenantSettingsEntity → Bool
has_value key value s = str_eq s.key key && str_eq s.value value

abbrev pub default_of : String → Option SettingDefault
default_of key = find (λ d. str_eq d.key key) settings_defaults

-- `defaultSetting?.isImmutable`
abbrev pub immutable : Option SettingDefault → Bool
immutable none = false
immutable (some d) = d.is_immutable

-- `defaultSetting?.unique`
abbrev pub is_unique : Option SettingDefault → Bool
is_unique none = false
is_unique (some d) = d.unique

-- `Object.assign(tenantSetting, pick(dto, ['value']))`
abbrev pub assigned : Option String → TenantSettingsEntity → TenantSettingsEntity
assigned none s = s
assigned (some value) s = record s { value = value }

-- `findOne`, and the exception where nothing is found
abbrev pub or_not_found {ℓ} : {A : Type ℓ} → Result A → Result A
or_not_found (ok a) = ok a
or_not_found (err e) = err not_found

module _ (r : Repository TenantSettingsEntity) where
  unfoldable pub create_default : (String → String) → String → SettingDefault → r.Table → r.Table
  create_default new_ids tenant_id d t =
      if count (is_setting tenant_id d.key) (r.rows t) == 0
      then r.insert
          (record { id = new_ids d.key; tenant_id = tenant_id; key = d.key; value = d.value }) t
      else t

  -- The loop of `createDefaultSettings`.
  unfoldable pub create_each : (String → String) → String → List SettingDefault → r.Table → r.Table
  create_each new_ids tenant_id [] t = t
  create_each new_ids tenant_id (d ∷ ds) t =
      create_each new_ids tenant_id ds (create_default new_ids tenant_id d t)

  unfoldable pub create_default_settings : (String → String) → String → r.Table → r.Table
  create_default_settings new_ids tenant_id = create_each new_ids tenant_id settings_defaults

  -- The loop of `init` over the ids of the tenants.
  unfoldable pub init : (String → String → String) → List String → r.Table → r.Table
  init new_ids [] t = t
  init new_ids (tenant_id ∷ tenants) t =
      init new_ids tenants (create_default_settings (new_ids tenant_id) tenant_id t)

  -- The settings of a tenant that is removed go with it, by the foreign key.
  unfoldable pub delete_settings : String → r.Table → r.Table
  delete_settings tenant_id = r.delete (λ s. str_eq s.tenant_id tenant_id)

  unfoldable pub find_all : String → r.Table → List TenantSettingsEntity
  find_all tenant_id t = filter (λ s. str_eq s.tenant_id tenant_id) (r.rows t)

  unfoldable pub get_one_by_key : String → String → r.Table → Result TenantSettingsEntity
  get_one_by_key tenant_id key t = or_not_found (find_or_fail (is_setting tenant_id key) (r.rows t))

  -- Whether the value is one that another setting has and that must be unique.
  unfoldable pub is_taken : String → Option String → r.Table → Bool
  is_taken key none t = false
  is_taken key (some value) t =
      is_unique (default_of key) && truthy value && any (has_value key value) (r.rows t)

  unfoldable pub update_one :
      String → String → UpdateSettingsDto → r.Table → Result (TenantSettingsEntity × r.Table)
  update_one tenant_id key dto t = get_one_by_key tenant_id key t >>= λ s.
      guard (not (immutable (default_of key) && truthy s.value)) bad_request
      >> (guard (not (is_taken key dto.value t)) conflict
          >> ok (assigned dto.value s, r.update (λ x. str_eq x.id s.id) (assigned dto.value) t))

  -- Groups that are connected to no tenant.
  unfoldable pub get_available_groups : List GroupDto → r.Table → List GroupDto
  get_available_groups groups t =
      filter
        (λ g. not (
          any (λ s. str_eq s.value g.id)
            (filter (λ s. str_eq s.key group_key && not (str_eq s.value "")) (r.rows t))))
        groups

  unfoldable pub get_group : (String → Result GroupDto) → String → r.Table → Result GroupDto
  get_group group_by_id tenant_id t =
      find_or_fail (is_setting tenant_id group_key) (r.rows t) >>= λ s. group_by_id s.value

  -- The ids of the rows and the new ones, each once.
  abbrev pub Unused : (String → String) → List SettingDefault → r.Table → Type 0
  Unused new_ids ds t = distinct (map (λ s. s.id) (r.rows t) ++ map (λ d. new_ids d.key) ds) ≡ true

  -- The requests that change settings, one after the other: a tenant gets its default settings, with ids that are not in
  -- use, a setting is updated, or a tenant is removed.
  pub data Requests : r.Table → r.Table → Type 0 where
    finished : {t : r.Table} → Requests t t
    created :
        (new_ids : String → String) (tenant_id : String) {t t' : r.Table}
        → Unused new_ids settings_defaults t
        → Requests (create_default_settings new_ids tenant_id t) t'
        → Requests t t'
    updated :
        (tenant_id key : String) (dto : UpdateSettingsDto) {s : TenantSettingsEntity}
        {t u t' : r.Table}
        → update_one tenant_id key dto t ≡ ok (s, u)
        → Requests u t'
        → Requests t t'
    removed :
        (tenant_id : String) {t t' : r.Table}
        → Requests (delete_settings tenant_id t) t'
        → Requests t t'

  -- No request removes the tenant.
  abbrev pub Stays : String → {t t' : r.Table} → Requests t t' → Type 0
  Stays tenant finished = Unit
  Stays tenant (created new_ids tenant_id fresh rest) = Stays tenant rest
  Stays tenant (updated tenant_id key dto h rest) = Stays tenant rest
  Stays tenant (removed tenant_id rest) = (str_eq tenant_id tenant ≡ false) × Stays tenant rest
