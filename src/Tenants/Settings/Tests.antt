-- ===== src/Tenants/Settings/Tests.antt =====
-- Two tenants, of which the first has a device group, and a second group that is free.
use elunic_myturck.Base.{
  ◌≡◌, refl, true, false, some, none, ◌++◌, if◌then◌else◌, Bool-cases, inl, inr, List, [], ◌∷◌, map,
  String, str_eq, arith,
}
use elunic_myturck.Base.Names.{member}
use elunic_myturck.Base.Counting.{count}
use elunic_myturck.Base.Repository.{Repository, list_repository}
use elunic_myturck.Base.Results.{ok, err, bad_request, conflict, not_found}
use elunic_myturck.Tenants.Settings.{
  TenantSettingsEntity, GroupDto, group_key, interval_key, create_default, create_each,
  create_default_settings, init, find_all, get_one_by_key, is_taken, update_one,
  get_available_groups, get_group, delete_settings, Requests,
}
use elunic_myturck.Tenants.Settings.Exclusive.{Exclusive, Requests-Exclusive}
use elunic_myturck.Tenants.Settings.Kept.{Requests-get_one_by_key}
use elunic_myturck.Tenants.Settings.Offered.{get_available_groups-update_one}

abbrev settings : List TenantSettingsEntity
settings =
    record { id = "s1"; tenant_id = "ada"; key = interval_key; value = "onExecution" }
    ∷ record { id = "s2"; tenant_id = "ada"; key = group_key; value = "north" }
    ∷ []

abbrev r : Repository TenantSettingsEntity
r = list_repository TenantSettingsEntity

-- The settings of the second tenant get the ids s3 and s4.
abbrev new_ids : String → String
new_ids key = if str_eq key group_key then "s4" else "s3"

abbrev interval : TenantSettingsEntity
interval = record { id = "s3"; tenant_id = "bob"; key = interval_key; value = "onExecution" }

abbrev group_of_bob : String → TenantSettingsEntity
group_of_bob value = record { id = "s4"; tenant_id = "bob"; key = group_key; value = value }

abbrev with_bob : String → List TenantSettingsEntity
with_bob value = settings ++ interval ∷ group_of_bob value ∷ []

abbrev groups : List GroupDto
groups = record { id = "north"; name = "North" } ∷ record { id = "south"; name = "South" } ∷ []

create_default_settings_test : create_default_settings r new_ids "bob" settings ≡ with_bob ""
unfolding create_default_settings create_each create_default count
create_default_settings_test = refl

-- The settings that are there stay.
init_test : init r (λ tenant. new_ids) ("ada" ∷ "bob" ∷ []) settings ≡ with_bob ""
unfolding init create_default_settings create_each create_default count
init_test = refl

set_test :
    update_one r "bob" group_key (record { value = some "south" }) (with_bob "")
    ≡ ok (group_of_bob "south", with_bob "south")
unfolding update_one get_one_by_key is_taken
set_test = refl

immutable_test :
    update_one r "ada" group_key (record { value = some "south" }) settings ≡ err bad_request
unfolding update_one get_one_by_key is_taken
immutable_test = refl

taken_test :
    update_one r "bob" group_key (record { value = some "north" }) (with_bob "") ≡ err conflict
unfolding update_one get_one_by_key is_taken
taken_test = refl

interval_test :
    update_one r "bob" interval_key (record { value = none }) (with_bob "")
    ≡ ok (interval, with_bob "")
unfolding update_one get_one_by_key is_taken
interval_test = refl

missing_test : get_one_by_key r "eve" interval_key settings ≡ err not_found
unfolding get_one_by_key
missing_test = refl

find_all_test : find_all r "bob" (with_bob "") ≡ interval ∷ group_of_bob "" ∷ []
unfolding find_all
find_all_test = refl

get_available_groups_test :
    map (λ g. g.id) (get_available_groups r groups (with_bob "")) ≡ "south" ∷ []
unfolding get_available_groups
get_available_groups_test = refl

get_group_test :
    get_group r (λ id. ok (record { id = id; name = "" })) "ada" settings
    ≡ ok (record { id = "north"; name = "" })
unfolding get_group
get_group_test = refl

-- A tenant without settings is removed; the second tenant gets its defaults and then the group that is free.
requests : Requests r settings (with_bob "south")
unfolding create_default_settings create_each create_default count delete_settings
requests = Requests.removed "eve" (
    Requests.created new_ids "bob" refl (
      Requests.updated "bob" group_key (record { value = some "south" }) set_test
        Requests.finished))

exclusive : Exclusive r settings
unfolding count
exclusive = (
  refl,
  λ group k. elim (Bool-cases (str_eq "north" group)) [
    | inl yes_ ↦ rw yes_ (omega arith)
    | inr no_ ↦ rw no_ (omega arith)
  ],
)

Requests-Exclusive_example : Exclusive r (with_bob "south")
Requests-Exclusive_example = Requests-Exclusive r requests exclusive

ada_got :
    get_one_by_key r "ada" group_key settings
    ≡ ok (record { id = "s2"; tenant_id = "ada"; key = group_key; value = "north" })
unfolding get_one_by_key
ada_got = refl

Requests-get_one_by_key_example :
    get_one_by_key r "ada" group_key (with_bob "south")
    ≡ ok (record { id = "s2"; tenant_id = "ada"; key = group_key; value = "north" })
unfolding requests create_default_settings create_each create_default count delete_settings
Requests-get_one_by_key_example =
    Requests-get_one_by_key r "ada"
      (record { id = "s2"; tenant_id = "ada"; key = group_key; value = "north" }) requests
      (refl, tt) exclusive refl ada_got

bob_got : get_one_by_key r "bob" group_key (with_bob "") ≡ ok (group_of_bob "")
unfolding get_one_by_key
bob_got = refl

south_shown : member "south" (map (λ g. g.id) (get_available_groups r groups (with_bob ""))) ≡ true
unfolding get_available_groups
south_shown = refl

get_available_groups-update_one_example :
    (u : List TenantSettingsEntity) × (update_one r "bob" group_key
        (record { value = some "south" })
        (with_bob "")
      ≡ ok (group_of_bob "south", u))
    × (get_one_by_key r "bob" group_key u ≡ ok (group_of_bob "south"))
    × (member "south" (map (λ g. g.id) (get_available_groups r groups u)) ≡ false)
get_available_groups-update_one_example =
    get_available_groups-update_one r "bob" groups "south" (with_bob "") refl bob_got refl
      south_shown
