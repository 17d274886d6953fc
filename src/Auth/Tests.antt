-- ===== src/Auth/Tests.antt =====
-- A user of one tenant, with a token that the stand-in for `decode` knows.
use elunic_myturck.Base.{
  ◌≡◌, refl, Bool, true, false, Option, none, some, List, [], ◌∷◌, ◌++◌, if◌then◌else◌,
}
use elunic_myturck.Base.Text.{Text, codes, text_eq}
use elunic_myturck.Auth.{
  TokenData, AuthInfo, Settings, Request, single, throws, locked, starts_with, tenant_group_prefix,
  tenants_of, rights_of, granted, set_header, get_token, make_no_tenant_redirect, check_tenant,
  decide, decode_and_verify, decode_token, inject_auth, authorize, match_one, match_roles,
  can_activate,
}
use elunic_myturck.Auth.Decision.{can_activate-decode_token}

abbrev tenant : Text
tenant = codes "0bfd22e4-88c5-4f73-bcdb-6bb4ae9aa7ed"

abbrev group_names : List Text
group_names = codes "/tenants-all" ∷ (tenant_group_prefix ++ tenant) ∷ codes "/tenant-x" ∷ []

abbrev role_names : List Text
role_names = codes "urn:sio:right:hub:use" ∷ codes "offline_access" ∷ []

abbrev token_data : TokenData
token_data = record {
  sub = codes "u";
  tenant_id = some [];
  groups = group_names;
  roles = role_names;
}

abbrev lower : Text → Text
lower t = t

abbrev decode : Text → Option TokenData
decode t = if text_eq t (codes "token") then some token_data else none

abbrev is_well_formed : TokenData → Bool
is_well_formed t = true

abbrev production : Settings
production = record {
  is_mocked = false;
  mock_token = [];
  is_development = false;
  hostname = codes "host";
  redirect_url = codes "https://host/tenant/";
}

abbrev request : Request
request = record {
  url = codes "/v1/assets";
  headers = (codes "x-auth-request-access-token", single (codes "token")) ∷ [];
}

-- The user is in no tenant, so the answer is to choose one.
redirects :
    authorize lower decode is_well_formed production [] request
    ≡ locked (some (codes "https://host/tenant/"))
unfolding authorize decide check_tenant make_no_tenant_redirect inject_auth get_token set_header
    decode_token decode_and_verify granted rights_of tenants_of starts_with
redirects = refl

-- Without a token the middleware throws.
throws_without :
    authorize lower decode is_well_formed production [] (record request { headers = [] }) ≡ throws
unfolding authorize decide inject_auth get_token
throws_without = refl

decoded :
    decode_token lower decode is_well_formed (codes "token")
    ≡ granted (codes "token") (some token_data)
unfolding decode_token decode_and_verify
decoded = refl

matches_case :
    match_roles lower decode is_well_formed (codes "a" ∷ codes "b" ∷ []) (codes "b" ∷ []) ≡ true
unfolding match_roles match_one
matches_case = refl

abbrev admin : AuthInfo
admin = record {
  token = codes "token";
  id = codes "u";
  tenant_id = none;
  rights = codes "urn:sio:right:hub:use" ∷ [];
  is_multi_tenant_admin = true;
  tenants = tenant ∷ [];
  roles = none;
}

can_activate-decode_token_example :
    can_activate lower decode is_well_formed (some (codes "admin" ∷ [])) (some admin) ≡ false
unfolding decode_token decode_and_verify granted rights_of tenants_of starts_with
can_activate-decode_token_example =
    can_activate-decode_token lower decode is_well_formed (codes "token") admin (codes "admin") []
      refl
