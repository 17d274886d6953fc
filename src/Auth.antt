-- ===== src/Auth.antt =====
-- Who a request comes from: shared/nestjs/src/auth/authMiddleware.ts with external-kk-token.ts, and what it
-- may do: rolesGuard.ts. Strings are lists of code units. `decode` of jsonwebtoken, the check of the Joi
-- schema and `toLowerCase` are parameters; the fields of the token that are only copied (the name with its
-- fallbacks, the dates, the email and the language) are left out.
pub mod Decoding
pub mod Decision
mod Tests
use elunic_myturck.Base.{
  ℕ, Bool, true, false, not, ◌&&◌, ◌||◌, Option, none, some, List, [], ◌∷◌, ◌++◌, map, filter, find,
  any, length, drop, String, ◌==◌, if◌then◌else◌,
}
use elunic_myturck.Base.Text.{Text, codes, text_eq, contains}

-- `s.startsWith(prefix)`
pub starts_with : Text → Text → Bool
starts_with [] s = true
starts_with (c ∷ p) [] = false
starts_with (c ∷ p) (d ∷ s) = c == d && starts_with p s

-- `ShopfloorIoRightPrefix` and `SioRightKeys`
abbrev pub right_prefix : Text
right_prefix = codes "urn:sio:right:"

abbrev pub right_names : List String
right_names =
    "general:user" ∷ "tenant:use" ∷ "tenant:create" ∷ "user:use" ∷ "user:create" ∷ "user:delete"
    ∷ "user:edit" ∷ "user:edit:self" ∷ "user:roles" ∷ "asset:use" ∷ "asset:hierarchy" ∷ "asset:type"
    ∷ "asset:asset:create" ∷ "asset:asset:edit" ∷ "asset:asset:delete" ∷ "asset:asset:edit:self"
    ∷ "asset:asset:delete:self" ∷ "hub:use" ∷ "hub:edit" ∷ "cm:use" ∷ "cm:edit" ∷ "mm:use"
    ∷ "grafana:use" ∷ []

abbrev pub sio_right_keys : List Text
sio_right_keys = map (λ name. right_prefix ++ codes name) right_names

-- `KeycloakTenantGroupPrefix` and `KeycloakTenantsAllRootGroupName`, after the slash that Keycloak puts first
abbrev pub tenant_group_prefix : Text
tenant_group_prefix = codes "/tenant-"

abbrev pub tenants_all_group : Text
tenants_all_group = codes "/tenants-all"

-- `ExternalKKToken`
pub record TokenData : Type 0 where
  pub sub : Text
  pub tenant_id : Option Text
  pub groups : List Text
  pub roles : List Text

-- `AuthInfo`; `roles`, which the guard reads, is a field of the older type of that name.
pub record AuthInfo : Type 0 where
  pub token : Text
  pub id : Text
  pub tenant_id : Option Text
  pub rights : List Text
  pub is_multi_tenant_admin : Bool
  pub tenants : List Text
  pub roles : Option (List Text)

-- The value of a header: a string or several.
pub data Header : Type 0 where
  single : Text → Header
  several : List Text → Header

pub record Request : Type 0 where
  pub url : Text
  pub headers : List (Text × Header)

-- The settings of the process: whether a mock token is injected (and which), whether `isDevelopment()`,
-- and the address that `url-join` makes of APP_HOSTNAME and APP_SUBPATH.
pub record Settings : Type 0 where
  pub is_mocked : Bool
  pub mock_token : Text
  pub is_development : Bool
  pub hostname : Text
  pub redirect_url : Text

abbrev pub is_empty : {A : Type 0} → List A → Bool
is_empty [] = true
is_empty (x ∷ xs) = false

-- `value || null`
abbrev pub or_null : Option Text → Option Text
or_null none = none
or_null (some t) = if is_empty t then none else some t

-- The loop body of `tenants`: the rest of a group's name behind the prefix, if it has 36 characters.
pub tenants_of : List Text → List Text
tenants_of [] = []
tenants_of (p ∷ ps) =
    if starts_with tenant_group_prefix p && (not (is_empty (drop 8 p)) && length (drop 8 p) == 36)
    then drop 8 p ∷ tenants_of ps
    else tenants_of ps

pub rights_of : List Text → List Text
rights_of roles = filter (λ r. contains sio_right_keys r) roles

-- What `decodeToken` reads from the data of a token.
pub granted : Text → Option TokenData → Option AuthInfo
granted token none = none
granted token (some data_) = some (record {
  token = token;
  id = data_.sub;
  tenant_id = or_null data_.tenant_id;
  rights = rights_of data_.roles;
  is_multi_tenant_admin = contains data_.groups tenants_all_group;
  tenants = tenants_of data_.groups;
  roles = none;
})

-- `req.headers[key] = value`
pub set_header : Text → Header → List (Text × Header) → List (Text × Header)
set_header k v [] = (k, v) ∷ []
set_header k v ((j, w) ∷ hs) = if text_eq j k then (k, v) ∷ hs else (j, w) ∷ set_header k v hs

abbrev pub header_text : Option Header → Text
header_text none = []
header_text (some (single t)) = t
header_text (some (several [])) = []
header_text (some (several (t ∷ ts))) = t

-- What the middleware does with a request: it throws, answers, or hands it on.
pub data Answer : Type 0 where
  throws : Answer
  locked : Option Text → Answer
  unauthorized : Answer
  passed : AuthInfo → Answer

-- `allowNoTenant.filter(p => req.url.startsWith(p)).length > 0`
abbrev pub is_allowed : List Text → Request → Bool
is_allowed prefixes req = any (λ p. starts_with p req.url) prefixes

-- `makeNoTenantRedirect`: none if it only warns.
pub make_no_tenant_redirect : Settings → Option Answer
make_no_tenant_redirect env =
    if env.is_development
    then none
    else some (
        locked (
          if not (is_empty env.hostname) && starts_with (codes "http") env.redirect_url
          then some env.redirect_url
          else none))

-- The middleware's test of the tenant: the answer, if there is one.
pub check_tenant : Settings → List Text → Request → Option Text → Option Answer
check_tenant env prefixes req (some tenant) = none
check_tenant env prefixes req none =
    if is_allowed prefixes req then none else make_no_tenant_redirect env

abbrev pub check_present : Option AuthInfo → Answer
check_present none = unauthorized
check_present (some a) = passed a

abbrev pub or_answer : Option Answer → Answer → Answer
or_answer none next = next
or_answer (some answer) next = answer

-- The middleware from `req.auth` on. Without it, the read of its tenant throws: the list of addresses
-- is always there.
pub decide : Settings → List Text → Request → Option AuthInfo → Answer
decide env prefixes req none = throws
decide env prefixes req (some a) =
    or_answer (check_tenant env prefixes req a.tenant_id) (check_present (some a))

module _ (lower : Text → Text) (decode : Text → Option TokenData)
    (is_well_formed : TokenData → Bool) where
  -- `decodeAndVerifyKeycloakToken` of a string; none where it throws.
  pub decode_and_verify : Text → Option TokenData
  decode_and_verify token = elim (decode token) [
    | none ↦ none
    | some data_ ↦ if is_well_formed data_ then some data_ else none
  ]

  pub decode_token : Text → Option AuthInfo
  decode_token token = granted token (decode_and_verify token)

  pub get_token : List (Text × Header) → Text
  get_token headers =
      elim (find (λ h. text_eq (lower h.0) (codes "x-auth-request-access-token")) headers) [
        | none ↦ []
        | some h ↦ header_text (some h.1)
      ]

  -- `injectAuth`: what `req.auth` is afterwards.
  pub inject_auth : Settings → Request → Option AuthInfo
  inject_auth env req =
      let headers =
        if env.is_mocked
        then set_header (codes "X-Auth-Request-Access-Token") (single env.mock_token) req.headers
        else req.headers in
      if is_empty (get_token headers) then none else decode_token (get_token headers)

  -- `AuthorizationMiddleware`
  pub authorize : Settings → List Text → Request → Answer
  authorize env prefixes req = decide env prefixes req (inject_auth env req)

  -- The loop of `matchRoles` over the roles of the route.
  pub match_one : List Text → List Text → Bool
  match_one [] users = false
  match_one (g ∷ guarding) users = if contains users g then true else match_one guarding users

  pub match_roles : List Text → List Text → Bool
  match_roles guarding users =
      if is_empty guarding
      then true
      else if is_empty users
      then false
      else match_one (map lower guarding) (map lower users)

  -- `canActivate`: the roles of the route, if it has the annotation, and `request.auth`.
  pub can_activate : Option (List Text) → Option AuthInfo → Bool
  can_activate none auth = true
  can_activate (some roles) none = match_roles roles []
  can_activate (some roles) (some auth) = elim auth.roles [
    | none ↦ match_roles roles []
    | some mine ↦ match_roles roles mine
  ]
