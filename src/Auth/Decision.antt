-- ===== src/Auth/Decision.antt =====
-- What the guard decides of a user that the middleware decoded.
use elunic_myturck.Base.{◌≡◌, refl, sym, ap, Bool, false, Option, none, some, List, ◌∷◌}
use elunic_myturck.Base.Text.{Text}
use elunic_myturck.Auth.{
  TokenData, AuthInfo, granted, decode_token, decode_and_verify, can_activate, match_roles,
}

module _ (lower : Text → Text) (decode : Text → Option TokenData)
    (is_well_formed : TokenData → Bool) where
  has_no_roles :
      (o : Option TokenData) (token : Text) (a : AuthInfo)
      → granted token o ≡ some a
      → a.roles ≡ none
  unfolding granted
  has_no_roles none token a h = absurd (cc h)
  has_no_roles (some data_) token a h = sym (ap (λ o. roles_in o) h)
    where
      roles_in : Option AuthInfo → Option (List Text)
      roles_in none = none
      roles_in (some x) = x.roles

  -- A user whose token was decoded has no roles for the guard: it refuses every route that asks for one.
  pub can_activate-decode_token :
      (token : Text) (a : AuthInfo) (role : Text) (roles : List Text)
      → decode_token lower decode is_well_formed token ≡ some a
      → can_activate lower decode is_well_formed (some (role ∷ roles)) (some a) ≡ false
  unfolding can_activate match_roles decode_token
  can_activate-decode_token token a role roles h =
      rw (has_no_roles (decode_and_verify lower decode is_well_formed token) token a h) refl
