-- ===== src/Assets/Service/Fields.antt =====
-- What the loop over the simple properties of an asset does to its fields, and what it logs.
use elunic_myturck.Base.{
  ◌≡◌, ◌↔◌, refl, sym, ap, ◌∙◌, Bool, true, false, Option, none, some, List, [], ◌∷◌, String,
  eq_iff, arith, Bool-cases, inl, inr,
}
use elunic_myturck.Base.Names.{str_eq_self}
use elunic_myturck.Assets.{AssetEntity, UpdateAssetDto, AssetUser}
use elunic_myturck.Assets.Service.{
  SimpleProp, description_prop, image_id_prop, name_prop, simple_props, same_text, differs_text,
  given_text, or_name, differs_name, differs, set_prop, update_simple,
}

same_text-eq : (a b : Option String) → same_text a b ≡ true → a ≡ b
same_text-eq none none h = refl
same_text-eq none (some b) h = absurd (cc h)
same_text-eq (some a) none h = absurd (cc h)
same_text-eq (some a) (some b) h = ap some ((eq_iff a b).0 h)

same_text_self : (a : Option String) → same_text a a ≡ true
same_text_self none = refl
same_text_self (some a) = str_eq_self a

given_text-same :
    (new : Option (Option String)) (old : Option String)
    → differs_text new old ≡ false
    → given_text new old ≡ old
given_text-same none old h = refl
given_text-same (some new) old h = sym (same_text-eq old new (ground arith))

differs_text-given :
    (new : Option (Option String)) (old : Option String)
    → differs_text new (given_text new old) ≡ false
differs_text-given none old = refl
differs_text-given (some new) old = rw (same_text_self new) refl

-- The asset with the fields of the request.
abbrev pub with_fields :
    {N : Type 0} → (N → N → Bool) → UpdateAssetDto N → AssetEntity N → AssetEntity N
with_fields same_name u a = record a {
  description = given_text u.description a.description;
  image_id = given_text u.image_id a.image_id;
  name = or_name same_name u.name a.name;
}

pub update_simple-id :
    {N : Type 0} (same_name : N → N → Bool) (user : AssetUser) (u : UpdateAssetDto N)
    (ps : List SimpleProp) (a : AssetEntity N)
    → (update_simple same_name user u ps a).0.id ≡ a.id
unfolding update_simple
update_simple-id same_name user u [] a = refl
update_simple-id same_name user u (description_prop ∷ ps) a = ground (
  arith,
  update_simple-id same_name user u ps a,
  update_simple-id same_name user u ps (set_prop same_name u a description_prop),
)
update_simple-id same_name user u (image_id_prop ∷ ps) a = ground (
  arith,
  update_simple-id same_name user u ps a,
  update_simple-id same_name user u ps (set_prop same_name u a image_id_prop),
)
update_simple-id same_name user u (name_prop ∷ ps) a = ground (
  arith,
  update_simple-id same_name user u ps a,
  update_simple-id same_name user u ps (set_prop same_name u a name_prop),
)

module _ {N : Type 0} (same_name : N → N → Bool)
    (same_name_iff : (a b : N) → (same_name a b ≡ true) ↔ (a ≡ b)) where
  or_name-same :
      (new : Option N) (old : N)
      → differs_name same_name new old ≡ false
      → or_name same_name new old ≡ old
  or_name-same none old h = refl
  or_name-same (some new) old h = sym ((same_name_iff old new).0 (ground arith))

  differs_name-or :
      (new : Option N) (old : N) → differs_name same_name new (or_name same_name new old) ≡ false
  differs_name-or none old = refl
  differs_name-or (some new) old = rw ((same_name_iff new new).1 refl) refl

  set_prop-same :
      (u : UpdateAssetDto N) (a : AssetEntity N) (p : SimpleProp)
      → differs same_name u a p ≡ false
      → set_prop same_name u a p ≡ a
  set_prop-same u a description_prop h =
      ap (λ d. record a { description = d }) (given_text-same u.description a.description h)
  set_prop-same u a image_id_prop h =
      ap (λ d. record a { image_id = d }) (given_text-same u.image_id a.image_id h)
  set_prop-same u a name_prop h = ap (λ d. record a { name = d }) (or_name-same u.name a.name h)

  update_simple-step :
      (user : AssetUser) (u : UpdateAssetDto N) (p : SimpleProp) (ps : List SimpleProp)
      (a : AssetEntity N)
      → (update_simple same_name user u (p ∷ ps) a).0
        ≡ (update_simple same_name user u ps (set_prop same_name u a p)).0
  unfolding update_simple
  update_simple-step user u p ps a = elim (Bool-cases (differs same_name u a p)) [
    | inl changed ↦ rw changed refl
    | inr same ↦
        rw same (ap (λ b. (update_simple same_name user u ps b).0) (sym (set_prop-same u a p same)))
  ]

  pub update_simple-fields :
      (user : AssetUser) (u : UpdateAssetDto N) (a : AssetEntity N)
      → (update_simple same_name user u simple_props a).0 ≡ with_fields same_name u a
  unfolding update_simple
  update_simple-fields user u a =
      update_simple-step user u description_prop (image_id_prop ∷ name_prop ∷ []) a
      ∙ (update_simple-step user u image_id_prop (name_prop ∷ []) _
          ∙ update_simple-step user u name_prop [] _)

  -- Of an asset that has these fields already, nothing is changed and nothing is logged.
  pub update_simple_again :
      (user : AssetUser) (u : UpdateAssetDto N) (a : AssetEntity N)
      → update_simple same_name user u simple_props (with_fields same_name u a)
        ≡ (with_fields same_name u a, [])
  unfolding update_simple
  update_simple_again user u a =
      rw (differs_text-given u.description a.description)
        (rw (differs_text-given u.image_id a.image_id) (rw (differs_name-or u.name a.name) refl))
