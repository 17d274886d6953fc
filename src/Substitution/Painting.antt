-- ===== src/Substitution/Painting.antt =====
-- A list of replacements that is written twice leaves what it left the first time.
use elunic_myturck.Base.{
  ◌≡◌, refl, some, Option, List, [], ◌∷◌, Bool-cases, ◌⊎◌, inl, inr, if◌then◌else◌,
}
use elunic_myturck.Base.Text.{Text, text_eq}
use elunic_myturck.Substitution.{Property, render, render_all}

-- What a list of replacements leaves in a property whose rendered value was `old`.
painted : List (Text × Text) → Text → Option Text → Option Text
painted [] key old = old
painted ((k, v) ∷ rs) key old = painted rs key (if text_eq key k then some v else old)

without : Text → List (Text × Text) → List (Text × Text)
without key [] = []
without key ((k, v) ∷ rs) = if text_eq key k then without key rs else (k, v) ∷ without key rs

-- The first property takes all replacements for its key, and the rest of the list none of them.
render_all-cons :
    (rs : List (Text × Text)) (p : Property) (ps : List Property)
    → render_all rs (p ∷ ps)
      ≡ record p { rendered_value = painted rs p.key p.rendered_value }
        ∷ render_all (without p.key rs) ps
unfolding render_all render painted without
render_all-cons [] p ps = refl
render_all-cons ((k, v) ∷ rs) p ps = elim (Bool-cases (text_eq p.key k)) [
  | inl same ↦ rw (same, render_all-cons rs (record p { rendered_value = some v }) ps) refl
  | inr other ↦ rw (other, render_all-cons rs p (render k v ps)) refl
]

painted_fixed :
    (rs : List (Text × Text)) (key : Text)
    → ((old : Option Text) → painted rs key old ≡ old)
      ⊎ ((old new : Option Text) → painted rs key old ≡ painted rs key new)
unfolding painted
painted_fixed [] key = inl (λ old. refl)
painted_fixed ((k, v) ∷ rs) key = elim (Bool-cases (text_eq key k)) [
  | inl same ↦ rw same (inr (λ old new. refl))
  | inr other ↦ rw other (painted_fixed rs key)
]

painted_twice :
    (rs : List (Text × Text)) (key : Text) (old : Option Text)
    → painted rs key (painted rs key old) ≡ painted rs key old
painted_twice rs key old = elim (painted_fixed rs key) [
  | inl untouched ↦ untouched (painted rs key old)
  | inr constant ↦ constant (painted rs key old) old
]

render_all-nil : (rs : List (Text × Text)) → render_all rs [] ≡ []
unfolding render_all render
render_all-nil [] = refl
render_all-nil ((k, v) ∷ rs) = render_all-nil rs

pub render_all_twice :
    (rs : List (Text × Text)) (props : List Property)
    → render_all rs (render_all rs props) ≡ render_all rs props
unfolding render_all
render_all_twice rs [] = rw (render_all-nil rs) (render_all-nil rs)
render_all_twice rs (p ∷ ps) =
    rw
      (
        render_all-cons rs p ps,
        render_all-cons rs (record p { rendered_value = painted rs p.key p.rendered_value })
            (render_all (without p.key rs) ps),
        painted_twice rs p.key p.rendered_value,
        render_all_twice (without p.key rs) ps,
      )
      refl
