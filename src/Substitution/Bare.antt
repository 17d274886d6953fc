-- ===== src/Substitution/Bare.antt =====
-- A round of `performVariableSubstitution` reads keys, types and values, and writes only the
-- rendered values.
use mathlib.Core.Option
use mathlib.Core.Path.{fun_ext}
use elunic_myturck.Base.{
  ℕ, zero, suc, ◌+◌, ◌≡◌, refl, ◌∙◌, none, some, Option, List, [], ◌∷◌, map, arith, find,
  Option-cases, length, Bool-cases, inl, inr, ltb,
}
use elunic_myturck.Base.Text.{Text, text_eq, substring}
use elunic_myturck.Substitution.{
  Property, PropertyValue, str, scalar, replacement, pending, replace_loop, substitute_variable,
  substitute, enough_fuel, Staged, stage, collect, render, render_all, find_open, index_of_open,
  index_of_close, ◌>>=◌,
}

-- A property without its rendered value.
abbrev pub bare : Property → Property
bare p = record p { rendered_value = none }

find-bare :
    (n : Text) (props : List Property)
    → find (λ p. text_eq p.key n) (map bare props)
      ≡ Option.map bare (find (λ p. text_eq p.key n) props)
find-bare n [] = refl
find-bare n (p ∷ ps) = ground (arith, find-bare n ps)

replacement-bare :
    (props : List Property) (names : List Text) (n : Text)
    → replacement (map bare props) names n ≡ replacement props names n
unfolding replacement
replacement-bare props names n = elim (Option-cases (find (λ p. text_eq p.key n) props)) [
  | inl missing ↦ rw (find-bare n props, missing, replacement) refl
  | inr (obj, found) ↦ rw (find-bare n props, found, replacement) refl
]

pending-bare :
    (props : List Property) (names : List Text)
    → pending (map bare props) names ≡ pending props names
unfolding pending
pending-bare [] names = refl
pending-bare (p ∷ ps) names = ground (arith, pending-bare ps names)

replace_loop-bare :
    (fuel : ℕ) (props : List Property) (value : Text) (pos count : ℕ) (visited : List Text)
    → replace_loop fuel (map bare props) value pos count visited
      ≡ replace_loop fuel props value pos count visited
unfolding replace_loop
replace_loop-bare zero props value pos count visited = refl
replace_loop-bare (suc fuel) props value pos count visited =
    elim (Bool-cases (ltb pos (length value))) [
      | inr past ↦ rw (past, replace_loop) refl
      | inl inside ↦ elim (Option-cases (index_of_open value pos)) [
        | inl missing ↦ rw (inside, missing, replace_loop) refl
        | inr (start, opened) ↦ elim (Option-cases (index_of_close value start)) [
          | inl unclosed ↦ rw (inside, opened, unclosed, replace_loop) refl
          | inr (stop, closed) ↦
              rw
                (
                  inside,
                  opened,
                  closed,
                  replace_loop,
                  replacement-bare props visited (substring value (start + 2) stop),
                )
                (replace_loop-bare fuel props _ _ _ _)
        ]
      ]
    ]

substitute_variable-bare :
    (fuel : ℕ) (props : List Property) (value : Text) (visited : List Text)
    → substitute_variable fuel (map bare props) value visited
      ≡ substitute_variable fuel props value visited
unfolding substitute_variable
substitute_variable-bare zero props value visited = refl
substitute_variable-bare (suc fuel) props value visited =
    let again : substitute_variable fuel (map bare props) ≡ substitute_variable fuel props =
      fun_ext λ v. fun_ext λ names. substitute_variable-bare fuel props v names in
    elim (Option-cases (find_open value)) [
      | inl plain ↦ rw (plain, substitute_variable) refl
      | inr (k, opened) ↦
          rw
            (
              opened,
              substitute_variable,
              again,
              replace_loop-bare (suc fuel) props value 0 0 visited,
            )
            refl
    ]

substitute-bare :
    (props : List Property) (value : Text) (visited : List Text)
    → substitute (map bare props) value visited ≡ substitute props value visited
unfolding substitute enough_fuel
substitute-bare props value visited = simp (pending-bare, substitute_variable-bare)

stage-bare :
    (props : List Property) (p : Property) (v : Option PropertyValue) (acc : Staged)
    → stage (map bare props) (bare p) v acc ≡ stage props p v acc
unfolding stage
stage-bare props p none acc = refl
stage-bare props p (some (scalar truthy t)) acc = refl
stage-bare props p (some (str t)) acc = rw substitute-bare

pub collect-bare :
    (props ps : List Property) (acc : Staged)
    → collect (map bare props) (map bare ps) acc ≡ collect props ps acc
unfolding collect
collect-bare props [] acc = refl
collect-bare props (p ∷ ps) acc =
    λ i. stage-bare props p p.value acc i >>= λ acc'. collect-bare props ps acc' i

-- A round writes rendered values alone.
bare-render : (k v : Text) (props : List Property) → map bare (render k v props) ≡ map bare props
unfolding render
bare-render k v [] = refl
bare-render k v (p ∷ ps) = ground (arith, bare-render k v ps)

pub bare-render_all :
    (rs : List (Text × Text)) (props : List Property)
    → map bare (render_all rs props) ≡ map bare props
unfolding render_all
bare-render_all [] props = refl
bare-render_all ((k, v) ∷ rs) props = bare-render_all rs (render k v props) ∙ bare-render k v props
