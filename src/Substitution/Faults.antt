-- ===== src/Substitution/Faults.antt =====
-- When `performVariableSubstitution` returns and when it throws.
use elunic_myturck.Base.{
  ◌≡◌, refl, List, [], ◌∷◌, Bool-cases, inl, inr, true, false, Bool, not, ◌&&◌, all, ℕ, ltb, some,
  none, Option, arith, if◌then◌else◌,
}
use elunic_myturck.Substitution.{
  Property, PropertyValue, str, scalar, is_string, is_empty, Staged, add_staged, stage, collect,
  render_all, round, perform_variable_substitution, update_limit, ok, fail, type_error,
}
use elunic_myturck.Substitution.Termination.{substitute_total}
use elunic_myturck.Substitution.Rounds.{nothing, perform_variable_substitution-eq-once}

-- A value that a round takes: not a truthy value other than a string, of type STRING.
abbrev pub is_sound : Property → Option PropertyValue → Bool
is_sound p none = true
is_sound p (some (str t)) = true
is_sound p (some (scalar truthy t)) = not (truthy && is_string p.type)

abbrev pub all_sound : List Property → Bool
all_sound = all (λ p. is_sound p p.value)

stage_total :
    (props : List Property) (p : Property) (v : Option PropertyValue) (acc : Staged)
    → is_sound p v ≡ true
    → (staged : Staged) × (stage props p v acc ≡ ok staged)
unfolding stage
stage_total props p none acc h = (acc, refl)
stage_total props p (some (scalar truthy t)) acc h = (acc, ground arith)
stage_total props p (some (str t)) acc h =
    elim (Bool-cases (not (is_empty t) && is_string p.type)) [
      | inr skipped ↦ (acc, rw skipped refl)
      | inl candidate ↦
          let (r, run) = substitute_total props t (p.key ∷ []) in
          (add_staged p.key r acc, rw (candidate, run) refl)
    ]

stage_faulty :
    (props : List Property) (p : Property) (v : Option PropertyValue) (acc : Staged)
    → is_sound p v ≡ false
    → stage props p v acc ≡ fail type_error
unfolding stage
stage_faulty props p none acc h = cc
stage_faulty props p (some (str t)) acc h = cc
stage_faulty props p (some (scalar truthy t)) acc h = ground arith

collect_total :
    (props ps : List Property) (acc : Staged)
    → all_sound ps ≡ true
    → (staged : Staged) × (collect props ps acc ≡ ok staged)
unfolding collect
collect_total props [] acc h = (acc, refl)
collect_total props (p ∷ ps) acc h =
    let (first, run) = stage_total props p p.value acc (ground arith) in
    let (staged, rest) = collect_total props ps first (ground arith) in (staged, rw run rest)

collect_faulty :
    (props ps : List Property) (acc : Staged)
    → all_sound ps ≡ false
    → collect props ps acc ≡ fail type_error
unfolding collect
collect_faulty props [] acc h = cc
collect_faulty props (p ∷ ps) acc h = elim (Bool-cases (is_sound p p.value)) [
  | inr faulty ↦ rw (stage_faulty props p p.value acc faulty) refl
  | inl sound ↦
      let (first, run) = stage_total props p p.value acc sound in
      rw run (collect_faulty props ps first (ground arith))
]

-- The substitution returns for every list of properties in which each truthy value of type STRING is
-- a string, and otherwise throws a type error; it never runs out of the fuel that the model gives.
pub perform_variable_substitution_outcome :
    (props : List Property)
    → (all_sound props ≡ true
        → (r : List Property × ℕ) × (perform_variable_substitution props ≡ ok r))
      × (all_sound props ≡ false → perform_variable_substitution props ≡ fail type_error)
unfolding round
perform_variable_substitution_outcome props = (
  λ sound.
      let (staged, run) = collect_total props props nothing sound in
      (
        (
          render_all staged.replacements props,
          if ltb 0 staged.substitutions then update_limit else 1,
        ),
        rw (perform_variable_substitution-eq-once props, run) refl,
      ),
  λ faulty.
      rw (perform_variable_substitution-eq-once props, collect_faulty props props nothing faulty)
        refl,
)
