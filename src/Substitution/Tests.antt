-- ===== src/Substitution/Tests.antt =====
-- Runs of the substitution on the values of the source's own tests.
use elunic_myturck.Base.{◌≡◌, refl, some, none, List, [], ◌∷◌, ℕ, true, false}
use elunic_myturck.Base.Text.{Text, codes}
use elunic_myturck.Substitution.{
  Property, string, str, replace_loop, find_open, find_close, index_of_open, index_of_close, splice,
  replacement, substitute, substitute_variable, enough_fuel, braces, pending, ok, assign, stage,
  collect, render, render_all, round, rounds, perform_variable_substitution, scalar, fail,
  type_error, Substituted,
}
use elunic_myturck.Substitution.Steps.{substitute-Settled, Settled}
use elunic_myturck.Substitution.Rounds.{perform_variable_substitution-eq-once, once}
use elunic_myturck.Substitution.Faults.{perform_variable_substitution_outcome, all_sound}

runs : Unit {0}
unfolding perform_variable_substitution rounds round render_all render collect stage assign pending
    braces enough_fuel substitute_variable substitute replacement splice index_of_close
    index_of_open find_close find_open replace_loop
runs = tt

abbrev prop : Text → Text → Property
prop k v = record { key = k; type = string; value = some (str v); rendered_value = none }

abbrev props : List Property
props =
    prop (codes "a") (codes "1${b}2")
    ∷ prop (codes "b") (codes "x${c}y${a}")
    ∷ prop (codes "c") (codes "z")
    ∷ []

nested :
    substitute props (codes "-${a}-") []
    ≡ ok (record { text = codes "-1xzy[Error: recursion in variables]2-"; count = 4 })
unfolding runs
nested = refl

substitute-Settled_example :
    (r : Substituted) × (substitute props (codes "-${a}-") [] ≡ ok r) × Settled r.text
substitute-Settled_example = substitute-Settled props (codes "-${a}-") []

perform_variable_substitution-eq-once_example :
    perform_variable_substitution props ≡ once (round props)
perform_variable_substitution-eq-once_example = perform_variable_substitution-eq-once props

-- A STRING property whose value is a number that is not 0.
abbrev faulty : List Property
faulty =
    record {
      key = codes "n";
      type = string;
      value = some (scalar true (codes "7"));
      rendered_value = none;
    }
    ∷ []

perform_variable_substitution_outcome_example :
    (all_sound faulty ≡ true
      → (r : List Property × ℕ) × (perform_variable_substitution faulty ≡ ok r))
    × (all_sound faulty ≡ false → perform_variable_substitution faulty ≡ fail type_error)
perform_variable_substitution_outcome_example = perform_variable_substitution_outcome faulty
