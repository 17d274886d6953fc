-- ===== src/Substitution/Rounds.antt =====
-- The rounds of `performVariableSubstitution`: a second round does what the first has done.
use elunic_myturck.Base.{
  ℕ, zero, suc, ◌+◌, ◌≡◌, refl, sym, ap, ◌∙◌, List, [], arith, Bool-cases, ◌⊎◌, inl, inr, ltb,
  if◌then◌else◌, true, false,
}
use elunic_myturck.Base.Text.{Text}
use elunic_myturck.Substitution.{
  Property, Staged, collect, render_all, round, rounds, perform_variable_substitution, update_limit,
  ok, fail, Fault, Outcome,
}
use elunic_myturck.Substitution.Bare.{collect-bare, bare-render_all}
use elunic_myturck.Substitution.Painting.{render_all_twice}

abbrev pub nothing : Staged
nothing = record { substitutions = 0; replacements = [] }

collect-render_all :
    (rs : List (Text × Text)) (props : List Property)
    → collect (render_all rs props) (render_all rs props) nothing ≡ collect props props nothing
collect-render_all rs props =
    sym (collect-bare (render_all rs props) (render_all rs props) nothing)
    ∙ ap (λ q. collect q q nothing) (bare-render_all rs props)
    ∙ collect-bare props props nothing

Outcome-cases {ℓ} :
    {A : Type ℓ} (o : Outcome A) → ((a : A) × (o ≡ ok a)) ⊎ ((e : Fault) × (o ≡ fail e))
Outcome-cases (ok a) = inl (a, refl)
Outcome-cases (fail e) = inr (e, refl)

-- The properties that a round leaves are left alone by the next, which counts the same replacements.
round_again :
    (props props' : List Property) (n : ℕ)
    → round props ≡ ok (n, props')
    → round props' ≡ ok (n, props')
unfolding round
round_again props props' n h = elim (Outcome-cases (collect props props nothing)) [
  | inl (staged, run) ↦
      let h' : ok (staged.substitutions, render_all staged.replacements props) ≡ ok (n, props') =
        rw run at h in
      let e : render_all staged.replacements props ≡ props' = cc in
      let count : staged.substitutions ≡ n = cc in
      rw
        (
          ← e,
          collect-render_all staged.replacements props,
          run,
          render_all_twice staged.replacements props,
          count,
        )
        refl
  | inr (fault, failed) ↦ absurd (cc (rw failed at h))
]

-- With a round that changes nothing and still counts replacements, the loop uses all its passes.
rounds_fixed :
    (left i n : ℕ) (props : List Property)
    → round props ≡ ok (n, props)
    → ltb 0 n ≡ true
    → i + suc left ≡ update_limit
    → rounds (suc left) i props ≡ ok (props, update_limit)
unfolding rounds
rounds_fixed zero i n props h busy e =
    let last : ltb (i + 1) update_limit ≡ false = ground arith in
    let limit : i + 1 ≡ update_limit = omega arith in
    rw (h, rounds, busy, last) (ap (λ k. ok (props, k)) limit)
rounds_fixed (suc left) i n props h busy e =
    let more : ltb (i + 1) update_limit ≡ true = ground arith in
    rw (h, rounds, busy, more) (rounds_fixed left (i + 1) n props h busy (omega arith))

-- The properties and the number of passes, as one round decides them.
abbrev pub once : Outcome (ℕ × List Property) → Outcome (List Property × ℕ)
once (fail e) = fail e
once (ok (n, props)) = ok (props, if ltb 0 n then update_limit else 1)

-- The whole loop is one round: repeating it changes no property. It is repeated 21 times exactly if
-- that round made a replacement, and ends after it if the round made none.
pub perform_variable_substitution-eq-once :
    (props : List Property) → perform_variable_substitution props ≡ once (round props)
unfolding perform_variable_substitution rounds
perform_variable_substitution-eq-once props = elim (Outcome-cases (round props)) [
  | inr (e, failed) ↦ rw (failed, rounds) refl
  | inl ((n, props'), run) ↦ elim (Bool-cases (ltb 0 n)) [
    | inr idle ↦ rw (run, rounds, idle) refl
    | inl busy ↦
        rw (run, rounds, busy)
          (rounds_fixed 19 1 n props' (round_again props props' n run) busy refl)
  ]
]
