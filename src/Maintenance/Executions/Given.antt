-- ===== src/Maintenance/Executions/Given.antt =====
-- What the results of an execution say of its steps, written out for the theorems on completing it.
use elunic_myturck.Base.{
  ◌≡◌, refl, Bool, true, false, not, ◌&&◌, ◌||◌, Option, none, some, List, [], ◌∷◌, All, all, any,
  filter, arith, String, str_eq, if◌then◌else◌,
}
use elunic_myturck.Maintenance.{
  ProcedureStep, StepResult, StepResultStatus, done, error, skipped, ExecutionState, completed,
  partially_completed,
}
use elunic_myturck.Maintenance.Executions.{is_some, is_skipped, is_executed}

abbrev pub was_skipped : StepResultStatus → Bool
was_skipped done = false
was_skipped error = false
was_skipped skipped = true

-- The step has a result of the execution `id` that is not SKIPPED.
abbrev pub is_given : List StepResult → String → ProcedureStep → Bool
is_given found id step =
    any (λ t. str_eq t.execution_id id && (str_eq t.step_id step.id && not (was_skipped t.status)))
      found

-- The step is no mandatory one of the procedure, or has such a result.
abbrev pub is_optional_or_given : List StepResult → String → String → String → ProcedureStep → Bool
is_optional_or_given found tenant procedure id step =
    not (step.mandatory && (str_eq step.tenant_id tenant && str_eq step.procedure_id procedure))
    || is_given found id step

abbrev pub state_given : List StepResult → String → ExecutionState
state_given found id =
    if any (λ t. str_eq t.execution_id id && not (was_skipped t.status)) found
    then completed
    else partially_completed

pub executed-was_skipped : (st : StepResultStatus) → is_executed st ≡ not (was_skipped st)
executed-was_skipped done = refl
executed-was_skipped error = refl
executed-was_skipped skipped = refl

pub skipped-was_skipped : (st : StepResultStatus) → is_skipped st ≡ was_skipped st
skipped-was_skipped done = refl
skipped-was_skipped error = refl
skipped-was_skipped skipped = refl

pub is_some-none {ℓ} : {A : Type ℓ} (o : Option A) → is_some o ≡ false → o ≡ none
is_some-none none h = refl
is_some-none (some x) h = absurd (cc h)

pub any-filter {ℓ} :
    {A : Type ℓ} (p p' q : A → Bool) (xs : List A)
    → ((x : A) → p x ≡ p' x)
    → any p (filter q xs) ≡ any (λ x. q x && p' x) xs
any-filter p p' q [] same = refl
any-filter p p' q (x ∷ xs) same = ground (arith, same x, any-filter p p' q xs same)

pub any-filters {ℓ} :
    {A : Type ℓ} (p q q' r : A → Bool) (xs : List A)
    → ((x : A) → q x ≡ q' x)
    → any p (filter q (filter r xs)) ≡ any (λ x. r x && (p x && q' x)) xs
any-filters p q q' r [] same = refl
any-filters p q q' r (x ∷ xs) same = ground (arith, same x, any-filters p q q' r xs same)

pub All-all {ℓ} :
    {A : Type ℓ} (p : A → Bool) (xs : List A) → All (λ x. p x ≡ true) xs → all p xs ≡ true
All-all p [] h = refl
All-all p (x ∷ xs) h = rw h.0 (All-all p xs h.1)

pub all-filters {ℓ} :
    {A : Type ℓ} (f g p q : A → Bool) (xs : List A)
    → ((x : A) → f x ≡ g x)
    → all f (filter p (filter q xs)) ≡ true
    → all (λ x. not (p x && q x) || g x) xs ≡ true
all-filters f g p q [] same h = refl
all-filters f g p q (x ∷ xs) same h = ground (arith, same x, all-filters f g p q xs same)
