-- ===== src/Maintenance/Executions/Cron.antt =====
-- What a run of the cron job `updateExecutionStates` does to each execution.
use elunic_myturck.Base.{
  ◌≡◌, refl, ap, ◌∙◌, Bool, true, false, ◌&&◌, ◌||◌, List, [], ◌∷◌, map, filter, All, arith, String,
  str_eq, if◌then◌else◌,
}
use elunic_myturck.Base.Int.{ℤ, pos, ltb_ℤ}
use elunic_myturck.Base.Names.{member, distinct, str_eq_self, fresh_ne}
use elunic_myturck.Base.Repository.{map_where}
use elunic_myturck.Maintenance.{
  Clock, Repositories, Store, Execution, ExecutionState, open_, due_soon, over_due, completed,
  partially_completed,
}
use elunic_myturck.Maintenance.Executions.{
  due_soon_threshold_hours, is_open, is_due_soon_state, all_executions, set_state,
  update_executions_by_state, update_execution_states,
}
use elunic_myturck.Maintenance.Executions.States.{ltb_ℤ-threshold}

All-zip {ℓ κ} :
    {A : Type ℓ} {P Q R : A → Type κ} (f : (x : A) → P x → Q x → R x) (xs : List A)
    → All P xs
    → All Q xs
    → All R xs
All-zip f [] p q = tt
All-zip f (x ∷ xs) (p, ps) (q, qs) = (f x p q, All-zip f xs ps qs)

filter-filter {ℓ} :
    {A : Type ℓ} (p q : A → Bool) (xs : List A)
    → filter q (filter p xs) ≡ filter (λ x. p x && q x) xs
filter-filter p q [] = refl
filter-filter p q (x ∷ xs) = ground (arith, filter-filter p q xs)

map_where-agree {ℓ} :
    {A : Type ℓ} (p q : A → Bool) (f : A → A) (xs : List A)
    → All (λ x. p x ≡ q x) xs
    → map_where p f xs ≡ map_where q f xs
map_where-agree p q f [] h = refl
map_where-agree p q f (x ∷ xs) (e, h) = cc (e, map_where-agree p q f xs h)

All-map {ℓ κ} :
    {A : Type ℓ} {P Q : A → Type κ} (f : (x : A) → P x → Q x) (xs : List A) → All P xs → All Q xs
All-map f [] p = tt
All-map f (x ∷ xs) (p, ps) = (f x p, All-map f xs ps)

or_true : (a b : Bool) → b ≡ true → (a || b) ≡ true
or_true a b h = ground arith

-- A selection by the ids of the rows that a test holds of, where no id stands twice.
module _ {ℓ} {A : Type ℓ} (id : A → String) where
  members : (xs : List A) → All (λ x. member (id x) (map id xs) ≡ true) xs
  members [] = tt
  members (x ∷ xs) = (
    rw (str_eq_self (id x)) refl,
    All-map (λ y m. or_true (str_eq (id x) (id y)) (member (id y) (map id xs)) m) xs (members xs),
  )

  member-filter :
      (p : A → Bool) (a : String) (xs : List A)
      → member a (map id xs) ≡ false
      → member a (map id (filter p xs)) ≡ false
  member-filter p a [] h = refl
  member-filter p a (x ∷ xs) h = ground (arith, member-filter p a xs)

  selected-head :
      (p : A → Bool) (x : A) (xs : List A)
      → member (id x) (map id xs) ≡ false
      → member (id x) (map id (filter p (x ∷ xs))) ≡ p x
  selected-head p x xs h = ground (arith, member-filter p (id x) xs, str_eq_self (id x))

  selected-tail :
      (p : A → Bool) (x : A) (xs : List A) (y : A)
      → str_eq (id x) (id y) ≡ false
      → member (id y) (map id (filter p (x ∷ xs))) ≡ member (id y) (map id (filter p xs))
  selected-tail p x xs y h = ground arith

  pub selected :
      (p : A → Bool) (xs : List A)
      → distinct (map id xs) ≡ true
      → All (λ x. member (id x) (map id (filter p xs)) ≡ p x) xs
  selected p [] d = tt
  selected p (x ∷ xs) d =
      let fresh : member (id x) (map id xs) ≡ false = ground arith in
      (
        selected-head p x xs fresh,
        All-zip (λ y m h. selected-tail p x xs y (fresh_ne (id x) (id y) (map id xs) fresh m) ∙ h)
            xs (members xs) (selected p xs (ground arith)),
      )

  -- `update ... where id in ids` changes the rows that gave the ids.
  pub map_where-selected :
      (p : A → Bool) (f : A → A) (xs : List A)
      → distinct (map id xs) ≡ true
      → map_where (λ x. member (id x) (map id (filter p xs))) f xs ≡ map_where p f xs
  map_where-selected p f xs d = map_where-agree _ p f xs (selected p xs d)

module _ (c : Clock) where
  open c use {Time, diff_hours}

  ids-set_state :
      (p : Execution c → Bool) (s : ExecutionState) (xs : List (Execution c))
      → map (λ e. e.id) (map_where p (set_state c s) xs) ≡ map (λ e. e.id) xs
  ids-set_state p s [] = refl
  ids-set_state p s (x ∷ xs) = ground (arith, ids-set_state p s xs)

  -- The state after a run, from the hours that are left.
  abbrev pub next_state : ℤ → ExecutionState → ExecutionState
  next_state left open_ =
      if ltb_ℤ left (pos 0)
      then over_due
      else if ltb_ℤ left due_soon_threshold_hours
      then due_soon
      else open_
  next_state left due_soon = if ltb_ℤ left (pos 0) then over_due else due_soon
  next_state left over_due = over_due
  next_state left completed = completed
  next_state left partially_completed = partially_completed

  abbrev pub tick : Time → Execution c → Execution c
  tick now e = set_state c (next_state (diff_hours e.due_date now) e.state) e

  -- The two passes on an execution whose state is s.
  abbrev soon : Time → Execution c → Execution c
  soon now e =
      if is_open e.state && ltb_ℤ (diff_hours e.due_date now) due_soon_threshold_hours
      then set_state c due_soon e
      else e

  abbrev over : Time → Execution c → Execution c
  over now e =
      if is_due_soon_state e.state && ltb_ℤ (diff_hours e.due_date now) (pos 0)
      then set_state c over_due e
      else e

  two_passes_in :
      (now : Time) (s : ExecutionState) (e : Execution c) (a b : Bool)
      → ltb_ℤ (diff_hours e.due_date now) due_soon_threshold_hours ≡ a
      → ltb_ℤ (diff_hours e.due_date now) (pos 0) ≡ b
      → over now (soon now (set_state c s e)) ≡ tick now (set_state c s e)
  two_passes_in now open_ e true true h k = rw h (rw k refl)
  two_passes_in now open_ e true false h k = rw h (rw k refl)
  two_passes_in now open_ e false true h k =
      absurd (cc (h, ltb_ℤ-threshold (diff_hours e.due_date now) k))
  two_passes_in now open_ e false false h k = rw h (rw k refl)
  two_passes_in now due_soon e a true h k = rw k refl
  two_passes_in now due_soon e a false h k = rw k refl
  two_passes_in now over_due e a b h k = refl
  two_passes_in now completed e a b h k = refl
  two_passes_in now partially_completed e a b h k = refl

  module _ (r : Repositories c) where
    update_executions_by_state-rows :
        (now : Time) (is_state : ExecutionState → Bool) (next : ExecutionState) (threshold : ℤ)
        (s : Store c r)
        → distinct (map (λ e. e.id) (all_executions c r s)) ≡ true
        → all_executions c r (update_executions_by_state c r now is_state next threshold s)
          ≡ map_where
              (λ e. is_state e.state && ltb_ℤ (diff_hours e.due_date now) threshold)
              (set_state c next)
              (all_executions c r s)
    unfolding update_executions_by_state
    update_executions_by_state-rows now is_state next threshold s d =
        r.executions.rows-update _ (set_state c next) s.executions
        ∙ ap
            (λ due.
              map_where (λ e. member e.id (map (λ x. x.id) due)) (set_state c next)
                (all_executions c r s))
            (filter-filter (λ e. is_state e.state)
              (λ e. ltb_ℤ (diff_hours e.due_date now) threshold) (all_executions c r s))
        ∙ map_where-selected (λ e. e.id) _ (set_state c next) (all_executions c r s) d

    two_passes :
        (now : Time) (xs : List (Execution c))
        → map_where
            (λ e. is_due_soon_state e.state && ltb_ℤ (diff_hours e.due_date now) (pos 0))
            (set_state c over_due)
            (map_where
              (λ e. is_open e.state && ltb_ℤ (diff_hours e.due_date now) due_soon_threshold_hours)
              (set_state c due_soon)
              xs)
          ≡ map (tick now) xs
    two_passes now [] = refl
    two_passes now (x ∷ xs) = cc (two_passes_in now x.state x _ _ refl refl, two_passes now xs)

    -- A run of the cron job leaves every execution in place with its state advanced: OPEN becomes
    -- DUE_SOON when less than the threshold is left, OPEN and DUE_SOON become OVER_DUE when the hours
    -- left are negative, and executions that are over due or completed keep their state. No
    -- other field changes. The ids of the executions are distinct.
    pub update_execution_states-rows :
        (now : Time) (s : Store c r)
        → distinct (map (λ e. e.id) (all_executions c r s)) ≡ true
        → all_executions c r (update_execution_states c r now s)
          ≡ map (tick now) (all_executions c r s)
    unfolding update_execution_states
    update_execution_states-rows now s d =
        let first =
          update_executions_by_state-rows now is_open due_soon due_soon_threshold_hours s d in
        update_executions_by_state-rows now is_due_soon_state over_due (pos 0) _ (
          ap (λ xs. distinct (map (λ e. e.id) xs)) first
          ∙ ap distinct (ids-set_state _ due_soon (all_executions c r s))
          ∙ d)
        ∙ ap
            (map_where (λ e. is_due_soon_state e.state && ltb_ℤ (diff_hours e.due_date now) (pos 0))
              (set_state c over_due))
            first
        ∙ two_passes now (all_executions c r s)
