-- ===== src/Maintenance/Procedures/Versions/Pairs.antt =====
-- Each copy of an execution beside the execution that it was made from.
use elunic_myturck.Base.{
  ℕ, suc, ◌≡◌, refl, sym, ap, ◌∙◌, Bool, true, false, Option, none, some, List, [], ◌∷◌, ◌++◌,
  String, str_eq, filter, any, arith, if◌then◌else◌, Bool-cases, inl, inr, ◌&&◌, ◌||◌,
}
use mathlib.Core.Path.{subst}
use elunic_myturck.Base.Names.{str_eq_self}
use elunic_myturck.Maintenance.{Clock, Repositories, Assignment, Execution}
use elunic_myturck.Maintenance.Procedures.Versions.{
  copied_assignments, counterpart, copied_execution, copied_executions,
}
use elunic_myturck.Maintenance.Procedures.Versions.Copies.{
  is_active_in, active, active-counterpart, copies_of, copied_executions-eq,
}

-- The lists have the same length, and the elements at each position are related.
pub AllPairs : {A B : Type 0} → (A → B → Type 0) → List A → List B → Type 0
AllPairs P [] [] = Unit {0}
AllPairs P [] (y ∷ ys) = true ≡ false
AllPairs P (x ∷ xs) [] = true ≡ false
AllPairs P (x ∷ xs) (y ∷ ys) = P x y × AllPairs P xs ys

pub any-append_right {ℓ} :
    {A : Type ℓ} (q : A → Bool) (xs ys : List A) → any q ys ≡ true → any q (xs ++ ys) ≡ true
any-append_right q [] ys h = h
any-append_right q (x ∷ xs) ys h = ground (arith, any-append_right q xs ys h)

or_left : (a b c : Bool) → a ≡ true → b ≡ true → ((a && b) || c) ≡ true
or_left a b c h k = ground arith

or_right : (a b : Bool) → b ≡ true → (a || b) ≡ true
or_right a b h = ground arith

some-injective {ℓ} : {A : Type ℓ} {x y : A} → some x ≡ some y → x ≡ y
some-injective h = cc h

module _ (c : Clock) (r : Repositories c) where
  -- The assignment `id` is in the table, and an active one of the version, to the asset of the old one.
  abbrev pub is_version_of : List (Assignment c) → String → String → Assignment c → Bool
  is_version_of rows version id o =
      any
        (λ n.
          str_eq n.id id
          && (str_eq n.procedure_id version && (str_eq n.asset_id o.asset_id && n.active)))
        rows

  -- What a copy shares with the execution that it was made from; `rows` are the assignments afterwards.
  pub record IsCopy (old rows : List (Assignment c)) (version : String) (e copy : Execution c)
      : Type 0 where
    pub due_date : copy.due_date ≡ e.due_date
    pub completed_at : copy.completed_at ≡ none
    pub latest_execution : copy.latest_execution ≡ false
    pub assignment :
        any
          (λ o. str_eq o.id e.assignment_id && is_version_of rows version copy.assignment_id o)
          old
        ≡ true

  counterpart-version :
      (ids : ℕ → String) (k : ℕ) (tenant version id : String) (old rows : List (Assignment c))
      {n : Assignment c}
      → ((q : Assignment c → Bool)
          → any q (copied_assignments c r ids k tenant version old) ≡ true
          → any q rows ≡ true)
      → counterpart c r id old (copied_assignments c r ids k tenant version old) ≡ some n
      → n.active ≡ true
      → any (λ o. str_eq o.id id && is_version_of rows version n.id o) old ≡ true
  counterpart-version ids k tenant version id [] rows stored h on = absurd (cc h)
  counterpart-version ids k tenant version id (a ∷ old) rows {n} stored h on =
      let first : Assignment c = record {
        id = ids k;
        tenant_id = tenant;
        asset_id = a.asset_id;
        procedure_id = version;
        active = a.active;
      } in
      let rest = copied_assignments c r ids (suc k) tenant version old in
      elim (Bool-cases (str_eq a.id id)) [
        | inl hit ↦
            let same : first ≡ n =
              some-injective
                (sym (ap (λ b. if b then some first else counterpart c r id old rest) hit) ∙ h) in
            let is_on : a.active ≡ true = ap (λ x. x.active) same ∙ on in
            subst
              (λ x. any (λ o. str_eq o.id id && is_version_of rows version x.id o) (a ∷ old) ≡ true)
              same
              (or_left _ _ _ hit (
                stored _ (
                  rw (str_eq_self (ids k))
                    (rw (str_eq_self version) (rw (str_eq_self a.asset_id) (rw is_on refl))))))
        | inr miss ↦ or_right _ _ (
            counterpart-version ids (suc k) tenant version id old rows {n = n}
              (λ q k. stored q (or_right _ _ k))
              (sym (ap (λ b. if b then some first else counterpart c r id old rest) miss) ∙ h) on)
      ]

  copies_of-pairs :
      (P : Execution c → Execution c → Type 0) (id tenant : String) (e : Execution c)
      (o : Option (Assignment c)) (b : Bool) (es rest : List (Execution c))
      → active c r o ≡ b
      → ((a : Assignment c)
          → o ≡ some a
          → a.active ≡ true
          → P e (copied_execution c r id tenant a.id e))
      → AllPairs P es rest
      → AllPairs P (if b then e ∷ es else es) (copies_of c r id tenant e o rest)
  unfolding copies_of AllPairs
  copies_of-pairs P id tenant e none b es rest same copy later =
      subst (λ b. AllPairs P (if b then e ∷ es else es) rest) same later
  copies_of-pairs P id tenant e (some a) b es rest same copy later =
      let made = copied_execution c r id tenant a.id e in
      subst (λ b. AllPairs P (if b then e ∷ es else es) (if a.active then made ∷ rest else rest))
        same
        (elim (Bool-cases a.active) [
          | inl on ↦
              subst (λ b. AllPairs P (if b then e ∷ es else es) (if b then made ∷ rest else rest))
                (sym on) (copy a refl on, later)
          | inr off ↦
              subst (λ b. AllPairs P (if b then e ∷ es else es) (if b then made ∷ rest else rest))
                (sym off) later
        ])

  pub copied_executions-pairs :
      (ids : ℕ → String) (k : ℕ) (ids' : ℕ → String) (tenant version : String)
      (old rows : List (Assignment c)) (es : List (Execution c))
      → ((q : Assignment c → Bool)
          → any q (copied_assignments c r ids' 0 tenant version old) ≡ true
          → any q rows ≡ true)
      → AllPairs (IsCopy old rows version) (filter (λ e. is_active_in c r old e.assignment_id) es) (
          copied_executions c r ids k tenant old
            (copied_assignments c r ids' 0 tenant version old)
            es)
  unfolding copied_executions AllPairs
  copied_executions-pairs ids k ids' tenant version old rows [] stored = tt
  copied_executions-pairs ids k ids' tenant version old rows (e ∷ es) stored =
      let new = copied_assignments c r ids' 0 tenant version old in
      subst
        (AllPairs (IsCopy old rows version)
          (filter (λ x. is_active_in c r old x.assignment_id) (e ∷ es)))
        (sym (copied_executions-eq c r ids k tenant old new e es))
        (copies_of-pairs (IsCopy old rows version) (ids k) tenant e
          (counterpart c r e.assignment_id old new) (is_active_in c r old e.assignment_id) _ _
          (active-counterpart c r ids' 0 tenant version e.assignment_id old)
          (λ a is_a on. record {
            due_date = refl;
            completed_at = refl;
            latest_execution = refl;
            assignment =
                counterpart-version ids' 0 tenant version e.assignment_id old rows {n = a} stored
                  is_a on;
          })
          (copied_executions-pairs ids (suc k) ids' tenant version old rows es stored))
