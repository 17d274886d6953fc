-- ===== src/Maintenance/Procedures/Versions/Copies.antt =====
-- The copies of assignments and executions that a new version of a procedure gets.
use elunic_myturck.Base.{
  ℕ, suc, ◌≡◌, refl, sym, ap, ◌∙◌, Bool, true, false, Option, none, some, List, [], ◌∷◌, ◌++◌,
  String, str_eq, filter, all, arith, append-nil, append_assoc, if◌then◌else◌, Bool-cases, inl, inr,
}
use elunic_myturck.Base.Repository.{Repository}
use elunic_myturck.Maintenance.{Clock, Repositories, Assignment, Execution}
use elunic_myturck.Maintenance.Procedures.{insert_all}
use elunic_myturck.Maintenance.Procedures.Versions.{
  copied_assignments, counterpart, copied_execution, copied_executions,
}

pub rows-insert_all :
    {Row : Type 0} (repo : Repository Row) (xs : List Row) (t : repo.Table)
    → repo.rows (insert_all repo xs t) ≡ repo.rows t ++ xs
rows-insert_all repo [] t = sym (append-nil (repo.rows t))
rows-insert_all repo (x ∷ xs) t =
    rows-insert_all repo xs (repo.insert x t)
    ∙ ap (λ rows. rows ++ xs) (repo.rows-insert x t)
    ∙ append_assoc (repo.rows t) (x ∷ []) xs

pub filter-append {ℓ} :
    {A : Type ℓ} (p : A → Bool) (xs ys : List A) → filter p (xs ++ ys) ≡ filter p xs ++ filter p ys
filter-append p [] ys = refl
filter-append p (x ∷ xs) ys = elim (Bool-cases (p x)) [
  | inl hit ↦ rw hit (ap (λ zs. x ∷ zs) (filter-append p xs ys))
  | inr miss ↦ rw miss (filter-append p xs ys)
]

pub filter-all {ℓ} : {A : Type ℓ} (p : A → Bool) (xs : List A) → all p xs ≡ true → filter p xs ≡ xs
filter-all p [] h = refl
filter-all p (x ∷ xs) h = elim (Bool-cases (p x)) [
  | inl hit ↦ rw hit (ap (λ zs. x ∷ zs) (filter-all p xs (ground arith)))
  | inr miss ↦ absurd (ground arith)
]

module _ (c : Clock) (r : Repositories c) where
  -- The assignments as the request found them: the one of this id is active.
  abbrev pub is_active_in : List (Assignment c) → String → Bool
  is_active_in [] id = false
  is_active_in (a ∷ rest) id = if str_eq a.id id then a.active else is_active_in rest id

  abbrev pub active : Option (Assignment c) → Bool
  active none = false
  active (some a) = a.active

  pub active-counterpart :
      (ids : ℕ → String) (k : ℕ) (tenant procedure id : String) (old : List (Assignment c))
      → active (counterpart c r id old (copied_assignments c r ids k tenant procedure old))
        ≡ is_active_in old id
  active-counterpart ids k tenant procedure id [] = refl
  active-counterpart ids k tenant procedure id (a ∷ old) = elim (Bool-cases (str_eq a.id id)) [
    | inl hit ↦ rw hit refl
    | inr miss ↦ rw miss (active-counterpart ids (suc k) tenant procedure id old)
  ]

  -- What the copy of one execution adds.
  unfoldable pub copies_of :
      String
      → String
      → Execution c
      → Option (Assignment c)
      → List (Execution c)
      → List (Execution c)
  copies_of id tenant e none rest = rest
  copies_of id tenant e (some a) rest =
      if a.active then copied_execution c r id tenant a.id e ∷ rest else rest

  pub copied_executions-eq :
      (ids : ℕ → String) (k : ℕ) (tenant : String) (old new : List (Assignment c)) (e : Execution c)
      (es : List (Execution c))
      → copied_executions c r ids k tenant old new (e ∷ es)
        ≡ copies_of
            (ids k)
            tenant
            e
            (counterpart c r e.assignment_id old new)
            (copied_executions c r ids (suc k) tenant old new es)
  unfolding copied_executions copies_of
  copied_executions-eq ids k tenant old new e es = by_case (counterpart c r e.assignment_id old new)
    where
      by_case :
          (o : Option (Assignment c))
          → elim o [
            | none ↦ copied_executions c r ids (suc k) tenant old new es
            | some a ↦
                if a.active
                then copied_execution c r (ids k) tenant a.id e
                  ∷ copied_executions c r ids (suc k) tenant old new es
                else copied_executions c r ids (suc k) tenant old new es
          ]
            ≡ copies_of (ids k) tenant e o (copied_executions c r ids (suc k) tenant old new es)
      by_case none = refl
      by_case (some a) = refl

  copies_of-all :
      (p : Execution c → Bool) (id tenant : String) (e : Execution c) (o : Option (Assignment c))
      (rest : List (Execution c))
      → ((a : String) → p (copied_execution c r id tenant a e) ≡ true)
      → all p rest ≡ true
      → all p (copies_of id tenant e o rest) ≡ true
  unfolding copies_of
  copies_of-all p id tenant e none rest h k = k
  copies_of-all p id tenant e (some a) rest h k = elim (Bool-cases a.active) [
    | inl q ↦ rw q (rw (h a.id) k)
    | inr q ↦ rw q k
  ]

  pub copied_executions-all :
      (p : Execution c → Bool) (ids : ℕ → String) (k : ℕ) (tenant : String)
      (old new : List (Assignment c)) (es : List (Execution c))
      → ((k : ℕ) (a : String) (e : Execution c)
          → p (copied_execution c r (ids k) tenant a e) ≡ true)
      → all p (copied_executions c r ids k tenant old new es) ≡ true
  unfolding copied_executions
  copied_executions-all p ids k tenant old new [] h = refl
  copied_executions-all p ids k tenant old new (e ∷ es) h =
      rw (copied_executions-eq ids k tenant old new e es) (
        copies_of-all p (ids k) tenant e _ _ (λ a. h k a e)
          (copied_executions-all p ids (suc k) tenant old new es h))
