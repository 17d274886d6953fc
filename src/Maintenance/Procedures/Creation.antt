-- ===== src/Maintenance/Procedures/Creation.antt =====
-- Which steps a new procedure has, and that its name is free.
use elunic_myturck.Base.{
  ℕ, ◌≤◌, ◌≡◌, refl, sym, ap, ◌∙◌, Bool, true, false, not, some, List, [], ◌∷◌, ◌++◌, String,
  str_eq, eq_iff, ◌||◌, find, any, arith, if◌then◌else◌, Bool-cases, inl, inr,
}
use mathlib.Core.Path.{subst}
use elunic_myturck.Base.Counting.{count, count-append, count-single}
use elunic_myturck.Base.Results.{
  Result, ok, not_found, conflict, internal_error, >>=-eq-ok, guard-eq-ok, ok-injective,
}
use elunic_myturck.Maintenance.{Clock, Repositories, Store, Procedure, LibraryStep, Auth}
use elunic_myturck.Maintenance.Procedures.{
  ProcedureDto, NewIds, individual_steps, final_steps, new_procedure, is_active_named,
  all_procedures, store_procedure, found_steps, create_procedure,
}

find-any :
    (id : String) (found : List LibraryStep)
    → any (λ l. str_eq l.id id) found ≡ true
    → (l : LibraryStep) × (find (λ x. str_eq x.id id) found ≡ some l)
find-any id [] h = absurd (cc h)
find-any id (x ∷ xs) h = elim (Bool-cases (str_eq x.id id)) [
  | inl hit ↦ (x, ap (λ b. if b then some x else find (λ y. str_eq y.id id) xs) hit)
  | inr miss ↦
      let (l, e) = find-any id xs (sym (ap (λ b. b || any (λ y. str_eq y.id id) xs) miss) ∙ h) in
      (l, rw miss e)
]

none_counts {ℓ} : {A : Type ℓ} (p : A → Bool) (xs : List A) → any p xs ≡ false → count p xs ≡ 0
unfolding count
none_counts p [] h = refl
none_counts p (x ∷ xs) h = ground (arith, none_counts p xs)

module _ (c : Clock) (r : Repositories c) where
  -- Each tenant has at most one active procedure of a name.
  abbrev pub NamesOnce : Store c r → Type 0
  NamesOnce s =
      (tenant name : String) → count (is_active_named c tenant name) (all_procedures c r s) ≤ 1

  insert-NamesOnce :
      (tenant name other_tenant other : String) (rows : List (Procedure c)) (p : Procedure c)
      → p.tenant_id ≡ tenant
      → p.name ≡ name
      → count (is_active_named c tenant name) rows ≡ 0
      → count (is_active_named c other_tenant other) rows ≤ 1
      → count (is_active_named c other_tenant other) (rows ++ p ∷ []) ≤ 1
  insert-NamesOnce tenant name other_tenant other rows p e d none_ once =
      let q = is_active_named c other_tenant other in
      elim (Bool-cases (q p)) [
        | inl hit ↦
            let t_same : other_tenant ≡ tenant =
              sym ((eq_iff p.tenant_id other_tenant).0 (ground arith)) ∙ e in
            let n_same : other ≡ name = sym ((eq_iff p.name other).0 (ground arith)) ∙ d in
            let zero_ : count q rows ≡ 0 = rw t_same (rw n_same none_) in
            omega (
              arith,
              count-append q rows (p ∷ []),
              count-single q p,
              ap {B = ℕ} (λ b. if b then 1 else 0) hit,
              zero_,
            )
        | inr miss ↦ omega (
          arith,
          count-append q rows (p ∷ []),
          count-single q p,
          ap {B = ℕ} (λ b. if b then 1 else 0) miss,
          once,
        )
      ]

  -- What a creation that succeeds does to the tables.
  pub record Created (ids : NewIds) (auth : Auth) (type_id : String) (dto : ProcedureDto)
      (s : Store c r) (p : Procedure c) (s' : Store c r) : Type 0 where
    pub free : any (is_active_named c auth.tenant_id dto.name) (all_procedures c r s) ≡ false
    pub made : p ≡ new_procedure c ids.procedure auth.tenant_id type_id dto
    pub procedures_after : all_procedures c r s' ≡ all_procedures c r s ++ p ∷ []
    pub assignments_after : s'.assignments ≡ s.assignments
    pub executions_after : s'.executions ≡ s.executions

  not-true : (b : Bool) → not b ≡ true → b ≡ false
  not-true b h = ground arith

  store_procedure-Created :
      (ids : NewIds) (auth : Auth) (type_id : String) (dto : ProcedureDto)
      (found : List LibraryStep) (s : Store c r) {p : Procedure c} {s' : Store c r}
      → store_procedure c r ids auth type_id dto found s ≡ ok (p, s')
      → Created ids auth type_id dto s p s'
  unfolding store_procedure
  store_procedure-Created ids auth type_id dto found s {p} {s'} h =
      let (free, h1) = guard-eq-ok _ conflict _ h in
      let (unique, h2) = guard-eq-ok _ internal_error _ h1 in
      let (final, run, h3) =
        >>=-eq-ok (final_steps found dto.steps _ (individual_steps dto.steps)) _ h2 in
      let (named, h4) = guard-eq-ok _ internal_error _ h3 in
      let same = ok-injective h4 in
      record {
        free = not-true _ free;
        made = sym (ap (λ t. t.0) same);
        procedures_after =
            ap (λ t. all_procedures c r t.1) (sym same)
            ∙ r.procedures.rows-insert _ s.procedures
            ∙ ap (λ t. all_procedures c r s ++ t.0 ∷ []) same;
        assignments_after = ap (λ t. t.1.assignments) (sym same);
        executions_after = ap (λ t. t.1.executions) (sym same);
      }

  pub create_procedure-Created :
      (ids : NewIds) (auth : Auth) (asset_type : Result String) (dto : ProcedureDto) (s : Store c r)
      {p : Procedure c} {s' : Store c r}
      → create_procedure c r ids auth asset_type dto s ≡ ok (p, s')
      → (type_id : String) × Created ids auth type_id dto s p s'
  unfolding create_procedure
  create_procedure-Created ids auth asset_type dto s h =
      let (type_id, answered, h1) = >>=-eq-ok asset_type _ h in
      let (found, h2) = guard-eq-ok _ not_found _ h1 in
      (
        type_id,
        store_procedure-Created ids auth type_id dto (found_steps c r auth dto.steps s) s h2,
      )

  Created-NamesOnce :
      {ids : NewIds} {auth : Auth} {type_id : String} {dto : ProcedureDto} {s s' : Store c r}
      {p : Procedure c}
      → Created ids auth type_id dto s p s'
      → NamesOnce s
      → NamesOnce s'
  Created-NamesOnce {auth} {dto} {s} {p = p} d once tenant name =
      subst (λ xs. count (is_active_named c tenant name) xs ≤ 1) (sym d.procedures_after)
        (insert-NamesOnce auth.tenant_id dto.name tenant name (all_procedures c r s) p
          (ap (λ x. x.tenant_id) d.made) (ap (λ x. x.name) d.made)
          (none_counts _ (all_procedures c r s) d.free) (once tenant name))

  -- Creating a procedure keeps the names of the active procedures of each tenant distinct.
  pub create_procedure-NamesOnce :
      (ids : NewIds) (auth : Auth) (asset_type : Result String) (dto : ProcedureDto) (s : Store c r)
      {p : Procedure c} {s' : Store c r}
      → create_procedure c r ids auth asset_type dto s ≡ ok (p, s')
      → NamesOnce s
      → NamesOnce s'
  create_procedure-NamesOnce ids auth asset_type dto s h once =
      Created-NamesOnce (create_procedure-Created ids auth asset_type dto s h).1 once
