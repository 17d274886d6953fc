-- ===== src/Maintenance/Procedures/Deletion/Family.antt =====
-- That a procedure is deleted with its versions, and nothing else with it.
use elunic_myturck.Base.{
  ◌≡◌, refl, sym, ap, ◌∙◌, Bool, true, false, not, ◌&&◌, ◌||◌, Option, List, [], ◌∷◌, String,
  str_eq, eq_iff, filter, map, any, if◌then◌else◌, All, All-filter, arith, Bool-cases, inl, inr,
}
use mathlib.Core.Path.{subst}
use elunic_myturck.Base.Counting.{member-filter_absent}
use elunic_myturck.Base.Names.{member, distinct, str_eq_self}
use elunic_myturck.Base.Repository.{map_where, find_or_fail, find_or_fail-holds}
use elunic_myturck.Base.Results.{
  ok, err, entity_not_found, internal_error, >>=-eq-ok, guard-eq-ok, ok-injective,
}
use elunic_myturck.Maintenance.{Clock, Repositories, Store, Procedure, Assignment, Auth}
use elunic_myturck.Maintenance.Cascades.{
  refers_to, clear_root, delete_assignments, delete_procedures,
}
use elunic_myturck.Maintenance.Assignments.{is_root_procedure}
use elunic_myturck.Maintenance.Procedures.{all_procedures, get_current, get_procedure}
use elunic_myturck.Maintenance.Procedures.Deletion.{
  FileService, is_derivative, is_own, remove_doc_links, delete_procedure,
}

module _ {ℓ} {A : Type ℓ} (id : A → String) where
  others_differ :
      (a : String) (xs : List A)
      → member a (map id xs) ≡ false
      → All (λ y. str_eq a (id y) ≡ false) xs
  others_differ a [] h = tt
  others_differ a (x ∷ xs) h =
      (ground (arith, eq_iff a (id x), eq_iff (id x) a), others_differ a xs (ground arith))

  later_rows :
      (d : A → Bool) (x : A) (kept ys : List A)
      → All (λ y. member (id y) (map id kept) ≡ d y) ys
      → All (λ y. str_eq (id x) (id y) ≡ false) ys
      → All (λ y. member (id y) (map id (if d x then x ∷ kept else kept)) ≡ d y) ys
  later_rows d x kept [] h k = tt
  later_rows d x kept (y ∷ ys) h k = (ground arith, later_rows d x kept ys h.1 k.1)

  -- Where no id stands twice, the ids of the selected rows select these rows.
  member-filter :
      (d : A → Bool) (xs : List A)
      → distinct (map id xs) ≡ true
      → All (λ x. member (id x) (map id (filter d xs)) ≡ d x) xs
  member-filter d [] h = tt
  member-filter d (x ∷ xs) h =
      let fresh : member (id x) (map id xs) ≡ false = ground arith in
      (
        ground (arith, str_eq_self (id x), member-filter_absent id d (id x) xs),
        later_rows d x (filter d xs) xs (member-filter d xs (ground arith))
            (others_differ (id x) xs fresh),
      )

  filter_ids :
      (root : String) (d : A → Bool) (xs : List A) (ids : List String)
      → All (λ x. member (id x) ids ≡ d x) xs
      → filter (λ x. not (member (id x) (root ∷ ids))) xs
        ≡ filter (λ x. not (str_eq (id x) root || d x)) xs
  filter_ids root d [] ids h = refl
  filter_ids root d (x ∷ xs) ids h =
      ground (arith, filter_ids root d xs ids h.1, eq_iff root (id x), eq_iff (id x) root)

  any_of_ids :
      (root b : String) (d : A → Bool) (xs : List A)
      → member b (root ∷ map id (filter d xs)) ≡ false
      → any (λ x. (str_eq (id x) root || d x) && str_eq (id x) b) xs ≡ false
  any_of_ids root b d [] h = refl
  any_of_ids root b d (x ∷ xs) h =
      ground (arith, any_of_ids root b d xs, eq_iff (id x) root, eq_iff (id x) b, eq_iff root b)

  map-map_where :
      (p : A → Bool) (f : A → A) (xs : List A)
      → ((x : A) → id (f x) ≡ id x)
      → map id (map_where p f xs) ≡ map id xs
  map-map_where p f [] h = refl
  map-map_where p f (x ∷ xs) h = ground (arith, map-map_where p f xs h, h x)

  not_found_by_id :
      (a : String) (t : A → Bool) (xs : List A)
      → ((x : A) → t x ≡ true → id x ≡ a)
      → member a (map id xs) ≡ false
      → find_or_fail t xs ≡ err entity_not_found
  not_found_by_id a t [] h k = refl
  not_found_by_id a t (x ∷ xs) h k = elim (Bool-cases (t x)) [
    | inl hit ↦ absurd (cc (h x hit, str_eq_self a, k))
    | inr miss ↦ rw miss (not_found_by_id a t xs h (ground arith))
  ]

  without_root :
      (root : String) (d : A → Bool) (xs : List A)
      → member root (map id (filter (λ x. not (str_eq (id x) root || d x)) xs)) ≡ false
  without_root root d [] = refl
  without_root root d (x ∷ xs) = ground (arith, without_root root d xs)

is_false : (b : Bool) → not b ≡ true → b ≡ false
is_false b h = ground arith

of_root :
    {c : Clock} (tenant id : String) (p : Procedure c)
    → is_root_procedure c tenant id p ≡ true
    → p.id ≡ id
of_root tenant id p h = (eq_iff p.id id).0 (ground arith)

module _ (files : FileService) (c : Clock) (r : Repositories c) where
  -- The procedure itself, and each version of it that the tenant has.
  abbrev pub is_family : String → String → Procedure c → Bool
  is_family tenant id p = str_eq p.id id || is_derivative files c r tenant id p

  abbrev family_ids : Auth → String → Store c r → List String
  family_ids auth id s =
      id
      ∷ map (λ p. p.id) (filter (is_derivative files c r auth.tenant_id id) (all_procedures c r s))

  delete_procedures-rows :
      (refuses : Bool) (ids : List String) (s s' : Store c r)
      → delete_procedures c r refuses ids s ≡ ok s'
      → (map (λ p. p.id) (all_procedures c r s')
          ≡ map (λ p. p.id) (filter (λ p. not (member p.id ids)) (all_procedures c r s)))
        × (r.assignments.rows s'.assignments
            ≡ filter (λ a. not (member a.procedure_id ids)) (r.assignments.rows s.assignments))
  unfolding delete_procedures delete_assignments
  delete_procedures-rows refuses ids s s' h =
      let (_, done_) = guard-eq-ok _ internal_error _ h in
      let out = sym (ok-injective done_) in
      (
        ap (λ t. map (λ p. p.id) (r.procedures.rows t.procedures)) out
            ∙ ap (map (λ p. p.id))
                (r.procedures.rows-update (λ p. refers_to c ids p.root) (clear_root c) _)
            ∙ map-map_where (λ p. p.id) (λ p. refers_to c ids p.root) (clear_root c) _ (λ p. refl)
            ∙ ap (map (λ p. p.id)) (r.procedures.rows-delete (λ p. member p.id ids) s.procedures),
        ap (λ t. r.assignments.rows t.assignments) out
            ∙ r.assignments.rows-delete (λ a. member a.procedure_id ids) s.assignments,
      )

  root_id :
      (auth : Auth) (id : String) (s : Store c r) {v : Procedure c × Option (Procedure c)}
      → get_current c r auth id s ≡ ok v
      → v.0.id ≡ id
  unfolding get_current
  root_id auth id s {v} h =
      let (root, found, out) =
        >>=-eq-ok (find_or_fail (is_root_procedure c auth.tenant_id id) (all_procedures c r s)) _
          h in
      ap (λ q. q.0.id) (sym (ok-injective out))
      ∙ of_root auth.tenant_id id root
          (find_or_fail-holds (is_root_procedure c auth.tenant_id id) (all_procedures c r s) found)

  -- A deletion that succeeds has deleted the rows of the ids of the family.
  deleted :
      (refuses : Bool) (auth : Auth) (id : String) (s s' : Store c r) (st st' : files.State)
      → delete_procedure files c r refuses auth id s st ≡ ok (s', st')
      → delete_procedures c r refuses (family_ids auth id s) s ≡ ok s'
  unfolding delete_procedure
  deleted refuses auth id s s' st st' h =
      let (v, current, h1) = >>=-eq-ok (get_current c r auth id s) _ h in
      let (entity, _, h2) =
        >>=-eq-ok (find_or_fail (is_own files c r auth.tenant_id v.0.id) (all_procedures c r s)) _
          h1 in
      let (unlinked, _, h3) = >>=-eq-ok (remove_doc_links files _ st) _ h2 in
      let (rest, gone, h4) =
        >>=-eq-ok (delete_procedures c r refuses (family_ids auth v.0.id s) s) _ h3 in
      subst (λ i. delete_procedures c r refuses (family_ids auth i s) s ≡ ok s')
        (root_id auth id s current) (gone ∙ ap (λ q. ok q.0) (ok-injective h4))

  left :
      (auth : Auth) (id : String) (s : Store c r) (xs : List (Assignment c))
      → All
          (λ a.
            not (member a.procedure_id (family_ids auth id s)) ≡ true
            → any
                (λ p. is_family auth.tenant_id id p && str_eq p.id a.procedure_id)
                (all_procedures c r s)
              ≡ false)
          xs
  left auth id s [] = tt
  left auth id s (a ∷ xs) = (
    λ h.
        any_of_ids (λ p. p.id) id a.procedure_id (is_derivative files c r auth.tenant_id id)
          (all_procedures c r s) (is_false _ h),
    left auth id s xs,
  )

  -- A deletion that succeeds deletes the procedure with all its versions, and no other procedure; the procedure is not
  -- found after it, and no assignment is left that is one to the procedure or a version of it. The ids of the procedures
  -- are distinct.
  pub delete_procedure-family :
      (refuses : Bool) (auth : Auth) (id : String) (s s' : Store c r) (st st' : files.State)
      → distinct (map (λ p. p.id) (all_procedures c r s)) ≡ true
      → delete_procedure files c r refuses auth id s st ≡ ok (s', st')
      → (map (λ p. p.id) (all_procedures c r s')
          ≡ map
              (λ p. p.id)
              (filter (λ p. not (is_family auth.tenant_id id p)) (all_procedures c r s)))
        × (get_procedure c r auth id s' ≡ err entity_not_found)
        × All
            (λ a.
              any
                (λ p. is_family auth.tenant_id id p && str_eq p.id a.procedure_id)
                (all_procedures c r s)
              ≡ false)
            (r.assignments.rows s'.assignments)
  unfolding get_procedure get_current
  delete_procedure-family refuses auth id s s' st st' d h =
      let derived = is_derivative files c r auth.tenant_id id in
      let (rows, assigned) =
        delete_procedures-rows refuses (family_ids auth id s) s s'
          (deleted refuses auth id s s' st st' h) in
      let kept =
        rows
        ∙ ap (map (λ p. p.id)) (
            filter_ids (λ p. p.id) id derived (all_procedures c r s) _
              (member-filter (λ p. p.id) derived (all_procedures c r s) d)) in
      let missing : find_or_fail (is_root_procedure c auth.tenant_id id) (all_procedures c r s')
          ≡ err entity_not_found =
        not_found_by_id (λ p. p.id) id (is_root_procedure c auth.tenant_id id)
          (all_procedures c r s') (λ p. of_root auth.tenant_id id p)
          (ap (member id) kept ∙ without_root (λ p. p.id) id derived (all_procedures c r s)) in
      (
        kept,
        rw missing refl,
        subst (All _) (sym assigned)
            (All-filter _ _ (r.assignments.rows s.assignments) (left auth id s _)),
      )
