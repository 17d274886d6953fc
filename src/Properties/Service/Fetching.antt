-- ===== src/Properties/Service/Fetching.antt =====
-- Fetching the properties of an asset adds the overwrites that are missing, once.
use elunic_myturck.Base.{
  All, all, All-map, ℕ, suc, ◌≡◌, refl, sym, ap, ◌∙◌, Bool, true, false, not, List, [], ◌∷◌, ◌++◌,
  any, none, Option, String, str_eq, eq_iff, ◌&&◌, ◌||◌, arith, if◌then◌else◌, Bool-cases, inl, inr,
}
use mathlib.Core.Path.{subst}
use elunic_myturck.Base.Names.{str_eq_self}
use elunic_myturck.Base.Results.{Result, ok, err, internal_error, ◌>>=◌, >>=-eq-ok}
use elunic_myturck.Substitution.{PropertyType}
use elunic_myturck.Overlay.{United}
use elunic_myturck.Properties.{
  DefinitionEntity, ValueEntity, is_none, is_of_asset, values_of, no_values, join, Tables, Store,
}
use elunic_myturck.Properties.Service.{
  after, united_rows, blank_overwrite, all_definitions, all_values, set_values, value_for,
  asked_for, add_missing, get_properties_by_asset_id,
}

skip_self :
    (f : String → Bool) (a b : String) (rest : Bool)
    → f a ≡ true
    → (f b || (str_eq a b || rest)) ≡ true
    → (f b || rest) ≡ true
skip_self f a b rest h c = elim (Bool-cases (str_eq a b)) [
  | inl same ↦
      let e : a ≡ b = (eq_iff a b).0 same in
      subst (λ i. (f i || rest) ≡ true) e (ap (λ x. x || rest) h)
  | inr other ↦ ap (λ x. f b || (x || rest)) (sym other) ∙ c
]

regroup : (a b c : Bool) → (a || (b || c)) ≡ true → ((a || b) || c) ≡ true
regroup a b c h = ground arith

all_implied :
    {A : Type 0} (p q : A → Bool) (xs : List A)
    → All (λ x. p x ≡ true → q x ≡ true) xs
    → all (λ x. not (p x) || q x) xs ≡ true
all_implied p q [] h = refl
all_implied p q (x ∷ xs) h = ground (arith, h.0, all_implied p q xs h.1)

module _ {V : Type 0} where
  abbrev has_overwrite : String → List (ValueEntity V) → Bool
  has_overwrite asset vs = any (λ v. is_of_asset asset v.asset_id) vs

  no_values-snoc :
      (q : ValueEntity V → Bool) (vs : List (ValueEntity V)) (v : ValueEntity V) (id : String)
      → no_values (values_of q (vs ++ v ∷ []) id)
        ≡ (no_values (values_of q vs id) && not (str_eq v.definition_id id && q v))
  no_values-snoc q [] v id = ground arith
  no_values-snoc q (w ∷ ws) v id = ground (arith, no_values-snoc q ws v id)

  has_overwrite-snoc :
      (asset : String) (q : ValueEntity V → Bool) (vs : List (ValueEntity V)) (v : ValueEntity V)
      (id : String)
      → has_overwrite asset (values_of q (vs ++ v ∷ []) id) ≡ (
          has_overwrite asset (values_of q vs id)
          || ((str_eq v.definition_id id && q v) && is_of_asset asset v.asset_id))
  has_overwrite-snoc asset q [] v id = ground arith
  has_overwrite-snoc asset q (w ∷ ws) v id = ground (arith, has_overwrite-snoc asset q ws v id)

module _ {V N : Type 0} (r : Tables V N) (tenant asset : String) where
  abbrev mine : List (ValueEntity V) → String → List (ValueEntity V)
  mine vs id = values_of (value_for r tenant asset) vs id

  -- Whatever values of a definition the query finds, one of them is the overwrite.
  abbrev pub complete : List (ValueEntity V) → String → Bool
  complete vs id = no_values (mine vs id) || has_overwrite asset (mine vs id)

  abbrev blank : String → String → ValueEntity V
  blank new id = blank_overwrite new tenant asset id

  blank_found : (new d : String) → value_for r tenant asset (blank new d) ≡ true
  blank_found new d = rw (str_eq_self tenant) (rw (str_eq_self asset) refl)

  complete-blank :
      (vs : List (ValueEntity V)) (new d id : String)
      → complete (vs ++ blank new d ∷ []) id ≡ (complete vs id || str_eq d id)
  complete-blank vs new d id = ground (
    arith,
    no_values-snoc (value_for r tenant asset) vs (blank new d) id,
    has_overwrite-snoc asset (value_for r tenant asset) vs (blank new d) id,
    blank_found new d,
    str_eq_self asset,
  )

  abbrev Entry : Type 0
  Entry = DefinitionEntity N × List (ValueEntity V)

  abbrev Added : Type 0
  Added = Store r × Result (List Entry)

  abbrev stored : Store r → List (ValueEntity V)
  stored s = all_values r s

  abbrev add : (ℕ → String) → ℕ → List Entry → Store r → Added
  add ids k ds s = add_missing r ids k tenant asset ds s

  abbrev inserted : String → String → Store r → Store r
  inserted new d s = set_values r (r.values.insert (blank new d) s.values) s

  add-kept :
      (ids : ℕ → String) (k : ℕ) (d : DefinitionEntity N) (vs : List (ValueEntity V))
      (ds : List Entry) (s : Store r)
      → any (λ v. is_none v.asset_id) vs ≡ true
      → has_overwrite asset vs ≡ true
      → add ids k ((d, vs) ∷ ds) s
        ≡ ((add ids k ds s).0, (add ids k ds s).1 >>= λ rest. ok ((d, vs) ∷ rest))
  unfolding add_missing
  add-kept ids k d vs ds s own has = rw (own, has) refl

  add-added :
      (ids : ℕ → String) (k : ℕ) (d : DefinitionEntity N) (vs : List (ValueEntity V))
      (ds : List Entry) (s : Store r)
      → any (λ v. is_none v.asset_id) vs ≡ true
      → has_overwrite asset vs ≡ false
      → add ids k ((d, vs) ∷ ds) s ≡ (
        (add ids (suc k) ds (inserted (ids k) d.id s)).0,
        (add ids (suc k) ds (inserted (ids k) d.id s)).1 >>= λ rest.
            ok ((d, vs ++ record (blank (ids k) d.id) { asset_id = none } ∷ []) ∷ rest),
      )
  unfolding add_missing
  add-added ids k d vs ds s own has = rw (own, has) refl

  add-failed :
      (ids : ℕ → String) (k : ℕ) (d : DefinitionEntity N) (vs : List (ValueEntity V))
      (ds : List Entry) (s : Store r)
      → any (λ v. is_none v.asset_id) vs ≡ false
      → add ids k ((d, vs) ∷ ds) s ≡ (s, err internal_error)
  unfolding add_missing
  add-failed ids k d vs ds s none_own = rw none_own refl

  -- An entry with an overwrite is one whose definition is complete.
  abbrev Sound : Store r → List Entry → Type 0
  Sound s ds = All (λ e. has_overwrite asset e.1 ≡ true → complete (stored s) e.0.id ≡ true) ds

  -- What the loop keeps and reaches, for a property of the store.
  inserted-complete :
      (new d id : String) (s : Store r)
      → complete (stored (inserted new d s)) id ≡ (complete (stored s) id || str_eq d id)
  inserted-complete new d id s =
      ap (λ vs. complete vs id) (r.values.rows-insert (blank new d) s.values)
      ∙ complete-blank (stored s) new d id

  Sound-inserted :
      (new d : String) (s : Store r) (ds : List Entry) → Sound s ds → Sound (inserted new d s) ds
  Sound-inserted new d s [] h = tt
  Sound-inserted new d s (e ∷ ds) h = (
    λ has. inserted-complete new d e.0.id s ∙ ap (λ b. b || str_eq d e.0.id) (h.0 has),
    Sound-inserted new d s ds h.1,
  )

  add-definitions :
      (ids : ℕ → String) (k : ℕ) (ds : List Entry) (s : Store r)
      → (add ids k ds s).0.definitions ≡ s.definitions
  unfolding add_missing
  add-definitions ids k [] s = refl
  add-definitions ids k ((d, vs) ∷ ds) s = elim (Bool-cases (any (λ v. is_none v.asset_id) vs)) [
    | inr no_own ↦ ap (λ t. t.0.definitions) (add-failed ids k d vs ds s no_own)
    | inl own ↦ elim (Bool-cases (has_overwrite asset vs)) [
      | inl has ↦
          ap (λ t. t.0.definitions) (add-kept ids k d vs ds s own has) ∙ add-definitions ids k ds s
      | inr missing ↦
          ap (λ t. t.0.definitions) (add-added ids k d vs ds s own missing)
          ∙ add-definitions ids (suc k) ds _
    ]
  ]

  -- A loop that returns leaves complete what was complete, and the definitions it went through.
  add-complete :
      (ids : ℕ → String) (k : ℕ) (ds : List Entry) (s : Store r) (rows : List Entry) (id : String)
      → Sound s ds
      → (add ids k ds s).1 ≡ ok rows
      → (complete (stored s) id || any (λ e. str_eq e.0.id id) ds) ≡ true
      → complete (stored (add ids k ds s).0) id ≡ true
  unfolding add_missing
  add-complete ids k [] s rows id sound h c = ground (arith, c)
  add-complete ids k ((d, vs) ∷ ds) s rows id sound h c =
      elim (Bool-cases (any (λ v. is_none v.asset_id) vs)) [
        | inr no_own ↦ absurd (cc (h, ap (λ t. t.1) (add-failed ids k d vs ds s no_own)))
        | inl own ↦ elim (Bool-cases (has_overwrite asset vs)) [
          | inl has ↦
              let e = add-kept ids k d vs ds s own has in
              let (rest, run, _) = >>=-eq-ok (add ids k ds s).1 _ (sym (ap (λ t. t.1) e) ∙ h) in
              ap (λ t. complete (stored t.0) id) e
              ∙ add-complete ids k ds s rest id sound.1 run (
                  skip_self (λ i. complete (stored s) i) d.id id (any (λ e. str_eq e.0.id id) ds)
                    (sound.0 has) c)
          | inr missing ↦
              let e = add-added ids k d vs ds s own missing in
              let (rest, run, _) =
                >>=-eq-ok (add ids (suc k) ds (inserted (ids k) d.id s)).1 _
                  (sym (ap (λ t. t.1) e) ∙ h) in
              ap (λ t. complete (stored t.0) id) e
              ∙ add-complete ids (suc k) ds (inserted (ids k) d.id s) rest id
                  (Sound-inserted (ids k) d.id s ds sound.1) run
                  (ap (λ b. b || any (λ e. str_eq e.0.id id) ds)
                      (inserted-complete (ids k) d.id id s)
                    ∙ regroup (complete (stored s) id) (str_eq d.id id)
                        (any (λ e. str_eq e.0.id id) ds) c)
        ]
      ]

  join-cons {κ} :
      (P : List Entry → Type κ) (p : DefinitionEntity N → Bool) (d : DefinitionEntity N)
      (ds : List (DefinitionEntity N)) (vs : List (ValueEntity V))
      → ((p d && not (no_values (mine vs d.id))) ≡ true
          → P ((d, mine vs d.id) ∷ join p (value_for r tenant asset) ds vs))
      → ((p d && not (no_values (mine vs d.id))) ≡ false
          → P (join p (value_for r tenant asset) ds vs))
      → P (join p (value_for r tenant asset) (d ∷ ds) vs)
  unfolding join
  join-cons P p d ds vs taken left = elim (Bool-cases (p d && not (no_values (mine vs d.id)))) [
    | inl hit ↦
        subst
          (λ b. P (
            if b
            then (d, mine vs d.id) ∷ join p (value_for r tenant asset) ds vs
            else join p (value_for r tenant asset) ds vs))
          (sym hit) (taken hit)
    | inr miss ↦
        subst
          (λ b. P (
            if b
            then (d, mine vs d.id) ∷ join p (value_for r tenant asset) ds vs
            else join p (value_for r tenant asset) ds vs))
          (sym miss) (left miss)
  ]

  join-Sound :
      (p : DefinitionEntity N → Bool) (ds : List (DefinitionEntity N)) (s : Store r)
      → Sound s (join p (value_for r tenant asset) ds (stored s))
  unfolding join
  join-Sound p [] s = tt
  join-Sound p (d ∷ ds) s =
      join-cons (Sound s) p d ds (stored s) (λ hit. (λ has. ground (arith, has), join-Sound p ds s))
        (λ miss. join-Sound p ds s)

  abbrev Covered :
      (DefinitionEntity N → Bool) → List (ValueEntity V) → List Entry → DefinitionEntity N → Type 0
  Covered p vs es x = p x ≡ true → (complete vs x.id || any (λ e. str_eq e.0.id x.id) es) ≡ true

  Covered-more :
      (p : DefinitionEntity N → Bool) (vs : List (ValueEntity V)) (e : Entry) (es : List Entry)
      (xs : List (DefinitionEntity N))
      → All (Covered p vs es) xs
      → All (Covered p vs (e ∷ es)) xs
  Covered-more p vs e es [] h = tt
  Covered-more p vs e es (x ∷ xs) h =
      (λ q. more_ (complete vs x.id) (str_eq e.0.id x.id) _ (h.0 q), Covered-more p vs e es xs h.1)
    where
      more_ : (a b c : Bool) → (a || c) ≡ true → (a || (b || c)) ≡ true
      more_ a b c h = ground arith

  -- Each definition that the query asks for is complete, or in the rows of the query.
  join-covers :
      (p : DefinitionEntity N → Bool) (ds : List (DefinitionEntity N)) (vs : List (ValueEntity V))
      → All (Covered p vs (join p (value_for r tenant asset) ds vs)) ds
  join-covers p [] vs = tt
  join-covers p (d ∷ ds) vs =
      let rest = join p (value_for r tenant asset) ds vs in
      join-cons (λ es. All (Covered p vs es) (d ∷ ds)) p d ds vs
        (λ hit. (
          λ q. or_self (complete vs d.id) _ (str_eq_self d.id),
          Covered-more p vs (d, mine vs d.id) rest ds (join-covers p ds vs),
        ))
        (λ miss. (λ q. empty_ (p d) (no_values (mine vs d.id)) _ _ q miss, join-covers p ds vs))
    where
      or_self : (a : Bool) {b : Bool} (c : Bool) → b ≡ true → (a || (b || c)) ≡ true
      or_self a c h = ground arith

      empty_ : (p n h c : Bool) → p ≡ true → (p && not n) ≡ false → ((n || h) || c) ≡ true
      empty_ p n h c q miss = ground arith

  -- Nothing is missing in the rows of a query whose definitions are complete.
  join-full :
      (p : DefinitionEntity N → Bool) (ds : List (DefinitionEntity N)) (vs : List (ValueEntity V))
      → All (λ d. p d ≡ true → complete vs d.id ≡ true) ds
      → All (λ e. has_overwrite asset e.1 ≡ true) (join p (value_for r tenant asset) ds vs)
  unfolding join
  join-full p [] vs h = tt
  join-full p (d ∷ ds) vs h =
      join-cons (All (λ e. has_overwrite asset e.1 ≡ true)) p d ds vs
        (λ hit. (full_ (p d) (no_values (mine vs d.id)) _ hit (h.0), join-full p ds vs h.1))
        (λ miss. join-full p ds vs h.1)
    where
      full_ : (p n o : Bool) → (p && not n) ≡ true → (p ≡ true → (n || o) ≡ true) → o ≡ true
      full_ p n o h k = ground (arith, k)

  add-full :
      (ids : ℕ → String) (k : ℕ) (es : List Entry) (s : Store r)
      → All (λ e. has_overwrite asset e.1 ≡ true) es
      → (add ids k es s).0 ≡ s
  unfolding add_missing
  add-full ids k [] s h = refl
  add-full ids k ((d, vs) ∷ es) s h = elim (Bool-cases (any (λ v. is_none v.asset_id) vs)) [
    | inr no_own ↦ ap (λ t. t.0) (add-failed ids k d vs es s no_own)
    | inl own ↦ ap (λ t. t.0) (add-kept ids k d vs es s own h.0) ∙ add-full ids k es s h.1
  ]

  -- The loop over the rows of a query gives each definition that has a value the row of the asset.
  add-completes :
      (ids : ℕ → String) (k : ℕ) (p : DefinitionEntity N → Bool) (s : Store r) (rows : List Entry)
      → (add ids k (join p (value_for r tenant asset) (all_definitions r s) (stored s)) s).1
        ≡ ok rows
      → let s' =
          (add ids k (join p (value_for r tenant asset) (all_definitions r s) (stored s)) s).0 in
        All (λ d. p d ≡ true → complete (stored s') d.id ≡ true) (all_definitions r s')
  add-completes ids k p s rows h =
      let es = join p (value_for r tenant asset) (all_definitions r s) (stored s) in
      let s' = (add ids k es s).0 in
      subst (λ t. All (λ d. p d ≡ true → complete (stored s') d.id ≡ true) (r.definitions.rows t))
        (sym (add-definitions ids k es s))
        (All-map (all_definitions r s)
          (λ d covered q.
            add-complete ids k es s rows d.id (join-Sound p (all_definitions r s) s) h (covered q))
          (join-covers p (all_definitions r s) (stored s)))

  -- The loop, twice.
  add-again :
      (ids ids' : ℕ → String) (k l : ℕ) (p : DefinitionEntity N → Bool) (s : Store r)
      (rows : List Entry)
      → (add ids k (join p (value_for r tenant asset) (all_definitions r s) (stored s)) s).1
        ≡ ok rows
      → let s' =
          (add ids k (join p (value_for r tenant asset) (all_definitions r s) (stored s)) s).0 in
        ((add ids' l (join p (value_for r tenant asset) (all_definitions r s') (stored s')) s').0
          ≡ s')
        × (all (λ d. not (p d) || complete (stored s') d.id) (all_definitions r s') ≡ true)
  add-again ids ids' k l p s rows h =
      let es = join p (value_for r tenant asset) (all_definitions r s) (stored s) in
      let s' = (add ids k es s).0 in
      let completes = add-completes ids k p s rows h in
      (
        add-full ids' l (join p (value_for r tenant asset) (all_definitions r s') (stored s')) s'
            (join-full p (all_definitions r s') (stored s') completes),
        all_implied p (λ d. complete (stored s') d.id) (all_definitions r s') completes,
      )

  -- Where fetching the properties of an asset returned, each definition that was asked for and for which
  -- the query finds a value has the row of the asset by then, and fetching them a second time leaves
  -- everything as the first time did. The types and the filters are the same, and the types that a
  -- definition may come from are found.
  pub get_properties_by_asset_id-again :
      (ids ids' : ℕ → String) (type_id : String) (type_ids : List String)
      (inherited : String → Result (List String)) (key : Option String)
      (value_type : Option PropertyType) (s : Store r) {us : List (United V ℕ)}
      → inherited type_id ≡ ok type_ids
      → (get_properties_by_asset_id r ids tenant asset (ok type_id) inherited key value_type s).1
        ≡ ok us
      → let s' =
          (get_properties_by_asset_id r ids tenant asset
            (ok type_id)
            inherited
            key
            value_type
            s).0 in
        ((get_properties_by_asset_id r ids' tenant asset (ok type_id) inherited key value_type s').0
          ≡ s')
        × (all
              (λ d.
                not (asked_for r tenant type_ids key value_type d)
                || complete (all_values r s') d.id)
              (all_definitions r s')
            ≡ true)
  unfolding get_properties_by_asset_id
  get_properties_by_asset_id-again ids ids' type_id type_ids inherited key value_type s {us} e h =
      subst
        (λ t.
          (fetch ids t s).1 ≡ ok us
          → ((fetch ids' t (fetch ids t s).0).0 ≡ (fetch ids t s).0)
            × (all
                  (λ d.
                    not (asked_for r tenant type_ids key value_type d)
                    || complete (all_values r (fetch ids t s).0) d.id)
                  (all_definitions r (fetch ids t s).0)
                ≡ true))
        (sym e)
        (λ k.
          let p = asked_for r tenant type_ids key value_type in
          let (rows, run, _) =
            >>=-eq-ok
              (add ids 0 (join p (value_for r tenant asset) (all_definitions r s) (stored s)) s).1 _
              k in
          add-again ids ids' 0 0 p s rows run)
        h
    where
      fetch : (ℕ → String) → Result (List String) → Store r → Store r × Result (List (United V ℕ))
      fetch new types t = after t types (λ type_ids. united_rows r type_id (
          add_missing r new 0 tenant asset
            (join (asked_for r tenant type_ids key value_type) (value_for r tenant asset)
              (all_definitions r t) (all_values r t))
            t))
