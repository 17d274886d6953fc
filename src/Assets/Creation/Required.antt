-- ===== src/Assets/Creation/Required.antt =====
-- The required properties of a new asset.
use elunic_myturck.Base.{
  ℕ, ◌≡◌, refl, sym, ap, ◌∙◌, true, false, not, Option, none, some, List, [], ◌∷◌, ◌++◌, append-nil,
  append_assoc, All, map, filter, String, str_eq, eq_iff, ◌||◌, arith, if◌then◌else◌,
}
use mathlib.Core.Path.{subst}
use elunic_myturck.Base.Names.{member, distinct}
use elunic_myturck.Base.Results.{
  ok, bad_request, ◌>>=◌, guard, >>=-eq-ok, guard-eq-ok, ok-injective,
}
use elunic_myturck.Overlay.{United, is_some}
use elunic_myturck.Properties
use elunic_myturck.Properties.Service.{all_values}
use elunic_myturck.Properties.Service.Changes.{patch_by_asset}
use elunic_myturck.Properties.Service.Changes.Writing.{
  stored_value, stored_value-other, stored_value-overwritten, patch_by_asset-overwritten,
}
use elunic_myturck.Assets.{AssetTables, AssetStore}
use elunic_myturck.Assets.Service.{Calls}
use elunic_myturck.Assets.Creation.{
  or_empty, provided, is_missing, is_required, no_missing, put_entry, put_provided, for_create,
  value_dto, write_required, properties_of, handle_required_fields,
}

abbrev Entry : Type 0 → Type 0
Entry V = String × (V × String)

module _ {V : Type 0} where
  put_entry-new :
      (key : String) (e : V × String) (es : List (Entry V))
      → member key (map (λ x. x.0) es) ≡ false
      → put_entry key e es ≡ es ++ (key, e) ∷ []
  put_entry-new key e [] h = refl
  put_entry-new key e ((k, old) ∷ es) h = ground (arith, put_entry-new key e es)

  -- The entries where no key stands twice, in the order of the properties.
  abbrev entry_of : United V ℕ → Option V → List (Entry V) → List (Entry V)
  entry_of u none rest = rest
  entry_of u (some v) rest = (u.key, (v, or_empty u.id)) ∷ rest

  abbrev entries : List (String × V) → List (United V ℕ) → List (Entry V)
  entries ps [] = []
  entries ps (u ∷ us) = entry_of u (provided u.key ps) (entries ps us)

  -- No key of the properties is one of an entry.
  abbrev FreshKeys : List (Entry V) → List (United V ℕ) → Type 0
  FreshKeys es us = All (λ u. member u.key (map (λ x. x.0) es) ≡ false) us

  keys-snoc :
      (a key : String) (e : V × String) (es : List (Entry V))
      → member a (map (λ x. x.0) (es ++ (key, e) ∷ []))
        ≡ (member a (map (λ x. x.0) es) || str_eq key a)
  keys-snoc a key e [] = ground arith
  keys-snoc a key e ((k, old) ∷ es) = ground (arith, keys-snoc a key e es)

  FreshKeys-snoc :
      (key : String) (e : V × String) (es : List (Entry V)) (us : List (United V ℕ))
      → member key (map (λ u. u.key) us) ≡ false
      → FreshKeys es us
      → FreshKeys (es ++ (key, e) ∷ []) us
  FreshKeys-snoc key e es [] absent fresh = tt
  FreshKeys-snoc key e es (u ∷ us) absent fresh = (
    ground (arith, keys-snoc u.key key e es, fresh.0, eq_iff key u.key, eq_iff u.key key),
    FreshKeys-snoc key e es us (ground arith) fresh.1,
  )

  for_create-entries :
      (ps : List (String × V)) (us : List (United V ℕ)) (es : List (Entry V))
      → distinct (map (λ u. u.key) us) ≡ true
      → FreshKeys es us
      → for_create ps us es ≡ es ++ entries ps us
  unfolding for_create
  for_create-entries ps [] es d fresh = sym (append-nil es)
  for_create-entries ps (u ∷ us) es d fresh =
      by_provided (provided u.key ps) (for_create-entries ps us es (ground arith) fresh.1) (λ e.
        for_create-entries ps us (es ++ (u.key, e) ∷ []) (ground arith)
          (FreshKeys-snoc u.key e es us (ground arith) fresh.1))
    where
      by_provided :
          (o : Option V)
          → for_create ps us es ≡ es ++ entries ps us
          → ((e : V × String)
              → for_create ps us (es ++ (u.key, e) ∷ []) ≡ (es ++ (u.key, e) ∷ []) ++ entries ps us)
          → for_create ps us (put_provided u o es) ≡ es ++ entry_of u o (entries ps us)
      by_provided none left taken = left
      by_provided (some v) left taken =
          ap (for_create ps us) (put_entry-new u.key (v, or_empty u.id) es fresh.0)
          ∙ (taken (v, or_empty u.id)
              ∙ append_assoc es ((u.key, (v, or_empty u.id)) ∷ []) (entries ps us))

-- The rows of the entries.
abbrev entry_ids : {V : Type 0} → List (Entry V) → List String
entry_ids es = map (λ e. e.1.1) es

module _ {V : Type 0} (ps : List (String × V)) where
  -- Each required property is provided, and its row has the value.
  abbrev pub Given : (String → Option V) → United V ℕ → Type 0
  Given value u = (is_some (provided u.key ps) ≡ true) × (value (or_empty u.id) ≡ provided u.key ps)

  entries-ids :
      (us : List (United V ℕ))
      → no_missing (filter (is_missing ps) us) ≡ true
      → entry_ids (entries ps us) ≡ map (λ u. or_empty u.id) us
  entries-ids [] h = refl
  entries-ids (u ∷ us) h = by_provided (provided u.key ps) h (entries-ids us)
    where
      by_provided :
          (o : Option V)
          → no_missing
              (if not (is_some o) then u ∷ filter (is_missing ps) us else filter (is_missing ps) us)
            ≡ true
          → (no_missing (filter (is_missing ps) us) ≡ true
              → entry_ids (entries ps us) ≡ map (λ x. or_empty x.id) us)
          → entry_ids (entry_of u o (entries ps us)) ≡ or_empty u.id ∷ map (λ x. or_empty x.id) us
      by_provided none h rest = absurd (cc h)
      by_provided (some v) h rest = ap (λ is. or_empty u.id ∷ is) (rest h)

  entries-Given :
      (value : String → Option V) (us : List (United V ℕ))
      → no_missing (filter (is_missing ps) us) ≡ true
      → All (λ e. value e.1.1 ≡ some e.1.0) (entries ps us)
      → All (Given value) us
  entries-Given value [] h written_ = tt
  entries-Given value (u ∷ us) h written_ =
      by_provided (provided u.key ps) refl h written_ (entries-Given value us)
    where
      by_provided :
          (o : Option V)
          → provided u.key ps ≡ o
          → no_missing
              (if not (is_some o) then u ∷ filter (is_missing ps) us else filter (is_missing ps) us)
            ≡ true
          → All (λ e. value e.1.1 ≡ some e.1.0) (entry_of u o (entries ps us))
          → (no_missing (filter (is_missing ps) us) ≡ true
              → All (λ e. value e.1.1 ≡ some e.1.0) (entries ps us)
              → All (Given value) us)
          → Given value u × All (Given value) us
      by_provided none same h w rest = absurd (cc h)
      by_provided (some v) same h w rest = ((ap is_some same, w.0 ∙ sym same), rest h w.1)

module _ {V N : Type 0} (r : AssetTables V N) (c : Calls V N) where
  abbrev value_of : String → Properties.Store r.properties → Option V
  value_of id s = stored_value id (all_values r.properties s)

  -- One write.
  abbrev written :
      String → String → Entry V → Properties.Store r.properties → Properties.Store r.properties
  written tenant asset e s = (patch_by_asset r.properties tenant e.1.1 asset (value_dto e.1.0) s).0

  write_required-other :
      (tenant asset i : String) (es : List (Entry V)) (s s' : Properties.Store r.properties)
      → member i (entry_ids es) ≡ false
      → write_required r c tenant asset es s ≡ ok s'
      → value_of i s' ≡ value_of i s
  unfolding write_required
  write_required-other tenant asset i [] s s' absent h = ap (value_of i) (sym (ok-injective h))
  write_required-other tenant asset i ((key, (v, id)) ∷ es) s s' absent h =
      let (u, patched, h1) =
        >>=-eq-ok (patch_by_asset r.properties tenant id asset (value_dto v) s).1 _ h in
      let (_, rows) =
        patch_by_asset-overwritten r.properties tenant id asset (value_dto v) s patched in
      write_required-other tenant asset i es (written tenant asset (key, (v, id)) s) s'
        (ground arith) h1
      ∙ (ap (stored_value i) rows
          ∙ stored_value-other r.properties i id (value_dto v) (all_values r.properties s)
              (ground (arith, eq_iff i id, eq_iff id i)))

  -- Each entry is written to its own row.
  write_required-values :
      (tenant asset : String) (es : List (Entry V)) (s s' : Properties.Store r.properties)
      → distinct (entry_ids es) ≡ true
      → write_required r c tenant asset es s ≡ ok s'
      → All (λ e. value_of e.1.1 s' ≡ some e.1.0) es
  unfolding write_required
  write_required-values tenant asset [] s s' d h = tt
  write_required-values tenant asset ((key, (v, id)) ∷ es) s s' d h =
      let (u, patched, h1) =
        >>=-eq-ok (patch_by_asset r.properties tenant id asset (value_dto v) s).1 _ h in
      let (has, rows) =
        patch_by_asset-overwritten r.properties tenant id asset (value_dto v) s patched in
      (
        write_required-other tenant asset id es (written tenant asset (key, (v, id)) s) s'
              (ground arith) h1
            ∙ (ap (stored_value id) rows
                ∙ stored_value-overwritten r.properties id v (value_dto v)
                    (all_values r.properties s) refl has),
        write_required-values tenant asset es (written tenant asset (key, (v, id)) s) s'
            (ground arith) h1,
      )

  -- Where the required properties of a new asset are handled without an error, each of them is provided, and the row of the
  -- asset for it has the value that is provided for its key. No two of them have the same key or the same row.
  pub handle_required_fields-Given :
      (ids : ℕ → String) (tenant asset : String) (given : List (String × V)) (s s' : AssetStore r)
      (props : List (United V ℕ))
      → (properties_of r c ids tenant asset s).1 ≡ ok props
      → distinct (map (λ u. u.key) (filter is_required props)) ≡ true
      → distinct (map (λ u. or_empty u.id) (filter is_required props)) ≡ true
      → handle_required_fields r c ids tenant asset given s ≡ ok s'
      → All
          (Given given (λ id. stored_value id (all_values r.properties s'.properties)))
          (filter is_required props)
  unfolding handle_required_fields
  handle_required_fields-Given ids tenant asset given s s' props fetched keys rows h =
      let us = filter is_required props in
      let (props', fetched', h1) = >>=-eq-ok (properties_of r c ids tenant asset s).1 _ h in
      let same : props' ≡ props = ok-injective (sym fetched' ∙ fetched) in
      let h2 =
        subst
          (λ p.
            (guard (no_missing (filter (is_missing given) (filter is_required p))) bad_request
              >>= λ _.
                  write_required r c tenant asset (for_create given (filter is_required p) [])
                    (properties_of r c ids tenant asset s).0
                  >>= λ w. ok (record s { properties = w }))
            ≡ ok s')
          same h1 in
      let (complete, h3) =
        guard-eq-ok (no_missing (filter (is_missing given) us)) bad_request _ h2 in
      let (w, run, h4) =
        >>=-eq-ok
          (write_required r c tenant asset (for_create given us [])
            (properties_of r c ids tenant asset s).0)
          _ h3 in
      let run' : write_required r c tenant asset (entries given us)
            (properties_of r c ids tenant asset s).0
          ≡ ok w =
        ap (λ es. write_required r c tenant asset es (properties_of r c ids tenant asset s).0)
          (sym (for_create-entries given us [] keys (no_keys us)))
        ∙ run in
      let values =
        write_required-values tenant asset (entries given us) _ w
          (ap distinct (entries-ids given us complete) ∙ rows) run' in
      entries-Given given (λ id. value_of id s'.properties) us complete
        (subst (λ q. All (λ e. value_of e.1.1 q ≡ some e.1.0) (entries given us))
          (ap (λ t. t.properties) (ok-injective h4)) values)
    where
      no_keys : (us : List (United V ℕ)) → FreshKeys [] us
      no_keys [] = tt
      no_keys (u ∷ us) = (refl, no_keys us)
