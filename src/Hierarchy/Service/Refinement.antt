-- ===== src/Hierarchy/Service/Refinement.antt =====
-- The service with its cache answers like one without.
mod Tests
use elunic_myturck.Base.{
  ◌≡◌, refl, sym, ap, ◌∙◌, Bool, true, not, Option, none, some, List, [], ◌∷◌, all, arith, String,
  str_eq, eq_iff, ◌&&◌, ◌||◌, if◌then◌else◌, Bool-cases, Option-cases, inl, inr,
}
use mathlib.Core.Path.{subst}
use elunic_myturck.Base.Repository.{Repository}
use elunic_myturck.Base.Results.{Result, ok, err, ◌>>=◌, Result-cases}
use elunic_myturck.Hierarchy.{Forest}
use elunic_myturck.Hierarchy.Service.{
  HierarchyEntity, or_null, get_cached, State, fetch_asset_tree, clear_cache, get_asset_tree,
  save_parent, set_asset_child_of,
}
use elunic_myturck.Hierarchy.Service.Allowing.{allowed, set_asset_child_of-allowed}
use elunic_myturck.Hierarchy.Service.Caching.{get_cached-deleted, kept, read-hit, read-miss}
use elunic_myturck.Hierarchy.Service.Saving.{save_parent-other}

-- A request of a tenant: to read the tree from the cache, or to move an asset.
pub data Request : Type 0 where
  read : (tenant : String) → Request
  move : (tenant id : String) (parent : Option String) → Request

module _ {A : Type 0} (r : Repository HierarchyEntity)
    (order_by : List HierarchyEntity → List HierarchyEntity)
    (assets_of : List String → List (String × A)) where
  -- A request and those after it, with and without the cache; a request that throws changes nothing. A move
  -- answers with nothing, here as none.
  abbrev pub Answer : Type 0
  Answer = Result (Option (Forest A))

  abbrev pub serve_read :
      Result (Forest A × State r order_by assets_of)
      → State r order_by assets_of
      → Answer × State r order_by assets_of
  serve_read (ok (tree, st')) st = (ok (some tree), st')
  serve_read (err e) st = (err e, st)

  abbrev pub serve_move :
      Result (State r order_by assets_of)
      → State r order_by assets_of
      → Answer × State r order_by assets_of
  serve_move (ok st') st = (ok none, st')
  serve_move (err e) st = (err e, st)

  abbrev pub serve : Request → State r order_by assets_of → Answer × State r order_by assets_of
  serve (read tenant) st = serve_read (get_asset_tree r order_by assets_of tenant true st) st
  serve (move tenant id parent) st =
      serve_move (set_asset_child_of r order_by assets_of tenant id parent st) st

  pub serve_all : List Request → State r order_by assets_of → List Answer
  serve_all [] st = []
  serve_all (q ∷ qs) st = (serve q st).0 ∷ serve_all qs (serve q st).1

  -- The specification: a table, from which each tree is built.
  abbrev pub spec_tree : Result (Forest A) → Answer
  spec_tree (ok tree) = ok (some tree)
  spec_tree (err e) = err e

  abbrev pub spec_move : Result (Forest A) → r.Table → r.Table → Answer × r.Table
  spec_move (ok _) new t = (ok none, new)
  spec_move (err e) new t = (err e, t)

  abbrev pub spec : Request → r.Table → Answer × r.Table
  spec (read tenant) t = (spec_tree (fetch_asset_tree r order_by assets_of tenant t), t)
  spec (move tenant id parent) t =
      spec_move (allowed r order_by assets_of tenant id parent t)
        (save_parent r order_by assets_of tenant id (or_null parent) t) t

  pub spec_all : List Request → r.Table → List Answer
  spec_all [] t = []
  spec_all (q ∷ qs) t = (spec q t).0 ∷ spec_all qs (spec q t).1

  -- The id of a move is no row of another tenant, as the check of the assets before a transformation has it.
  abbrev pub owned : Request → r.Table → Bool
  owned (read tenant) t = true
  owned (move tenant id parent) t =
      all (λ h. not (str_eq h.id id) || str_eq h.tenant_id tenant) (r.rows t)

  pub all_owned : List Request → r.Table → Bool
  all_owned [] t = true
  all_owned (q ∷ qs) t = owned q t && all_owned qs (spec q t).1

  -- What is in the cache is what the table gives.
  pub Fresh : State r order_by assets_of → Type 0
  Fresh st =
      (tenant : String) (tree : Forest A)
      → get_cached tenant st.cache ≡ some tree
      → fetch_asset_tree r order_by assets_of tenant st.table ≡ ok tree

  moved-Fresh :
      (tenant id : String) (parent : Option String) (st : State r order_by assets_of)
      → Fresh st
      → all (λ h. not (str_eq h.id id) || str_eq h.tenant_id tenant) (r.rows st.table) ≡ true
      → Fresh (
          clear_cache r order_by assets_of (some tenant) (record st {
            table = save_parent r order_by assets_of tenant id (or_null parent) st.table;
          }))
  unfolding Fresh clear_cache
  moved-Fresh tenant id parent st fresh o other tree h =
      let (n, k) = get_cached-deleted tenant other st.cache tree h in
      save_parent-other r order_by assets_of tenant other id (or_null parent) st.table n o
      ∙ fresh other tree k

  -- What a reading has to give.
  abbrev Served :
      String → State r order_by assets_of → Result (Forest A × State r order_by assets_of) → Type 0
  Served tenant st given =
      ((serve_read given st).0 ≡ spec_tree (fetch_asset_tree r order_by assets_of tenant st.table))
      × (((serve_read given st).1.table ≡ st.table) × Fresh (serve_read given st).1)

  kept-Fresh :
      (tenant : String) (tree : Forest A) (st : State r order_by assets_of)
      → Fresh st
      → fetch_asset_tree r order_by assets_of tenant st.table ≡ ok tree
      → Fresh (kept r order_by assets_of tenant tree st)
  unfolding Fresh kept get_cached
  kept-Fresh tenant tree st fresh f other found h = elim (Bool-cases (str_eq tenant other)) [
    | inl same ↦
        let e : tenant ≡ other = (eq_iff tenant other).0 same in
        let found_some : some tree ≡ some found =
          ap (λ b. if b then some tree else get_cached other st.cache) (sym same) ∙ h in
        let found_tree : tree ≡ found = cc found_some in
        subst (λ k. fetch_asset_tree r order_by assets_of k st.table ≡ ok found) e
          (f ∙ ap ok found_tree)
    | inr differs ↦
        fresh other found
          (ap (λ b. if b then some tree else get_cached other st.cache) (sym differs) ∙ h)
  ]

  read-Fresh :
      (tenant : String) (st : State r order_by assets_of)
      → Fresh st
      → Served tenant st (get_asset_tree r order_by assets_of tenant true st)
  unfolding kept Fresh
  read-Fresh tenant st fresh = elim (Option-cases (get_cached tenant st.cache)) [
    | inr (tree, hit) ↦
        subst (Served tenant st) (sym (read-hit r order_by assets_of tenant tree st hit))
          (ap spec_tree (sym (fresh tenant tree hit)), (refl, fresh))
    | inl miss ↦
        subst (Served tenant st) (sym (read-miss r order_by assets_of tenant st miss))
          (elim (Result-cases (fetch_asset_tree r order_by assets_of tenant st.table)) [
            | inl (tree, f) ↦
                subst
                  (λ found.
                    Served tenant st
                      (found >>= λ tree. ok (tree, kept r order_by assets_of tenant tree st)))
                  (sym f) (ap spec_tree (sym f), (refl, kept-Fresh tenant tree st fresh f))
            | inr (e, f) ↦
                subst
                  (λ found.
                    Served tenant st
                      (found >>= λ tree. ok (tree, kept r order_by assets_of tenant tree st)))
                  (sym f) (ap spec_tree (sym f), (refl, fresh))
          ])
  ]

  -- What a move leaves when it succeeds.
  after_move :
      String → String → Option String → State r order_by assets_of → State r order_by assets_of
  after_move tenant id parent st =
      clear_cache r order_by assets_of (some tenant)
        (record st { table = save_parent r order_by assets_of tenant id (or_null parent) st.table })

  -- A move serves and leaves what the specification does.
  abbrev Moves :
      String
      → String
      → Option String
      → State r order_by assets_of
      → Result (State r order_by assets_of)
      → Result (Forest A)
      → Type 0
  Moves tenant id parent st given specified =
      ((serve_move given st).0
        ≡ (spec_move specified
            (save_parent r order_by assets_of tenant id (or_null parent) st.table) st.table).0)
      × (((serve_move given st).1.table
            ≡ (spec_move specified
                (save_parent r order_by assets_of tenant id (or_null parent) st.table) st.table).1)
          × Fresh (serve_move given st).1)

  move-Fresh :
      (tenant id : String) (parent : Option String) (st : State r order_by assets_of)
      → Fresh st
      → owned (move tenant id parent) st.table ≡ true
      → Moves tenant id parent st
          (set_asset_child_of r order_by assets_of tenant id parent st)
          (allowed r order_by assets_of tenant id parent st.table)
  unfolding after_move clear_cache
  move-Fresh tenant id parent st fresh o =
      subst
        (λ given.
          Moves tenant id parent st given (allowed r order_by assets_of tenant id parent st.table))
        (sym (set_asset_child_of-allowed r order_by assets_of tenant id parent st))
        (by_result (allowed r order_by assets_of tenant id parent st.table))
    where
      by_result :
          (a : Result (Forest A))
          → Moves tenant id parent st (a >>= λ _. ok (after_move tenant id parent st)) a
      by_result (ok _) = (refl, (refl, moved-Fresh tenant id parent st fresh o))
      by_result (err _) = (refl, (refl, fresh))

  request-Fresh :
      (q : Request) (st : State r order_by assets_of)
      → Fresh st
      → owned q st.table ≡ true
      → ((serve q st).0 ≡ (spec q st.table).0)
        × (((serve q st).1.table ≡ (spec q st.table).1) × Fresh (serve q st).1)
  request-Fresh (read tenant) st fresh o = read-Fresh tenant st fresh
  request-Fresh (move tenant id parent) st fresh o = move-Fresh tenant id parent st fresh o

  -- However tenants read their trees and move assets, one request after the other, each answer of the service,
  -- which reads trees from its cache, is the one that is built anew from the table, and a refused move is refused
  -- alike. Each request is served to its end, the transaction of a move included, before the next one starts. At
  -- the start the cache holds only trees that the table gives, and no move names the id of a row of another tenant.
  pub serve_all-eq :
      (qs : List Request) (st : State r order_by assets_of)
      → Fresh st
      → all_owned qs st.table ≡ true
      → serve_all qs st ≡ spec_all qs st.table
  unfolding serve_all spec_all all_owned
  serve_all-eq [] st fresh o = refl
  serve_all-eq (q ∷ qs) st fresh o =
      let own : owned q st.table ≡ true = ground arith in
      let later : all_owned qs (spec q st.table).1 ≡ true = ground arith in
      let (answered, (same, fresh')) = request-Fresh q st fresh own in
      let rest = serve_all-eq qs (serve q st).1 fresh' (ap (all_owned qs) same ∙ later) in
      ap (λ a. a ∷ serve_all qs (serve q st).1) answered
      ∙ ap (λ answers. (spec q st.table).0 ∷ answers) (rest ∙ ap (spec_all qs) same)
