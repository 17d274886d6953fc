-- ===== src/Maintenance/Executions/Paging.antt =====
-- Reading executions page by page: `getMany` of
-- maintenance-backend/src/maintenance-execution/maintenance-execution.service.ts and
-- maintenance-execution/dto/execution.dto.ts. `order_by` is the order of the database, the newest update first.
mod Tests
use elunic_myturck.Base.{
  ℕ, zero, suc, ◌+◌, ◌*◌, ◌-◌, ◌/◌, ◌%◌, ◌≤◌, ◌<◌, ◌≡◌, refl, sym, ap, ◌∙◌, Bool, true, false, not,
  Option, none, some, List, [], ◌∷◌, ◌++◌, String, str_eq, ◌&&◌, ◌||◌, filter, any, length, take,
  drop, arith,
}
use mathlib.Core.Path.{subst}
use elunic_myturck.Base.Names.{member}
use elunic_myturck.Base.Results.{Result, ok, err, internal_error, ◌>>=◌, >>=-eq-ok, ok-injective}
use elunic_myturck.Maintenance.{Clock, Repositories, Store, Execution, Assignment}
use elunic_myturck.Maintenance.Executions.{is_some, all_executions}
use native.Mathlib.Nat.{mul_comm}
use native.Mathlib.Omega.{div_fact, mod_fact}

-- `assetId` of the query: left out or empty, one id, or a list.
pub data AssetFilter : Type 0 where
  every_asset : AssetFilter
  one_asset : (id : String) → AssetFilter
  some_assets : (ids : List String) → AssetFilter

-- `FindExecutionsQuery`
pub record FindExecutionsQuery : Type 0 where
  pub asset_id : AssetFilter
  pub completed : Option Bool
  pub limit : ℕ
  pub page : ℕ

-- `ResponsePagingMeta`
pub record ResponsePagingMeta : Type 0 where
  pub page : ℕ
  pub page_count : ℕ
  pub total : ℕ
  pub count : ℕ

abbrev pub completed_matches {ℓ} : {X : Type ℓ} → Option Bool → Option X → Bool
completed_matches none at = true
completed_matches (some true) at = is_some at
completed_matches (some false) at = not (is_some at)

-- `Math.ceil(total / limit)`, for a limit that is not 0
abbrev pub ceil_div : ℕ → ℕ → ℕ
ceil_div total limit = (total + (limit - 1)) / limit

-- Page 0, which the schema of the query allows, gives a negative offset, which the database refuses.
abbrev pub page_of {ℓ} : {X : Type ℓ} → ℕ → ℕ → List X → Result (List X)
page_of zero limit rows = err internal_error
page_of (suc before) limit rows = ok (take limit (drop (before * limit) rows))

take-nil {ℓ} : {A : Type ℓ} (n : ℕ) → take {A = A} n [] ≡ []
take-nil zero = refl
take-nil (suc n) = refl

take-add {ℓ} :
    {A : Type ℓ} (n l : ℕ) (xs : List A) → take n xs ++ take l (drop n xs) ≡ take (n + l) xs
take-add zero l xs = let e : l ≡ 0 + l = omega arith in ap (λ m. take m xs) e
take-add (suc n) l [] = take-nil l ∙ sym (take-nil (suc n + l))
take-add (suc n) l (x ∷ xs) =
    let e : suc (n + l) ≡ suc n + l = omega arith in
    ap (λ rest. x ∷ rest) (take-add n l xs) ∙ ap (λ m. take m (x ∷ xs)) e

take-all {ℓ} : {A : Type ℓ} (n : ℕ) (xs : List A) → length xs ≤ n → take n xs ≡ xs
take-all zero [] h = refl
take-all zero (x ∷ xs) h = absurd (omega arith)
take-all (suc n) [] h = refl
take-all (suc n) (x ∷ xs) h = ap (λ rest. x ∷ rest) (take-all n xs (omega arith))

length-take {ℓ} : {A : Type ℓ} (n : ℕ) (xs : List A) → length (take n xs) ≤ n
length-take zero xs = omega arith
length-take (suc n) [] = omega arith
length-take (suc n) (x ∷ xs) = omega (arith, length-take n xs)

page_of-length {ℓ} :
    {A : Type ℓ} (p l : ℕ) (xs rows : List A) → page_of p l xs ≡ ok rows → length rows ≤ l
page_of-length zero l xs rows h = absurd (cc h)
page_of-length (suc before) l xs rows h =
    subst (λ found. length found ≤ l) (ok-injective h) (length-take l (drop (before * l) xs))

ceil_div-enough : (total k : ℕ) → total ≤ ceil_div total (suc k) * suc k
ceil_div-enough total k =
    let cover = div_fact (total + k) k in
    let below = mod_fact (total + k) k in
    let turned = mul_comm (ceil_div total (suc k)) (suc k) in omega arith

module _ (c : Clock) (r : Repositories c) (order_by : List (Execution c) → List (Execution c)) where
  open r use {assignments}

  -- The condition on the asset of the assignment.
  abbrev pub asset_selected : AssetFilter → Store c r → Execution c → Bool
  asset_selected every_asset s e = true
  asset_selected (one_asset id) s e =
      any (λ a. str_eq a.id e.assignment_id && str_eq a.asset_id id)
        (assignments.rows s.assignments)
  asset_selected (some_assets ids) s e =
      any (λ a. str_eq a.id e.assignment_id && member a.asset_id ids)
        (assignments.rows s.assignments)

  -- `where` of `getMany`
  abbrev pub matching : String → FindExecutionsQuery → Store c r → List (Execution c)
  matching tenant q s =
      filter
        (λ e.
          str_eq e.tenant_id tenant
          && (completed_matches q.completed e.completed_at && asset_selected q.asset_id s e))
        (all_executions c r s)

  pub get_many :
      String → FindExecutionsQuery → Store c r → Result (List (Execution c) × ResponsePagingMeta)
  get_many tenant q s = do
    result ← page_of q.page q.limit (order_by (matching tenant q s))
    ok (
      result,
      record {
        page = q.page;
        page_count = ceil_div (length (matching tenant q s)) q.limit;
        total = length (matching tenant q s);
        count = length result;
      },
    )

  -- The pages from 1 to a number, one after the other.
  pub pages : String → FindExecutionsQuery → Store c r → ℕ → Result (List (Execution c))
  pages tenant q s zero = ok []
  pages tenant q s (suc n) = do
    before ← pages tenant q s n
    answer ← get_many tenant (record q { page = suc n }) s
    ok (before ++ answer.0)

  pages-take :
      (tenant : String) (q : FindExecutionsQuery) (s : Store c r) (n : ℕ)
      → pages tenant q s n ≡ ok (take (n * q.limit) (order_by (matching tenant q s)))
  unfolding pages get_many
  pages-take tenant q s zero =
      let e : 0 ≡ 0 * q.limit = omega arith in
      ap (λ m. ok (take m (order_by (matching tenant q s)))) e
  pages-take tenant q s (suc n) =
      let e : n * q.limit + q.limit ≡ suc n * q.limit = omega arith in
      ap
        (λ pages_before. pages_before >>= λ before.
          get_many tenant (record q { page = suc n }) s >>= λ answer. ok (before ++ answer.0))
        (pages-take tenant q s n)
      ∙ ap ok (
          take-add (n * q.limit) q.limit (order_by (matching tenant q s))
          ∙ ap (λ m. take m (order_by (matching tenant q s))) e)

  -- A page that is found has no more rows than the limit, and the pages from 1 to its page count are together
  -- the executions that match the query, in the order of the database. The limit is not 0, and the order keeps the
  -- number of rows.
  pub get_many-pages :
      (tenant : String) (q : FindExecutionsQuery) (s : Store c r) (k : ℕ)
      (rows : List (Execution c)) (meta : ResponsePagingMeta)
      → ((xs : List (Execution c)) → length (order_by xs) ≡ length xs)
      → q.limit ≡ suc k
      → get_many tenant q s ≡ ok (rows, meta)
      → (length rows ≤ q.limit)
        × (pages tenant q s meta.page_count ≡ ok (order_by (matching tenant q s)))
  unfolding get_many
  get_many-pages tenant q s k rows meta keeps positive h =
      let (found, paged, answered) =
        >>=-eq-ok (page_of q.page q.limit (order_by (matching tenant q s))) _ h in
      let same_rows : found ≡ rows = ap (λ a. a.0) (ok-injective answered) in
      let count : ceil_div (length (matching tenant q s)) q.limit ≡ meta.page_count =
        ap (λ a. a.1.page_count) (ok-injective answered) in
      let covered : length (matching tenant q s)
          ≤ ceil_div (length (matching tenant q s)) q.limit * q.limit =
        subst (λ l. length (matching tenant q s) ≤ ceil_div (length (matching tenant q s)) l * l)
          (sym positive) (ceil_div-enough (length (matching tenant q s)) k) in
      let fits : length (order_by (matching tenant q s)) ≤ meta.page_count * q.limit =
        subst (λ n. n ≤ meta.page_count * q.limit) (sym (keeps (matching tenant q s)))
          (subst (λ n. length (matching tenant q s) ≤ n * q.limit) count covered) in
      (
        subst (λ xs. length xs ≤ q.limit) same_rows (page_of-length q.page q.limit _ found paged),
        pages-take tenant q s meta.page_count ∙ ap ok (take-all (meta.page_count * q.limit) _ fits),
      )
