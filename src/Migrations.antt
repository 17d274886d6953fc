-- ===== src/Migrations.antt =====
-- Migrations of a tenant on its first request: shared/nestjs/src/core/core-middleware-injector.service.ts
-- and the lock of shared/nestjs/src/util/mutex.ts. Requests run on one event loop and interleave where the
-- code awaits; a step is what one request does between two awaits, or less. A service that runs in several
-- processes has a lock in each, which is not modelled.
pub mod Invariant
pub mod Safety
pub mod Completeness
mod Tests
use elunic_myturck.Base.{
  ℕ, ◌+◌, ◌<◌, ◌≡◌, ◌≢◌, refl, Bool, true, false, ◌&&◌, List, [], ◌∷◌, ◌++◌, ◌==◌, if◌then◌else◌,
}
use elunic_myturck.Base.Text.{Text, codes, text_eq, contains}

abbrev pub is_empty : Text → Bool
is_empty [] = true
is_empty (c ∷ s) = false

-- `seed || 'default'`; an empty text stands for null and undefined.
abbrev pub default_id : Text
default_id = codes "default"

abbrev pub lock_id : Text → Text
lock_id seed = if is_empty seed then default_id else seed

-- What the requests share: the keys of the object `mutex`, the rows (name and tenant) of the migration
-- table, and the keys in the cache.
pub record Shared : Type 0 where
  pub locks : Text → Bool
  pub rows : List (Text × Text)
  pub cache : List Text

abbrev pub lock : Text → Shared → Shared
lock seed m = record m { locks = λ x. if text_eq x (lock_id seed) then true else m.locks x }

-- `release`
abbrev pub release : Text → Shared → Shared
release seed m = record m { locks = λ x. if text_eq x (lock_id seed) then false else m.locks x }

-- `MIGRATED_${migrationName}_${tenantId}`
abbrev pub cache_key : Text → Text → Text
cache_key name tenant = codes "MIGRATED_" ++ (name ++ (codes "_" ++ tenant))

abbrev pub add_key : Text → Text → Shared → Shared
add_key name tenant m = record m { cache = cache_key name tenant ∷ m.cache }

-- `SELECT COUNT(id) ... WHERE name = ? AND tenant_id = ?`
abbrev pub count_rows : Text → Text → List (Text × Text) → ℕ
count_rows name tenant [] = 0
count_rows name tenant ((n, t) ∷ rows) =
    (if text_eq n name && text_eq t tenant then 1 else 0) + count_rows name tenant rows

abbrev pub add_row : Text → Text → Shared → Shared
add_row name tenant m = record m { rows = (name, tenant) ∷ m.rows }

-- Where a request stands in `newTenantInterceptor` and in the listener that calls it, with the migrations
-- that are left.
pub data Phase : Type 0 where
  arriving : Phase
  ignored : Phase  -- returned without a lock, before the listener's `release`
  sleeping : Phase  -- in `acquire`
  checking : (rest : List Text) → Phase  -- head of the loop
  running : (name : Text) (rest : List Text) → Phase  -- in `up`
  marking : (name : Text) (rest : List Text) → Phase  -- before the INSERT
  inserted : (name : Text) (rest : List Text) → Phase  -- after it, before the cache is set
  released : Phase  -- after `_release`, before the listener's `release`
  thrown : Phase  -- a query threw, before the listener's `release`
  done : Phase

-- One step of a request of a tenant. `allows` says whether there are addresses that need no tenant; what
-- the database and the migrations answer is left open.
pub data Move (names : List Text) (allows : Bool) (tenant : Text) (m : Shared)
    : Phase → Shared → Phase → Type 0 where
  ignore : (allows && is_empty tenant) ≡ true → Move names allows tenant m arriving m ignored
  enter : (allows && is_empty tenant) ≡ false → Move names allows tenant m arriving m sleeping
  wait : m.locks (lock_id tenant) ≡ true → Move names allows tenant m sleeping m sleeping
  acquire :
      m.locks (lock_id tenant) ≡ false
      → Move names allows tenant m sleeping (lock tenant m) (checking names)
  cached :
      {name : Text} {rest : List Text}
      → contains m.cache (cache_key name tenant) ≡ true
      → Move names allows tenant m (checking (name ∷ rest)) m (checking rest)
  found :
      {name : Text} {rest : List Text}
      → contains m.cache (cache_key name tenant) ≡ false
      → 0 < count_rows name tenant m.rows
      → Move names allows tenant m (checking (name ∷ rest)) (add_key name tenant m) (checking rest)
  missing :
      {name : Text} {rest : List Text}
      → contains m.cache (cache_key name tenant) ≡ false
      → count_rows name tenant m.rows ≡ 0
      → Move names allows tenant m (checking (name ∷ rest)) m (running name rest)
  query_fails :
      {name : Text} {rest : List Text}
      → contains m.cache (cache_key name tenant) ≡ false
      → Move names allows tenant m (checking (name ∷ rest)) m thrown
  up_done :
      {name : Text} {rest : List Text}
      → Move names allows tenant m (running name rest) m (marking name rest)
  up_fails :
      {name : Text} {rest : List Text}
      → Move names allows tenant m (running name rest) (release tenant m) released
  insert :
      {name : Text} {rest : List Text}
      → Move names allows tenant m (marking name rest) (add_row name tenant m) (inserted name rest)
  insert_fails :
      {name : Text} {rest : List Text}
      → Move names allows tenant m (marking name rest) (release tenant m) released
  set_cached :
      {name : Text} {rest : List Text}
      → Move names allows tenant m (inserted name rest) (add_key name tenant m) (checking rest)
  finish : Move names allows tenant m (checking []) (release tenant m) released
  release_ignored : Move names allows tenant m ignored (release tenant m) done
  release_again : Move names allows tenant m released (release tenant m) done
  release_thrown : Move names allows tenant m thrown (release tenant m) done

abbrev pub is_released : Phase → Bool
is_released released = true
is_released _ = false

abbrev pub update {ℓ} : {A : Type ℓ} → (ℕ → A) → ℕ → A → ℕ → A
update f i a j = if i == j then a else f j

pub record System : Type 0 where
  pub shared : Shared
  pub phase : ℕ → Phase

-- Any request may go on, except that a callback of `then` or `catch` comes before everything else: what
-- follows `released` runs before any other request.
pub data Step (names : List Text) (allows : Bool) (tenant : ℕ → Text) (s : System)
    : System → Type 0 where
  pick :
      (i : ℕ) {m : Shared} {p : Phase}
      → ((j : ℕ) → j ≢ i → is_released (s.phase j) ≡ false)
      → Move names allows (tenant i) s.shared (s.phase i) m p
      → Step names allows tenant s (record { shared = m; phase = update s.phase i p })

-- A service that has started, with the rows that earlier runs have left.
abbrev pub init : List (Text × Text) → System
init rows = record {
  shared = record { locks = λ x. false; rows = rows; cache = [] };
  phase = λ i. arriving;
}

pub data Reach (names : List Text) (allows : Bool) (tenant : ℕ → Text) (rows : List (Text × Text))
    : System → Type 0 where
  start : Reach names allows tenant rows (init rows)
  later :
      {s t : System}
      → Reach names allows tenant rows s
      → Step names allows tenant s t
      → Reach names allows tenant rows t
