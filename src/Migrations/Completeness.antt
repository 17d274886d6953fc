-- ===== src/Migrations/Completeness.antt =====
-- What a request has seen to when it leaves the loop over the migrations.
use elunic_myturck.Base.{
  ℕ, ◌≡◌, refl, Bool, true, ◌&&◌, ◌||◌, List, [], ◌∷◌, any, arith, Bool-cases, inl, inr, ◌<◌,
}
use mathlib.Core.Path.{subst}
use elunic_myturck.Base.Text.{Text, text_eq, contains, text_eq_self, text_eq→eq}
use elunic_myturck.Migrations.{
  Shared, cache_key, count_rows, Phase, checking, running, marking, inserted, Move, cached, found,
  missing, insert, set_cached, acquire, System, pick, Reach, start, later,
}
use elunic_myturck.Migrations.Invariant.{at_update}

-- Some row has the key in the cache that this migration has for this tenant.
abbrev pub recorded : Text → List (Text × Text) → Bool
recorded key rows = any (λ r. text_eq (cache_key r.0 r.1) key) rows

-- A request in the loop has recorded each migration or has it ahead.
abbrev Covers : List Text → Text → List (Text × Text) → List Text → Type 0
Covers names tenant rows ahead =
    (name : Text)
    → contains names name ≡ true
    → (contains ahead name || recorded (cache_key name tenant) rows) ≡ true

abbrev Progress : List Text → Text → List (Text × Text) → Phase → Type 0
Progress names tenant rows (checking rest) = Covers names tenant rows rest
Progress names tenant rows (running n rest) = Covers names tenant rows (n ∷ rest)
Progress names tenant rows (marking n rest) = Covers names tenant rows (n ∷ rest)
Progress names tenant rows (inserted n rest) =
    Covers names tenant rows rest × (recorded (cache_key n tenant) rows ≡ true)
Progress names tenant rows _ = Unit

-- Only what is recorded is in the cache.
abbrev Cached : Shared → Type 0
Cached m = (key : Text) → contains m.cache key ≡ true → recorded key m.rows ≡ true

count_rows-recorded :
    (name t : Text) (rows : List (Text × Text))
    → 0 < count_rows name t rows
    → recorded (cache_key name t) rows ≡ true
count_rows-recorded name t [] h = absurd (omega (arith, h))
count_rows-recorded name t ((n, u) ∷ rows) h = elim (Bool-cases (text_eq n name && text_eq u t)) [
  | inl same ↦
      let n_same : n ≡ name = text_eq→eq n name (ground arith) in
      let t_same : u ≡ t = text_eq→eq u t (ground arith) in
      rw n_same (rw t_same (rw (text_eq_self (cache_key name t)) refl))
  | inr other ↦ ground (arith, count_rows-recorded name t rows)
]

recorded-name :
    (a b t : Text) (rows : List (Text × Text))
    → text_eq a b ≡ true
    → recorded (cache_key a t) rows ≡ true
    → recorded (cache_key b t) rows ≡ true
recorded-name a b t rows h k = cc (text_eq→eq a b h, k)

Covers-tail :
    (names : List Text) (n t : Text) (rest : List Text) (rows : List (Text × Text))
    → recorded (cache_key n t) rows ≡ true
    → Covers names t rows (n ∷ rest)
    → Covers names t rows rest
Covers-tail names n t rest rows h c name k = ground (arith, c name k, recorded-name n name t rows)

Covers-insert :
    (names ahead : List Text) (t : Text) (r : Text × Text) (rows : List (Text × Text))
    → Covers names t rows ahead
    → Covers names t (r ∷ rows) ahead
Covers-insert names ahead t r rows c name k = ground (arith, c name k)

found_key :
    (n t key : Text) (rows : List (Text × Text))
    → recorded (cache_key n t) rows ≡ true
    → text_eq (cache_key n t) key ≡ true
    → recorded key rows ≡ true
found_key n t key rows h k = cc (text_eq→eq (cache_key n t) key k, h)

recorded_now :
    (n t : Text) (rows : List (Text × Text)) → recorded (cache_key n t) ((n, t) ∷ rows) ≡ true
recorded_now n t rows = rw (text_eq_self (cache_key n t)) refl

module _ {names : List Text} {allows : Bool} {t : Text} {m : Shared} where
  Move-Cached :
      {p p' : Phase} {m' : Shared}
      → Move names allows t m p m' p'
      → Cached m
      → Progress names t m.rows p
      → Cached m'
  Move-Cached (found {name = n} g h) c q key k =
      ground (arith, c key, found_key n t key m.rows (count_rows-recorded n t m.rows h))
  Move-Cached (set_cached {name = n}) c q key k =
      ground (arith, c key, found_key n t key m.rows q.1)
  Move-Cached (insert {name = n}) c q key k = ground (arith, c key)
  Move-Cached mv c q key k = c key k

  Move-Progress :
      {p p' : Phase} {m' : Shared}
      → Move names allows t m p m' p'
      → Cached m
      → Progress names t m.rows p
      → Progress names t m'.rows p'
  Move-Progress (acquire g) c q = λ name k. rw k refl
  Move-Progress (cached {name = n} {rest} g) c q =
      Covers-tail names n t rest m.rows (c (cache_key n t) g) q
  Move-Progress (found {name = n} {rest} g h) c q =
      Covers-tail names n t rest m.rows (count_rows-recorded n t m.rows h) q
  Move-Progress (missing g h) c q = q
  Move-Progress (insert {name = n} {rest}) c q = (
    Covers-tail names n t rest ((n, t) ∷ m.rows) (recorded_now n t m.rows)
        (Covers-insert names (n ∷ rest) t (n, t) m.rows q),
    recorded_now n t m.rows,
  )
  Move-Progress (set_cached {name = n}) c q = q.0
  Move-Progress mv c q = ground arith

-- Another request of whatever tenant moves, and the rows only grow.
Move-grows :
    {names : List Text} {allows : Bool} {t : Text} {m m' : Shared} {p p' : Phase}
    → Move names allows t m p m' p'
    → (key : Text) → recorded key m.rows ≡ true
    → recorded key m'.rows ≡ true
Move-grows (insert) key h = ground arith
Move-grows mv key h = h

Covers-grows :
    (names ahead : List Text) (t : Text) (rows more : List (Text × Text))
    → ((key : Text) → recorded key rows ≡ true → recorded key more ≡ true)
    → Covers names t rows ahead
    → Covers names t more ahead
Covers-grows names ahead t rows more g c name k = ground (arith, c name k, g (cache_key name t))

Progress-grows :
    (names : List Text) (t : Text) (rows more : List (Text × Text)) (p : Phase)
    → ((key : Text) → recorded key rows ≡ true → recorded key more ≡ true)
    → Progress names t rows p
    → Progress names t more p
Progress-grows names t rows more (checking rest) g c = Covers-grows names rest t rows more g c
Progress-grows names t rows more (running n rest) g c =
    Covers-grows names (n ∷ rest) t rows more g c
Progress-grows names t rows more (marking n rest) g c =
    Covers-grows names (n ∷ rest) t rows more g c
Progress-grows names t rows more (inserted n rest) g c =
    (Covers-grows names rest t rows more g c.0, g (cache_key n t) c.1)
Progress-grows names t rows more _ g c = tt

Reach-Progress :
    {names : List Text} {allows : Bool} {tenant : ℕ → Text} {rows : List (Text × Text)} {s : System}
    → Reach names allows tenant rows s
    → Cached s.shared × ((i : ℕ) → Progress names (tenant i) s.shared.rows (s.phase i))
Reach-Progress start = (λ key h. absurd (cc h), λ i. tt)
Reach-Progress {names} {tenant} (later {s} r (pick i {m} {p} alone mv)) =
    let before = Reach-Progress r in
    (
      Move-Cached mv before.0 (before.1 i),
      at_update (λ j q. Progress names (tenant j) m.rows q) s.phase i p
          (Move-Progress mv before.0 (before.1 i))
          (λ j ne.
            Progress-grows names (tenant j) s.shared.rows m.rows (s.phase j) (Move-grows mv)
              (before.1 j)),
    )

-- When a request of a tenant leaves the loop to finish, each registered migration has a row of the name
-- and the tenant, or a row with the same key in the cache. The requests may interleave in any way.
pub finished-recorded :
    {names : List Text} {allows : Bool} {tenant : ℕ → Text} {rows : List (Text × Text)} {s : System}
    → Reach names allows tenant rows s
    → (i : ℕ) → s.phase i ≡ checking []
    → (name : Text) → contains names name ≡ true
    → recorded (cache_key name (tenant i)) s.shared.rows ≡ true
finished-recorded {names} {tenant} {s} r i e name h =
    subst (Progress names (tenant i) s.shared.rows) e ((Reach-Progress r).1 i) name h
