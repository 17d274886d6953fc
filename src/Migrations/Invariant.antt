-- ===== src/Migrations/Invariant.antt =====
-- What holds in every reachable state of the migrations.
use elunic_myturck.Base.{
  ℕ, ◌≤◌, ◌≡◌, ◌≢◌, refl, sym, ap, ◌∙◌, Bool, true, false, ◌&&◌, List, ◌==◌, arith, if◌then◌else◌,
  Bool-cases, ◌⊎◌, inl, inr,
}
use mathlib.Core.Path.{subst}
use elunic_myturck.Base.Text.{Text, text_eq, text_eq→eq, text_eq_self, text_eq_sym}
use elunic_myturck.Migrations.{
  is_empty, default_id, lock_id, Shared, count_rows, Phase, ignored, sleeping, checking, running,
  marking, inserted, thrown, Move, ignore, enter, acquire, missing, insert, finish, release_ignored,
  release_again, release_thrown, is_released, update, System, pick, init, Reach, start, later,
}

-- The request has acquired the lock and not released it.
abbrev pub owns : Phase → Bool
owns (checking rest) = true
owns (running name rest) = true
owns (marking name rest) = true
owns (inserted name rest) = true
owns thrown = true
owns _ = false

abbrev pub is_ignored : Phase → Bool
is_ignored ignored = true
is_ignored _ = false

abbrev pub is_sleeping : Phase → Bool
is_sleeping sleeping = true
is_sleeping _ = false

-- The migration that a request executes and has not recorded.
abbrev pub executes : Phase → Text → Bool
executes (running n rest) name = text_eq n name
executes (marking n rest) name = text_eq n name
executes _ name = false

pub record Inv (allows : Bool) (tenant : ℕ → Text) (m : Shared) (phase : ℕ → Phase) : Type 0 where
  pub held : (i : ℕ) → owns (phase i) ≡ true → m.locks (lock_id (tenant i)) ≡ true
  pub unique :
      (i j : ℕ)
      → owns (phase i) ≡ true
      → owns (phase j) ≡ true
      → text_eq (lock_id (tenant i)) (lock_id (tenant j)) ≡ true
      → i ≡ j
  pub free : (i : ℕ) → is_released (phase i) ≡ true → m.locks (lock_id (tenant i)) ≡ false
  pub once : (name t : Text) → count_rows name t m.rows ≤ 1
  pub absent :
      (i : ℕ) (name : Text) → executes (phase i) name ≡ true → count_rows name (tenant i) m.rows ≡ 0
  pub skips : (i : ℕ) → is_ignored (phase i) ≡ true → (allows && is_empty (tenant i)) ≡ true
  pub enters : (i : ℕ) → is_sleeping (phase i) ≡ true → (allows && is_empty (tenant i)) ≡ false
  pub owner_enters : (i : ℕ) → owns (phase i) ≡ true → (allows && is_empty (tenant i)) ≡ false

-- The premise of a step.
abbrev Guard :
    {names : List Text} {allows : Bool} {t : Text} {m m' : Shared} {p p' : Phase}
    → Move names allows t m p m' p'
    → Type 0
Guard {allows} {t} (ignore _) = (allows && is_empty t) ≡ true
Guard {allows} {t} (enter _) = (allows && is_empty t) ≡ false
Guard {t} {m} (acquire _) = m.locks (lock_id t) ≡ false
Guard {t} {m} (missing {name} _ _) = count_rows name t m.rows ≡ 0
Guard _ = Unit

guard :
    {names : List Text} {allows : Bool} {t : Text} {m m' : Shared} {p p' : Phase}
    (mv : Move names allows t m p m' p')
    → Guard mv
guard (ignore g) = g
guard (enter g) = g
guard (acquire g) = g
guard (missing _ g) = g
guard _ = tt

pub at_update {κ} :
    (P : ℕ → Phase → Type κ) (phase : ℕ → Phase) (i : ℕ) (p : Phase)
    → P i p
    → ((j : ℕ) → j ≢ i → P j (phase j))
    → (j : ℕ) → P j (update phase i p j)
at_update P phase i p here there j = elim (Bool-cases (i == j)) [
  | inl same ↦
      let e : i ≡ j = ground arith in
      subst (λ k. P k (update phase i p k)) e
        (subst (λ b. P i (if b then p else phase i)) (eq_self i) here)
  | inr other ↦
      let ne : j ≢ i = (λ e. ground arith) in
      subst (λ b. P j (if b then p else phase j)) (sym other) (there j ne)
]
  where
    eq_self : (n : ℕ) → true ≡ (n == n)
    eq_self n = ground arith

same_lock : (locks : Text → Bool) (a b : Text) → text_eq a b ≡ true → locks a ≡ locks b
same_lock locks a b h = ap locks (text_eq→eq a b h)

same_id : (a b : Text) → text_eq a b ≡ true → text_eq (lock_id a) (lock_id b) ≡ true
same_id a b h =
    subst (λ c. text_eq (lock_id a) (lock_id c) ≡ true) (text_eq→eq a b h)
      (text_eq_self (lock_id a))

same_count :
    (rows : List (Text × Text)) (a b c d : Text)
    → text_eq a b ≡ true
    → text_eq c d ≡ true
    → count_rows a c rows ≡ count_rows b d rows
same_count rows a b c d h k = cc (text_eq→eq a b h, text_eq→eq c d k)

executes-owns : (p : Phase) (name : Text) → executes p name ≡ true → owns p ≡ true
executes-owns p name h = ground arith

module _ {names : List Text} {allows : Bool} {tenant : ℕ → Text} {m : Shared} {phase : ℕ → Phase}
    (inv : Inv allows tenant m phase) (i : ℕ)
    (alone : (j : ℕ) → j ≢ i → is_released (phase j) ≡ false)
    (unnamed : (j : ℕ) → text_eq (tenant j) default_id ≡ false) where
  open inv use {held, unique, free, once, absent, skips, enters, owner_enters}

  Move-skips :
      {p p' : Phase} {m' : Shared}
      → Move names allows (tenant i) m p m' p'
      → is_ignored p' ≡ true
      → (allows && is_empty (tenant i)) ≡ true
  Move-skips (ignore g) q = g
  Move-skips mv q = absurd (cc q)

  Move-enters :
      {p p' : Phase} {m' : Shared}
      → Move names allows (tenant i) m p m' p'
      → phase i ≡ p
      → is_sleeping p' ≡ true
      → (allows && is_empty (tenant i)) ≡ false
  Move-enters (enter g) e q = g
  Move-enters mv e q = ground (arith, enters i)

  -- Who owns the lock afterwards owned it before, or has just acquired it.
  Move-owner :
      {p p' : Phase} {m' : Shared}
      → Move names allows (tenant i) m p m' p'
      → owns p' ≡ true
      → (owns p ≡ true) ⊎ ((is_sleeping p ≡ true) × (m.locks (lock_id (tenant i)) ≡ false))
  Move-owner (acquire g) q = inr (refl, g)
  Move-owner mv q = ground arith

  Move-owner_enters :
      {p p' : Phase} {m' : Shared}
      → Move names allows (tenant i) m p m' p'
      → phase i ≡ p
      → owns p' ≡ true
      → (allows && is_empty (tenant i)) ≡ false
  Move-owner_enters (acquire g) e q = ground (arith, enters i)
  Move-owner_enters mv e q = ground (arith, owner_enters i)

  -- The locks of the others stay, and the own lock is kept by an owner.
  Move-keeps_own :
      {p p' : Phase} {m' : Shared}
      → Move names allows (tenant i) m p m' p'
      → phase i ≡ p
      → owns p' ≡ true
      → m'.locks (lock_id (tenant i)) ≡ true
  Move-keeps_own (acquire g) e q = ground (arith, text_eq_self (lock_id (tenant i)))
  Move-keeps_own mv e q = ground (arith, held i)

  -- Only the own lock is released, and only by who owns it or by who does not share it.
  Move-keeps_other :
      {p p' : Phase} {m' : Shared}
      → Move names allows (tenant i) m p m' p'
      → phase i ≡ p
      → (j : ℕ) → j ≢ i
      → owns (phase j) ≡ true
      → m'.locks (lock_id (tenant j)) ≡ true
  Move-keeps_other release_ignored e j ne q =
      ground (arith, held j, skips i, owner_enters j, unnamed j)
  Move-keeps_other release_again e j ne q =
      ground (arith, held j, free i, same_lock m.locks (lock_id (tenant j)) (lock_id (tenant i)))
  Move-keeps_other release_thrown e j ne q = ground (arith, held j, unique j i, ne)
  Move-keeps_other mv e j ne q = ground (arith, held j, unique j i, ne)

  Move-free :
      {p p' : Phase} {m' : Shared}
      → Move names allows (tenant i) m p m' p'
      → is_released p' ≡ true
      → m'.locks (lock_id (tenant i)) ≡ false
  Move-free finish q = ground (arith, text_eq_self (lock_id (tenant i)))
  Move-free mv q = ground (arith, text_eq_self (lock_id (tenant i)))

  -- Two owners of one lock are the same request.
  Move-unique :
      {p p' : Phase} {m' : Shared}
      → Move names allows (tenant i) m p m' p'
      → phase i ≡ p
      → (j : ℕ) → j ≢ i
      → owns p' ≡ true
      → owns (phase j) ≡ true
      → text_eq (lock_id (tenant i)) (lock_id (tenant j)) ≡ false
  Move-unique mv e j ne qi qj = elim (Move-owner mv qi) [
    | inl before ↦ ground (arith, unique i j, ne)
    | inr (asleep, unlocked) ↦
        ground (arith, held j, same_lock m.locks (lock_id (tenant i)) (lock_id (tenant j)))
  ]

  -- Only the owner that has found a migration unrecorded records it.
  Move-once :
      {p p' : Phase} {m' : Shared}
      → Move names allows (tenant i) m p m' p'
      → phase i ≡ p
      → (name t : Text) → count_rows name t m'.rows ≤ 1
  Move-once (insert {name = n}) e name t =
      elim (Bool-cases (text_eq n name && text_eq (tenant i) t)) [
        | inr other ↦ ground (arith, once name t)
        | inl same ↦
            let n_same : text_eq n name ≡ true = ground arith in
            let t_same : text_eq (tenant i) t ≡ true = ground arith in
            let none_ = absent i n (rw e (text_eq_self n)) in
            omega (
              arith,
              ap {B = ℕ} (λ b. if b then 1 else 0) same,
              same_count m.rows n name (tenant i) t n_same t_same,
              none_,
            )
      ]
  Move-once mv e name t = ground (arith, once name t)

  Move-absent :
      {p p' : Phase} {m' : Shared}
      → Move names allows (tenant i) m p m' p'
      → phase i ≡ p
      → (name : Text) → executes p' name ≡ true
      → count_rows name (tenant i) m'.rows ≡ 0
  Move-absent (missing {name = n} _ g) e name q =
      sym (same_count m.rows n name (tenant i) (tenant i) q (text_eq_self (tenant i))) ∙ g
  Move-absent mv e name q = ground (arith, absent i name)

  Move-absent_other :
      {p p' : Phase} {m' : Shared}
      → Move names allows (tenant i) m p m' p'
      → phase i ≡ p
      → (j : ℕ) → j ≢ i
      → (name : Text) → executes (phase j) name ≡ true
      → count_rows name (tenant j) m'.rows ≡ 0
  Move-absent_other (insert {name = n}) e j ne name q =
      elim (Bool-cases (text_eq (tenant i) (tenant j))) [
        | inr different ↦ ground (arith, absent j name)
        | inl same ↦ absurd (
            ne (
              sym (
                unique i j (rw e refl) (executes-owns (phase j) name q)
                  (same_id (tenant i) (tenant j) same))))
      ]
  Move-absent_other mv e j ne name q = ground (arith, absent j name)

  -- A step keeps what holds in every reachable state.
  Step-Inv :
      {p' : Phase} {m' : Shared}
      → Move names allows (tenant i) m (phase i) m' p'
      → Inv allows tenant m' (update phase i p')
  Step-Inv {p'} {m'} mv = record {
    held =
        at_update (λ j p. owns p ≡ true → m'.locks (lock_id (tenant j)) ≡ true) phase i p'
          (Move-keeps_own mv refl) (λ j ne. Move-keeps_other mv refl j ne);
    unique =
        at_update
          (λ a p.
            (b : ℕ)
            → owns p ≡ true
            → owns (update phase i p' b) ≡ true
            → text_eq (lock_id (tenant a)) (lock_id (tenant b)) ≡ true
            → a ≡ b)
          phase i p'
          (at_update
            (λ b q.
              owns p' ≡ true
              → owns q ≡ true
              → text_eq (lock_id (tenant i)) (lock_id (tenant b)) ≡ true
              → i ≡ b)
            phase i p' (λ qa qb h. refl)
            (λ b ne qa qb h. absurd (cc (h, Move-unique mv refl b ne qa qb))))
          (λ a ne.
            at_update
              (λ b q.
                owns (phase a) ≡ true
                → owns q ≡ true
                → text_eq (lock_id (tenant a)) (lock_id (tenant b)) ≡ true
                → a ≡ b)
              phase i p'
              (λ qa qb h. absurd (
                cc (
                  h,
                  Move-unique mv refl a ne qb qa,
                  text_eq_sym (lock_id (tenant a)) (lock_id (tenant i)),
                )))
              (λ b _. unique a b));
    free =
        at_update (λ j p. is_released p ≡ true → m'.locks (lock_id (tenant j)) ≡ false) phase i p'
          (Move-free mv) (λ j ne q. absurd (cc (q, alone j ne)));
    once = Move-once mv refl;
    absent =
        at_update
          (λ j p. (name : Text) → executes p name ≡ true → count_rows name (tenant j) m'.rows ≡ 0)
          phase i p' (Move-absent mv refl) (Move-absent_other mv refl);
    skips =
        at_update (λ j p. is_ignored p ≡ true → (allows && is_empty (tenant j)) ≡ true) phase i p'
          (Move-skips mv) (λ j ne. skips j);
    enters =
        at_update (λ j p. is_sleeping p ≡ true → (allows && is_empty (tenant j)) ≡ false) phase i p'
          (Move-enters mv refl) (λ j ne. enters j);
    owner_enters =
        at_update (λ j p. owns p ≡ true → (allows && is_empty (tenant j)) ≡ false) phase i p'
          (Move-owner_enters mv refl) (λ j ne. owner_enters j);
  }

init-Inv :
    (allows : Bool) (tenant : ℕ → Text) (rows : List (Text × Text))
    → ((name t : Text) → count_rows name t rows ≤ 1)
    → Inv allows tenant (init rows).shared (init rows).phase
init-Inv allows tenant rows once = record {
  held = λ i q. absurd (cc q);
  unique = λ i j q. absurd (cc q);
  free = λ i q. refl;
  once = once;
  absent = λ i name q. absurd (cc q);
  skips = λ i q. absurd (cc q);
  enters = λ i q. absurd (cc q);
  owner_enters = λ i q. absurd (cc q);
}

pub Reach-Inv :
    {names : List Text} {allows : Bool} {tenant : ℕ → Text} {rows : List (Text × Text)} {s : System}
    → ((j : ℕ) → text_eq (tenant j) default_id ≡ false)
    → ((name t : Text) → count_rows name t rows ≤ 1)
    → Reach names allows tenant rows s
    → Inv allows tenant s.shared s.phase
Reach-Inv {allows} {tenant} {rows} unnamed once start = init-Inv allows tenant rows once
Reach-Inv unnamed once (later r (pick i alone mv)) =
    Step-Inv (Reach-Inv unnamed once r) i alone unnamed mv
