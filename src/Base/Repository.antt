-- ===== src/Base/Repository.antt =====
-- The repositories of TypeORM, which the services call. A repository is an interface: the rows that
-- `find()` lists, and what `save`, `update` and `delete` do to them. `find({ where })` is the list of
-- the rows that meet the condition. The order of the rows is some order that does not change by itself.
use elunic_myturck.Base.{
  ◌≡◌, refl, sym, ap, ◌∙◌, Bool, Bool-cases, ◌⊎◌, inl, inr, not, List, [], ◌∷◌, ◌++◌, filter,
  if◌then◌else◌, true, false,
}
use elunic_myturck.Base.Results.{Result, ok, err, entity_not_found, ok-injective}

-- The changes of `update`, in the rows that its condition selects.
abbrev pub map_where {ℓ} : {A : Type ℓ} → (A → Bool) → (A → A) → List A → List A
map_where p f [] = []
map_where p f (x ∷ xs) = (if p x then f x else x) ∷ map_where p f xs

pub record Repository (Row : Type 0) : Type 1 where
  pub Table : Type 0
  pub rows : Table → List Row
  -- `save` of an entity that is not stored yet
  pub insert : Row → Table → Table
  -- `update`, and `save` of an entity that is stored
  pub update : (Row → Bool) → (Row → Row) → Table → Table
  pub delete : (Row → Bool) → Table → Table
  pub rows-insert : (r : Row) (t : Table) → rows (insert r t) ≡ rows t ++ r ∷ []
  pub rows-update :
      (p : Row → Bool) (f : Row → Row) (t : Table) → rows (update p f t) ≡ map_where p f (rows t)
  pub rows-delete :
      (p : Row → Bool) (t : Table) → rows (delete p t) ≡ filter (λ r. not (p r)) (rows t)

-- A repository that holds its rows in a list.
abbrev pub list_repository : (Row : Type 0) → Repository Row
list_repository Row = record {
  Table = List Row;
  rows = λ t. t;
  insert = λ r t. t ++ r ∷ [];
  update = map_where;
  delete = λ p. filter (λ r. not (p r));
  rows-insert = λ r t. refl;
  rows-update = λ p f t. refl;
  rows-delete = λ p t. refl;
}

-- `findOneOrFail`
abbrev pub find_or_fail {ℓ} : {A : Type ℓ} → (A → Bool) → List A → Result A
find_or_fail p [] = err entity_not_found
find_or_fail p (x ∷ xs) = if p x then ok x else find_or_fail p xs

-- What is found has the property it was searched for.
pub find_or_fail-holds {ℓ} :
    {A : Type ℓ} (p : A → Bool) (xs : List A) {a : A} → find_or_fail p xs ≡ ok a → p a ≡ true
find_or_fail-holds p [] h = absurd (cc h)
find_or_fail-holds p (x ∷ xs) {a} h = elim (Bool-cases (p x)) [
  | inl yes_ ↦
      cc (yes_, ok-injective (sym (ap (λ b. if b then ok x else find_or_fail p xs) yes_) ∙ h))
  | inr no_ ↦
      find_or_fail-holds p xs (sym (ap (λ b. if b then ok x else find_or_fail p xs) no_) ∙ h)
]

pub find_or_fail-append {ℓ} :
    {A : Type ℓ} (p : A → Bool) (xs ys : List A) {a : A}
    → find_or_fail p xs ≡ ok a
    → find_or_fail p (xs ++ ys) ≡ ok a
find_or_fail-append p [] ys h = absurd (cc h)
find_or_fail-append p (x ∷ xs) ys {a} h = elim (Bool-cases (p x)) [
  | inl yes_ ↦ rw yes_ (sym (ap (λ b. if b then ok x else find_or_fail p xs) yes_) ∙ h)
  | inr no_ ↦
      rw no_ (
        find_or_fail-append p xs ys (sym (ap (λ b. if b then ok x else find_or_fail p xs) no_) ∙ h))
]

-- An update that keeps what is searched for changes what is found, and not which row it is.
pub find_or_fail-map_where {ℓ} :
    {A : Type ℓ} (p r : A → Bool) (f : A → A) (xs : List A) {a : A}
    → ((x : A) → p (f x) ≡ p x)
    → find_or_fail p xs ≡ ok a
    → find_or_fail p (map_where r f xs) ≡ ok (if r a then f a else a)
find_or_fail-map_where p r f [] k h = absurd (cc h)
find_or_fail-map_where p r f (x ∷ xs) {a} k h =
    step (find_or_fail-map_where p r f xs k) (Bool-cases (p x)) (Bool-cases (r x))
  where
    step :
        (find_or_fail p xs ≡ ok a → find_or_fail p (map_where r f xs) ≡ ok (if r a then f a else a))
        → (p x ≡ true) ⊎ (p x ≡ false)
        → (r x ≡ true) ⊎ (r x ≡ false)
        → find_or_fail p (map_where r f (x ∷ xs)) ≡ ok (if r a then f a else a)
    step rest (inl yes_) (inl hit) =
        let e : x ≡ a =
          ok-injective (sym (ap (λ b. if b then ok x else find_or_fail p xs) yes_) ∙ h) in
        rw hit (
          rw (k x) (
            rw yes_ (
              sym (ap (λ b. ok (if b then f x else x)) hit)
              ∙ ap (λ y. ok (if r y then f y else y)) e)))
    step rest (inl yes_) (inr miss) =
        let e : x ≡ a =
          ok-injective (sym (ap (λ b. if b then ok x else find_or_fail p xs) yes_) ∙ h) in
        rw miss (
          rw yes_ (
            sym (ap (λ b. ok (if b then f x else x)) miss)
            ∙ ap (λ y. ok (if r y then f y else y)) e))
    step rest (inr no_) (inl hit) =
        rw hit
          (rw (k x) (rw no_ (rest (sym (ap (λ b. if b then ok x else find_or_fail p xs) no_) ∙ h))))
    step rest (inr no_) (inr miss) =
        rw miss (rw no_ (rest (sym (ap (λ b. if b then ok x else find_or_fail p xs) no_) ∙ h)))
