-- ===== src/Base/Searching.antt =====
-- Searches in lists of rows that an update has changed.
use elunic_myturck.Base.{
  ◌≤◌, ◌≡◌, refl, sym, ap, ◌∙◌, Bool, true, false, none, some, List, [], ◌∷◌, ◌++◌, find, any,
  arith, if◌then◌else◌, Bool-cases, inl, inr,
}
use elunic_myturck.Base.Counting.{count}
use elunic_myturck.Base.Repository.{map_where}

pub map_where-none {ℓ} :
    {A : Type ℓ} (p : A → Bool) (f : A → A) (xs : List A) → any p xs ≡ false → map_where p f xs ≡ xs
map_where-none p f [] h = refl
map_where-none p f (x ∷ xs) h = ground (arith, map_where-none p f xs)

pub map_where-append {ℓ} :
    {A : Type ℓ} (p : A → Bool) (f : A → A) (xs ys : List A)
    → map_where p f (xs ++ ys) ≡ map_where p f xs ++ map_where p f ys
map_where-append p f [] ys = refl
map_where-append p f (x ∷ xs) ys =
    ap (λ zs. (if p x then f x else x) ∷ zs) (map_where-append p f xs ys)

pub find-snoc {ℓ} :
    {A : Type ℓ} (p : A → Bool) (xs : List A) (x : A)
    → any p xs ≡ false
    → p x ≡ true
    → find p (xs ++ x ∷ []) ≡ some x
find-snoc p [] x h k = rw k refl
find-snoc p (y ∷ ys) x h k = ground (arith, find-snoc p ys x)

pub find-any {ℓ} : {A : Type ℓ} (p : A → Bool) (xs : List A) → find p xs ≡ none → any p xs ≡ false
find-any p [] h = refl
find-any p (x ∷ xs) h = ground (arith, find-any p xs)

pub any-map_where {ℓ} :
    {A : Type ℓ} (p t : A → Bool) (f : A → A) (xs : List A)
    → ((x : A) → p (f x) ≡ true → p x ≡ true)
    → any p xs ≡ false
    → any p (map_where t f xs) ≡ false
any-map_where p t f [] k h = refl
any-map_where p t f (x ∷ xs) k h = ground (arith, any-map_where p t f xs k, k x)

count_zero-any {ℓ} : {A : Type ℓ} (p : A → Bool) (xs : List A) → count p xs ≤ 0 → any p xs ≡ false
unfolding count
count_zero-any p [] h = refl
count_zero-any p (x ∷ xs) h = ground (arith, count_zero-any p xs)

some_same {ℓ} : {A : Type ℓ} {x y : A} → some x ≡ some y → x ≡ y
some_same h = cc

-- Where at most one row counts, nothing is left of them after the one that was found is retired.
pub retire-any {ℓ} :
    {A : Type ℓ} (p t : A → Bool) (f : A → A) (xs : List A) {e : A}
    → ((x : A) → p (f x) ≡ false)
    → count p xs ≤ 1
    → find p xs ≡ some e
    → t e ≡ true
    → any p (map_where t f xs) ≡ false
unfolding count
retire-any p t f [] k once h hit = absurd (cc h)
retire-any p t f (x ∷ xs) {e} k once h hit = elim (Bool-cases (p x)) [
  | inl here ↦
      let same : x ≡ e = some_same (sym (ap (λ b. if b then some x else find p xs) here) ∙ h) in
      let hit_x : t x ≡ true = rw same hit in
      ground (arith, k x, any-map_where p t f xs (λ y q. absurd (cc (q, k y))), count_zero-any p xs)
  | inr other ↦ ground (arith, k x, retire-any p t f xs {e = e} k)
]
