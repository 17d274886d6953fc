-- ===== src/Base/Results.antt =====
-- The exceptions that the services throw, and code that returns or throws.
use elunic_myturck.Base.{◌≡◌, ◌≢◌, refl, Bool, true, false, ◌⊎◌, inl, inr}

-- `BadRequestException` and so on; `entity_not_found` is what `findOneOrFail` throws, and
-- `out_of_fuel` stands for a recursion that does not end.
pub data Exception : Type 0 where
  bad_request not_found forbidden conflict entity_not_found internal_error out_of_fuel : Exception

pub data Result {ℓ} (A : Type ℓ) : Type ℓ where
  ok : A → Result A
  err : Exception → Result A

-- `if (!test) throw e`
abbrev pub guard : Bool → Exception → Result (Unit {0})
guard true e = ok tt
guard false e = err e

pub Result-cases {ℓ} :
    {A : Type ℓ} (r : Result A) → ((a : A) × (r ≡ ok a)) ⊎ ((e : Exception) × (r ≡ err e))
Result-cases (ok a) = inl (a, refl)
Result-cases (err e) = inr (e, refl)

infixl 5 ◌>>=◌
abbrev pub ◌>>=◌ {ℓ κ} : {A : Type ℓ} {B : Type κ} → Result A → (A → Result B) → Result B
ok result >>= next = next result
err thrown >>= next = err thrown

-- Statements in sequence.
infixl 5 ◌>>◌
abbrev pub ◌>>◌ {ℓ} : {B : Type ℓ} → Result (Unit {0}) → Result B → Result B
first >> second = first >>= λ _. second

-- Inversion of a block that returned.
pub >>=-eq-ok {ℓ κ} :
    {A : Type ℓ} {B : Type κ} (first : Result A) (next : A → Result B) {result : B}
    → (first >>= next) ≡ ok result
    → (middle : A) × (first ≡ ok middle) × (next middle ≡ ok result)
>>=-eq-ok (ok middle) next returned = (middle, refl, returned)
>>=-eq-ok (err thrown) next returned = absurd (cc returned)

-- A block throws nothing that none of its parts throws.
pub >>=-ne-err {ℓ κ} :
    {A : Type ℓ} {B : Type κ} (m : Result A) (f : A → Result B) (e : Exception)
    → m ≢ err e
    → ((a : A) → m ≡ ok a → f a ≢ err e)
    → (m >>= f) ≢ err e
>>=-ne-err (ok a) f e h k = k a refl
>>=-ne-err (err d) f e h k = λ p. h (cc p)

pub ok-injective {ℓ} : {A : Type ℓ} {a b : A} → ok a ≡ ok b → a ≡ b
ok-injective h = cc

pub guard-eq-ok {ℓ} :
    {B : Type ℓ} (t : Bool) (e : Exception) (k : Result B) {b : B}
    → (guard t e >> k) ≡ ok b
    → (t ≡ true) × (k ≡ ok b)
guard-eq-ok true e k h = (refl, h)
guard-eq-ok false e k h = absurd (cc h)

pub guard-ne-err {ℓ} :
    {B : Type ℓ} (t : Bool) (d e : Exception) (b : B) → d ≢ e → (guard t d >> ok b) ≢ err e
guard-ne-err true d e b h = λ p. cc p
guard-ne-err false d e b h = λ p. h (cc p)
