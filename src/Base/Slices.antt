-- ===== src/Base/Slices.antt =====
-- Lists cut by position.
use elunic_myturck.Base.{
  ℕ, zero, suc, ◌+◌, ◌-◌, ◌≡◌, refl, ap, List, [], ◌∷◌, ◌++◌, arith, take, drop,
}

pub suc-sub-suc : (a b : ℕ) → suc a - suc b ≡ a - b
suc-sub-suc a b = omega arith

pub zero-sub : (a : ℕ) → 0 - a ≡ 0
zero-sub a = omega arith

pub sub-zero : (a : ℕ) → a - 0 ≡ a
sub-zero a = omega arith

pub suc-add : (a b : ℕ) → suc a + b ≡ suc (a + b)
suc-add a b = omega arith

pub zero-add : (a : ℕ) → 0 + a ≡ a
zero-add a = omega arith

module _ {ℓ} {A : Type ℓ} where
  pub take-append-drop : (n : ℕ) (xs : List A) → take n xs ++ drop n xs ≡ xs
  take-append-drop zero xs = refl
  take-append-drop (suc n) [] = refl
  take-append-drop (suc n) (x ∷ xs) = ap (λ r. x ∷ r) (take-append-drop n xs)

  pub take-nil : (n : ℕ) → take {A = A} n [] ≡ []
  take-nil zero = refl
  take-nil (suc n) = refl

  pub drop-nil : (n : ℕ) → drop {A = A} n [] ≡ []
  drop-nil zero = refl
  drop-nil (suc n) = refl

  pub drop-drop : (n k : ℕ) (xs : List A) → drop k (drop n xs) ≡ drop (n + k) xs
  drop-drop zero k xs = rw zero-add
  drop-drop (suc n) k [] = simp drop-nil
  drop-drop (suc n) k (x ∷ xs) = rw (suc-add, drop-drop n k xs)
