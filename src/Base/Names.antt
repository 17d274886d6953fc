-- ===== src/Base/Names.antt =====
-- Lists of names (ids, keys), compared as JavaScript compares strings.
use elunic_myturck.Base.{
  suc, ◌≤◌, ◌≡◌, refl, Bool, true, false, not, ◌||◌, ◌&&◌, List, [], ◌∷◌, ◌++◌, String, str_eq,
  eq_iff, arith, length, Bool-cases, inl, inr, if◌then◌else◌,
}

-- `names.includes(name)`
abbrev pub member : String → List String → Bool
member a [] = false
member a (x ∷ xs) = str_eq x a || member a xs

-- No name twice.
abbrev pub distinct : List String → Bool
distinct [] = true
distinct (x ∷ xs) = not (member x xs) && distinct xs

abbrev pub remove_one : String → List String → List String
remove_one a [] = []
remove_one a (x ∷ xs) = if str_eq x a then xs else x ∷ remove_one a xs

pub member-append :
    (a : String) (xs ys : List String) → member a (xs ++ ys) ≡ (member a xs || member a ys)
member-append a [] ys = refl
member-append a (x ∷ xs) ys = ground (arith, member-append a xs ys)

length-remove_one :
    (a : String) (xs : List String)
    → member a xs ≡ true
    → suc (length (remove_one a xs)) ≡ length xs
length-remove_one a [] h = cc
length-remove_one a (x ∷ xs) h = ground (arith, length-remove_one a xs)

member-remove_one :
    (a b : String) (xs : List String)
    → member b xs ≡ true
    → str_eq a b ≡ false
    → member b (remove_one a xs) ≡ true
member-remove_one a b [] h e = cc
member-remove_one a b (x ∷ xs) h e =
    ground (arith, member-remove_one a b xs, eq_iff x a, eq_iff x b, eq_iff a b)

pub str_eq_self : (a : String) → str_eq a a ≡ true
str_eq_self a = (eq_iff a a).1 refl

pub fresh_ne :
    (x a : String) (xs : List String)
    → member x xs ≡ false
    → member a xs ≡ true
    → str_eq x a ≡ false
fresh_ne x a xs h m = elim (Bool-cases (str_eq x a)) [
  | inr other ↦ other
  | inl same ↦ let e : x ≡ a = (eq_iff x a).0 same in absurd (cc (e, h, m))
]

-- Distinct names among as many names are all of them.
pub pigeonhole :
    (xs ys : List String)
    → distinct xs ≡ true
    → ((a : String) → member a xs ≡ true → member a ys ≡ true)
    → length xs ≡ length ys
    → (b : String) → member b ys ≡ true
    → member b xs ≡ true
pigeonhole [] [] d sub e b h = h
pigeonhole [] (y ∷ ys) d sub e b h = absurd (omega arith)
pigeonhole (x ∷ xs) ys d sub e b h = elim (Bool-cases (str_eq x b)) [
  | inl same ↦ rw same refl
  | inr other ↦ rw other (
      pigeonhole xs (remove_one x ys) (ground arith)
        (λ a m. member-remove_one x a ys (sub a (ground arith)) (fresh_ne x a xs (ground arith) m))
        (omega (arith, length-remove_one x ys (sub x (rw (str_eq_self x) refl)))) b
        (member-remove_one x b ys h other))
]

-- Distinct names among others are at most as many.
pub length-le :
    (xs ys : List String)
    → distinct xs ≡ true
    → ((a : String) → member a xs ≡ true → member a ys ≡ true)
    → length xs ≤ length ys
length-le [] ys d sub = omega arith
length-le (x ∷ xs) ys d sub = omega (
  arith,
  length-le xs (remove_one x ys) (ground arith)
      (λ a m. member-remove_one x a ys (sub a (ground arith)) (fresh_ne x a xs (ground arith) m)),
  length-remove_one x ys (sub x (rw (str_eq_self x) refl)),
)

pub distinct-snoc :
    (xs : List String) (a : String)
    → distinct xs ≡ true
    → member a xs ≡ false
    → distinct (xs ++ a ∷ []) ≡ true
distinct-snoc [] a d h = refl
distinct-snoc (x ∷ xs) a d h =
    ground (arith, member-append x xs (a ∷ []), distinct-snoc xs a, eq_iff a x, eq_iff x a)
