-- ===== src/Substitution/Braces.antt =====
-- How many closing brackets a text holds, and what one replacement does to that number.
use mathlib.Core.Option
use elunic_myturck.Base.{
  ℕ, zero, suc, ◌+◌, ◌-◌, ◌≤◌, ◌≡◌, refl, ap, sym, ◌∙◌, false, none, some, Option, ◌≢◌, Bool-cases,
  Option-cases, inl, inr, List, [], ◌∷◌, ◌++◌, arith, take, drop, find, ◌||◌,
}
use elunic_myturck.Base.Slices.{
  suc-sub-suc, zero-sub, sub-zero, take-nil, drop-drop, take-append-drop,
}
use elunic_myturck.Base.Text.{Text, text_eq, text_eq→eq, text_eq_sym, contains, substring}
use elunic_myturck.Substitution.{
  Property, find_close, index_of_close, replacement, splice, braces, pending, value_text,
  recursion_error, unknown_error,
}

pub braces-append : (s t : Text) → braces (s ++ t) ≡ braces s + braces t
unfolding braces
braces-append [] t = omega arith
braces-append (c ∷ s) t = ground (arith, braces-append s t)

pub map-suc-eq-some : (o : Option ℕ) (k : ℕ) → Option.map suc o ≡ some (suc k) → o ≡ some k
map-suc-eq-some none k h = cc
map-suc-eq-some (some j) k h = ground arith

pub map-suc-ne-zero : (o : Option ℕ) → Option.map suc o ≢ some 0
map-suc-ne-zero none = cc
map-suc-ne-zero (some k) = ground arith

-- Up to the first bracket there is none, and behind it there is one less.
braces-find_close :
    (s : Text) (k : ℕ)
    → find_close s ≡ some k
    → (braces (take k s) ≡ 0) × (braces s ≡ suc (braces (drop (suc k) s)))
unfolding braces find_close
braces-find_close [] k h = cc
braces-find_close (c ∷ s) zero h = ground (arith, map-suc-ne-zero (find_close s))
braces-find_close (c ∷ s) (suc k) h = ground (arith, braces-find_close s k)

braces-take-drop : (j k : ℕ) (s : Text) → braces (take (k - j) (drop j s)) ≤ braces (take k s)
unfolding braces
braces-take-drop j zero s = rw zero-sub (omega arith)
braces-take-drop zero (suc k) s = rw sub-zero (omega arith)
braces-take-drop (suc j) (suc k) [] = rw take-nil (omega arith)
braces-take-drop (suc j) (suc k) (c ∷ s) = rw suc-sub-suc (ground (arith, braces-take-drop j k s))

pub contains-snoc :
    (names : List Text) (n t : Text)
    → contains (names ++ n ∷ []) t ≡ (contains names t || text_eq n t)
contains-snoc [] n t = ground arith
contains-snoc (m ∷ names) n t = ground (arith, contains-snoc names n t)

-- One more visited name never makes more brackets pending.
pending-snoc-le :
    (props : List Property) (names : List Text) (n : Text)
    → pending props (names ++ n ∷ []) ≤ pending props names
unfolding pending
pending-snoc-le [] names n = omega arith
pending-snoc-le (p ∷ ps) names n =
    ground (arith, contains-snoc names n p.key, pending-snoc-le ps names n)

-- The first property of a new name is no longer pending once the name is visited.
pending-snoc-find :
    (props : List Property) (names : List Text) (n : Text) (obj : Property)
    → contains names n ≡ false
    → find (λ p. text_eq p.key n) props ≡ some obj
    → braces (value_text obj.value) + pending props (names ++ n ∷ []) ≤ pending props names
unfolding pending
pending-snoc-find [] names n obj new h = cc
pending-snoc-find (p ∷ ps) names n obj new h = elim (Bool-cases (text_eq p.key n)) [
  | inl same ↦
      let key : p.key ≡ n = text_eq→eq p.key n same in
      let known : contains names p.key ≡ false = rw key new in
      ground (arith, contains-snoc names n p.key, text_eq_sym n p.key, pending-snoc-le ps names n)
  | inr other ↦ ground (
    arith,
    contains-snoc names n p.key,
    text_eq_sym n p.key,
    pending-snoc-find ps names n obj new,
  )
]

recursion_error-braces : braces recursion_error ≡ 0
unfolding braces
recursion_error-braces = refl

unknown_error-braces : (n : Text) → braces (unknown_error n) ≡ braces n
unfolding braces
unknown_error-braces n = simp braces-append (omega arith)

-- The brackets that a replacement brings in are no longer pending after it.
pub replacement-pending :
    (props : List Property) (names : List Text) (n : Text)
    → braces n ≡ 0
    → braces (replacement props names n) + pending props (names ++ n ∷ []) ≤ pending props names
unfolding replacement
replacement-pending props names n plain = elim (Bool-cases (contains names n)) [
  | inl old ↦ rw old (omega (arith, recursion_error-braces, pending-snoc-le props names n))
  | inr new ↦ rw new (elim (Option-cases (find (λ p. text_eq p.key n) props)) [
    | inl missing ↦
        rw missing (omega (arith, unknown_error-braces n, pending-snoc-le props names n))
    | inr (obj, found) ↦ rw found (pending-snoc-find props names n obj new found)
  ])
]

index_of_close-find :
    (s : Text) (start stop : ℕ)
    → index_of_close s start ≡ some stop
    → (k : ℕ) × (find_close (drop start s) ≡ some k) × (start + k ≡ stop)
unfolding index_of_close
index_of_close-find s start stop h = elim (Option-cases (find_close (drop start s))) [
  | inl missing ↦ absurd (ground arith)
  | inr (k, found) ↦ (k, found, ground arith)
]

braces-cut : (n : ℕ) (s : Text) → braces s ≡ braces (take n s) + braces (drop n s)
braces-cut n s = ap braces (sym (take-append-drop n s)) ∙ braces-append (take n s) (drop n s)

-- The name between the brackets holds none, and one replacement uses one bracket up.
pub name-braces :
    (s : Text) (start stop : ℕ)
    → index_of_close s start ≡ some stop
    → braces (substring s (start + 2) stop) ≡ 0
name-braces s start stop h =
    let (k, found, same) = index_of_close-find s start stop h in
    let short : stop - (start + 2) ≡ k - 2 = omega arith in
    rw (short, ← drop-drop start 2 s)
      (omega
        (arith, braces-take-drop 2 k (drop start s), (braces-find_close (drop start s) k found).0))

pub splice-braces :
    (s : Text) (start stop : ℕ) (repl : Text)
    → index_of_close s start ≡ some stop
    → suc (braces (splice s start stop repl)) ≡ braces repl + braces s
unfolding splice
splice-braces s start stop repl h =
    let (k, found, same) = index_of_close-find s start stop h in
    let rest : stop + 1 ≡ start + suc k = omega arith in
    rw (rest, ← drop-drop start (suc k) s)
      (omega (
        arith,
        braces-append (take start s) (repl ++ drop (suc k) (drop start s)),
        braces-append repl (drop (suc k) (drop start s)),
        braces-cut start s,
        (braces-find_close (drop start s) k found).1,
      ))
