-- ===== src/Substitution/Steps.antt =====
-- What one replacement and the whole substitution do to a text, without positions.
use elunic_myturck.Base.{
  ℕ, zero, suc, ◌+◌, ◌≡◌, refl, none, some, Option, List, [], ◌∷◌, arith, length, drop,
  Option-cases, Bool-cases, ◌⊎◌, inl, inr, ltb, true,
}
use elunic_myturck.Base.Slices.{drop-drop}
use elunic_myturck.Base.Text.{Text}
use elunic_myturck.Substitution.{
  Property, finished, stopped, Substituted, opens, find_open, index_of_open, index_of_close,
  replace_loop, substitute_variable, substitute, enough_fuel, add_count, from_fuel, ok,
}
use elunic_myturck.Substitution.Braces.{map-suc-ne-zero, map-suc-eq-some}
use elunic_myturck.Substitution.Termination.{substitute_total, LoopExit-cases}

-- The ways in which a text is finished: it has no opening bracket, or one that is never closed.
abbrev pub Unclosed : Text → Type 0
Unclosed v = (start : ℕ) × (opens (drop start v) ≡ true) × (index_of_close v start ≡ none)

abbrev pub Settled : Text → Type 0
Settled v = (find_open v ≡ none) ⊎ Unclosed v

find_open-opens : (s : Text) (k : ℕ) → find_open s ≡ some k → opens (drop k s) ≡ true
unfolding find_open
find_open-opens [] k h = cc
find_open-opens (c ∷ s) zero h = elim (Bool-cases (opens (c ∷ s))) [
  | inl here ↦ here
  | inr later ↦ absurd (map-suc-ne-zero (find_open s) (rw later at h))
]
find_open-opens (c ∷ s) (suc k) h = elim (Bool-cases (opens (c ∷ s))) [
  | inl here ↦ absurd (ground arith)
  | inr later ↦ find_open-opens s k (map-suc-eq-some (find_open s) k (rw later at h))
]

index_of_open-opens :
    (s : Text) (pos k : ℕ) → index_of_open s pos ≡ some k → opens (drop k s) ≡ true
unfolding index_of_open
index_of_open-opens s pos k h = elim (Option-cases (find_open (drop pos s))) [
  | inl missing ↦ absurd (ground arith)
  | inr (j, found) ↦
      let same : pos + j ≡ k = ground arith in
      rw (← same, ← drop-drop pos j s) (find_open-opens (drop pos s) j found)
]

replace_loop-Unclosed :
    (fuel : ℕ) (props : List Property) (value : Text) (pos count : ℕ) (visited : List Text)
    {v : Text} {c : ℕ}
    → replace_loop fuel props value pos count visited ≡ some (stopped v c)
    → Unclosed v
unfolding replace_loop
replace_loop-Unclosed zero props value pos count visited h = absurd cc
replace_loop-Unclosed (suc fuel) props value pos count visited {v} {c} h =
    elim (Bool-cases (ltb pos (length value))) [
      | inr past ↦ absurd (cc (rw (past, replace_loop) at h))
      | inl inside ↦ elim (Option-cases (index_of_open value pos)) [
        | inl missing ↦ absurd (cc (rw (inside, missing, replace_loop) at h))
        | inr (start, opened) ↦ elim (Option-cases (index_of_close value start)) [
          | inl unclosed ↦
              let h' : some (stopped value count) ≡ some (stopped v c) =
                rw (inside, opened, unclosed, replace_loop) at h in
              let same : value ≡ v = cc h' in
              rw (← same) (start, index_of_open-opens value pos start opened, unclosed)
          | inr (stop, closed) ↦
              replace_loop-Unclosed fuel props _ _ _ _
                (rw (inside, opened, closed, replace_loop) at h)
        ]
      ]
    ]

add_count-Settled :
    (c : ℕ) (o : Option Substituted) (r : Substituted)
    → ((r' : Substituted) → o ≡ some r' → Settled r'.text)
    → add_count c o ≡ some r
    → Settled r.text
add_count-Settled c none r ih h = absurd (cc h)
add_count-Settled c (some r') r ih h =
    let text : r'.text ≡ r.text = ground arith in rw (← text) (ih r' refl)

substitute_variable-Settled :
    (fuel : ℕ) (props : List Property) (value : Text) (visited : List Text) (r : Substituted)
    → substitute_variable fuel props value visited ≡ some r
    → Settled r.text
unfolding substitute_variable
substitute_variable-Settled zero props value visited r h = absurd (cc h)
substitute_variable-Settled (suc fuel) props value visited r h =
    elim (Option-cases (find_open value)) [
      | inl plain ↦
          let h' : some (record { text = value; count = 0 }) ≡ some r =
            rw (plain, substitute_variable) at h in
          let same : value ≡ r.text = ground arith in inl (rw (← same) plain)
      | inr (k, opened) ↦ elim (Option-cases (replace_loop (suc fuel) props value 0 0 visited)) [
        | inl failed ↦ absurd (cc (rw (opened, substitute_variable, failed) at h))
        | inr (e, run) ↦ elim (LoopExit-cases e) [
          | inr (v, c, same) ↦
              let run' : replace_loop (suc fuel) props value 0 0 visited ≡ some (stopped v c) =
                rw same at run in
              let h' : some (record { text = v; count = c }) ≡ some r =
                rw (opened, substitute_variable, run') at h in
              let text : v ≡ r.text = ground arith in
              inr (rw (← text) (replace_loop-Unclosed (suc fuel) props value 0 0 visited run'))
          | inl (v, c, names, same) ↦
              let run' : replace_loop (suc fuel) props value 0 0 visited
                  ≡ some (finished v c names) =
                rw same at run in
              add_count-Settled c (substitute_variable fuel props v names) r
                (λ r'. substitute_variable-Settled fuel props v names r')
                (rw (opened, substitute_variable, run') at h)
        ]
      ]
    ]

from_fuel-Settled :
    (o : Option Substituted) (r : Substituted)
    → ((r' : Substituted) → o ≡ some r' → Settled r'.text)
    → from_fuel o ≡ ok r
    → Settled r.text
from_fuel-Settled none r ih h = absurd (cc h)
from_fuel-Settled (some r') r ih h =
    let text : r'.text ≡ r.text = ground arith in rw (← text) (ih r' refl)

-- Every value that the substitution returns has no `${` left, or a `${` that no `}` follows.
pub substitute-Settled :
    (props : List Property) (value : Text) (visited : List Text)
    → (r : Substituted) × (substitute props value visited ≡ ok r) × Settled r.text
unfolding substitute
substitute-Settled props value visited =
    let (r, run) = substitute_total props value visited in
    (
      r,
      run,
      from_fuel-Settled (substitute_variable (enough_fuel props value visited) props value visited)
          r
          (λ r'.
            substitute_variable-Settled (enough_fuel props value visited) props value visited r')
          run,
    )
