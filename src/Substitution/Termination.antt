-- ===== src/Substitution/Termination.antt =====
-- Both loops of `substituteVariableForProp` end: every replacement removes one closing bracket, and
-- brings in brackets only of a value that was not visited before.
use elunic_myturck.Base.{
  ℕ, zero, suc, ◌+◌, ◌≤◌, ◌<◌, ◌≡◌, refl, some, List, [], ◌∷◌, ◌++◌, arith, ◌⊎◌, Option-cases, true,
  Bool-cases, inl, inr, ltb, length,
}
use elunic_myturck.Base.Slices.{zero-add}
use elunic_myturck.Base.Text.{Text, substring}
use elunic_myturck.Substitution.{
  Property, LoopExit, finished, stopped, Substituted, find_open, index_of_open, index_of_close,
  replacement, splice, braces, pending, replace_loop, substitute_variable, substitute, enough_fuel,
  ok,
}
use elunic_myturck.Substitution.Braces.{name-braces, splice-braces, replacement-pending}

abbrev weight : List Property → Text → List Text → ℕ
weight props value visited = braces value + pending props visited

abbrev next_value : List Property → Text → ℕ → ℕ → List Text → Text
next_value props value start stop visited =
    splice value start stop (replacement props visited (substring value (start + 2) stop))

abbrev next_visited : Text → ℕ → ℕ → List Text → List Text
next_visited value start stop visited = visited ++ substring value (start + 2) stop ∷ []

weight_falls :
    (props : List Property) (value : Text) (start stop : ℕ) (visited : List Text)
    → index_of_close value start ≡ some stop
    → weight props
        (next_value props value start stop visited)
        (next_visited value start stop visited)
      < weight props value visited
weight_falls props value start stop visited h = omega (
  arith,
  splice-braces value start stop (replacement props visited (substring value (start + 2) stop)) h,
  replacement-pending props visited (substring value (start + 2) stop)
      (name-braces value start stop h),
)

-- What is left to do after the loop, at most what was to do before it.
abbrev AtMost : List Property → ℕ → LoopExit → Type 0
AtMost props w (finished v c names) = weight props v names ≤ w
AtMost props w (stopped v c) = Unit

AtMost-mono :
    (props : List Property) (w w' : ℕ) (e : LoopExit)
    → w ≤ w'
    → AtMost props w e
    → AtMost props w' e
AtMost-mono props w w' (finished v c names) h k = omega arith
AtMost-mono props w w' (stopped v c) h k = tt

abbrev Below : List Property → ℕ → LoopExit → Type 0
Below props w (finished v c names) = weight props v names < w
Below props w (stopped v c) = Unit

Below_of_AtMost :
    (props : List Property) (w w' : ℕ) (e : LoopExit) → w < w' → AtMost props w e → Below props w' e
Below_of_AtMost props w w' (finished v c names) h k = omega arith
Below_of_AtMost props w w' (stopped v c) h k = tt

pub replace_loop_total :
    (fuel : ℕ) (props : List Property) (value : Text) (pos count : ℕ) (visited : List Text)
    → weight props value visited < fuel
    → (e : LoopExit) × (replace_loop fuel props value pos count visited ≡ some e)
      × AtMost props (weight props value visited) e
unfolding replace_loop
replace_loop_total zero props value pos count visited h = absurd (omega arith)
replace_loop_total (suc fuel) props value pos count visited h =
    elim (Bool-cases (ltb pos (length value))) [
      | inr past ↦ (finished value count visited, rw (past, replace_loop) refl, omega arith)
      | inl inside ↦ elim (Option-cases (index_of_open value pos)) [
        | inl missing ↦
            (finished value count visited, rw (inside, missing, replace_loop) refl, omega arith)
        | inr (start, opened) ↦ elim (Option-cases (index_of_close value start)) [
          | inl unclosed ↦
              (stopped value count, rw (inside, opened, unclosed, replace_loop) refl, tt)
          | inr (stop, closed) ↦
              let falls = weight_falls props value start stop visited closed in
              let (e, run, left) =
                replace_loop_total fuel props (next_value props value start stop visited) (stop + 1)
                  (count + 1) (next_visited value start stop visited) (omega arith) in
              (
                e,
                rw (inside, opened, closed, replace_loop) run,
                AtMost-mono props _ _ e (omega arith) left,
              )
        ]
      ]
    ]

-- A value with an opening bracket is not past its end at position 0.
pub find_open-inside :
    (value : Text) (k : ℕ)
    → find_open value ≡ some k
    → (ltb 0 (length value) ≡ true) × (index_of_open value 0 ≡ some k)
unfolding find_open index_of_open
find_open-inside [] k h = cc
find_open-inside (c ∷ s) k h = (ground arith, rw h (rw zero-add refl))

-- From the start of a value with an opening bracket the loop leaves strictly less to do.
replace_loop_falls :
    (fuel : ℕ) (props : List Property) (value : Text) (visited : List Text) {k : ℕ}
    → find_open value ≡ some k
    → weight props value visited < suc fuel
    → (e : LoopExit) × (replace_loop (suc fuel) props value 0 0 visited ≡ some e)
      × Below props (weight props value visited) e
unfolding replace_loop
replace_loop_falls fuel props value visited {k} some_open h =
    let (inside, opened) = find_open-inside value k some_open in
    elim (Option-cases (index_of_close value k)) [
      | inl unclosed ↦ (stopped value 0, rw (inside, opened, unclosed, replace_loop) refl, tt)
      | inr (stop, closed) ↦
          let falls = weight_falls props value k stop visited closed in
          let (e, run, left) =
            replace_loop_total fuel props (next_value props value k stop visited) (stop + 1) 1
              (next_visited value k stop visited) (omega arith) in
          (e, rw (inside, opened, closed, replace_loop) run, Below_of_AtMost props _ _ e falls left)
    ]

pub LoopExit-cases :
    (e : LoopExit)
    → ((v : Text) × (c : ℕ) × (names : List Text) × (e ≡ finished v c names))
      ⊎ ((v : Text) × (c : ℕ) × (e ≡ stopped v c))
LoopExit-cases (finished v c names) = inl (v, c, names, refl)
LoopExit-cases (stopped v c) = inr (v, c, refl)

substitute_variable_total :
    (fuel : ℕ) (props : List Property) (value : Text) (visited : List Text)
    → weight props value visited < fuel
    → (r : Substituted) × (substitute_variable fuel props value visited ≡ some r)
unfolding substitute_variable
substitute_variable_total zero props value visited h = absurd (omega arith)
substitute_variable_total (suc fuel) props value visited h = elim (Option-cases (find_open value)) [
  | inl plain ↦ (record { text = value; count = 0 }, rw (plain, substitute_variable) refl)
  | inr (k, opened) ↦
      let (e, run, left) = replace_loop_falls fuel props value visited opened h in
      elim (LoopExit-cases e) [
        | inl (v, c, names, same) ↦
            let left' : weight props v names < weight props value visited = rw same at left in
            let (r, later) = substitute_variable_total fuel props v names (omega arith) in
            (
              record { text = r.text; count = c + r.count },
              rw (opened, substitute_variable, run, same, later) refl,
            )
        | inr (v, c, same) ↦
            (record { text = v; count = c }, rw (opened, substitute_variable, run, same) refl)
      ]
]

-- The substitution in a value always returns: the fuel that the model gives is never used up.
pub substitute_total :
    (props : List Property) (value : Text) (visited : List Text)
    → (r : Substituted) × (substitute props value visited ≡ ok r)
unfolding substitute enough_fuel
substitute_total props value visited =
    let (r, run) =
      substitute_variable_total (suc (braces value + pending props visited)) props value visited
        (omega arith) in
    (r, rw run refl)
