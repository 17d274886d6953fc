-- ===== src/Substitution.antt =====
-- Variable substitution in asset properties:
-- asset-manager-backend/src/asset-property/property-variable-substitution.ts. A value is a list of
-- code units, positions are indices into it as in the source, and both loops take fuel.
pub mod Braces
pub mod Termination
pub mod Steps
pub mod Bare
pub mod Painting
pub mod Rounds
pub mod Faults
mod Tests
use elunic_myturck.Base.{
  ℕ, zero, suc, ◌+◌, Bool, true, false, not, ◌&&◌, Option, none, some, List, [], ◌∷◌, ◌++◌, length,
  take, drop, find, ltb, ◌==◌, if◌then◌else◌,
}
use mathlib.Core.Option
use elunic_myturck.Base.Text.{Text, codes, text_eq, contains, substring}

-- `AssetPropertyType`
pub data PropertyType : Type 0 where
  string number date boolean file : PropertyType

abbrev pub is_string : PropertyType → Bool
is_string string = true
is_string _ = false

-- `AssetPropertyValue`: a string, or a number, boolean or date with its truth value and with the
-- text that a template literal makes of it.
pub data PropertyValue : Type 0 where
  str : Text → PropertyValue
  scalar : Bool → Text → PropertyValue

-- The fields of `UnitedPropertyDto` that the substitution reads or writes.
pub record Property : Type 0 where
  pub key : Text
  pub type : PropertyType
  pub value : Option PropertyValue
  pub rendered_value : Option Text

-- `UPDATE_LIMIT`
abbrev pub update_limit : ℕ
update_limit = 21

abbrev pub is_empty : Text → Bool
is_empty [] = true
is_empty _ = false

-- `(obj.value as string) || ''`, inserted into a template literal
abbrev pub value_text : Option PropertyValue → Text
value_text none = []
value_text (some (str t)) = t
value_text (some (scalar truthy t)) = if truthy then t else []

abbrev pub opens : Text → Bool
opens (c ∷ d ∷ s) = c == b'$' && d == b'{'
opens _ = false

-- `s.indexOf('${')` and `s.indexOf('}')`
pub find_open : Text → Option ℕ
find_open [] = none
find_open (c ∷ s) = if opens (c ∷ s) then some 0 else Option.map suc (find_open s)

pub find_close : Text → Option ℕ
find_close [] = none
find_close (c ∷ s) = if c == b'}' then some 0 else Option.map suc (find_close s)

-- `value.indexOf('${', pos)` and `value.indexOf('}', pos)`
pub index_of_open : Text → ℕ → Option ℕ
index_of_open s pos = Option.map (λ k. pos + k) (find_open (drop pos s))

pub index_of_close : Text → ℕ → Option ℕ
index_of_close s pos = Option.map (λ k. pos + k) (find_close (drop pos s))

abbrev recursion_error : Text
recursion_error = codes "[Error: recursion in variables]"

abbrev unknown_error : Text → Text
unknown_error name = codes "[Error: no such variable '" ++ (name ++ codes "']")

-- `replStr`
pub replacement : List Property → List Text → Text → Text
replacement props visited name =
    if contains visited name then recursion_error else elim (find (λ p. text_eq p.key name) props) [
      | none ↦ unknown_error name
      | some obj ↦ value_text obj.value
    ]

pub splice : Text → ℕ → ℕ → Text → Text
splice value start stop repl = take start value ++ (repl ++ drop (stop + 1) value)

-- How the inner loop ends: by its condition or `break`, or by the early `return`.
pub data LoopExit : Type 0 where
  finished : Text → ℕ → List Text → LoopExit
  stopped : Text → ℕ → LoopExit

pub replace_loop : ℕ → List Property → Text → ℕ → ℕ → List Text → Option LoopExit
replace_loop zero props value pos count visited = none
replace_loop (suc fuel) props value pos count visited = elim (ltb pos (length value)) [
  | false ↦ some (finished value count visited)
  | true ↦ elim (index_of_open value pos) [
    | none ↦ some (finished value count visited)
    | some start ↦ elim (index_of_close value start) [
      | none ↦ some (stopped value count)
      | some stop ↦
          replace_loop fuel props
            (splice value start stop (replacement props visited (substring value (start + 2) stop)))
            (stop + 1) (count + 1) (visited ++ substring value (start + 2) stop ∷ [])
    ]
  ]
]

-- `SubstitutionResult`
pub record Substituted : Type 0 where
  pub text : Text
  pub count : ℕ

abbrev pub add_count : ℕ → Option Substituted → Option Substituted
add_count c = Option.map (λ r. record { text = r.text; count = c + r.count })

-- What follows the loop: the early `return`, or the function once more.
abbrev pub after_loop :
    (Text → List Text → Option Substituted) → Option LoopExit → Option Substituted
after_loop again none = none
after_loop again (some (stopped v c)) = some (record { text = v; count = c })
after_loop again (some (finished v c names)) = add_count c (again v names)

pub substitute_variable : ℕ → List Property → Text → List Text → Option Substituted
substitute_variable zero props value visited = none
substitute_variable (suc fuel) props value visited = elim (find_open value) [
  | none ↦ some (record { text = value; count = 0 })
  | some _ ↦
      after_loop (substitute_variable fuel props) (replace_loop (suc fuel) props value 0 0 visited)
]

-- `replacements[key] = text` on an object
pub assign : Text → Text → List (Text × Text) → List (Text × Text)
assign k v [] = (k, v) ∷ []
assign k v ((j, w) ∷ m) = if text_eq j k then (k, v) ∷ m else (j, w) ∷ assign k v m

-- A round fails on a value of type STRING that is no string: it has no `indexOf`.
pub data Fault : Type 0 where
  type_error out_of_fuel : Fault

pub data Outcome {ℓ} (A : Type ℓ) : Type ℓ where
  ok : A → Outcome A
  fail : Fault → Outcome A

infixl 5 ◌>>=◌
abbrev pub ◌>>=◌ {ℓ κ} : {A : Type ℓ} {B : Type κ} → Outcome A → (A → Outcome B) → Outcome B
ok a >>= f = f a
fail e >>= f = fail e

abbrev pub from_fuel : Option Substituted → Outcome Substituted
from_fuel none = fail out_of_fuel
from_fuel (some r) = ok r

-- `${` or `}` can only come from the value or from the other values: so many replacements suffice.
pub braces : Text → ℕ
braces [] = 0
braces (c ∷ s) = if c == b'}' then suc (braces s) else braces s

pub pending : List Property → List Text → ℕ
pending [] visited = 0
pending (p ∷ ps) visited =
    (if contains visited p.key then 0 else braces (value_text p.value)) + pending ps visited

pub enough_fuel : List Property → Text → List Text → ℕ
enough_fuel props value visited = suc (braces value + pending props visited)

pub substitute : List Property → Text → List Text → Outcome Substituted
substitute props value visited =
    from_fuel (substitute_variable (enough_fuel props value visited) props value visited)

-- The rest of the loop over the properties that collects the replacements.
pub record Staged : Type 0 where
  pub substitutions : ℕ
  pub replacements : List (Text × Text)

abbrev pub add_staged : Text → Substituted → Staged → Staged
add_staged key r acc = record {
  substitutions = acc.substitutions + r.count;
  replacements = assign key r.text acc.replacements;
}

-- `prop.value && prop.type === AssetPropertyType.STRING` and the call for such a property
pub stage : List Property → Property → Option PropertyValue → Staged → Outcome Staged
stage props p none acc = ok acc
stage props p (some (scalar truthy t)) acc =
    if truthy && is_string p.type then fail type_error else ok acc
stage props p (some (str t)) acc =
    if not (is_empty t) && is_string p.type
    then (substitute props t (p.key ∷ []) >>= λ r. ok (add_staged p.key r acc))
    else ok acc

pub collect : List Property → List Property → Staged → Outcome Staged
collect props [] acc = ok acc
collect props (p ∷ ps) acc = do acc' ← stage props p p.value acc; collect props ps acc'

-- `updatedProps.find(p => p.key === key)`, and the assignment to what it finds
pub render : Text → Text → List Property → List Property
render k v [] = []
render k v (p ∷ ps) =
    if text_eq p.key k then record p { rendered_value = some v } ∷ ps else p ∷ render k v ps

pub render_all : List (Text × Text) → List Property → List Property
render_all [] props = props
render_all ((k, v) ∷ rs) props = render_all rs (render k v props)

-- One pass of the `do` loop: the number of substitutions and the properties after it.
pub round : List Property → Outcome (ℕ × List Property)
round props = do
  staged ← collect props props (record { substitutions = 0; replacements = [] })
  ok (staged.substitutions, render_all staged.replacements props)

-- The `do` loop with so many passes left; with the properties, how many passes were made.
pub rounds : ℕ → ℕ → List Property → Outcome (List Property × ℕ)
rounds zero i props = ok (props, i)
rounds (suc left) i props = elim (round props) [
  | fail e ↦ fail e
  | ok (substitutions, props') ↦ elim (ltb 0 substitutions && ltb (i + 1) update_limit) [
    | true ↦ rounds left (i + 1) props'
    | false ↦ ok (props', i + 1)
  ]
]

pub perform_variable_substitution : List Property → Outcome (List Property × ℕ)
perform_variable_substitution props = rounds update_limit 0 props
