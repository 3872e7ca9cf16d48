-- ===== src/Messages.antt =====
-- request.py and result.py: what travels between the two ends, and the Python values in it as far
-- as the program looks at them.
use summerrpc.Prelude.{ℕ, Bool, true, false, Option, none, some, ◌||◌}
use summerrpc.Prelude.Int.{ℤ}
use summerrpc.Exceptions.{Class, request_validate_error}
use summerrpc.Text.{Bytes, same}

-- A Python value: a tuple and a list are both sequences, and the keys of a dict are texts.
mutual
  pub data Value : Type 0 where
    nothing : Value
    bool : Bool → Value
    int : ℤ → Value
    text : Bytes → Value
    sequence : Values → Value
    dict : Pairs → Value
    other : ℕ → Value

  pub data Values : Type 0 where
    no_values : Values
    value : Value → Values → Values

  pub data Pairs : Type 0 where
    no_pairs : Pairs
    pair : Bytes → Value → Pairs → Pairs

-- `d.get(key)`
abbrev pub get_value : Bytes → Pairs → Option Value
get_value key no_pairs = none
get_value key (pair k v ps) =
    let rest = get_value key ps in elim (same k key) [ true ↦ some v | false ↦ rest ]

-- `x is None`
abbrev pub is_none : Value → Bool
is_none nothing = true
is_none _ = false

-- `Request`
pub record Request : Type 0 where
  pub class_name : Value
  pub method_name : Value
  pub args : Value
  pub kwargs : Value
  pub meta : Value

-- `Request.__init__`
abbrev pub new_request : Request
new_request = record {
  class_name = nothing;
  method_name = nothing;
  args = sequence no_values;
  kwargs = dict no_pairs;
  meta = nothing;
}

-- `Request.validate`: what it raises.
unfoldable pub validate : Request → Option Class
validate self = elim (is_none self.class_name || is_none self.method_name) [
  | true ↦ some request_validate_error
  | false ↦ none
]

-- An exception: the name of its class, and its text.
pub record Exc : Type 0 where
  pub class_name : Bytes
  pub message : Bytes

-- `Result`
pub record Result : Type 0 where
  pub result : Value
  pub exc : Option Exc
  pub meta : Value

-- `Result.__init__`
abbrev pub new_result : Result
new_result = record { result = nothing; exc = none; meta = nothing }

-- What a serializer is given, and what it returns.
pub data Object : Type 0 where
  request : Request → Object
  result : Result → Object
  foreign : ℕ → Object

-- How a call ends.
pub data Outcome (A : Type 0) : Type 0 where
  ok : A → Outcome A
  raised : Class → Outcome A

abbrev pub and_then : {A B : Type 0} → Outcome A → (A → Outcome B) → Outcome B
and_then (ok a) k = k a
and_then (raised c) k = raised c
