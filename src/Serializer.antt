-- ===== src/Serializer.antt =====
-- extension/base_serializer.py: `BaseSerializer`, over the two methods that its subclasses fill
-- with json and msgpack.
pub mod RoundTrip
pub mod Types
use summerrpc.Prelude.{
  ℕ, zero, suc, Bool, true, false, Option, none, some, List, [], ◌∷◌, ◌++◌, not, ◌&&◌, ◌||◌,
  if◌then◌else◌, ◌==◌,
}
use summerrpc.Prelude.Int.{ℤ, pos, negsuc}
use summerrpc.Exceptions.{
  Class, is_subclass, type_error, value_error, serialization_error, deserialization_error,
}
use summerrpc.Text.{Bytes, codes, is_nil}
use summerrpc.Messages.{
  Value, nothing, bool, int, text, sequence, dict, other, no_values, value, Pairs, no_pairs, pair,
  get_value, is_none, Request, new_request, Exc, Result, new_result, Object, request, result,
  foreign, Outcome, ok, raised, and_then,
}
use summerrpc.Messages

-- json or msgpack: `_dumps`, `_loads`, and `str` of a value, as `str(ex)` gives it for
-- `RuntimeError(value)`.
pub record Format : Type 0 where
  pub dumps_dict : Pairs → Outcome Bytes
  pub loads_value : Bytes → Outcome Value
  pub str : Value → Bytes

-- `bool(v)`; an object of another class is true.
abbrev pub truth : Value → Bool
truth nothing = false
truth (bool b) = b
truth (int (pos zero)) = false
truth (int (pos (suc n))) = true
truth (int (negsuc n)) = true
truth (text s) = not (is_nil s)
truth (sequence no_values) = false
truth (sequence (value v vs)) = true
truth (dict no_pairs) = false
truth (dict (pair k v ps)) = true
truth (other n) = true

-- `d.get(key, default)`
abbrev pub get_or : Bytes → Value → Pairs → Value
get_or key default_ d = elim (get_value key d) [ none ↦ default_ | some v ↦ v ]

abbrev pub is_text : Value → Bool
is_text (text s) = true
is_text _ = false

abbrev pub is_sequence : Value → Bool
is_sequence (sequence vs) = true
is_sequence _ = false

abbrev pub is_dict : Value → Bool
is_dict (dict ps) = true
is_dict _ = false

-- `except (TypeError, ValueError)`
unfoldable pub as_error : {A : Type 0} → Class → Class → Outcome A
as_error e c = raised (if is_subclass c type_error || is_subclass c value_error then e else c)

-- The four values that `loads` checks.
abbrev pub well_typed : Value → Value → Value → Value → Bool
well_typed class_name method_name args kwargs =
    is_text class_name && (is_text method_name && (is_sequence args && is_dict kwargs))

unfoldable pub load_request : Pairs → Outcome Object
load_request d =
    let class_name = get_or (codes "class_name") nothing d in
    let method_name = get_or (codes "method_name") nothing d in
    let args = get_or (codes "args") (sequence no_values) d in
    let kwargs = get_or (codes "kwargs") (dict no_pairs) d in
    if not (well_typed class_name method_name args kwargs)
    then raised value_error
    else ok (
        request (record new_request {
          class_name = class_name;
          method_name = method_name;
          args = args;
          kwargs = kwargs;
        }))

-- `RuntimeError(data["exc"])`, when there is one.
abbrev pub load_exc : (Value → Bytes) → Value → Option Exc
load_exc str nothing = none
load_exc str v = some (record { class_name = codes "RuntimeError"; message = str v })

unfoldable pub load_result : (Value → Bytes) → Pairs → Outcome Object
load_result str d = ok (
    result (record {
      result = get_or (codes "result") nothing d;
      exc = load_exc str (get_or (codes "exc") nothing d);
      meta = get_or (codes "meta") nothing d;
    }))

unfoldable pub load_value : (Value → Bytes) → Value → Outcome Object
unfolding load_request load_result
load_value str (dict d) =
    if truth (get_or (codes "is_request") (bool true) d) then load_request d else load_result str d
load_value str _ = raised type_error

abbrev pub guarded : {A : Type 0} → Class → Outcome A → Outcome A
guarded e (ok a) = ok a
guarded e (raised c) = as_error e c

-- `BaseSerializer.loads`
unfoldable pub loads : Format → Bytes → Outcome Object
unfolding load_value
loads self buff =
    guarded deserialization_error (and_then (self.loads_value buff) (load_value self.str))

-- "%s: %s" of the class and the text.
abbrev pub dump_exc : Option Exc → Value
dump_exc none = nothing
dump_exc (some e) = text (e.class_name ++ (codes ": " ++ e.message))

-- The dict that `dumps` fills; for anything but a request or a result it stays empty.
unfoldable pub to_dict : Object → Pairs
to_dict (request r) = pair (codes "class_name") r.class_name (
    pair (codes "method_name") r.method_name (
      pair (codes "args") r.args (
        pair (codes "kwargs") r.kwargs
          (pair (codes "meta") r.meta (pair (codes "is_request") (bool true) no_pairs)))))
to_dict (result r) = pair (codes "result") r.result (
    pair (codes "exc") (dump_exc r.exc)
      (pair (codes "meta") r.meta (pair (codes "is_request") (bool false) no_pairs)))
to_dict (foreign n) = no_pairs

-- `if not d: raise TypeError`
abbrev pub dump_pairs : Format → Pairs → Outcome Bytes
dump_pairs self no_pairs = raised type_error
dump_pairs self (pair k v ps) = self.dumps_dict (pair k v ps)

-- `BaseSerializer.dumps`
unfoldable pub dumps : Format → Object → Outcome Bytes
unfolding to_dict
dumps self obj = guarded serialization_error (dump_pairs self (to_dict obj))
