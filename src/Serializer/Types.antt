-- ===== src/Serializer/Types.antt =====
-- extension/base_serializer.py: the types of what `loads` returns.
use summerrpc.Prelude.{◌&&◌, ◌≡◌, refl, Bool, true, false, not, if_split, subst}
use summerrpc.Exceptions.{Class, deserialization_error}
use summerrpc.Messages
use summerrpc.Text.{Bytes, codes}
use summerrpc.Messages.{
  Value, nothing, bool, int, text, sequence, dict, other, Values, Pairs, Request, Object, request,
  result, foreign, Outcome, ok, raised, and_then,
}
use summerrpc.Serializer.{
  Format, loads, load_value, load_request, load_result, guarded, as_error, well_typed, is_text,
  is_sequence, is_dict, truth, get_or,
}

-- The names of a request are texts, its arguments a sequence and its keyword arguments a dict, and it
-- has no meta; a result may hold anything, and nothing else is returned.
abbrev pub WellTyped : Object → Type 0
WellTyped (request r) =
    ((s : Bytes) × (r.class_name ≡ text s))
    × ((s : Bytes) × (r.method_name ≡ text s))
    × ((vs : Values) × (r.args ≡ sequence vs))
    × ((ps : Pairs) × (r.kwargs ≡ dict ps))
    × (r.meta ≡ nothing)
WellTyped (result r) = Unit
WellTyped (foreign n) = ⊥

abbrev Fine : Outcome Object → Type 0
Fine (ok obj) = WellTyped obj
Fine (raised c) = Unit

is_text-cases : (v : Value) → is_text v ≡ true → (s : Bytes) × (v ≡ text s)
is_text-cases (text s) h = (s, refl)
is_text-cases nothing h = absurd (cc)
is_text-cases (bool b) h = absurd (cc)
is_text-cases (int n) h = absurd (cc)
is_text-cases (sequence vs) h = absurd (cc)
is_text-cases (dict d) h = absurd (cc)
is_text-cases (other n) h = absurd (cc)

is_sequence-cases : (v : Value) → is_sequence v ≡ true → (vs : Values) × (v ≡ sequence vs)
is_sequence-cases (sequence vs) h = (vs, refl)
is_sequence-cases nothing h = absurd (cc)
is_sequence-cases (bool b) h = absurd (cc)
is_sequence-cases (int n) h = absurd (cc)
is_sequence-cases (text s) h = absurd (cc)
is_sequence-cases (dict d) h = absurd (cc)
is_sequence-cases (other n) h = absurd (cc)

is_dict-cases : (v : Value) → is_dict v ≡ true → (d : Pairs) × (v ≡ dict d)
is_dict-cases (dict d) h = (d, refl)
is_dict-cases nothing h = absurd (cc)
is_dict-cases (bool b) h = absurd (cc)
is_dict-cases (int n) h = absurd (cc)
is_dict-cases (text s) h = absurd (cc)
is_dict-cases (sequence vs) h = absurd (cc)
is_dict-cases (other n) h = absurd (cc)

and-cases : (a b : Bool) → (a && b) ≡ true → (a ≡ true) × (b ≡ true)
and-cases true b h = (refl, h)
and-cases false b h = absurd (cc)

not-false : (b : Bool) → not b ≡ false → b ≡ true
not-false true e = refl
not-false false e = absurd (cc)

load_request-Fine : (d : Pairs) → Fine (load_request d)
unfolding load_request
load_request-Fine d =
    let class_name = get_or (codes "class_name") nothing d in
    let method_name = get_or (codes "method_name") nothing d in
    let args = get_or (codes "args") (sequence Messages.no_values) d in
    let kwargs = get_or (codes "kwargs") (dict Messages.no_pairs) d in
    if_split Fine (not (well_typed class_name method_name args kwargs)) (λ e. tt)
      (λ e.
        let fine = not-false (well_typed class_name method_name args kwargs) e in
        let (c, rest) = and-cases _ _ fine in
        let (m, more) = and-cases _ _ rest in
        let (a, k) = and-cases _ _ more in
        (
          is_text-cases class_name c,
          is_text-cases method_name m,
          is_sequence-cases args a,
          is_dict-cases kwargs k,
          refl,
        ))

load_value-Fine : (str : Value → Bytes) (v : Value) → Fine (load_value str v)
unfolding load_value load_result
load_value-Fine str (dict d) =
    if_split Fine (truth (get_or (codes "is_request") (bool true) d)) (λ e. load_request-Fine d)
      (λ e. tt)
load_value-Fine str nothing = tt
load_value-Fine str (bool b) = tt
load_value-Fine str (int n) = tt
load_value-Fine str (text s) = tt
load_value-Fine str (sequence vs) = tt
load_value-Fine str (other n) = tt

guarded-Fine : (e : Class) (o : Outcome Object) → Fine o → Fine (guarded e o)
unfolding as_error
guarded-Fine e (ok obj) h = h
guarded-Fine e (raised c) h = tt

-- Whatever bytes arrive and whatever the format makes of them: a request that `loads` returns has
-- texts for names, a sequence of arguments and a dict of keyword arguments, and it carries no meta;
-- and `loads` returns nothing but requests and results.
pub loads-WellTyped :
    (self : Format) (buff : Bytes) (obj : Object) → loads self buff ≡ ok obj → WellTyped obj
unfolding loads
loads-WellTyped self buff obj h = subst Fine h (
    guarded-Fine deserialization_error (and_then (self.loads_value buff) (load_value self.str))
      (loaded (self.loads_value buff)))
  where
    loaded : (o : Outcome Value) → Fine (and_then o (load_value self.str))
    loaded (ok v) = load_value-Fine self.str v
    loaded (raised c) = tt
