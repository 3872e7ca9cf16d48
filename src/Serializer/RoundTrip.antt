-- ===== src/Serializer/RoundTrip.antt =====
-- extension/base_serializer.py: what `loads` makes of what `dumps` wrote.
use summerrpc.Prelude.{
  ltb, ◌&&◌, Bool, true, false, [], ◌∷◌, ◌≡◌, refl, ap, ◌∙◌, Option, none, some, ◌++◌,
  if◌then◌else◌, Bool-cases, inl, inr,
}
use summerrpc.Exceptions.{
  Class, is_subclass, is_subclass_refl, type_error, value_error, deserialization_error,
  serialization_error,
}
use summerrpc.Text.{Bytes, codes}
use summerrpc.Messages.{
  Value, nothing, bool, int, text, sequence, dict, other, Values, no_values, value, Pairs, no_pairs,
  pair, Exc, Object, request, result, foreign, Outcome, ok, raised, and_then,
}
use summerrpc.Serializer.{
  Format, guarded, as_error, well_typed, load_value, load_request, load_result, load_exc, dump_exc,
  to_dict, dump_pairs, loads, dumps,
}

abbrev is_ascii : Bytes → Bool
is_ascii [] = true
is_ascii (b ∷ bs) = ltb b 128 && is_ascii bs

-- Values that both json and msgpack read back as they are, but for the difference of str and unicode,
-- which are equal for ASCII texts. A date, which they write as a text, is not plain.
abbrev mutual
  pub is_plain : Value → Bool
  is_plain nothing = true
  is_plain (bool b) = true
  is_plain (int n) = true
  is_plain (text s) = is_ascii s
  is_plain (sequence vs) = are_plain vs
  is_plain (dict d) = is_plain_dict d
  is_plain (other n) = false

  pub are_plain : Values → Bool
  are_plain no_values = true
  are_plain (value v vs) = is_plain v && are_plain vs

  pub is_plain_dict : Pairs → Bool
  is_plain_dict no_pairs = true
  is_plain_dict (pair k v ps) = is_ascii k && (is_plain v && is_plain_dict ps)

-- What is written of the object is plain.
abbrev pub Plain : Object → Type 0
Plain obj = is_plain_dict (to_dict obj) ≡ true

-- What the format has to do: it reads back the plain dicts that it writes, and an ASCII text prints as
-- itself.
pub record IsFaithful (self : Format) : Type 0 where
  pub reads_back :
      (d : Pairs) (buff : Bytes)
      → is_plain_dict d ≡ true
      → self.dumps_dict d ≡ ok buff
      → self.loads_value buff ≡ ok (dict d)
  pub str-text : (s : Bytes) → self.str (text s) ≡ s

-- The exception that the other end raises.
abbrev pub reraised : Option Exc → Option Exc
reraised none = none
reraised (some e) = some (record {
  class_name = codes "RuntimeError";
  message = e.class_name ++ (codes ": " ++ e.message);
})

-- What arrives: a request without its meta, if its names are texts, its arguments a sequence and
-- its keyword arguments a dict; a result with its exception as a RuntimeError.
unfoldable pub received : Object → Outcome Object
received (request r) =
    if well_typed r.class_name r.method_name r.args r.kwargs
    then ok (request (record r { meta = nothing }))
    else raised deserialization_error
received (result r) = ok (result (record r { exc = reraised r.exc }))
received (foreign n) = raised serialization_error

as_error-value_error :
    {A : Type 0} → (e : Class) → ◌≡◌ {A = Outcome A} (as_error e value_error) (raised e)
unfolding as_error
as_error-value_error e =
    let own = is_subclass_refl value_error in
    elim (Bool-cases (is_subclass value_error type_error)) [
      | inl x ↦ rw (as_error, x) refl
      | inr x ↦ rw (as_error, x, own) refl
    ]

guarded-ok : {A : Type 0} → (e : Class) (x : Outcome A) (a : A) → guarded e x ≡ ok a → x ≡ ok a
unfolding as_error
guarded-ok e (ok b) a h = h
guarded-ok e (raised c) a h = absurd (cc)

dumps-dict :
    (self : Format) (d : Pairs) (buff : Bytes)
    → dump_pairs self d ≡ ok buff
    → self.dumps_dict d ≡ ok buff
dumps-dict self no_pairs buff h = absurd (cc)
dumps-dict self (pair k v ps) buff h = h

load_exc-dump_exc :
    (self : Format) (f : IsFaithful self) (e : Option Exc)
    → load_exc self.str (dump_exc e) ≡ reraised e
load_exc-dump_exc self f none = refl
load_exc-dump_exc self f (some e) =
    ap (λ m. some (record { class_name = codes "RuntimeError"; message = m })) (f.str-text _)

load_value-to_dict :
    (self : Format) (f : IsFaithful self) (obj : Object) (buff : Bytes)
    → dump_pairs self (to_dict obj) ≡ ok buff
    → guarded deserialization_error (load_value self.str (dict (to_dict obj))) ≡ received obj
unfolding load_value load_request load_result to_dict received as_error
load_value-to_dict self f (request r) buff h =
    elim (Bool-cases (well_typed r.class_name r.method_name r.args r.kwargs)) [
      | inl e ↦ rw (e) refl
      | inr e ↦ rw (e) (as_error-value_error deserialization_error)
    ]
load_value-to_dict self f (result r) buff h =
    ap (λ x. ok (result (record r { exc = x }))) (load_exc-dump_exc self f r.exc)
load_value-to_dict self f (foreign n) buff h = absurd (cc)

-- When `dumps` writes an object of plain values and the format reads back the plain dicts that it
-- writes, then `loads`
-- returns what is to arrive: the result, with its exception as a RuntimeError of the same text, or
-- the request without its meta; a request of the wrong types raises DeserializationError.
pub loads-dumps :
    (self : Format) (obj : Object) (buff : Bytes)
    → IsFaithful self
    → Plain obj
    → dumps self obj ≡ ok buff
    → loads self buff ≡ received obj
unfolding loads dumps
loads-dumps self obj buff f p h =
    let written = guarded-ok serialization_error (dump_pairs self (to_dict obj)) buff h in
    let back = f.reads_back (to_dict obj) buff p (dumps-dict self (to_dict obj) buff written) in
    ap (λ x. guarded deserialization_error (and_then x (load_value self.str))) back
    ∙ load_value-to_dict self f obj buff written
