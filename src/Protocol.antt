-- ===== src/Protocol.antt =====
-- protocol.py and filter.py: `Protocol`, its filters and its invoker.
pub mod Sorting
use summerrpc.Prelude.{
  ℕ, zero, suc, ◌+◌, ◌≡◌, ◌≤◌, refl, sym, ap, ◌∙◌, Bool, true, false, Option, none, some, List, [],
  ◌∷◌, ◌++◌, if◌then◌else◌, arith, leb, ltb, ◌==◌, if_split, if_cases, All, map,
}
use summerrpc.Prelude.Int.{ℤ, pos_part, neg_part}
use summerrpc.Exceptions.{Class, type_error, attribute_error}
use summerrpc.Messages.{Request, Outcome, ok, raised, and_then}

-- A `Filter`: `filter` may change the request.
pub record Filter : Type 0 where
  pub filter : Request → Outcome Request
  pub get_order : ℤ

-- What `invoke` hands to the invoker besides the request stays as it is, so an invoker is a
-- function of the request.
pub record Protocol (A : Type 0) : Type 0 where
  pub filters : List Filter
  pub invoker : Option (Request → Outcome A)

-- `Protocol.__init__`
abbrev pub new_protocol : {A : Type 0} → Protocol A
new_protocol = record { filters = []; invoker = none }

-- `add_filter`; `none` is an object that is no Filter.
unfoldable pub add_filter : {A : Type 0} → Option Filter → Protocol A → Outcome (Protocol A)
add_filter none self = raised type_error
add_filter (some f) self = ok (record self { filters = self.filters ++ f ∷ [] })

-- `set_invoker`
unfoldable pub set_invoker :
    {A : Type 0} → Option (Request → Outcome A) → Protocol A → Outcome (Protocol A)
set_invoker none self = raised type_error
set_invoker (some i) self = ok (record self { invoker = some i })

-- `a <= b`
abbrev pub leb_ℤ : ℤ → ℤ → Bool
leb_ℤ a b = leb (pos_part a + neg_part b) (pos_part b + neg_part a)

-- `sorted(filters, key=get_order, reverse=True)`: equal orders keep their places.
abbrev pub insert : Filter → List Filter → List Filter
insert f [] = f ∷ []
insert f (g ∷ gs) =
    let rest = insert f gs in if leb_ℤ g.get_order f.get_order then f ∷ g ∷ gs else g ∷ rest

unfoldable pub sorted : List Filter → List Filter
sorted [] = []
sorted (f ∷ fs) = insert f (sorted fs)

-- The `for` loop: the first filter that raises ends it.
unfoldable pub run_filters : List Filter → Request → Outcome Request
run_filters [] request = ok request
run_filters (f ∷ fs) request = and_then (f.filter request) (run_filters fs)

-- `self._invoker.invoke(request, ...)`
abbrev pub invoked_by : {A : Type 0} → Option (Request → Outcome A) → Request → Outcome A
invoked_by none request = raised attribute_error
invoked_by (some i) request = i request

-- `invoke`
unfoldable pub invoke : {A : Type 0} → Protocol A → Request → Outcome A
unfolding run_filters sorted
invoke self request = and_then (run_filters (sorted self.filters) request) (invoked_by self.invoker)
