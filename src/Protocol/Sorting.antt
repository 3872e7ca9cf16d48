-- ===== src/Protocol/Sorting.antt =====
-- protocol.py: the order in which the filters run.
use summerrpc.Prelude.{
  some, sym, subst, Bool-cases, inl, inr, Bool, true, false, ◌≡◌, refl, ap, ◌∙◌, Bool, true, List,
  [], ◌∷◌, if◌then◌else◌, arith, ◌&&◌, if_split, if_cases, All,
}
use summerrpc.Prelude.Int.{ℤ}
use summerrpc.Exceptions.{Class}
use summerrpc.Messages.{Request, Outcome, ok, raised, and_then}
use summerrpc.Protocol.{Protocol, invoke, run_filters, invoked_by, Filter, leb_ℤ, insert, sorted}

-- Later filters have no greater order.
abbrev pub Descending : List Filter → Type 0
Descending [] = Unit
Descending (f ∷ fs) = All (λ g. leb_ℤ g.get_order f.get_order ≡ true) fs × Descending fs

abbrev pub same_order : ℤ → ℤ → Bool
same_order a b = leb_ℤ a b && leb_ℤ b a

-- The filters of one order, as they stand in a list.
abbrev pub with_order : ℤ → List Filter → List Filter
with_order k [] = []
with_order k (f ∷ fs) =
    let rest = with_order k fs in if same_order f.get_order k then f ∷ rest else rest

All-weaken :
    (a b : ℤ) (fs : List Filter)
    → leb_ℤ a b ≡ true
    → All (λ g. leb_ℤ g.get_order a ≡ true) fs
    → All (λ g. leb_ℤ g.get_order b ≡ true) fs
All-weaken a b [] e h = tt
All-weaken a b (g ∷ gs) e h = let x = h.0 in (ground (arith, e, x), All-weaken a b gs e h.1)

All-insert :
    (P : Filter → Type 0) (f : Filter) (gs : List Filter) → P f → All P gs → All P (insert f gs)
All-insert P f [] p h = (p, tt)
All-insert P f (g ∷ gs) p h =
    if_cases (All P) (leb_ℤ g.get_order f.get_order) (p, h) (h.0, All-insert P f gs p h.1)

Descending-insert : (f : Filter) (gs : List Filter) → Descending gs → Descending (insert f gs)
Descending-insert f [] h = (tt, tt)
Descending-insert f (g ∷ gs) h =
    if_split Descending (leb_ℤ g.get_order f.get_order)
      (λ e. ((e, All-weaken g.get_order f.get_order gs e h.0), h))
      (λ e.
        let le : leb_ℤ f.get_order g.get_order ≡ true = ground (arith, e) in
        (
          All-insert (λ x. leb_ℤ x.get_order g.get_order ≡ true) f gs le h.0,
          Descending-insert f gs h.1,
        ))

with_order-insert :
    (k : ℤ) (f : Filter) (gs : List Filter) → with_order k (insert f gs) ≡ with_order k (f ∷ gs)
with_order-insert k f [] = refl
with_order-insert k f (g ∷ gs) =
    if_split (λ l. with_order k l ≡ with_order k (f ∷ g ∷ gs)) (leb_ℤ g.get_order f.get_order)
      (λ e. refl) (λ e. let ih = with_order-insert k f gs in ground (arith, e, ih))

pub Descending-sorted : (fs : List Filter) → Descending (sorted fs)
unfolding sorted
Descending-sorted [] = tt
Descending-sorted (f ∷ fs) = Descending-insert f (sorted fs) (Descending-sorted fs)

pub with_order-sorted : (k : ℤ) (fs : List Filter) → with_order k (sorted fs) ≡ with_order k fs
unfolding sorted
with_order-sorted k [] = refl
with_order-sorted k (f ∷ fs) =
    with_order-insert k f (sorted fs)
    ∙ ap (λ l. if same_order f.get_order k then f ∷ l else l) (with_order-sorted k fs)

same_order-own : (k : ℤ) → same_order k k ≡ true
same_order-own k = ground arith

with_order-head :
    (f : Filter) (fs : List Filter)
    → with_order f.get_order (f ∷ fs) ≡ f ∷ with_order f.get_order fs
with_order-head f fs =
    let rest = with_order f.get_order fs in
    ap (λ (b : Bool). if b then f ∷ rest else rest) (same_order-own f.get_order)

-- An order that occurs behind a filter is not greater than its order.
occurs_below :
    (k a : ℤ) (gs : List Filter) (z : Filter) (zs : List Filter)
    → All (λ g. leb_ℤ g.get_order a ≡ true) gs
    → with_order k gs ≡ z ∷ zs
    → leb_ℤ k a ≡ true
occurs_below k a [] z zs h e = absurd (cc)
occurs_below k a (g ∷ gs) z zs h e = elim (Bool-cases (same_order g.get_order k)) [
  | inl s ↦ let le = h.0 in ground (arith, s, le)
  | inr s ↦
      let rest = with_order k gs in
      let there = sym (ap (λ (b : Bool). if b then g ∷ rest else rest) s) ∙ e in
      occurs_below k a gs z zs h.1 there
]

occurs_in :
    (k : ℤ) (g : Filter) (gs : List Filter) (z : Filter) (zs : List Filter)
    → Descending (g ∷ gs)
    → with_order k (g ∷ gs) ≡ z ∷ zs
    → leb_ℤ k g.get_order ≡ true
occurs_in k g gs z zs d e =
    let own : leb_ℤ g.get_order g.get_order ≡ true = ground arith in
    occurs_below k g.get_order (g ∷ gs) z zs (own, d.0) e

-- The rest of two lists that begin alike.
with_order-tail :
    (k : ℤ) (f : Filter) (fs gs : List Filter)
    → with_order k (f ∷ fs) ≡ with_order k (f ∷ gs)
    → with_order k fs ≡ with_order k gs
with_order-tail k f fs gs e = go (same_order f.get_order k) e
  where
    go :
        (b : Bool)
        → ◌≡◌ {A = List Filter}
            (if b then f ∷ with_order k fs else with_order k fs)
            (if b then f ∷ with_order k gs else with_order k gs)
        → with_order k fs ≡ with_order k gs
    go true e = cc
    go false e = e

-- A descending list is known by the filters of each order.
Descending-unique :
    (fs gs : List Filter)
    → Descending fs
    → Descending gs
    → ((k : ℤ) → with_order k fs ≡ with_order k gs)
    → fs ≡ gs
Descending-unique [] [] c d h = refl
Descending-unique [] (g ∷ gs) c d h = let e = h g.get_order ∙ with_order-head g gs in absurd (cc)
Descending-unique (f ∷ fs) [] c d h =
    let e = sym (with_order-head f fs) ∙ h f.get_order in absurd (cc)
Descending-unique (f ∷ fs) (g ∷ gs) c d h =
    let mine = sym (h f.get_order) ∙ with_order-head f fs in
    let theirs = h g.get_order ∙ with_order-head g gs in
    let up = occurs_in f.get_order g gs f (with_order f.get_order fs) d mine in
    let down = occurs_in g.get_order f fs g (with_order g.get_order gs) c theirs in
    let both : same_order g.get_order f.get_order ≡ true = ground (arith, up, down) in
    let rest = with_order f.get_order gs in
    let heads : f ∷ with_order f.get_order fs ≡ g ∷ rest =
      sym mine ∙ ap (λ (b : Bool). if b then g ∷ rest else rest) both in
    let first : f ≡ g = cc in
    let tails : (k : ℤ) → with_order k fs ≡ with_order k gs =
      λ k. with_order-tail k f fs gs (h k ∙ ap (λ x. with_order k (x ∷ gs)) (sym first)) in
    ap (λ x. x ∷ fs) first ∙ ap (λ x. g ∷ x) (Descending-unique fs gs c.1 d.1 tails)

-- The filters of the list take the request in turn, each what the one before it left; an error ends
-- this and is the outcome, and the invoker gets what the last one left.
abbrev pub Runs : {A : Type 0} → List Filter → (Request → Outcome A) → Request → Outcome A → Type 0
Runs [] i r o = o ≡ i r
Runs (f ∷ fs) i r o =
    ((r' : Request) → f.filter r ≡ ok r' → Runs fs i r' o)
    × ((e : Class) → f.filter r ≡ raised e → o ≡ raised e)

run_filters-Runs :
    {A : Type 0} (fs : List Filter) (i : Request → Outcome A) (r : Request)
    → Runs fs i r (and_then (run_filters fs r) i)
unfolding run_filters
run_filters-Runs [] i r = refl
run_filters-Runs (f ∷ fs) i r = (
  λ r' e.
      subst (λ x. Runs fs i r' (and_then (and_then x (run_filters fs)) i)) (sym e)
        (run_filters-Runs fs i r'),
  λ c e. ap (λ x. and_then (and_then x (run_filters fs)) i) e,
)

-- When a list holds the filters by descending order, those of one order as they were added, and an
-- invoker is set, then `invoke` runs the filters as they stand in that list, each on the request that
-- the one before it left, up to the first that raises; if none raises, the invoker gets the request.
pub invoke-Descending :
    {A : Type 0} (self : Protocol A) (gs : List Filter) (i : Request → Outcome A) (r : Request)
    → self.invoker ≡ some i
    → Descending gs
    → ((k : ℤ) → with_order k gs ≡ with_order k self.filters)
    → Runs gs i r (invoke self r)
unfolding invoke
invoke-Descending self gs i r e d h =
    let sorted_is : sorted self.filters ≡ gs =
      Descending-unique (sorted self.filters) gs (Descending-sorted self.filters) d
        (λ k. with_order-sorted k self.filters ∙ sym (h k)) in
    let same : invoke self r ≡ and_then (run_filters gs r) i =
      ap (λ fs. and_then (run_filters fs r) (invoked_by self.invoker)) sorted_is
      ∙ ap (λ o. and_then (run_filters gs r) (invoked_by o)) e in
    subst (Runs gs i r) (sym same) (run_filters-Runs gs i r)
