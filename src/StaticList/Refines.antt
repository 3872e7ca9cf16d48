-- ===== src/StaticList/Refines.antt =====
-- helper/list.py: the methods of `StaticList` against a bounded stack.
use summerrpc.Prelude.{
  ℕ, zero, suc, ◌+◌, ◌-◌, ◌<◌, ◌≡◌, refl, sym, ap, some, List, [], ◌∷◌, ◌++◌, arith, length,
  get_elem?, set, Fresh, Distinct, Distinct-middle, get_elem?-set_self, get_elem?-lt, ◌∙◌,
  append-Fresh, Fresh-append, middle-Distinct,
}
use summerrpc.Prelude.Int.{pos}
use summerrpc.StaticList.{
  Node, StaticList, ok, raise, list_full, list_empty, free_nodes, init, insert_left, pop_left,
  peek_left,
}
use summerrpc.StaticList.Chain.{
  Chain, nil, cons, Holds, Rep, Chain-set, Holds-set, end_of_nil, uncons, length-Holds,
}

module _ {A : Type 0} {cap : ℕ} (s : StaticList A) {xs : List A} where
  pub length-used : (r : Rep cap s xs) → length r.used ≡ length xs
  length-used r = length-Holds s.nodes r.used xs r.holds

  insert_into :
      (e : A) (used free : List ℕ)
      → Chain s.nodes s.head.next used
      → Chain s.nodes s.space.next free
      → Holds s.nodes used xs
      → Distinct (used ++ free)
      → length used + length free ≡ cap
      → s.current_size ≡ length used
      → 0 < length free
      → (s' : StaticList A) × (insert_left e s ≡ ok s' tt) × Rep cap s' (e ∷ xs)
  unfolding insert_left
  insert_into e used [] c f h d t z room = absurd (omega arith)
  insert_into e used (i ∷ free) c f h d t z room =
      let (n, p, g, rest) = uncons f in
      let (u, v, w) = Distinct-middle used i free d in
      let m : Node A = record { element = some e; next = s.head.next } in
      let lt = get_elem?-lt s.nodes i n g in
      (
        record s {
          nodes = set s.nodes i m;
          head = record (s.head) { next = pos i };
          space = record (s.space) { next = n.next };
          current_size = s.current_size + 1;
        },
        ground arith,
        record {
          used = i ∷ used;
          free = free;
          stack = cons (get_elem?-set_self s.nodes i m lt) (Chain-set i m c u);
          spare = Chain-set i m rest v;
          holds = ((m, get_elem?-set_self s.nodes i m lt, refl), Holds-set s.nodes used xs i m h u);
          distinct = (append-Fresh i used free u v, w);
          total = omega arith;
          sized = omega arith;
        },
      )

  pop_from :
      (x : A) (used free : List ℕ)
      → Chain s.nodes s.head.next used
      → Chain s.nodes s.space.next free
      → Holds s.nodes used (x ∷ xs)
      → Distinct (used ++ free)
      → length used + length free ≡ cap
      → s.current_size ≡ length used
      → (s' : StaticList A) × (pop_left s ≡ ok s' (some x)) × Rep cap s' xs
  unfolding pop_left
  pop_from x [] free c f h d t z = absurd h
  pop_from x (i ∷ used) free c f h d t z =
      let (n, p, g, rest) = uncons c in
      let (u, v) = Fresh-append i used free d.0 in
      let m : Node A = record n { next = s.space.next } in
      let lt = get_elem?-lt s.nodes i n g in
      (
        record s {
          nodes = set s.nodes i m;
          head = record (s.head) { next = n.next };
          space = record (s.space) { next = pos i };
          current_size = s.current_size - 1;
        },
        ground (arith, h.0.1, h.0.2),
        record {
          used = used;
          free = i ∷ free;
          stack = Chain-set i m rest u;
          spare = cons (get_elem?-set_self s.nodes i m lt) (Chain-set i m f v);
          holds = Holds-set s.nodes used xs i m h.1 u;
          distinct = middle-Distinct used i free u v d.1;
          total = omega arith;
          sized = omega arith;
        },
      )

  -- With room left, an insertion succeeds and the array then holds the element on top.
  pub insert_left-push :
      (e : A)
      → Rep cap s xs
      → length xs < cap
      → (s' : StaticList A) × (insert_left e s ≡ ok s' tt) × Rep cap s' (e ∷ xs)
  insert_left-push e r room =
      insert_into e r.used r.free r.stack r.spare r.holds r.distinct r.total r.sized
        (omega (arith, length-used r, r.total))

  -- At capacity an insertion is refused and the array stays as it was.
  pub insert_left-full :
      (e : A) → Rep cap s xs → length xs ≡ cap → insert_left e s ≡ raise s list_full
  unfolding insert_left
  insert_left-full e r full = go r.free r.spare (omega (arith, length-used r, r.total))
    where
      go :
          (free : List ℕ)
          → Chain s.nodes s.space.next free
          → length free ≡ 0
          → insert_left e s ≡ raise s list_full
      go [] f z = ground (arith, end_of_nil f)
      go (i ∷ free) f z = absurd (omega arith)

  pub pop_left-cons :
      (x : A)
      → Rep cap s (x ∷ xs)
      → (s' : StaticList A) × (pop_left s ≡ ok s' (some x)) × Rep cap s' xs
  pop_left-cons x r = pop_from x r.used r.free r.stack r.spare r.holds r.distinct r.total r.sized

module _ {A : Type 0} {cap : ℕ} (s : StaticList A) where
  pub pop_left-nil : Rep cap s [] → pop_left s ≡ raise s list_empty
  unfolding pop_left
  pop_left-nil r = ground (arith, length-used s r, r.sized)

  pub peek_left-nil : Rep cap s [] → peek_left s ≡ raise s list_empty
  unfolding peek_left
  peek_left-nil r = ground (arith, length-used s r, r.sized)

module _ {A : Type 0} (s : StaticList A) where
  peek_at :
      (xs : List A) (x : A) (used : List ℕ)
      → Chain s.nodes s.head.next used
      → Holds s.nodes used (x ∷ xs)
      → s.current_size ≡ length used
      → peek_left s ≡ ok s (some x)
  unfolding peek_left
  peek_at xs x [] c h z = absurd h
  peek_at xs x (i ∷ used) c h z =
      let (n, p, g, rest) = uncons c in
      let lt = get_elem?-lt s.nodes i n g in ground (arith, h.0.1, h.0.2)

module _ {A : Type 0} {cap : ℕ} (s : StaticList A) where
  pub peek_left-cons : {xs : List A} (x : A) → Rep cap s (x ∷ xs) → peek_left s ≡ ok s (some x)
  peek_left-cons {xs} x r = peek_at s xs x r.used r.stack r.holds r.sized

abbrev count_from : ℕ → ℕ → List ℕ
count_from zero i = []
count_from (suc n) i = i ∷ count_from n (i + 1)

Fresh-count_from : (j n i : ℕ) → j < i → Fresh j (count_from n i)
Fresh-count_from j zero i h = tt
Fresh-count_from j (suc n) i h = (omega arith, Fresh-count_from j n (i + 1) (omega arith))

Distinct-count_from : (n i : ℕ) → Distinct (count_from n i)
Distinct-count_from zero i = tt
Distinct-count_from (suc n) i =
    (Fresh-count_from i n (i + 1) (omega arith), Distinct-count_from n (i + 1))

length-count_from : (n i : ℕ) → length (count_from n i) ≡ n
length-count_from zero i = refl
length-count_from (suc n) i = ap suc (length-count_from n (i + 1))

module _ {A : Type 0} where
  Chain-free_nodes :
      (ns : List (Node A)) (n i : ℕ)
      → ((k : ℕ) → get_elem? ns (i + k) ≡ get_elem? (free_nodes (suc n) i) k)
      → Chain ns (pos i) (count_from (suc n) i)
  unfolding free_nodes
  Chain-free_nodes ns zero i h =
      let z : i + 0 ≡ i = omega arith in cons (ap (get_elem? ns) (sym z) ∙ h 0) nil
  Chain-free_nodes ns (suc n) i h =
      let z : i + 0 ≡ i = omega arith in
      cons (ap (get_elem? ns) (sym z) ∙ h 0) (
        Chain-free_nodes ns n (i + 1)
          λ k. let e : i + 1 + k ≡ i + suc k = omega arith in ap (get_elem? ns) e ∙ h (suc k))

  -- A new list is empty, and has room for `max_size` elements.
  pub init-Rep : (n : ℕ) → Rep {A = A} (suc n) (init (suc n)) []
  unfolding init
  init-Rep n = record {
    used = [];
    free = count_from (suc n) 0;
    stack = nil;
    spare =
        Chain-free_nodes (free_nodes (suc n) 0) n 0
          (λ k. let e : 0 + k ≡ k = omega arith in ap (get_elem? (free_nodes {A = A} (suc n) 0)) e);
    holds = tt;
    distinct = Distinct-count_from (suc n) 0;
    total = omega (arith, length-count_from (suc n) 0);
    sized = refl;
  }
