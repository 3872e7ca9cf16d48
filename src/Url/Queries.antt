-- ===== src/Url/Queries.antt =====
-- helper/url.py: the arguments of a query, built and parsed.
use summerrpc.Prelude.{
  ◌≡◌, ◌≢◌, refl, sym, ap, subst, ◌∙◌, Bool, true, false, Option, none, some, List, [], ◌∷◌, ◌++◌,
  if◌then◌else◌, map, arith, All, append-All, Bool-cases, inl, inr, if_split, append-nil,
  append_assoc,
}
use summerrpc.Text.{Bytes, same, split_once, split_all, join_with}
use summerrpc.Text.Laws.{Lacks, split_once-append, split_all-join_with, same-eq, same_refl}
use summerrpc.Tables.{get_item, append_item, append_to, get_item-append_item}
use summerrpc.Url.{Arguments, parse_items, parse_query, argument, of_key, flatten, query_text}

-- The values that a list of arguments gives a key, after those that it has.
abbrev pub grouped : Bytes → List (Bytes × Bytes) → Option (List Bytes) → Option (List Bytes)
grouped k [] found = found
grouped k ((j, v) ∷ ps) found = grouped k ps (if same j k then append_to found v else found)

-- `with_argument`, call by call.
abbrev pub add_arguments : List (Bytes × Bytes) → Arguments → Arguments
add_arguments [] t = t
add_arguments ((k, v) ∷ ps) t = add_arguments ps (append_item k v t)

get_item-add_arguments :
    (k : Bytes) (ps : List (Bytes × Bytes)) (t : Arguments)
    → get_item k (add_arguments ps t) ≡ grouped k ps (get_item k t)
get_item-add_arguments k [] t = refl
get_item-add_arguments k ((j, v) ∷ ps) t =
    get_item-add_arguments k ps (append_item j v t)
    ∙ ap (grouped k ps) (get_item-append_item j v t k)

-- An argument that survives: no "=" in its key, and no "&" in either part.
pub record IsPlain (p : Bytes × Bytes) : Type 0 where
  pub key_equals : Lacks 61 p.0
  pub key_and : Lacks 38 p.0
  pub value_and : Lacks 38 p.1

parse_items-argument :
    (ps : List (Bytes × Bytes)) (t : Arguments)
    → All IsPlain ps
    → parse_items (λ s. s) (map argument ps) t ≡ add_arguments ps t
unfolding parse_items
parse_items-argument [] t h = refl
parse_items-argument ((k, v) ∷ ps) t h =
    let e = split_once-append 61 k v h.0.key_equals in
    rw (parse_items, e) (parse_items-argument ps (append_item k v t) h.1)

argument-Lacks : (ps : List (Bytes × Bytes)) → All IsPlain ps → All (Lacks 38) (map argument ps)
argument-Lacks [] h = tt
argument-Lacks ((k, v) ∷ ps) h = (
  append-All (λ d. d ≢ 38) k (61 ∷ v) h.0.key_and (omega arith, h.0.value_and),
  argument-Lacks ps h.1,
)

-- A query's text is parsed to its arguments.
parse_query-join :
    (ps : List (Bytes × Bytes))
    → All IsPlain ps
    → parse_query (λ s. s) (join_with 38 (map argument ps)) ≡ add_arguments ps []
unfolding parse_query split_all join_with parse_items split_once
parse_query-join [] h = refl
parse_query-join (p ∷ ps) h =
    let g = argument-Lacks (p ∷ ps) h in
    ap (λ items. parse_items (λ s. s) items [])
      (split_all-join_with 38 (argument p) (map argument ps) g.0 g.1)
    ∙ parse_items-argument (p ∷ ps) [] h

-- No key stands twice.
abbrev pub Distinct : Arguments → Type 0
Distinct [] = Unit
Distinct ((k, vs) ∷ t) = (get_item k t ≡ none) × Distinct t

-- A key has values, and each is an argument that survives.
abbrev pub IsEntry : Bytes × List Bytes → Type 0
IsEntry (k, vs) = (vs ≢ []) × All IsPlain (of_key k vs)

grouped_other :
    (k j : Bytes) (vs : List Bytes) (ps : List (Bytes × Bytes)) (found : Option (List Bytes))
    → same j k ≡ false
    → grouped k (of_key j vs ++ ps) found ≡ grouped k ps found
grouped_other k j [] ps found e = refl
grouped_other k j (v ∷ vs) ps found e =
    ap (λ (b : Bool). grouped k (of_key j vs ++ ps) (if b then append_to found v else found)) e
    ∙ grouped_other k j vs ps found e

grouped_own :
    (k j : Bytes) (vs ws : List Bytes) (ps : List (Bytes × Bytes))
    → same j k ≡ true
    → grouped k (of_key j vs ++ ps) (some ws) ≡ grouped k ps (some (ws ++ vs))
grouped_own k j [] ws ps e = ap (λ x. grouped k ps (some x)) (sym (append-nil ws))
grouped_own k j (v ∷ vs) ws ps e =
    ap (λ (b : Bool). grouped k (of_key j vs ++ ps) (if b then some (ws ++ v ∷ []) else some ws)) e
    ∙ grouped_own k j vs (ws ++ v ∷ []) ps e
    ∙ ap (λ x. grouped k ps (some x)) (append_assoc ws (v ∷ []) vs)

grouped_absent :
    (k : Bytes) (t : Arguments) (found : Option (List Bytes))
    → get_item k t ≡ none
    → grouped k (flatten t) found ≡ found
grouped_absent k [] found e = refl
grouped_absent k ((j, vs) ∷ t) found e = elim (Bool-cases (same j k)) [
  | inl y ↦
      let z : some vs ≡ none = ap (λ (b : Bool). if b then some vs else get_item k t) (sym y) ∙ e in
      absurd (cc)
  | inr n ↦
      let rest : get_item k t ≡ none =
        ap (λ (b : Bool). if b then some vs else get_item k t) (sym n) ∙ e in
      grouped_other k j vs (flatten t) found n ∙ grouped_absent k t found rest
]

grouped-flatten :
    (k : Bytes) (t : Arguments)
    → Distinct t
    → All IsEntry t
    → grouped k (flatten t) none ≡ get_item k t
grouped-flatten k [] d h = refl
grouped-flatten k ((j, []) ∷ t) d h = absurd (h.0.0 refl)
grouped-flatten k ((j, v ∷ vs) ∷ t) d h = elim (Bool-cases (same j k)) [
  | inl y ↦
      ap (λ (b : Bool). grouped k (of_key j vs ++ flatten t) (if b then some (v ∷ []) else none)) y
      ∙ grouped_own k j vs (v ∷ []) (flatten t) y
      ∙ grouped_absent k t (some (v ∷ vs)) (subst (λ x. get_item x t ≡ none) (same-eq j k y) d.0)
      ∙ ap (λ (b : Bool). if b then some (v ∷ vs) else get_item k t) (sym y)
  | inr n ↦
      grouped_other k j (v ∷ vs) (flatten t) none n
      ∙ grouped-flatten k t d.1 h.1
      ∙ ap (λ (b : Bool). if b then some (v ∷ vs) else get_item k t) (sym n)
]

flatten-IsPlain : (t : Arguments) → All IsEntry t → All IsPlain (flatten t)
flatten-IsPlain [] h = tt
flatten-IsPlain ((k, vs) ∷ t) h =
    append-All IsPlain (of_key k vs) (flatten t) h.0.1 (flatten-IsPlain t h.1)

Distinct-append_item : (k v : Bytes) (t : Arguments) → Distinct t → Distinct (append_item k v t)
Distinct-append_item k v [] d = (refl, tt)
Distinct-append_item k v ((j, vs) ∷ t) d =
    if_split Distinct (same j k) (λ e. d)
      λ e.
        let no_j : same k j ≡ false = not_same k j e in
        (
          get_item-append_item k v t j
              ∙ ap (λ (b : Bool). if b then append_to (get_item j t) v else get_item j t) no_j
              ∙ d.0,
          Distinct-append_item k v t d.1,
        )
  where
    not_same : (a b : Bytes) → same b a ≡ false → same a b ≡ false
    not_same a b e = elim (Bool-cases (same a b)) [
      | inr n ↦ n
      | inl y ↦
          let q : same b a ≡ true = ap (λ x. same x a) (sym (same-eq a b y)) ∙ same_refl a in
          absurd (cc)
    ]

of_key-snoc : (j v : Bytes) (vs : List Bytes) → of_key j (vs ++ v ∷ []) ≡ of_key j vs ++ (j, v) ∷ []
of_key-snoc j v [] = refl
of_key-snoc j v (w ∷ vs) = ap (λ x. (j, w) ∷ x) (of_key-snoc j v vs)

snoc-ne-nil : (v : Bytes) (vs : List Bytes) → vs ++ v ∷ [] ≢ []
snoc-ne-nil v [] e = cc
snoc-ne-nil v (w ∷ vs) e = cc

IsEntry-append_item :
    (k v : Bytes) (t : Arguments) → IsPlain (k, v) → All IsEntry t → All IsEntry (append_item k v t)
IsEntry-append_item k v [] p h = ((λ e. cc, (p, tt)), tt)
IsEntry-append_item k v ((j, vs) ∷ t) p h =
    if_split (All IsEntry) (same j k)
      (λ e.
        let own = subst (λ x. IsPlain (x, v)) (sym (same-eq j k e)) p in
        let plain = append-All IsPlain (of_key j vs) ((j, v) ∷ []) h.0.1 (own, tt) in
        ((snoc-ne-nil v vs, subst (All IsPlain) (sym (of_key-snoc j v vs)) plain), h.1))
      (λ e. (h.0, IsEntry-append_item k v t p h.1))

add_arguments-IsEntry :
    (ps : List (Bytes × Bytes)) (t : Arguments)
    → All IsPlain ps
    → All IsEntry t
    → All IsEntry (add_arguments ps t)
add_arguments-IsEntry [] t p h = h
add_arguments-IsEntry ((k, v) ∷ ps) t p h =
    add_arguments-IsEntry ps (append_item k v t) p.1 (IsEntry-append_item k v t p.0 h)

add_arguments-Distinct :
    (ps : List (Bytes × Bytes)) (t : Arguments) → Distinct t → Distinct (add_arguments ps t)
add_arguments-Distinct [] t d = d
add_arguments-Distinct ((k, v) ∷ ps) t d =
    add_arguments-Distinct ps (append_item k v t) (Distinct-append_item k v t d)

-- The iteration of a dict: each entry once, in any order.
pub record Reorders (in_order : Arguments → Arguments) : Type 1 where
  pub keeps : (P : Bytes × List Bytes → Type 0) (t : Arguments) → All P t → All P (in_order t)
  pub distinct : (t : Arguments) → Distinct t → Distinct (in_order t)
  pub finds : (t : Arguments) (k : Bytes) → Distinct t → get_item k (in_order t) ≡ get_item k t

-- In whatever order the arguments' dict is iterated, parsing the query that is built of a list of
-- arguments gives each key its values in the order in which they were added, when no key has an
-- "=" and neither a key nor a value an "&".
pub parse_query-query_text :
    (in_order : Arguments → Arguments) (ps : List (Bytes × Bytes)) (k : Bytes)
    → Reorders in_order
    → All IsPlain ps
    → get_item k (parse_query (λ s. s) (query_text (in_order (add_arguments ps []))))
      ≡ grouped k ps none
unfolding query_text
parse_query-query_text in_order ps k r h =
    let t = add_arguments ps [] in
    let d = add_arguments-Distinct ps [] tt in
    let entries = r.keeps IsEntry t (add_arguments-IsEntry ps [] h tt) in
    ap (get_item k) (parse_query-join (flatten (in_order t)) (flatten-IsPlain (in_order t) entries))
    ∙ get_item-add_arguments k (flatten (in_order t)) []
    ∙ grouped-flatten k (in_order t) (r.distinct t d) entries
    ∙ r.finds t k d
    ∙ get_item-add_arguments k ps []
