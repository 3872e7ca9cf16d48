-- ===== src/Registry/Remotes.antt =====
-- registry.py: what `get_remotes` finds after a discovery.
use summerrpc.Prelude.{
  ◌≡◌, refl, sym, ap, subst, ◌∙◌, Bool, true, false, List, [], ◌∷◌, ◌++◌, if◌then◌else◌, arith,
  append-nil, append_assoc,
}
use summerrpc.Text.{Bytes, same}
use summerrpc.Text.Laws.{same-eq, same_refl}
use summerrpc.Messages.{Outcome, ok}
use summerrpc.Registry.{
  Urllib, Remote, Key, same_key, Cache, add_remote, find_remotes, Child, skipped, remote, refused,
  child_of, add_child, discover_from, Registry, real_discovery, get_remotes, method_path,
}

-- The remotes of one key among the children, in their order.
abbrev pub remote_of : Key → Child → List Remote → List Remote
remote_of k skipped rest = rest
remote_of k (refused c) rest = rest
remote_of k (remote j v) rest = if same_key j k then v ∷ rest else rest

abbrev pub remotes_of : Urllib → Key → List Bytes → List Remote
remotes_of lib k [] = []
remotes_of lib k (child ∷ children) = remote_of k (child_of lib child) (remotes_of lib k children)

remote_of-append :
    (k : Key) (c : Child) (a b : List Remote) → remote_of k c (a ++ b) ≡ remote_of k c a ++ b
remote_of-append k skipped a b = refl
remote_of-append k (refused c) a b = refl
remote_of-append k (remote j v) a b = pick (same_key j k)
  where
    pick : (x : Bool) → (if x then v ∷ (a ++ b) else (a ++ b)) ≡ (if x then v ∷ a else a) ++ b
    pick true = refl
    pick false = refl

pub remotes_of-append :
    (lib : Urllib) (k : Key) (xs ys : List Bytes)
    → remotes_of lib k (xs ++ ys) ≡ remotes_of lib k xs ++ remotes_of lib k ys
remotes_of-append lib k [] ys = refl
remotes_of-append lib k (x ∷ xs) ys =
    ap (remote_of k (child_of lib x)) (remotes_of-append lib k xs ys)
    ∙ remote_of-append k (child_of lib x) (remotes_of lib k xs) (remotes_of lib k ys)

pub same_key_refl : (k : Key) → same_key k k ≡ true
same_key_refl k =
    let a = same_refl k.scheme in
    let b = same_refl k.path in let c = same_refl k.serializer in ground (arith, a, b, c)

same_key-eq : (a b : Key) → same_key a b ≡ true → a ≡ b
same_key-eq a b e =
    let p : same a.scheme b.scheme ≡ true = ground (arith, e) in
    let q : same a.path b.path ≡ true = ground (arith, e) in
    let r : same a.serializer b.serializer ≡ true = ground (arith, e) in
    let x = same-eq a.scheme b.scheme p in
    let y = same-eq a.path b.path q in
    let z = same-eq a.serializer b.serializer r in
    ap (λ s. record a { scheme = s }) x
    ∙ ap (λ s. record { scheme = b.scheme; path = s; serializer = a.serializer }) y
    ∙ ap (λ s. record { scheme = b.scheme; path = b.path; serializer = s }) z

find_remotes-first :
    (i k : Key) (vs : List Remote) (cache : Cache) (z : Bool)
    → same_key i k ≡ z
    → find_remotes k ((i, vs) ∷ cache) ≡ (if z then vs else find_remotes k cache)
find_remotes-first i k vs cache z g = ap (λ (b : Bool). if b then vs else find_remotes k cache) g

find_remotes-add_remote :
    (j : Key) (v : Remote) (cache : Cache) (k : Key)
    → find_remotes k (add_remote j v cache)
      ≡ (if same_key j k then find_remotes k cache ++ v ∷ [] else find_remotes k cache)
find_remotes-add_remote j v [] k = refl
find_remotes-add_remote j v ((i, vs) ∷ cache) k =
    on (find_remotes-add_remote j v cache k) (same_key i j) (same_key j k) (same_key i k) refl refl
      refl
    ∙ ap (λ x. if same_key j k then x ++ v ∷ [] else x)
        (sym (find_remotes-first i k vs cache (same_key i k) refl))
  where
    rest : List Remote
    rest = find_remotes k cache

    on :
        find_remotes k (add_remote j v cache) ≡ (if same_key j k then rest ++ v ∷ [] else rest)
        → (x y z : Bool) → same_key i j ≡ x
        → same_key j k ≡ y
        → same_key i k ≡ z
        → find_remotes k (if x then (i, vs ++ v ∷ []) ∷ cache else (i, vs) ∷ add_remote j v cache)
          ≡ (if y then (if z then vs else rest) ++ v ∷ [] else (if z then vs else rest))
    on ih true y z e f g =
        let same_end : z ≡ y = sym g ∙ ap (λ x. same_key x k) (same_key-eq i j e) ∙ f in
        subst
          (λ w.
            find_remotes k ((i, vs ++ v ∷ []) ∷ cache)
            ≡ (if w then (if z then vs else rest) ++ v ∷ [] else (if z then vs else rest)))
          same_end (find_remotes-first i k (vs ++ v ∷ []) cache z g ∙ both z)
      where
        both :
            (z : Bool)
            → (if z then vs ++ v ∷ [] else rest)
              ≡ (if z then (if z then vs else rest) ++ v ∷ [] else (if z then vs else rest))
        both true = refl
        both false = refl
    on ih false true true e f g =
        let no_match : same_key i k ≡ false = ap (same_key i) (sym (same_key-eq j k f)) ∙ e in
        absurd (cc)
    on ih false true false e f g =
        find_remotes-first i k vs (add_remote j v cache) false g
        ∙ ih
        ∙ ap (λ (b : Bool). if b then rest ++ v ∷ [] else rest) f
    on ih false false true e f g = find_remotes-first i k vs (add_remote j v cache) true g
    on ih false false false e f g =
        find_remotes-first i k vs (add_remote j v cache) false g
        ∙ ih
        ∙ ap (λ (b : Bool). if b then rest ++ v ∷ [] else rest) f

-- A discovery that ends well adds the remotes of each key behind those that were there.
discover_from-remotes :
    (lib : Urllib) (children : List Bytes) (cache last : Cache) (k : Key)
    → discover_from lib children cache ≡ ok last
    → find_remotes k last ≡ find_remotes k cache ++ remotes_of lib k children
unfolding discover_from
discover_from-remotes lib [] cache last k e =
    let same_cache : cache ≡ last = cc in
    ap (find_remotes k) (sym same_cache) ∙ sym (append-nil (find_remotes k cache))
discover_from-remotes lib (child ∷ children) cache last k e =
    on (λ more. discover_from-remotes lib children more last k) (child_of lib child) e
  where
    on :
        ((more : Cache)
          → discover_from lib children more ≡ ok last
          → find_remotes k last ≡ find_remotes k more ++ remotes_of lib k children)
        → (c : Child)
        → elim (add_child c cache) as (λ _. Outcome Cache) [
          | ok more ↦ discover_from lib children more
          | Outcome.raised x ↦ Outcome.raised x
        ]
          ≡ ok last
        → find_remotes k last ≡ find_remotes k cache ++ remote_of k c (remotes_of lib k children)
    on ih skipped e = ih cache e
    on ih (refused c) e = absurd (cc)
    on ih (remote j v) e =
        ih (add_remote j v cache) e
        ∙ ap (λ x. x ++ remotes_of lib k children) (find_remotes-add_remote j v cache k)
        ∙ pick (same_key j k)
      where
        pick :
            (b : Bool)
            → (if b then find_remotes k cache ++ v ∷ [] else find_remotes k cache)
                ++ remotes_of lib k children
              ≡ find_remotes k cache
                ++ (if b then v ∷ remotes_of lib k children else remotes_of lib k children)
        pick true = append_assoc (find_remotes k cache) (v ∷ []) (remotes_of lib k children)
        pick false = refl

-- The key under which a method is looked for.
abbrev pub key_of : Bytes → Bytes → Bytes → Bytes → Key
key_of class_name method_name transport serializer = record {
  scheme = transport;
  path = method_path class_name method_name;
  serializer = serializer;
}

-- After a discovery that raised nothing, `get_remotes` returns the addresses of exactly those
-- children whose transport, path and serializer are the ones asked for, in the order of the children.
pub get_remotes-real_discovery :
    (lib : Urllib) (children : List Bytes) (self later : Registry)
    (class_name method_name transport serializer : Bytes)
    → real_discovery lib children self ≡ ok later
    → get_remotes class_name method_name transport serializer later
      ≡ remotes_of lib (key_of class_name method_name transport serializer) children
unfolding real_discovery get_remotes
get_remotes-real_discovery lib children self later class_name method_name transport serializer e =
    on (discover_from lib children []) refl e
  where
    on :
        (o : Outcome Cache)
        → discover_from lib children [] ≡ o
        → elim o as (λ _. Outcome Registry) [
          | Outcome.raised c ↦ Outcome.raised c
          | ok cache ↦ ok (record self { local_cache = cache })
        ]
          ≡ ok later
        → find_remotes (key_of class_name method_name transport serializer) later.local_cache
          ≡ remotes_of lib (key_of class_name method_name transport serializer) children
    on (Outcome.raised c) d e = absurd (cc)
    on (ok cache) d e =
        let same_later : record self { local_cache = cache } ≡ later = cc in
        ap (λ x. find_remotes (key_of class_name method_name transport serializer) x.local_cache)
          (sym same_later)
        ∙ discover_from-remotes lib children [] cache
            (key_of class_name method_name transport serializer) d
