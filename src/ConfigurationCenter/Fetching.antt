-- ===== src/ConfigurationCenter/Fetching.antt =====
-- configuration_center/zookeeper_configuration_center.py: what a key finds.
use summerrpc.Prelude.{
  ℕ, ◌≡◌, refl, sym, ap, ◌∙◌, Bool, true, false, Option, none, some, List, [], ◌∷◌, if◌then◌else◌,
  ◌||◌, ◌&&◌,
}
use summerrpc.Text.{Bytes, same}
use summerrpc.Text.Laws.{same-eq}
use summerrpc.Tables.{Table, set_item, get_item, get_item-set_item}
use summerrpc.Messages.{Outcome, ok, raised, and_then}
use summerrpc.ConfigurationCenter.{Tree, child_path, fetch, fetch_all}

abbrev is_ok : {A : Type 0} → Outcome A → Bool
is_ok (ok a) = true
is_ok (raised c) = false

abbrev value_of : Outcome (Bytes × ℕ) → Option Bytes
value_of (ok (v, n)) = some v
value_of (raised c) = none

abbrev is_among : Bytes → List Bytes → Bool
is_among key [] = false
is_among key (c ∷ cs) = same c key || is_among key cs

abbrev all_there : Tree → Bytes → List Bytes → Bool
all_there tree path [] = true
all_there tree path (c ∷ cs) = is_ok (tree.get (child_path path c)) && all_there tree path cs

abbrev children_of : Outcome (List Bytes) → List Bytes
children_of (ok cs) = cs
children_of (raised c) = []

-- Can the node, its list of children and each of these be read?
abbrev pub is_whole : Tree → Bytes → Bool
is_whole tree path =
    is_ok (tree.get path)
    && (is_ok (tree.get_children path)
        && all_there tree path (children_of (tree.get_children path)))

-- What the tree holds for a key under a path.
abbrev pub held : Tree → Bytes → Bytes → Option Bytes
held tree path key =
    if is_among key (children_of (tree.get_children path))
    then value_of (tree.get (child_path path key))
    else none

-- What a fetch that got through has put under a key.
get_item-fetch :
    (tree : Tree) (path : Bytes) (children : List Bytes) (d e : Table Bytes) (key : Bytes)
    → fetch tree path children d ≡ ok e
    → get_item key e ≡ (
        if is_among key children then value_of (tree.get (child_path path key)) else get_item key d)
unfolding fetch
get_item-fetch tree path [] d e key h = ap (get_item key) (cc)
get_item-fetch tree path (child ∷ children) d e key h =
    go (tree.get (child_path path child)) refl h
      (λ d'. λ h'. get_item-fetch tree path children d' e key h')
  where
    value : Option Bytes
    value = value_of (tree.get (child_path path key))

    go :
        (o : Outcome (Bytes × ℕ))
        → tree.get (child_path path child) ≡ o
        → and_then o (λ znode. fetch tree path children (set_item child znode.0 d)) ≡ ok e
        → ((d' : Table Bytes)
            → fetch tree path children d' ≡ ok e
            → get_item key e ≡ (if is_among key children then value else get_item key d'))
        → get_item key e
          ≡ (if same child key || is_among key children then value else get_item key d)
    go (raised c) q h rest = absurd (cc)
    go (ok (v, n)) q h rest =
        rest (set_item child v d) h
        ∙ ap (λ x. if is_among key children then value else x) (get_item-set_item child v d key)
        ∙ last (same child key) (is_among key children) refl
      where
        last :
            (x y : Bool)
            → same child key ≡ x
            → (if y then value else if x then some v else get_item key d)
              ≡ (if x || y then value else get_item key d)
        last true true s = refl
        last false true s = refl
        last true false s =
            ap value_of (sym q)
            ∙ ap (λ k. value_of (tree.get (child_path path k))) (same-eq child key s)
        last false false s = refl

fetch-all_there :
    (tree : Tree) (path : Bytes) (children : List Bytes) (d : Table Bytes)
    → is_ok (fetch tree path children d) ≡ all_there tree path children
unfolding fetch
fetch-all_there tree path [] d = refl
fetch-all_there tree path (child ∷ children) d =
    go (tree.get (child_path path child)) (λ d'. fetch-all_there tree path children d')
  where
    go :
        (o : Outcome (Bytes × ℕ))
        → ((d' : Table Bytes) → is_ok (fetch tree path children d') ≡ all_there tree path children)
        → is_ok (and_then o (λ znode. fetch tree path children (set_item child znode.0 d)))
          ≡ (is_ok o && all_there tree path children)
    go (raised c) ih = refl
    go (ok (v, n)) ih = ih (set_item child v d)

-- What a fetch of everything says of the tree, whose answers for the node are given.
abbrev pub Seen :
    Tree → Bytes → Outcome (Bytes × ℕ) → Outcome (List Bytes) → Outcome (ℕ × Table Bytes) → Type 0
Seen tree path node children (raised c) =
    (is_ok node && (is_ok children && all_there tree path (children_of children))) ≡ false
Seen tree path node children (ok (n, cache)) =
    ((is_ok node && (is_ok children && all_there tree path (children_of children))) ≡ true)
    × ((key : Bytes)
        → get_item key cache ≡ (
            if is_among key (children_of children)
            then value_of (tree.get (child_path path key))
            else none))

pub fetch_all-Seen :
    (tree : Tree) (path : Bytes)
    → Seen tree path (tree.get path) (tree.get_children path) (fetch_all tree path)
unfolding fetch_all
fetch_all-Seen tree path = go (tree.get path) (tree.get_children path)
  where
    read : Outcome (Bytes × ℕ) → Outcome (List Bytes) → Outcome (ℕ × Table Bytes)
    read a b = and_then a λ znode.
        and_then b
          λ children. and_then (fetch tree path children []) λ tmp_cache. ok (znode.1, tmp_cache)

    last :
        (n : ℕ) (cs : List Bytes) (o : Outcome (Table Bytes))
        → fetch tree path cs [] ≡ o
        → is_ok o ≡ all_there tree path cs
        → (v : Bytes)
        → Seen tree path (ok (v, n)) (ok cs) (and_then o (λ tmp_cache. ok (n, tmp_cache)))
    last n cs (raised c) e w v = sym w
    last n cs (ok cache) e w v = (sym w, λ key. get_item-fetch tree path cs [] cache key e)

    go : (a : Outcome (Bytes × ℕ)) (b : Outcome (List Bytes)) → Seen tree path a b (read a b)
    go (raised c) b = refl
    go (ok (v, n)) (raised c) = refl
    go (ok (v, n)) (ok cs) =
        last n cs (fetch tree path cs []) refl (fetch-all_there tree path cs []) v
