-- ===== src/Lru/Writes.antt =====
-- helper/lru_cache.py: the three branches of `__setitem__` against the list of entries.
use summerrpc.Prelude.{
  ℕ, suc, ◌+◌, ◌≤◌, ◌<◌, ◌≡◌, refl, sym, ap, subst, ◌∙◌, none, some, List, [], ◌∷◌, ◌++◌, arith,
  ◌==◌, leb, if◌then◌else◌, length, map, All, Fresh, Distinct, append-nil, length-append,
  All-append, append-All, Distinct-middle, append-Fresh, inl, inr, Option-cases, Bool-cases,
}
use summerrpc.Lru.{
  Entry, Heap, Dict, Cache, ok, update, head, set_pair, unlink, link_front, change_pointer,
  set_item, dict_set, dict_pop,
}
use summerrpc.Lru.Items.{find, put, drop_last}
use summerrpc.Lru.Ring.{last-split}
use summerrpc.Lru.Entries.{
  RingOf, pair, unlink-RingOf, set_pair-RingOf, pair-unlink, pair-set_pair, new-RingOf, pair-new,
}
use summerrpc.Lru.Codes.{
  find_addr, Lacks, Apart, Lacks-of_none, Apart-middle, Lacks-split, find_addr-split, find_addr-out,
  find_addr-in, find_addr-front,
}
use summerrpc.Lru.Refines.{code, Rep, front-Rep, find-some, find-none, remove-map}

dict_replace-size :
    (d : Dict) (o n a b : ℕ)
    → d.get o ≡ some b
    → d.get n ≡ none
    → 0 < d.size
    → (dict_set (dict_pop d o) n a).size ≡ d.size
dict_replace-size d o n a b e m z = ground arith

pub length-map {ℓ κ} :
    {A : Type ℓ} {B : Type κ} (g : A → B) (cs : List A) → length (map g cs) ≡ length cs
length-map g [] = refl
length-map g (a ∷ cs) = ap suc (length-map g cs)

module _ {K V : Type 0} (hash : K → ℕ) (c : Cache K V) where
  abbrev f : ℕ → K × V
  f = pair c.heap

  -- An entry of the ring moves to the front, under a key of the same code.
  pub promote :
      (xs : List ℕ) (a : ℕ) (ys : List ℕ) (e : K × V) (g : Heap K V)
      → RingOf g (xs ++ a ∷ ys)
      → pair g ≡ update f a e
      → hash e.0 ≡ code hash f a
      → Distinct (head ∷ xs ++ a ∷ ys)
      → All (λ b. b < c.fresh) (head ∷ xs ++ a ∷ ys)
      → Apart (code hash f) (xs ++ a ∷ ys)
      → ((h : ℕ) → c.dict.get h ≡ find_addr (code hash f) h (xs ++ a ∷ ys))
      → c.dict.size ≡ length (xs ++ a ∷ ys)
      → length (xs ++ a ∷ ys) ≤ c.max_size
      → Rep hash (record c { heap = change_pointer g a }) (e ∷ map f (xs ++ ys))
  unfolding change_pointer
  promote xs a ys e g l p q d y apart found z b =
      let (u, v, w) = Distinct-middle (head ∷ xs) a ys d in
      let (lacks, apart') = Apart-middle (code hash f) xs a ys apart in
      let (yl, yr) = All-append (λ b. b < c.fresh) (head ∷ xs) (a ∷ ys) y in
      front-Rep hash (record c { heap = unlink g a }) f (xs ++ ys) a e (unlink-RingOf g xs a ys l d)
        w (append-Fresh a (head ∷ xs) ys u v) (pair-unlink g a ∙ p)
        (subst (λ t. Lacks (code hash f) t (xs ++ ys)) (sym q) lacks) apart'
        (yl.0, (yr.0, append-All (λ b. b < c.fresh) xs ys yl.1 yr.1))
        (λ h.
          found h
          ∙ sym (find_addr-front (code hash f) h xs a ys apart)
          ∙ ap (λ t. if t == h then some a else find_addr (code hash f) h (xs ++ ys)) (sym q))
        (omega (arith, z, length-append {0} xs (a ∷ ys), length-append {0} xs ys))
        (omega (arith, b, length-append {0} xs (a ∷ ys), length-append {0} xs ys))

  set_hit :
      (k : K) (v : V) (es : List (K × V)) (a : ℕ)
      → Rep hash c es
      → c.dict.get (hash k) ≡ some a
      → (c' : Cache K V) × (set_item hash k v c ≡ ok c')
        × Rep hash c' (put hash c.max_size k v es)
        × (c'.max_size ≡ c.max_size)
  unfolding set_item
  set_hit k v es a r e =
      let (xs, ys, s, q) =
        find_addr-split (code hash f) (hash k) r.ring a (sym (r.found (hash k)) ∙ e) in
      let hit = find-some hash f (hash k) r.ring a (sym (r.found (hash k)) ∙ e) in
      let apart = subst (Apart (code hash f)) s r.apart in
      let out = remove-map hash f xs a ys apart in
      let spec : put hash c.max_size k v es ≡ (k, v) ∷ map f (xs ++ ys) =
        cc (r.items, hit, s, out, q) in
      (
        record c { heap = change_pointer (set_pair c.heap a k v) a },
        rw (e, set_item),
        subst (Rep hash _) (sym spec) (
            promote xs a ys (k, v) (set_pair c.heap a k v)
              (set_pair-RingOf c.heap a k v (xs ++ a ∷ ys) (subst (RingOf c.heap) s r.linked))
              (pair-set_pair c.heap a k v) (sym q) (subst (λ t. Distinct (head ∷ t)) s r.distinct)
              (subst (λ t. All (λ b. b < c.fresh) (head ∷ t)) s r.young) apart
              (λ h. r.found h ∙ ap (find_addr (code hash f) h) s) (r.sized ∙ ap length s)
              (subst (λ t. length t ≤ c.max_size) s r.bounded)),
        refl,
      )

  set_item-full :
      (k : K) (v : V) (a b : ℕ)
      → a ≡ (c.heap head).prev
      → c.dict.get (hash k) ≡ none
      → c.max_size ≤ c.dict.size
      → c.dict.get (code hash f a) ≡ some b
      → set_item hash k v c
        ≡ ok (record c {
          heap = change_pointer (set_pair c.heap a k v) a;
          dict = dict_set (dict_pop c.dict (code hash f a)) (hash k) a;
        })
  unfolding set_item
  set_item-full k v a b e m z o = ground arith

  put-full :
      (k : K) (v : V) (es : List (K × V))
      → find hash (hash k) es ≡ none
      → c.max_size ≤ length es
      → put hash c.max_size k v es ≡ (k, v) ∷ drop_last es
  put-full k v es m z = ground arith

  put-new :
      (k : K) (v : V) (es : List (K × V))
      → find hash (hash k) es ≡ none
      → length es < c.max_size
      → put hash c.max_size k v es ≡ (k, v) ∷ es
  put-new k v es m z = ground arith

  map-drop_last :
      (g : ℕ → K × V) (cs : List ℕ) (a : ℕ) → drop_last (map g (cs ++ a ∷ [])) ≡ map g cs
  map-drop_last g [] a = refl
  map-drop_last g (b ∷ []) a = refl
  map-drop_last g (b ∷ b' ∷ cs) a = ap (◌∷◌ (g b)) (map-drop_last g (b' ∷ cs) a)

  -- The branch that reuses the oldest entry.
  set_full :
      (k : K) (v : V) (es : List (K × V)) (us : List ℕ) (r : Rep hash c es)
      → c.dict.get (hash k) ≡ none
      → c.max_size ≤ c.dict.size
      → r.ring ≡ us ++ (c.heap head).prev ∷ []
      → (c' : Cache K V) × (set_item hash k v c ≡ ok c')
        × Rep hash c' (put hash c.max_size k v es)
        × (c'.max_size ≡ c.max_size)
  unfolding change_pointer
  set_full k v es us r e full s =
      let a = (c.heap head).prev in
      let g = set_pair c.heap a k v in
      let miss = sym (r.found (hash k)) ∙ e in
      let apart = subst (Apart (code hash f)) s r.apart in
      let distinct = subst (λ t. Distinct (head ∷ t)) s r.distinct in
      let young = subst (λ t. All (λ b. b < c.fresh) (head ∷ t)) s r.young in
      let all-lack =
        subst (Lacks (code hash f) (hash k)) s (Lacks-of_none (code hash f) (hash k) r.ring miss) in
      let (_, lacks) = Lacks-split (code hash f) (hash k) us a [] all-lack in
      let (_, apart') = Apart-middle (code hash f) us a [] apart in
      let (u, w, d) = Distinct-middle (head ∷ us) a [] distinct in
      let (yl, yr) = All-append (λ b. b < c.fresh) (head ∷ us) (a ∷ []) young in
      let old : c.dict.get (code hash f a) ≡ some a =
        r.found (code hash f a)
        ∙ ap (find_addr (code hash f) (code hash f a)) s
        ∙ find_addr-in (code hash f) us a [] apart in
      let size : c.dict.size ≡ suc (length us) =
        r.sized ∙ ap length s ∙ omega (arith, length-append us (a ∷ [])) in
      let dict' = dict_set (dict_pop c.dict (code hash f a)) (hash k) a in
      let len : length (us ++ []) ≡ length us = ap length (append-nil us) in
      let missing : find hash (hash k) es ≡ none =
        ap (find hash (hash k)) r.items ∙ find-none hash f (hash k) r.ring miss in
      let long : length es ≡ length r.ring = ap length r.items ∙ length-map f r.ring in
      let shorter : drop_last es ≡ map f (us ++ []) =
        ap drop_last (r.items ∙ ap (map f) s)
        ∙ map-drop_last f us a
        ∙ ap (map f) (sym (append-nil us)) in
      let spec : put hash c.max_size k v es ≡ (k, v) ∷ map f (us ++ []) =
        put-full k v es missing (omega (arith, long, r.sized)) ∙ ap (◌∷◌ (k, v)) shorter in
      (
        record c { heap = change_pointer g a; dict = dict' },
        set_item-full k v a a refl e full old,
        subst (Rep hash _) (sym spec) (
            front-Rep hash (record c { heap = unlink g a; dict = dict' }) f (us ++ []) a (k, v)
              (unlink-RingOf g us a []
                (set_pair-RingOf c.heap a k v (us ++ a ∷ []) (subst (RingOf c.heap) s r.linked))
                distinct)
              d (append-Fresh a (head ∷ us) [] u w) (pair-unlink g a ∙ pair-set_pair c.heap a k v)
              lacks apart' (yl.0, (yr.0, append-All (λ b. b < c.fresh) us [] yl.1 tt))
              (λ h.
                ap (λ t. if hash k == h then some a else if code hash f a == h then none else t)
                  (r.found h ∙ ap (find_addr (code hash f) h) s)
                ∙ ap (λ t. if hash k == h then some a else t)
                    (sym (find_addr-out (code hash f) h us a [] apart)))
              (dict_replace-size c.dict (code hash f a) (hash k) a a old e (omega (arith, size))
                ∙ omega (arith, size, len))
              (omega (arith, size, len, r.sized, r.bounded))),
        refl,
      )

  -- The branch that makes an entry.
  set_new :
      (k : K) (v : V) (es : List (K × V)) (r : Rep hash c es)
      → c.dict.get (hash k) ≡ none
      → c.dict.size < c.max_size
      → (c' : Cache K V) × (set_item hash k v c ≡ ok c')
        × Rep hash c' (put hash c.max_size k v es)
        × (c'.max_size ≡ c.max_size)
  unfolding set_item
  set_new k v es r e room =
      let a = c.fresh in
      let new : Entry K V = record { key = k; value = v; prev = a; next = a } in
      let miss = sym (r.found (hash k)) ∙ e in
      let other = younger (head ∷ r.ring) r.young in
      let missing : find hash (hash k) es ≡ none =
        ap (find hash (hash k)) r.items ∙ find-none hash f (hash k) r.ring miss in
      let long : length es ≡ length r.ring = ap length r.items ∙ length-map f r.ring in
      let spec : put hash c.max_size k v es ≡ (k, v) ∷ map f r.ring =
        put-new k v es missing (omega (arith, long, r.sized)) ∙ ap (◌∷◌ (k, v)) r.items in
      let dict' = dict_set c.dict (hash k) a in
      (
        record c { heap = link_front (update c.heap a new) a; fresh = a + 1; dict = dict' },
        ground arith,
        subst (Rep hash _) (sym spec) (
            front-Rep hash (record c { heap = update c.heap a new; fresh = a + 1; dict = dict' }) f
              r.ring a (k, v) (new-RingOf c.heap a k v r.ring other.0 other.1 r.linked) r.distinct
              other (pair-new c.heap a k v) (Lacks-of_none (code hash f) (hash k) r.ring miss)
              r.apart (omega (arith, r.young.0), (omega arith, older r.ring r.young.1))
              (λ h. ap (λ t. if hash k == h then some a else t) (r.found h))
              (ground (arith, r.sized)) (omega (arith, r.sized))),
        refl,
      )
    where
      younger : (cs : List ℕ) → All (λ b. b < c.fresh) cs → Fresh c.fresh cs
      younger [] y = tt
      younger (b ∷ cs) y = (omega (arith, y.0), younger cs y.1)

      older : (cs : List ℕ) → All (λ b. b < c.fresh) cs → All (λ b. b < c.fresh + 1) cs
      older [] y = tt
      older (b ∷ cs) y = (omega (arith, y.0), older cs y.1)

  -- For a cache that holds the entries `es`: storing never raises, and leaves the cache with the
  -- entries of `put` and its size. A known code moves to the front, a new one drives out the oldest
  -- entry when the cache is full.
  pub set_item-put :
      (k : K) (v : V) (es : List (K × V)) (r : Rep hash c es)
      → (c' : Cache K V) × (set_item hash k v c ≡ ok c')
        × Rep hash c' (put hash c.max_size k v es)
        × (c'.max_size ≡ c.max_size)
  set_item-put k v es r = elim (Option-cases (c.dict.get (hash k))) [
    | inr (a, e) ↦ set_hit k v es a r e
    | inl e ↦ elim (Bool-cases (leb c.max_size c.dict.size)) [
      | inr room ↦ set_new k v es r e (ground arith)
      | inl full ↦
          let z : c.max_size ≤ c.dict.size = ground arith in
          let (us, s) = oldest r.ring r.linked (omega (arith, r.sized, r.positive)) in
          set_full k v es us r e z s
    ]
  ]
    where
      oldest :
          (ring : List ℕ)
          → RingOf c.heap ring
          → 0 < length ring
          → (us : List ℕ) × (ring ≡ us ++ (c.heap head).prev ∷ [])
      oldest [] l z = absurd (omega arith)
      oldest (x ∷ xs) l z = last-split _ _ head x xs head l
