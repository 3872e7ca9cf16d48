-- ===== src/Lru/Reads.antt =====
-- The other methods of a cache, against the entries that it holds.
use summerrpc.Prelude.{
  ℕ, zero, suc, ◌+◌, ◌≤◌, ◌<◌, ◌≡◌, refl, sym, ap, subst, ◌∙◌, Option, none, some, List, [], ◌∷◌,
  ◌++◌, arith, ◌==◌, if◌then◌else◌, length, map, All, Fresh, Distinct, reverse, length-append,
  All-append, append-All, Distinct-middle, inl, inr, Option-cases, Fresh-append,
}
use mathlib.Core.List.{reverse-append, reverse_aux}
use mathlib.Core.Path.{fun_ext}
use summerrpc.Lru.{
  Cache, ok, key_error, head, unlink, change_pointer, init, is_some, get_item, del_item, contains,
  clear, current_size, will_be_kicked_out, iter_from, iteritems, dict_pop,
}
use summerrpc.Lru.Items.{find, remove, last, kicked_out}
use summerrpc.Lru.Ring.{Linked, split, last-split}
use summerrpc.Lru.Entries.{RingOf, pair, unlink-RingOf, pair-unlink, pair-change_pointer}
use summerrpc.Lru.Codes.{find_addr, Apart, Apart-middle, find_addr-split, find_addr-out}
use summerrpc.Lru.Refines.{code, Rep, find-some, find-none, remove-map}
use summerrpc.Lru.Writes.{promote, length-map}

map-reverse_aux {ℓ κ} :
    {A : Type ℓ} {B : Type κ} (g : A → B) (xs ys : List A)
    → map g (reverse_aux xs ys) ≡ reverse_aux (map g xs) (map g ys)
map-reverse_aux g [] ys = refl
map-reverse_aux g (x ∷ xs) ys = map-reverse_aux g xs (x ∷ ys)

module _ {K V : Type 0} (hash : K → ℕ) (c : Cache K V) where
  abbrev f : ℕ → K × V
  f = pair c.heap

  pub get_item-miss :
      (k : K) (es : List (K × V))
      → Rep hash c es
      → find hash (hash k) es ≡ none
      → get_item hash k c ≡ key_error
  unfolding get_item
  get_item-miss k es r e = elim (Option-cases (find_addr (code hash f) (hash k) r.ring)) [
    | inl m ↦ ground (arith, r.found (hash k))
    | inr (a, h) ↦
        let hit = ap (find hash (hash k)) r.items ∙ find-some hash f (hash k) r.ring a h in cc
  ]

  pub get_item-hit :
      (k : K) (es : List (K × V)) (e : K × V)
      → Rep hash c es
      → find hash (hash k) es ≡ some e
      → (c' : Cache K V) × (get_item hash k c ≡ ok (c', e.1))
        × Rep hash c' (e ∷ remove hash (hash k) es)
        × (c'.max_size ≡ c.max_size)
  unfolding get_item
  get_item-hit k es e r q = elim (Option-cases (find_addr (code hash f) (hash k) r.ring)) [
    | inl m ↦
        let miss = ap (find hash (hash k)) r.items ∙ find-none hash f (hash k) r.ring m in
        absurd (cc)
    | inr (a, h) ↦
        let (xs, ys, s, p) = find_addr-split (code hash f) (hash k) r.ring a h in
        let apart = subst (Apart (code hash f)) s r.apart in
        let out = remove-map hash f xs a ys apart in
        let hit = ap (find hash (hash k)) r.items ∙ find-some hash f (hash k) r.ring a h in
        let same : f a ≡ e = cc in
        let spec : e ∷ remove hash (hash k) es ≡ f a ∷ map f (xs ++ ys) = cc (r.items, s, out, p) in
        let value : (change_pointer c.heap a a).value ≡ e.1 =
          ap (λ g. (g a).1) (pair-change_pointer c.heap a) ∙ ap (λ t. t.1) same in
        (
          record c { heap = change_pointer c.heap a },
          ground (arith, r.found (hash k)),
          subst (Rep hash _) (sym spec) (
              promote hash c xs a ys (f a) c.heap (subst (RingOf c.heap) s r.linked)
                (fun_ext λ b. ground arith) refl (subst (λ t. Distinct (head ∷ t)) s r.distinct)
                (subst (λ t. All (λ b. b < c.fresh) (head ∷ t)) s r.young) apart
                (λ x. r.found x ∙ ap (find_addr (code hash f) x) s) (r.sized ∙ ap length s)
                (subst (λ t. length t ≤ c.max_size) s r.bounded)),
          refl,
        )
  ]

  pub del_item-miss :
      (k : K) (es : List (K × V))
      → Rep hash c es
      → find hash (hash k) es ≡ none
      → del_item hash k c ≡ key_error
  unfolding del_item
  del_item-miss k es r e = elim (Option-cases (find_addr (code hash f) (hash k) r.ring)) [
    | inl m ↦ ground (arith, r.found (hash k))
    | inr (a, h) ↦
        let hit = ap (find hash (hash k)) r.items ∙ find-some hash f (hash k) r.ring a h in cc
  ]

  pub del_item-hit :
      (k : K) (es : List (K × V)) (e : K × V)
      → Rep hash c es
      → find hash (hash k) es ≡ some e
      → (c' : Cache K V) × (del_item hash k c ≡ ok c')
        × Rep hash c' (remove hash (hash k) es)
        × (c'.max_size ≡ c.max_size)
  unfolding del_item
  del_item-hit k es e r q = elim (Option-cases (find_addr (code hash f) (hash k) r.ring)) [
    | inl m ↦
        let miss = ap (find hash (hash k)) r.items ∙ find-none hash f (hash k) r.ring m in
        absurd (cc)
    | inr (a, h) ↦
        let (xs, ys, s, p) = find_addr-split (code hash f) (hash k) r.ring a h in
        let apart = subst (Apart (code hash f)) s r.apart in
        let distinct = subst (λ t. Distinct (head ∷ t)) s r.distinct in
        let young = subst (λ t. All (λ b. b < c.fresh) (head ∷ t)) s r.young in
        let out = remove-map hash f xs a ys apart in
        let (_, apart') = Apart-middle (code hash f) xs a ys apart in
        let (u, v, w) = Distinct-middle (head ∷ xs) a ys distinct in
        let (yl, yr) = All-append (λ b. b < c.fresh) (head ∷ xs) (a ∷ ys) young in
        let stored : c.dict.get (hash k) ≡ some a = r.found (hash k) ∙ h in
        let same = pair-unlink c.heap a in
        let size : c.dict.size ≡ suc (length (xs ++ ys)) =
          r.sized
          ∙ ap length s
          ∙ omega (arith, length-append {0} xs (a ∷ ys), length-append {0} xs ys) in
        (
          record c { heap = unlink c.heap a; dict = dict_pop c.dict (hash k) },
          ground arith,
          record {
            ring = xs ++ ys;
            linked = unlink-RingOf c.heap xs a ys (subst (RingOf c.heap) s r.linked) distinct;
            distinct = w;
            young = (yl.0, append-All (λ b. b < c.fresh) xs ys yl.1 yr.1);
            apart = subst (λ g. Apart (code hash g) (xs ++ ys)) (sym same) apart';
            found = λ x.
                ap (λ t. if hash k == x then none else t)
                  (r.found x ∙ ap (find_addr (code hash f) x) s)
                ∙ ap (λ t. if t == x then none else find_addr (code hash f) x (xs ++ a ∷ ys))
                    (sym p)
                ∙ sym (find_addr-out (code hash f) x xs a ys apart)
                ∙ ap (λ g. find_addr (code hash g) x (xs ++ ys)) (sym same);
            sized = ground arith;
            items = cc (r.items, s, out, p) ∙ ap (λ g. map g (xs ++ ys)) (sym same);
            positive = r.positive;
            bounded = omega (arith, size, r.sized, r.bounded);
          },
          refl,
        )
  ]

  pub contains-find :
      (k : K) (es : List (K × V))
      → Rep hash c es
      → contains hash k c ≡ is_some (find hash (hash k) es)
  unfolding contains
  contains-find k es r = elim (Option-cases (find_addr (code hash f) (hash k) r.ring)) [
    | inl m ↦
        let miss = ap (find hash (hash k)) r.items ∙ find-none hash f (hash k) r.ring m in
        ground (arith, r.found (hash k))
    | inr (a, h) ↦
        let hit = ap (find hash (hash k)) r.items ∙ find-some hash f (hash k) r.ring a h in
        ground (arith, r.found (hash k))
  ]

  pub clear-Rep : (es : List (K × V)) → Rep hash c es → Rep hash (clear c) []
  unfolding clear
  clear-Rep es r = record {
    ring = [];
    linked = (ground arith, ground arith);
    distinct = (tt, tt);
    young = (r.young.0, tt);
    apart = tt;
    found = λ h. refl;
    sized = refl;
    items = refl;
    positive = r.positive;
    bounded = omega arith;
  }

  pub clear-max_size : (clear c).max_size ≡ c.max_size
  unfolding clear
  clear-max_size = refl

  length-Rep : (es : List (K × V)) → Rep hash c es → c.dict.size ≡ length es
  length-Rep es r = omega (arith, r.sized, ap length r.items, length-map f r.ring)

  pub current_size-length : (es : List (K × V)) → Rep hash c es → current_size c ≡ length es
  unfolding current_size
  current_size-length es r = length-Rep es r

  last-map : (g : ℕ → K × V) (cs : List ℕ) (a : ℕ) → last (map g (cs ++ a ∷ [])) ≡ some (g a)
  last-map g [] a = refl
  last-map g (b ∷ []) a = refl
  last-map g (b ∷ b' ∷ cs) a = last-map g (b' ∷ cs) a

  pub will_be_kicked_out-last :
      (es : List (K × V)) → Rep hash c es → will_be_kicked_out c ≡ kicked_out c.max_size es
  unfolding will_be_kicked_out
  will_be_kicked_out-last es r =
      ground (arith, length-Rep es r, r.positive, oldest r.ring r.linked r.items)
    where
      oldest :
          (ring : List ℕ)
          → RingOf c.heap ring
          → es ≡ map f ring
          → 0 < length es
          → last es ≡ some (f (c.heap head).prev)
      oldest [] l e z = absurd (omega (arith, ap length e))
      oldest (x ∷ xs) l e z =
          let (us, s) = last-split _ _ head x xs head l in
          ap last (e ∙ ap (map f) s) ∙ last-map f us (c.heap head).prev

  iter_from-reverse :
      (fuel : ℕ) (xs : List ℕ) (q : ℕ)
      → Linked (λ a. (c.heap a).next) (λ a. (c.heap a).prev) head xs q
      → Fresh head xs
      → length xs < fuel
      → iter_from fuel c.heap (c.heap q).prev ≡ some (map f (reverse xs))
  unfolding iter_from
  iter_from-reverse zero xs q l d z = absurd (omega arith)
  iter_from-reverse (suc n) [] q l d z = ground (arith, l.1)
  iter_from-reverse (suc n) (x ∷ xs) q l d z =
      let b = (c.heap q).prev in
      let (us, s) = last-split _ _ head x xs q l in
      let l' = subst (λ t. Linked (λ a. (c.heap a).next) (λ a. (c.heap a).prev) head t q) s l in
      let (front, _) = split _ _ head us b [] q l' in
      let (fu, fb) = Fresh-append head us (b ∷ []) (subst (Fresh head) s d) in
      let ih =
        iter_from-reverse n us b front fu (omega (arith, ap length s, length-append us (b ∷ []))) in
      let back : reverse (x ∷ xs) ≡ b ∷ reverse us = ap reverse s ∙ reverse-append us (b ∷ []) in
      let step : iter_from (suc n) c.heap b ≡ some (f b ∷ map f (reverse us)) =
        ground (arith, ih, fb.0) in
      step ∙ ap (λ t. some (map f t)) (sym back)

  -- For a cache that holds the entries `es`, the walk from the old end ends, and yields every entry
  -- once, the least recent first.
  pub iteritems-reverse : (es : List (K × V)) → Rep hash c es → iteritems c ≡ some (reverse es)
  unfolding iteritems
  iteritems-reverse es r =
      iter_from-reverse (c.dict.size + 1) r.ring head r.linked r.distinct.0 (omega (arith, r.sized))
      ∙ ap some (map-reverse_aux f r.ring [] ∙ ap reverse (sym r.items))

module _ {K V : Type 0} (hash : K → ℕ) (no_key : K) (no_value : V) where
  -- A new cache holds nothing, and has room for at least one entry.
  pub init-Rep : (m : Option ℕ) → Rep hash (init no_key no_value m) []
  unfolding init
  init-Rep m = record {
    ring = [];
    linked = (refl, refl);
    distinct = (tt, tt);
    young = (omega arith, tt);
    apart = tt;
    found = λ h. refl;
    sized = refl;
    items = refl;
    positive = omega arith;
    bounded = omega arith;
  }
