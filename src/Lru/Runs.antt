-- ===== src/Lru/Runs.antt =====
-- helper/lru_cache.py: sequences of calls on a cache against a list of entries in order of use.
use summerrpc.Prelude.{
  ℕ, ◌≡◌, refl, ap, subst, Bool, Option, none, some, List, [], ◌∷◌, arith, inl, inr, Option-cases,
  length, reverse,
}
use summerrpc.Lru.{
  Cache, Result, ok, key_error, init, set_item, get_item, del_item, contains, clear, current_size,
  will_be_kicked_out, iteritems, is_some,
}
use summerrpc.Lru.Items.{find, remove, put, touch, delete, kicked_out}
use summerrpc.Lru.Refines.{Rep}
use summerrpc.Lru.Writes.{set_item-put}
use summerrpc.Lru.Reads.{
  get_item-miss, get_item-hit, del_item-miss, del_item-hit, contains-find, clear-Rep,
  clear-max_size, current_size-length, will_be_kicked_out-last, iteritems-reverse, init-Rep,
}

pub data Call (K V : Type 0) : Type 0 where
  store : K → V → Call K V
  read erase has : K → Call K V
  wipe size oldest items : Call K V

pub data Answer (K V : Type 0) : Type 0 where
  done raised : Answer K V
  value : V → Answer K V
  flag : Bool → Answer K V
  number : ℕ → Answer K V
  entry : Option (K × V) → Answer K V
  entries : Option (List (K × V)) → Answer K V

module _ {K V : Type 0} (hash : K → ℕ) where
  -- A call that raises leaves the cache as it was.
  abbrev after : Cache K V → Result (Cache K V) → Cache K V × Answer K V
  after c (ok d) = (d, done)
  after c key_error = (c, raised)

  abbrev after_read : Cache K V → Result (Cache K V × V) → Cache K V × Answer K V
  after_read c (ok (d, v)) = (d, value v)
  after_read c key_error = (c, raised)

  abbrev pub call : Call K V → Cache K V → Cache K V × Answer K V
  call (store k v) c = after c (set_item hash k v c)
  call (read k) c = after_read c (get_item hash k c)
  call (erase k) c = after c (del_item hash k c)
  call (has k) c = (c, flag (contains hash k c))
  call wipe c = (clear c, done)
  call size c = (c, number (current_size c))
  call oldest c = (c, entry (will_be_kicked_out c))
  call items c = (c, entries (iteritems c))

  pub run : Cache K V → List (Call K V) → List (Answer K V)
  run c [] = []
  run c (x ∷ xs) = let r = call x c in r.1 ∷ run r.0 xs

  abbrev list_read : List (K × V) → Option (V × List (K × V)) → List (K × V) × Answer K V
  list_read es none = (es, raised)
  list_read es (some (v, fs)) = (fs, value v)

  abbrev list_erase : List (K × V) → Option (List (K × V)) → List (K × V) × Answer K V
  list_erase es none = (es, raised)
  list_erase es (some fs) = (fs, done)

  -- The calls on a plain list of at most `cap` entries, the most recent first.
  abbrev pub list_call : ℕ → Call K V → List (K × V) → List (K × V) × Answer K V
  list_call cap (store k v) es = (put hash cap k v es, done)
  list_call cap (read k) es = list_read es (touch hash k es)
  list_call cap (erase k) es = list_erase es (delete hash k es)
  list_call cap (has k) es = (es, flag (is_some (find hash (hash k) es)))
  list_call cap wipe es = ([], done)
  list_call cap size es = (es, number (length es))
  list_call cap oldest es = (es, entry (kicked_out cap es))
  list_call cap items es = (es, entries (some (reverse es)))

  pub list_run : ℕ → List (K × V) → List (Call K V) → List (Answer K V)
  list_run cap es [] = []
  list_run cap es (x ∷ xs) = let r = list_call cap x es in r.1 ∷ list_run cap r.0 xs

  touch-none : (k : K) (es : List (K × V)) → find hash (hash k) es ≡ none → touch hash k es ≡ none
  unfolding touch
  touch-none k es e = ground arith

  touch-some :
      (k : K) (es : List (K × V)) (t : K × V)
      → find hash (hash k) es ≡ some t
      → touch hash k es ≡ some (t.1, t ∷ remove hash (hash k) es)
  unfolding touch
  touch-some k es t e = ground arith

  delete-none : (k : K) (es : List (K × V)) → find hash (hash k) es ≡ none → delete hash k es ≡ none
  unfolding delete
  delete-none k es e = ground arith

  delete-some :
      (k : K) (es : List (K × V)) (t : K × V)
      → find hash (hash k) es ≡ some t
      → delete hash k es ≡ some (remove hash (hash k) es)
  unfolding delete
  delete-some k es t e = ground arith

  abbrev Matches : ℕ → Cache K V × Answer K V → List (K × V) × Answer K V → Type 0
  Matches cap r t = (r.1 ≡ t.1) × Rep hash r.0 t.0 × (r.0.max_size ≡ cap)

  call-Matches :
      {c : Cache K V} {es : List (K × V)} (x : Call K V)
      → Rep hash c es
      → Matches c.max_size (call x c) (list_call c.max_size x es)
  call-Matches {c} {es} (store k v) r =
      let (d, p, r', m) = set_item-put hash c k v es r in rw p (refl, r', m)
  call-Matches {c} {es} (read k) r = elim (Option-cases (find hash (hash k) es)) [
    | inl e ↦ rw (touch-none k es e, get_item-miss hash c k es r e) (refl, r, refl)
    | inr (t, e) ↦
        let (d, p, r', m) = get_item-hit hash c k es t r e in
        rw (touch-some k es t e, p) (refl, r', m)
  ]
  call-Matches {c} {es} (erase k) r = elim (Option-cases (find hash (hash k) es)) [
    | inl e ↦ rw (delete-none k es e, del_item-miss hash c k es r e) (refl, r, refl)
    | inr (t, e) ↦
        let (d, p, r', m) = del_item-hit hash c k es t r e in
        rw (delete-some k es t e, p) (refl, r', m)
  ]
  call-Matches {c} {es} (has k) r = (ap flag (contains-find hash c k es r), r, refl)
  call-Matches {c} {es} wipe r = (refl, clear-Rep hash c es r, clear-max_size hash c)
  call-Matches {c} {es} size r = (ap number (current_size-length hash c es r), r, refl)
  call-Matches {c} {es} oldest r = (ap entry (will_be_kicked_out-last hash c es r), r, refl)
  call-Matches {c} {es} items r = (ap entries (iteritems-reverse hash c es r), r, refl)

  run_from-list_run :
      {c : Cache K V} {es : List (K × V)} {cap : ℕ} (xs : List (Call K V))
      → c.max_size ≡ cap
      → Rep hash c es
      → run c xs ≡ list_run cap es xs
  unfolding run list_run
  run_from-list_run {c} {es} {cap} [] m r = refl
  run_from-list_run {c} {es} {cap} (x ∷ xs) m r =
      let (p, r', m') = subst (λ n. Matches n (call x c) (list_call n x es)) m (call-Matches x r) in
      let rest =
        run_from-list_run {c = (call x c).0} {es = (list_call cap x es).0} {cap = cap} xs m' r' in
      cc (p, rest)

  -- Every sequence of calls on a new cache gives, call by call, the answer that a plain list of
  -- entries in order of use gives, told apart by hash code and of the cache's maximal size.
  pub run-list_run :
      (no_key : K) (no_value : V) (m : Option ℕ) (xs : List (Call K V))
      → run (init no_key no_value m) xs ≡ list_run (init no_key no_value m).max_size [] xs
  run-list_run no_key no_value m xs = run_from-list_run xs refl (init-Rep hash no_key no_value m)
