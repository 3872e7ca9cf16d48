-- ===== src/Lru/Refines.antt =====
-- When a cache holds a list of entries, and the step that every insertion ends with.
use summerrpc.Prelude.{
  ℕ, suc, ◌≤◌, ◌<◌, ◌≡◌, ◌≢◌, refl, sym, ap, subst, ◌∙◌, none, some, List, [], ◌∷◌, ◌++◌, arith,
  ◌==◌, if◌then◌else◌, length, map, All, Fresh, Distinct,
}
use summerrpc.Lru.{Cache, update, head, link_front}
use summerrpc.Lru.Items.{find, remove}
use summerrpc.Lru.Entries.{RingOf, pair, link_front-RingOf, pair-link_front}
use summerrpc.Lru.Codes.{find_addr, Lacks, Apart, Agree, find_addr-Agree, Lacks-Agree, Apart-Agree}

module _ {K V : Type 0} (hash : K → ℕ) where
  abbrev pub code : (ℕ → K × V) → ℕ → ℕ
  code f a = hash (f a).0

  -- The cache holds the entries `es`, the most recent first, within its capacity.
  pub record Rep (c : Cache K V) (es : List (K × V)) : Type 0 where
    pub ring : List ℕ
    pub linked : RingOf c.heap ring
    pub distinct : Distinct (head ∷ ring)
    pub young : All (λ a. a < c.fresh) (head ∷ ring)
    pub apart : Apart (code (pair c.heap)) ring
    pub found : (h : ℕ) → c.dict.get h ≡ find_addr (code (pair c.heap)) h ring
    pub sized : c.dict.size ≡ length ring
    pub items : es ≡ map (pair c.heap) ring
    pub positive : 1 ≤ c.max_size
    pub bounded : length ring ≤ c.max_size

  module _ (f : ℕ → K × V) where
    pub find-some :
        (h : ℕ) (cs : List ℕ) (a : ℕ)
        → find_addr (code f) h cs ≡ some a
        → find hash h (map f cs) ≡ some (f a)
    find-some h [] a e = cc
    find-some h (b ∷ cs) a e = ground (arith, find-some h cs a)

    pub find-none :
        (h : ℕ) (cs : List ℕ) → find_addr (code f) h cs ≡ none → find hash h (map f cs) ≡ none
    find-none h [] e = refl
    find-none h (b ∷ cs) e = ground (arith, find-none h cs)

    pub remove-map :
        (xs : List ℕ) (a : ℕ) (ys : List ℕ)
        → Apart (code f) (xs ++ a ∷ ys)
        → remove hash (code f a) (map f (xs ++ a ∷ ys)) ≡ map f (xs ++ ys)
    remove-map [] a ys d = ground arith
    remove-map (x ∷ xs) a ys d =
        let ih = remove-map xs a ys d.1 in let ne = first-ne xs d.0 in ground arith
      where
        first-ne : (zs : List ℕ) → Lacks (code f) (code f x) (zs ++ a ∷ ys) → code f a ≢ code f x
        first-ne [] l = l.0
        first-ne (z ∷ zs) l = first-ne zs l.1

    Agree-update :
        (a : ℕ) (e : K × V) (cs : List ℕ) → Fresh a cs → Agree (code f) (code (update f a e)) cs
    Agree-update a e [] h = tt
    Agree-update a e (b ∷ cs) h = (ground arith, Agree-update a e cs h.1)

    map-update : (a : ℕ) (e : K × V) (cs : List ℕ) → Fresh a cs → map (update f a e) cs ≡ map f cs
    map-update a e [] h = refl
    map-update a e (b ∷ cs) h = ground (arith, map-update a e cs h.1)

  -- A ring behind a new front entry.
  module _ (f : ℕ → K × V) (a : ℕ) (e : K × V) (rest : List ℕ) (fresh : Fresh a rest) where
    here : update f a e a ≡ e
    here = ground arith

    Apart-front :
        Lacks (code f) (hash e.0) rest
        → Apart (code f) rest
        → Apart (code (update f a e)) (a ∷ rest)
    Apart-front l p =
        let g = Agree-update f a e rest fresh in
        (
          subst (λ w. Lacks (code (update f a e)) (hash w.0) rest) (sym here)
              (Lacks-Agree (code f) _ (hash e.0) rest g l),
          Apart-Agree (code f) _ rest g p,
        )

    find_addr-update :
        (h : ℕ)
        → find_addr (code (update f a e)) h (a ∷ rest)
          ≡ (if hash e.0 == h then some a else find_addr (code f) h rest)
    find_addr-update h =
        ap (λ w. if hash w.0 == h then some a else find_addr (code (update f a e)) h rest) here
        ∙ ap (λ w. if hash e.0 == h then some a else w)
            (find_addr-Agree (code f) (code (update f a e)) h rest (Agree-update f a e rest fresh))

    items-front : e ∷ map f rest ≡ map (update f a e) (a ∷ rest)
    items-front = cc (here, map-update f a e rest fresh)

  -- An entry that stands apart from the ring `rest` is linked in behind the head.
  pub front-Rep :
      (c : Cache K V) (f : ℕ → K × V) (rest : List ℕ) (a : ℕ) (e : K × V)
      → RingOf c.heap rest
      → Distinct (head ∷ rest)
      → Fresh a (head ∷ rest)
      → pair c.heap ≡ update f a e
      → Lacks (code f) (hash e.0) rest
      → Apart (code f) rest
      → All (λ b. b < c.fresh) (head ∷ a ∷ rest)
      → ((h : ℕ) → c.dict.get h ≡ (if hash e.0 == h then some a else find_addr (code f) h rest))
      → c.dict.size ≡ suc (length rest)
      → suc (length rest) ≤ c.max_size
      → Rep (record c { heap = link_front c.heap a }) (e ∷ map f rest)
  front-Rep c f rest a e l d o p lacks apart y g z b =
      let p' : pair (link_front c.heap a) ≡ update f a e = pair-link_front c.heap a ∙ p in
      record {
        ring = a ∷ rest;
        linked = link_front-RingOf c.heap a rest l d o;
        distinct = (((λ q. o.0 (sym q)), d.0), (o.1, d.1));
        young = y;
        apart =
            subst (λ w. Apart (code w) (a ∷ rest)) (sym p')
              (Apart-front f a e rest o.1 lacks apart);
        found = λ h.
            g h
            ∙ sym (find_addr-update f a e rest o.1 h)
            ∙ ap (λ w. find_addr (code w) h (a ∷ rest)) (sym p');
        sized = z;
        items = items-front f a e rest o.1 ∙ ap (λ w. map w (a ∷ rest)) (sym p');
        positive = omega arith;
        bounded = b;
      }
