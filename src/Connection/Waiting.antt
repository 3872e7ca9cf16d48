-- ===== src/Connection/Waiting.antt =====
-- connection.py: the maps of futures by transaction id, counted by future: how often a future stands
-- in a map before and after what `read`, `_async_read` and `_close_read` do to it.
use summerrpc.Prelude.{
  ℕ, ◌+◌, ◌≤◌, ◌≡◌, ap, ◌⊎◌, inl, inr, Bool, true, false, Option, none, some, List, [], ◌∷◌, arith,
  leb, ltb, ◌==◌, if◌then◌else◌, length, map, reverse, count, one_if, option_cases, option_split,
  if_cases, Bool-cases,
}
use summerrpc.Exceptions.{connection_abort_error}
use summerrpc.Lru.Items.{find, remove, put, kicked_out, drop_last, last}
use summerrpc.Connection.{Settled, exception, abort_reads, same_id}
use summerrpc.Connection.Futures.{settled}
use mathlib.Core.List.{reverse_aux}

abbrev pub held : List (ℕ × ℕ) → List ℕ
held = map (λ e. e.1)

module _ (f : ℕ) where
  -- An entry that is perhaps there, counted.
  abbrev pub one_of : Option (ℕ × ℕ) → ℕ
  one_of none = 0
  one_of (some e) = one_if f e.1

  pub count-remove :
      (id : ℕ) (es : List (ℕ × ℕ)) (e : ℕ × ℕ)
      → find same_id id es ≡ some e
      → count f (held es) ≡ one_if f e.1 + count f (held (remove same_id id es))
  count-remove id [] e h = cc
  count-remove id ((k, g) ∷ es) e h = go (k == id) h (λ h'. count-remove id es e h')
    where
      go :
          (b : Bool)
          → (if b then some (k, g) else find same_id id es) ≡ some e
          → (find same_id id es ≡ some e
              → count f (held es) ≡ one_if f e.1 + count f (held (remove same_id id es)))
          → count f (held ((k, g) ∷ es))
            ≡ one_if f e.1 + count f (held (if b then es else (k, g) ∷ remove same_id id es))
      go true h' rest = omega (arith, ap one_of h')
      go false h' rest = omega (arith, rest h')

  pub count-remove_le :
      (id : ℕ) (es : List (ℕ × ℕ)) → count f (held (remove same_id id es)) ≤ count f (held es)
  count-remove_le id [] = omega arith
  count-remove_le id ((k, g) ∷ es) =
      if_cases (λ x. count f (held x) ≤ count f (held ((k, g) ∷ es))) (k == id) (omega arith)
        (omega (arith, count-remove_le id es))

  pub count-drop_last :
      (es : List (ℕ × ℕ)) → count f (held es) ≡ one_of (last es) + count f (held (drop_last es))
  count-drop_last [] = omega arith
  count-drop_last (e ∷ []) = omega arith
  count-drop_last (e ∷ d ∷ es) = omega (arith, count-drop_last (d ∷ es))

  pub count-put :
      (room id g : ℕ) (es : List (ℕ × ℕ))
      → find same_id id es ≡ none
      → one_of (kicked_out room es) + count f (held (put same_id room id g es))
        ≡ one_if f g + count f (held es)
  count-put room id g es h =
      option_split
        (λ x. one_of (kicked_out room es) + count f (held x) ≡ one_if f g + count f (held es))
        (find same_id id es) (λ e. full (Bool-cases (leb room (length es)))) (λ a e. absurd (cc))
    where
      full :
          (leb room (length es) ≡ true) ⊎ (leb room (length es) ≡ false)
          → one_of (kicked_out room es)
              + count f
                  (held (if leb room (length es) then (id, g) ∷ drop_last es else (id, g) ∷ es))
            ≡ one_if f g + count f (held es)
      full (inl e) =
          let k : ltb (length es) room ≡ false = ground (arith, e) in
          rw (e, k) (omega (arith, count-drop_last es))
      full (inr e) =
          let k : ltb (length es) room ≡ true = ground (arith, e) in rw (e, k) (omega arith)

  pub count-put_le :
      (room id g : ℕ) (es : List (ℕ × ℕ))
      → count f (held (put same_id room id g es)) ≤ one_if f g + count f (held es)
  count-put_le room id g es =
      let P : List (ℕ × ℕ) → Type 0 = λ x. count f (held x) ≤ one_if f g + count f (held es) in
      option_cases P (find same_id id es)
        (if_cases P (leb room (length es)) (omega (arith, count-drop_last es)) (omega arith))
        (λ e. omega (arith, count-remove_le id es))

  pub count-abort_reads :
      (es : List (ℕ × ℕ)) (log : List (ℕ × Settled))
      → count f (settled (abort_reads es log)) ≡ count f (held es) + count f (settled log)
  unfolding abort_reads
  count-abort_reads [] log = omega arith
  count-abort_reads ((k, g) ∷ es) log =
      omega (arith, count-abort_reads es ((g, exception connection_abort_error) ∷ log))

  count-reverse_aux :
      (es ds : List (ℕ × ℕ))
      → count f (held (reverse_aux es ds)) ≡ count f (held es) + count f (held ds)
  count-reverse_aux [] ds = omega arith
  count-reverse_aux (e ∷ es) ds = omega (arith, count-reverse_aux es (e ∷ ds))

  pub count-reverse : (es : List (ℕ × ℕ)) → count f (held (reverse es)) ≡ count f (held es)
  count-reverse es = omega (arith, count-reverse_aux es [])
