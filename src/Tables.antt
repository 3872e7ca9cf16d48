-- ===== src/Tables.antt =====
-- Python's dict with texts for keys, as a list of pairs in which no key stands twice.
use summerrpc.Prelude.{
  ◌≡◌, refl, sym, ap, ◌∙◌, false, Option, none, some, List, [], ◌∷◌, ◌++◌, if◌then◌else◌, arith,
  Bool-cases, inl, inr,
}
use summerrpc.Text.{Bytes, same}
use summerrpc.Text.Laws.{same-eq}

abbrev pub Table : Type 0 → Type 0
Table A = List (Bytes × A)

-- `d[key] = value`, and `d.get(key)`.
abbrev pub set_item {ℓ} : {A : Type ℓ} → Bytes → A → List (Bytes × A) → List (Bytes × A)
set_item key v [] = (key, v) ∷ []
set_item key v ((k, w) ∷ ps) =
    let rest = set_item key v ps in if same k key then (k, v) ∷ ps else (k, w) ∷ rest

abbrev pub get_item {ℓ} : {A : Type ℓ} → Bytes → List (Bytes × A) → Option A
get_item key [] = none
get_item key ((k, v) ∷ ps) = let rest = get_item key ps in if same k key then some v else rest

pub get_item-set_item {ℓ} :
    {A : Type ℓ} (key : Bytes) (v : A) (ps : List (Bytes × A)) (k : Bytes)
    → get_item k (set_item key v ps) ≡ (if same key k then some v else get_item k ps)
get_item-set_item key v [] k = refl
get_item-set_item key v ((j, w) ∷ ps) k = elim (Bool-cases (same j key)) [
  | inl e ↦
      let q : same j k ≡ same key k = ap (λ x. same x k) (same-eq j key e) in ground (arith, e, q)
  | inr e ↦
      let ih = get_item-set_item key v ps k in
      elim (Bool-cases (same key k)) [
        | inl f ↦
            let q : same j k ≡ false = ap (same j) (sym (same-eq key k f)) ∙ e in
            ground (arith, e, f, q, ih)
        | inr f ↦ ground (arith, e, f, ih)
      ]
]

-- `d.setdefault(key, []).append(v)`
abbrev pub append_item {ℓ} :
    {A : Type ℓ} → Bytes → A → List (Bytes × List A) → List (Bytes × List A)
append_item key v [] = (key, v ∷ []) ∷ []
append_item key v ((k, vs) ∷ ps) =
    let rest = append_item key v ps in if same k key then (k, vs ++ v ∷ []) ∷ ps else (k, vs) ∷ rest

abbrev pub append_to {ℓ} : {A : Type ℓ} → Option (List A) → A → Option (List A)
append_to none v = some (v ∷ [])
append_to (some vs) v = some (vs ++ v ∷ [])

pub get_item-append_item {ℓ} :
    {A : Type ℓ} (key : Bytes) (v : A) (ps : List (Bytes × List A)) (k : Bytes)
    → get_item k (append_item key v ps)
      ≡ (if same key k then append_to (get_item k ps) v else get_item k ps)
get_item-append_item key v [] k = refl
get_item-append_item key v ((j, ws) ∷ ps) k = elim (Bool-cases (same j key)) [
  | inl e ↦
      let q : same j k ≡ same key k = ap (λ x. same x k) (same-eq j key e) in
      elim (Bool-cases (same key k)) [
        | inl f ↦ rw (append_item, get_item, e, q, f) refl
        | inr f ↦ rw (append_item, get_item, e, q, f) refl
      ]
  | inr e ↦
      let ih = get_item-append_item key v ps k in
      elim (Bool-cases (same key k)) [
        | inl f ↦
            let q : same j k ≡ false = ap (same j) (sym (same-eq key k f)) ∙ e in
            ground (arith, e, f, q, ih)
        | inr f ↦ ground (arith, e, f, ih)
      ]
]
