-- ===== src/Map.antt =====
-- `std::map<int, V>` and `std::set<int>`: entries in ascending order of their keys. Each law holds
-- of every list of entries, also of one out of order.
use voipbill.Prelude.{
  ℕ, ◌≡◌, ◌||◌, Option, none, some, List, [], ◌∷◌, false, ltb, ◌==◌, if◌then◌else◌, arith, refl,
  ==_refl, contains, All, Bool-cases, inl, inr,
}

abbrev pub Map {ℓ} : Type ℓ → Type ℓ
Map V = List (ℕ × V)

module _ {ℓ} {V : Type ℓ} where
  -- `m.find(k)`, with `none` for `m.end()`.
  unfoldable pub lookup : ℕ → Map V → Option V
  lookup k [] = none
  lookup k ((j, v) ∷ m) = if k == j then some v else lookup k m

  -- `m[k] = v`.
  unfoldable pub insert : ℕ → V → Map V → Map V
  insert k v [] = (k, v) ∷ []
  insert k v ((j, w) ∷ m) =
      let rest = insert k v m in
      if k == j then (k, v) ∷ m else if ltb k j then (k, v) ∷ (j, w) ∷ m else (j, w) ∷ rest

  -- `m.erase(k)`.
  pub erase : ℕ → Map V → Map V
  erase k [] = []
  erase k ((j, v) ∷ m) = let rest = erase k m in if k == j then rest else (j, v) ∷ rest

  unfoldable pub keys : Map V → List ℕ
  keys [] = []
  keys ((k, v) ∷ m) = k ∷ keys m

  pub lookup-insert :
      (j k : ℕ) (v : V) (m : Map V)
      → lookup j (insert k v m) ≡ (if j == k then some v else lookup j m)
  unfolding lookup insert
  lookup-insert j k v [] = refl
  lookup-insert j k v ((i, w) ∷ m) = ground (arith, lookup-insert j k v m)

  pub lookup-insert_self : (k : ℕ) (v : V) (m : Map V) → lookup k (insert k v m) ≡ some v
  lookup-insert_self k v m = rw (lookup-insert k k v m, ==_refl k)

  pub lookup-erase :
      (j k : ℕ) (m : Map V) → lookup j (erase k m) ≡ (if j == k then none else lookup j m)
  unfolding lookup erase
  lookup-erase j k [] = ground arith
  lookup-erase j k ((i, w) ∷ m) = ground (arith, lookup-erase j k m)

  pub keys-insert :
      (i k : ℕ) (v : V) (m : Map V)
      → contains i (keys (insert k v m)) ≡ (i == k || contains i (keys m))
  unfolding keys insert
  keys-insert i k v [] = refl
  keys-insert i k v ((j, w) ∷ m) = ground (arith, keys-insert i k v m)

  pub lookup-none : (k : ℕ) (m : Map V) → contains k (keys m) ≡ false → lookup k m ≡ none
  unfolding lookup keys
  lookup-none k [] h = refl
  lookup-none k ((j, w) ∷ m) h = ground (arith, lookup-none k m, h)

  pub All-insert {κ} :
      (P : V → Type κ) (k : ℕ) (v : V) (m : Map V)
      → P v
      → All (λ e. P e.1) m
      → All (λ e. P e.1) (insert k v m)
  unfolding insert
  All-insert P k v [] p h = (p, tt)
  All-insert P k v ((j, w) ∷ m) p (q, h) = elim (Bool-cases (k == j)) [
    | inl e ↦ rw e (p, h)
    | inr e ↦ elim (Bool-cases (ltb k j)) [
      | inl g ↦ rw (e, g) (p, (q, h))
      | inr g ↦ rw (e, g) (q, All-insert P k v m p h)
    ]
  ]

-- `s.insert(k)`.
unfoldable pub add : ℕ → List ℕ → List ℕ
add k [] = k ∷ []
add k (j ∷ s) =
    let rest = add k s in if k == j then j ∷ s else if ltb k j then k ∷ j ∷ s else j ∷ rest

pub contains-add : (j k : ℕ) (s : List ℕ) → contains j (add k s) ≡ (j == k || contains j s)
unfolding add
contains-add j k [] = refl
contains-add j k (i ∷ s) = ground (arith, contains-add j k s)
