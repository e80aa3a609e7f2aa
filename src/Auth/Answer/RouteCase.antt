-- ===== src/Auth/Answer/RouteCase.antt =====
-- The trunks that an answer names.
use voipbill.Prelude.{
  zero, ℕ, ◌+◌, suc, ◌≡◌, refl, false, ◌==◌, some, List, [], ◌∷◌, length, take, contains,
  Bool-cases, inl, inr, arith, if◌then◌else◌,
}
use voipbill.Map.{add}
use voipbill.Models.Trunk.{Trunk, ServiceTrunkOrder}
use voipbill.Auth.{ok}
use voipbill.Auth.Answer.{add_name, route_case}

length-add : (k : ℕ) (ids : List ℕ) → contains k ids ≡ false → length (add k ids) ≡ suc (length ids)
unfolding add
length-add k [] h = refl
length-add k (j ∷ ids) h = ground (arith, h, length-add k ids)

-- The trunks with no id that was seen before.
pub distinct : (ids : List ℕ) → List Trunk → List Trunk
distinct ids [] = []
distinct ids (t ∷ trunks) =
    let rest = λ (i : List ℕ). distinct i trunks in
    if contains t.id ids then rest ids else t ∷ rest (add t.id ids)

pub join_names : (text : List ℕ) → List Trunk → List ℕ
join_names text [] = text
join_names text (t ∷ trunks) = join_names (add_name text t.trunk_name) trunks

not_full : (n left : ℕ) → n + suc left ≡ 3 → (n == 3) ≡ false
not_full n left h = ground (arith, h)

module _ {D : Type 0} where
  -- The trunks of the orders.
  abbrev pub AreOf : List (ServiceTrunkOrder D) → List Trunk → Type 0
  AreOf [] [] = Unit
  AreOf [] (t ∷ trunks) = ⊥
  AreOf (o ∷ orders) [] = ⊥
  AreOf (o ∷ orders) (t ∷ trunks) = (o.trunk ≡ some t) × AreOf orders trunks

  route_case-distinct :
      (left : ℕ) (ids text : List ℕ) (orders : List (ServiceTrunkOrder D)) (trunks : List Trunk)
      → AreOf orders trunks
      → length ids + suc left ≡ 3
      → route_case ids text orders ≡ ok (join_names text (take (suc left) (distinct ids trunks)))
  unfolding route_case distinct join_names
  route_case-distinct left ids text [] [] h e = refl
  route_case-distinct left ids text [] (t ∷ trunks) h e = absurd h
  route_case-distinct left ids text (o ∷ orders) [] h e = absurd h
  route_case-distinct zero ids text (o ∷ orders) (t ∷ trunks) (g, h) e =
      elim (Bool-cases (contains t.id ids)) [
        | inl k ↦ rw (g, k) (route_case-distinct zero ids text orders trunks h e)
        | inr k ↦
            let full : length (add t.id ids) ≡ 3 = omega (arith, length-add t.id ids k, e) in
            rw (g, k, full) refl
      ]
  route_case-distinct (suc left) ids text (o ∷ orders) (t ∷ trunks) (g, h) e =
      elim (Bool-cases (contains t.id ids)) [
        | inl k ↦ rw (g, k) (route_case-distinct (suc left) ids text orders trunks h e)
        | inr k ↦
            let room : length (add t.id ids) + suc left ≡ 3 =
              omega (arith, length-add t.id ids k, e) in
            rw (g, k, not_full (length (add t.id ids)) left room)
              (route_case-distinct left (add t.id ids) (add_name text t.trunk_name) orders trunks h
                room)
      ]

  -- The route case of automatic routing is made of the names of the first three trunks of the
  -- orders, each once and as they stand, where every order has its trunk.
  pub route_case-take :
      (orders : List (ServiceTrunkOrder D)) (trunks : List Trunk)
      → AreOf orders trunks
      → route_case [] [] orders ≡ ok (join_names [] (take 3 (distinct [] trunks)))
  route_case-take orders trunks h = route_case-distinct 2 [] [] orders trunks h refl
