-- ===== src/Auth/RouteTable/Routes.antt =====
-- Where the routes of a table lead, said without the order of the search.
use voipbill.Prelude.{
  ℕ, zero, suc, ◌≡◌, ◌≢◌, refl, sym, subst, ◌∙◌, ap, true, false, ◌==◌, ==→eq, Option, none, some,
  List, [], ◌∷◌, All, ◌⊎◌, inl, inr, Bool-cases, arith, ==_ne, head?,
}
use voipbill.Models.Trunk.{Server}
use voipbill.Models.Routing.{RouteTable, RouteTableRoute}
use voipbill.Mega.{StateMegaTrunk}
use voipbill.Lists.{Lists, rows_of, find}
use voipbill.Auth.{
  AuthError, fault, out_of_fuel, Caller, Result, ok, thrown, ◌>>=◌, Post, bind-Post, Post-ok,
  route_table_not_found, required,
}
use voipbill.Auth.RouteTable.{
  passes, is_skipped, follow, found_or, walk, move_to, routes_of, process_route_table,
}

abbrev pub On : {A : Type 0} → A → List A → Type 0
On a [] = ⊥
On a (x ∷ xs) = (a ≡ x) ⊎ On a xs

All-On {κ} : {A : Type 0} (P : A → Type κ) (a : A) (xs : List A) → On a xs → All P xs → P a
All-On P a [] m h = absurd m
All-On P a (x ∷ xs) (inl e) (p, ps) = subst P (sym e) p
All-On P a (x ∷ xs) (inr m) (p, ps) = All-On P a xs m ps

pub rows_of-key {ℓ} :
    {A : Type ℓ} (key : A → ℕ) (k : ℕ) (rows : List A) → All (λ a. key a ≡ k) (rows_of key k rows)
unfolding rows_of
rows_of-key key k [] = tt
rows_of-key key k (a ∷ rows) = elim (Bool-cases (key a == k)) [
  | inl e ↦ rw e (==→eq (key a) k e, rows_of-key key k rows)
  | inr e ↦ rw e (rows_of-key key k rows)
]

-- A row that is found has the id that it is found by.
abbrev HasKey {ℓ} : {A : Type ℓ} (id : A → ℕ) (k : ℕ) → Option A → Type 0
HasKey id k none = Unit
HasKey id k (some a) = id a ≡ k

head-HasKey {ℓ} :
    {A : Type ℓ} (id : A → ℕ) (k : ℕ) (rows : List A)
    → All (λ a. id a ≡ k) rows
    → HasKey id k (head? rows)
head-HasKey id k [] h = tt
head-HasKey id k (a ∷ rows) (e, _) = e

pub find-HasKey {ℓ} :
    {A : Type ℓ} (id : A → ℕ) (k : ℕ) (rows : List A) → HasKey id k (find id k rows)
find-HasKey id k rows = head-HasKey id k _ (rows_of-key id k rows)

ok_inj : {A : Type 0} {a b : A} → ok a ≡ ok b → a ≡ b
ok_inj e = cc

thrown_ok : {A : Type 0} {a : A} {e : AuthError} → thrown e ≢ ok a
thrown_ok e = cc

false_ok : ok true ≢ ok false
false_ok e = cc

pub required-key :
    {A : Type 0} (id : A → ℕ) (k : ℕ) (o : Option A) (a : A)
    → HasKey id k o
    → required route_table_not_found o ≡ ok a
    → id a ≡ k
required-key id k none a h e = absurd (thrown_ok e)
required-key id k (some b) a h e = ap id (sym (ok_inj e)) ∙ h

module _ {D : Type 0} (l : Lists D) (p : Caller D) (mega : StateMegaTrunk) where
  -- A table leads to the outcome of a route of it that the numbers pass and the phase allows, and
  -- to what the table of such a route leads to.
  pub data Leads : (route_table_id outcome_id : ℕ) → Type 0 where
    direct :
        {i : ℕ} (r : RouteTableRoute)
        → On r (routes_of l p mega i)
        → passes l p mega r ≡ ok true
        → r.outcome_id ≢ 0
        → is_skipped l p mega r.outcome_id ≡ false
        → Leads i r.outcome_id
    through :
        {i o : ℕ} (r : RouteTableRoute)
        → On r (routes_of l p mega i)
        → passes l p mega r ≡ ok true
        → r.outcome_id ≡ 0
        → r.outcome_route_table_id ≢ 0
        → Leads r.outcome_route_table_id o
        → Leads i o

  pub data Decides (i o : ℕ) : Type 0 where
    leads : o ≢ 0 → Leads i o → Decides i o
    dead_end : o ≡ 0 → ((o' : ℕ) → Leads i o' → ⊥) → Decides i o

  -- Of a route that leads nowhere.
  abbrev IsDead : RouteTableRoute → Type 0
  IsDead r =
      passes l p mega r ≡ ok true
      → (r.outcome_id ≢ 0 → is_skipped l p mega r.outcome_id ≡ true)
        × (r.outcome_id ≡ 0
            → r.outcome_route_table_id ≢ 0
            → (o : ℕ) → Leads r.outcome_route_table_id o
            → ⊥)

  data Walked (i : ℕ) (routes : List RouteTableRoute) (o : ℕ) : Type 0 where
    found : o ≢ 0 → Leads i o → Walked i routes o
    passed_by : o ≡ 0 → All IsDead routes → Walked i routes o

  abbrev Walks : ℕ → List RouteTableRoute → Result (ℕ × Server) → Type 0
  Walks i routes = Post (λ x. Walked i routes x.0)

  pass_by :
      (i : ℕ) (r : RouteTableRoute) (routes : List RouteTableRoute) (m : Result (ℕ × Server))
      → IsDead r
      → Walks i routes m
      → Walks i (r ∷ routes) m
  pass_by i r routes (ok (o, s)) d (found n h) = found n h
  pass_by i r routes (ok (o, s)) d (passed_by e h) = passed_by e (d, h)
  pass_by i r routes (thrown e) d h = tt
  pass_by i r routes fault d h = tt
  pass_by i r routes out_of_fuel d h = tt

  module _ (nested : ℕ → Server → Result (ℕ × Server))
      (decides : (i : ℕ) (s : Server) → Post (λ x. Decides i x.0) (nested i s)) (i : ℕ) where
    nested_Walks :
        (rest : Server → Result (ℕ × Server)) (r : RouteTableRoute) (routes : List RouteTableRoute)
        (s : Server)
        → On r (routes_of l p mega i)
        → passes l p mega r ≡ ok true
        → r.outcome_id ≡ 0
        → r.outcome_route_table_id ≢ 0
        → ((s' : Server) → Walks i routes (rest s'))
        → Walks i (r ∷ routes) (nested r.outcome_route_table_id s >>= found_or l p mega rest)
    nested_Walks rest r routes s on e z n h =
        let next = r.outcome_route_table_id in
        bind-Post _ (nested next s) _ λ a eq.
          elim (Post-ok (λ x. Decides next x.0) _ a (decides next s) eq) [
            | leads ne le ↦ rw (==_ne a.0 0 ne) (found ne (through r on e z n le))
            | dead_end e0 none_leads ↦ rw (e0) (
                pass_by i r routes (rest a.1) (λ _. (λ k. absurd (k z), λ _ _. none_leads)) (h a.1))
          ]

    follow-Walks :
        (rest : Server → Result (ℕ × Server)) (r : RouteTableRoute) (routes : List RouteTableRoute)
        (s : Server)
        → On r (routes_of l p mega i)
        → passes l p mega r ≡ ok true
        → ((s' : Server) → Walks i routes (rest s'))
        → Walks i (r ∷ routes) (follow l p mega nested rest r s)
    follow-Walks rest r routes s on e h = elim (Bool-cases (r.outcome_id == 0)) [
      | inr z ↦ elim (Bool-cases (is_skipped l p mega r.outcome_id)) [
        | inl k ↦
            rw (z, k)
              (pass_by i r routes (rest s) (λ _. (λ _. k, λ g. absurd (ground (arith, z, g))))
                (h s))
        | inr k ↦ rw (z, k) (found (ground (arith, z)) (direct r on e (ground (arith, z)) k))
      ]
      | inl z ↦ elim (Bool-cases (r.outcome_route_table_id == 0)) [
        | inl k ↦
            rw (z, k)
              (pass_by i r routes (rest s)
                (λ _. (λ n. absurd (ground (arith, z, n)), λ _ n. absurd (ground (arith, k, n))))
                (h s))
        | inr k ↦
            rw (z, k) (nested_Walks rest r routes s on e (ground (arith, z)) (ground (arith, k)) h)
      ]
    ]

    walk-Walks :
        (routes : List RouteTableRoute) (s : Server)
        → ((r : RouteTableRoute) → On r routes → On r (routes_of l p mega i))
        → Walks i routes (walk l p mega nested routes s)
    unfolding walk
    walk-Walks [] s on = passed_by refl tt
    walk-Walks (r ∷ routes) s on =
        let rest : (s' : Server) → Walks i routes (walk l p mega nested routes s') =
          λ s'. walk-Walks routes s' (λ r' m. on r' (inr m)) in
        bind-Post _ (passes l p mega r) _ λ passed e. elim (Bool-cases passed) [
          | inl g ↦ rw g (follow-Walks _ r routes s (on r (inl refl)) (e ∙ ap ok g) rest)
          | inr g ↦
              rw g (pass_by i r routes _ (λ e'. absurd (false_ok (sym e' ∙ e ∙ ap ok g))) (rest s))
        ]

  dead-Leads : (i o : ℕ) → All IsDead (routes_of l p mega i) → Leads i o → ⊥
  dead-Leads i o h (direct r on e n k) = absurd (ground (arith, (All-On IsDead r _ on h e).0 n, k))
  dead-Leads i o h (through r on e z n le) = (All-On IsDead r _ on h e).1 z n o le

  decide :
      (i : ℕ) (m : Result (ℕ × Server))
      → Walks i (routes_of l p mega i) m
      → Post (λ x. Decides i x.0) m
  decide i (ok (o, s)) (found n h) = leads n h
  decide i (ok (o, s)) (passed_by e h) = dead_end e (λ o'. dead-Leads i o' h)
  decide i (thrown e) h = tt
  decide i fault h = tt
  decide i out_of_fuel h = tt

  -- `processRouteTable`, with any fuel. An outcome that it returns is one that the table leads to, and when it returns 0 the table leads to none.
  pub process_route_table-Decides :
      (fuel i : ℕ) (s : Server) → Post (λ x. Decides i x.0) (process_route_table l p mega fuel i s)
  unfolding process_route_table
  process_route_table-Decides zero i s = tt
  process_route_table-Decides (suc fuel) i s =
      bind-Post _ (required route_table_not_found (find (λ (t : RouteTable). t.id) i l.route_table))
        _
        λ t e.
          let key =
            required-key (λ (t : RouteTable). t.id) i _ t (find-HasKey _ i l.route_table) e in
          let nested = process_route_table l p mega fuel in
          subst
            (λ k.
              Post (λ x. Decides k x.0)
                (walk l p mega nested (routes_of l p mega t.id) (move_to l p mega t s)))
            key
            (decide t.id _ (
              walk-Walks nested (process_route_table-Decides fuel) t.id _ (move_to l p mega t s)
                (λ r m. m)))
