-- ===== src/Auth/RouteTable/Endless.antt =====
-- How long the search for a route goes on.
use voipbill.Prelude.{
  ℕ, zero, suc, ◌<◌, ◌≡◌, ◌≢◌, refl, ap, ◌∙◌, Bool, true, false, ◌==◌, ==_ne, Option, none, some,
  List, [], ◌∷◌, All, All-map, inl, inr, Bool-cases, arith, if◌then◌else◌,
}
use voipbill.Models.Trunk.{Server}
use voipbill.Models.Routing.{RouteTable, RouteTableRoute, Number, Prefixlist}
use voipbill.Mega.{StateMegaTrunk}
use voipbill.Lists.{Lists, rows_of, find}
use voipbill.Auth.{
  AuthError, fault, out_of_fuel, Caller, Result, ok, thrown, ◌>>=◌, required, any_of,
  route_table_not_found, number_not_found, std_error, prefixlist_not_found,
}
use voipbill.Auth.Filters.{match_prefixlist, filter_by_number, get_prefixlist_ids}
use voipbill.Auth.RouteTable.{
  passes, passes_number, is_skipped, found_or, walk, move_to, routes_of, process_route_table,
}
use voipbill.Auth.RouteTable.Routes.{rows_of-key, find-HasKey, required-key}

-- The code comes to an end: with a value, an exception or a fault.
abbrev pub Ends {ℓ} : {A : Type ℓ} → Result A → Type 0
Ends (ok a) = Unit
Ends (thrown e) = Unit
Ends fault = Unit
Ends out_of_fuel = ⊥

bind-Ends {ℓ κ} :
    {A : Type ℓ} {B : Type κ} (m : Result A) (f : A → Result B)
    → Ends m
    → ((a : A) → m ≡ ok a → Ends (f a))
    → Ends (m >>= f)
bind-Ends (ok a) f h k = k a refl
bind-Ends (thrown e) f h k = tt
bind-Ends fault f h k = tt
bind-Ends out_of_fuel f h k = h

if-Ends {ℓ} : {A : Type ℓ} (b : Bool) (m n : Result A) → Ends m → Ends n → Ends (if b then m else n)
if-Ends true m n h k = h
if-Ends false m n h k = k

required-Ends {ℓ} : {A : Type ℓ} (e : AuthError) (o : Option A) → Ends (required e o)
required-Ends e none = tt
required-Ends e (some a) = tt

any_of-Ends {ℓ} :
    {A : Type ℓ} (f : A → Result Bool) (items : List A)
    → ((a : A) → Ends (f a))
    → Ends (any_of f items)
unfolding any_of
any_of-Ends f [] h = tt
any_of-Ends f (a ∷ items) h =
    bind-Ends (f a) _ (h a) (λ found _. if-Ends found _ _ tt (any_of-Ends f items h))

rows_of-All {ℓ κ} :
    {A : Type ℓ} (P : A → Type κ) (key : A → ℕ) (k : ℕ) (rows : List A)
    → All P rows
    → All P (rows_of key k rows)
unfolding rows_of
rows_of-All P key k [] h = tt
rows_of-All P key k (a ∷ rows) (p, h) = elim (Bool-cases (key a == k)) [
  | inl e ↦ rw e (p, rows_of-All P key k rows h)
  | inr e ↦ rw e (rows_of-All P key k rows h)
]

All-zip {ℓ κ μ} :
    {A : Type ℓ} (P : A → Type κ) (Q : A → Type μ) (xs : List A)
    → All P xs
    → All Q xs
    → All (λ a. P a × Q a) xs
All-zip P Q [] h k = tt
All-zip P Q (x ∷ xs) (p, h) (q, k) = ((p, q), All-zip P Q xs h k)

module _ {D : Type 0} (l : Lists D) where
  filter_by_number-Ends : (i : ℕ) (number : List ℕ) → Ends (filter_by_number l i number)
  unfolding filter_by_number match_prefixlist
  filter_by_number-Ends i number =
      bind-Ends _ _ (required-Ends number_not_found (find (λ (n : Number). n.id) i l.number)) λ n _.
        bind-Ends _ _ (required-Ends std_error (get_prefixlist_ids n)) λ ids _.
          any_of-Ends _ ids λ j.
            bind-Ends _ _
              (required-Ends prefixlist_not_found (find (λ (p : Prefixlist). p.id) j l.prefixlist))
              λ _ _. tt

  module _ (p : Caller D) (mega : StateMegaTrunk) where
    passes_number-Ends : (i : ℕ) (number : List ℕ) → Ends (passes_number l p mega i number)
    unfolding passes_number
    passes_number-Ends i number = if-Ends (i == 0) _ _ tt (filter_by_number-Ends i number)

    passes-Ends : (r : RouteTableRoute) → Ends (passes l p mega r)
    unfolding passes
    passes-Ends r =
        bind-Ends _ _ (passes_number-Ends r.a_number_id p.a_number)
          λ passed _. if-Ends passed _ _ (passes_number-Ends r.b_number_id p.b_number) tt

    found_or-Ends :
        (rest : Server → Result (ℕ × Server)) (x : ℕ × Server)
        → ((s : Server) → Ends (rest s))
        → Ends (found_or l p mega rest x)
    found_or-Ends rest (o, s) h = if-Ends (o == 0) _ _ (h s) tt

    walk-Ends :
        (nested : ℕ → Server → Result (ℕ × Server)) (routes : List RouteTableRoute) (s : Server)
        → All
            (λ r.
              r.outcome_route_table_id ≢ 0
              → (s' : Server) → Ends (nested r.outcome_route_table_id s'))
            routes
        → Ends (walk l p mega nested routes s)
    unfolding walk
    walk-Ends nested [] s h = tt
    walk-Ends nested (r ∷ routes) s (n, h) =
        bind-Ends (passes l p mega r) _ (passes-Ends r) λ passed _.
          if-Ends passed _ _
            (elim (Bool-cases (r.outcome_id == 0)) [
              | inr e ↦
                  rw e (
                    if-Ends (is_skipped l p mega r.outcome_id) _ _ (walk-Ends nested routes s h) tt)
              | inl e ↦ rw e (elim (Bool-cases (r.outcome_route_table_id == 0)) [
                | inl k ↦ rw k (walk-Ends nested routes s h)
                | inr k ↦ rw k (
                    bind-Ends _ _ (n (ground (arith, k)) s)
                      λ x _. found_or-Ends _ x (λ s'. walk-Ends nested routes s' h))
              ])
            ])
            (walk-Ends nested routes s h)

    -- `processRouteTable` comes to an end with more fuel than the rank of the table, where each route to another table leads to one of a lower rank.
    pub process_route_table-Ends :
        (rank : ℕ → ℕ)
        → All
            (λ (r : RouteTableRoute).
              r.outcome_route_table_id ≢ 0 → rank r.outcome_route_table_id < rank r.route_table_id)
            l.route_table_route
        → (fuel i : ℕ) (s : Server) → rank i < fuel
        → Ends (process_route_table l p mega fuel i s)
    unfolding process_route_table routes_of
    process_route_table-Ends rank h zero i s k = omega (arith, k)
    process_route_table-Ends rank h (suc fuel) i s k =
        bind-Ends _ _
          (required-Ends route_table_not_found (find (λ (t : RouteTable). t.id) i l.route_table))
          λ t e.
            let key =
              required-key (λ (t : RouteTable). t.id) i _ t (find-HasKey _ i l.route_table) e in
            walk-Ends (process_route_table l p mega fuel) _ (move_to l p mega t s) (
              All-map _ _
                (λ r q n s'.
                  process_route_table-Ends rank h fuel r.outcome_route_table_id s'
                    (omega (arith, q.1 n, ap rank (q.0 ∙ key), k)))
                (routes_of l p mega t.id)
                (All-zip _ _ _
                  (rows_of-key (λ (r : RouteTableRoute). r.route_table_id) t.id l.route_table_route)
                  (rows_of-All _ _ t.id _ h)))

    -- `processRouteTable` never comes to an end, whatever the fuel, where the first route of a table leads back to it and the numbers of the call pass that route.
    pub process_route_table-Endless :
        (i : ℕ) (t : RouteTable) (r : RouteTableRoute) (routes : List RouteTableRoute)
        → find (λ (t : RouteTable). t.id) i l.route_table ≡ some t
        → routes_of l p mega t.id ≡ r ∷ routes
        → passes l p mega r ≡ ok true
        → r.outcome_id ≡ 0
        → r.outcome_route_table_id ≡ i
        → i ≢ 0
        → (fuel : ℕ) (s : Server) → process_route_table l p mega fuel i s ≡ out_of_fuel
    unfolding process_route_table walk
    process_route_table-Endless i t r routes e f g h k n zero s = refl
    process_route_table-Endless i t r routes e f g h k n (suc fuel) s =
        let again = process_route_table-Endless i t r routes e f g h k n fuel in
        simp (e, f, g, h, k, ==_ne i 0 n, again)
