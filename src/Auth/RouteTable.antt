-- ===== src/Auth/RouteTable.antt =====
-- `processRouteTable` of src-bill/classes/RadiusAuthProcessor.cpp: a route leads to an outcome or to
-- another table. The code recurses without a bound, here with fuel. A table moves the call to its
-- region, and the server stays there when the table leads nowhere.
pub mod Routes
pub mod Endless
use voipbill.Prelude.{
  ℕ, zero, suc, Bool, true, false, not, ◌&&◌, ◌||◌, ◌==◌, Option, none, some, List, [], ◌∷◌,
  if◌then◌else◌,
}
use voipbill.Models.Trunk.{Server}
use voipbill.Models.Routing.{RouteTable, RouteTableRoute, Outcome}
use voipbill.Mega.{StateMegaTrunk}
use voipbill.Lists.{Lists, rows_of, find}
use voipbill.Auth.{Caller, Result, ok, out_of_fuel, route_table_not_found, ◌>>=◌, required}
use voipbill.Auth.Filters.{filter_by_number}

module _ {D : Type 0} (l : Lists D) (p : Caller D) (mega : StateMegaTrunk) where
  -- `if (id && !filterByNumber(id, number)) continue;`
  unfoldable pub passes_number : (number_id : ℕ) (number : List ℕ) → Result Bool
  passes_number id number = if id == 0 then ok true else filter_by_number l id number

  unfoldable pub passes : RouteTableRoute → Result Bool
  passes r = do
    passed ← passes_number r.a_number_id p.a_number
    if passed then passes_number r.b_number_id p.b_number else ok false

  -- The outcomes of the phases of a megatrunk are left out in other phases.
  abbrev pub is_skipped : (outcome_id : ℕ) → Bool
  is_skipped id = elim (find (λ (o : Outcome). o.id) id l.outcome) [
    | none ↦ false
    | some o ↦ o.type_id == 6 && not mega.is_phase1 || o.type_id == 7 && not mega.is_phase2
  ]

  abbrev pub found_or : (rest : Server → Result (ℕ × Server)) → ℕ × Server → Result (ℕ × Server)
  found_or rest (o, s) = if o == 0 then rest s else ok (o, s)

  -- A route whose numbers match. `nested` processes another table, `rest` the routes that follow.
  abbrev pub follow :
      (nested : ℕ → Server → Result (ℕ × Server)) (rest : Server → Result (ℕ × Server))
      → RouteTableRoute
      → Server
      → Result (ℕ × Server)
  follow nested rest r s =
      if not (r.outcome_id == 0)
      then if is_skipped r.outcome_id then rest s else ok (r.outcome_id, s)
      else if r.outcome_route_table_id == 0
      then rest s
      else nested r.outcome_route_table_id s >>= found_or rest

  unfoldable pub walk :
      (nested : ℕ → Server → Result (ℕ × Server))
      → List RouteTableRoute
      → Server
      → Result (ℕ × Server)
  walk nested [] s = ok (0, s)
  walk nested (r ∷ routes) s =
      let rest = walk nested routes in
      do passed ← passes r; if passed then follow nested rest r s else rest s

  -- The server of the table, where there is one.
  unfoldable pub move_to : RouteTable → Server → Server
  move_to t s = elim (find (λ (s : Server). s.id) t.server_id l.server) [
    | none ↦ s
    | some s' ↦ if not (s.id == s'.id) then s' else s
  ]

  unfoldable pub routes_of : (route_table_id : ℕ) → List RouteTableRoute
  routes_of id = rows_of (λ (r : RouteTableRoute). r.route_table_id) id l.route_table_route

  unfoldable pub process_route_table : (fuel route_table_id : ℕ) → Server → Result (ℕ × Server)
  process_route_table zero id s = out_of_fuel
  process_route_table (suc fuel) id s =
      let nested = process_route_table fuel in
      do
        t ← required route_table_not_found (find (λ (t : RouteTable). t.id) id l.route_table)
        walk nested (routes_of t.id) (move_to t s)
