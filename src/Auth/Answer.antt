-- ===== src/Auth/Answer.antt =====
-- `processOutcome` of src-bill/classes/RadiusAuthProcessor.cpp and what it is made of: where the
-- call is sent. The buying price, which goes to the log alone, is left out.
pub mod RouteCase
pub mod Accepted
use voipbill.Prelude.{
  ℕ, Bool, true, false, ◌==◌, Option, none, some, List, [], ◌∷◌, ◌++◌, length, contains,
  if◌then◌else◌,
}
use voipbill.Map.{add}
use voipbill.Models.Double.{Double}
use voipbill.Models.Trunk.{Trunk, Server, StatsTrunkSettings, ServiceTrunkOrder}
use voipbill.Models.Routing.{
  Outcome, Named, RadiusAuthResponse, is_auto, is_route_case, is_release_reason, is_airp, is_accept,
  is_meg_to_reg, is_meg_to_meg, set_route_case, set_airp, set_release_reason, set_accept,
}
use voipbill.Stats.Ledger.{Ledger}
use voipbill.Mega.{StateMegaTrunk, if_empty}
use voipbill.Lists.{Lists, find, road_to_region, get_simbling_region}
use voipbill.Auth.{
  Caller, Result, ok, thrown, ◌>>=◌, required, deref, route_case_not_found,
  release_reason_not_found, airp_not_found, no_road_to_region, mega_trunk_not_found,
  outcome_not_found, unexpected_outcome,
}
use voipbill.Auth.Orders.{Rates, Sort}
use voipbill.Auth.Terms.{get_available_orig_service_trunk, get_available_term_service_trunk}

-- NO_ROUTE_TO_DESTINATION.
abbrev pub no_route : List ℕ
no_route =
    b'N' ∷ b'O' ∷ b'_' ∷ b'R' ∷ b'O' ∷ b'U' ∷ b'T' ∷ b'E' ∷ b'_' ∷ b'T' ∷ b'O' ∷ b'_' ∷ b'D' ∷ b'E'
    ∷ b'S' ∷ b'T' ∷ b'I' ∷ b'N' ∷ b'A' ∷ b'T' ∷ b'I' ∷ b'O' ∷ b'N' ∷ []

-- A name after those before it.
abbrev pub add_name : (text name : List ℕ) → List ℕ
add_name [] name = name
add_name (c ∷ text) name = (c ∷ text) ++ b',' ∷ name

-- The numbers that an outcome sets, where it has them.
unfoldable pub set_numbers : Outcome → RadiusAuthResponse → RadiusAuthResponse
set_numbers o r = record r {
  src_number = if_empty o.calling_station_id r.src_number;
  dst_number = if_empty o.called_station_id r.dst_number;
}

-- The names of the trunks to a region, where there are any.
abbrev pub answer_names : List ℕ → RadiusAuthResponse → Result RadiusAuthResponse
answer_names [] r = thrown no_road_to_region
answer_names (c ∷ text) r = ok (set_route_case (c ∷ text) r)

module _ {D : Type 0} where
  -- The loop over the orders, with the ids of the trunks that are named. It stops at three.
  unfoldable pub route_case :
      (trunk_ids text : List ℕ) → List (ServiceTrunkOrder D) → Result (List ℕ)
  route_case ids text [] = ok text
  route_case ids text (o ∷ orders) =
      let rest = λ (i t : List ℕ). route_case i t orders in
      deref o.trunk >>= λ t.
      if contains t.id ids
      then rest ids text
      else if length (add t.id ids) == 3
      then ok (add_name text t.trunk_name)
      else rest (add t.id ids) (add_name text t.trunk_name)

  -- `processAutoRouteResponse`.
  unfoldable pub process_auto_route_response :
      List (ServiceTrunkOrder D) → RadiusAuthResponse → Result RadiusAuthResponse
  process_auto_route_response [] r = ok (set_release_reason no_route r)
  process_auto_route_response (o ∷ orders) r = do
    text ← route_case [] [] (o ∷ orders)
    ok (set_route_case text r)

  module _ (l : Lists D) where
    abbrev name_of : (id : ℕ) → List Named → Option Named
    name_of id rows = find (λ (n : Named). n.id) id rows

    abbrev also_name : Option Named → List ℕ → List ℕ
    also_name none text = text
    also_name (some n) text = text ++ b',' ∷ n.name

    unfoldable pub process_route_case_outcome :
        Outcome → RadiusAuthResponse → Result RadiusAuthResponse
    process_route_case_outcome o r = do
      n ← required route_case_not_found (name_of o.route_case_id l.route_case)
      let text =
          also_name (name_of o.route_case_2_id l.route_case)
            (also_name (name_of o.route_case_1_id l.route_case) n.name)
      ok (set_numbers o (set_route_case text r))

    unfoldable pub process_release_reason_outcome :
        Outcome → RadiusAuthResponse → Result RadiusAuthResponse
    process_release_reason_outcome o r = do
      n ← required release_reason_not_found (name_of o.release_reason_id l.release_reason)
      ok (set_release_reason n.name r)

    unfoldable pub process_airp_outcome : Outcome → RadiusAuthResponse → Result RadiusAuthResponse
    process_airp_outcome o r = do
      n ← required airp_not_found (name_of o.airp_id l.airp)
      ok (set_numbers o (set_airp n.name r))

    unfoldable pub all_names : List Trunk → (text : List ℕ) → List ℕ
    all_names [] text = text
    all_names (t ∷ trunks) text = all_names trunks (add_name text t.trunk_name)

    -- The call goes to its region over any trunk that leads there. `shuffle` is `std::random_shuffle`.
    unfoldable pub process_mega_trunk_phase1 :
        (shuffle : List Trunk → List Trunk)
        → Server
        → StateMegaTrunk
        → RadiusAuthResponse
        → Result RadiusAuthResponse
    process_mega_trunk_phase1 shuffle server mega r =
        let regions = get_simbling_region server.id l.server in
        answer_names
          (all_names (shuffle (road_to_region server.id mega.dest_region regions l.trunk)) []) r

    unfoldable pub process_mega_trunk_phase2 :
        StateMegaTrunk → RadiusAuthResponse → Result RadiusAuthResponse
    process_mega_trunk_phase2 mega r = do
      t ← required mega_trunk_not_found mega.dest_trunk
      ok (set_route_case t.trunk_name r)

module _ {D : Type 0} ⦃d : Double D⦄ (l : Lists D) (p : Caller D) (rates : Rates D) (sort : Sort D)
    (shuffle : List Trunk → List Trunk) (now : ℕ) (counters : Ledger (StatsTrunkSettings D)) where
  unfoldable pub process_auto_outcome :
      Server → (skip_loop_protection : Bool) → RadiusAuthResponse → Result RadiusAuthResponse
  process_auto_outcome server skip r = do
    orig ← get_available_orig_service_trunk rates l p sort now
    (orders, m) ←
        get_available_term_service_trunk rates l p sort now server orig p.orig_trunk.sw_minimalki
          skip counters
    process_auto_route_response orders r

  unfoldable pub process_outcome :
      (outcome_id : ℕ)
      → Server
      → StateMegaTrunk
      → (skip_loop_protection : Bool) → RadiusAuthResponse
      → Result RadiusAuthResponse
  process_outcome id server mega skip r =
      required outcome_not_found (find (λ (o : Outcome). o.id) id l.outcome) >>= λ o.
      if is_auto o
      then process_auto_outcome server skip r
      else if is_meg_to_reg o
      then process_mega_trunk_phase1 l shuffle server mega r
      else if is_meg_to_meg o
      then process_mega_trunk_phase2 l mega r
      else if is_route_case o
      then process_route_case_outcome l o r
      else if is_release_reason o
      then process_release_reason_outcome l o r
      else if is_airp o
      then process_airp_outcome l o r
      else if is_accept o
      then ok (set_accept r)
      else thrown unexpected_outcome
