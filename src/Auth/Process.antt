-- ===== src/Auth/Process.antt =====
-- `init`, `processRedirectNumber`, `processLineWithoutNumber` and `process` of
-- src-bill/classes/RadiusAuthProcessor.cpp: a request from its trunk to the answer. What is written to
-- the log and to `response->error`, and the counters that the ordering of trunks creates, are left out.
pub mod Answered
pub mod Leg
use voipbill.Prelude.{
  ℕ, ◌==◌, Bool, true, false, not, ◌&&◌, ◌||◌, Option, none, some, List, [], ◌∷◌, contains, take,
  ltb, if◌then◌else◌, pos,
}
use voipbill.Text.{str_eqb}
use voipbill.Models.Double.{Double}
use voipbill.Models.Call.{Cdr, Call}
use voipbill.Models.Trunk.{Trunk, Server, Client, StatsTrunkSettings}
use voipbill.Models.Routing.{
  RadiusAuthRequest, RadiusAuthResponse, set_release_reason, set_accept, set_reject,
}
use voipbill.Stats.Ledger.{Ledger}
use voipbill.Mega.{Tables, StateMegaTrunk, new_state, prepare_from_cdr, phase_calc}
use voipbill.Lists.{Lists, find, get_trunk_by_name}
use voipbill.Auth.{
  is_empty, Caller, AuthError, Result, ok, thrown, fault, out_of_fuel, ◌>>=◌, required,
  billing_not_ready, trunk_not_found, server_not_found,
}
use voipbill.Auth.RouteTable.{process_route_table}
use voipbill.Auth.Limits.{
  BillResponse, accept, reject, low_balance, voip_disabled, Blocked, Spendings, analyze_call,
}
use voipbill.Auth.Orders.{Rates, Sort}
use voipbill.Auth.Answer.{no_route, process_outcome}

-- What the billing of the call gives: the leg, what of `CallInfo` is read, and the state of the
-- megatrunks, which the billing may change.
pub record Billed (D : Type 0) : Type 0 where
  pub call : Call D
  pub account : Option (Client D)
  pub call_incoming_from_megatrunk : Bool
  pub mega : StateMegaTrunk

-- What the processor works with. `bill` is `BillingCall::calc` (voipbill.Billing.Calc), with `none`
-- for a fault, and `fuel` bounds the depth of the route tables.
pub record Site (D : Type 0) : Type 0 where
  pub ready : Bool
  pub is_api_host_mode : Bool
  pub server_by_ip : ℕ → ℕ
  pub lists : Lists D
  pub tables : Tables
  pub rates : Rates D
  pub sort : Sort D
  pub shuffle : List Trunk → List Trunk
  pub spendings : Spendings D
  pub counters : Ledger (StatsTrunkSettings D)
  pub bill : Caller D → Cdr → StateMegaTrunk → Option (Billed D)
  pub fuel : ℕ

-- INTERCEPT.
abbrev pub intercept : List ℕ
intercept = b'I' ∷ b'N' ∷ b'T' ∷ b'E' ∷ b'R' ∷ b'C' ∷ b'E' ∷ b'P' ∷ b'T' ∷ []

abbrev pub is_unknown_trunk : AuthError → Bool
is_unknown_trunk trunk_not_found = true
is_unknown_trunk _ = false

-- After an exception. Only `init` throws before the trunk is known, and then it has found none, or
-- the billing was not ready.
unfoldable pub fallback : AuthError → RadiusAuthResponse → RadiusAuthResponse
fallback e r = if is_unknown_trunk e then set_release_reason no_route r else set_accept r

module _ {D : Type 0} ⦃d : Double D⦄ (x : Site D) where
  unfoldable pub region_of : RadiusAuthRequest → ℕ
  region_of q =
      if x.is_api_host_mode && q.region == 0 then x.server_by_ip q.nas_ip_address else q.region

  abbrev server_of : ℕ → Option Server
  server_of id = find (λ (s : Server). s.id) id x.lists.server

  -- `server_id` before the search for the server: the one of the address, if it was looked up.
  abbrev found_by_ip : RadiusAuthRequest → ℕ
  found_by_ip q = if x.is_api_host_mode && q.region == 0 then x.server_by_ip q.nas_ip_address else 0

  -- `server_id` after it.
  abbrev known_region : RadiusAuthRequest → ℕ
  known_region q =
      let region = region_of q in
      let start = found_by_ip q in
      if ltb 0 region then elim (server_of region) [ none ↦ start | some s ↦ s.id ] else start

  unfoldable pub init : RadiusAuthRequest → Result (Caller D × Server)
  init q =
      if not x.ready
      then thrown billing_not_ready
      else let region = region_of q in
        required trunk_not_found (get_trunk_by_name x.lists q.trunk_name (known_region q)) >>= λ t.
        required server_not_found (server_of (if ltb 0 region then region else t.server_id))
        >>= λ s. ok (
          record {
            request = record q { region = region };
            orig_trunk = t;
            a_number = q.src_number;
            b_number = q.dst_number;
            account = none;
          },
          s,
        )

  -- The trunk redirects, and the request names the number.
  abbrev is_redirected : Caller D → Bool
  is_redirected p = p.orig_trunk.orig_redirect_number && not (is_empty p.request.redirect_number)

  unfoldable pub process_redirect_number : Caller D → Caller D
  process_redirect_number p =
      if is_redirected p then record p { a_number = p.request.redirect_number } else p

  unfoldable pub process_line_without_number :
      Server → Caller D → RadiusAuthResponse → RadiusAuthResponse
  process_line_without_number s p r =
      if not p.orig_trunk.our_trunk
        || not p.orig_trunk.auth_by_number
        || is_empty s.calling_station_id_for_line_without_number
      then r
      else if (contains b'*' p.a_number || contains b'+' p.a_number) && not (is_redirected p)
      then record r { src_number = s.calling_station_id_for_line_without_number }
      else r

  -- The record of the call, with the numbers and the routes cut to the buffers of `Cdr`.
  unfoldable pub cdr_of : RadiusAuthRequest → Cdr
  cdr_of q = record {
    id = 0;
    connect_time = x.spendings.now;
    setup_time = 0;
    session_time = pos 60;
    src_number = take 32 q.src_number;
    dst_number = take 32 q.dst_number;
    dst_replace = [];
    redirect_number = take 32 q.redirect_number;
    src_route = take 32 q.trunk_name;
    dst_route = take 32 q.trunk_name;
    src_noa = q.src_noa;
    dst_noa = q.dst_noa;
    call_id = 0;
    disconnect_cause = 0;
    in_sig_call_id = [];
    out_sig_call_id = [];
  }

  unfoldable pub mega_of : Caller D → StateMegaTrunk
  mega_of p =
      let region = if ltb 0 p.request.region then p.request.region else x.lists.instance_id in
      phase_calc x.tables x.spendings.now
        (prepare_from_cdr x.tables (cdr_of p.request) p.a_number p.b_number (new_state region))

  abbrev pub to_outcome :
      (outcome_id : ℕ)
      → Caller D
      → Server
      → Billed D
      → RadiusAuthResponse
      → Result RadiusAuthResponse
  to_outcome id p s b =
      process_outcome x.lists p x.rates x.sort x.shuffle x.spendings.now x.counters id s b.mega
        b.call_incoming_from_megatrunk

  -- The outcome of the server for a call that may not go on, and a reject where there is none.
  abbrev pub special :
      (outcome_id : ℕ)
      → Caller D
      → Server
      → Billed D
      → RadiusAuthResponse
      → Result RadiusAuthResponse
  special id p s b r = if id == 0 then ok (set_reject r) else to_outcome id p s b r

  -- From the answer of the billing on.
  unfoldable pub route :
      BillResponse → Caller D → Server → Billed D → RadiusAuthResponse → Result RadiusAuthResponse
  route voip_disabled p s b r = special s.blocked_outcome_id p s b r
  route low_balance p s b r = special s.low_balance_outcome_id p s b r
  route reject p s b r = ok (set_reject r)
  route accept p s b r =
      process_route_table x.lists p b.mega x.fuel p.orig_trunk.route_table_id s >>= λ found.
      if found.0 == 0 then ok (set_release_reason no_route r) else to_outcome found.0 p found.1 b r

  -- `catch`.
  unfoldable pub caught :
      RadiusAuthResponse
      → Blocked
      → Result RadiusAuthResponse
      → Result (RadiusAuthResponse × Blocked)
  caught r blocked (ok answer) = ok (answer, blocked)
  caught r blocked (thrown e) = ok (fallback e r, blocked)
  caught r blocked fault = fault
  caught r blocked out_of_fuel = out_of_fuel

  -- From the billing on, with the response and the accounts that are blocked so far.
  unfoldable pub authorise :
      Caller D → Server → RadiusAuthResponse → Blocked → Result (RadiusAuthResponse × Blocked)
  authorise p s r blocked = elim (x.bill p (cdr_of p.request) (mega_of p)) [
    | none ↦ fault
    | some b ↦
        let p' = record p { account = b.account } in
        let (response, blocked') = analyze_call x.lists p' x.spendings b.call blocked in
        caught r blocked' (route response p' s b r)
  ]

  unfoldable pub process_caller :
      Caller D → Server → RadiusAuthResponse → Blocked → Result (RadiusAuthResponse × Blocked)
  process_caller p s r blocked =
      if (x.lists.instance_id == 99 || p.request.region == 99)
        && str_eqb p.request.calling_party_category intercept
      then ok (set_accept r, blocked)
      else let p' = process_redirect_number p in
        authorise p' s (process_line_without_number s p' r) blocked

  unfoldable pub process :
      RadiusAuthRequest → RadiusAuthResponse → Blocked → Result (RadiusAuthResponse × Blocked)
  process q r blocked = elim (init q) [
    | ok (p, s) ↦ process_caller p s r blocked
    | thrown e ↦ ok (fallback e r, blocked)
    | fault ↦ fault
    | out_of_fuel ↦ out_of_fuel
  ]
