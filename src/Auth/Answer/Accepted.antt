-- ===== src/Auth/Answer/Accepted.antt =====
-- Every outcome accepts the call, be it with a release reason.
use voipbill.Prelude.{ℕ, ◌≡◌, refl, Bool, true, false, List, [], ◌∷◌, if◌then◌else◌}
use voipbill.Models.Double.{Double}
use voipbill.Models.Trunk.{Trunk, Server, StatsTrunkSettings, ServiceTrunkOrder}
use voipbill.Models.Routing.{
  Outcome, Named, RadiusAuthResponse, is_auto, is_route_case, is_release_reason, is_airp, is_accept,
  is_meg_to_reg, is_meg_to_meg,
}
use voipbill.Stats.Ledger.{Ledger}
use voipbill.Mega.{StateMegaTrunk}
use voipbill.Lists.{Lists, find}
use voipbill.Auth.{
  Caller, Result, Post, bind-Post, required, outcome_not_found, route_case_not_found,
  release_reason_not_found, airp_not_found, mega_trunk_not_found,
}
use voipbill.Auth.Orders.{Rates, Sort}
use voipbill.Auth.Terms.{get_available_term_service_trunk, get_available_orig_service_trunk}
use voipbill.Auth.Answer.{
  answer_names, route_case, set_numbers, process_auto_route_response, process_route_case_outcome,
  process_release_reason_outcome, process_airp_outcome, process_mega_trunk_phase1,
  process_mega_trunk_phase2, process_auto_outcome, process_outcome,
}

abbrev pub Accepted : Result RadiusAuthResponse → Type 0
Accepted = Post (λ r. r.accept ≡ true)

if-Accepted :
    (b : Bool) (m n : Result RadiusAuthResponse)
    → Accepted m
    → Accepted n
    → Accepted (if b then m else n)
if-Accepted true m n h k = h
if-Accepted false m n h k = k

answer_names-Accepted : (text : List ℕ) (r : RadiusAuthResponse) → Accepted (answer_names text r)
answer_names-Accepted [] r = tt
answer_names-Accepted (c ∷ text) r = refl

module _ {D : Type 0} where
  process_auto_route_response-Accepted :
      (orders : List (ServiceTrunkOrder D)) (r : RadiusAuthResponse)
      → Accepted (process_auto_route_response orders r)
  unfolding process_auto_route_response
  process_auto_route_response-Accepted [] r = refl
  process_auto_route_response-Accepted (o ∷ orders) r =
      bind-Post _ (route_case [] [] (o ∷ orders)) _ λ _ _. refl

  module _ (l : Lists D) (o : Outcome) (r : RadiusAuthResponse) where
    route_case_outcome-Accepted : Accepted (process_route_case_outcome l o r)
    unfolding process_route_case_outcome set_numbers
    route_case_outcome-Accepted =
        bind-Post _
          (required route_case_not_found (find (λ (n : Named). n.id) o.route_case_id l.route_case))
          _ λ _ _. refl

    release_reason_outcome-Accepted : Accepted (process_release_reason_outcome l o r)
    unfolding process_release_reason_outcome
    release_reason_outcome-Accepted =
        bind-Post _
          (required release_reason_not_found
            (find (λ (n : Named). n.id) o.release_reason_id l.release_reason))
          _ λ _ _. refl

    airp_outcome-Accepted : Accepted (process_airp_outcome l o r)
    unfolding process_airp_outcome set_numbers
    airp_outcome-Accepted =
        bind-Post _ (required airp_not_found (find (λ (n : Named). n.id) o.airp_id l.airp)) _
          λ _ _. refl

  module _ (l : Lists D) (mega : StateMegaTrunk) (r : RadiusAuthResponse) where
    mega_trunk_phase2-Accepted : Accepted (process_mega_trunk_phase2 l mega r)
    unfolding process_mega_trunk_phase2
    mega_trunk_phase2-Accepted =
        bind-Post _ (required mega_trunk_not_found mega.dest_trunk) _ λ _ _. refl

    mega_trunk_phase1-Accepted :
        (shuffle : List Trunk → List Trunk) (s : Server)
        → Accepted (process_mega_trunk_phase1 l shuffle s mega r)
    unfolding process_mega_trunk_phase1
    mega_trunk_phase1-Accepted shuffle s = answer_names-Accepted _ r

module _ {D : Type 0} ⦃d : Double D⦄ (l : Lists D) (p : Caller D) (rates : Rates D) (sort : Sort D)
    (shuffle : List Trunk → List Trunk) (now : ℕ) (counters : Ledger (StatsTrunkSettings D)) where
  pub process_outcome-Accepted :
      (id : ℕ) (s : Server) (mega : StateMegaTrunk) (skip : Bool) (r : RadiusAuthResponse)
      → Accepted (process_outcome l p rates sort shuffle now counters id s mega skip r)
  unfolding process_outcome process_auto_outcome
  process_outcome-Accepted id s mega skip r =
      bind-Post _ (required outcome_not_found (find (λ (o : Outcome). o.id) id l.outcome)) _ λ o _.
        if-Accepted (is_auto o) _ _
          (bind-Post _ (get_available_orig_service_trunk rates l p sort now) _ λ orig _.
            bind-Post _
              (get_available_term_service_trunk rates l p sort now s orig p.orig_trunk.sw_minimalki
                skip counters)
              _ λ x _. process_auto_route_response-Accepted x.0 r)
          (if-Accepted (is_meg_to_reg o) _ _ (mega_trunk_phase1-Accepted l mega r shuffle s) (
            if-Accepted (is_meg_to_meg o) _ _ (mega_trunk_phase2-Accepted l mega r) (
              if-Accepted (is_route_case o) _ _ (route_case_outcome-Accepted l o r) (
                if-Accepted (is_release_reason o) _ _ (release_reason_outcome-Accepted l o r) (
                  if-Accepted (is_airp o) _ _ (airp_outcome-Accepted l o r)
                    (if-Accepted (is_accept o) _ _ refl tt))))))
