-- ===== src/Auth/Examples.antt =====
-- A call over a trunk of client 3, with one route table that lets it through.
use voipbill.Prelude.{List, All, ℕ, ◌≡◌, refl, arith, true, none, [], ◌∷◌, ℤ, take}
use voipbill.Map.{lookup}
use voipbill.Models.Trunk.{Client}
use voipbill.Stats.Ledger.{empty}
use voipbill.Stats.Account.{get_sum_balance}
use voipbill.Samples.{units, sample_client, sample_trunk}
use voipbill.Lists.{rows_of, is_emergency_call}
use voipbill.Auth.{ok, Post, out_of_fuel}
use voipbill.Auth.RouteTable.{passes, passes_number, routes_of, process_route_table}
use voipbill.Auth.RouteTable.Routes.{Decides, process_route_table-Decides}
use voipbill.Auth.RouteTable.Endless.{Ends, process_route_table-Ends, process_route_table-Endless}
use voipbill.Auth.Limits.{
  RejectReason, accept, low_balance, auto_lock_finance, is_exempt, analyze_account, analyze_call,
  has_credit_limit, is_consumed_credit_limit, spent_balance, get_vat_rate, fetch_global_counter,
  analyze_trunk_call, low_credit, is_low_balance,
}
use voipbill.Auth.Limits.Allowed.{Allowed, verdict, analyze_account-verdict, analyze_call-Allowed}
use voipbill.Auth.Limits.Blocks.{analyze_call-parallel, Event, cleaned, judged, account_answers}
use voipbill.Auth.Settings.{no_order}
use voipbill.Auth.Terms.{get_available_term_service_trunk}
use voipbill.Auth.Terms.Chosen.{Takers, get_available_term-Takers}
use voipbill.Auth.Answer.{route_case}
use voipbill.Auth.Answer.RouteCase.{distinct, join_names, route_case-take}
use voipbill.Auth.Process.{process}
use voipbill.Auth.Process.Answered.{Answers, Refused, process-Answers}
use voipbill.Auth.Samples.{
  sample_server, endless_route, sample_table, order_of, sample_lists, endless_lists, sample_request,
  sample_response, sample_caller, sample_spendings, dear_call, sample_rates, as_it_is,
  as_it_is-Permutes, sample_mega, sample_site,
}

process-Answers_example :
    Answers ⦃d = units⦄ sample_site
      (Refused ⦃d = units⦄ sample_site sample_request [])
      (process ⦃d = units⦄ sample_site sample_request sample_response [])
process-Answers_example = process-Answers ⦃d = units⦄ sample_site sample_request sample_response []

process_route_table-Decides_example :
    Post
      (λ x. Decides sample_lists sample_caller sample_mega 1 x.0)
      (process_route_table sample_lists sample_caller sample_mega 1 1 sample_server)
process_route_table-Decides_example =
    process_route_table-Decides sample_lists sample_caller sample_mega 1 1 sample_server

process_route_table-Ends_example :
    Ends (process_route_table sample_lists sample_caller sample_mega 1 1 sample_server)
process_route_table-Ends_example =
    process_route_table-Ends sample_lists sample_caller sample_mega (λ i. 0)
      ((λ n. absurd (n refl)), tt) 1 1 sample_server (omega arith)

process_route_table-Endless_example :
    process_route_table endless_lists sample_caller sample_mega 100 1 sample_server ≡ out_of_fuel
unfolding rows_of routes_of passes passes_number
process_route_table-Endless_example =
    process_route_table-Endless endless_lists sample_caller sample_mega 1 sample_table endless_route
      [] refl refl refl refl refl (λ e. omega (arith, e)) 100 sample_server

analyze_account-verdict_example :
    (analyze_account ⦃d = units⦄ sample_spendings true sample_client dear_call []).0
    ≡ verdict ⦃d = units⦄ sample_spendings sample_client dear_call true
analyze_account-verdict_example =
    analyze_account-verdict ⦃d = units⦄ sample_spendings true sample_client dear_call []

analyze_call-Allowed_example :
    (lookup {V = RejectReason × ℕ} 3 [] ≡ none)
    × ((c : Client ℤ) × Allowed ⦃d = units⦄ sample_lists sample_caller sample_spendings c dear_call)
unfolding rows_of is_exempt is_emergency_call lookup analyze_call analyze_account analyze_trunk_call
    low_credit is_low_balance auto_lock_finance is_consumed_credit_limit has_credit_limit
    spent_balance get_vat_rate fetch_global_counter get_sum_balance
analyze_call-Allowed_example =
    analyze_call-Allowed ⦃d = units⦄ sample_lists sample_caller sample_spendings dear_call [] refl
      refl

-- A request half a minute later, and one more call.
abbrev next_call : List (Event ℤ)
next_call = cleaned 1030 ∷ judged sample_caller sample_spendings dear_call ∷ []

analyze_call-parallel_example :
    ((analyze_call ⦃d = units⦄ sample_lists sample_caller sample_spendings dear_call []).0 ≡ accept)
    × All
        (λ a. a ≡ low_balance)
        (account_answers ⦃d = units⦄ sample_lists 3 next_call
          (analyze_call ⦃d = units⦄ sample_lists sample_caller sample_spendings dear_call []).1)
unfolding rows_of is_exempt is_emergency_call lookup is_consumed_credit_limit has_credit_limit
    spent_balance get_vat_rate fetch_global_counter get_sum_balance
analyze_call-parallel_example =
    analyze_call-parallel ⦃d = units⦄ sample_lists sample_caller sample_spendings sample_client
      dear_call [] next_call refl (λ e. omega (arith, e)) refl refl (λ e. omega (arith, e)) refl
      refl (omega arith, (tt, tt))

get_available_term-Takers_example :
    Post
      (λ x.
        Takers ⦃d = units⦄ as_it_is as_it_is-Permutes sample_rates sample_lists sample_caller 1000 1
          true x.0)
      (get_available_term_service_trunk ⦃d = units⦄ sample_rates sample_lists sample_caller as_it_is
        1000 sample_server
        (no_order ⦃d = units⦄)
        true
        true
        (empty true))
get_available_term-Takers_example =
    get_available_term-Takers ⦃d = units⦄ as_it_is as_it_is-Permutes sample_rates sample_lists
      sample_caller 1000 sample_server (no_order ⦃d = units⦄) true true (empty true)

route_case-take_example :
    route_case [] [] (order_of sample_trunk ∷ order_of sample_trunk ∷ [])
    ≡ ok (join_names [] (take 3 (distinct [] (sample_trunk ∷ sample_trunk ∷ []))))
route_case-take_example =
    route_case-take (order_of sample_trunk ∷ order_of sample_trunk ∷ [])
      (sample_trunk ∷ sample_trunk ∷ []) (refl, (refl, tt))
