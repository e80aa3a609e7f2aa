-- ===== src/Auth/Samples.antt =====
-- A trunk of client 3, a request that comes over it, and one route table that lets it through.
use mathlib.Core.List.Permᴰ as Perm
use voipbill.Prelude.{true, false, some, none, [], ◌∷◌, ℤ, pos, ◌-ℤ◌}
use voipbill.Models.Call.{Call}
use voipbill.Models.Tariff.{Pricelist, PricelistPrice}
use voipbill.Models.Trunk.{Trunk, Server, ServiceTrunkOrder, ServiceTrunkSettings}
use voipbill.Models.Routing.{
  RouteTable, RouteTableRoute, Outcome, RadiusAuthRequest, RadiusAuthResponse,
}
use voipbill.Mega.{StateMegaTrunk, new_state}
use voipbill.Mega.Examples.{sample_tables, sample_service_trunk}
use voipbill.Stats.Ledger.{empty}
use voipbill.Samples.{units, sample_client, sample_container, sample_trunk, local_call}
use voipbill.Lists.{Lists}
use voipbill.Auth.{Caller}
use voipbill.Auth.Limits.{Spendings}
use voipbill.Auth.Orders.{Rates, Sort}
use voipbill.Auth.Orders.Priorities.{Permutes}
use voipbill.Auth.Settings.{no_order}
use voipbill.Auth.Process.{Site}

abbrev pub sample_server : Server
sample_server = record {
  id = 1;
  hub_id = 0;
  low_balance_outcome_id = 0;
  blocked_outcome_id = 0;
  calling_station_id_for_line_without_number = [];
  min_price_for_autorouting = pos 0;
  emergency_prefixlist_id = 0;
  service_numbers = [];
}

-- To an outcome, or back to the table.
abbrev pub sample_route : RouteTableRoute
sample_route = record {
  route_table_id = 1;
  a_number_id = 0;
  b_number_id = 0;
  outcome_id = 5;
  outcome_route_table_id = 0;
}

abbrev pub endless_route : RouteTableRoute
endless_route = record sample_route { outcome_id = 0; outcome_route_table_id = 1 }

abbrev pub sample_table : RouteTable
sample_table = record { id = 1; server_id = 1 }

abbrev pub sample_outcome : Outcome
sample_outcome = record {
  id = 5;
  type_id = 5;
  route_case_id = 0;
  route_case_1_id = 0;
  route_case_2_id = 0;
  release_reason_id = 0;
  airp_id = 0;
  calling_station_id = [];
  called_station_id = [];
}

-- Ten minutes are promised.
abbrev pub sample_settings : ServiceTrunkSettings ℤ
sample_settings = record {
  id = 4;
  src_number_id = 0;
  dst_number_id = 0;
  pricelist_id = 0;
  minimum_minutes = pos 10;
  minimum_cost = pos 0;
  nnp_tariff_id = 0;
  minimum_margin_type = 0;
  minimum_margin = pos 0;
}

abbrev pub sample_pricelist : Pricelist ℤ
sample_pricelist = record {
  id = 1;
  currency_id = b'R' ∷ b'U' ∷ b'B' ∷ [];
  local = false;
  local_network_config_id = 0;
  tariffication_by_minutes = true;
  tariffication_full_first_minute = false;
  initiate_mgmn_cost = pos 0;
  initiate_zona_cost = pos 0;
  price_include_vat = true;
}

abbrev pub sample_price : PricelistPrice ℤ
sample_price = record { pricelist_id = 1; prefix = b'8' ∷ []; price = pos 2 }

abbrev pub order_of : Trunk → ServiceTrunkOrder ℤ
order_of t = record (no_order ⦃d = units⦄) {
  trunk = some t;
  account = some sample_client;
  trunk_settings = some sample_settings;
}

abbrev pub sample_lists : Lists ℤ
sample_lists = record {
  instance_id = 1;
  hub_id = 0;
  server = sample_server ∷ [];
  instance_settings = [];
  trunk = sample_trunk ∷ [];
  trunk_by_name = λ name regions. some sample_trunk;
  trunk_by_alias = λ name regions. none;
  trunk_group = [];
  trunk_group_item = [];
  trunk_rule = [];
  trunk_trunk_rule = [];
  trunk_priority = [];
  route_table = sample_table ∷ [];
  route_table_route = sample_route ∷ [];
  outcome = sample_outcome ∷ [];
  route_case = [];
  release_reason = [];
  airp = [];
  number = [];
  prefixlist = [];
  prefixlist_prefix = [];
  client = sample_client ∷ [];
  currency_rate = [];
  settings = record {
    service_trunks = λ i. sample_service_trunk ∷ [];
    service_trunk_settings = λ i type. sample_settings ∷ [];
    pricelist = λ i. some sample_pricelist;
    price = λ i n. some sample_price;
    network_type = λ i n. none;
    nnp_package = λ i. none;
    best_package = λ i n. none;
  };
}

abbrev pub endless_lists : Lists ℤ
endless_lists = record sample_lists { route_table_route = endless_route ∷ [] }

abbrev pub sample_request : RadiusAuthRequest
sample_request = record {
  trunk_name = b'a' ∷ [];
  src_number = b'7' ∷ [];
  dst_number = b'8' ∷ [];
  redirect_number = [];
  calling_party_category = [];
  nas_ip_address = 0;
  src_noa = 3;
  dst_noa = 3;
  region = 1;
}

abbrev pub sample_response : RadiusAuthResponse
sample_response = record {
  accept = false;
  src_number = [];
  dst_number = [];
  route_case = [];
  release_reason = [];
  airp = [];
}

abbrev pub sample_caller : Caller ℤ
sample_caller = record {
  request = sample_request;
  orig_trunk = sample_trunk;
  a_number = b'7' ∷ [];
  b_number = b'8' ∷ [];
  account = some sample_client;
}

abbrev pub sample_spendings : Spendings ℤ
sample_spendings = record {
  now = 1000;
  billed = sample_container.stats_account;
  current = sample_container.stats_account;
  global_counters = none;
}

-- Of 15 units, where the account has 10.
abbrev pub dear_call : Call ℤ
dear_call = record local_call { account_id = 3; trunk_service_id = 6; cost = pos 0 -ℤ pos 15 }

abbrev pub sample_rates : Rates ℤ
sample_rates = record { moscow_day = pos 0; rows = [] }

abbrev pub as_it_is : Sort ℤ
as_it_is less orders = orders

pub as_it_is-Permutes : Permutes ⦃d = units⦄ as_it_is
as_it_is-Permutes less orders = Perm.refl orders

abbrev pub sample_mega : StateMegaTrunk
sample_mega = new_state 1

abbrev pub sample_site : Site ℤ
sample_site = record {
  ready = true;
  is_api_host_mode = false;
  server_by_ip = λ i. 0;
  lists = sample_lists;
  tables = sample_tables;
  rates = sample_rates;
  sort = as_it_is;
  shuffle = λ trunks. trunks;
  spendings = sample_spendings;
  counters = empty true;
  bill = λ p cdr mega. some (record {
    call = dear_call;
    account = some sample_client;
    call_incoming_from_megatrunk = false;
    mega = mega;
  });
  fuel = 2;
}
