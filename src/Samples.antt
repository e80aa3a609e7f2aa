-- ===== src/Samples.antt =====
-- Concrete amounts, calls, states and tables that the examples share.
use voipbill.Prelude.{
  true, false, none, some, [], ◌∷◌, ℤ, pos, ◌+ℤ◌, ◌*ℤ◌, ◌/ℤ◌, ◌-ℤ◌, ltb_ℤ, leb_ℤ, abs_ℤ,
}
use voipbill.Models.Double.{Double}
use voipbill.Models.Call.{Cdr, Call, of_cdr}
use voipbill.Models.Tariff.{Tariff, TariffPackage, ServicePackage}
use voipbill.Models.Trunk.{ServiceNumber, Client, Trunk}
use voipbill.Stats.Ledger.{empty}
use voipbill.Billing.Repository.{Repository}
use voipbill.Container.{Container}
use voipbill.Billing.Monad.{CallInfo, Ctx}

-- Amounts in whole units.
abbrev pub units : Double ℤ
units = record {
  of_int = λ a. a;
  add = λ a b. a +ℤ b;
  mul = λ a b. a *ℤ b;
  div = λ a b. a /ℤ b;
  neg = λ a. pos 0 -ℤ a;
  abs = λ a. pos (abs_ℤ a);
  lt = λ a b. ltb_ℤ a b;
  le = λ a b. leb_ℤ a b;
  tiny = pos 0;
  micro = pos 0;
  hundred_millionth = pos 0;
}

abbrev pub sample_cdr : Cdr
sample_cdr = record {
  id = 1;
  connect_time = 1000;
  setup_time = 990;
  session_time = pos 61;
  src_number = [];
  dst_number = [];
  dst_replace = [];
  redirect_number = [];
  src_route = [];
  dst_route = [];
  src_noa = 0;
  dst_noa = 0;
  call_id = 1;
  disconnect_cause = 0;
  in_sig_call_id = [];
  out_sig_call_id = [];
}

-- A local call of two billed minutes from the number of service 5.
abbrev pub local_call : Call ℤ
local_call = record (of_cdr ⦃d = units⦄ sample_cdr true) {
  id = 9;
  destination_id = pos 0 -ℤ pos 1;
  billed_time = pos 120;
  rate = pos 6;
  number_service_id = 5;
}

abbrev pub sample_number : ServiceNumber
sample_number = record {
  id = 5;
  server_id = 1;
  client_account_id = 3;
  did = [];
  lines_count = pos 1;
}

-- Three free minutes a month.
abbrev pub sample_tariff : Tariff
sample_tariff = record {
  id = 2;
  freemin = pos 3;
  freemin_for_number = true;
  pricelist_id = 1;
  tariffication_by_minutes = true;
  tariffication_full_first_minute = false;
  tariffication_free_first_seconds = false;
}

abbrev pub sample_client : Client ℤ
sample_client = record {
  id = 3;
  limit_d = pos 100;
  limit_d_mn = pos 50;
  credit = pos 0;
  balance = pos 10;
  disabled = false;
  price_include_vat = true;
  is_blocked = false;
  anti_fraud_disabled = false;
  is_trunk_client = false;
  effective_vat_rate = pos 0;
  timezone_offset = pos 0;
  account_version = 4;
  amount_date = pos 0;
}

-- Ten prepaid minutes, for the numbers of list 4.
abbrev pub sample_package : ServicePackage
sample_package = record {
  id = 7;
  service_number_id = 5;
  service_trunk_id = 0;
  activation_dt = pos 0;
  expire_dt = pos 2000;
  tariff_package_id = 8;
  periodical = false;
}

abbrev pub sample_tariff_package : TariffPackage
sample_tariff_package = record {
  id = 8;
  destination_id = 1;
  prepaid_minutes = pos 10;
  pricelist_id = 0;
}

abbrev pub sample_info : CallInfo ℤ
sample_info = record {
  server = none;
  instance_settings = none;
  trunk = none;
  account = some sample_client;
  service_number = some sample_number;
  service_trunk = none;
  service_package_prepaid = none;
  service_package_pricelist = none;
  trunk_settings_id = none;
  log_tariff = none;
  main_tariff = some sample_tariff;
  tariff = none;
  tariff_package_prepaid = none;
  pricelist = none;
  price = none;
  geo = none;
  nnp_number_range = none;
  nnp_package = none;
  nnp_package_price = none;
  nnp_package_pricelist = none;
  call_incoming_from_megatrunk = false;
  day = pos 0;
  month = pos 0;
  utc_day = pos 0;
  utc_month = pos 0;
}

abbrev pub sample_ctx : Ctx ℤ
sample_ctx = record {
  call = local_call;
  info = sample_info;
  freemin = empty true;
  packages = empty true;
  minutes = empty true;
}

-- The tables hold the package and a list by place that takes every call.
abbrev pub sample_repository : Repository ℤ
sample_repository = record {
  instance_id = 1;
  orig_region = 1;
  billing_free_seconds = pos 5;
  get_trunk_by_name = λ n s. none;
  get_server = λ s. none;
  get_instance_settings = λ s. none;
  get_trunk_number_preprocessing = λ t i. none;
  get_service_number_by_technical_number = λ n. none;
  mob_prefixes = [];
  geo_prefixes = [];
  get_geo = λ i. none;
  get_service_number = λ n. none;
  get_service_trunk = λ t. none;
  get_account = λ a. none;
  get_pricelist = λ i. none;
  get_price = λ i n. none;
  get_tariff_log = λ i. none;
  get_tariff = λ i. none;
  get_all_service_number_package = λ i. sample_package ∷ [];
  get_all_service_trunk_package = λ i. [];
  get_tariff_package = λ i. some sample_tariff_package;
  get_all_stat_prefixlist_ids = λ i. 4 ∷ [];
  get_stat_prefixlist = λ i. some (record {
    id = 4;
    type_id = 3;
    prefixes = [];
    sub_type = 0;
    country_id = pos 0;
    region_id = pos 0;
    city_id = pos 0;
    exclude_operators = false;
    operators = [];
  });
  orig_orders = λ t a b. [];
  term_orders = λ t a b m o. [];
  get_nnp_number_range = λ n. none;
  get_nnp_country_prefix = λ n. (0, 0);
  get_nnp_country_code = λ p. 0;
  get_active_nnp_account_tariff_light = λ a b t. [];
  get_nnp_destinations = λ r. [];
  get_nnp_package = λ i. none;
  get_nnp_package_minute = λ i. none;
  best_package_price = λ l d. none;
  best_package_pricelist = λ l n. none;
  best_package_minute = λ l d. none;
}

-- One record to bill and one leg to save.
abbrev pub sample_container : Container ℤ
sample_container = record {
  cdrs = record { queue = sample_cdr ∷ []; last_id = pos 1; last_time = 0; counter = 0 };
  calls = record {
    parts = (local_call ∷ []) ∷ [];
    realtime_last_id = pos 9;
    stored_last_id = pos 0;
    realtime_last_time = 1000;
    stored_last_time = 0;
    realtime_counter = 1;
    stored_counter = 0;
  };
  stats_account = record {
    stats = [];
    for_sync = [];
    parts = [] ∷ [];
    need_clear = false;
    loaded = true;
  };
  stats_freemin = empty true;
  stats_package = empty true;
  stats_trunk_settings = empty true;
  stats_nnp_package_minute = empty true;
}

abbrev pub sample_trunk : Trunk
sample_trunk = record {
  id = 1;
  server_id = 1;
  trunk_name = b'a' ∷ [];
  source_rule_default_allowed = true;
  destination_rule_default_allowed = true;
  source_trunk_rule_default_allowed = true;
  default_priority = pos 0;
  auto_routing = true;
  route_table_id = 1;
  our_trunk = false;
  tech_trunk = false;
  pstn_trunk = false;
  auth_by_number = false;
  orig_redirect_number_7800 = false;
  orig_redirect_number = false;
  term_redirect_number = false;
  sw_minimalki = false;
  sw_shared = false;
  road_to_regions = [];
}
