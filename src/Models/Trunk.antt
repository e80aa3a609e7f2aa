-- ===== src/Models/Trunk.antt =====
-- src-bill/models/Trunk.h, Server.h, InstanceSettings.h, ServiceNumber.h, ServiceTrunk.h, Client.h,
-- ServiceTrunkSettings.h, StatsTrunkSettings.h,
-- TrunkNumberPreprocessing.h, MobPrefix.h, GeoPrefix.h.
use voipbill.Prelude.{ℕ, Bool, Option, List, ℤ}
use voipbill.Models.Tariff.{
  Pricelist, PricelistPrice, NnpPackage, NnpPackagePrice, NnpPackagePricelist,
}

pub record Trunk : Type 0 where
  pub id : ℕ
  pub server_id : ℕ
  pub trunk_name : List ℕ
  pub source_rule_default_allowed : Bool
  pub destination_rule_default_allowed : Bool
  pub source_trunk_rule_default_allowed : Bool
  pub default_priority : ℤ
  pub auto_routing : Bool
  pub route_table_id : ℕ
  pub our_trunk : Bool
  pub tech_trunk : Bool
  pub pstn_trunk : Bool
  pub auth_by_number : Bool
  pub orig_redirect_number_7800 : Bool
  pub orig_redirect_number : Bool
  pub term_redirect_number : Bool
  pub sw_minimalki : Bool
  pub sw_shared : Bool
  pub road_to_regions : List ℕ

pub record Server : Type 0 where
  pub id : ℕ
  pub hub_id : ℕ
  pub low_balance_outcome_id : ℕ
  pub blocked_outcome_id : ℕ
  pub calling_station_id_for_line_without_number : List ℕ
  pub min_price_for_autorouting : ℤ
  pub emergency_prefixlist_id : ℕ
  pub service_numbers : List (List ℕ)

-- `region_id` is the text of a list, such as `{77,50}`, that `getRegionIds` reads.
pub record InstanceSettings : Type 0 where
  pub id : ℕ
  pub region_id : List ℕ
  pub country_id : ℤ
  pub city_id : ℤ
  pub auto_lock_finance : Bool

pub record ServiceNumber : Type 0 where
  pub id : ℕ
  pub server_id : ℕ
  pub client_account_id : ℕ
  pub did : List ℕ
  pub lines_count : ℤ

pub record ServiceTrunk : Type 0 where
  pub id : ℕ
  pub server_id : ℕ
  pub client_account_id : ℕ
  pub trunk_id : ℕ
  pub activation_dt : ℕ
  pub expire_dt : ℕ
  pub orig_enabled : Bool
  pub term_enabled : Bool

pub record Client (D : Type 0) : Type 0 where
  pub id : ℕ
  pub limit_d : ℤ
  pub limit_d_mn : ℤ
  pub credit : ℤ
  pub balance : D
  pub disabled : Bool
  pub price_include_vat : Bool
  pub is_blocked : Bool
  pub anti_fraud_disabled : Bool
  pub is_trunk_client : Bool
  pub effective_vat_rate : ℤ
  pub timezone_offset : ℤ
  pub account_version : ℕ
  pub amount_date : ℤ

pub record TrunkNumberPreprocessing : Type 0 where
  pub src : Bool
  pub noa : ℕ
  pub size : ℕ
  pub prefix : List ℕ

pub record MobPrefix : Type 0 where
  pub prefix : List ℕ
  pub mob : Bool

pub record GeoPrefix : Type 0 where
  pub prefix : List ℕ
  pub geo_id : ℕ
  pub geo_operator_id : ℕ

pub record ServiceTrunkSettings (D : Type 0) : Type 0 where
  pub id : ℕ
  pub src_number_id : ℕ
  pub dst_number_id : ℕ
  pub pricelist_id : ℕ
  pub minimum_minutes : ℤ
  pub minimum_cost : ℤ
  pub nnp_tariff_id : ℕ
  pub minimum_margin_type : ℕ
  pub minimum_margin : D

pub record StatsTrunkSettings (D : Type 0) : Type 0 where
  pub id : ℕ
  pub trunk_settings_id : ℕ
  pub activation_dt : ℤ
  pub expire_dt : ℤ
  pub used_seconds : ℤ
  pub used_credit : D
  pub min_call_id : ℕ
  pub max_call_id : ℕ

-- A price that a trunk offers.
pub record ServiceTrunkOrder (D : Type 0) : Type 0 where
  pub trunk : Option Trunk
  pub service_trunk : Option ServiceTrunk
  pub pricelist : Option (Pricelist D)
  pub price : Option (PricelistPrice D)
  pub account : Option (Client D)
  pub trunk_settings : Option (ServiceTrunkSettings D)
  pub stats_trunk_settings : Option (StatsTrunkSettings D)
  pub nnp_package : Option NnpPackage
  pub nnp_package_price : Option (NnpPackagePrice D)
  pub nnp_package_pricelist : Option NnpPackagePricelist
  pub nnp_price : D
  pub priority : ℤ

pub record NnpNumberRange : Type 0 where
  pub id : ℕ
  pub ndc : ℕ
  pub is_mob : Bool
  pub nnp_operator_id : ℕ
  pub nnp_region_id : ℕ
  pub nnp_city_id : ℕ
  pub country_prefix : ℕ
  pub country_code : ℕ
