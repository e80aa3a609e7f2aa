-- ===== src/Models/Tariff.antt =====
-- src-bill/models/Tariff.h, TariffPackage.h, TariffChangeLog.h, ServicePackage.h, Pricelist.h,
-- PricelistPrice.h, StatPrefixlist.h, Geo.h, StatsFreemin.h, StatsPackage.h and nnp/NNPPackage*.h.
use voipbill.Prelude.{ℕ, Bool, List, ℤ, pos, ◌*ℤ◌}

pub record Tariff : Type 0 where
  pub id : ℕ
  pub freemin : ℤ
  pub freemin_for_number : Bool
  pub pricelist_id : ℕ
  pub tariffication_by_minutes : Bool
  pub tariffication_full_first_minute : Bool
  pub tariffication_free_first_seconds : Bool

pub record TariffPackage : Type 0 where
  pub id : ℕ
  pub destination_id : ℕ
  pub prepaid_minutes : ℤ
  pub pricelist_id : ℕ

unfoldable pub get_prepaid_seconds : TariffPackage → ℤ
get_prepaid_seconds t = t.prepaid_minutes *ℤ pos 60

pub record TariffChangeLog : Type 0 where
  pub usage_id : ℕ
  pub tariff_id_local : ℕ
  pub tariff_id_local_mob : ℕ
  pub tariff_id_russia : ℕ
  pub tariff_id_russia_mob : ℕ
  pub tariff_id_intern : ℕ

pub record ServicePackage : Type 0 where
  pub id : ℕ
  pub service_number_id : ℕ
  pub service_trunk_id : ℕ
  pub activation_dt : ℤ
  pub expire_dt : ℤ
  pub tariff_package_id : ℕ
  pub periodical : Bool

pub record Pricelist (D : Type 0) : Type 0 where
  pub id : ℕ
  pub currency_id : List ℕ
  pub local : Bool
  pub local_network_config_id : ℕ
  pub tariffication_by_minutes : Bool
  pub tariffication_full_first_minute : Bool
  pub initiate_mgmn_cost : D
  pub initiate_zona_cost : D
  pub price_include_vat : Bool

pub record PricelistPrice (D : Type 0) : Type 0 where
  pub pricelist_id : ℕ
  pub prefix : List ℕ
  pub price : D

pub record StatPrefixlist : Type 0 where
  pub id : ℕ
  pub type_id : ℕ
  pub prefixes : List ℤ
  pub sub_type : ℕ
  pub country_id : ℤ
  pub region_id : ℤ
  pub city_id : ℤ
  pub exclude_operators : Bool
  pub operators : List ℕ

pub record Geo : Type 0 where
  pub id : ℕ
  pub country_id : ℤ
  pub region_id : ℤ
  pub city_id : ℤ

pub record StatsFreemin (D : Type 0) : Type 0 where
  pub id : ℕ
  pub service_number_id : ℕ
  pub month_dt : ℤ
  pub used_seconds : ℤ
  pub used_credit : D
  pub min_call_id : ℕ
  pub max_call_id : ℕ

pub record StatsPackage (D : Type 0) : Type 0 where
  pub id : ℕ
  pub package_id : ℕ
  pub activation_dt : ℤ
  pub expire_dt : ℤ
  pub used_seconds : ℤ
  pub used_credit : D
  pub paid_seconds : ℤ
  pub min_call_id : ℕ
  pub max_call_id : ℕ

pub record NnpPackage : Type 0 where
  pub id : ℕ
  pub tarification_free_seconds : ℤ
  pub tarification_interval_seconds : ℤ
  pub tarification_type : ℤ
  pub tarification_min_paid_seconds : ℤ
  pub currency_id : List ℕ
  pub is_include_vat : Bool

pub record NnpPackagePrice (D : Type 0) : Type 0 where
  pub id : ℕ
  pub nnp_tariff_id : ℕ
  pub price : D
  pub interconnect_price : D

pub record NnpPackagePricelist : Type 0 where
  pub id : ℕ
  pub nnp_tariff_id : ℕ
  pub pricelist_id : ℕ

pub record NnpPackageMinute (D : Type 0) : Type 0 where
  pub id : ℕ
  pub nnp_tariff_id : ℕ
  pub nnp_destination_id : ℕ
  pub minute : D

pub record NnpAccountTariffLight : Type 0 where
  pub id : ℕ
  pub service_number_id : ℕ
  pub nnp_tariff_id : ℕ
  pub activate_from : ℤ
  pub deactivate_from : ℤ

pub record StatsNnpPackageMinute (D : Type 0) : Type 0 where
  pub id : ℕ
  pub nnp_account_tariff_light_id : ℕ
  pub nnp_package_minute_id : ℕ
  pub activate_from : ℤ
  pub deactivate_from : ℤ
  pub used_seconds : ℤ
  pub used_credit : D
  pub min_call_id : ℕ
  pub max_call_id : ℕ
