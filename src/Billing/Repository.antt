-- ===== src/Billing/Repository.antt =====
-- What `BillingCall` asks of src-bill/classes/Repository.h, for the time of the call, of
-- StateMegaTrunk.h and of the configuration. The tables of prefixes are here as such.
use voipbill.Prelude.{ℕ, Bool, Option, List, ℤ}
use voipbill.Models.Tariff.{
  Tariff, TariffPackage, TariffChangeLog, ServicePackage, Pricelist, PricelistPrice, StatPrefixlist,
  Geo, NnpPackage, NnpPackagePrice, NnpPackagePricelist, NnpPackageMinute, NnpAccountTariffLight,
}
use voipbill.Models.Trunk.{
  Trunk, Server, InstanceSettings, ServiceNumber, ServiceTrunk, Client, TrunkNumberPreprocessing,
  MobPrefix, GeoPrefix, ServiceTrunkOrder, NnpNumberRange,
}

pub record Repository (D : Type 0) : Type 0 where
  pub instance_id : ℕ
  pub orig_region : ℕ
  pub billing_free_seconds : ℤ
  pub get_trunk_by_name : List ℕ → ℕ → Option Trunk
  pub get_server : ℕ → Option Server
  pub get_instance_settings : ℕ → Option InstanceSettings
  pub get_trunk_number_preprocessing : ℕ → ℕ → Option TrunkNumberPreprocessing
  pub get_service_number_by_technical_number : ℤ → Option ServiceNumber
  pub mob_prefixes : List MobPrefix
  pub geo_prefixes : List GeoPrefix
  pub get_geo : ℕ → Option Geo
  pub get_service_number : ℤ → Option ServiceNumber
  pub get_service_trunk : ℕ → Option ServiceTrunk
  pub get_account : ℕ → Option (Client D)
  pub get_pricelist : ℕ → Option (Pricelist D)
  pub get_price : ℕ → ℤ → Option (PricelistPrice D)
  pub get_tariff_log : ℕ → Option TariffChangeLog
  pub get_tariff : ℕ → Option Tariff
  pub get_all_service_number_package : ℕ → List ServicePackage
  pub get_all_service_trunk_package : ℕ → List ServicePackage
  pub get_tariff_package : ℕ → Option TariffPackage
  pub get_all_stat_prefixlist_ids : ℕ → List ℕ
  pub get_stat_prefixlist : ℕ → Option StatPrefixlist
  -- `getTrunkSettingsOrderList`, then the order for the leg.
  pub orig_orders : Trunk → ℤ → ℤ → List (ServiceTrunkOrder D)
  pub term_orders : Trunk → ℤ → ℤ → Bool → ℕ → List (ServiceTrunkOrder D)
  pub get_nnp_number_range : ℤ → Option NnpNumberRange
  pub get_nnp_country_prefix : ℤ → ℕ × ℕ
  pub get_nnp_country_code : ℕ → ℕ
  pub get_active_nnp_account_tariff_light : ℕ → ℕ → ℕ → List NnpAccountTariffLight
  pub get_nnp_destinations : Option NnpNumberRange → List ℕ
  pub get_nnp_package : ℕ → Option NnpPackage
  pub get_nnp_package_minute : ℕ → Option (NnpPackageMinute D)
  -- `setupNNPPackagePrice`, `setupNNPPackagePricelist` and `setupNNPPackageMinute`.
  pub best_package_price : List NnpAccountTariffLight → List ℕ → Option (D × NnpPackagePrice D)
  pub best_package_pricelist : List NnpAccountTariffLight → ℤ → Option (D × NnpPackagePricelist)
  pub best_package_minute : List NnpAccountTariffLight → List ℕ → Option (ℤ × NnpPackageMinute D)

-- The answers of `stateMegaTrunk`.
pub record MegaTrunk : Type 0 where
  pub is_force_org_auth_by_number : Bool
  pub is_force_term_auth_by_number : Bool
  pub is_force_orig_tariffication_skip : Bool
