-- ===== src/Billing/Monad.antt =====
-- The state of `BillingCall::calc`: the leg, what was found for it (`CallInfo` of
-- src-bill/models/CallInfo.h) and the counters of `billingData`. A `CalcException` keeps the state
-- as it is when it is thrown; a fault is a null pointer that is followed, or the exception of
-- `vector::at`, which nothing here catches.
use voipbill.Prelude.{ℕ, Bool, Option, none, some, ℤ, if◌then◌else◌}
use voipbill.Models.Call.{Call}
use voipbill.Models.Tariff.{
  Tariff, TariffPackage, TariffChangeLog, ServicePackage, Pricelist, PricelistPrice, Geo,
  StatsFreemin, StatsPackage, StatsNnpPackageMinute, NnpPackage, NnpPackagePrice,
  NnpPackagePricelist,
}
use voipbill.Models.Trunk.{
  Trunk, Server, InstanceSettings, ServiceNumber, ServiceTrunk, Client, NnpNumberRange,
}
use voipbill.Stats.Ledger.{Ledger}

pub record CallInfo (D : Type 0) : Type 0 where
  pub server : Option Server
  pub instance_settings : Option InstanceSettings
  pub trunk : Option Trunk
  pub account : Option (Client D)
  pub service_number : Option ServiceNumber
  pub service_trunk : Option ServiceTrunk
  pub service_package_prepaid : Option ServicePackage
  pub service_package_pricelist : Option ServicePackage
  pub trunk_settings_id : Option ℕ
  pub log_tariff : Option TariffChangeLog
  pub main_tariff : Option Tariff
  pub tariff : Option Tariff
  pub tariff_package_prepaid : Option TariffPackage
  pub pricelist : Option (Pricelist D)
  pub price : Option (PricelistPrice D)
  pub geo : Option Geo
  pub nnp_number_range : Option NnpNumberRange
  pub nnp_package : Option NnpPackage
  pub nnp_package_price : Option (NnpPackagePrice D)
  pub nnp_package_pricelist : Option NnpPackagePricelist
  pub call_incoming_from_megatrunk : Bool
  -- `dt` and `dtUtc`.
  pub day : ℤ
  pub month : ℤ
  pub utc_day : ℤ
  pub utc_month : ℤ

pub record Ctx (D : Type 0) : Type 0 where
  pub call : Call D
  pub info : CallInfo D
  pub freemin : Ledger (StatsFreemin D)
  pub packages : Ledger (StatsPackage D)
  pub minutes : Ledger (StatsNnpPackageMinute D)

-- The messages of `CalcException`.
pub data CalcError : Type 0 where
  trunk_not_found server_not_found instance_settings_not_found orig_trunk_not_found : CalcError
  service_trunk_not_found service_number_not_found service_number_account_differs : CalcError
  account_not_found pricelist_not_found price_not_found : CalcError
  tariff_change_log_not_found tariff_not_found unknown_account_version : CalcError
  nnp_service_number_not_found account_tariff_light_not_found nnp_package_not_found : CalcError

pub data Outcome (A : Type 0) : Type 0 where
  done : A → Outcome A
  thrown : CalcError → Outcome A
  fault : Outcome A

abbrev pub M : Type 0 → Type 0 → Type 0
M D A = Ctx D → Outcome A × Ctx D

module _ {D : Type 0} where
  abbrev pub and_then : {A B : Type 0} → Outcome A × Ctx D → (A → M D B) → Outcome B × Ctx D
  and_then (done a, c) f = f a c
  and_then (thrown e, c) f = (thrown e, c)
  and_then (fault, c) f = (fault, c)

  infixl 5 ◌>>=◌ ◌>>◌
  abbrev pub ◌>>=◌ : {A B : Type 0} → M D A → (A → M D B) → M D B
  ◌>>=◌ m f c = and_then (m c) f

  abbrev pub ◌>>◌ : {B : Type 0} → M D (Unit {0}) → M D B → M D B
  ◌>>◌ m k c = and_then (m c) (λ _. k)

  abbrev pub return : {A : Type 0} → A → M D A
  return a c = (done a, c)

  abbrev pub skip : M D (Unit {0})
  skip c = (done tt, c)

  abbrev pub throw : {A : Type 0} → CalcError → M D A
  throw e c = (thrown e, c)

  -- A pointer that is followed.
  abbrev pub deref : {A : Type 0} → Option A → M D A
  deref none c = (fault, c)
  deref (some a) c = (done a, c)

  -- `if (p == nullptr) throw …;`
  abbrev pub required : {A : Type 0} → CalcError → Option A → M D A
  required e none c = (thrown e, c)
  required e (some a) c = (done a, c)

  abbrev pub get : M D (Ctx D)
  get c = (done c, c)

  abbrev pub set_call : (Call D → Call D) → M D (Unit {0})
  set_call f c = (done tt, record c { call = f c.call })

  abbrev pub set_info : (CallInfo D → CallInfo D) → M D (Unit {0})
  set_info f c = (done tt, record c { info = f c.info })

  abbrev pub when : Bool → M D (Unit {0}) → M D (Unit {0})
  when b m c = if b then m c else (done tt, c)
