-- ===== src/Stats/Minute.antt =====
-- src-bill/classes/StatsNNPPackageMinuteManager.cpp: the seconds of an nnp package with minutes
-- that an account's tariff has used.
use voipbill.Prelude.{ℕ, ◌==◌, Bool, not, ◌&&◌, Option, some, if◌then◌else◌, pos, ◌+ℤ◌, ltb_ℤ}
use voipbill.Models.Double.{Double, nought}
use voipbill.Models.Call.{Call}
use voipbill.Models.Tariff.{StatsNnpPackageMinute, NnpPackageMinute, NnpAccountTariffLight}
use voipbill.Stats.Ledger.{Ledger}
use voipbill.Stats.Ledger

module _ {D : Type 0} ⦃d : Double D⦄ where
  -- `createStatsNNPPackageMinute`, under the id that the manager gives.
  abbrev pub create_stats : NnpPackageMinute D → NnpAccountTariffLight → ℕ → StatsNnpPackageMinute D
  create_stats pkg light id = record {
    id = id;
    nnp_account_tariff_light_id = light.id;
    nnp_package_minute_id = pkg.id;
    activate_from = light.activate_from;
    deactivate_from = light.deactivate_from;
    used_seconds = pos 0;
    used_credit = nought;
    min_call_id = 0;
    max_call_id = 0;
  }

  abbrev pub is_active : (connect_time : ℕ) → StatsNnpPackageMinute D → Bool
  is_active connect_time s =
      not (ltb_ℤ (pos connect_time) s.activate_from)
      && not (ltb_ℤ s.deactivate_from (pos connect_time))

  unfoldable pub get_current :
      (connect_time : ℕ)
      → NnpPackageMinute D
      → NnpAccountTariffLight
      → Ledger (StatsNnpPackageMinute D)
      → Option (StatsNnpPackageMinute D × Ledger (StatsNnpPackageMinute D))
  get_current connect_time pkg light =
      Ledger.get_current (is_active connect_time) light.id (create_stats pkg light)

  -- `updateStatsNNPPackageMinute`, which adds the cost, not the credit.
  abbrev pub use_minutes : Call D → StatsNnpPackageMinute D → StatsNnpPackageMinute D
  use_minutes call s = record s {
    used_seconds = s.used_seconds +ℤ call.package_time;
    used_credit = d.add s.used_credit call.cost;
    min_call_id = if s.min_call_id == 0 then call.id else s.min_call_id;
    max_call_id = call.id;
  }

  unfoldable pub add :
      Call D → Ledger (StatsNnpPackageMinute D) → Option (Ledger (StatsNnpPackageMinute D))
  add call l =
      if call.stats_nnp_package_minute_id == 0
      then some l
      else Ledger.charge call.stats_nnp_package_minute_id (use_minutes call) l
