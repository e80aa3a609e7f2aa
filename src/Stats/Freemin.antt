-- ===== src/Stats/Freemin.antt =====
-- src-bill/classes/StatsFreeminManager.cpp: the free seconds that a service has used in a month.
use voipbill.Prelude.{ℕ, ◌==◌, Bool, not, ◌||◌, Option, some, if◌then◌else◌, ℤ, pos, ◌+ℤ◌, eqb_ℤ}
use voipbill.Models.Double.{Double, nought}
use voipbill.Models.Call.{Call}
use voipbill.Models.Tariff.{StatsFreemin}
use voipbill.Stats.Ledger.{Ledger}
use voipbill.Stats.Ledger

module _ {D : Type 0} ⦃d : Double D⦄ where
  -- `createStatsFreemin`, under the id that the manager gives.
  abbrev pub create_stats_freemin : (number_service_id : ℕ) (month : ℤ) → ℕ → StatsFreemin D
  create_stats_freemin number_service_id month id = record {
    id = id;
    service_number_id = number_service_id;
    month_dt = month;
    used_seconds = pos 0;
    used_credit = nought;
    min_call_id = 0;
    max_call_id = 0;
  }

  abbrev pub is_of_month : ℤ → StatsFreemin D → Bool
  is_of_month month s = eqb_ℤ s.month_dt month

  unfoldable pub get_current :
      (number_service_id : ℕ) (month : ℤ)
      → Ledger (StatsFreemin D)
      → Option (StatsFreemin D × Ledger (StatsFreemin D))
  get_current number_service_id month =
      Ledger.get_current (is_of_month month) number_service_id
        (create_stats_freemin number_service_id month)

  -- `updateStatsFreemin`.
  abbrev pub use_freemin : Call D → StatsFreemin D → StatsFreemin D
  use_freemin call s = record s {
    used_seconds = s.used_seconds +ℤ call.package_time;
    used_credit = d.add s.used_credit call.package_credit;
    min_call_id = if s.min_call_id == 0 then call.id else s.min_call_id;
    max_call_id = call.id;
  }

  -- The early return of `add`.
  abbrev pub is_skipped : Call D → Bool
  is_skipped call =
      call.number_service_id == 0
      || not (call.service_package_id == 1)
      || call.service_package_stats_id == 0

  unfoldable pub add : Call D → Ledger (StatsFreemin D) → Option (Ledger (StatsFreemin D))
  add call l =
      if is_skipped call
      then some l
      else Ledger.charge call.service_package_stats_id (use_freemin call) l
