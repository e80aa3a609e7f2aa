-- ===== src/Stats/TrunkSettings.antt =====
-- src-bill/classes/StatsTrunkSettingsManager.cpp: the seconds and the cost that the settings of a
-- trunk have had in a month of the account.
use voipbill.Prelude.{ℕ, ◌==◌, Bool, not, ◌&&◌, Option, some, if◌then◌else◌, pos, ◌+ℤ◌, ltb_ℤ}
use voipbill.Models.Double.{Double, nought}
use voipbill.Models.Call.{Call}
use voipbill.Models.Trunk.{Client, StatsTrunkSettings}
use voipbill.Stats.Ledger.{Ledger}
use voipbill.Stats.Ledger
use voipbill.Time.{get_tmonth, get_tmonth_end}

module _ {D : Type 0} ⦃d : Double D⦄ where
  -- `createStatsTrunkSettings`, under the id that the manager gives.
  abbrev pub create_stats_trunk_settings :
      (connect_time : ℕ) → Client D → (trunk_settings_id : ℕ) → ℕ → StatsTrunkSettings D
  create_stats_trunk_settings connect_time account trunk_settings_id id = record {
    id = id;
    trunk_settings_id = trunk_settings_id;
    activation_dt = get_tmonth connect_time account.timezone_offset;
    expire_dt = get_tmonth_end connect_time account.timezone_offset;
    used_seconds = pos 0;
    used_credit = nought;
    min_call_id = 0;
    max_call_id = 0;
  }

  abbrev pub is_active : (connect_time : ℕ) → StatsTrunkSettings D → Bool
  is_active connect_time s =
      not (ltb_ℤ (pos connect_time) s.activation_dt) && not (ltb_ℤ s.expire_dt (pos connect_time))

  unfoldable pub get_current :
      (connect_time : ℕ)
      → Client D
      → (trunk_settings_id : ℕ) → Ledger (StatsTrunkSettings D)
      → Option (StatsTrunkSettings D × Ledger (StatsTrunkSettings D))
  get_current connect_time account trunk_settings_id =
      Ledger.get_current (is_active connect_time) trunk_settings_id
        (create_stats_trunk_settings connect_time account trunk_settings_id)

  -- `updateStatsTrunkSettings`.
  abbrev pub use_trunk_settings : Call D → StatsTrunkSettings D → StatsTrunkSettings D
  use_trunk_settings call s = record s {
    used_seconds = s.used_seconds +ℤ call.billed_time;
    used_credit = d.add s.used_credit call.cost;
    min_call_id = if s.min_call_id == 0 then call.id else s.min_call_id;
    max_call_id = call.id;
  }

  unfoldable pub add :
      Call D → Ledger (StatsTrunkSettings D) → Option (Ledger (StatsTrunkSettings D))
  add call l =
      if call.trunk_settings_stats_id == 0
      then some l
      else Ledger.charge call.trunk_settings_stats_id (use_trunk_settings call) l
