-- ===== src/Stats/Package.antt =====
-- src-bill/classes/StatsPackageManager.cpp: the prepaid seconds that a package has used.
use voipbill.Prelude.{
  ℕ, ◌+◌, ◌*◌, ◌/◌, ◌==◌, leb, Bool, not, ◌||◌, ◌&&◌, true, false, Option, none, some,
  if◌then◌else◌, ℤ, pos, negsuc, sub_ℕ, clip, ◌+ℤ◌, ◌-ℤ◌, ◌*ℤ◌, ltb_ℤ,
}
use voipbill.Models.Double.{Double, nought}
use voipbill.Models.Call.{Call}
use voipbill.Models.Tariff.{StatsPackage, ServicePackage, TariffPackage, get_prepaid_seconds}
use voipbill.Stats.Ledger.{Ledger}
use voipbill.Stats.Ledger
use voipbill.Time.{get_tmonth, get_tmonth_end}

-- `(int)round(a / b)` for a positive `b`, as if the quotient of the `double`s were exact: to the
-- nearest integer, a tie away from 0.
pub round_div : ℤ → ℕ → ℤ
round_div (pos a) b = pos ((2 * a + b) / (2 * b))
round_div (negsuc a) b = sub_ℕ 0 ((2 * (a + 1) + b) / (2 * b))

pub record Period : Type 0 where
  pub activation_dt : ℤ
  pub expire_dt : ℤ
  pub paid_seconds : ℤ

-- The share of the prepaid seconds for the seconds of the month that the package is active.
pub prorated : (month month_end activation expire prepaid : ℤ) → Period
unfolding round_div
prorated month month_end activation expire prepaid =
    let month_seconds = month_end +ℤ pos 1 -ℤ month in
    let from = if ltb_ℤ month activation then activation else month in
    let to = if ltb_ℤ expire month_end then expire else month_end in
    let package_seconds = to +ℤ pos 1 -ℤ from in
    record {
      activation_dt = from;
      expire_dt = to;
      paid_seconds = round_div (package_seconds *ℤ prepaid) (clip month_seconds);
    }

pub period : (connect_time : ℕ) (offset : ℤ) → ServicePackage → TariffPackage → Period
unfolding prorated get_prepaid_seconds
period connect_time offset pkg tariff =
    if pkg.periodical
    then prorated (get_tmonth connect_time offset) (get_tmonth_end connect_time offset)
        pkg.activation_dt pkg.expire_dt (get_prepaid_seconds tariff)
    else record {
      activation_dt = pkg.activation_dt;
      expire_dt = pkg.expire_dt;
      paid_seconds = get_prepaid_seconds tariff;
    }

abbrev pub is_none {ℓ} : {A : Type ℓ} → Option A → Bool
is_none none = true
is_none (some a) = false

module _ {D : Type 0} ⦃d : Double D⦄ where
  -- `createStatsPackage`, under the id that the manager gives.
  abbrev pub create_stats_package : (package_id : ℕ) → Period → ℕ → StatsPackage D
  create_stats_package package_id p id = record {
    id = id;
    package_id = package_id;
    activation_dt = p.activation_dt;
    expire_dt = p.expire_dt;
    used_seconds = pos 0;
    used_credit = nought;
    paid_seconds = p.paid_seconds;
    min_call_id = 0;
    max_call_id = 0;
  }

  abbrev pub is_active : (connect_time : ℕ) → StatsPackage D → Bool
  is_active connect_time s =
      not (ltb_ℤ (pos connect_time) s.activation_dt) && not (ltb_ℤ s.expire_dt (pos connect_time))

  unfoldable pub get_current :
      (connect_time : ℕ) (offset : ℤ)
      → ServicePackage
      → TariffPackage
      → Ledger (StatsPackage D)
      → Option (StatsPackage D × Ledger (StatsPackage D))
  unfolding period
  get_current connect_time offset pkg tariff =
      Ledger.get_current (is_active connect_time) pkg.id
        (create_stats_package pkg.id (period connect_time offset pkg tariff))

  -- `updateStatsPackage`.
  abbrev pub use_package : Call D → StatsPackage D → StatsPackage D
  use_package call s = record s {
    used_seconds = s.used_seconds +ℤ call.package_time;
    used_credit = d.add s.used_credit call.package_credit;
    min_call_id = if s.min_call_id == 0 then call.id else s.min_call_id;
    max_call_id = call.id;
  }

  -- `prepaid` is `callInfo->servicePackagePrepaid`.
  unfoldable pub add :
      Call D
      → (prepaid : Option ServicePackage) → Ledger (StatsPackage D)
      → Option (Ledger (StatsPackage D))
  add call prepaid l =
      if call.number_service_id == 0
        || leb call.service_package_id 1
        || call.service_package_stats_id == 0
        || is_none prepaid
      then some l
      else Ledger.charge call.service_package_stats_id (use_package call) l
