-- ===== src/Container.antt =====
-- src-bill/data/DataBillingContainer.cpp: the records to bill, the billed legs and the counters,
-- each of which is kept in as many partitions as the legs.
pub mod Partitions
pub mod Records
pub mod Legs
pub mod Examples
use voipbill.Prelude.{
  ℕ, ◌+◌, Bool, ◌&&◌, Option, none, some, List, [], ◌∷◌, ◌++◌, length, if◌then◌else◌,
}
use voipbill.Models.Double.{Double}
use voipbill.Models.Call.{Call}
use voipbill.Models.Tariff.{StatsFreemin, StatsPackage, StatsNnpPackageMinute}
use voipbill.Stats.Ledger.{Ledger}
use voipbill.Stats.Ledger
use voipbill.Stats.Account.{Accounts}
use voipbill.Stats.Account
use voipbill.Stats.Freemin
use voipbill.Stats.Package
use voipbill.Stats.Minute
use voipbill.Stats.TrunkSettings
use voipbill.Models.Trunk.{StatsTrunkSettings}
use voipbill.Calls
use voipbill.Calls.{CallsManager}
use voipbill.Cdrs.{CdrManager}
use voipbill.Cdrs
use voipbill.Billing.Monad.{CallInfo}

pub record Container (D : Type 0) : Type 0 where
  pub cdrs : CdrManager
  pub calls : CallsManager D
  pub stats_account : Accounts D
  pub stats_freemin : Ledger (StatsFreemin D)
  pub stats_package : Ledger (StatsPackage D)
  pub stats_trunk_settings : Ledger (StatsTrunkSettings D)
  pub stats_nnp_package_minute : Ledger (StatsNnpPackageMinute D)

infixl 5 ◌>>=◌
abbrev pub ◌>>=◌ {ℓ κ} : {A : Type ℓ} {B : Type κ} → Option A → (A → Option B) → Option B
none >>= f = none
some a >>= f = f a

module _ {D : Type 0} ⦃d : Double D⦄ where
  -- `locks_ready` is the answer of `clientLock`.
  unfoldable pub ready : (locks_ready : Bool) → Container D → Bool
  ready locks_ready c =
      Cdrs.ready c.cdrs
      && Calls.ready c.calls
      && c.stats_account.loaded
      && c.stats_freemin.loaded
      && c.stats_package.loaded
      && c.stats_trunk_settings.loaded
      && c.stats_nnp_package_minute.loaded
      && locks_ready

  pub create_new_partition : Container D → Container D
  create_new_partition c = record c {
    calls = Calls.create_new_partition c.calls;
    stats_account = Account.create_new_partition c.stats_account;
    stats_freemin = Ledger.create_new_partition c.stats_freemin;
    stats_package = Ledger.create_new_partition c.stats_package;
    stats_trunk_settings = Ledger.create_new_partition c.stats_trunk_settings;
    stats_nnp_package_minute = Ledger.create_new_partition c.stats_nnp_package_minute;
  }

  pub remove_partition_after_save : Container D → Option (Container D)
  remove_partition_after_save c = do
    calls ← Calls.remove_partition_after_save c.calls
    some (record c {
      calls = calls;
      stats_account = Account.remove_partition_after_save c.stats_account;
      stats_freemin = Ledger.remove_partition_after_save c.stats_freemin;
      stats_package = Ledger.remove_partition_after_save c.stats_package;
      stats_trunk_settings = Ledger.remove_partition_after_save c.stats_trunk_settings;
      stats_nnp_package_minute = Ledger.remove_partition_after_save c.stats_nnp_package_minute;
    })

  pub add_call : Call D → CallInfo D → Container D → Option (Container D)
  unfolding create_new_partition
  add_call call info c = do
    account ← Account.add call info c.stats_account
    freemin ← Freemin.add call c.stats_freemin
    packages ← Package.add call info.service_package_prepaid c.stats_package
    trunk_settings ← TrunkSettings.add call c.stats_trunk_settings
    minute ← Minute.add call c.stats_nnp_package_minute
    calls ← Calls.add call c.calls
    full ← Calls.is_need_create_partition_after_add calls
    let c' : Container D = record c {
      calls = calls;
      stats_account = account;
      stats_freemin = freemin;
      stats_package = packages;
      stats_trunk_settings = trunk_settings;
      stats_nnp_package_minute = minute;
    }
    some (if full then create_new_partition c' else c')

  -- The first step of `save`, and whether there is anything to save.
  pub begin_save : Container D → Option (Bool × Container D)
  unfolding create_new_partition
  begin_save c = do
    needed ← Calls.is_need_save c.calls
    some (
      needed,
      if needed && Calls.is_need_create_partition_before_save c.calls
          then create_new_partition c
          else c,
    )
