-- ===== src/Auth/Process/Leg.antt =====
-- The billing of the call that `process` of src-bill/classes/RadiusAuthProcessor.cpp asks for, by
-- `BillingCall::calc`: it fills `bill` of `Site`. The counters that the billing makes are left out.
use voipbill.Prelude.{ℕ, Bool, true, false, ◌&&◌, ◌||◌, Option, none, some, if◌then◌else◌}
use voipbill.Models.Double.{Double}
use voipbill.Models.Call.{Cdr, of_cdr}
use voipbill.Models.Tariff.{StatsFreemin, StatsPackage, StatsNnpPackageMinute}
use voipbill.Models.Routing.{RadiusAuthRequest, RadiusAuthResponse}
use voipbill.Stats.Ledger.{Ledger}
use voipbill.Mega.{
  Tables, StateMegaTrunk, is_some, is_force_org_auth_by_number, is_force_orig_tariffication_skip,
}
use voipbill.Billing.Monad.{CallInfo}
use voipbill.Billing.Repository.{Repository}
use voipbill.Billing.Calc.{calc}
use voipbill.Billing.Loop.{no_info}
use voipbill.Auth.{Caller, Result}
use voipbill.Auth.Limits.{Blocked, drop_expired}
use voipbill.Auth.Process.{Billed, Site, process}

-- Whether `calc` comes to the question of isForceOrigTarifficationSkip, which may change the trunk
-- that the state leads to. Between `setupTrunk` and the question it throws nothing.
unfoldable pub is_asked : {D : Type 0} → CallInfo D → Bool
is_asked i =
    is_some i.server
    && is_some i.instance_settings
    && elim i.trunk [ none ↦ false | some t ↦ t.auth_by_number || i.call_incoming_from_megatrunk ]

module _ {D : Type 0} ⦃d : Double D⦄ (r : Repository D) (rules : ℕ) (tables : Tables) (now : ℕ)
    (freemin : Ledger (StatsFreemin D)) (packages : Ledger (StatsPackage D))
    (minutes : Ledger (StatsNnpPackageMinute D)) where
  unfoldable pub bill_call : Caller D → Cdr → StateMegaTrunk → Option (Billed D)
  bill_call p cdr s =
      let asked = is_force_orig_tariffication_skip tables now s in
      elim (calc r rules
        (some (record {
          is_force_org_auth_by_number = is_force_org_auth_by_number tables now s;
          is_force_term_auth_by_number = s.need_force_term_auth_by_number;
          is_force_orig_tariffication_skip = asked.0;
        }))
        cdr
        (record {
          call = of_cdr cdr true;
          info = no_info;
          freemin = freemin;
          packages = packages;
          minutes = minutes;
        })) [
          | none ↦ none
          | some x ↦ some (record {
            call = x.call;
            account = x.info.account;
            call_incoming_from_megatrunk = x.info.call_incoming_from_megatrunk;
            mega = if is_asked x.info then asked.1 else s;
          })
        ]

-- `process()`: the accounts whose block is over are dropped first.
unfoldable pub process_request :
    {D : Type 0}
    → ⦃d : Double D⦄ → Site D
    → RadiusAuthRequest
    → RadiusAuthResponse
    → Blocked
    → Result (RadiusAuthResponse × Blocked)
process_request x q r blocked = process x q r (drop_expired x.spendings.now blocked)
