-- ===== src/Container/Records.antt =====
-- `addCall` leaves the records to bill as they are.
use mathlib.Core.Option.{some-injective}
use voipbill.Prelude.{
  ◌≡◌, refl, sym, ap, ◌∙◌, arith, Bool, true, false, Option, none, some, if◌then◌else◌,
}
use voipbill.Models.Double.{Double}
use voipbill.Models.Call.{Call}
use voipbill.Stats.Account
use voipbill.Stats.Freemin
use voipbill.Stats.Package
use voipbill.Stats.TrunkSettings
use voipbill.Stats.Minute
use voipbill.Calls
use voipbill.Cdrs.{CdrManager}
use voipbill.Billing.Monad.{CallInfo}
use voipbill.Container.{Container, create_new_partition, add_call, ◌>>=◌}

-- Where there is a container, it has these records.
abbrev pub SameCdrs : {D : Type 0} → CdrManager → Option (Container D) → Type 0
SameCdrs {D} q o = (c : Container D) → o ≡ some c → c.cdrs ≡ q

pub elim-SameCdrs {ℓ} :
    {D : Type 0} {A : Type ℓ} (q : CdrManager) (o : Option A) (f : A → Option (Container D))
    → ((a : A) → SameCdrs q (f a))
    → SameCdrs q (elim o [ none ↦ none | some a ↦ f a ])
elim-SameCdrs q none f h = λ c e. absurd (ground (arith, e))
elim-SameCdrs q (some a) f h = h a

bind-SameCdrs {ℓ} :
    {D : Type 0} {A : Type ℓ} (q : CdrManager) (o : Option A) (f : A → Option (Container D))
    → ((a : A) → SameCdrs q (f a))
    → SameCdrs q (o >>= f)
bind-SameCdrs q none f h = λ c e. absurd (ground (arith, e))
bind-SameCdrs q (some a) f h = h a

pub some-SameCdrs :
    {D : Type 0} (q : CdrManager) (c : Container D) → c.cdrs ≡ q → SameCdrs q (some c)
some-SameCdrs q c e c' h = sym (ap (λ (x : Container _). x.cdrs) (some-injective _ _ h)) ∙ e

module _ {D : Type 0} ⦃d : Double D⦄ where
  maybe-SameCdrs :
      (b : Bool) (c : Container D) → (if b then create_new_partition c else c).cdrs ≡ c.cdrs
  unfolding create_new_partition
  maybe-SameCdrs true c = refl
  maybe-SameCdrs false c = refl

  finished-SameCdrs :
      (b : Bool) (c : Container D) (q : CdrManager)
      → c.cdrs ≡ q
      → SameCdrs q (some (if b then create_new_partition c else c))
  finished-SameCdrs b c q e = some-SameCdrs q _ (maybe-SameCdrs b c ∙ e)

  pub add_call-SameCdrs :
      (call : Call D) (info : CallInfo D) (c : Container D) → SameCdrs c.cdrs (add_call call info c)
  unfolding add_call
  add_call-SameCdrs call info c =
      bind-SameCdrs c.cdrs (Account.add call info c.stats_account) _ λ account.
        bind-SameCdrs c.cdrs (Freemin.add call c.stats_freemin) _ λ freemin.
          bind-SameCdrs c.cdrs (Package.add call info.service_package_prepaid c.stats_package) _
            λ packages.
              bind-SameCdrs c.cdrs (TrunkSettings.add call c.stats_trunk_settings) _
                λ trunk_settings.
                  bind-SameCdrs c.cdrs (Minute.add call c.stats_nnp_package_minute) _ λ minute.
                    bind-SameCdrs c.cdrs (Calls.add call c.calls) _ λ calls.
                      bind-SameCdrs c.cdrs (Calls.is_need_create_partition_after_add calls) _
                        λ full.
                          finished-SameCdrs full
                            (record c {
                              calls = calls;
                              stats_account = account;
                              stats_freemin = freemin;
                              stats_package = packages;
                              stats_trunk_settings = trunk_settings;
                              stats_nnp_package_minute = minute;
                            })
                            c.cdrs refl
