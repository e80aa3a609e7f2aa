-- ===== src/Container/Legs.antt =====
-- `addCall` puts its leg behind the others of the queue.
use mathlib.Core.Option.{some-injective}
use voipbill.Prelude.{
  ◌≡◌, refl, sym, ap, ◌∙◌, arith, Bool, true, false, Option, none, some, List, [], ◌∷◌, ◌++◌,
  if◌then◌else◌,
}
use voipbill.Models.Double.{Double}
use voipbill.Models.Call.{Call}
use voipbill.Stats.Account
use voipbill.Stats.Freemin
use voipbill.Stats.Package
use voipbill.Stats.TrunkSettings
use voipbill.Stats.Minute
use voipbill.Calls
use voipbill.Calls.Pending.{pending, pending-partition}
use voipbill.Calls.Added.{add-pending}
use voipbill.Billing.Monad.{CallInfo}
use voipbill.Container.{Container, create_new_partition, add_call, ◌>>=◌}

-- The legs that wait to be saved, in their order.
abbrev pub legs_of : {D : Type 0} → Container D → List (Call D)
legs_of c = pending c.calls.parts

-- Where there is a container, it has these legs.
abbrev pub HasLegs : {D : Type 0} → List (Call D) → Option (Container D) → Type 0
HasLegs {D} legs o = (c : Container D) → o ≡ some c → legs_of c ≡ legs

bind-HasLegs {ℓ} :
    {D : Type 0} {A : Type ℓ} (legs : List (Call D)) (o : Option A) (f : A → Option (Container D))
    → ((a : A) → o ≡ some a → HasLegs legs (f a))
    → HasLegs legs (o >>= f)
bind-HasLegs legs none f h = λ c e. absurd (ground (arith, e))
bind-HasLegs legs (some a) f h = h a refl

module _ {D : Type 0} ⦃d : Double D⦄ where
  finished-legs :
      (b : Bool) (c : Container D) → legs_of (if b then create_new_partition c else c) ≡ legs_of c
  unfolding create_new_partition Calls.create_new_partition
  finished-legs true c = pending-partition c.calls.parts
  finished-legs false c = refl

  pub add_call-HasLegs :
      (call : Call D) (info : CallInfo D) (c : Container D)
      → HasLegs (legs_of c ++ (call ∷ [])) (add_call call info c)
  unfolding add_call
  add_call-HasLegs call info c =
      let legs = legs_of c ++ (call ∷ []) in
      bind-HasLegs legs (Account.add call info c.stats_account) _ λ account _.
        bind-HasLegs legs (Freemin.add call c.stats_freemin) _ λ freemin _.
          bind-HasLegs legs (Package.add call info.service_package_prepaid c.stats_package) _
            λ packages _.
              bind-HasLegs legs (TrunkSettings.add call c.stats_trunk_settings) _
                λ trunk_settings _.
                  bind-HasLegs legs (Minute.add call c.stats_nnp_package_minute) _ λ minute _.
                    bind-HasLegs legs (Calls.add call c.calls) _ λ calls e.
                      bind-HasLegs legs (Calls.is_need_create_partition_after_add calls) _
                        λ full _ c' g.
                          ap legs_of (sym (some-injective _ _ g))
                          ∙ finished-legs full (record c {
                            calls = calls;
                            stats_account = account;
                            stats_freemin = freemin;
                            stats_package = packages;
                            stats_trunk_settings = trunk_settings;
                            stats_nnp_package_minute = minute;
                          })
                          ∙ add-pending call c.calls calls e
