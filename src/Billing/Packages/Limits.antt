-- ===== src/Billing/Packages/Limits.antt =====
-- Free and prepaid seconds are never used beyond their limits.
use mathlib.Core.Option.{some-injective}
use voipbill.Prelude.{
  ◌≡◌, inl, inr, refl, ap, subst, Bool, true, false, not, Option, none, some, List, [], ◌∷◌, eqb_ℤ,
  ◌||◌, ltb, leb_ℤ, arith, ℤ, pos, ◌+ℤ◌, ◌≤ℤ◌, ◌<ℤ◌, Bool-cases, Option-cases,
}
use voipbill.Models.Double.{Double}
use voipbill.Models.Call.{Call, is_local}
use voipbill.Models.Tariff.{TariffPackage, ServicePackage, StatsFreemin, StatsPackage}
use voipbill.Stats.Freemin
use voipbill.Stats.Ledger.{Ledger}
use voipbill.Billing.Repository.{Repository}
use voipbill.Billing.Monad.{Ctx}
use voipbill.Billing.Packages.{
  apply_free, tariff_free_seconds, setup_freemin, Choice, Round, next, stop, failed, consider,
  is_eligible, round, choose, setup_package_prepaid, freemin_of, apply_choice, packages_of,
}

positive :
    (billed p : ℤ) → eqb_ℤ billed (pos 0) ≡ false → pos 0 ≤ℤ p → p ≤ℤ billed → pos 0 <ℤ billed
positive billed p e z w = ground arith

or_false : (a b : Bool) → (a || b) ≡ false → a ≡ false
or_false false b e = refl
or_false true b e = cc

module _ {D : Type 0} ⦃d : Double D⦄ where
  -- No more than the leg is billed for, and no more than the package has left.
  abbrev pub Fits : (billed : ℤ) → Option (Choice D) → Type 0
  Fits billed none = Unit
  Fits billed (some b) =
      (pos 0 <ℤ b.seconds)
      × (b.seconds ≤ℤ billed)
      × (b.seconds +ℤ b.stats.used_seconds ≤ℤ b.stats.paid_seconds)

  abbrev RoundFits : (billed : ℤ) → Round D → Type 0
  RoundFits billed failed = Unit
  RoundFits billed (stop b l) = Fits billed (some b)
  RoundFits billed (next best l) = Fits billed best

  -- Where there is a result, that of its choice.
  abbrev pub ResultFits :
      (billed : ℤ) → Option (Option (Choice D) × Ledger (StatsPackage D)) → Type 0
  ResultFits billed none = Unit
  ResultFits billed (some (best, l)) = Fits billed best

  consider-Fits :
      (billed : ℤ) (pkg : ServicePackage) (tariff : TariffPackage) (best : Option (Choice D))
      (found : Option (StatsPackage D × Ledger (StatsPackage D)))
      → pos 0 <ℤ billed
      → Fits billed best
      → RoundFits billed (consider billed pkg tariff best found)
  consider-Fits billed pkg tariff best none b f = tt
  consider-Fits billed pkg tariff none (some (stats, l)) b f = ground arith
  consider-Fits billed pkg tariff (some best) (some (stats, l)) b f = ground arith

  module _ (r : Repository D) (c : Ctx D) (offset : ℤ) (b : pos 0 <ℤ c.call.billed_time) where
    round-Fits :
        (pkg : ServicePackage) (best : Option (Choice D)) (l : Ledger (StatsPackage D))
        → Fits c.call.billed_time best
        → RoundFits c.call.billed_time (round r c offset pkg best l)
    unfolding round
    round-Fits pkg best l f = elim (Option-cases (r.get_tariff_package pkg.tariff_package_id)) [
      | inl e ↦ rw (e, round) f
      | inr (tariff, e) ↦ elim (Bool-cases (is_eligible r c tariff)) [
        | inl g ↦ rw (e, round) (rw g (consider-Fits c.call.billed_time pkg tariff best _ b f))
        | inr g ↦ rw (e, round) (rw g f)
      ]
    ]

    after-Fits :
        (pkgs : List ServicePackage) (x : Round D) {chosen : Option (Choice D)}
        {l' : Ledger (StatsPackage D)}
        → RoundFits c.call.billed_time x
        → ((best : Option (Choice D)) (l : Ledger (StatsPackage D))
            → Fits c.call.billed_time best
            → choose r c offset pkgs best l ≡ some (chosen, l')
            → Fits c.call.billed_time chosen)
        → (elim x [
          | failed ↦ none
          | stop b l2 ↦ some (some b, l2)
          | next best l2 ↦ choose r c offset pkgs best l2
        ])
          ≡ some (chosen, l')
        → Fits c.call.billed_time chosen
    after-Fits pkgs (next best l2) f rec e = rec best l2 f e
    after-Fits pkgs (stop b2 l2) f rec e =
        subst (Fits c.call.billed_time)
          (ap (λ (p : Option (Choice D) × Ledger (StatsPackage D)). p.0) (some-injective _ _ e)) f
    after-Fits pkgs failed f rec e = cc

    choose-Fits :
        (pkgs : List ServicePackage) (best : Option (Choice D)) (l : Ledger (StatsPackage D))
        {chosen : Option (Choice D)} {l' : Ledger (StatsPackage D)}
        → Fits c.call.billed_time best
        → choose r c offset pkgs best l ≡ some (chosen, l')
        → Fits c.call.billed_time chosen
    unfolding choose
    choose-Fits [] best l f e =
        subst (Fits c.call.billed_time)
          (ap (λ (p : Option (Choice D) × Ledger (StatsPackage D)). p.0) (some-injective _ _ e)) f
    choose-Fits (pkg ∷ pkgs) best l f e =
        after-Fits pkgs (round r c offset pkg best l) (round-Fits pkg best l f)
          (λ b2 l2 f2 e2. choose-Fits pkgs b2 l2 f2 e2) e

    -- The package that the loop of `setupPackagePrepaid` chooses, for a leg that is billed for at
    -- least one second, gives at least one second, no more seconds than the leg is billed for, and
    -- no more than its counter has left.
    pub choose_fits :
        (pkgs : List ServicePackage) (l : Ledger (StatsPackage D))
        → ResultFits c.call.billed_time (choose r c offset pkgs none l)
    choose_fits pkgs l = elim (Option-cases (choose r c offset pkgs none l)) [
      | inl e ↦ rw e tt
      | inr ((best, l'), e) ↦ rw e (choose-Fits pkgs none l tt e)
    ]

  -- The seconds from packages are at least 0 and no more than the leg is billed for.
  abbrev pub IsWithin : Call D → Type 0
  IsWithin call = (pos 0 ≤ℤ call.package_time) × (call.package_time ≤ℤ call.billed_time)

  apply_free-IsWithin :
      (free : ℤ) (stats : StatsFreemin D) (call : Call D)
      → IsWithin call
      → IsWithin (apply_free free stats call)
  apply_free-IsWithin free stats call w = ground arith

  freemin_of-IsWithin :
      (c : Ctx D) (free : ℤ) → IsWithin c.call → IsWithin (freemin_of free c).1.call
  freemin_of-IsWithin c free w = elim (Bool-cases (leb_ℤ free (pos 0))) [
    | inl z ↦ rw z w
    | inr z ↦
        rw z
          (elim (Option-cases
            (Freemin.get_current c.call.number_service_id c.info.month c.freemin)) [
              | inl n ↦ rw n w
              | inr ((stats, l), n) ↦ rw n (apply_free-IsWithin free stats c.call w)
            ])
  ]

  -- `setupFreemin` keeps the seconds of the leg that come from packages between 0 and the seconds
  -- it is billed for, whichever way it returns.
  pub setup_freemin-IsWithin : (c : Ctx D) → IsWithin c.call → IsWithin (setup_freemin c).1.call
  unfolding setup_freemin
  setup_freemin-IsWithin c w =
      elim (Bool-cases (eqb_ℤ c.call.billed_time (pos 0) || not (is_local c.call))) [
        | inl s ↦ rw s w
        | inr s ↦ rw s (elim (Option-cases c.info.main_tariff) [
          | inl n ↦ rw n w
          | inr (t, n) ↦ rw n (elim (Option-cases (tariff_free_seconds t c.info.service_number)) [
            | inl m ↦ rw m w
            | inr (free, m) ↦ rw m (freemin_of-IsWithin c free w)
          ])
        ])
      ]

  chosen-IsWithin :
      (best : Option (Choice D)) (c : Ctx D)
      → IsWithin c.call
      → Fits c.call.billed_time best
      → IsWithin (apply_choice best c).call
  chosen-IsWithin none c w f = w
  chosen-IsWithin (some best) c w f = ground arith

  -- `setupPackagePrepaid` keeps the seconds of the leg that come from packages between 0 and the
  -- seconds it is billed for, whichever way it returns.
  pub setup_package_prepaid-IsWithin :
      (r : Repository D) (c : Ctx D) → IsWithin c.call → IsWithin (setup_package_prepaid r c).1.call
  unfolding setup_package_prepaid
  setup_package_prepaid-IsWithin r c w =
      elim (Bool-cases (eqb_ℤ c.call.billed_time (pos 0) || ltb 0 c.call.service_package_id)) [
        | inl s ↦ rw s w
        | inr s ↦ rw s (elim (Option-cases (packages_of r c.info)) [
          | inl n ↦ rw n w
          | inr (pkgs, n) ↦ rw n (elim (Option-cases c.info.account) [
            | inl m ↦ rw m w
            | inr (account, m) ↦
                rw m
                  (elim (Option-cases (choose r c account.timezone_offset pkgs none c.packages)) [
                    | inl k ↦ rw k w
                    | inr ((best, l), k) ↦ rw k (
                        chosen-IsWithin best (record c { packages = l }) w
                          (choose-Fits r c account.timezone_offset
                            (positive c.call.billed_time c.call.package_time (or_false _ _ s) (w.0)
                              (w.1))
                            pkgs none c.packages tt k))
                  ])
          ])
        ])
      ]
