-- ===== src/Billing/Packages/Examples.antt =====
-- The limits at a concrete local call.
use voipbill.Prelude.{some, true, ℤ, ◌==◌, false, [], ◌∷◌, pos, none, arith}
use voipbill.Models.Call.{of_cdr}
use voipbill.Prelude.{◌≡◌, refl}
use voipbill.Billing.Monad.{Ctx, done}
use voipbill.Billing.Packages.{tariff_free_seconds}
use voipbill.Billing.Packages.FreeSeconds.{Kept, setup_freemin-Kept}
use voipbill.Stats.Ledger.Laws.{empty-IsValid}
use voipbill.Samples.{
  sample_tariff, sample_number, units, sample_ctx, sample_repository, sample_package,
}
use voipbill.Billing.Packages.{choose, setup_freemin, setup_package_prepaid}
use voipbill.Billing.Packages.Limits.{
  IsWithin, ResultFits, choose_fits, setup_freemin-IsWithin, setup_package_prepaid-IsWithin,
}

sample-IsWithin : IsWithin ⦃d = units⦄ sample_ctx.call
unfolding of_cdr
sample-IsWithin = (omega arith, omega arith)

choose_fits_example : ResultFits ⦃d = units⦄ (pos 120) (
    choose ⦃d = units⦄ sample_repository sample_ctx
      (pos 0)
      (sample_package ∷ [])
      none
      sample_ctx.packages)
choose_fits_example =
    choose_fits ⦃d = units⦄ sample_repository sample_ctx (pos 0) (omega arith) (sample_package ∷ [])
      sample_ctx.packages

setup_freemin-IsWithin_example : IsWithin ⦃d = units⦄ (setup_freemin ⦃d = units⦄ sample_ctx).1.call
setup_freemin-IsWithin_example = setup_freemin-IsWithin ⦃d = units⦄ sample_ctx sample-IsWithin

setup_package_prepaid-IsWithin_example :
    IsWithin ⦃d = units⦄ (setup_package_prepaid ⦃d = units⦄ sample_repository sample_ctx).1.call
setup_package_prepaid-IsWithin_example =
    setup_package_prepaid-IsWithin ⦃d = units⦄ sample_repository sample_ctx sample-IsWithin

sample_unused : (sample_ctx.call.service_package_id == 1) ≡ false
unfolding of_cdr
sample_unused = refl

sample_free : tariff_free_seconds sample_tariff (some sample_number) ≡ some (pos 180)
unfolding tariff_free_seconds
sample_free = refl

setup_freemin-Kept_example :
    (c' : Ctx ℤ) × (setup_freemin ⦃d = units⦄ sample_ctx ≡ (done tt, c'))
    × Kept ⦃d = units⦄ (pos 180) c'.call c'.freemin
setup_freemin-Kept_example =
    setup_freemin-Kept ⦃d = units⦄ sample_ctx sample_tariff (pos 180)
      (empty-IsValid (λ s. s.id) (λ s. s.service_number_id) true) sample_unused refl sample_free
