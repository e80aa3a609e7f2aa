-- ===== src/Billing/Packages/FreeSeconds.antt =====
-- What `setupFreemin` takes from the counter of the month, `StatsFreeminManager::add` charges.
use voipbill.Prelude.{
  ◌≡◌, ◌⊎◌, inl, inr, refl, false, not, ◌||◌, some, arith, ℤ, pos, ◌-ℤ◌, ◌≤ℤ◌, eqb_ℤ, ltb_ℤ, leb_ℤ,
  Bool-cases, ◌==◌,
}
use voipbill.Models.Double.{Double}
use voipbill.Models.Call.{Call, is_local}
use voipbill.Models.Tariff.{Tariff, StatsFreemin}
use voipbill.Map.{lookup, lookup-insert_self}
use voipbill.Stats.Freemin
use voipbill.Stats.Usage.{FreeminIsValid}
use voipbill.Stats.Ledger.{Ledger}
use voipbill.Stats.Ledger.Laws.{get_current_lem, charge-some}
use voipbill.Billing.Monad.{Ctx, done}
use voipbill.Billing.Packages.{apply_free, clamp, tariff_free_seconds, setup_freemin, freemin_of}

module _ {D : Type 0} ⦃d : Double D⦄ where
  -- Of the leg `call` and the counters `l` before it is added: it uses no free seconds, or the
  -- counter that it is added to has used at most `free` seconds with it.
  abbrev pub Kept : (free : ℤ) → Call D → Ledger (StatsFreemin D) → Type 0
  Kept free call l =
      (l' : Ledger (StatsFreemin D)) × (Freemin.add call l ≡ some l')
      × FreeminIsValid l'
      × (((call.service_package_id == 1) ≡ false)
          ⊎ ((s : StatsFreemin D) × (lookup call.service_package_stats_id l'.stats ≡ some s)
              × (s.used_seconds ≤ℤ free)))

  unused-Kept :
      (free : ℤ) (call : Call D) (l : Ledger (StatsFreemin D))
      → FreeminIsValid l
      → (call.service_package_id == 1) ≡ false
      → Kept free call l
  unfolding Freemin.add
  unused-Kept free call l v e = (l, ground arith, v, inl e)

  used-Kept :
      (free : ℤ) (call : Call D) (l : Ledger (StatsFreemin D)) (s : StatsFreemin D)
      → FreeminIsValid l
      → lookup call.service_package_stats_id l.stats ≡ some s
      → pos 0 ≤ℤ call.package_time
      → call.package_time ≤ℤ free -ℤ s.used_seconds
      → Kept free call l
  unfolding Freemin.add
  used-Kept free call l s v m z h = elim (Bool-cases (Freemin.is_skipped call)) [
    | inl k ↦ (l, rw k, v, inr (s, m, ground arith))
    | inr k ↦
        let (l', e, v', stats, _) =
          charge-some (λ s. s.id) (λ s. s.service_number_id) call.service_package_stats_id
            (Freemin.use_freemin call) l v (λ s. (refl, refl)) s m in
        (
          l',
          rw k e,
          v',
          inr (Freemin.use_freemin call s, rw stats (lookup-insert_self _ _ _), ground arith),
        )
  ]

  apply_free-Kept :
      (free : ℤ) (call : Call D) (l : Ledger (StatsFreemin D)) (s : StatsFreemin D)
      → FreeminIsValid l
      → lookup s.id l.stats ≡ some s
      → (call.service_package_id == 1) ≡ false
      → Kept free (apply_free free s call) l
  apply_free-Kept free call l s v m e =
      elim (Bool-cases (ltb_ℤ (pos 0) (clamp (free -ℤ s.used_seconds) call.billed_time))) [
        | inl p ↦ rw p (used-Kept free _ l s v m (ground arith) (ground arith))
        | inr p ↦ rw p (unused-Kept free call l v e)
      ]

  freemin_of-Kept :
      (c : Ctx D) (free : ℤ)
      → FreeminIsValid c.freemin
      → (c.call.service_package_id == 1) ≡ false
      → (c' : Ctx D) × (freemin_of free c ≡ (done tt, c')) × Kept free c'.call c'.freemin
  unfolding Freemin.get_current
  freemin_of-Kept c free v e = elim (Bool-cases (leb_ℤ free (pos 0))) [
    | inl z ↦ (c, rw z, unused-Kept free c.call c.freemin v e)
    | inr z ↦
        let (s, l, g, v', _, _, m, _) =
          get_current_lem (λ s. s.id) (λ s. s.service_number_id) (Freemin.is_of_month c.info.month)
            c.call.number_service_id
            (Freemin.create_stats_freemin c.call.number_service_id c.info.month) c.freemin v
            (λ i. (refl, refl, ground arith)) in
        (
          record c { freemin = l; call = apply_free free s c.call },
          rw (z, g),
          apply_free-Kept free c.call l s v' m e,
        )
  ]

  -- For a leg that has no free seconds yet, with a valid ledger of counters, a main tariff and
  -- what its free seconds are, `setupFreemin` returns. The leg can then be added to the counters,
  -- which stay valid, and either it uses no free seconds, or the counter that it names has with it
  -- used at most the free seconds of the tariff.
  pub setup_freemin-Kept :
      (c : Ctx D) (t : Tariff) (free : ℤ)
      → FreeminIsValid c.freemin
      → (c.call.service_package_id == 1) ≡ false
      → c.info.main_tariff ≡ some t
      → tariff_free_seconds t c.info.service_number ≡ some free
      → (c' : Ctx D) × (setup_freemin c ≡ (done tt, c')) × Kept free c'.call c'.freemin
  unfolding setup_freemin
  setup_freemin-Kept c t free v e m n =
      elim (Bool-cases (eqb_ℤ c.call.billed_time (pos 0) || not (is_local c.call))) [
        | inl s ↦ (c, rw s, unused-Kept free c.call c.freemin v e)
        | inr s ↦ rw (s, m, n) (freemin_of-Kept c free v e)
      ]
