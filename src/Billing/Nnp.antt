-- ===== src/Billing/Nnp.antt =====
-- `processNNP` and `calcOrigNNPByNumber` of src-bill/classes/BillingCall_nnp.cpp.
use voipbill.Prelude.{ℕ, ◌==◌, Option, none, some, List, [], ◌∷◌, if◌then◌else◌, ℤ, pos, ltb_ℤ}
use voipbill.Models.Double.{Double, nought}
use voipbill.Models.Call.{Cdr, Call}
use voipbill.Models.Tariff.{
  NnpPackagePrice, NnpPackagePricelist, NnpPackageMinute, NnpAccountTariffLight,
}
use voipbill.Models.Trunk.{NnpNumberRange}
use voipbill.Stats.Minute
use voipbill.Billing.Repository.{Repository}
use voipbill.Billing.Packages.{clamp}
use voipbill.Billing.Numbers.{get_number}
use voipbill.Billing.Cost.{setup_billed_time_nnp, setup_nnp_cost}
use voipbill.Billing.Monad.{
  Ctx, nnp_service_number_not_found, account_tariff_light_not_found, nnp_package_not_found, done,
  fault, M, ◌>>=◌, ◌>>◌, skip, get, throw, deref, required, set_call, when,
}

module _ {D : Type 0} (r : Repository D) where
  -- A range with no country takes that of the number. The code also keeps it in the shared table.
  abbrev with_country : ℤ → NnpNumberRange → NnpNumberRange
  with_country number range =
      if range.country_prefix == 0
      then record range {
        country_prefix = (r.get_nnp_country_prefix number).0;
        country_code = (r.get_nnp_country_prefix number).1;
      }
      else range

  abbrev with_code : NnpNumberRange → NnpNumberRange
  with_code range =
      if range.country_code == 0
      then record range { country_code = r.get_nnp_country_code range.country_prefix }
      else range

  abbrev mark_unknown : ℤ → Ctx D → Ctx D
  mark_unknown number c =
      let (prefix, code) = r.get_nnp_country_prefix number in
      record c {
        call = record (c.call) {
          nnp = record (c.call.nnp) { country_prefix = prefix; country_code = code };
        };
      }

  abbrev mark_range : NnpNumberRange → Ctx D → Ctx D
  mark_range range c = record c {
    info = record (c.info) { nnp_number_range = some range };
    call = record (c.call) {
      nnp = record {
        operator_id = range.nnp_operator_id;
        region_id = range.nnp_region_id;
        city_id = range.nnp_city_id;
        country_prefix = range.country_prefix;
        country_code = range.country_code;
        ndc = range.ndc;
        is_mob = range.is_mob;
        number_range_id = range.id;
      };
    };
  }

  unfoldable pub process_nnp : M D (Unit {0})
  unfolding get_number
  process_nnp c = elim (r.get_nnp_number_range (get_number c.call)) [
    | none ↦ (done tt, mark_unknown (get_number c.call) c)
    | some range ↦ (done tt, mark_range (with_code (with_country (get_number c.call) range)) c)
  ]

-- The first tariff of the account with the id.
abbrev light_of : (nnp_tariff_id : ℕ) → List NnpAccountTariffLight → Option NnpAccountTariffLight
light_of id [] = none
light_of id (light ∷ lights) = if light.nnp_tariff_id == id then some light else light_of id lights

module _ {D : Type 0} ⦃d : Double D⦄ where
  abbrev by_price : D × NnpPackagePrice D → Call D → Call D
  by_price (rate, p) call = record call {
    rate = rate;
    nnp_package_price_id = p.id;
    nnp_package_id = p.nnp_tariff_id;
  }

  abbrev by_pricelist : D × NnpPackagePricelist → Call D → Call D
  by_pricelist (rate, p) call = record call {
    rate = rate;
    nnp_package_pricelist_id = p.id;
    nnp_package_id = p.nnp_tariff_id;
  }

  -- The cheaper of the two; at the same price, the package with a price.
  unfoldable pub choose_rate :
      Option (D × NnpPackagePrice D) → Option (D × NnpPackagePricelist) → Call D → Call D
  choose_rate (some (a, p)) (some (b, q)) call =
      if d.le (d.abs a) (d.abs b) then by_price (a, p) call else by_pricelist (b, q) call
  choose_rate (some a) none call = by_price a call
  choose_rate none (some b) call = by_pricelist b call
  choose_rate none none call = record call {
    rate = nought;
    nnp_package_pricelist_id = 0;
    nnp_package_id = 0;
  }

  abbrev count_minutes : Cdr → NnpPackageMinute D → Option NnpAccountTariffLight → M D (Unit {0})
  count_minutes cdr p none c = (done tt, c)
  count_minutes cdr p (some light) c =
      elim (Minute.get_current cdr.connect_time p light c.minutes) [
        | none ↦ (fault, c)
        | some (stats, l) ↦ (
          done tt,
          record c {
            minutes = l;
            call = record (c.call) { stats_nnp_package_minute_id = stats.id };
          },
        )
      ]

  abbrev use_minutes :
      Repository D
      → Cdr
      → List NnpAccountTariffLight
      → NnpPackageMinute D
      → (available : ℤ) → M D (Unit {0})
  use_minutes r cdr lights p available = when (ltb_ℤ (pos 0) available) (do
    set_call (λ l. record l {
      nnp_package_minute_id = p.id;
      nnp_package_id = p.nnp_tariff_id;
      package_time = available;
    })
    minute ← deref (r.get_nnp_package_minute p.id)
    count_minutes cdr minute (light_of minute.nnp_tariff_id lights))

  abbrev bill_package : Repository D → Cdr → (nnp_package_id : ℕ) → M D (Unit {0})
  bill_package r cdr id = do
    pkg ← required nnp_package_not_found (r.get_nnp_package id)
    setup_billed_time_nnp cdr (some pkg)

  abbrev without_minutes : Repository D → Cdr → M D (Unit {0})
  without_minutes r cdr = do c ← get; bill_package r cdr c.call.nnp_package_id

  abbrev with_minutes :
      Repository D
      → Cdr
      → List NnpAccountTariffLight
      → Option (ℤ × NnpPackageMinute D)
      → M D (Unit {0})
  with_minutes r cdr lights none = without_minutes r cdr
  with_minutes r cdr lights (some (seconds, p)) = if p.id == 0 then without_minutes r cdr else do
    bill_package r cdr p.nnp_tariff_id
    c ← get
    use_minutes r cdr lights p (clamp seconds c.call.billed_time)

  abbrev check_lights : List NnpAccountTariffLight → M D (Unit {0})
  check_lights [] = throw account_tariff_light_not_found
  check_lights (light ∷ lights) = skip

  unfoldable pub calc_orig_nnp_by_number : Repository D → Cdr → M D (Unit {0})
  unfolding choose_rate setup_billed_time_nnp setup_nnp_cost
  calc_orig_nnp_by_number r cdr = do
    c ← get
    n ← required nnp_service_number_not_found c.info.service_number
    let lights = r.get_active_nnp_account_tariff_light c.call.account_id c.call.connect_time n.id
    check_lights lights
    let destinations = r.get_nnp_destinations (r.get_nnp_number_range c.call.dst_number)
    set_call (
        choose_rate (r.best_package_price lights destinations)
          (r.best_package_pricelist lights c.call.dst_number))
    set_call (λ l. record l { package_time = pos 0 })
    with_minutes r cdr lights (r.best_package_minute lights destinations)
    setup_nnp_cost
