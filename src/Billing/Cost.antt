-- ===== src/Billing/Cost.antt =====
-- Billed time, interconnect, cost and the VAT flag: `setupBilledTime`, `setupBilledTimeNNP`,
-- `setupInterconnect`, `setupNNPInterconnect`, `setupCost` and `setVatFlag` of
-- src-bill/classes/BillingCall.cpp, `setupNNPCost` of BillingCall_nnp.cpp.
use voipbill.Prelude.{
  ℕ, ◌==◌, not, ◌&&◌, Bool, false, Option, none, some, if◌then◌else◌, ℤ, pos, ◌-ℤ◌, ltb_ℤ, eqb_ℤ,
}
use voipbill.Models.Double.{Double, nought, gt}
use voipbill.Models.Call.{Cdr, Call}
use voipbill.Models.Tariff.{Tariff, Pricelist, NnpPackage, NnpPackagePrice, NnpPackagePricelist}
use voipbill.Billing.Repository.{Repository}
use voipbill.Billing.Length.{call_length, call_length_nnp}
use voipbill.Billing.Monad.{CallInfo, Ctx, done, fault, M, set_call}

-- Of `callInfo->nnpPackage`.
abbrev vat_of_package : Option NnpPackage → Bool
vat_of_package none = false
vat_of_package (some p) = p.is_include_vat

module _ {D : Type 0} ⦃d : Double D⦄ where
  -- `seconds * rate / 60.0`.
  abbrev pub per_minute : ℤ → D → D
  per_minute seconds rate = d.div (d.mul (d.of_int seconds) rate) (d.of_int (pos 60))

  -- The originating client pays, so that leg's amounts are negative.
  abbrev pub signed : Bool → D → D
  signed orig x = if orig then d.neg x else x

  unfoldable pub costed : Call D → Call D
  costed call =
      let paid_time = call.billed_time -ℤ call.package_time in
      record call {
        cost =
            if ltb_ℤ (pos 0) paid_time
            then signed call.orig (per_minute paid_time call.rate)
            else nought;
        package_credit =
            if ltb_ℤ (pos 0) call.billed_time
            then signed call.orig (per_minute call.package_time call.rate)
            else nought;
      }

  -- `setupCost` and `setupNNPCost` have the same text but for the trace.
  unfoldable pub setup_cost : M D (Unit {0})
  unfolding costed
  setup_cost = set_call costed

  unfoldable pub setup_nnp_cost : M D (Unit {0})
  unfolding costed
  setup_nnp_cost = set_call costed

  abbrev interconnected : D → Call D → Call D
  interconnected rate call = record call {
    interconnect_rate = rate;
    interconnect_cost = per_minute call.billed_time rate;
  }

  abbrev zona_interconnect : Pricelist D → Call D → Call D
  zona_interconnect p call =
      if gt p.initiate_zona_cost d.tiny && eqb_ℤ call.destination_id (pos 0)
      then interconnected p.initiate_zona_cost call
      else call

  abbrev mgmn_interconnect : Pricelist D → Call D → Call D
  mgmn_interconnect p call =
      if gt p.initiate_mgmn_cost d.tiny && ltb_ℤ (pos 0) call.destination_id
      then interconnected p.initiate_mgmn_cost call
      else call

  -- The two tests of a price list, on the zone and on the distance of the call.
  unfoldable pub interconnect : Pricelist D → Call D → Call D
  interconnect p call = mgmn_interconnect p (zona_interconnect p call)

  unfoldable pub setup_interconnect : M D (Unit {0})
  unfolding interconnect
  setup_interconnect c = if c.call.orig then (done tt, c) else elim c.info.pricelist [
    | none ↦ (fault, c)
    | some p ↦ (done tt, record c { call = interconnect p c.call })
  ]

  abbrev by_package_price : Option (NnpPackagePrice D) → Call D → Call D
  by_package_price none call = call
  by_package_price (some p) call =
      if gt p.interconnect_price d.tiny then interconnected p.interconnect_price call else call

  abbrev by_package_pricelist : Repository D → Option NnpPackagePricelist → Call D → Call D
  by_package_pricelist r none call = call
  by_package_pricelist r (some p) call = elim (r.get_pricelist p.pricelist_id) [
    | none ↦ call
    | some pricelist ↦ interconnect pricelist call
  ]

  unfoldable pub setup_nnp_interconnect : Repository D → M D (Unit {0})
  unfolding interconnect
  setup_nnp_interconnect r c = if c.call.orig then (done tt, c) else (
    done tt,
    record c {
      call =
          by_package_pricelist r c.info.nnp_package_pricelist
            (by_package_price c.info.nnp_package_price c.call);
    },
  )

  abbrev tariff_length : Repository D → Cdr → Tariff → ℕ
  tariff_length r cdr t =
      call_length r.billing_free_seconds cdr.session_time t.tariffication_by_minutes
        t.tariffication_full_first_minute t.tariffication_free_first_seconds

  abbrev pricelist_length : Repository D → Cdr → Pricelist D → ℕ
  pricelist_length r cdr p =
      call_length r.billing_free_seconds cdr.session_time p.tariffication_by_minutes
        p.tariffication_full_first_minute false

  abbrev bill : ℤ → Ctx D → Ctx D
  bill seconds c = record c { call = record (c.call) { billed_time = seconds } }

  unfoldable pub setup_billed_time : Repository D → Cdr → M D (Unit {0})
  setup_billed_time r cdr c = elim c.info.service_number [
    | some number ↦ elim c.info.main_tariff [
      | none ↦ (fault, c)
      | some t ↦ (done tt, bill (pos (tariff_length r cdr t)) c)
    ]
    | none ↦ elim c.info.pricelist [
      | none ↦ (fault, c)
      | some p ↦ (done tt, bill (pos (pricelist_length r cdr p)) c)
    ]
  ]

  unfoldable pub setup_billed_time_nnp : Cdr → Option NnpPackage → M D (Unit {0})
  setup_billed_time_nnp cdr none c = (fault, c)
  setup_billed_time_nnp cdr (some p) c = (
    done tt,
    bill
        (call_length_nnp cdr.session_time p.tarification_free_seconds
          p.tarification_interval_seconds p.tarification_type p.tarification_min_paid_seconds)
        c,
  )

  abbrev vat_of_pricelist : Option (Pricelist D) → Bool → Bool
  vat_of_pricelist none old = old
  vat_of_pricelist (some p) old = p.price_include_vat

  abbrev vat_of_package_pricelist : Repository D → Option NnpPackagePricelist → Bool → Bool
  vat_of_package_pricelist r none old = old
  vat_of_package_pricelist r (some p) old = vat_of_pricelist (r.get_pricelist p.pricelist_id) old

  unfoldable pub set_vat_flag : Repository D → CallInfo D → Call D → Call D
  set_vat_flag r info call =
      if call.account_version == 4
      then record call { price_includes_vat = vat_of_pricelist info.pricelist false }
      else if not (call.account_version == 5)
      then call
      else if not (call.nnp_package_price_id == 0)
      then record call { price_includes_vat = vat_of_package info.nnp_package }
      else if not (call.nnp_package_pricelist_id == 0)
      then record call {
        price_includes_vat =
            vat_of_package_pricelist r info.nnp_package_pricelist call.price_includes_vat;
      }
      else call
