-- ===== src/Billing/Calc.antt =====
-- `BillingCall::calc` of src-bill/classes/BillingCall.cpp and the methods that it is made of:
-- `calcByTrunk`, `calcByNumber`, `calcOrigByNumber` and `calcTermByNumber`. Tracing is off.
use voipbill.Prelude.{
  ℕ, ◌==◌, Bool, true, false, not, ◌&&◌, ◌||◌, Option, none, some, [], any, if◌then◌else◌, pos,
  eqb_ℤ,
}
use voipbill.Text.{atoll, str_eqb}
use voipbill.Models.Double.{Double}
use voipbill.Models.Call.{Cdr}
use voipbill.Models.Trunk.{Server}
use voipbill.Billing.Repository.{Repository, MegaTrunk}
use voipbill.Billing.Numbers.{
  line_number, number_preprocessing, process_redirect_number, process_geo, process_destinations,
  is_usage_7800,
}
use voipbill.Billing.Cost.{
  setup_cost, setup_nnp_cost, setup_interconnect, setup_nnp_interconnect, setup_billed_time,
  setup_billed_time_nnp, set_vat_flag,
}
use voipbill.Billing.Packages.{setup_package_pricelist, setup_freemin, setup_package_prepaid}
use voipbill.Billing.Setup.{
  setup_trunk, setup_effective_orig_trunk_settings, setup_effective_term_trunk_settings,
  setup_service_trunk, setup_service_number, setup_service_trunk_for_number, setup_account,
  setup_pricelist, setup_price, setup_log_tariff, setup_main_tariff, setup_tariff,
}
use voipbill.Billing.Nnp.{process_nnp, calc_orig_nnp_by_number}
use voipbill.Billing.Monad.{
  Ctx, unknown_account_version, Outcome, done, thrown, fault, M, ◌>>=◌, ◌>>◌, get, throw, deref,
  set_call, set_info, when,
}

-- The signalling id of the side of the leg, on a trunk of ours.
pub process_signaling_call_id : {D : Type 0} → Cdr → M D (Unit {0})
process_signaling_call_id cdr c = elim c.info.trunk [
  | none ↦ (done tt, c)
  | some trunk ↦
      if trunk.our_trunk
      then (
        done tt,
        record c {
          call = record (c.call) {
            signalling_call_id = if c.call.orig then cdr.in_sig_call_id else cdr.out_sig_call_id;
          };
        },
      )
      else (done tt, c)
]

abbrev force_by_number : (orig : Bool) → Option MegaTrunk → Bool
force_by_number orig none = false
force_by_number orig (some m) =
    if orig then m.is_force_org_auth_by_number else m.is_force_term_auth_by_number

abbrev skip_tariffication : Option MegaTrunk → Bool
skip_tariffication none = false
skip_tariffication (some m) = m.is_force_orig_tariffication_skip

module _ {D : Type 0} ⦃d : Double D⦄ (r : Repository D) where
  abbrev by_trunk_4 : Cdr → Bool → M D (Unit {0})
  by_trunk_4 cdr orig = do
    when orig (setup_package_pricelist r)
    setup_pricelist r 0
    setup_price r (pos 0)
    setup_billed_time r cdr
    when orig (setup_package_prepaid r)
    setup_interconnect
    setup_cost

  abbrev by_trunk_5 : Cdr → M D (Unit {0})
  by_trunk_5 cdr = do
    c ← get
    setup_billed_time_nnp cdr c.info.nnp_package
    setup_nnp_interconnect r
    setup_nnp_cost

  abbrev by_version : (four five : M D (Unit {0})) → ℕ → M D (Unit {0})
  by_version four five version =
      if version == 4 then four else if version == 5 then five else throw unknown_account_version

  pub calc_by_trunk : Cdr → M D (Unit {0})
  calc_by_trunk cdr = do
    b ← get
    if b.call.orig
        then setup_effective_orig_trunk_settings r
        else setup_effective_term_trunk_settings r cdr
    setup_service_trunk r
    setup_account r
    c ← get
    by_version (by_trunk_4 cdr c.call.orig) (by_trunk_5 cdr) c.call.account_version

  -- With no package the price list is that of the tariff, and the price that of the number.
  abbrev price_orig : M D (Unit {0})
  price_orig = do
    c ← get
    elim c.info.service_package_pricelist [
      | none ↦ do
        setup_tariff r
        t ← get
        tariff ← deref t.info.tariff
        setup_pricelist r tariff.pricelist_id
        setup_price r c.call.dst_number
      | some pkg ↦ do setup_pricelist r 0; setup_price r (pos 0)
    ]

  abbrev orig_by_number_4 : Cdr → M D (Unit {0})
  orig_by_number_4 cdr = do
    setup_log_tariff r
    setup_main_tariff r
    setup_billed_time r cdr
    setup_package_pricelist r
    price_orig
    setup_freemin
    setup_package_prepaid r
    setup_cost

  pub calc_orig_by_number : Cdr → M D (Unit {0})
  calc_orig_by_number cdr = do
    c ← get
    by_version (orig_by_number_4 cdr) (calc_orig_nnp_by_number r cdr) c.call.account_version

  -- The owner of a number 7800 pays for the calls to it.
  abbrev bill_7800 : M D (Unit {0})
  bill_7800 = do
    c ← get
    tariff ← deref c.info.main_tariff
    setup_pricelist r tariff.pricelist_id
    setup_price r c.call.src_number
    setup_cost
    set_call (λ l. record l { cost = d.neg l.cost })

  pub calc_term_by_number : Cdr → M D (Unit {0})
  calc_term_by_number cdr = do
    setup_log_tariff r
    setup_main_tariff r
    setup_billed_time r cdr
    c ← get
    when (is_usage_7800 c.call) bill_7800

  -- The call was sent on to a service number of the server.
  abbrev is_to_service : Cdr → Server → Bool
  is_to_service cdr server =
      not (str_eqb cdr.dst_replace [])
      && any (λ s. str_eqb s cdr.dst_replace) server.service_numbers

  abbrev number_leg : Cdr → Bool → M D (Unit {0})
  number_leg cdr tariffication_skip = do
    c ← get
    server ← deref c.info.server
    if c.call.orig
        then if is_to_service cdr server
          then set_call (λ l. record l { is_service_number = true })
          else when (not tariffication_skip) (calc_orig_by_number cdr)
        else calc_term_by_number cdr

  pub calc_by_number : Cdr → Bool → M D (Unit {0})
  calc_by_number cdr tariffication_skip = do
    b ← get
    when (b.call.orig && eqb_ℤ (atoll cdr.redirect_number) (pos 0))
        (set_call (λ l. record l { src_number = line_number cdr.src_number }))
    setup_service_number r
    setup_service_trunk_for_number r
    setup_account r
    number_leg cdr tariffication_skip

  abbrev orig_numbers : (rules : ℕ) → Cdr → M D (Unit {0})
  orig_numbers rules cdr = do number_preprocessing r rules cdr; process_redirect_number r cdr

  -- The body of the `try`. `rules` bounds the number of preprocessing rules of a trunk.
  pub calc_steps : (rules : ℕ) → Option MegaTrunk → Cdr → M D (Unit {0})
  calc_steps rules mega cdr = do
    setup_trunk r cdr
    process_signaling_call_id cdr
    b ← get
    when b.call.orig (orig_numbers rules cdr)
    process_geo r
    process_destinations r
    process_nnp r
    set_info (λ i. record i { call_incoming_from_megatrunk = force_by_number b.call.orig mega })
    c ← get
    trunk ← deref c.info.trunk
    if trunk.auth_by_number || c.info.call_incoming_from_megatrunk
        then calc_by_number cdr (skip_tariffication mega)
        else calc_by_trunk cdr
    e ← get
    set_call (set_vat_flag r e.info)

  -- A `CalcException` ends the calculation with what was found so far; `none` is a fault.
  abbrev caught : Outcome (Unit {0}) × Ctx D → Option (Ctx D)
  caught (done _, c) = some c
  caught (thrown e, c) = some c
  caught (fault, c) = none

  pub calc : (rules : ℕ) → Option MegaTrunk → Cdr → Ctx D → Option (Ctx D)
  calc rules mega cdr c = caught (calc_steps rules mega cdr c)
