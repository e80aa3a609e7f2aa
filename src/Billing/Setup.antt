-- ===== src/Billing/Setup.antt =====
-- What is looked up for a leg: the other `setup…` methods of src-bill/classes/BillingCall.cpp.
use voipbill.Prelude.{
  ℕ, ◌==◌, Bool, false, not, ◌||◌, Option, none, some, head?, if◌then◌else◌, ℤ, pos, eqb_ℤ,
}
use voipbill.Text.{atoll}
use voipbill.Time.{get_tday, get_tmonth}
use voipbill.Models.Call.{
  Cdr, Call, is_local, is_zona_mob, is_zona_std, is_russian_mob, is_russian_std, is_international,
}
use voipbill.Models.Tariff.{TariffChangeLog}
use mathlib.Core.Option
use voipbill.Models.Trunk.{
  Trunk, ServiceNumber, ServiceTrunk, ServiceTrunkSettings, Client, ServiceTrunkOrder,
}
use voipbill.Billing.Repository.{Repository}
use voipbill.Billing.Numbers.{get_number, get_route}
use voipbill.Billing.Monad.{
  CallInfo, trunk_not_found, server_not_found, instance_settings_not_found, orig_trunk_not_found,
  service_trunk_not_found, service_number_not_found, service_number_account_differs,
  account_not_found, pricelist_not_found, price_not_found, tariff_change_log_not_found,
  tariff_not_found, M, ◌>>=◌, ◌>>◌, skip, throw, get, when, deref, required, set_call, set_info,
}

-- The tariff of the log for the type of the call.
pub tariff_id_for : {D : Type 0} → TariffChangeLog → Call D → ℕ
unfolding is_local is_zona_mob is_zona_std is_russian_mob is_russian_std is_international
tariff_id_for log call =
    if is_local call
    then log.tariff_id_local
    else if is_zona_mob call
    then log.tariff_id_local_mob
    else if is_zona_std call
    then log.tariff_id_russia
    else if is_russian_std call
    then log.tariff_id_russia
    else if is_russian_mob call
    then log.tariff_id_russia_mob
    else if is_international call
    then log.tariff_id_intern
    else 0

abbrev keep_id : {A : Type 0} → (A → ℕ) → Option A → ℕ → ℕ
keep_id id none old = old
keep_id id (some a) old = id a

module _ {D : Type 0} (r : Repository D) where
  unfoldable pub setup_trunk : Cdr → M D (Unit {0})
  unfolding get_route
  setup_trunk cdr = do
    c ← get
    let trunk = r.get_trunk_by_name (get_route c.call cdr) r.orig_region
    set_info (λ i. record i { trunk = trunk })
    set_call (λ l. record l { server_id = r.instance_id })
    t ← required trunk_not_found trunk
    set_call (λ l. record l { trunk_id = t.id; our = t.our_trunk || t.auth_by_number })
    let server = r.get_server t.server_id
    set_info (λ i. record i { server = server })
    s ← required server_not_found server
    set_call (λ l. record l { server_id = s.id })
    let settings = r.get_instance_settings t.server_id
    set_info (λ i. record i { instance_settings = settings })
    _ ← required instance_settings_not_found settings
    skip

  -- What both legs take from the first order, and with an account of version 5 also its package.
  abbrev take_order : ServiceTrunkOrder D → CallInfo D → CallInfo D
  take_order o i = record i {
    account = o.account;
    service_trunk = o.service_trunk;
    trunk_settings_id = Option.map (λ (s : ServiceTrunkSettings D). s.id) o.trunk_settings;
    pricelist = o.pricelist;
    price = o.price;
  }

  abbrev take_package : ServiceTrunkOrder D → CallInfo D → CallInfo D
  take_package o i = record i {
    nnp_package = o.nnp_package;
    nnp_package_price = o.nnp_package_price;
    nnp_package_pricelist = o.nnp_package_pricelist;
  }

  abbrev mark_package : ServiceTrunkOrder D → Call D → Call D
  mark_package o l = record l {
    nnp_package_price_id = keep_id (λ p. p.id) o.nnp_package_price l.nnp_package_price_id;
    nnp_package_pricelist_id =
        keep_id (λ p. p.id) o.nnp_package_pricelist l.nnp_package_pricelist_id;
    nnp_package_id = keep_id (λ p. p.id) o.nnp_package l.nnp_package_id;
    rate = o.nnp_price;
  }

  abbrev is_version_5 : Option (Client D) → Bool
  is_version_5 none = false
  is_version_5 (some a) = a.account_version == 5

  abbrev take_version_5 : ServiceTrunkOrder D → M D (Unit {0})
  take_version_5 o =
      when (is_version_5 o.account) (do set_info (take_package o); set_call (mark_package o))

  abbrev orig_order : Option (ServiceTrunkOrder D) → M D (Unit {0})
  orig_order none = skip
  orig_order (some o) = do set_info (take_order o); take_version_5 o

  unfoldable pub setup_effective_orig_trunk_settings : M D (Unit {0})
  setup_effective_orig_trunk_settings = do
    c ← get
    trunk ← deref c.info.trunk
    orig_order (head? (r.orig_orders trunk c.call.src_number c.call.dst_number))

  abbrev term_order : Option (ServiceTrunkOrder D) → M D (Unit {0})
  term_order none = skip
  term_order (some o) = do
    set_info (take_order o)
    stats ← deref o.stats_trunk_settings
    set_call (λ l. record l { trunk_settings_stats_id = stats.id })
    take_version_5 o

  unfoldable pub setup_effective_term_trunk_settings : Cdr → M D (Unit {0})
  setup_effective_term_trunk_settings cdr = do
    c ← get
    trunk ← deref c.info.trunk
    orig ← required orig_trunk_not_found (r.get_trunk_by_name cdr.src_route r.orig_region)
    term_order (
        head? (
          r.term_orders trunk c.call.src_number c.call.dst_number orig.sw_minimalki
            c.call.connect_time))

  unfoldable pub setup_service_trunk : M D (Unit {0})
  setup_service_trunk = do
    c ← get
    t ← required service_trunk_not_found c.info.service_trunk
    set_call (λ l. record l { trunk_service_id = t.id })

  unfoldable pub setup_service_number : M D (Unit {0})
  unfolding get_number
  setup_service_number = do
    c ← get
    let number = r.get_service_number (get_number c.call)
    set_info (λ i. record i { service_number = number })
    n ← required service_number_not_found number
    set_call (λ l. record l { number_service_id = n.id })

  -- The test of a trunk that is not ours.
  abbrev same_account : ServiceNumber → ServiceTrunk → M D (Unit {0})
  same_account n t =
      if n.client_account_id == t.client_account_id
      then skip
      else throw service_number_account_differs

  abbrev check_foreign : Trunk → Option ServiceTrunk → M D (Unit {0})
  check_foreign trunk service_trunk = when (not trunk.our_trunk) (do
    t ← required service_trunk_not_found service_trunk
    c ← get
    n ← deref c.info.service_number
    same_account n t)

  unfoldable pub setup_service_trunk_for_number : M D (Unit {0})
  setup_service_trunk_for_number = do
    c ← get
    trunk ← deref c.info.trunk
    let service_trunk = r.get_service_trunk trunk.id
    set_info (λ i. record i { service_trunk = service_trunk })
    check_foreign trunk service_trunk
    set_call
        (λ l. record l { trunk_service_id = keep_id (λ t. t.id) service_trunk l.trunk_service_id })

  abbrev account_of : CallInfo D → Option (Client D)
  account_of i = elim i.service_number [
    | some n ↦ r.get_account n.client_account_id
    | none ↦ elim i.service_trunk [ some t ↦ r.get_account t.client_account_id | none ↦ i.account ]
  ]

  -- With `make_dt`.
  unfoldable pub setup_account : M D (Unit {0})
  setup_account = do
    c ← get
    let account = account_of c.info
    set_info (λ i. record i { account = account })
    a ← required account_not_found account
    set_info (λ i. record i {
      day = get_tday c.call.connect_time a.timezone_offset;
      month = get_tmonth c.call.connect_time a.timezone_offset;
      utc_day = get_tday c.call.connect_time (pos 0);
      utc_month = get_tmonth c.call.connect_time (pos 0);
    })
    set_call (λ l. record l { account_id = a.id; account_version = a.account_version })

  unfoldable pub setup_pricelist : (pricelist_id : ℕ) → M D (Unit {0})
  setup_pricelist pricelist_id = do
    when (not (pricelist_id == 0))
        (set_info (λ i. record i { pricelist = r.get_pricelist pricelist_id }))
    c ← get
    p ← required pricelist_not_found c.info.pricelist
    set_call (λ l. record l { pricelist_id = p.id })

  abbrev look_up_price : (number_prefix : ℤ) → M D (Unit {0})
  look_up_price number_prefix = when (not (eqb_ℤ number_prefix (pos 0))) (do
    c ← get
    pricelist ← deref c.info.pricelist
    set_info (λ i. record i { price = r.get_price pricelist.id number_prefix }))

  unfoldable pub setup_price : (number_prefix : ℤ) → M D (Unit {0})
  setup_price number_prefix = do
    look_up_price number_prefix
    c ← get
    p ← required price_not_found c.info.price
    set_call (λ l. record l { prefix = atoll p.prefix; rate = p.price })

  unfoldable pub setup_log_tariff : M D (Unit {0})
  setup_log_tariff = do
    c ← get
    n ← deref c.info.service_number
    set_info (λ i. record i { log_tariff = r.get_tariff_log n.id })
    _ ← required tariff_change_log_not_found (r.get_tariff_log n.id)
    skip

  unfoldable pub setup_main_tariff : M D (Unit {0})
  setup_main_tariff = do
    c ← get
    log ← deref c.info.log_tariff
    set_info (λ i. record i { main_tariff = r.get_tariff log.tariff_id_local })
    _ ← required tariff_not_found (r.get_tariff log.tariff_id_local)
    skip

  unfoldable pub setup_tariff : M D (Unit {0})
  unfolding tariff_id_for
  setup_tariff = do
    c ← get
    log ← deref c.info.log_tariff
    let tariff = r.get_tariff (tariff_id_for log c.call)
    set_info (λ i. record i { tariff = tariff })
    _ ← required tariff_not_found tariff
    skip
