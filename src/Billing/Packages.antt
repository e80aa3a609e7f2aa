-- ===== src/Billing/Packages.antt =====
-- The packages of a service: `matchTariffPackageDestination`, `setupPackagePricelist`,
-- `setupFreemin` and `setupPackagePrepaid` of src-bill/classes/BillingCall.cpp.
pub mod Limits
pub mod FreeSeconds
pub mod Examples
use voipbill.Prelude.{
  ℕ, zero, suc, ◌-◌, ◌==◌, Bool, true, false, not, ◌&&◌, ◌||◌, Option, none, some, List, [], ◌∷◌,
  length, take, any, contains, leb, ltb, if◌then◌else◌, ℤ, pos, ◌-ℤ◌, ◌*ℤ◌, ltb_ℤ, leb_ℤ, eqb_ℤ,
}
use voipbill.Text.{atoll, print_ll}
use voipbill.Models.Double.{Double}
use voipbill.Models.Call.{Call, is_local}
use voipbill.Models.Tariff.{
  Tariff, TariffPackage, ServicePackage, Pricelist, PricelistPrice, StatPrefixlist, Geo,
  StatsPackage, StatsFreemin,
}
use voipbill.Models.Trunk.{ServiceNumber}
use voipbill.Stats.Freemin
use voipbill.Stats.Package
use voipbill.Stats.Ledger.{Ledger}
use voipbill.Billing.Repository.{Repository}
use voipbill.Billing.Monad.{CallInfo, Ctx, Outcome, done, fault, M, and_then}

-- `atoll` of the first `len` digits, then of fewer, is the prefix.
pub matches_prefix : (len : ℕ) (text : List ℕ) (prefix : ℤ) → Bool
matches_prefix zero text prefix = false
matches_prefix (suc len) text prefix =
    let rest = matches_prefix len text prefix in eqb_ℤ prefix (atoll (take (suc len) text)) || rest

abbrev matches_manual : ℤ → List ℤ → Bool
matches_manual dst_number =
    let text = print_ll dst_number in any (matches_prefix (length text) text)

-- A criterion of a prefix list that is set, and a place that is known and different.
abbrev differs : ℤ → Option Geo → (Geo → ℤ) → Bool
differs wanted none field = false
differs wanted (some geo) field = ltb_ℤ (pos 0) wanted && not (eqb_ℤ (field geo) wanted)

abbrev operator_excluded : StatPrefixlist → ℕ → Bool
operator_excluded p operator_id =
    leb 1 (length p.operators)
    && (if p.exclude_operators
        then contains operator_id p.operators
        else not (contains operator_id p.operators))

-- The types are 1, a list by hand, and 3, a list by place; the subtypes 1, fixed, and 2, mobile.
pub matches_list : {D : Type 0} → Option Geo → Call D → StatPrefixlist → Bool
unfolding matches_prefix
matches_list geo call p =
    if p.type_id == 1
    then matches_manual call.dst_number p.prefixes
    else if p.type_id == 3
    then not (p.sub_type == 1 && call.mob)
      && not (p.sub_type == 2 && not call.mob)
      && not (differs p.country_id geo (λ g. g.country_id))
      && not (differs p.region_id geo (λ g. g.region_id))
      && not (differs p.city_id geo (λ g. g.city_id))
      && not (operator_excluded p call.geo_operator_id)
    else false

abbrev pub clamp : (available billed : ℤ) → ℤ
clamp available billed =
    let above = if ltb_ℤ available (pos 0) then pos 0 else available in
    if ltb_ℤ billed above then billed else above

-- The first part of `setupFreemin`: 60 seconds for each free minute, for the number or for each of
-- its lines; `none` where the pointer to the number is followed and is null.
pub tariff_free_seconds : Tariff → Option ServiceNumber → Option ℤ
tariff_free_seconds t number =
    if t.freemin_for_number
    then some (pos 60 *ℤ t.freemin *ℤ pos 1)
    else elim number [ none ↦ none | some n ↦ some (pos 60 *ℤ t.freemin *ℤ n.lines_count) ]

module _ {D : Type 0} (r : Repository D) where
  pub match_tariff_package_destination : Option Geo → Call D → TariffPackage → Bool
  unfolding matches_list
  match_tariff_package_destination geo call tariff =
      any matching (r.get_all_stat_prefixlist_ids tariff.destination_id)
    where
      matching : ℕ → Bool
      matching id = elim (r.get_stat_prefixlist id) [
        | none ↦ false
        | some p ↦ matches_list geo call p
      ]

  -- The packages of the service of the leg; `none` where it has no service.
  pub packages_of : CallInfo D → Option (List ServicePackage)
  packages_of info = elim info.service_number [
    | some number ↦ some (r.get_all_service_number_package number.id)
    | none ↦ elim info.service_trunk [
      | some trunk ↦ some (r.get_all_service_trunk_package trunk.id)
      | none ↦ none
    ]
  ]

  -- One round of the loop of `setupPackagePricelist`: a later package replaces an earlier one.
  abbrev apply_pricelist : Ctx D → ServicePackage → TariffPackage → Ctx D
  apply_pricelist c pkg tariff =
      if tariff.pricelist_id == 0 || not (match_tariff_package_destination c.info.geo c.call tariff)
      then c
      else elim (r.get_pricelist tariff.pricelist_id) [
        | none ↦ c
        | some pricelist ↦ elim (r.get_price pricelist.id c.call.dst_number) [
          | none ↦ c
          | some price ↦ record c {
            info = record (c.info) {
              pricelist = some pricelist;
              price = some price;
              service_package_pricelist = some pkg;
            };
            call = record (c.call) { service_package_id = pkg.id };
          }
        ]
      ]

  pub apply_pricelists : List ServicePackage → Ctx D → Ctx D
  unfolding match_tariff_package_destination
  apply_pricelists [] c = c
  apply_pricelists (pkg ∷ pkgs) c = elim (r.get_tariff_package pkg.tariff_package_id) [
    | none ↦ apply_pricelists pkgs c
    | some tariff ↦ apply_pricelists pkgs (apply_pricelist c pkg tariff)
  ]

  pub setup_package_pricelist : M D (Unit {0})
  unfolding packages_of apply_pricelists
  setup_package_pricelist c = elim (packages_of c.info) [
    | none ↦ (done tt, c)
    | some pkgs ↦ (done tt, apply_pricelists pkgs c)
  ]

-- The package chosen so far, with what it has left for the leg.
pub record Choice (D : Type 0) : Type 0 where
  pub seconds : ℤ
  pub pkg : ServicePackage
  pub tariff : TariffPackage
  pub stats : StatsPackage D

-- What a round of the loop over the packages comes to.
pub data Round (D : Type 0) : Type 0 where
  next : Option (Choice D) → Ledger (StatsPackage D) → Round D
  stop : Choice D → Ledger (StatsPackage D) → Round D
  failed : Round D

module _ {D : Type 0} ⦃d : Double D⦄ where
  -- What of the free seconds `available` the leg uses.
  abbrev pub apply_free : ℤ → StatsFreemin D → Call D → Call D
  apply_free free_seconds stats call =
      let available = clamp (free_seconds -ℤ stats.used_seconds) call.billed_time in
      if ltb_ℤ (pos 0) available
      then record call {
        service_package_id = 1;
        service_package_stats_id = stats.id;
        package_time = available;
      }
      else call

  abbrev pub freemin_of : (free_seconds : ℤ) → M D (Unit {0})
  freemin_of free_seconds c =
      if leb_ℤ free_seconds (pos 0)
      then (done tt, c)
      else elim (Freemin.get_current c.call.number_service_id c.info.month c.freemin) [
        | none ↦ (fault, c)
        | some (stats, freemin) ↦
            (done tt, record c { freemin = freemin; call = apply_free free_seconds stats c.call })
      ]

  pub setup_freemin : M D (Unit {0})
  unfolding tariff_free_seconds
  setup_freemin c =
      if eqb_ℤ c.call.billed_time (pos 0) || not (is_local c.call)
      then (done tt, c)
      else elim c.info.main_tariff [
        | none ↦ (fault, c)
        | some t ↦ elim (tariff_free_seconds t c.info.service_number) [
          | none ↦ (fault, c)
          | some free_seconds ↦ freemin_of free_seconds c
        ]
      ]

  abbrev better : ℤ → Option (Choice D) → Bool
  better seconds none = ltb_ℤ (pos 0) seconds
  better seconds (some best) = ltb_ℤ best.seconds seconds

  abbrev pub is_eligible : Repository D → Ctx D → TariffPackage → Bool
  is_eligible r c tariff =
      not (eqb_ℤ tariff.prepaid_minutes (pos 0))
      && match_tariff_package_destination r c.info.geo c.call tariff

  abbrev left_of : StatsPackage D → ℤ
  left_of stats =
      let left = stats.paid_seconds -ℤ stats.used_seconds in
      if ltb_ℤ left (pos 0) then pos 0 else left

  abbrev choice : ℤ → ServicePackage → TariffPackage → StatsPackage D → Choice D
  choice seconds pkg tariff stats = record {
    seconds = seconds;
    pkg = pkg;
    tariff = tariff;
    stats = stats;
  }

  -- With the counter of a package: the loop ends at one that has enough for the leg.
  abbrev pub consider :
      (billed : ℤ)
      → ServicePackage
      → TariffPackage
      → Option (Choice D)
      → Option (StatsPackage D × Ledger (StatsPackage D))
      → Round D
  consider billed pkg tariff best none = failed
  consider billed pkg tariff best (some (stats, l)) =
      if leb_ℤ billed (left_of stats)
      then stop (choice billed pkg tariff stats) l
      else if better (left_of stats) best
      then next (some (choice (left_of stats) pkg tariff stats)) l
      else next best l

  -- One round of the loop of `setupPackagePrepaid`. `offset` is that of the account.
  pub round :
      Repository D
      → Ctx D
      → (offset : ℤ) → ServicePackage
      → Option (Choice D)
      → Ledger (StatsPackage D)
      → Round D
  round r c offset pkg best l = elim (r.get_tariff_package pkg.tariff_package_id) [
    | none ↦ next best l
    | some tariff ↦
        if is_eligible r c tariff
        then consider c.call.billed_time pkg tariff best
            (Package.get_current c.call.connect_time offset pkg tariff l)
        else next best l
  ]

  pub choose :
      Repository D
      → Ctx D
      → (offset : ℤ) → List ServicePackage
      → Option (Choice D)
      → Ledger (StatsPackage D)
      → Option (Option (Choice D) × Ledger (StatsPackage D))
  unfolding round
  choose r c offset [] best l = some (best, l)
  choose r c offset (pkg ∷ pkgs) best l = elim (round r c offset pkg best l) [
    | failed ↦ none
    | stop chosen l' ↦ some (some chosen, l')
    | next best' l' ↦ choose r c offset pkgs best' l'
  ]

  abbrev pub apply_choice : Option (Choice D) → Ctx D → Ctx D
  apply_choice none c = c
  apply_choice (some best) c = record c {
    call = record (c.call) {
      package_time = best.seconds;
      service_package_id = best.pkg.id;
      service_package_stats_id = best.stats.id;
    };
    info = record (c.info) {
      service_package_prepaid = some best.pkg;
      tariff_package_prepaid = some best.tariff;
    };
  }

  pub setup_package_prepaid : Repository D → M D (Unit {0})
  unfolding packages_of choose
  setup_package_prepaid r c =
      if eqb_ℤ c.call.billed_time (pos 0) || ltb 0 c.call.service_package_id
      then (done tt, c)
      else elim (packages_of r c.info) [
        | none ↦ (done tt, c)
        | some pkgs ↦ elim c.info.account [
          | none ↦ (fault, c)
          | some account ↦ elim (choose r c account.timezone_offset pkgs none c.packages) [
            | none ↦ (fault, c)
            | some (best, l) ↦ (done tt, apply_choice best (record c { packages = l }))
          ]
        ]
      ]
