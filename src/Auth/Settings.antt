-- ===== src/Auth/Settings.antt =====
-- `getTrunkSettingsOrderList`, `checkTrunkSettingsOldPricelistConditions`, `matchNumber` and
-- `matchPrefixlist` of src-bill/classes/Repository.cpp, and `checkNNPTrunkSettingsConditions` of
-- Repository_npp.cpp: the settings of a trunk that a call meets, with their prices.
pub mod Trunks
use voipbill.Prelude.{
  ℕ, Bool, true, false, not, ◌==◌, Option, none, some, List, [], ◌∷◌, ◌++◌, any, ltb, if◌then◌else◌,
  ℤ, pos, ◌≡◌, refl, All, All-append,
}
use voipbill.Text.{print_ll}
use voipbill.Models.Double.{Double, nought}
use voipbill.Models.Tariff.{
  Pricelist, PricelistPrice, NnpPackage, NnpPackagePrice, NnpPackagePricelist,
}
use voipbill.Models.Trunk.{Trunk, Client, ServiceTrunk, ServiceTrunkSettings, ServiceTrunkOrder}
use voipbill.Models.Routing.{Number, Prefixlist}
use voipbill.Lists.{Lists, find, prefix_of}
use voipbill.Auth.{Result, ok, ◌>>=◌, required, std_error, and_also, Post, bind-Post, Post-ok}
use voipbill.Auth.Filters.{get_prefixlist_ids}

module _ {D : Type 0} ⦃d : Double D⦄ where
  -- The order that `ServiceTrunkOrder` starts as.
  abbrev pub no_order : ServiceTrunkOrder D
  no_order = record {
    trunk = none;
    service_trunk = none;
    pricelist = none;
    price = none;
    account = none;
    trunk_settings = none;
    stats_trunk_settings = none;
    nnp_package = none;
    nnp_package_price = none;
    nnp_package_pricelist = none;
    nnp_price = nought;
    priority = pos 0;
  }

  module _ (l : Lists D) where
    -- `matchPrefixlist`. A list that is not there matches nothing.
    unfoldable pub is_in_prefixlist : (number : List ℕ) (prefixlist_id : ℕ) → Bool
    is_in_prefixlist number id = elim (find (λ (p : Prefixlist). p.id) id l.prefixlist) [
      | none ↦ false
      | some p ↦ elim (prefix_of p.id number l.prefixlist_prefix) [ none ↦ false | some r ↦ true ]
    ]

    unfoldable pub match_number : (number_id : ℕ) → ℤ → Result Bool
    match_number id number = elim (find (λ (n : Number). n.id) id l.number) [
      | none ↦ ok false
      | some n ↦ required std_error (get_prefixlist_ids n) >>= λ ids.
          ok (any (is_in_prefixlist (print_ll number)) ids)
    ]

    abbrev match_if : (number_id : ℕ) → ℤ → Result Bool
    match_if id number = if ltb 0 id then match_number id number else ok true

    -- The tests on the numbers, which both kinds of conditions begin with.
    unfoldable pub match_numbers :
        ServiceTrunkSettings D → (src_number dst_number : ℤ) → Result Bool
    match_numbers s src dst = and_also (match_if s.src_number_id src) (match_if s.dst_number_id dst)

    -- The price of a local price list goes by the type of the network.
    unfoldable pub price_for : (pricelist_id : ℕ) → Pricelist D → ℤ → Option (PricelistPrice D)
    price_for id p dst =
        if p.local
        then elim (l.settings.network_type p.local_network_config_id dst) [
          | none ↦ none
          | some type ↦ l.settings.price id type
        ]
        else l.settings.price id dst

    abbrev pub Orders : Type 0
    Orders = List (ServiceTrunkOrder D)

    module _ (t : Trunk) (st : ServiceTrunk) (account : Client D) (s : ServiceTrunkSettings D) where
      abbrev basic_order : ServiceTrunkOrder D
      basic_order = record no_order {
        trunk = some t;
        account = some account;
        service_trunk = some st;
        trunk_settings = some s;
      }

      abbrev pub order_of_price : Pricelist D → Option (PricelistPrice D) → Orders
      order_of_price p none = []
      order_of_price p (some price) =
          record basic_order { pricelist = some p; price = some price } ∷ []

      abbrev pub order_of_pricelist : (dst_number : ℤ) → Option (Pricelist D) → Orders
      order_of_pricelist dst none = []
      order_of_pricelist dst (some p) = order_of_price p (price_for s.pricelist_id p dst)

      abbrev pub order_of_package :
          Option (D × Option NnpPackagePricelist × Option (NnpPackagePrice D)) → Orders
      order_of_package none = []
      order_of_package (some (price, list, package_price)) =
          record basic_order {
            nnp_package_pricelist = list;
            nnp_package_price = package_price;
            nnp_package = l.settings.nnp_package s.nnp_tariff_id;
            nnp_price = price;
          }
          ∷ []

      -- Version 4: by the price list of the settings.
      unfoldable pub order_by_pricelist : (src_number dst_number : ℤ) → Result Orders
      order_by_pricelist src dst = match_numbers s src dst >>= λ matched.
          ok (if matched then order_of_pricelist dst (l.settings.pricelist s.pricelist_id) else [])

      -- Version 5: by the packages of the tariff of the settings.
      unfoldable pub order_by_package : (src_number dst_number : ℤ) → Result Orders
      order_by_package src dst =
          and_also (ok (not (s.nnp_tariff_id == 0))) (match_numbers s src dst) >>= λ matched.
          ok
            (if matched then order_of_package (l.settings.best_package s.nnp_tariff_id dst) else [])

      unfoldable pub order_of_settings : (src_number dst_number : ℤ) → Result Orders
      order_of_settings src dst =
          if account.account_version == 4
          then order_by_pricelist src dst
          else if account.account_version == 5
          then order_by_package src dst
          else ok []

    unfoldable pub orders_of_settings :
        Trunk
        → ServiceTrunk
        → Client D
        → List (ServiceTrunkSettings D)
        → (src_number dst_number : ℤ) → Result Orders
    orders_of_settings t st account [] src dst = ok []
    orders_of_settings t st account (s ∷ settings) src dst =
        let rest = orders_of_settings t st account settings src dst in
        do first ← order_of_settings t st account s src dst; others ← rest; ok (first ++ others)

    -- The settings of a service trunk whose account is not found are skipped.
    abbrev pub orders_of_account :
        Trunk
        → ServiceTrunk
        → (type : ℕ) (src_number dst_number : ℤ) → Option (Client D)
        → Result Orders
    orders_of_account t st type src dst none = ok []
    orders_of_account t st type src dst (some account) =
        orders_of_settings t st account (l.settings.service_trunk_settings st.id type) src dst

    unfoldable pub orders_of_service_trunk :
        Trunk → ServiceTrunk → (type : ℕ) (src_number dst_number : ℤ) → Result Orders
    orders_of_service_trunk t st type src dst =
        orders_of_account t st type src dst
          (find (λ (c : Client D). c.id) st.client_account_id l.client)

    unfoldable pub orders_of_service_trunks :
        Trunk → List ServiceTrunk → (type : ℕ) (src_number dst_number : ℤ) → Result Orders
    orders_of_service_trunks t [] type src dst = ok []
    orders_of_service_trunks t (st ∷ trunks) type src dst =
        let rest = orders_of_service_trunks t trunks type src dst in
        do first ← orders_of_service_trunk t st type src dst; others ← rest; ok (first ++ others)

    unfoldable pub get_trunk_settings_order_list :
        Trunk → (src_number dst_number : ℤ) (destination_type : ℕ) → Result Orders
    get_trunk_settings_order_list t src dst type =
        orders_of_service_trunks t (l.settings.service_trunks t.id) type src dst
