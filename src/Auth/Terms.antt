-- ===== src/Auth/Terms.antt =====
-- `getAvailableOrigServiceTrunk` and `getAvailableTermServiceTrunk` of
-- src-bill/classes/RadiusAuthProcessor.cpp: the trunks that automatic routing offers a call to.
pub mod Chosen
use voipbill.Prelude.{
  ℕ, Bool, true, false, not, ◌&&◌, ◌||◌, ◌==◌, Option, none, some, List, [], ◌∷◌, ◌++◌,
  if◌then◌else◌, ℤ, pos, ltb_ℤ, head?,
}
use voipbill.Text.{atoll}
use voipbill.Models.Double.{Double, nought, gt}
use voipbill.Models.Trunk.{
  Trunk, Server, ServiceTrunkSettings, StatsTrunkSettings, ServiceTrunkOrder,
}
use voipbill.Models.Routing.{TrunkPriority}
use voipbill.Stats.Ledger.{Ledger}
use voipbill.Lists.{Lists, rows_of, auto_routing_trunks, get_simbling_region}
use voipbill.Auth.{is_empty, Caller, Result, ok, ◌>>=◌, and_also}
use voipbill.Auth.Settings.{no_order, get_trunk_settings_order_list}
use voipbill.Auth.Filters.{
  matches_rule, auto_trunk_filter_src_trunk, auto_trunk_filter_src_number,
  auto_trunk_filter_dst_number,
}
use voipbill.Auth.Orders.{
  Rates, Sort, price_to_roubles, to_roubles, is_price_present, get_currency, get_price,
  order_orig_trunk_settings, order_term_trunk_settings,
}

module _ {D : Type 0} ⦃d : Double D⦄ where
  -- The mark-up in per cent (a type of 1) or the profit (a type of 2).
  unfoldable pub is_below_margin : ServiceTrunkSettings D → (orig_rub term_rub : D) → Bool
  is_below_margin s orig_rub term_rub =
      let profit = d.add orig_rub (d.neg term_rub) in
      let margin =
        if s.minimum_margin_type == 2
        then profit
        else d.mul (d.div profit term_rub) (d.of_int (pos 100)) in
      d.lt margin s.minimum_margin

  module _ (rates : Rates D) where
    -- `trunkMargin < minimum_margin`, where both prices are known and above 0.000001 roubles.
    unfoldable pub is_margin_declined : (orig term : ServiceTrunkOrder D) → Result Bool
    is_margin_declined orig term = elim orig.trunk_settings [
      | none ↦ ok false
      | some s ↦
          if s.minimum_margin_type == 0
            || not (is_price_present term && is_price_present orig)
            || not (s.minimum_margin_type == 1 || s.minimum_margin_type == 2)
          then ok false
          else do
            orig_rub ← to_roubles rates (get_price orig) (get_currency orig)
            term_rub ← to_roubles rates (get_price term) (get_currency term)
            ok (gt orig_rub d.micro && gt term_rub d.micro && is_below_margin s orig_rub term_rub)
    ]

    module _ (l : Lists D) (p : Caller D) (sort : Sort D) (now : ℕ) where
      unfoldable pub get_available_orig_service_trunk : Result (ServiceTrunkOrder D)
      get_available_orig_service_trunk =
          get_trunk_settings_order_list l p.orig_trunk (atoll p.a_number) (atoll p.b_number) 1
          >>= λ orders. ok (elim (head? (order_orig_trunk_settings sort rates orders)) [
            | none ↦ no_order
            | some o ↦ o
          ])

      -- The trunk is the one that the call comes over.
      abbrev pub is_loop : (skip_loop_protection : Bool) → Trunk → Bool
      is_loop skip t = p.orig_trunk.id == t.id && not skip

      abbrev pub lacks_redirect : Trunk → Bool
      lacks_redirect t =
          p.orig_trunk.orig_redirect_number
          && not (is_empty p.request.redirect_number)
          && not t.term_redirect_number

      -- The tests of the loop over the trunks, up to its prices.
      unfoldable pub takes_call : (skip_loop_protection : Bool) → Trunk → Result Bool
      takes_call skip t =
          if is_loop skip t
          then ok false
          else and_also (auto_trunk_filter_src_trunk l p t) (
              and_also (auto_trunk_filter_src_number l p t)
                (and_also (auto_trunk_filter_dst_number l p t) (ok (not (lacks_redirect t)))))

      -- The anti-fraud limit of the server on prices.
      unfoldable pub is_fraud : Server → ServiceTrunkOrder D → Bool
      is_fraud server o =
          ltb_ℤ (pos 0) server.min_price_for_autorouting
          && elim o.price [
            | none ↦ false
            | some price ↦ elim o.pricelist [
              | none ↦ false
              | some list ↦
                  gt (price_to_roubles rates price.price list.currency_id)
                    (d.of_int server.min_price_for_autorouting)
            ]
          ]
          && elim p.account [ none ↦ false | some a ↦ not a.anti_fraud_disabled ]

      unfoldable pub offers :
          Server
          → (orig : ServiceTrunkOrder D) → List (ServiceTrunkOrder D)
          → Result (List (ServiceTrunkOrder D))
      offers server orig [] = ok []
      offers server orig (o ∷ orders) =
          let rest = offers server orig orders in
          if is_fraud server o then rest else do
            declined ← is_margin_declined orig o
            accepted ← rest
            ok (if declined then accepted else o ∷ accepted)

      abbrev pub Offers : Type 0
      Offers = List (ServiceTrunkOrder D) × Ledger (StatsTrunkSettings D)

      -- The orders of a trunk that takes the call.
      unfoldable pub priced_offers :
          Server
          → (orig : ServiceTrunkOrder D) (use_minimalki : Bool) → Trunk
          → Ledger (StatsTrunkSettings D)
          → Result Offers
      priced_offers server orig minimalki t m = do
        found ← get_trunk_settings_order_list l t (atoll p.a_number) (atoll p.b_number) 2
        (orders, m') ← order_term_trunk_settings sort rates minimalki now found m
        accepted ← offers server orig orders
        ok (accepted, m')

      -- One round of the loop over the trunks.
      unfoldable pub offers_of :
          Server
          → (orig : ServiceTrunkOrder D) (use_minimalki skip_loop_protection : Bool) → Trunk
          → Ledger (StatsTrunkSettings D)
          → Result Offers
      offers_of server orig minimalki skip t m = takes_call skip t >>= λ taken.
          if taken then priced_offers server orig minimalki t m else ok ([], m)

      unfoldable pub all_offers :
          Server
          → (orig : ServiceTrunkOrder D) (use_minimalki skip_loop_protection : Bool) → List Trunk
          → Ledger (StatsTrunkSettings D)
          → Result Offers
      all_offers server orig minimalki skip [] m = ok ([], m)
      all_offers server orig minimalki skip (t ∷ trunks) m =
          let rest = all_offers server orig minimalki skip trunks in
          do
            (first, m') ← offers_of server orig minimalki skip t m
            (others, m'') ← rest m'
            ok (first ++ others, m'')

      -- The first priority of the trunk that the numbers and the group match.
      unfoldable pub first_priority : (otherwise : ℤ) → List TrunkPriority → Result ℤ
      first_priority otherwise [] = ok otherwise
      first_priority otherwise (r ∷ rows) =
          let rest = first_priority otherwise rows in
          do
            found ← matches_rule l p r.number_id_filter_a r.number_id_filter_b r.trunk_group_id
            if found then ok r.priority else rest

      unfoldable pub prioritise : List (ServiceTrunkOrder D) → Result (List (ServiceTrunkOrder D))
      prioritise [] = ok []
      prioritise (o ∷ orders) =
          let rest = prioritise orders in
          elim o.trunk [
            | none ↦ do others ← rest; ok (o ∷ others)
            | some t ↦ do
              priority ←
                  first_priority t.default_priority
                    (rows_of (λ (r : TrunkPriority). r.trunk_id) t.id l.trunk_priority)
              others ← rest
              ok (record o { priority = priority } ∷ others)
          ]

      unfoldable pub get_available_term_service_trunk :
          Server
          → (orig : ServiceTrunkOrder D) (use_minimalki skip_loop_protection : Bool)
          → Ledger (StatsTrunkSettings D)
          → Result Offers
      get_available_term_service_trunk server orig minimalki skip m =
          let regions = get_simbling_region server.id l.server in
          do
            (found, m') ←
                all_offers server orig minimalki skip
                  (auto_routing_trunks server.id regions l.trunk) m
            orders ← prioritise found
            order_term_trunk_settings sort rates minimalki now orders m'
