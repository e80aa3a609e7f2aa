-- ===== src/Auth/Orders.antt =====
-- The order of the trunks by price and priority: `trunkOrderLessThan`, `orderOrig…` and
-- `orderTermTrunkSettingsOrderList` of src-bill/classes/Repository.cpp and Repository.h, models/Price.h
-- and the prices of models/ServiceTrunk.h. `std::sort` is an argument, as it leaves open where equal
-- prices go.
pub mod Priorities
pub mod Kept
use voipbill.Prelude.{
  ℕ, Bool, true, false, not, ◌&&◌, ◌||◌, ◌==◌, Option, none, some, List, [], ◌∷◌, ◌++◌,
  if◌then◌else◌, ℤ, pos, ◌*ℤ◌, ltb_ℤ, ◌≡◌, ◌<◌, ◌≤◌, ◌≤ℤ◌, eqb_ℤ, leb_ℤ,
}
use mathlib.Core.List.{Permᴰ}
use voipbill.Text.{str_eqb}
use voipbill.Models.Double.{Double, nought, gt}
use voipbill.Models.Trunk.{Client, ServiceTrunkSettings, StatsTrunkSettings, ServiceTrunkOrder}
use voipbill.Models.Routing.{CurrencyRate}
use voipbill.Stats.Ledger.{Ledger}
use voipbill.Stats.TrunkSettings.{get_current}
use voipbill.Lists.{rate_of}
use voipbill.Auth.{
  is_there, Result, ok, std_error, invalid_arguments, ◌>>=◌, deref, required, any_of,
}

-- `Price` of Price.h.
pub record Price (D : Type 0) : Type 0 where
  pub present : Bool
  pub price : D
  pub currency_rate : D
  pub currency : List ℕ

-- What an order of prices is given: the rates, and today in Moscow.
pub record Rates (D : Type 0) : Type 0 where
  pub moscow_day : ℤ
  pub rows : List (CurrencyRate D)

-- The lists of the free and of the paid orders, with their counters, and the table of counters.
abbrev pub Split : Type 0 → Type 0
Split D = List (ServiceTrunkOrder D) × List (ServiceTrunkOrder D) × Ledger (StatsTrunkSettings D)

-- `std::sort`.
abbrev pub Sort : Type 0 → Type 0
Sort D =
    (ServiceTrunkOrder D → ServiceTrunkOrder D → Bool)
    → List (ServiceTrunkOrder D)
    → List (ServiceTrunkOrder D)

module _ {D : Type 0} ⦃d : Double D⦄ where
  abbrev no_price : Price D
  no_price = record {
    present = false;
    price = nought;
    currency_rate = d.of_int (pos 1);
    currency = b'R' ∷ b'U' ∷ b'B' ∷ [];
  }

  unfoldable pub set : (price : D) (currency : List ℕ) → Price D → Price D
  set price currency p = record p { price = price; currency = currency; present = true }

  -- `operator<`.
  unfoldable pub price_ltb : Price D → Price D → Bool
  price_ltb a b =
      if a.present && not b.present
      then true
      else if not a.present
      then false
      else if str_eqb a.currency b.currency
      then d.lt a.price b.price
      else d.lt (d.mul a.price a.currency_rate) (d.mul b.price b.currency_rate)

  -- The rate that counts: one above 0.00000001, else 1.
  unfoldable pub rate_or_one : Rates D → (currency : List ℕ) → D
  rate_or_one rates currency = elim (rate_of rates.moscow_day currency rates.rows) [
    | none ↦ d.of_int (pos 1)
    | some rate ↦ if gt rate d.hundred_millionth then rate else d.of_int (pos 1)
  ]

  unfoldable pub set_currency_rate : Rates D → Price D → Price D
  set_currency_rate rates p = record p { currency_rate = rate_or_one rates p.currency }

  -- `priceToRoubles`.
  unfoldable pub price_to_roubles : Rates D → (price : D) (currency : List ℕ) → D
  price_to_roubles rates price currency = elim (rate_of rates.moscow_day currency rates.rows) [
    | none ↦ price
    | some rate ↦ if gt rate d.hundred_millionth then d.mul price rate else price
  ]

  -- Without a currency `getCurrencyRate` throws.
  unfoldable pub to_roubles : Rates D → (price : D) → Option (List ℕ) → Result D
  to_roubles rates price currency =
      required invalid_arguments currency >>= λ c. ok (price_to_roubles rates price c)

  unfoldable pub is_price_present : ServiceTrunkOrder D → Bool
  is_price_present o =
      elim o.price [
        | none ↦ false
        | some price ↦ is_there o.pricelist && gt (d.abs price.price) d.micro
      ]
      || elim o.nnp_package_price [
        | none ↦ false
        | some price ↦ is_there o.nnp_package && gt (d.abs price.price) d.micro
      ]
      || is_there o.nnp_package
        && is_there o.nnp_package_pricelist
        && gt (d.abs o.nnp_price) d.micro

  unfoldable pub get_currency : ServiceTrunkOrder D → Option (List ℕ)
  get_currency o = elim o.pricelist [
    | some p ↦ some p.currency_id
    | none ↦ elim o.nnp_package [ some p ↦ some p.currency_id | none ↦ none ]
  ]

  unfoldable pub get_price : ServiceTrunkOrder D → D
  get_price o = elim o.price [ some p ↦ p.price | none ↦ o.nnp_price ]

  -- The price that `trunkOrderLessThan` compares by.
  unfoldable pub price_of : ServiceTrunkOrder D → Price D
  price_of o = elim o.account [
    | none ↦ no_price
    | some a ↦
        if a.account_version == 5
        then elim o.nnp_package [
          | none ↦ no_price
          | some p ↦ set o.nnp_price p.currency_id no_price
        ]
        else if a.account_version == 4
        then elim o.price [
          | none ↦ no_price
          | some price ↦ elim o.pricelist [
            | none ↦ no_price
            | some p ↦ set price.price p.currency_id no_price
          ]
        ]
        else no_price
  ]

  unfoldable pub trunk_order_less_than : Rates D → ServiceTrunkOrder D → ServiceTrunkOrder D → Bool
  trunk_order_less_than rates left right =
      let l = price_of left in
      let r = price_of right in
      if str_eqb l.currency r.currency
      then price_ltb l r
      else price_ltb (set_currency_rate rates l) (set_currency_rate rates r)

  -- A trunk of which the promised minutes or the promised cost are not used up.
  unfoldable pub is_free :
      (use_minimalki : Bool) → ServiceTrunkSettings D → StatsTrunkSettings D → Bool
  is_free use_minimalki t s =
      ltb_ℤ (pos 0) t.minimum_minutes
        && use_minimalki
        && ltb_ℤ s.used_seconds (t.minimum_minutes *ℤ pos 60)
      || ltb_ℤ (pos 0) t.minimum_cost
        && use_minimalki
        && d.le s.used_credit (d.of_int t.minimum_cost)

  -- `trunk_settings_order_asc_priority`.
  abbrev pub before : ServiceTrunkOrder D → ServiceTrunkOrder D → Bool
  before left right = ltb_ℤ right.priority left.priority

  -- `std::stable_sort` by the priority.
  unfoldable pub put : ServiceTrunkOrder D → List (ServiceTrunkOrder D) → List (ServiceTrunkOrder D)
  put o [] = o ∷ []
  put o (o' ∷ orders) =
      let rest = put o orders in if before o' o then o' ∷ rest else o ∷ o' ∷ orders

  unfoldable pub stable_sort : List (ServiceTrunkOrder D) → List (ServiceTrunkOrder D)
  stable_sort [] = []
  stable_sort (o ∷ orders) = put o (stable_sort orders)

  abbrev pub to_list : Bool → ServiceTrunkOrder D → Split D → Split D
  to_list true o (free, paid, m) = (o ∷ free, paid, m)
  to_list false o (free, paid, m) = (free, o ∷ paid, m)

  -- `isAcceptedTrunk`: the settings are those of an order of the list.
  unfoldable pub is_accepted_trunk :
      (trunk_settings_id : ℕ) → List (ServiceTrunkOrder D) → Result Bool
  is_accepted_trunk id orders =
      any_of (λ (o : ServiceTrunkOrder D). deref o.trunk_settings >>= λ t. ok (t.id == id)) orders

  module _ (use_minimalki : Bool) (connect_time : ℕ) where
    unfoldable pub split_orders :
        (all orders : List (ServiceTrunkOrder D)) → Ledger (StatsTrunkSettings D) → Result (Split D)
    split_orders all [] m = ok ([], [], m)
    split_orders all (o ∷ orders) m =
        let rest = split_orders all orders in
        do
          account ← deref o.account
          settings ← deref o.trunk_settings
          (stats, m') ← deref (get_current connect_time account settings.id m)
          accepted ← is_accepted_trunk settings.id all
          split ← rest m'
          ok (
              if accepted
              then to_list (is_free use_minimalki settings stats)
                  (record o { stats_trunk_settings = some stats }) split
              else split)

  module _ (sort : Sort D) (rates : Rates D) where
    unfoldable pub order_orig_trunk_settings :
        List (ServiceTrunkOrder D) → List (ServiceTrunkOrder D)
    order_orig_trunk_settings = sort (trunk_order_less_than rates)

    unfoldable pub order_term_trunk_settings :
        (use_minimalki : Bool) (connect_time : ℕ)
        → List (ServiceTrunkOrder D)
        → Ledger (StatsTrunkSettings D)
        → Result (List (ServiceTrunkOrder D) × Ledger (StatsTrunkSettings D))
    order_term_trunk_settings use_minimalki connect_time orders m = do
      (free, paid, m') ← split_orders use_minimalki connect_time orders orders m
      let less = trunk_order_less_than rates
      ok (stable_sort (sort less free ++ sort less paid), m')
