-- ===== src/Auth/Settings/Trunks.antt =====
-- The orders of a trunk are of that trunk.
use voipbill.Prelude.{
  ℕ, ◌≡◌, refl, Bool, true, false, Option, none, some, inl, inr, Bool-cases, List, [], ◌∷◌, ◌++◌,
  All, All-append, ℤ, if◌then◌else◌, not, ◌==◌,
}
use voipbill.Models.Double.{Double}
use voipbill.Models.Tariff.{Pricelist, PricelistPrice, NnpPackagePrice, NnpPackagePricelist}
use voipbill.Models.Trunk.{Trunk, Client, ServiceTrunk, ServiceTrunkSettings, ServiceTrunkOrder}
use voipbill.Lists.{Lists, find}
use voipbill.Auth.{Result, ok, and_also, ◌>>=◌, Post, bind-Post, Post-ok}
use voipbill.Auth.Settings.{
  match_numbers, price_for, order_of_price, order_of_pricelist, order_of_package,
  order_by_pricelist, order_by_package, order_of_settings, orders_of_settings, orders_of_account,
  orders_of_service_trunk, orders_of_service_trunks, get_trunk_settings_order_list,
}

module _ {D : Type 0} ⦃d : Double D⦄ (l : Lists D) (t : Trunk) where
  abbrev AreOf : List (ServiceTrunkOrder D) → Type 0
  AreOf = All (λ o. o.trunk ≡ some t)

  if-AreOf :
      (b : Bool) (orders : List (ServiceTrunkOrder D))
      → AreOf orders
      → AreOf (if b then orders else [])
  if-AreOf true orders h = h
  if-AreOf false orders h = tt

  append-AreOf :
      (m n : Result (List (ServiceTrunkOrder D)))
      → Post AreOf m
      → Post AreOf n
      → Post AreOf (m >>= λ first. n >>= λ others. ok (first ++ others))
  append-AreOf m n h k = bind-Post _ m _ λ first e.
      bind-Post _ n _ λ others g. All-append _ _ _ (Post-ok _ m first h e) (Post-ok _ n others k g)

  module _ (st : ServiceTrunk) (account : Client D) (s : ServiceTrunkSettings D) where
    price-AreOf :
        (p : Pricelist D) (price : Option (PricelistPrice D))
        → AreOf (order_of_price l t st account s p price)
    price-AreOf p none = tt
    price-AreOf p (some price) = (refl, tt)

    pricelist-AreOf :
        (dst : ℤ) (p : Option (Pricelist D)) → AreOf (order_of_pricelist l t st account s dst p)
    pricelist-AreOf dst none = tt
    pricelist-AreOf dst (some p) = price-AreOf p (price_for l s.pricelist_id p dst)

    package-AreOf :
        (x : Option (D × Option NnpPackagePricelist × Option (NnpPackagePrice D)))
        → AreOf (order_of_package l t st account s x)
    package-AreOf none = tt
    package-AreOf (some (price, list, package_price)) = (refl, tt)

    order_of_settings-AreOf :
        (src dst : ℤ) → Post AreOf (order_of_settings l t st account s src dst)
    unfolding order_of_settings order_by_pricelist order_by_package
    order_of_settings-AreOf src dst = elim (Bool-cases (account.account_version == 4)) [
      | inl e ↦ rw e (
          bind-Post _ (match_numbers l s src dst) _ λ matched _.
            if-AreOf matched _ (pricelist-AreOf dst (l.settings.pricelist s.pricelist_id)))
      | inr e ↦ elim (Bool-cases (account.account_version == 5)) [
        | inl g ↦
            rw (e, g)
              (bind-Post _ (and_also (ok (not (s.nnp_tariff_id == 0))) (match_numbers l s src dst))
                _
                λ matched _.
                  if-AreOf matched _ (package-AreOf (l.settings.best_package s.nnp_tariff_id dst)))
        | inr g ↦ rw (e, g) tt
      ]
    ]

  orders_of_settings-AreOf :
      (st : ServiceTrunk) (account : Client D) (settings : List (ServiceTrunkSettings D))
      (src dst : ℤ)
      → Post AreOf (orders_of_settings l t st account settings src dst)
  unfolding orders_of_settings
  orders_of_settings-AreOf st account [] src dst = tt
  orders_of_settings-AreOf st account (s ∷ settings) src dst =
      append-AreOf _ _ (order_of_settings-AreOf st account s src dst)
        (orders_of_settings-AreOf st account settings src dst)

  orders_of_account-AreOf :
      (st : ServiceTrunk) (type : ℕ) (src dst : ℤ) (account : Option (Client D))
      → Post AreOf (orders_of_account l t st type src dst account)
  orders_of_account-AreOf st type src dst none = tt
  orders_of_account-AreOf st type src dst (some account) =
      orders_of_settings-AreOf st account (l.settings.service_trunk_settings st.id type) src dst

  orders_of_service_trunk-AreOf :
      (st : ServiceTrunk) (type : ℕ) (src dst : ℤ)
      → Post AreOf (orders_of_service_trunk l t st type src dst)
  unfolding orders_of_service_trunk
  orders_of_service_trunk-AreOf st type src dst =
      orders_of_account-AreOf st type src dst
        (find (λ (c : Client D). c.id) st.client_account_id l.client)

  orders_of_service_trunks-AreOf :
      (trunks : List ServiceTrunk) (type : ℕ) (src dst : ℤ)
      → Post AreOf (orders_of_service_trunks l t trunks type src dst)
  unfolding orders_of_service_trunks
  orders_of_service_trunks-AreOf [] type src dst = tt
  orders_of_service_trunks-AreOf (st ∷ trunks) type src dst =
      append-AreOf _ _ (orders_of_service_trunk-AreOf st type src dst)
        (orders_of_service_trunks-AreOf trunks type src dst)

  pub get_trunk_settings_order_list-AreOf :
      (src dst : ℤ) (type : ℕ)
      → Post (All (λ o. o.trunk ≡ some t)) (get_trunk_settings_order_list l t src dst type)
  unfolding get_trunk_settings_order_list
  get_trunk_settings_order_list-AreOf src dst type = orders_of_service_trunks-AreOf _ type src dst
