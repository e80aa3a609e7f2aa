-- ===== src/Auth/Orders/Kept.antt =====
-- The order of the trunks keeps what holds of each of them.
use voipbill.Prelude.{
  ℕ, ◌≡◌, Bool, true, false, some, List, [], ◌∷◌, All, All-append, if◌then◌else◌,
}
use voipbill.Models.Double.{Double}
use voipbill.Models.Trunk.{Trunk, StatsTrunkSettings, ServiceTrunkOrder}
use voipbill.Stats.Ledger.{Ledger}
use voipbill.Stats.TrunkSettings.{get_current}
use voipbill.Auth.{Post, bind-Post, Post-ok, deref}
use voipbill.Auth.Orders.{
  Rates, Sort, Split, stable_sort, to_list, split_orders, is_free, is_accepted_trunk,
  trunk_order_less_than, order_term_trunk_settings,
}
use voipbill.Auth.Orders.Priorities.{Permutes, All-Perm, put-All}

module _ {D : Type 0} ⦃d : Double D⦄ where
  stable_sort-All :
      (P : ServiceTrunkOrder D → Type 0) (orders : List (ServiceTrunkOrder D))
      → All P orders
      → All P (stable_sort orders)
  unfolding stable_sort
  stable_sort-All P [] h = tt
  stable_sort-All P (o ∷ orders) (q, h) = put-All P o _ q (stable_sort-All P orders h)

  -- What a new counter and a new priority leave as it is.
  abbrev pub OfTrunk : (Trunk → Type 0) → ServiceTrunkOrder D → Type 0
  OfTrunk P o = (t : Trunk) × (o.trunk ≡ some t) × P t

  abbrev Both : (Trunk → Type 0) → Split D → Type 0
  Both P x = All (OfTrunk P) x.0 × All (OfTrunk P) x.1

  to_list-Both :
      (P : Trunk → Type 0) (free : Bool) (o : ServiceTrunkOrder D) (x : Split D)
      → OfTrunk P o
      → Both P x
      → Both P (to_list free o x)
  to_list-Both P true o (free, paid, m) c (h, k) = ((c, h), k)
  to_list-Both P false o (free, paid, m) c (h, k) = (h, (c, k))

  if-Both :
      (P : Trunk → Type 0) (b : Bool) (x y : Split D)
      → Both P x
      → Both P y
      → Both P (if b then x else y)
  if-Both P true x y h k = h
  if-Both P false x y h k = k

  split_orders-Both :
      (P : Trunk → Type 0) (b : Bool) (time : ℕ) (all orders : List (ServiceTrunkOrder D))
      (m : Ledger (StatsTrunkSettings D))
      → All (OfTrunk P) orders
      → Post (Both P) (split_orders b time all orders m)
  unfolding split_orders
  split_orders-Both P b time all [] m h = (tt, tt)
  split_orders-Both P b time all (o ∷ orders) m (c, h) =
      bind-Post _ (deref o.account) _ λ account _.
        bind-Post _ (deref o.trunk_settings) _ λ settings _.
          bind-Post _ (deref (get_current time account settings.id m)) _ λ x _.
            bind-Post _ (is_accepted_trunk settings.id all) _ λ accepted _.
              bind-Post _ (split_orders b time all orders x.1) _ λ rest g.
                let k = Post-ok _ _ rest (split_orders-Both P b time all orders x.1 h) g in
                if-Both P accepted _ rest (to_list-Both P (is_free b settings x.0) _ rest c k) k

  module _ (sort : Sort D) (permutes : Permutes sort) (rates : Rates D) where
    pub order_term-OfTrunk :
        (P : Trunk → Type 0) (b : Bool) (time : ℕ) (orders : List (ServiceTrunkOrder D))
        (m : Ledger (StatsTrunkSettings D))
        → All (OfTrunk P) orders
        → Post (λ x. All (OfTrunk P) x.0) (order_term_trunk_settings sort rates b time orders m)
    unfolding order_term_trunk_settings
    order_term-OfTrunk P b time orders m h =
        let less = trunk_order_less_than rates in
        bind-Post _ (split_orders b time orders orders m) _ λ x e.
          let both = Post-ok _ _ x (split_orders-Both P b time orders orders m h) e in
          stable_sort-All _ _ (
            All-append _ _ _ (All-Perm _ (permutes less x.0) both.0)
              (All-Perm _ (permutes less x.1) both.1))
