-- ===== src/Auth/Terms/Chosen.antt =====
-- Which trunks automatic routing offers.
use voipbill.Prelude.{
  ℕ, ◌≡◌, refl, ap, ◌∙◌, Bool, true, false, not, ◌&&◌, ◌==◌, List, [], ◌∷◌, All, All-map,
  All-append, Bool-cases, inl, inr, if◌then◌else◌,
}
use voipbill.Text.{atoll}
use voipbill.Models.Double.{Double}
use voipbill.Models.Trunk.{Trunk, Server, StatsTrunkSettings, ServiceTrunkOrder}
use voipbill.Stats.Ledger.{Ledger}
use voipbill.Lists.{Lists, auto_routing_trunks, get_simbling_region, is_reachable}
use voipbill.Auth.{
  and_also, Caller, Result, ok, thrown, fault, out_of_fuel, Post, bind-Post, Post-ok,
}
use voipbill.Auth.Filters.{
  auto_trunk_filter_src_trunk, auto_trunk_filter_src_number, auto_trunk_filter_dst_number,
}
use voipbill.Auth.Orders.{Rates, Sort, order_term_trunk_settings}
use voipbill.Auth.Orders.Priorities.{Permutes}
use voipbill.Auth.Settings.{get_trunk_settings_order_list}
use voipbill.Auth.Settings.Trunks.{get_trunk_settings_order_list-AreOf}
use voipbill.Auth.Terms.{
  takes_call, is_fraud, is_margin_declined, offers, priced_offers, offers_of, all_offers,
  first_priority, prioritise, get_available_term_service_trunk,
}
use voipbill.Auth.Orders.Kept.{OfTrunk, order_term-OfTrunk}

if-All :
    {A : Type 0} (P : A → Type 0) (b : Bool) (xs ys : List A)
    → All P xs
    → All P ys
    → All P (if b then xs else ys)
if-All P true xs ys h k = h
if-All P false xs ys h k = k

and_also-true : (a b : Result Bool) → and_also a b ≡ ok true → (a ≡ ok true) × (b ≡ ok true)
and_also-true (ok true) b h = (refl, h)
and_also-true (ok false) b h = cc
and_also-true (thrown e) b h = cc
and_also-true fault b h = cc
and_also-true out_of_fuel b h = cc

if_not-true :
    (b : Bool) (m : Result Bool)
    → (if b then ok false else m) ≡ ok true
    → (b ≡ false) × (m ≡ ok true)
if_not-true true m h = cc
if_not-true false m h = (refl, h)

and-true : (a b : Bool) → (a && b) ≡ true → (a ≡ true) × (b ≡ true)
and-true true b h = (refl, h)
and-true false b h = cc

module _ {D : Type 0} ⦃d : Double D⦄ where
  module _ (sort : Sort D) (permutes : Permutes sort) (rates : Rates D) where
    auto_routing_trunks-All :
        (server_id : ℕ) (regions : List ℕ) (trunks : List Trunk)
        → All
            (λ t. (t.auto_routing && is_reachable server_id regions t) ≡ true)
            (auto_routing_trunks server_id regions trunks)
    unfolding auto_routing_trunks
    auto_routing_trunks-All id regions [] = tt
    auto_routing_trunks-All id regions (t ∷ trunks) =
        elim (Bool-cases (t.auto_routing && is_reachable id regions t)) [
          | inl e ↦ rw e (e, auto_routing_trunks-All id regions trunks)
          | inr e ↦ rw e (auto_routing_trunks-All id regions trunks)
        ]

    module _ (l : Lists D) (p : Caller D) (now : ℕ) where
      -- A trunk that takes the call.
      pub record Takes (server_id : ℕ) (skip_loop_protection : Bool) (t : Trunk) : Type 0 where
        pub routed : t.auto_routing ≡ true
        pub reachable : is_reachable server_id (get_simbling_region server_id l.server) t ≡ true
        pub no_loop : (p.orig_trunk.id == t.id && not skip_loop_protection) ≡ false
        pub by_trunk : auto_trunk_filter_src_trunk l p t ≡ ok true
        pub by_src_number : auto_trunk_filter_src_number l p t ≡ ok true
        pub by_dst_number : auto_trunk_filter_dst_number l p t ≡ ok true

      abbrev pub Takers : (server_id : ℕ) (skip : Bool) → List (ServiceTrunkOrder D) → Type 0
      Takers id skip = All (OfTrunk (Takes id skip))

      takes_call-Takes :
          (id : ℕ) (skip : Bool) (t : Trunk)
          → (t.auto_routing && is_reachable id (get_simbling_region id l.server) t) ≡ true
          → takes_call rates l p sort now skip t ≡ ok true
          → Takes id skip t
      unfolding takes_call
      takes_call-Takes id skip t e h =
          let (g, h0) = if_not-true (p.orig_trunk.id == t.id && not skip) _ h in
          let (a, h1) = and_also-true (auto_trunk_filter_src_trunk l p t) _ h0 in
          let (b, h2) = and_also-true (auto_trunk_filter_src_number l p t) _ h1 in
          let (c, _) = and_also-true (auto_trunk_filter_dst_number l p t) _ h2 in
          record {
            routed = (and-true t.auto_routing _ e).0;
            reachable = (and-true t.auto_routing _ e).1;
            no_loop = g;
            by_trunk = a;
            by_src_number = b;
            by_dst_number = c;
          }

      offers-All :
          (P : ServiceTrunkOrder D → Type 0) (server : Server) (orig : ServiceTrunkOrder D)
          (orders : List (ServiceTrunkOrder D))
          → All P orders
          → Post (All P) (offers rates l p sort now server orig orders)
      unfolding offers
      offers-All P server orig [] h = tt
      offers-All P server orig (o ∷ orders) (q, h) =
          elim (Bool-cases (is_fraud rates l p sort now server o)) [
            | inl e ↦ rw e (offers-All P server orig orders h)
            | inr e ↦ rw e (
                bind-Post _ (is_margin_declined rates orig o) _ λ declined _.
                  bind-Post _ (offers rates l p sort now server orig orders) _ λ rest g.
                    let k = Post-ok _ _ rest (offers-All P server orig orders h) g in
                    if-All P declined rest (o ∷ rest) k (q, k))
          ]

      prioritise-OfTrunk :
          (P : Trunk → Type 0) (orders : List (ServiceTrunkOrder D))
          → All (OfTrunk P) orders
          → Post (All (OfTrunk P)) (prioritise rates l p sort now orders)
      unfolding prioritise
      prioritise-OfTrunk P [] h = tt
      prioritise-OfTrunk P (o ∷ orders) ((t, e, q), h) = rw e (
          bind-Post _ (first_priority rates l p sort now t.default_priority _) _ λ priority _.
            bind-Post _ (prioritise rates l p sort now orders) _
              λ rest g. ((t, e, q), Post-ok _ _ rest (prioritise-OfTrunk P orders h) g))

      priced_offers-OfTrunk :
          (P : Trunk → Type 0) (server : Server) (orig : ServiceTrunkOrder D) (minimalki : Bool)
          (t : Trunk) (m : Ledger (StatsTrunkSettings D))
          → P t
          → Post
              (λ x. All (OfTrunk P) x.0)
              (priced_offers rates l p sort now server orig minimalki t m)
      unfolding priced_offers
      priced_offers-OfTrunk P server orig minimalki t m q =
          bind-Post _ (get_trunk_settings_order_list l t (atoll p.a_number) (atoll p.b_number) 2) _
            λ found k.
              let of_trunk = Post-ok _ _ found (get_trunk_settings_order_list-AreOf l t _ _ 2) k in
              let h = All-map _ (OfTrunk P) (λ o e. (t, e, q)) found of_trunk in
              bind-Post _ (order_term_trunk_settings sort rates minimalki now found m) _ λ x e.
                bind-Post _ (offers rates l p sort now server orig x.0) _ λ accepted g.
                  Post-ok _ _ accepted
                    (offers-All _ server orig x.0 (
                      Post-ok _ _ x
                        (order_term-OfTrunk sort permutes rates P minimalki now found m h) e))
                    g

      offers_of-Takers :
          (server : Server) (orig : ServiceTrunkOrder D) (minimalki skip : Bool) (t : Trunk)
          (m : Ledger (StatsTrunkSettings D))
          → (t.auto_routing && is_reachable server.id (get_simbling_region server.id l.server) t)
            ≡ true
          → Post
              (λ x. Takers server.id skip x.0)
              (offers_of rates l p sort now server orig minimalki skip t m)
      unfolding offers_of
      offers_of-Takers server orig minimalki skip t m q =
          bind-Post _ (takes_call rates l p sort now skip t) _ λ taken k. elim (Bool-cases taken) [
            | inl z ↦ rw z (
                priced_offers-OfTrunk (Takes server.id skip) server orig minimalki t m
                  (takes_call-Takes server.id skip t q (k ∙ ap ok z)))
            | inr z ↦ rw z tt
          ]

      all_offers-Takers :
          (server : Server) (orig : ServiceTrunkOrder D) (minimalki skip : Bool)
          (trunks : List Trunk) (m : Ledger (StatsTrunkSettings D))
          → All
              (λ t.
                (t.auto_routing
                  && is_reachable server.id (get_simbling_region server.id l.server) t)
                ≡ true)
              trunks
          → Post
              (λ x. Takers server.id skip x.0)
              (all_offers rates l p sort now server orig minimalki skip trunks m)
      unfolding all_offers
      all_offers-Takers server orig minimalki skip [] m h = tt
      all_offers-Takers server orig minimalki skip (t ∷ trunks) m (q, h) =
          bind-Post _ (offers_of rates l p sort now server orig minimalki skip t m) _ λ x e.
            bind-Post _ (all_offers rates l p sort now server orig minimalki skip trunks x.1) _
              λ y g.
                All-append _ _ _
                  (Post-ok _ _ x (offers_of-Takers server orig minimalki skip t m q) e)
                  (Post-ok _ _ y (all_offers-Takers server orig minimalki skip trunks x.1 h) g)

      -- `getAvailableTermServiceTrunk`, where it returns and for any `std::sort` that permutes: each
      -- trunk that it offers takes part in automatic routing, is of the region of the server or a
      -- shared one of a region beside it, is not the trunk that the call comes over unless the loop
      -- protection is off, and passes the filters by trunk, by the calling and by the called number.
      pub get_available_term-Takers :
          (server : Server) (orig : ServiceTrunkOrder D) (minimalki skip : Bool)
          (m : Ledger (StatsTrunkSettings D))
          → Post
              (λ x. Takers server.id skip x.0)
              (get_available_term_service_trunk rates l p sort now server orig minimalki skip m)
      unfolding get_available_term_service_trunk
      get_available_term-Takers server orig minimalki skip m =
          let trunks =
            auto_routing_trunks server.id (get_simbling_region server.id l.server) l.trunk in
          bind-Post _ (all_offers rates l p sort now server orig minimalki skip trunks m) _ λ x e.
            bind-Post _ (prioritise rates l p sort now x.0) _ λ orders g.
              order_term-OfTrunk sort permutes rates _ minimalki now orders x.1 (
                Post-ok _ _ orders
                  (prioritise-OfTrunk _ x.0 (
                    Post-ok _ _ x
                      (all_offers-Takers server orig minimalki skip trunks m
                        (auto_routing_trunks-All server.id _ l.trunk))
                      e))
                  g)
