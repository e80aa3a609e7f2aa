-- ===== src/Auth/Orders/Priorities.antt =====
-- In which order the trunks are tried.
use mathlib.Core.List.{Permᴰ}
use mathlib.Core.List.Permᴰ as Perm
use voipbill.Prelude.{
  ◌≡◌, Bool, true, false, List, [], ◌∷◌, ◌++◌, All, subst, some, ℤ, ◌≤ℤ◌, eqb_ℤ, Bool-cases, inl,
  inr, if◌then◌else◌,
}
use voipbill.Models.Double.{Double}
use voipbill.Models.Trunk.{ServiceTrunkOrder, ServiceTrunkSettings, StatsTrunkSettings}
use voipbill.Stats.Ledger.{Ledger}
use voipbill.Auth.Orders.{Split, Sort, is_free, before, put}

module _ {D : Type 0} ⦃d : Double D⦄ where
  -- No order stands after one of a lower priority.
  abbrev pub IsSorted : List (ServiceTrunkOrder D) → Type 0
  IsSorted [] = Unit
  IsSorted (o ∷ orders) = All (λ o'. o'.priority ≤ℤ o.priority) orders × IsSorted orders

  -- The orders of a priority, as they stand.
  unfoldable pub at_priority : ℤ → List (ServiceTrunkOrder D) → List (ServiceTrunkOrder D)
  at_priority q [] = []
  at_priority q (o ∷ orders) =
      let rest = at_priority q orders in if eqb_ℤ o.priority q then o ∷ rest else rest

  pub put-All :
      (P : ServiceTrunkOrder D → Type 0) (o : ServiceTrunkOrder D)
      (orders : List (ServiceTrunkOrder D))
      → P o
      → All P orders
      → All P (put o orders)
  unfolding put
  put-All P o [] p h = (p, tt)
  put-All P o (o' ∷ orders) p (q, h) = elim (Bool-cases (before o' o)) [
    | inl e ↦ rw e (q, put-All P o orders p h)
    | inr e ↦ rw e (p, (q, h))
  ]

  -- The counters of the order are these, and the settings count as free, or not.
  abbrev pub Counts : (use_minimalki free : Bool) → ServiceTrunkOrder D → Type 0
  Counts use_minimalki free o =
      (t : ServiceTrunkSettings D) × (s : StatsTrunkSettings D) × (o.trunk_settings ≡ some t)
      × (o.stats_trunk_settings ≡ some s)
      × (is_free use_minimalki t s ≡ free)

  abbrev Counted : (use_minimalki : Bool) → Split D → Type 0
  Counted b x = All (Counts b true) x.0 × All (Counts b false) x.1

  pub All-Perm :
      (P : ServiceTrunkOrder D → Type 0) {xs ys : List (ServiceTrunkOrder D)}
      → Permᴰ xs ys
      → All P xs
      → All P ys
  All-Perm P Perm.nil h = h
  All-Perm P (Perm.cons e p) (q, h) = (subst P e q, All-Perm P p h)
  All-Perm P (Perm.swap e g) (q, (r, h)) = (subst P g r, (subst P e q, h))
  All-Perm P (Perm.trans p q) h = All-Perm P q (All-Perm P p h)

  -- What `std::sort` keeps.
  abbrev pub Permutes : Sort D → Type 0
  Permutes sort =
      (less : ServiceTrunkOrder D → ServiceTrunkOrder D → Bool) (xs : List (ServiceTrunkOrder D))
      → Permᴰ xs (sort less xs)

  -- By priority from the highest, and within one the free orders first.
  pub record Ordered (use_minimalki : Bool) (orders : List (ServiceTrunkOrder D)) : Type 0 where
    pub sorted : IsSorted orders
    pub free : List (ServiceTrunkOrder D)
    pub paid : List (ServiceTrunkOrder D)
    pub all_free : All (Counts use_minimalki true) free
    pub all_paid : All (Counts use_minimalki false) paid
    pub free_first : (q : ℤ) → at_priority q orders ≡ at_priority q free ++ at_priority q paid
