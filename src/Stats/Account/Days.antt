-- ===== src/Stats/Account/Days.antt =====
-- The cost of a day over the legs of an account, one after the other.
use voipbill.Prelude.{
  ℕ, ◌≤◌, ◌<◌, ◌≡◌, ◌≢◌, refl, sym, ap, ==→eq, ◌∙◌, Bool, true, false, not, ◌&&◌, inl, inr,
  Bool-cases, Option-cases, length, Option, none, some, List, [], ◌∷◌, ◌==◌, if◌then◌else◌, ltb,
  arith,
}
use voipbill.Models.Double.{Double}
use voipbill.Models.Call.{Call}
use voipbill.Map
use voipbill.Map.{lookup, insert, lookup-insert}
use voipbill.Billing.Monad.{CallInfo}
use voipbill.Stats.Ledger.Parts.{write_last-length}
use voipbill.Stats.Account.{StatsAccount, Accounts, add, add_stats, account_of}
use voipbill.Stats.Account.Charges.{midnight, cost_of, mn_cost_of, Charged, charge_account-Charged}

-- A leg as `add` gets it, and its day.
pub record Leg (D : Type 0) : Type 0 where
  pub day : ℕ
  pub call : Call D
  pub info : CallInfo D

abbrev dated : {D : Type 0} → Leg D → CallInfo D
dated leg = record leg.info { utc_day = midnight leg.day }

module _ {D : Type 0} ⦃d : Double D⦄ where
  -- The legs in the order in which they are added, each with its day: its `utc_day` is the midnight
  -- of that day.
  pub add_legs : List (Leg D) → Accounts D → Option (Accounts D)
  unfolding add
  add_legs [] m = some m
  add_legs (leg ∷ legs) m = elim (add leg.call (dated leg) m) [
    | none ↦ none
    | some m' ↦ add_legs legs m'
  ]

  -- Whether `add` gets to the account `i`: the leg is of it, its account is known, and its cost is
  -- not below 0.000001.
  abbrev pub counts : ℕ → Leg D → Bool
  counts i leg =
      elim leg.info.account [ none ↦ false | some client ↦ true ]
      && not (d.lt (d.abs leg.call.cost) d.micro)
      && i == leg.call.account_id

  unfoldable pub counted : ℕ → List (Leg D) → List (ℕ × Call D)
  counted i [] = []
  counted i (leg ∷ legs) =
      let rest = counted i legs in if counts i leg then (leg.day, leg.call) ∷ rest else rest

  -- The latest of the day of the account and those of the legs.
  unfoldable pub latest : ℕ → List (ℕ × Call D) → ℕ
  latest k [] = k
  latest k ((j, call) ∷ legs) = latest (if ltb k j then j else k) legs

  -- The sum over the legs of day `m` alone, in their order, by `f` from what there was before.
  pub sum_of : (f : Option D → Call D → D) (m : ℕ) → Option D → List (ℕ × Call D) → Option D
  sum_of f m x [] = x
  sum_of f m x ((k, call) ∷ legs) = sum_of f m (if k == m then some (f x call) else x) legs

  le-latest : (k : ℕ) (legs : List (ℕ × Call D)) → k ≤ latest k legs
  unfolding latest
  le-latest k [] = omega arith
  le-latest k ((j, call) ∷ legs) = ground (arith, le-latest (if ltb k j then j else k) legs)

  -- What the sum is before the leg of day `j`, and after it.
  before_after :
      (f : Option D → Call D → D) (call : Call D) (k j m : ℕ) (x : D)
      → (if ltb k j then j else k) ≤ m
      → (if (if ltb k j then j else k) == m
          then some (if j == k then f (some x) call else if ltb k j then f none call else x)
          else none)
        ≡ (if j == m
            then some (f (if k == m then some x else none) call)
            else if k == m
            then some x
            else none)
  before_after f call k j m x h = ground arith

  -- What the account is after legs that count, from day `k` on.
  abbrev pub IsSummed : ℕ → StatsAccount D → List (ℕ × Call D) → StatsAccount D → Type 0
  IsSummed k s legs t =
      let m = latest k legs in
      (t.amount_day ≡ midnight m)
      × (some t.sum_day ≡ sum_of cost_of m (if k == m then some s.sum_day else none) legs)
      × (some t.sum_mn_day ≡ sum_of mn_cost_of m (if k == m then some s.sum_mn_day else none) legs)

  IsSummed-nil : (k : ℕ) (s : StatsAccount D) → s.amount_day ≡ midnight k → IsSummed k s [] s
  unfolding latest sum_of
  IsSummed-nil k s e = ground arith

  IsSummed-cons :
      (k j : ℕ) (call : Call D) (s t u : StatsAccount D) (legs : List (ℕ × Call D))
      → Charged k j call s t
      → IsSummed (if ltb k j then j else k) t legs u
      → IsSummed k s ((j, call) ∷ legs) u
  unfolding latest sum_of
  IsSummed-cons k j call s t u legs (a, b, c) (p, q, r) =
      let k' = if ltb k j then j else k in
      let h = le-latest k' legs in
      (
        p,
        q
            ∙ ap (λ x. sum_of cost_of (latest k' legs) x legs)
                (rw b (before_after cost_of call k j (latest k' legs) s.sum_day h)),
        r
            ∙ ap (λ x. sum_of mn_cost_of (latest k' legs) x legs)
                (rw c (before_after mn_cost_of call k j (latest k' legs) s.sum_mn_day h)),
      )

  -- What one leg makes of the account `i`.
  abbrev Step : ℕ → StatsAccount D → (k j : ℕ) → Call D → Bool → Accounts D → Type 0
  Step i s k j call true m =
      (t : StatsAccount D) × (lookup i m.stats ≡ some t)
      × (t.account_id ≡ s.account_id)
      × Charged k j call s t
  Step i s k j call false m = lookup i m.stats ≡ some s

  -- The accounts that have a partition.
  abbrev HasPart : Accounts D → Type 0
  HasPart m = 0 < length m.parts

  add_stats-lookup :
      (j : ℕ) (t : StatsAccount D) (m : Accounts D)
      → HasPart m
      → (m' : Accounts D) × (add_stats j t m ≡ some m')
        × HasPart m'
        × (m'.stats ≡ insert j t m.stats)
  add_stats-lookup j t m h =
      let (ps, e, n) = write_last-length j t m.parts (λ x. omega (arith, h, ap length x)) in
      (
        record m { stats = insert j t m.stats; parts = ps; for_sync = Map.add j m.for_sync },
        rw (add_stats, e) refl,
        omega (arith, n, h),
        refl,
      )

  add_stats-Step :
      (i k : ℕ) (s t : StatsAccount D) (leg : Leg D) (m : Accounts D)
      → HasPart m
      → lookup i m.stats ≡ some s
      → ((i ≡ leg.call.account_id) → (t.account_id ≡ s.account_id) × Charged k leg.day leg.call s t)
      → (m' : Accounts D) × (add_stats leg.call.account_id t m ≡ some m')
        × HasPart m'
        × Step i s k leg.day leg.call (i == leg.call.account_id) m'
  add_stats-Step i k s t leg m h e c =
      let (m', g, p, q) = add_stats-lookup leg.call.account_id t m h in
      let found = ap (λ x. lookup i x) q ∙ lookup-insert i leg.call.account_id t m.stats in
      (
        m',
        g,
        p,
        elim (Bool-cases (i == leg.call.account_id)) [
          | inl b ↦ rw b (t, (rw b at found), (c (==→eq _ _ b)).0, (c (==→eq _ _ b)).1)
          | inr b ↦ rw b ((rw b at found) ∙ e)
        ],
      )

  add-Step :
      (i k : ℕ) (s : StatsAccount D) (leg : Leg D) (m : Accounts D)
      → HasPart m
      → lookup i m.stats ≡ some s
      → s.account_id ≢ 0
      → s.amount_day ≡ midnight k
      → (m' : Accounts D) × (add leg.call (dated leg) m ≡ some m')
        × HasPart m'
        × Step i s k leg.day leg.call (counts i leg) m'
  unfolding add
  add-Step i k s leg m h e n a = elim (Option-cases leg.info.account) [
    | inl f ↦ rw f (m, refl, h, e)
    | inr (client, f) ↦ rw f (elim (Bool-cases (d.lt (d.abs leg.call.cost) d.micro)) [
      | inl c ↦ rw c (m, refl, h, e)
      | inr c ↦ rw c (
          add_stats-Step i k s _ leg m h e λ b.
            let same : account_of leg.call.account_id m.stats ≡ s =
              rw (account_of, ap (λ j. lookup j m.stats) (sym b) ∙ e) refl in
            rw same (charge_account-Charged k leg.day leg.call (dated leg) client s a n refl))
    ])
  ]

  -- For an account of day `k` that the manager has, after legs of any accounts in any order of their
  -- days: `add` succeeds for each of them, the day of the account is the latest of `k` and the days
  -- of its legs that count; its cost is the cost of these legs of that day alone, in the order in
  -- which they were added, on top of the old cost if the day is still `k`; and so for the
  -- international ones. A leg with a cost below 0.000001, or without an account, counts for nothing.
  -- The manager has a partition, and the id in the account is not 0.
  pub add_legs-IsSummed :
      (legs : List (Leg D)) (m : Accounts D) (i k : ℕ) (s : StatsAccount D)
      → HasPart m
      → lookup i m.stats ≡ some s
      → s.account_id ≢ 0
      → s.amount_day ≡ midnight k
      → (m' : Accounts D) × (t : StatsAccount D) × (add_legs legs m ≡ some m')
        × (lookup i m'.stats ≡ some t)
        × IsSummed k s (counted i legs) t
  unfolding add_legs counted
  add_legs-IsSummed [] m i k s h e n a = (m, s, refl, e, IsSummed-nil k s a)
  add_legs-IsSummed (leg ∷ legs) m i k s h e n a =
      let (m1, g, h1, step) = add-Step i k s leg m h e n a in
      rw (add_legs, g)
        (elim (Bool-cases (counts i leg)) [
          | inl c ↦
              let (t, f, o, w) : Step i s k leg.day leg.call true m1 = rw c at step in
              let (m', u, g2, l2, sum) =
                add_legs-IsSummed legs m1 i _ t h1 f (λ z. n (sym o ∙ z)) w.0 in
              rw (counted, c) (m', u, g2, l2, IsSummed-cons k leg.day leg.call s t u _ w sum)
          | inr c ↦
              let kept : Step i s k leg.day leg.call false m1 = rw c at step in
              rw (counted, c) (add_legs-IsSummed legs m1 i k s h1 kept n a)
        ])
