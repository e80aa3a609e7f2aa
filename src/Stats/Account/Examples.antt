-- ===== src/Stats/Account/Examples.antt =====
-- The cost of a day of one account.
use voipbill.Prelude.{ℕ, ◌≡◌, refl, some, [], ◌∷◌, List, ℤ, pos, arith, true, false}
use voipbill.Map.{lookup}
use voipbill.Models.Double.{Double}
use voipbill.Samples.{units, local_call, sample_client}
use voipbill.Billing.Loop.{no_info}
use voipbill.Stats.Account.{StatsAccount, Accounts, blank}
use voipbill.Stats.Account.Days.{Leg, add_legs, counted, latest, IsSummed, add_legs-IsSummed}

-- Amounts of which just the last leg is below the least that counts.
abbrev whole : Double ℤ
whole = record units { micro = pos 1 }

abbrev paid : (day account_id cost : ℕ) → Leg ℤ
paid day account_id cost = record {
  day = day;
  call = record local_call { account_id = account_id; cost = pos cost };
  info = record no_info { account = some sample_client };
}

-- A leg of the next day, one of the day before, which comes late, one of another account, and one
-- more of the next day; then a leg of a day later that costs nothing.
abbrev legs : List (Leg ℤ)
legs = paid 2 3 5 ∷ paid 1 3 7 ∷ paid 2 4 9 ∷ paid 2 3 6 ∷ paid 3 3 0 ∷ []

abbrev account : StatsAccount ℤ
account = record (blank ⦃d = whole⦄) { account_id = 3; sum_day = pos 40; amount_day = pos 86400 }

abbrev accounts : Accounts ℤ
accounts = record {
  stats = (3, account) ∷ [];
  for_sync = [];
  parts = [] ∷ [];
  need_clear = false;
  loaded = true;
}

latest_day : latest ⦃d = whole⦄ 1 (counted ⦃d = whole⦄ 3 legs) ≡ 2
unfolding latest counted
latest_day = refl

add_legs-IsSummed_example :
    (m' : Accounts ℤ) × (t : StatsAccount ℤ) × (add_legs ⦃d = whole⦄ legs accounts ≡ some m')
    × (lookup 3 m'.stats ≡ some t)
    × IsSummed ⦃d = whole⦄ 1 account (counted ⦃d = whole⦄ 3 legs) t
unfolding lookup
add_legs-IsSummed_example =
    add_legs-IsSummed ⦃d = whole⦄ legs accounts 3 1 account (omega arith) refl
      (λ e. omega (arith, e)) refl
