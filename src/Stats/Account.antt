-- ===== src/Stats/Account.antt =====
-- src-bill/classes/StatsAccountManager.cpp: what the calls of each account cost it, in the day, in
-- the month and since its last invoice.
pub mod Charges
pub mod Days
pub mod Examples
use voipbill.Prelude.{
  ℕ, ◌==◌, Bool, false, ◌||◌, Option, none, some, List, [], ◌∷◌, ◌++◌, if◌then◌else◌, ltb, ℤ, pos,
  ◌-ℤ◌, abs_ℤ, ltb_ℤ, leb_ℤ,
}
use voipbill.Models.Double.{Double, nought}
use voipbill.Models.Call.{Call, is_international}
use voipbill.Models.Trunk.{Client}
use voipbill.Map
use voipbill.Map.{Map}
use voipbill.Time.{get_tday, get_tmonth}
use voipbill.Stats.Ledger
use voipbill.Billing.Monad.{CallInfo}

pub record StatsAccount (D : Type 0) : Type 0 where
  pub account_id : ℕ
  pub sum : D
  pub sum_day : D
  pub sum_mn_day : D
  pub sum_month : D
  pub amount_day : ℤ
  pub amount_month : ℤ
  pub amount_date : ℤ

pub record Accounts (D : Type 0) : Type 0 where
  pub stats : Map (StatsAccount D)
  pub for_sync : List ℕ
  pub parts : List (Map (StatsAccount D))
  pub need_clear : Bool
  pub loaded : Bool

-- `abs(a - b) < 43200`: the times are less than half a day apart.
abbrev pub is_near : ℤ → ℤ → Bool
is_near a b = ltb (abs_ℤ (a -ℤ b)) 43200

module _ {D : Type 0} ⦃d : Double D⦄ where
  -- The value that `statsAccount[id]` makes of a missing account.
  abbrev pub blank : StatsAccount D
  blank = record {
    account_id = 0;
    sum = nought;
    sum_day = nought;
    sum_mn_day = nought;
    sum_month = nought;
    amount_day = pos 0;
    amount_month = pos 0;
    amount_date = pos 0;
  }

  pub open_account : Call D → CallInfo D → Client D → StatsAccount D → StatsAccount D
  open_account call info client s =
      if s.account_id == 0
      then record s {
        account_id = call.account_id;
        amount_month = info.utc_month;
        amount_day = info.utc_day;
        amount_date = client.amount_date;
      }
      else s

  pub charge_month : (month : ℤ) → Call D → StatsAccount D → StatsAccount D
  charge_month month call s =
      if is_near month s.amount_month
      then record s { sum_month = d.add s.sum_month call.cost }
      else if ltb_ℤ s.amount_month month
      then record s { amount_month = month; sum_month = call.cost }
      else s

  pub charge_day : (day : ℤ) → Call D → StatsAccount D → StatsAccount D
  unfolding is_international
  charge_day day call s =
      if is_near day s.amount_day
      then record s {
        sum_day = d.add s.sum_day call.cost;
        sum_mn_day = if is_international call then d.add s.sum_mn_day call.cost else s.sum_mn_day;
      }
      else if ltb_ℤ s.amount_day day
      then record s {
        amount_day = day;
        sum_day = call.cost;
        sum_mn_day = if is_international call then call.cost else nought;
      }
      else s

  pub charge_sum : Call D → Client D → StatsAccount D → StatsAccount D
  charge_sum call client s =
      if leb_ℤ client.amount_date (pos call.connect_time)
      then record s { sum = d.add s.sum call.cost }
      else s

  pub charge_account : Call D → CallInfo D → Client D → StatsAccount D → StatsAccount D
  unfolding open_account charge_month charge_day charge_sum
  charge_account call info client s = charge_sum call client (
      charge_day info.utc_day call
        (charge_month info.utc_month call (open_account call info client s)))

  -- `statsAccount[id]`.
  abbrev pub account_of : ℕ → Map (StatsAccount D) → StatsAccount D
  account_of i stats = elim (Map.lookup i stats) [ none ↦ blank | some s ↦ s ]

  abbrev pub add_stats : ℕ → StatsAccount D → Accounts D → Option (Accounts D)
  add_stats i s m = elim (Ledger.write_last i s m.parts) [
    | none ↦ none
    | some parts ↦ some (record m {
      stats = Map.insert i s m.stats;
      parts = parts;
      for_sync = Map.add i m.for_sync;
    })
  ]

  -- Where the account of the call is known.
  abbrev pub add_for : Client D → Call D → CallInfo D → Accounts D → Option (Accounts D)
  add_for client call info m =
      if d.lt (d.abs call.cost) d.micro
      then some m
      else add_stats call.account_id
          (charge_account call info client (account_of call.account_id m.stats)) m

  unfoldable pub add : Call D → CallInfo D → Accounts D → Option (Accounts D)
  unfolding charge_account
  add call info m = elim info.account [ none ↦ some m | some client ↦ add_for client call info m ]

  -- `sum * (1 + vat_rate)`.
  abbrev with_vat : D → D → D
  with_vat vat_rate x = d.mul x (d.add (d.of_int (pos 1)) vat_rate)

  abbrev of_account : Accounts D → ℕ → (StatsAccount D → D) → D
  of_account m i f = elim (Map.lookup i m.stats) [ none ↦ nought | some s ↦ f s ]

  -- `now` is `time(nullptr)`.
  pub get_sum_day : (now : ℕ) → Accounts D → ℕ → (vat_rate : D) → D
  get_sum_day now m i vat_rate = of_account m i λ s.
      if is_near s.amount_day (get_tday now (pos 0)) then with_vat vat_rate s.sum_day else nought

  pub get_sum_mn_day : (now : ℕ) → Accounts D → ℕ → (vat_rate : D) → D
  get_sum_mn_day now m i vat_rate = of_account m i λ s.
      if is_near s.amount_day (get_tday now (pos 0)) then with_vat vat_rate s.sum_mn_day else nought

  pub get_sum_month : (now : ℕ) → Accounts D → ℕ → (vat_rate : D) → D
  get_sum_month now m i vat_rate = of_account m i λ s.
      if is_near s.amount_month (get_tmonth now (pos 0))
      then with_vat vat_rate s.sum_month
      else nought

  unfoldable pub get_sum_balance : Accounts D → ℕ → (vat_rate : D) → D
  get_sum_balance m i vat_rate = of_account m i λ s. with_vat vat_rate s.sum

  unfoldable pub create_new_partition : Accounts D → Accounts D
  create_new_partition m = record m { parts = m.parts ++ ([] ∷ []) }

  unfoldable pub remove_partition_after_save : Accounts D → Accounts D
  remove_partition_after_save m = record m { parts = Ledger.drop_first m.parts }

  -- `changes` comes empty, and goes out with whether all rows are to be replaced.
  pub get_changes : Map (StatsAccount D) → Accounts D → Map (StatsAccount D) × Bool × Accounts D
  get_changes changes m =
      let (changes', stats) =
        if m.need_clear
        then (Ledger.copy m.stats changes, m.stats)
        else Ledger.collect blank m.for_sync changes m.stats in
      (changes', m.need_clear, record m { stats = stats; for_sync = []; need_clear = false })

  pub add_changes : Map (StatsAccount D) → (need_clear : Bool) → Accounts D → Accounts D
  add_changes changes need_clear m = record m {
    for_sync = Ledger.add_keys changes m.for_sync;
    need_clear = need_clear || m.need_clear;
  }
