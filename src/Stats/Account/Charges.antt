-- ===== src/Stats/Account/Charges.antt =====
-- The day of an account and its costs, before and after one leg is added.
use voipbill.Prelude.{
  ℕ, ◌*◌, ◌≡◌, ◌≢◌, ap, ==_ne, ◌∙◌, Option, none, some, ◌==◌, if◌then◌else◌, ltb, arith, ℤ, pos,
}
use voipbill.Models.Double.{Double, nought}
use voipbill.Models.Call.{Call, is_international}
use voipbill.Models.Trunk.{Client}
use voipbill.Billing.Monad.{CallInfo}
use voipbill.Stats.Account.{
  StatsAccount, charge_day, charge_account, open_account, charge_month, charge_sum,
}

-- Days are counted from 1970-01-01, and begin at midnight UTC.
abbrev pub midnight : ℕ → ℤ
midnight k = pos (86400 * k)

module _ {D : Type 0} ⦃d : Double D⦄ where
  abbrev pub cost_of : Option D → Call D → D
  cost_of none call = call.cost
  cost_of (some x) call = d.add x call.cost

  abbrev pub mn_cost_of : Option D → Call D → D
  mn_cost_of none call = if is_international call then call.cost else nought
  mn_cost_of (some x) call = if is_international call then d.add x call.cost else x

  -- The account before and after a leg of its day, of a later day, or of an earlier one.
  abbrev pub Charged : (k j : ℕ) → Call D → (s t : StatsAccount D) → Type 0
  Charged k j call s t =
      (t.amount_day ≡ midnight (if ltb k j then j else k))
      × (t.sum_day ≡ (
          if j == k then d.add s.sum_day call.cost else if ltb k j then call.cost else s.sum_day))
      × (t.sum_mn_day ≡ (
          if j == k
          then mn_cost_of (some s.sum_mn_day) call
          else if ltb k j
          then mn_cost_of none call
          else s.sum_mn_day))

  charge_day-Charged :
      (k j : ℕ) (call : Call D) (s : StatsAccount D)
      → s.amount_day ≡ midnight k
      → Charged k j call s (charge_day (midnight j) call s)
  unfolding charge_day
  charge_day-Charged k j call s e = (ground arith, ground arith, ground arith)

  -- The two have the same day, and the same costs of it.
  abbrev SameDay : (s t : StatsAccount D) → Type 0
  SameDay s t =
      (t.account_id ≡ s.account_id)
      × (t.amount_day ≡ s.amount_day)
      × (t.sum_day ≡ s.sum_day)
      × (t.sum_mn_day ≡ s.sum_mn_day)

  charge_month-SameDay :
      (month : ℤ) (call : Call D) (s : StatsAccount D) → SameDay s (charge_month month call s)
  unfolding charge_month
  charge_month-SameDay month call s = ground arith

  charge_sum-SameDay :
      (call : Call D) (client : Client D) (s : StatsAccount D)
      → SameDay s (charge_sum call client s)
  unfolding charge_sum
  charge_sum-SameDay call client s = ground arith

  charge_day-account_id :
      (day : ℤ) (call : Call D) (s : StatsAccount D)
      → (charge_day day call s).account_id ≡ s.account_id
  unfolding charge_day
  charge_day-account_id day call s = ground arith

  Charged-same :
      (k j : ℕ) (call : Call D) (s s2 t2 t : StatsAccount D)
      → SameDay s s2
      → Charged k j call s2 t2
      → SameDay t2 t
      → Charged k j call s t
  Charged-same k j call s s2 t2 t (_, f, g, h) (a, b, c) (_, u, v, w) = (
    u ∙ a,
    v ∙ b ∙ ap (λ x. if j == k then d.add x call.cost else if ltb k j then call.cost else x) g,
    w
        ∙ c
        ∙ ap
            (λ x.
              if j == k
              then mn_cost_of (some x) call
              else if ltb k j
              then mn_cost_of none call
              else x)
            h,
  )

  -- The rest of `add` leaves the day of the account alone.
  pub charge_account-Charged :
      (k j : ℕ) (call : Call D) (info : CallInfo D) (client : Client D) (s : StatsAccount D)
      → s.amount_day ≡ midnight k
      → s.account_id ≢ 0
      → info.utc_day ≡ midnight j
      → let t = charge_account call info client s in
        (t.account_id ≡ s.account_id) × Charged k j call s t
  unfolding charge_account open_account
  charge_account-Charged k j call info client s e n u =
      let month = charge_month info.utc_month call s in
      let same = charge_month-SameDay info.utc_month call s in
      let day = charge_day (midnight j) call month in
      let last = charge_sum-SameDay call client day in
      let charged = charge_day-Charged k j call month (same.1 ∙ e) in
      rw (==_ne s.account_id 0 n, u)
        (
          last.0 ∙ charge_day-account_id (midnight j) call month ∙ same.0,
          Charged-same k j call s month day (charge_sum call client day) same charged last,
        )
