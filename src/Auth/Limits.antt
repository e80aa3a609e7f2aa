-- ===== src/Auth/Limits.antt =====
-- `analyzeCall` of src-bill/classes/RadiusAuthProcessor.cpp with the limits of models/Client.h: what
-- the account has spent, and whether it may make the call. A call that the account can pay for less
-- than a minute is let in, and the account is blocked for a minute.
pub mod Blocks
pub mod Allowed
use voipbill.Prelude.{
  ℕ, ◌+◌, Bool, true, false, not, ◌&&◌, ◌||◌, ◌==◌, leb, Option, none, some, List, [], ◌∷◌,
  if◌then◌else◌, ℤ, pos, ltb_ℤ, leb_ℤ,
}
use voipbill.Map.{Map, lookup, insert}
use voipbill.Models.Double.{Double, nought, gt}
use voipbill.Models.Call.{Call, is_local, is_international}
use voipbill.Models.Trunk.{Client, InstanceSettings}
use voipbill.Stats.Account.{Accounts, get_sum_balance, get_sum_day, get_sum_mn_day}
use voipbill.Lists.{Lists, find, is_emergency_call}
use voipbill.Auth.{Caller}

pub data RejectReason : Type 0 where
  reason_no_balance reason_daily_limit : RejectReason

pub data BillResponse : Type 0 where
  accept reject low_balance voip_disabled : BillResponse

-- The accounts that are blocked, each until a time.
abbrev pub Blocked : Type 0
Blocked = Map (RejectReason × ℕ)

-- The loop of `process` over the blocked accounts, each of which is visited.
unfoldable pub drop_expired : (now : ℕ) → Blocked → Blocked
drop_expired now [] = []
drop_expired now ((k, (reason, until)) ∷ m) =
    let rest = drop_expired now m in if leb until now then rest else (k, (reason, until)) ∷ rest

-- src-bill/models/GlobalCounters.h.
pub record GlobalCounters (D : Type 0) : Type 0 where
  pub client_id : ℕ
  pub sum : D
  pub sum_day : D
  pub sum_mn_day : D

-- What the counters hold: those of the calls that are billed, of the calls that go on, and of the
-- other instances (`none` where they are not loaded). `now` is `time(nullptr)`.
pub record Spendings (D : Type 0) : Type 0 where
  pub now : ℕ
  pub billed : Accounts D
  pub current : Accounts D
  pub global_counters : Option (List (GlobalCounters D))

abbrev pub disabled_or :
    (go : Blocked → BillResponse × Blocked) → Bool × Blocked → BillResponse × Blocked
disabled_or go (true, blocked) = (voip_disabled, blocked)
disabled_or go (false, blocked) = go blocked

-- The answer to a call of a blocked account.
unfoldable pub block_response : RejectReason → BillResponse
block_response reason_no_balance = low_balance
block_response reason_daily_limit = voip_disabled

module _ {D : Type 0} ⦃d : Double D⦄ where
  unfoldable pub has_credit_limit : Client D → Bool
  has_credit_limit c = leb_ℤ (pos 0) c.credit

  unfoldable pub has_daily_limit : Client D → Bool
  has_daily_limit c = ltb_ℤ (pos 0) c.limit_d && not c.is_trunk_client

  unfoldable pub has_daily_mn_limit : Client D → Bool
  has_daily_mn_limit c = ltb_ℤ (pos 0) c.limit_d_mn && not c.is_trunk_client

  unfoldable pub is_consumed_credit_limit : Client D → D → Bool
  is_consumed_credit_limit c value =
      has_credit_limit c && d.lt (d.add (d.add c.balance (d.of_int c.credit)) value) d.tiny

  unfoldable pub is_consumed_daily_limit : Client D → D → Bool
  is_consumed_daily_limit c value =
      not c.is_trunk_client
      && (has_daily_limit c && d.lt (d.add (d.of_int c.limit_d) value) d.tiny
          || leb_ℤ c.limit_d (pos 0))

  unfoldable pub is_consumed_daily_mn_limit : Client D → D → Bool
  is_consumed_daily_mn_limit c value =
      not c.is_trunk_client
      && (has_daily_mn_limit c && d.lt (d.add (d.of_int c.limit_d_mn) value) d.tiny
          || leb_ℤ c.limit_d_mn (pos 0))

  -- `getVatRate` of Repository.cpp.
  unfoldable pub get_vat_rate : Client D → D
  get_vat_rate c =
      if not c.price_include_vat
      then d.div (d.of_int c.effective_vat_rate) (d.of_int (pos 100))
      else nought

  -- `fetchGlobalCounters`, of one of the sums.
  unfoldable pub fetch_global_counter :
      (GlobalCounters D → D) → Spendings D → (account_id : ℕ) (vat_rate : D) → D
  fetch_global_counter sum sp account vat_rate = elim sp.global_counters [
    | none ↦ nought
    | some rows ↦ elim (find (λ (g : GlobalCounters D). g.client_id) account rows) [
      | none ↦ nought
      | some g ↦ d.mul (sum g) (d.add (d.of_int (pos 1)) vat_rate)
    ]
  ]

  -- The sum of what is billed, of what goes on with the call itself, and of the other instances.
  abbrev spent :
      (Accounts D → ℕ → D → D) → (GlobalCounters D → D) → Spendings D → Client D → Call D → D
  spent get_sum sum sp c call =
      let vat_rate = get_vat_rate c in
      d.add
        (d.add (get_sum sp.billed call.account_id vat_rate)
          (d.add (get_sum sp.current call.account_id vat_rate) call.cost))
        (fetch_global_counter sum sp call.account_id vat_rate)

  unfoldable pub spent_balance : Spendings D → Client D → Call D → D
  spent_balance = spent get_sum_balance (λ g. g.sum)

  unfoldable pub spent_day : Spendings D → Client D → Call D → D
  spent_day sp = spent (get_sum_day sp.now) (λ g. g.sum_day) sp

  unfoldable pub spent_mn_day : Spendings D → Client D → Call D → D
  spent_mn_day sp = spent (get_sum_mn_day sp.now) (λ g. g.sum_mn_day) sp

  -- Whether the limit is consumed before the call, too. Where the call itself consumes it, the
  -- account is blocked.
  unfoldable pub is_low_balance :
      (check_limit : D → Bool) (reason : RejectReason) (now : ℕ) (value : D)
      → Call D
      → Blocked
      → Bool × Blocked
  is_low_balance check_limit reason now value call blocked =
      if check_limit value
      then if check_limit (d.add value (d.neg call.cost))
        then (true, blocked)
        else (false, insert call.account_id (reason, now + 60) blocked)
      else (false, blocked)

  module _ (sp : Spendings D) (auto_lock_finance : Bool) (c : Client D) (call : Call D) where
    unfoldable pub low_credit : Blocked → Bool × Blocked
    low_credit =
        is_low_balance (is_consumed_credit_limit c) reason_no_balance sp.now
          (spent_balance sp c call) call

    unfoldable pub low_daily : Blocked → Bool × Blocked
    low_daily =
        is_low_balance (is_consumed_daily_limit c) reason_daily_limit sp.now (spent_day sp c call)
          call

    unfoldable pub low_daily_mn : Blocked → Bool × Blocked
    low_daily_mn =
        is_low_balance (is_consumed_daily_mn_limit c) reason_daily_limit sp.now
          (spent_mn_day sp c call) call

    -- A call over a trunk of the client.
    unfoldable pub analyze_trunk_call : Blocked → BillResponse × Blocked
    analyze_trunk_call blocked =
        let low = low_credit blocked in
        (if low.0 && auto_lock_finance then low_balance else accept, low.1)

    -- The tests that need no counter.
    unfoldable pub analyze_locks : Blocked → BillResponse × Blocked
    analyze_locks blocked = (
      if c.is_blocked
          then voip_disabled
          else if not (is_local call) && c.disabled
          then voip_disabled
          else accept,
      blocked,
    )

    unfoldable pub analyze_daily_mn : Blocked → BillResponse × Blocked
    analyze_daily_mn blocked =
        if is_international call
        then disabled_or analyze_locks (low_daily_mn blocked)
        else analyze_locks blocked

    unfoldable pub analyze_daily : Blocked → BillResponse × Blocked
    analyze_daily blocked =
        if not (is_local call)
        then disabled_or analyze_daily_mn (low_daily blocked)
        else analyze_daily_mn blocked

    -- A call from a number.
    unfoldable pub analyze_number_call : Blocked → BillResponse × Blocked
    analyze_number_call blocked =
        let low = low_credit blocked in
        if low.0 && (gt (d.abs call.cost) d.micro && auto_lock_finance)
        then (low_balance, low.1)
        else analyze_daily low.1

    -- The call of an account that is known and not blocked.
    unfoldable pub analyze_account : Blocked → BillResponse × Blocked
    analyze_account blocked =
        if not (call.trunk_service_id == 0)
        then analyze_trunk_call blocked
        else if not (call.number_service_id == 0) && call.orig
        then analyze_number_call blocked
        else (accept, blocked)

  module _ (l : Lists D) (p : Caller D) (sp : Spendings D) where
    -- A call that is not billed: of a technical trunk, of one to the public network, or to an
    -- emergency number.
    unfoldable pub is_exempt : Bool
    is_exempt =
        (p.orig_trunk.tech_trunk || p.orig_trunk.pstn_trunk)
        || is_emergency_call l p.b_number p.orig_trunk.server_id

    unfoldable pub auto_lock_finance : Bool
    auto_lock_finance =
        elim (find (λ (s : InstanceSettings). s.id) l.instance_id l.instance_settings) [
          | none ↦ false
          | some s ↦ s.auto_lock_finance
        ]

    unfoldable pub analyze_call : Call D → Blocked → BillResponse × Blocked
    analyze_call call blocked =
        if is_exempt
        then (accept, blocked)
        else if call.account_id == 0
        then (reject, blocked)
        else elim (find (λ (c : Client D). c.id) call.account_id l.client) [
          | none ↦ (reject, blocked)
          | some c ↦ elim (lookup call.account_id blocked) [
            | some (reason, until) ↦ (block_response reason, blocked)
            | none ↦ analyze_account sp auto_lock_finance c call blocked
          ]
        ]
