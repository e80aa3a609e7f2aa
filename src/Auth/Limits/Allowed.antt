-- ===== src/Auth/Limits/Allowed.antt =====
-- Which calls `analyzeCall` lets in, said without the order of its tests.
use voipbill.Prelude.{
  ℕ, ◌≡◌, ◌≢◌, inl, inr, refl, Bool, true, false, not, ◌&&◌, ◌||◌, ◌==◌, none, some, Option-cases,
  Bool-cases, arith, if◌then◌else◌, ◌∙◌, sym, ap,
}
use voipbill.Map.{lookup}
use voipbill.Models.Double.{Double, gt}
use voipbill.Models.Call.{Call, is_local, is_international}
use voipbill.Models.Trunk.{Client}
use voipbill.Lists.{Lists, find}
use voipbill.Auth.{Caller}
use voipbill.Auth.Limits.{
  RejectReason, BillResponse, accept, low_balance, reason_no_balance, reason_daily_limit,
  voip_disabled, Blocked, Spendings, block_response, is_consumed_credit_limit,
  is_consumed_daily_limit, is_consumed_daily_mn_limit, spent_balance, spent_day, spent_mn_day,
  is_low_balance, low_credit, low_daily, low_daily_mn, disabled_or, analyze_trunk_call,
  analyze_locks, analyze_daily_mn, analyze_daily, analyze_number_call, analyze_account, is_exempt,
  auto_lock_finance, analyze_call,
}

-- A test that answers `voip_disabled`, made of some calls only.
test_or :
    (b : Bool) (low : Bool × Blocked) (x : Bool) (go : Blocked → BillResponse × Blocked)
    (m : Blocked) (r : BillResponse)
    → low.0 ≡ x
    → ((m' : Blocked) → (go m').0 ≡ r)
    → (if b then disabled_or go low else go m).0 ≡ (if b && x then voip_disabled else r)
test_or true (true, m') x go m r e h = rw (sym e) refl
test_or true (false, m') x go m r e h = rw (sym e) (h m')
test_or false low x go m r e h = h m

low_or :
    (low : Bool × Blocked) (x y : Bool) (go : Blocked → BillResponse × Blocked) (r : BillResponse)
    → low.0 ≡ x
    → ((m' : Blocked) → (go m').0 ≡ r)
    → (if low.0 && y then (low_balance, low.1) else go low.1).0
      ≡ (if x && y then low_balance else r)
low_or (true, m) x true go r e h = rw (sym e) refl
low_or (true, m) x false go r e h = rw (sym e) (h m)
low_or (false, m) x y go r e h = rw (sym e) (h m)

block_response-accept : (reason : RejectReason) → block_response reason ≢ accept
unfolding block_response
block_response-accept reason_no_balance e = cc
block_response-accept reason_daily_limit e = cc

module _ {D : Type 0} ⦃d : Double D⦄ where
  -- Whether a limit is consumed with the call and without it.
  abbrev is_exhausted : (check_limit : D → Bool) (value : D) → Call D → Bool
  is_exhausted check value call = check value && check (d.add value (d.neg call.cost))

  module _ (sp : Spendings D) (c : Client D) (call : Call D) where
    abbrev pub no_credit : Bool
    no_credit = is_exhausted (is_consumed_credit_limit c) (spent_balance sp c call) call

    abbrev pub no_daily : Bool
    no_daily = is_exhausted (is_consumed_daily_limit c) (spent_day sp c call) call

    abbrev pub no_daily_mn : Bool
    no_daily_mn = is_exhausted (is_consumed_daily_mn_limit c) (spent_mn_day sp c call) call

    -- What forbids a call from a number, its credit aside.
    abbrev pub is_barred : Bool
    is_barred =
        c.is_blocked
        || not (is_local call) && (c.disabled || no_daily)
        || is_international call && no_daily_mn

    -- The answer, with no account blocked on the way.
    abbrev pub verdict : (lock : Bool) → BillResponse
    verdict lock =
        if not (call.trunk_service_id == 0)
        then if no_credit && lock then low_balance else accept
        else if not (call.number_service_id == 0) && call.orig
        then if no_credit && (gt (d.abs call.cost) d.micro && lock)
          then low_balance
          else if is_barred
          then voip_disabled
          else accept
        else accept

  is_low_balance-exhausted :
      (check : D → Bool) (reason : RejectReason) (now : ℕ) (value : D) (call : Call D) (m : Blocked)
      → (is_low_balance check reason now value call m).0 ≡ is_exhausted check value call
  unfolding is_low_balance
  is_low_balance-exhausted check reason now value call m = ground arith

  module _ (sp : Spendings D) (lock : Bool) (c : Client D) (call : Call D) where
    abbrev locks : BillResponse
    locks = if c.is_blocked || not (is_local call) && c.disabled then voip_disabled else accept

    analyze_locks-locks : (m : Blocked) → (analyze_locks sp lock c call m).0 ≡ locks
    unfolding analyze_locks
    analyze_locks-locks m = ground arith

    abbrev international : BillResponse
    international = if is_international call && no_daily_mn sp c call then voip_disabled else locks

    analyze_daily_mn-international :
        (m : Blocked) → (analyze_daily_mn sp lock c call m).0 ≡ international
    unfolding analyze_daily_mn low_daily_mn
    analyze_daily_mn-international m =
        test_or (is_international call) (low_daily_mn sp lock c call m) (no_daily_mn sp c call) _ m
          _ (is_low_balance-exhausted _ _ _ _ call m) analyze_locks-locks

    abbrev daily : BillResponse
    daily = if not (is_local call) && no_daily sp c call then voip_disabled else international

    analyze_daily-daily : (m : Blocked) → (analyze_daily sp lock c call m).0 ≡ daily
    unfolding analyze_daily low_daily
    analyze_daily-daily m =
        test_or (not (is_local call)) (low_daily sp lock c call m) (no_daily sp c call) _ m _
          (is_low_balance-exhausted _ _ _ _ call m) analyze_daily_mn-international

    daily_lem : daily ≡ (if is_barred sp c call then voip_disabled else accept)
    daily_lem = ground arith

    analyze_number_call-daily :
        (m : Blocked)
        → (analyze_number_call sp lock c call m).0 ≡ (
            if no_credit sp c call && (gt (d.abs call.cost) d.micro && lock)
            then low_balance
            else if is_barred sp c call
            then voip_disabled
            else accept)
    unfolding analyze_number_call low_credit
    analyze_number_call-daily m =
        low_or (low_credit sp lock c call m) (no_credit sp c call)
          (gt (d.abs call.cost) d.micro && lock) (analyze_daily sp lock c call)
          (if is_barred sp c call then voip_disabled else accept)
          (is_low_balance-exhausted _ _ _ _ call m) (λ m'. analyze_daily-daily m' ∙ daily_lem)

    analyze_trunk_call-credit :
        (m : Blocked)
        → (analyze_trunk_call sp lock c call m).0
          ≡ (if no_credit sp c call && lock then low_balance else accept)
    unfolding analyze_trunk_call low_credit
    analyze_trunk_call-credit m =
        ap (λ b. if b && lock then low_balance else accept)
          (is_low_balance-exhausted _ _ _ _ call m)

    -- The answer to an account that is not blocked is the verdict: the tests do not hang on the accounts that are blocked on the way.
    pub analyze_account-verdict :
        (m : Blocked) → (analyze_account sp lock c call m).0 ≡ verdict sp c call lock
    unfolding analyze_account
    analyze_account-verdict m =
        ground (arith, analyze_trunk_call-credit m, analyze_number_call-daily m)

  -- What an accepted call has passed.
  pub record Allowed (l : Lists D) (p : Caller D) (sp : Spendings D) (c : Client D) (call : Call D)
      : Type 0 where
    pub known : find (λ (c : Client D). c.id) call.account_id l.client ≡ some c
    pub paid_by_trunk :
        call.trunk_service_id ≢ 0 → auto_lock_finance l p sp ≡ true → no_credit sp c call ≡ false
    pub paid_by_number :
        call.trunk_service_id ≡ 0
        → call.number_service_id ≢ 0
        → call.orig ≡ true
        → gt (d.abs call.cost) d.micro ≡ true
        → auto_lock_finance l p sp ≡ true
        → no_credit sp c call ≡ false
    pub not_barred :
        call.trunk_service_id ≡ 0
        → call.number_service_id ≢ 0
        → call.orig ≡ true
        → is_barred sp c call ≡ false

  verdict-Allowed :
      (l : Lists D) (p : Caller D) (sp : Spendings D) (c : Client D) (call : Call D)
      → find (λ (c : Client D). c.id) call.account_id l.client ≡ some c
      → verdict sp c call (auto_lock_finance l p sp) ≡ accept
      → Allowed l p sp c call
  verdict-Allowed l p sp c call f h = record {
    known = f;
    paid_by_trunk = λ n k. ground (arith, n, k, h);
    paid_by_number = λ z n o g k. ground (arith, z, n, o, g, k, h);
    not_barred = λ z n o. ground (arith, z, n, o, h);
  }

  -- A call that `analyzeCall` accepts, and that is not exempt from billing, is of a known account that is not blocked at the time; with the automatic lock it has credit left before the call if the call is over a trunk of the client, or is from a number and is paid for; and a call from a number is of a client who is not blocked, nor, if not local, disabled or out of the daily limit, nor, if international, out of the daily limit for such calls.
  pub analyze_call-Allowed :
      (l : Lists D) (p : Caller D) (sp : Spendings D) (call : Call D) (m : Blocked)
      → is_exempt l p sp ≡ false
      → (analyze_call l p sp call m).0 ≡ accept
      → (lookup call.account_id m ≡ none) × ((c : Client D) × Allowed l p sp c call)
  unfolding analyze_call
  analyze_call-Allowed l p sp call m e h = elim (Bool-cases (call.account_id == 0)) [
    | inl z ↦ ground (arith, e, z, h)
    | inr z ↦ elim (Option-cases (find (λ (c : Client D). c.id) call.account_id l.client)) [
      | inl f ↦ ground (arith, e, z, f, h)
      | inr (c, f) ↦ elim (Option-cases (lookup call.account_id m)) [
        | inr ((reason, until), g) ↦ ground (arith, e, z, f, g, h, block_response-accept reason)
        | inl g ↦ (
          g,
          (
            c,
            verdict-Allowed l p sp c call f (
                sym (analyze_account-verdict sp (auto_lock_finance l p sp) c call m)
                ∙ ground (arith, e, z, f, g, h)),
          ),
        )
      ]
    ]
  ]
