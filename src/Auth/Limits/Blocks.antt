-- ===== src/Auth/Limits/Blocks.antt =====
-- An account is blocked for the calls beside the one that consumes its limit.
use voipbill.Prelude.{
  ℕ, ◌+◌, ◌<◌, ◌≡◌, ◌≢◌, sym, ◌∙◌, ap, true, false, ◌==◌, ==_ne, none, some, [], ◌∷◌, Bool-cases,
  inl, inr, arith, Bool, not, ◌&&◌, List, All, Option-cases, if◌then◌else◌, ==→eq,
}
use voipbill.Map.{lookup, insert, lookup-insert, lookup-insert_self}
use voipbill.Models.Double.{Double, gt}
use voipbill.Models.Call.{Call, is_local, is_international}
use voipbill.Models.Trunk.{Client}
use voipbill.Lists.{Lists, find}
use voipbill.Auth.{Caller}
use voipbill.Auth.Limits.{
  RejectReason, reason_no_balance, accept, low_balance, Blocked, block_response, drop_expired,
  Spendings, is_consumed_credit_limit, spent_balance, is_low_balance, low_credit, BillResponse,
  disabled_or, analyze_locks, analyze_daily_mn, analyze_daily, analyze_number_call, low_daily,
  low_daily_mn, auto_lock_finance, analyze_trunk_call, analyze_account, is_exempt, analyze_call,
}

lookup-drop_expired :
    (now k until : ℕ) (reason : RejectReason) (m : Blocked)
    → lookup k m ≡ some (reason, until)
    → now < until
    → lookup k (drop_expired now m) ≡ some (reason, until)
unfolding lookup drop_expired
lookup-drop_expired now k until reason [] e h = cc
lookup-drop_expired now k until reason ((j, (r, u)) ∷ m) e h = elim (Bool-cases (k == j)) [
  | inl g ↦ ground (arith, e, g, h)
  | inr g ↦ ground (arith, e, g, h, lookup-drop_expired now k until reason m)
]

-- A blocked account is not one that is not blocked.
other_account :
    (k j : ℕ) (entry : RejectReason × ℕ) (m : Blocked)
    → lookup k m ≡ some entry
    → lookup j m ≡ none
    → (k == j) ≡ false
other_account k j entry m h g = elim (Bool-cases (k == j)) [
  | inr e ↦ e
  | inl e ↦
      let same = ap (λ i. lookup i m) (==→eq k j e) in absurd (ground (arith, sym h ∙ same ∙ g))
]

module _ {D : Type 0} ⦃d : Double D⦄ (l : Lists D) (p : Caller D) where
  analyze_call-blocked :
      (sp : Spendings D) (c : Client D) (call : Call D) (reason : RejectReason) (until : ℕ)
      (m : Blocked)
      → is_exempt l p sp ≡ false
      → call.account_id ≢ 0
      → find (λ (c : Client D). c.id) call.account_id l.client ≡ some c
      → lookup call.account_id m ≡ some (reason, until)
      → analyze_call l p sp call m ≡ (block_response reason, m)
  unfolding analyze_call
  analyze_call-blocked sp c call reason until m e n f g = simp (e, ==_ne call.account_id 0 n, f, g)

  -- The call that consumes the credit.
  analyze_call-last :
      (sp : Spendings D) (c : Client D) (call : Call D) (m : Blocked)
      → is_exempt l p sp ≡ false
      → call.account_id ≢ 0
      → find (λ (c : Client D). c.id) call.account_id l.client ≡ some c
      → lookup call.account_id m ≡ none
      → call.trunk_service_id ≢ 0
      → is_consumed_credit_limit c (spent_balance sp c call) ≡ true
      → is_consumed_credit_limit c (d.add (spent_balance sp c call) (d.neg call.cost)) ≡ false
      → analyze_call l p sp call m
        ≡ (accept, insert call.account_id (reason_no_balance, sp.now + 60) m)
  unfolding analyze_call analyze_account analyze_trunk_call low_credit is_low_balance
  analyze_call-last sp c call m e n f g t h k =
      simp (e, ==_ne call.account_id 0 n, f, g, ==_ne call.trunk_service_id 0 t, h, k)

  -- No call touches the entry of an account that is blocked.
  is_low_balance-kept :
      (check_limit : D → Bool) (why : RejectReason) (now : ℕ) (value : D) (call : Call D) (k : ℕ)
      (entry : RejectReason × ℕ) (m : Blocked)
      → (k == call.account_id) ≡ false
      → lookup k m ≡ some entry
      → lookup k (is_low_balance check_limit why now value call m).1 ≡ some entry
  unfolding is_low_balance
  is_low_balance-kept check_limit why now value call k entry m n h =
      ground (arith, n, h, lookup-insert k call.account_id (why, now + 60) m)

  disabled_or-kept :
      (go : Blocked → BillResponse × Blocked) (x : Bool × Blocked) (k : ℕ)
      (entry : RejectReason × ℕ)
      → ((m : Blocked) → lookup k m ≡ some entry → lookup k (go m).1 ≡ some entry)
      → lookup k x.1 ≡ some entry
      → lookup k (disabled_or go x).1 ≡ some entry
  disabled_or-kept go (true, m) k entry keeps h = h
  disabled_or-kept go (false, m) k entry keeps h = keeps m h

  module _ (sp : Spendings D) (lock : Bool) (c : Client D) (call : Call D) (k : ℕ)
      (entry : RejectReason × ℕ) (n : (k == call.account_id) ≡ false) where
    analyze_daily_mn-kept :
        (m : Blocked)
        → lookup k m ≡ some entry
        → lookup k (analyze_daily_mn sp lock c call m).1 ≡ some entry
    unfolding analyze_daily_mn analyze_locks low_daily_mn
    analyze_daily_mn-kept m h = elim (Bool-cases (is_international call)) [
      | inl e ↦
          rw e (
            disabled_or-kept _ _ k entry (λ x g. g)
              (is_low_balance-kept _ _ _ _ call k entry m n h))
      | inr e ↦ rw e h
    ]

    analyze_daily-kept :
        (m : Blocked)
        → lookup k m ≡ some entry
        → lookup k (analyze_daily sp lock c call m).1 ≡ some entry
    unfolding analyze_daily low_daily
    analyze_daily-kept m h = elim (Bool-cases (not (is_local call))) [
      | inl e ↦ rw e (
          disabled_or-kept _ _ k entry analyze_daily_mn-kept
            (is_low_balance-kept _ _ _ _ call k entry m n h))
      | inr e ↦ rw e (analyze_daily_mn-kept m h)
    ]

    low_credit-kept :
        (m : Blocked)
        → lookup k m ≡ some entry
        → lookup k (low_credit sp lock c call m).1 ≡ some entry
    unfolding low_credit
    low_credit-kept m h = is_low_balance-kept _ _ _ _ call k entry m n h

    analyze_number_call-kept :
        (m : Blocked)
        → lookup k m ≡ some entry
        → lookup k (analyze_number_call sp lock c call m).1 ≡ some entry
    unfolding analyze_number_call
    analyze_number_call-kept m h =
        elim (Bool-cases
          ((low_credit sp lock c call m).0 && (gt (d.abs call.cost) d.micro && lock))) [
            | inl e ↦ rw e (low_credit-kept m h)
            | inr e ↦ rw e (analyze_daily-kept _ (low_credit-kept m h))
          ]

    analyze_account-kept :
        (m : Blocked)
        → lookup k m ≡ some entry
        → lookup k (analyze_account sp lock c call m).1 ≡ some entry
    unfolding analyze_account analyze_trunk_call
    analyze_account-kept m h = elim (Bool-cases (not (call.trunk_service_id == 0))) [
      | inl e ↦ rw e (low_credit-kept m h)
      | inr e ↦ elim (Bool-cases (not (call.number_service_id == 0) && call.orig)) [
        | inl g ↦ rw (e, g) (analyze_number_call-kept m h)
        | inr g ↦ rw (e, g) h
      ]
    ]

  analyze_call-kept :
      (sp : Spendings D) (call : Call D) (k : ℕ) (entry : RejectReason × ℕ) (m : Blocked)
      → lookup k m ≡ some entry
      → lookup k (analyze_call l p sp call m).1 ≡ some entry
  unfolding analyze_call
  analyze_call-kept sp call k entry m h = elim (Bool-cases (is_exempt l p sp)) [
    | inl e ↦ rw e h
    | inr e ↦ elim (Bool-cases (call.account_id == 0)) [
      | inl g ↦ rw (e, g) h
      | inr g ↦ elim (Option-cases (find (λ (c : Client D). c.id) call.account_id l.client)) [
        | inl f ↦ rw (e, g) (rw f h)
        | inr (c, f) ↦ elim (Option-cases (lookup call.account_id m)) [
          | inr ((reason, until), b) ↦ rw (e, g) (rw f (rw b h))
          | inl b ↦
              rw (e, g)
                (rw f (
                  rw b (
                    analyze_account-kept sp (auto_lock_finance l p sp) c call k entry
                      (other_account k call.account_id entry m h b) m h)))
        ]
      ]
    ]
  ]

-- What happens to the blocked accounts: a request drops those that are over, or a call is judged.
pub data Event (D : Type 0) : Type 0 where
  cleaned : (now : ℕ) → Event D
  judged : (caller : Caller D) (spendings : Spendings D) (call : Call D) → Event D

abbrev pub IsBefore : {D : Type 0} → (until : ℕ) → Event D → Type 0
IsBefore until (cleaned now) = now < until
IsBefore until (judged caller spendings call) = Unit

module _ {D : Type 0} ⦃d : Double D⦄ (l : Lists D) (account : ℕ) where
  -- The answers to the calls of the account that are not exempt, in their order.
  pub account_answers : List (Event D) → Blocked → List BillResponse
  account_answers [] m = []
  account_answers (cleaned now ∷ events) m = account_answers events (drop_expired now m)
  account_answers (judged p sp call ∷ events) m =
      let (answer, m') = analyze_call l p sp call m in
      let rest = account_answers events m' in
      if call.account_id == account && not (is_exempt l p sp) then answer ∷ rest else rest

  account_answers-low :
      (c : Client D) (until : ℕ) (events : List (Event D)) (m : Blocked)
      → account ≢ 0
      → find (λ (c : Client D). c.id) account l.client ≡ some c
      → lookup account m ≡ some (reason_no_balance, until)
      → All (IsBefore until) events
      → All (λ a. a ≡ low_balance) (account_answers events m)
  unfolding account_answers block_response
  account_answers-low c until [] m n f h b = tt
  account_answers-low c until (cleaned now ∷ events) m n f h (b, bs) =
      account_answers-low c until events (drop_expired now m) n f
        (lookup-drop_expired now account until reason_no_balance m h b) bs
  account_answers-low c until (judged p sp call ∷ events) m n f h (b, bs) =
      let rest =
        account_answers-low c until events _ n f
          (analyze_call-kept l p sp call account (reason_no_balance, until) m h) bs in
      elim (Bool-cases (call.account_id == account && not (is_exempt l p sp))) [
        | inr e ↦ rw e rest
        | inl e ↦
            let same : call.account_id ≡ account = ground (arith, e) in
            rw e (
              ap (λ x. x.0)
                  (analyze_call-blocked l p sp c call reason_no_balance until m (ground (arith, e))
                    (λ z. n (sym same ∙ z))
                    (ap (λ i. find (λ (c : Client D). c.id) i l.client) same ∙ f)
                    (ap (λ i. lookup i m) same ∙ h)),
              rest,
            )
      ]

-- A call over a client's trunk consumes the credit of an account that is not blocked yet and that
-- had credit left before it. The call is let in, and of the calls that follow, of this account and of
-- others in any order, each one of this account that is not exempt gets `low_balance`, whatever the
-- counters say by then: as long as no request of a minute later or more drops the blocks that are
-- over. The lists are the same throughout.
pub analyze_call-parallel :
    {D : Type 0}
    → ⦃d : Double D⦄
    → (l : Lists D) (p : Caller D) (sp : Spendings D) (c : Client D) (call : Call D) (m : Blocked)
      (events : List (Event D))
    → is_exempt l p sp ≡ false
    → call.account_id ≢ 0
    → find (λ (c : Client D). c.id) call.account_id l.client ≡ some c
    → lookup call.account_id m ≡ none
    → call.trunk_service_id ≢ 0
    → is_consumed_credit_limit c (spent_balance sp c call) ≡ true
    → is_consumed_credit_limit c (d.add (spent_balance sp c call) (d.neg call.cost)) ≡ false
    → All (IsBefore (sp.now + 60)) events
    → ((analyze_call l p sp call m).0 ≡ accept)
      × All
          (λ a. a ≡ low_balance)
          (account_answers l call.account_id events (analyze_call l p sp call m).1)
analyze_call-parallel l p sp c call m events e n f g t h k b =
    let first = analyze_call-last l p sp c call m e n f g t h k in
    (
      ap (λ x. x.0) first,
      account_answers-low l call.account_id c (sp.now + 60) events _ n f
          (ap (λ x. lookup call.account_id x.1) first ∙ lookup-insert_self call.account_id _ m) b,
    )
