-- ===== src/Auth/Process/Answered.antt =====
-- What the caller of the processor gets.
use voipbill.Prelude.{
  ℕ, ◌==◌, ◌≡◌, ◌≢◌, refl, true, ◌&&◌, ◌||◌, ◌⊎◌, inl, inr, Bool-cases, some, Option-cases,
}
use voipbill.Text.{str_eqb}
use voipbill.Models.Double.{Double}
use voipbill.Models.Trunk.{Server}
use voipbill.Models.Routing.{RadiusAuthRequest, RadiusAuthResponse}
use voipbill.Auth.{Caller, AuthError, Result, ok, thrown, fault, out_of_fuel, Post, bind-Post}
use voipbill.Auth.RouteTable.{process_route_table}
use voipbill.Auth.Limits.{
  BillResponse, accept, reject, low_balance, voip_disabled, Blocked, analyze_call,
}
use voipbill.Auth.Process.{
  Billed, Site, is_unknown_trunk, fallback, init, process_redirect_number,
  process_line_without_number, cdr_of, mega_of, intercept, special, to_outcome, route, caught,
  authorise, process_caller, process,
}
use voipbill.Auth.Answer.Accepted.{Accepted, process_outcome-Accepted}

-- No exception gets out.
abbrev pub Caught {ℓ} : {A : Type ℓ} → (A → Type 0) → Result A → Type 0
Caught P (ok a) = P a
Caught P (thrown e) = ⊥
Caught P fault = Unit
Caught P out_of_fuel = Unit

fallback-accept : (e : AuthError) (r : RadiusAuthResponse) → (fallback e r).accept ≡ true
unfolding fallback
fallback-accept e r = elim (Bool-cases (is_unknown_trunk e)) [
  | inl h ↦ rw h refl
  | inr h ↦ rw h refl
]

module _ {D : Type 0} ⦃d : Double D⦄ (x : Site D) where
  -- The caller of a request as the billing takes it.
  abbrev pub billed_caller : Caller D → Billed D → Caller D
  billed_caller p b = record (process_redirect_number x p) { account = b.account }

  -- The billing of the request does not accept the call.
  pub record Refused (q : RadiusAuthRequest) (blocked : Blocked) : Type 0 where
    pub caller : Caller D
    pub server : Server
    pub billed : Billed D
    pub initiated : init x q ≡ ok (caller, server)
    pub is_billed :
        x.bill
          (process_redirect_number x caller)
          (cdr_of x (process_redirect_number x caller).request)
          (mega_of x (process_redirect_number x caller))
        ≡ some billed
    pub unpaid :
        (analyze_call x.lists (billed_caller caller billed) x.spendings billed.call blocked).0
        ≢ accept

  abbrev AcceptedOr : Type 0 → Result RadiusAuthResponse → Type 0
  AcceptedOr R = Post (λ a. (a.accept ≡ true) ⊎ R)

  or_else : (R : Type 0) (m : Result RadiusAuthResponse) → Accepted m → AcceptedOr R m
  or_else R (ok a) h = inl h
  or_else R (thrown e) h = tt
  or_else R fault h = tt
  or_else R out_of_fuel h = tt

  to_outcome-Accepted :
      (R : Type 0) (id : ℕ) (p : Caller D) (s : Server) (b : Billed D) (r : RadiusAuthResponse)
      → AcceptedOr R (to_outcome x id p s b r)
  to_outcome-Accepted R id p s b r = or_else R _ (
      process_outcome-Accepted x.lists p x.rates x.sort x.shuffle x.spendings.now x.counters id s
        b.mega b.call_incoming_from_megatrunk r)

  special-Accepted :
      (R : Type 0)
      → R
      → (id : ℕ) (p : Caller D) (s : Server) (b : Billed D) (r : RadiusAuthResponse)
      → AcceptedOr R (special x id p s b r)
  special-Accepted R h id p s b r = elim (Bool-cases (id == 0)) [
    | inl e ↦ rw e (inr h)
    | inr e ↦ rw e (to_outcome-Accepted R id p s b r)
  ]

  route-Accepted :
      (response : BillResponse) (p : Caller D) (s : Server) (b : Billed D) (r : RadiusAuthResponse)
      → AcceptedOr (response ≢ accept) (route x response p s b r)
  unfolding route
  route-Accepted voip_disabled p s b r = special-Accepted _ (λ e. cc) s.blocked_outcome_id p s b r
  route-Accepted low_balance p s b r = special-Accepted _ (λ e. cc) s.low_balance_outcome_id p s b r
  route-Accepted reject p s b r = inr (λ e. cc)
  route-Accepted accept p s b r =
      bind-Post _ (process_route_table x.lists p b.mega x.fuel p.orig_trunk.route_table_id s) _
        λ found _. elim (Bool-cases (found.0 == 0)) [
          | inl e ↦ rw e (inl refl)
          | inr e ↦ rw e (to_outcome-Accepted _ found.0 p found.1 b r)
        ]

  -- The response is accepted, or else there is a reason.
  abbrev pub Answers : Type 0 → Result (RadiusAuthResponse × Blocked) → Type 0
  Answers R = Caught (λ a. (a.0.accept ≡ true) ⊎ R)

  caught-Answers :
      (R : Type 0) (r : RadiusAuthResponse) (m : Blocked) (a : Result RadiusAuthResponse)
      → AcceptedOr R a
      → Answers R (caught x r m a)
  unfolding caught
  caught-Answers R r m (ok a) h = h
  caught-Answers R r m (thrown e) h = inl (fallback-accept e r)
  caught-Answers R r m fault h = tt
  caught-Answers R r m out_of_fuel h = tt

  AcceptedOr-map :
      (R S : Type 0) (m : Result RadiusAuthResponse) → (R → S) → AcceptedOr R m → AcceptedOr S m
  AcceptedOr-map R S (ok a) f (inl h) = inl h
  AcceptedOr-map R S (ok a) f (inr h) = inr (f h)
  AcceptedOr-map R S (thrown e) f h = tt
  AcceptedOr-map R S fault f h = tt
  AcceptedOr-map R S out_of_fuel f h = tt

  process_caller-Answers :
      (q : RadiusAuthRequest) (p : Caller D) (s : Server) (r : RadiusAuthResponse) (m : Blocked)
      → init x q ≡ ok (p, s)
      → Answers (Refused q m) (process_caller x p s r m)
  unfolding process_caller authorise
  process_caller-Answers q p s r m i =
      elim (Bool-cases (
        (x.lists.instance_id == 99 || p.request.region == 99)
        && str_eqb p.request.calling_party_category intercept)) [
          | inl e ↦ rw e (inl refl)
          | inr e ↦
              let p' = process_redirect_number x p in
              elim (Option-cases (x.bill p' (cdr_of x p'.request) (mega_of x p'))) [
                | inl g ↦ rw (e, authorise, g) tt
                | inr (b, g) ↦
                    let r' = process_line_without_number x s p' r in
                    let y = analyze_call x.lists (billed_caller p b) x.spendings b.call m in
                    rw (e, authorise, g)
                      (caught-Answers _ r' y.1 _ (
                        AcceptedOr-map _ (Refused q m) (route x y.0 (billed_caller p b) s b r')
                          (λ n. record {
                            caller = p;
                            server = s;
                            billed = b;
                            initiated = i;
                            is_billed = g;
                            unpaid = n;
                          })
                          (route-Accepted y.0 (billed_caller p b) s b r')))
              ]
        ]

  -- `process` lets no exception out, and where it answers with a reject, the billing did not accept the call: the request was taken in by `init`, its call was billed, and `analyzeCall` gave an answer other than "accept".
  pub process-Answers :
      (q : RadiusAuthRequest) (r : RadiusAuthResponse) (m : Blocked)
      → Answers (Refused q m) (process x q r m)
  unfolding process
  process-Answers q r m = with_init (init x q) refl
    where
      with_init :
          (i : Result (Caller D × Server))
          → init x q ≡ i
          → Answers (Refused q m) (elim i [
            | ok (p, s) ↦ process_caller x p s r m
            | thrown e ↦ ok (fallback e r, m)
            | fault ↦ fault
            | out_of_fuel ↦ out_of_fuel
          ])
      with_init (ok (p, s)) e = process_caller-Answers q p s r m e
      with_init (thrown e) _ = inl (fallback-accept e r)
      with_init fault _ = tt
      with_init out_of_fuel _ = tt
