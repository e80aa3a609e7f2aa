-- ===== src/Billing/Loop/Rounds.antt =====
-- One round of `Billing::calc`: what it bills, or why it leaves the loop.
use mathlib.Core.List.{append_assoc}
use mathlib.Core.Option.{some-injective}
use voipbill.Prelude.{
  ℕ, ◌≡◌, refl, sym, ap, ◌∙◌, Bool, true, false, Option, none, some, List, [], ◌∷◌, ◌++◌, leb,
  if◌then◌else◌, arith, Bool-cases, Option-cases, inl, inr, ◌⊎◌,
}
use voipbill.Models.Double.{Double}
use voipbill.Models.Call.{Cdr, Call}
use voipbill.Mega.{Tables}
use voipbill.Cdrs.{CdrManager, remove_first_cdr, get_first_cdr}
use voipbill.Calls
use voipbill.Container
use voipbill.Container.{Container}
use voipbill.Container.Records.{SameCdrs, elim-SameCdrs, some-SameCdrs, add_call-SameCdrs}
use voipbill.Container.Legs.{legs_of, add_call-HasLegs}
use voipbill.Billing.Monad.{CallInfo, Ctx}
use voipbill.Billing.Repository.{Repository}
use voipbill.Billing.Loop.{
  Round, left, again, faulted, calc_leg, bill_cdr, remove_billed, round, with_counters, first_leg,
  second_leg, is_technical,
}

first_of :
    (m : CdrManager) (l : List Cdr) (cdr : Cdr)
    → m.queue ≡ l
    → get_first_cdr m ≡ some cdr
    → (q : CdrManager) × (remove_first_cdr m ≡ some q) × (m.queue ≡ cdr ∷ q.queue)
unfolding get_first_cdr remove_first_cdr
first_of m [] cdr e h = absurd (ground (arith, e, h))
first_of m (a ∷ l) cdr e h =
    let same : some a ≡ some cdr = rw e at h in
    (record m { queue = l }, rw e refl, rw e (ap (λ x. x ∷ l) (some-injective _ _ same)))

-- Where an Option that is read first has a result, it had a value.
known {ℓ} :
    {A B : Type 0} (o : Option A) (f : A → Option B) (P : B → Type ℓ)
    → ((a : A) → o ≡ some a → (b : B) → f a ≡ some b → P b)
    → (b : B) → elim o [ none ↦ none | some a ↦ f a ] ≡ some b
    → P b
known none f P h b e = absurd (ground (arith, e))
known (some a) f P h b e = h a refl b e

module _ {D : Type 0} ⦃d : Double D⦄ (rules : ℕ) (prepare : Cdr → Option (Repository D))
    (tables : Repository D → Tables) (now : ℕ) where
  -- Why the loop is left: the queue of legs is full, no record is left, or the tables are not there
  -- for the time of the next record.
  abbrev pub Stopped : Container D → Type 0
  Stopped c =
      (leb Calls.max_queue_size (Calls.get_queue_size c.calls) ≡ true)
      ⊎ ((get_first_cdr c.cdrs ≡ none)
          ⊎ ((cdr : Cdr) × (get_first_cdr c.cdrs ≡ some cdr) × (prepare cdr ≡ none)))

  -- What billing a record makes of the legs. Those of a technical call are not kept; otherwise two
  -- are new behind the others: the ones that `billingCall.calc` makes of the first leg, and of the
  -- second one after it.
  abbrev pub LegsMade : Repository D → Cdr → (c c' : Container D) → (technical : Bool) → Type 0
  LegsMade r cdr c c' true = legs_of c' ≡ legs_of c
  LegsMade r cdr c c' false =
      (x y : Ctx D) × (calc_leg rules prepare tables now r cdr
          (first_leg rules prepare tables now cdr c) c
        ≡ some x)
      × (calc_leg rules prepare tables now r cdr (second_leg rules prepare tables now cdr x.call c)
            (with_counters rules prepare tables now x c)
          ≡ some y)
      × (legs_of c' ≡ legs_of c ++ (x.call ∷ y.call ∷ []))

  -- A round takes the first record off the queue, and bills it.
  abbrev pub Took : Container D → Cdr → Container D → Type 0
  Took c cdr c' =
      (r : Repository D) × (prepare cdr ≡ some r)
      × (c.cdrs.queue ≡ cdr ∷ c'.cdrs.queue)
      × LegsMade r cdr c c' (is_technical rules prepare tables now r cdr)

  -- Billing the first record is a fault.
  abbrev pub Faulty : Container D → Type 0
  Faulty c =
      (cdr : Cdr) × (r : Repository D) × (get_first_cdr c.cdrs ≡ some cdr)
      × (prepare cdr ≡ some r)
      × (is_technical rules prepare tables now r cdr ≡ false)
      × (bill_cdr rules prepare tables now r cdr c ≡ none)

  -- From `c`, a round leaves the loop for one of these reasons, or bills a record.
  abbrev pub Goes : Container D → Round (Container D) → Type 0
  Goes c (left c') = (c' ≡ c) × Stopped c
  Goes c (again c') = (cdr : Cdr) × Took c cdr c'
  Goes c faulted = Faulty c

  -- The records that leave the queue do not change what was billed.
  removed-LegsMade :
      (r : Repository D) (cdr : Cdr) (c c' : Container D) (q : CdrManager) (b : Bool)
      → LegsMade r cdr c c' b
      → LegsMade r cdr c (record c' { cdrs = q }) b
  removed-LegsMade r cdr c c' q true h = h
  removed-LegsMade r cdr c c' q false h = h

  remove_billed-Goes :
      (c : Container D) (cdr : Cdr) (r : Repository D) (x : Option (Container D))
      → get_first_cdr c.cdrs ≡ some cdr
      → prepare cdr ≡ some r
      → SameCdrs c.cdrs x
      → ((c' : Container D)
          → x ≡ some c'
          → LegsMade r cdr c c' (is_technical rules prepare tables now r cdr))
      → (x ≡ none
          → (is_technical rules prepare tables now r cdr ≡ false)
            × (bill_cdr rules prepare tables now r cdr c ≡ none))
      → Goes c (remove_billed rules prepare tables now x)
  remove_billed-Goes c cdr r none e p h b f = let (t, n) = f refl in (cdr, r, e, p, t, n)
  remove_billed-Goes c cdr r (some c') e p h b f =
      let (q, g, k) = first_of c.cdrs c.cdrs.queue cdr refl e in
      let removed = ap remove_first_cdr (h c' refl) ∙ g in
      let billed =
        removed-LegsMade r cdr c c' q (is_technical rules prepare tables now r cdr) (b c' refl) in
      rw (removed, Goes) (cdr, (r, p, k, billed))

  second_call :
      (c : Container D) (x y : Call D) (i j : CallInfo D)
      → SameCdrs c.cdrs
          (elim (Container.add_call x i c) [ none ↦ none | some c' ↦ Container.add_call y j c' ])
  second_call c x y i j = elim (Option-cases (Container.add_call x i c)) [
    | inl e ↦ rw e (λ c' h. absurd (ground (arith, h)))
    | inr (c1, e) ↦ rw e (λ c2 h. add_call-SameCdrs y j c1 c2 h ∙ add_call-SameCdrs x i c c1 e)
  ]

  bill_cdr-SameCdrs :
      (r : Repository D) (cdr : Cdr) (c : Container D)
      → SameCdrs c.cdrs (bill_cdr rules prepare tables now r cdr c)
  unfolding bill_cdr
  bill_cdr-SameCdrs r cdr c =
      elim-SameCdrs c.cdrs
        (calc_leg rules prepare tables now r cdr (first_leg rules prepare tables now cdr c) c) _
        λ x.
          elim-SameCdrs c.cdrs
            (calc_leg rules prepare tables now r cdr
              (second_leg rules prepare tables now cdr x.call c)
              (with_counters rules prepare tables now x c))
            _
            λ y.
              second_call (with_counters rules prepare tables now y c) x.call y.call x.info y.info

  two_legs :
      (c c1 : Container D) (x y : Call D) (i j : CallInfo D)
      → elim (Container.add_call x i c) [ none ↦ none | some c' ↦ Container.add_call y j c' ]
        ≡ some c1
      → legs_of c1 ≡ legs_of c ++ (x ∷ y ∷ [])
  two_legs c c1 x y i j =
      known (Container.add_call x i c) (λ c'. Container.add_call y j c') _
        (λ c2 e c3 g.
          add_call-HasLegs y j c2 c3 g
          ∙ ap (λ l. l ++ (y ∷ [])) (add_call-HasLegs x i c c2 e)
          ∙ append_assoc (legs_of c) (x ∷ []) (y ∷ []))
        c1

  bill_cdr-LegsMade :
      (r : Repository D) (cdr : Cdr) (c c1 : Container D)
      → bill_cdr rules prepare tables now r cdr c ≡ some c1
      → LegsMade r cdr c c1 false
  unfolding bill_cdr
  bill_cdr-LegsMade r cdr c =
      known (calc_leg rules prepare tables now r cdr (first_leg rules prepare tables now cdr c) c) _
        (λ c1. LegsMade r cdr c c1 false)
        λ x e.
          known
            (calc_leg rules prepare tables now r cdr
              (second_leg rules prepare tables now cdr x.call c)
              (with_counters rules prepare tables now x c))
            _ (λ c1. LegsMade r cdr c c1 false)
            λ y g c1 h. (
              x,
              y,
              e,
              g,
              two_legs (with_counters rules prepare tables now y c) c1 x.call y.call x.info y.info
                  h,
            )

  maybe_skipped-LegsMade :
      (r : Repository D) (cdr : Cdr) (c : Container D) (b : Bool) (c1 : Container D)
      → (if b then some c else bill_cdr rules prepare tables now r cdr c) ≡ some c1
      → LegsMade r cdr c c1 b
  maybe_skipped-LegsMade r cdr c true c1 e = ap legs_of (sym (some-injective _ _ e))
  maybe_skipped-LegsMade r cdr c false c1 e = bill_cdr-LegsMade r cdr c c1 e

  maybe_skipped-none :
      (r : Repository D) (cdr : Cdr) (c : Container D) (b : Bool)
      → (if b then some c else bill_cdr rules prepare tables now r cdr c) ≡ none
      → (b ≡ false) × (bill_cdr rules prepare tables now r cdr c ≡ none)
  maybe_skipped-none r cdr c true e = absurd (ground (arith, e))
  maybe_skipped-none r cdr c false e = (refl, e)

  maybe_skipped :
      (r : Repository D) (cdr : Cdr) (c : Container D) (b : Bool)
      → SameCdrs c.cdrs (if b then some c else bill_cdr rules prepare tables now r cdr c)
  maybe_skipped r cdr c true = some-SameCdrs c.cdrs c refl
  maybe_skipped r cdr c false = bill_cdr-SameCdrs r cdr c

  billed_round :
      (c : Container D) (cdr : Cdr) (r : Repository D)
      → get_first_cdr c.cdrs ≡ some cdr
      → prepare cdr ≡ some r
      → Goes c (
          remove_billed rules prepare tables now (
            if is_technical rules prepare tables now r cdr
            then some c
            else bill_cdr rules prepare tables now r cdr c))
  billed_round c cdr r g p =
      let technical = is_technical rules prepare tables now r cdr in
      remove_billed-Goes c cdr r _ g p (maybe_skipped r cdr c technical)
        (maybe_skipped-LegsMade r cdr c technical) (maybe_skipped-none r cdr c technical)

  pub round-Goes : (c : Container D) → Goes c (round rules prepare tables now c)
  unfolding round
  round-Goes c = elim (Bool-cases (leb Calls.max_queue_size (Calls.get_queue_size c.calls))) [
    | inl e ↦ rw e (refl, inl e)
    | inr e ↦ elim (Option-cases (get_first_cdr c.cdrs)) [
      | inl g ↦ rw (e, g) (refl, inr (inl g))
      | inr (cdr, g) ↦ elim (Option-cases (prepare cdr)) [
        | inl p ↦ rw (e, g) (rw p (refl, inr (inr (cdr, g, p))))
        | inr (r, p) ↦ rw (e, g) (rw p (billed_round c cdr r g p))
      ]
    ]
  ]
