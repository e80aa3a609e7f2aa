-- ===== src/Billing/Loop/Ends.antt =====
-- `Billing::calc` ends, and why.
use voipbill.Prelude.{
  ℕ, zero, suc, ◌<◌, ◌≡◌, refl, sym, ap, subst, ◌∙◌, Bool, true, Option, List, [], ◌∷◌, ◌++◌,
  length, arith,
}
use voipbill.Models.Double.{Double}
use voipbill.Models.Call.{Cdr}
use voipbill.Mega.{Tables}
use voipbill.Container
use voipbill.Container.{Container}
use voipbill.Billing.Repository.{Repository}
use voipbill.Billing.Loop.{
  Round, left, again, faulted, Run, ended, unfinished, failed, round, loop, calc_queue,
}
use voipbill.Billing.Loop.Rounds.{Stopped, Took, Faulty, Goes, round-Goes}

module _ {D : Type 0} ⦃d : Double D⦄ (rules : ℕ) (prepare : Cdr → Option (Repository D))
    (tables : Repository D → Tables) (now : ℕ) where
  -- From `c` the records were billed, one after the other, to `c'`.
  abbrev pub Bills : Container D → List Cdr → Container D → Type 0
  Bills c [] c' = c' ≡ c
  Bills c (cdr ∷ cdrs) c' =
      (c1 : Container D) × (Took rules prepare tables now) c cdr c1 × Bills c1 cdrs c'

  -- A run that was left, for one of the reasons, or that came to a fault, after the records at the
  -- front of the queue were billed.
  abbrev pub Ends : Container D → Run (Container D) → Type 0
  Ends c (ended c') =
      (Stopped rules prepare tables now) c'
      × ((billed : List Cdr) × (c.cdrs.queue ≡ billed ++ c'.cdrs.queue) × Bills c billed c')
  Ends c (unfinished c') = ⊥
  Ends c failed =
      (billed : List Cdr) × (c' : Container D) × Bills c billed c'
      × (Faulty rules prepare tables now) c'

  Ends-again :
      (cdr : Cdr) (c c' : Container D) (x : Run (Container D))
      → (Took rules prepare tables now) c cdr c'
      → Ends c' x
      → Ends c x
  Ends-again cdr c c' (ended c'') t (s, (billed, g, b)) =
      (s, (cdr ∷ billed, t.2 ∙ ap (λ l. cdr ∷ l) g, (c', t, b)))
  Ends-again cdr c c' (unfinished _) t h = elim h [ ]
  Ends-again cdr c c' failed t (billed, c1, b, f) = (cdr ∷ billed, c1, (c', t, b), f)

  after_round :
      (n : ℕ) (c : Container D) (x : Round (Container D))
      → ((c' : Container D)
          → length c'.cdrs.queue < n
          → Ends c' (loop rules prepare tables now n c'))
      → length c.cdrs.queue < suc n
      → (Goes rules prepare tables now) c x
      → Ends c (elim x [
        | left c' ↦ ended c'
        | again c' ↦ loop rules prepare tables now n c'
        | faulted ↦ failed
      ])
  after_round n c (left c') ends h (e, s) = (
    subst (Stopped rules prepare tables now) (sym e) s,
    ([], sym (ap (λ (x : Container D). x.cdrs.queue) e), e),
  )
  after_round n c (again c') ends h (cdr, t) =
      Ends-again cdr c c' _ t (ends c' (omega (arith, h, ap (λ (l : List Cdr). length l) t.2)))
  after_round n c faulted ends h g = ([], c, refl, g)

  loop-Ends :
      (n : ℕ) (c : Container D)
      → length c.cdrs.queue < n
      → Ends c (loop rules prepare tables now n c)
  unfolding loop
  loop-Ends zero c h = absurd (omega (arith, h))
  loop-Ends (suc n) c h =
      after_round n c (round rules prepare tables now c) (loop-Ends n) h
        ((round-Goes rules prepare tables now) c)

  -- Where no other thread loads records meanwhile, `Billing::calc` of a ready container ends: with
  -- one round more than there are records, it is never still in the loop, whatever the billing of a
  -- leg does. It billed records at the front of the queue, one after the other: each of them but a
  -- technical call put two legs behind those that wait to be saved, the ones that `billingCall.calc`
  -- made of its first leg, and then of its second. After them it was left since the queue of legs is
  -- full, no record is left, or the tables are not there for the time of the next one; or the
  -- billing of the next one was a fault, which ends the program.
  pub calc_queue-Ends :
      (locks_ready : Bool) (c : Container D)
      → Container.ready locks_ready c ≡ true
      → Ends c (calc_queue rules prepare tables now locks_ready c)
  unfolding calc_queue
  calc_queue-Ends locks_ready c h = rw h (loop-Ends (suc (length c.cdrs.queue)) c (omega arith))
