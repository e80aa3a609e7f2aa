-- ===== src/Billing/Loop/Examples.antt =====
-- The loop over the one record of a container.
use voipbill.Prelude.{◌≡◌, refl, true, some}
use voipbill.Mega.Examples.{sample_tables}
use voipbill.Samples.{units, sample_container, sample_repository}
use voipbill.Stats.Ledger.{empty}
use voipbill.Cdrs
use voipbill.Calls
use voipbill.Container
use voipbill.Billing.Loop.{calc_queue}
use voipbill.Billing.Loop.Ends.{Ends, calc_queue-Ends}

is_ready : Container.ready ⦃d = units⦄ true sample_container ≡ true
unfolding Container.ready Cdrs.ready Calls.ready empty
is_ready = refl

calc_queue-Ends_example :
    Ends ⦃d = units⦄ 3
      (λ cdr. some sample_repository)
      (λ r. sample_tables)
      1500
      sample_container
      (calc_queue ⦃d = units⦄ 3
        (λ cdr. some sample_repository)
        (λ r. sample_tables)
        1500
        true
        sample_container)
calc_queue-Ends_example =
    calc_queue-Ends ⦃d = units⦄ 3 (λ cdr. some sample_repository) (λ r. sample_tables) 1500 true
      sample_container is_ready
