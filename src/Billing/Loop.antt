-- ===== src/Billing/Loop.antt =====
-- `Billing::calc` of src-bill/classes/Billing.cpp: the two legs of every record of the queue are
-- billed and added to the container. The log of finished calls and the hash are left out.
pub mod Rounds
pub mod Ends
pub mod Examples
use voipbill.Prelude.{
  ℕ, zero, suc, ◌+◌, Bool, true, false, ◌&&◌, ◌||◌, Option, none, some, List, [], ◌∷◌, leb, length,
  if◌then◌else◌, ℤ, pos, ◌+ℤ◌, abs_ℤ,
}
use voipbill.Models.Double.{Double}
use voipbill.Models.Call.{Cdr, Call, of_cdr}
use voipbill.Mega
use voipbill.Mega.{Tables, StateMegaTrunk}
use voipbill.Cdrs
use voipbill.Calls
use voipbill.Container
use voipbill.Container.{Container}
use voipbill.Billing.Monad.{CallInfo, Ctx}
use voipbill.Billing.Repository.{Repository, MegaTrunk}
use voipbill.Billing.Calc.{calc}

-- What one round of the loop does: it leaves the loop, it goes on, or a fault ends the program.
pub data Round (C : Type 0) : Type 0 where
  left again : C → Round C
  faulted : Round C

-- The loop after some rounds: it was left, it is still in the loop, or a fault ended the program.
pub data Run (C : Type 0) : Type 0 where
  ended unfinished : C → Run C
  failed : Run C

unfoldable pub no_info : {D : Type 0} → CallInfo D
no_info = record {
  server = none;
  instance_settings = none;
  trunk = none;
  account = none;
  service_number = none;
  service_trunk = none;
  service_package_prepaid = none;
  service_package_pricelist = none;
  trunk_settings_id = none;
  log_tariff = none;
  main_tariff = none;
  tariff = none;
  tariff_package_prepaid = none;
  pricelist = none;
  price = none;
  geo = none;
  nnp_number_range = none;
  nnp_package = none;
  nnp_package_price = none;
  nnp_package_pricelist = none;
  call_incoming_from_megatrunk = false;
  day = pos 0;
  month = pos 0;
  utc_day = pos 0;
  utc_month = pos 0;
}

-- `rules` is the bound of `calc`, `prepare` is `Repository::prepare`, `tables` is what the class
-- StateMegaTrunk asks of the repository, and `now` is `time(nullptr)`.
module _ {D : Type 0} ⦃d : Double D⦄ (rules : ℕ) (prepare : Cdr → Option (Repository D))
    (tables : Repository D → Tables) (now : ℕ) where
  -- `prepareFromCdr` and `PhaseCalc`.
  pub state_of : Repository D → Cdr → StateMegaTrunk
  state_of r cdr =
      Mega.phase_calc (tables r) now
        (Mega.prepare_from_cdr (tables r) cdr [] [] (Mega.new_state r.instance_id))

  -- What `calc` asks the state of a leg.
  pub answers : Repository D → Cdr → MegaTrunk
  unfolding state_of
  answers r cdr =
      let s = state_of r cdr in
      record {
        is_force_org_auth_by_number = Mega.is_force_org_auth_by_number (tables r) now s;
        is_force_term_auth_by_number = s.need_force_term_auth_by_number;
        is_force_orig_tariffication_skip =
            (Mega.is_force_orig_tariffication_skip (tables r) now s).0;
      }

  -- A call between the regions, the legs of which are not kept.
  pub is_technical : Repository D → Cdr → Bool
  unfolding state_of
  is_technical r cdr =
      let s = state_of r cdr in
      (Mega.is_force_orig_tariffication_skip (tables r) now s).0
      || s.need_force_term_tariffication_skip
      || Mega.is_tech_orig s

  -- `billingCall.calc`, with the counters of the container.
  pub calc_leg : Repository D → Cdr → Call D → Container D → Option (Ctx D)
  unfolding answers
  calc_leg r cdr call c = calc r rules (some (answers r cdr)) cdr (record {
    call = call;
    info = no_info;
    freemin = c.stats_freemin;
    packages = c.stats_package;
    minutes = c.stats_nnp_package_minute;
  })

  -- The container with the counters that `billingCall.calc` leaves.
  abbrev pub with_counters : Ctx D → Container D → Container D
  with_counters x c = record c {
    stats_freemin = x.freemin;
    stats_package = x.packages;
    stats_nnp_package_minute = x.minutes;
  }

  abbrev pub first_leg : Cdr → Container D → Call D
  first_leg cdr c = record (of_cdr cdr true) {
    id = abs_ℤ (c.calls.realtime_last_id +ℤ pos 1);
    peer_id = abs_ℤ (c.calls.realtime_last_id +ℤ pos 2);
  }

  abbrev pub second_leg : Cdr → (first : Call D) → Container D → Call D
  second_leg cdr first c = record (of_cdr cdr false) {
    id = abs_ℤ (c.calls.realtime_last_id +ℤ pos 2);
    peer_id = abs_ℤ (c.calls.realtime_last_id +ℤ pos 1);
    src_number = first.src_number;
    dst_number = first.dst_number;
  }

  pub bill_cdr : Repository D → Cdr → Container D → Option (Container D)
  unfolding calc_leg
  bill_cdr r cdr c = elim (calc_leg r cdr (first_leg cdr c) c) [
    | none ↦ none
    | some x ↦ elim (calc_leg r cdr (second_leg cdr x.call c) (with_counters x c)) [
      | none ↦ none
      | some y ↦ elim (Container.add_call x.call x.info (with_counters y c)) [
        | none ↦ none
        | some c' ↦ Container.add_call y.call y.info c'
      ]
    ]
  ]

  -- `removeFirstCdr`, at the end of a round.
  abbrev pub remove_billed : Option (Container D) → Round (Container D)
  remove_billed none = faulted
  remove_billed (some c) = elim (Cdrs.remove_first_cdr c.cdrs) [
    | none ↦ faulted
    | some q ↦ again (record c { cdrs = q })
  ]

  pub round : Container D → Round (Container D)
  unfolding bill_cdr is_technical
  round c =
      if leb Calls.max_queue_size (Calls.get_queue_size c.calls)
      then left c
      else elim (Cdrs.get_first_cdr c.cdrs) [
        | none ↦ left c
        | some cdr ↦ elim (prepare cdr) [
          | none ↦ left c
          | some r ↦ remove_billed (if is_technical r cdr then some c else bill_cdr r cdr c)
        ]
      ]

  pub loop : (rounds : ℕ) → Container D → Run (Container D)
  unfolding round
  loop zero c = unfinished c
  loop (suc n) c = elim (round c) [ left c' ↦ ended c' | again c' ↦ loop n c' | faulted ↦ failed ]

  -- `Billing::calc` as one step, during which no other thread adds records: the source takes the
  -- lock of the records round by round, so ThreadFetchCdr.cpp may load more of them meanwhile, and
  -- the loop then goes on with these. Each round takes a record off the queue: there are no more
  -- rounds than records, and the last one, which finds none.
  pub calc_queue : (locks_ready : Bool) → Container D → Run (Container D)
  unfolding loop
  calc_queue locks_ready c =
      if Container.ready locks_ready c then loop (suc (length c.cdrs.queue)) c else ended c
