-- ===== src/Mega/Examples.antt =====
-- A call to a number whose client has a trunk in another region.
use voipbill.Prelude.{◌≡◌, refl, true, false, some, none, [], ◌∷◌}
use voipbill.Models.Trunk.{ServiceTrunk}
use voipbill.Samples.{sample_cdr, sample_number, sample_trunk}
use voipbill.Mega.{Tables, new_state, prepare_from_cdr, phase_calc, term_phase, at_term_trunk}
use voipbill.Mega.Phases.{Phased, phase_calc-Phased}

abbrev pub sample_service_trunk : ServiceTrunk
sample_service_trunk = record {
  id = 6;
  server_id = 2;
  client_account_id = 3;
  trunk_id = 8;
  activation_dt = 1000;
  expire_dt = 2000;
  orig_enabled = false;
  term_enabled = true;
}

abbrev pub sample_tables : Tables
sample_tables = record {
  get_trunk_by_name = λ name region. some sample_trunk;
  get_trunk = λ i. none;
  get_service_number = λ n. some sample_number;
  get_service_trunk_by_client_id = λ i. sample_service_trunk ∷ [];
  get_simbling_region = λ i. 1 ∷ [];
  is_region_on_hub = λ i. true;
}

phase1 :
    (phase_calc sample_tables 1500
      (prepare_from_cdr sample_tables sample_cdr [] [] (new_state 1))).is_phase1
    ≡ true
unfolding phase_calc prepare_from_cdr new_state term_phase at_term_trunk
phase1 = refl

phase_calc-Phased_example :
    Phased (
      phase_calc sample_tables 1500 (prepare_from_cdr sample_tables sample_cdr [] [] (new_state 1)))
phase_calc-Phased_example = phase_calc-Phased sample_tables 1500 1 sample_cdr [] []
