-- ===== src/Stats/Examples.antt =====
-- The ledgers at a concrete service.
use mathlib.Core.Option.{some-injective}
use voipbill.Prelude.{
  ◌+ℤ◌, ap, sym, ◌∙◌, true, Bool-cases, inl, inr, ==_iff, ◌==◌, ℕ, ◌≡◌, refl, [], ◌∷◌, pos, some,
  arith, ℤ,
}
use voipbill.Models.Call.{Call, of_cdr}
use voipbill.Models.Tariff.{
  StatsFreemin, StatsNnpPackageMinute, NnpPackageMinute, NnpAccountTariffLight,
}
use voipbill.Map.{lookup, insert, add}
use voipbill.Samples.{units, local_call}
use voipbill.Stats.Freemin
use voipbill.Stats.Minute
use voipbill.Stats.Ledger.{Ledger, empty, get_current, charge}
use voipbill.Stats.Ledger.Laws.{empty-IsValid, get_current_lem, charge-some}
use voipbill.Stats.Usage.{FreeminIsValid, add_all, total, add_all-total, minute-get_current_shared}

abbrev sample_stats : StatsFreemin ℤ
sample_stats = record {
  id = 1;
  service_number_id = 5;
  month_dt = pos 0;
  used_seconds = pos 30;
  used_credit = pos 0;
  min_call_id = 0;
  max_call_id = 0;
}

-- One counter.
abbrev sample_ledger : Ledger (StatsFreemin ℤ)
sample_ledger = record {
  last_id = 1;
  stats = (1, sample_stats) ∷ [];
  index = (5, 1 ∷ []) ∷ [];
  for_sync = [];
  parts = [] ∷ [];
  loaded = true;
}

sample-IsValid : FreeminIsValid ⦃d = units⦄ sample_ledger
unfolding lookup
sample-IsValid = record {
  ids = λ i s m. elim (Bool-cases (i == 1)) [
    | inl e ↦
        let same : some sample_stats ≡ some s = ground arith in
        let one : i ≡ 1 = (==_iff i 1).0 e in
        (ap (λ (t : StatsFreemin ℤ). t.id) (sym (some-injective _ _ same)) ∙ sym one, omega arith)
    | inr e ↦ absurd (ground arith)
  ];
  indexed = λ k i c. (sample_stats, ground arith, ground arith);
  sent = λ i c. cc;
  parted = λ e. cc;
}

sample_lookup : lookup 1 sample_ledger.stats ≡ some sample_stats
unfolding lookup
sample_lookup = refl

abbrev free_call : Call ℤ
free_call = record local_call {
  service_package_id = 1;
  service_package_stats_id = 1;
  package_time = pos 120;
}

adds : total ⦃d = units⦄ 1 (free_call ∷ free_call ∷ []) ≡ pos 240
unfolding of_cdr
adds = refl

get_current_lem_example :
    (s : StatsFreemin ℤ) × (l' : Ledger (StatsFreemin ℤ)) × (get_current
        (Freemin.is_of_month ⦃d = units⦄ (pos 0))
        6
        (Freemin.create_stats_freemin ⦃d = units⦄ 6 (pos 0))
        sample_ledger
      ≡ some (s, l'))
    × FreeminIsValid ⦃d = units⦄ l'
    × (Freemin.is_of_month ⦃d = units⦄ (pos 0) s ≡ true)
    × (s.service_number_id ≡ 6)
    × (lookup s.id l'.stats ≡ some s)
    × ((other : ℕ → StatsFreemin ℤ)
        → get_current (Freemin.is_of_month ⦃d = units⦄ (pos 0)) 6 other l' ≡ some (s, l'))
get_current_lem_example =
    get_current_lem (λ s. s.id) (λ s. s.service_number_id) (Freemin.is_of_month ⦃d = units⦄ (pos 0))
      6 (Freemin.create_stats_freemin ⦃d = units⦄ 6 (pos 0)) sample_ledger sample-IsValid
      (λ i. (refl, refl, refl))

charge-some_example :
    (l' : Ledger (StatsFreemin ℤ)) × (charge 1
        (Freemin.use_freemin ⦃d = units⦄ free_call)
        sample_ledger
      ≡ some l')
    × FreeminIsValid ⦃d = units⦄ l'
    × (l'.stats
        ≡ insert 1 (Freemin.use_freemin ⦃d = units⦄ free_call sample_stats) sample_ledger.stats)
    × (l'.for_sync ≡ add 1 [])
charge-some_example =
    charge-some (λ s. s.id) (λ s. s.service_number_id) 1 (Freemin.use_freemin ⦃d = units⦄ free_call)
      sample_ledger sample-IsValid (λ s. (refl, refl)) sample_stats sample_lookup

add_all-total_example :
    (l' : Ledger (StatsFreemin ℤ)) × (s' : StatsFreemin ℤ) × (add_all ⦃d = units⦄
        (free_call ∷ free_call ∷ [])
        sample_ledger
      ≡ some l')
    × FreeminIsValid ⦃d = units⦄ l'
    × (lookup 1 l'.stats ≡ some s')
    × (s'.used_seconds ≡ pos 30 +ℤ total ⦃d = units⦄ 1 (free_call ∷ free_call ∷ []))
add_all-total_example =
    add_all-total ⦃d = units⦄ (free_call ∷ free_call ∷ []) sample_ledger 1 sample_stats
      sample-IsValid sample_lookup

abbrev light : NnpAccountTariffLight
light = record {
  id = 4;
  service_number_id = 5;
  nnp_tariff_id = 6;
  activate_from = pos 0;
  deactivate_from = pos 2000;
}

abbrev minutes : (id : ℕ) → NnpPackageMinute ℤ
minutes id = record { id = id; nnp_tariff_id = 6; nnp_destination_id = id; minute = pos 10 }

minute-get_current_shared_example :
    (s : StatsNnpPackageMinute ℤ) × (l' : Ledger (StatsNnpPackageMinute ℤ)) × (Minute.get_current
        ⦃d = units⦄ 1000
        (minutes 1)
        light
        (empty true)
      ≡ some (s, l'))
    × (Minute.get_current ⦃d = units⦄ 1000 (minutes 2) light l' ≡ some (s, l'))
minute-get_current_shared_example =
    minute-get_current_shared ⦃d = units⦄ 1000 (minutes 1) (minutes 2) light (empty true)
      (empty-IsValid (λ s. s.id) (λ s. s.nnp_account_tariff_light_id) true) (omega arith)
      (omega arith)

abbrev unsent : Ledger (StatsFreemin ℤ)
unsent = record sample_ledger { for_sync = 1 ∷ [] }
