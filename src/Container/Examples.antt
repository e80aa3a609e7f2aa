-- ===== src/Container/Examples.antt =====
-- The partitions of a container with one leg.
use voipbill.Prelude.{◌≡◌, refl, true, some, [], ◌∷◌, ℤ, arith}
use voipbill.Samples.{units, local_call, sample_info, sample_container}
use voipbill.Stats.Ledger.{empty}
use voipbill.Calls.{is_need_save, is_need_create_partition_before_save}
use voipbill.Container.{Container, begin_save, create_new_partition, remove_partition_after_save}
use voipbill.Container.Partitions.{InStep, add_calls, save-InStep}

sample_container-InStep : InStep ⦃d = units⦄ sample_container
unfolding empty
sample_container-InStep = record {
  some_part = omega arith;
  account = refl;
  freemin = refl;
  packages = refl;
  trunk_settings = refl;
  minutes = refl;
}

begins :
    begin_save ⦃d = units⦄ sample_container
    ≡ some (true, create_new_partition ⦃d = units⦄ sample_container)
unfolding begin_save is_need_save is_need_create_partition_before_save
begins = refl

save-InStep_example :
    (c2 c3 : Container ℤ) × (add_calls ⦃d = units⦄
        ((local_call, sample_info) ∷ [])
        (create_new_partition ⦃d = units⦄ sample_container)
      ≡ some c2)
    × (remove_partition_after_save ⦃d = units⦄ c2 ≡ some c3)
    × InStep ⦃d = units⦄ c3
save-InStep_example =
    save-InStep ⦃d = units⦄ ((local_call, sample_info) ∷ []) sample_container
      (create_new_partition ⦃d = units⦄ sample_container) sample_container-InStep begins
