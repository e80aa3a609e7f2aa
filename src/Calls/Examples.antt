-- ===== src/Calls/Examples.antt =====
-- The queue of legs with one leg that is added and saved.
use voipbill.Prelude.{◌≡◌, refl, some, List, [], ◌∷◌, ◌++◌, ℤ, pos, negsuc}
use voipbill.Models.Call.{Call, of_cdr}
use voipbill.Samples.{local_call}
use voipbill.Calls.{
  CallsManager, push_last, last, clear, add, is_need_save, is_need_create_partition_before_save,
  is_need_create_partition_after_add, create_new_partition, remove_first,
  remove_partition_after_save, add_call, begin_save, legs_to_save,
}
use voipbill.Calls.Pending.{pending}
use voipbill.Calls.Queue.{
  State, Phase, Reach, here, next, add_leg, begin, capture, commit, start, Reach-Kept, idle,
  started, captured,
}
use voipbill.Calls.Drain.{all_written}

abbrev one_leg : CallsManager ℤ
one_leg = record {
  parts = (local_call ∷ []) ∷ [];
  realtime_last_id = pos 9;
  stored_last_id = negsuc 0;
  realtime_last_time = 1000;
  stored_last_time = 0;
  realtime_counter = 1;
  stored_counter = 0;
}

abbrev saving : CallsManager ℤ
saving = record one_leg { parts = (local_call ∷ []) ∷ [] ∷ [] }

abbrev saved : CallsManager ℤ
saved = record one_leg {
  parts = [] ∷ [];
  stored_last_id = pos 9;
  stored_last_time = 1000;
  stored_counter = 1;
}

abbrev at : CallsManager ℤ → Phase ℤ → (written : List (Call ℤ)) → State ℤ
at m phase written = record {
  manager = m;
  phase = phase;
  added = local_call ∷ [];
  written = written;
}

adds_leg : add_call local_call start.manager ≡ some one_leg
unfolding start clear add_call add push_last is_need_create_partition_after_add last of_cdr
adds_leg = refl

queued : Reach start (at one_leg idle [])
unfolding start
queued = next here (add_leg local_call one_leg adds_leg)

begun : Reach start (at saving started [])
unfolding begin_save is_need_create_partition_before_save create_new_partition is_need_save
begun = next queued (begin refl refl)

reading : Reach start (at saving (captured (local_call ∷ [])) [])
unfolding legs_to_save
reading = next begun (capture refl)

removes : remove_partition_after_save saving ≡ some saved
unfolding remove_partition_after_save remove_first last of_cdr
removes = refl

done : Reach start (at saved idle (local_call ∷ []))
done = next reading (commit (local_call ∷ []) saved refl removes)

Reach-Kept_example :
    (local_call ∷ [] ≡ (local_call ∷ []) ++ pending saved.parts)
    × (saved.realtime_counter ≡ 1)
    × (saved.stored_counter ≡ 1)
Reach-Kept_example = Reach-Kept done

all_written_example :
    (t : State ℤ) × Reach (at one_leg idle []) t
    × (t.added ≡ local_call ∷ [])
    × (t.written ≡ local_call ∷ [])
all_written_example = all_written queued refl
