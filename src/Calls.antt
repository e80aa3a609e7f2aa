-- ===== src/Calls.antt =====
-- src-bill/classes/CallsManager.cpp: the legs that wait to be saved, in partitions with the newest
-- one last, and what was stored. A `none` is the exception of `vector::at`, or the removal of the
-- first of no partitions.
pub mod Pending
pub mod Queue
pub mod Added
pub mod Drain
pub mod Examples
use voipbill.Prelude.{
  ℕ, ◌+◌, ◌==◌, Bool, ◌&&◌, ◌||◌, Option, none, some, List, [], ◌∷◌, ◌++◌, length, ltb, leb,
  if◌then◌else◌, ℤ, pos, negsuc, leb_ℤ,
}
use voipbill.Models.Call.{Call}

pub record CallsManager (D : Type 0) : Type 0 where
  pub parts : List (List (Call D))
  pub realtime_last_id : ℤ
  pub stored_last_id : ℤ
  pub realtime_last_time : ℕ
  pub stored_last_time : ℕ
  pub realtime_counter : ℕ
  pub stored_counter : ℕ

-- `CALLS_PARTITION_SIZE` and `CALLS_MAX_QUEUE_SIZE`.
abbrev pub partition_size : ℕ
partition_size = 50000

abbrev pub max_queue_size : ℕ
max_queue_size = 1000000

module _ {ℓ} {A : Type ℓ} where
  -- `parts.at(parts.size() - 1).push_back(a)`.
  pub push_last : A → List (List A) → Option (List (List A))
  push_last a [] = none
  push_last a (p ∷ []) = some ((p ++ (a ∷ [])) ∷ [])
  push_last a (p ∷ q ∷ ps) =
      let rest = push_last a (q ∷ ps) in elim rest [ none ↦ none | some ps' ↦ some (p ∷ ps') ]

  -- `v.at(v.size() - 1)`.
  pub last : List A → Option A
  last [] = none
  last (a ∷ []) = some a
  last (a ∷ b ∷ rest) = last (b ∷ rest)

  pub total_size : List (List A) → ℕ
  total_size [] = 0
  total_size (p ∷ ps) = length p + total_size ps

module _ {D : Type 0} where
  pub clear : CallsManager D
  clear = record {
    parts = [] ∷ [];
    realtime_last_id = negsuc 0;
    stored_last_id = negsuc 0;
    realtime_last_time = 0;
    stored_last_time = 0;
    realtime_counter = 0;
    stored_counter = 0;
  }

  unfoldable pub ready : CallsManager D → Bool
  ready m = leb_ℤ (pos 0) m.realtime_last_id && leb_ℤ (pos 0) m.stored_last_id

  pub add : Call D → CallsManager D → Option (CallsManager D)
  unfolding push_last
  add call m = elim (push_last call m.parts) [
    | none ↦ none
    | some parts ↦ some (record m {
      parts = parts;
      realtime_last_id = pos call.id;
      realtime_last_time = call.connect_time;
      realtime_counter = m.realtime_counter + 1;
    })
  ]

  pub get_queue_size : CallsManager D → ℕ
  unfolding total_size
  get_queue_size m = total_size m.parts

  unfoldable pub is_need_save : CallsManager D → Option Bool
  is_need_save m = elim m.parts [
    | [] ↦ none
    | p ∷ ps ↦ some (ltb 0 (length p) || ltb 1 (length m.parts))
  ]

  unfoldable pub is_need_create_partition_before_save : CallsManager D → Bool
  is_need_create_partition_before_save m = length m.parts == 1

  unfoldable pub is_need_create_partition_after_add : CallsManager D → Option Bool
  unfolding last
  is_need_create_partition_after_add m = elim (last m.parts) [
    | none ↦ none
    | some p ↦ some (leb partition_size (length p))
  ]

  unfoldable pub create_new_partition : CallsManager D → CallsManager D
  create_new_partition m = record m { parts = m.parts ++ ([] ∷ []) }

  -- What is stored after the partition `p` was saved.
  abbrev pub store : List (Call D) → CallsManager D → CallsManager D
  store p m = elim (last p) [
    | none ↦ m
    | some call ↦ record m {
      stored_counter = m.stored_counter + length p;
      stored_last_id = pos call.id;
      stored_last_time = call.connect_time;
    }
  ]

  unfoldable pub remove_first : CallsManager D → List (List (Call D)) → Option (CallsManager D)
  unfolding last
  remove_first m [] = none
  remove_first m (p ∷ ps) = some (record (store p m) { parts = ps })

  unfoldable pub remove_partition_after_save : CallsManager D → Option (CallsManager D)
  unfolding remove_first
  remove_partition_after_save m = remove_first m m.parts

  -- What `DataBillingContainer::addCall` does to the queue.
  pub add_call : Call D → CallsManager D → Option (CallsManager D)
  unfolding add is_need_create_partition_after_add create_new_partition
  add_call call m = elim (add call m) [
    | none ↦ none
    | some m' ↦ elim (is_need_create_partition_after_add m') [
      | none ↦ none
      | some full ↦ some (if full then create_new_partition m' else m')
    ]
  ]

  -- What the first step of `DataBillingContainer::save` does to the queue.
  pub begin_save : CallsManager D → CallsManager D
  unfolding is_need_create_partition_before_save create_new_partition
  begin_save m = if is_need_create_partition_before_save m then create_new_partition m else m

  -- The legs of `prepareSaveQueries`, those of the first partition.
  pub legs_to_save : CallsManager D → List (Call D)
  legs_to_save m = elim m.parts [ [] ↦ [] | p ∷ ps ↦ p ]
