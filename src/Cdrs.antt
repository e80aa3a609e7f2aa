-- ===== src/Cdrs.antt =====
-- src-bill/classes/CdrManager.cpp: the queue of the records of calls to be billed.
pub mod Loading
pub mod Examples
use voipbill.Prelude.{
  ℕ, ◌+◌, Bool, true, Option, none, some, List, [], ◌∷◌, ◌++◌, length, leb, if◌then◌else◌, ℤ, pos,
  negsuc, leb_ℤ, not, ◌||◌,
}
use voipbill.Models.Call.{Cdr}

pub record CdrManager : Type 0 where
  pub queue : List Cdr
  pub last_id : ℤ
  pub last_time : ℕ
  pub counter : ℕ

unfoldable pub clear : CdrManager
clear = record { queue = []; last_id = negsuc 0; last_time = 0; counter = 0 }

unfoldable pub ready : CdrManager → Bool
ready m = leb_ℤ (pos 0) m.last_id

-- `CDRS_PARTITION_SIZE` and `CDRS_MAX_QUEUE_SIZE`.
abbrev pub cdrs_partition_size : ℕ
cdrs_partition_size = 25000

abbrev pub cdrs_max_queue_size : ℕ
cdrs_max_queue_size = 50000

-- The loop of `loadPart` over the rows of the query.
unfoldable pub load_rows : List Cdr → CdrManager → CdrManager
load_rows [] m = m
load_rows (cdr ∷ rows) m = load_rows rows (record m {
  queue = m.queue ++ (cdr ∷ []);
  last_id = pos cdr.id;
  last_time = cdr.connect_time;
  counter = m.counter + 1;
})

-- `rows` is what the query returns for the last id and at most `cdrs_partition_size` rows.
unfoldable pub load_part : (rows : ℤ → List Cdr) → CdrManager → Bool × CdrManager
unfolding load_rows ready
load_part rows m =
    if not (ready m) || leb cdrs_max_queue_size (length m.queue)
    then (true, m)
    else (not (leb cdrs_partition_size (length (rows m.last_id))), load_rows (rows m.last_id) m)

unfoldable pub get_first_cdr : CdrManager → Option Cdr
get_first_cdr m = elim m.queue [ [] ↦ none | cdr ∷ rest ↦ some cdr ]

-- Of an empty queue, `pop_front` is not defined.
unfoldable pub remove_first_cdr : CdrManager → Option CdrManager
remove_first_cdr m = elim m.queue [ [] ↦ none | cdr ∷ rest ↦ some (record m { queue = rest }) ]
