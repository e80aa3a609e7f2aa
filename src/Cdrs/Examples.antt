-- ===== src/Cdrs/Examples.antt =====
-- A queue with one record, and a query that returns one more.
use voipbill.Prelude.{◌+◌, ◌<◌, ◌≡◌, [], ◌∷◌, ◌++◌, List, length, arith, ℤ, pos}
use voipbill.Models.Call.{Cdr}
use voipbill.Samples.{sample_cdr}
use voipbill.Cdrs.{CdrManager, load_part}
use voipbill.Cdrs.Loading.{load_part-queue}

abbrev one_record : CdrManager
one_record = record { queue = sample_cdr ∷ []; last_id = pos 1; last_time = 1000; counter = 1 }

abbrev next_row : ℤ → List Cdr
next_row last_id = record sample_cdr { id = 2 } ∷ []

load_part-queue_example :
    (length (load_part next_row one_record).1.queue < 75000)
    × ((new : List Cdr) × ((load_part next_row one_record).1.queue ≡ one_record.queue ++ new)
        × ((load_part next_row one_record).1.counter ≡ one_record.counter + length new))
load_part-queue_example = load_part-queue next_row one_record (λ last_id. omega arith) (omega arith)
