-- ===== src/Cdrs/Loading.antt =====
-- The queue of records while it is loaded.
use mathlib.Core.List.{append_assoc, append-nil}
use voipbill.Prelude.{
  ◌+◌, ◌≤◌, ◌<◌, ◌≡◌, sym, ap, ◌∙◌, List, [], ◌∷◌, ◌++◌, length, length-append, leb, not, ◌||◌,
  arith, ℤ, pos, Bool-cases, inl, inr,
}
use voipbill.Models.Call.{Cdr}
use voipbill.Cdrs.{
  CdrManager, cdrs_max_queue_size, cdrs_partition_size, load_rows, load_part, ready,
}

load_rows-queue :
    (rows : List Cdr) (m : CdrManager)
    → ((load_rows rows m).queue ≡ m.queue ++ rows)
      × ((load_rows rows m).counter ≡ m.counter + length rows)
unfolding load_rows
load_rows-queue [] m = (sym (append-nil m.queue), omega arith)
load_rows-queue (cdr ∷ rows) m =
    let m' : CdrManager = record m {
      queue = m.queue ++ (cdr ∷ []);
      last_id = pos cdr.id;
      last_time = cdr.connect_time;
      counter = m.counter + 1;
    } in
    let (a, b) = load_rows-queue rows m' in
    (a ∙ append_assoc m.queue (cdr ∷ []) rows, omega (arith, b))

-- Where a query returns no more rows than its limit, the queue of records never comes to 75,000.
-- What a call of `loadPart` adds stands behind the records that were there, which stay in their
-- order, and the counter counts it.
pub load_part-queue :
    (rows : ℤ → List Cdr) (m : CdrManager)
    → ((last_id : ℤ) → length (rows last_id) ≤ cdrs_partition_size)
    → length m.queue < 75000
    → let m' = (load_part rows m).1 in
      (length m'.queue < 75000)
      × ((new : List Cdr) × (m'.queue ≡ m.queue ++ new) × (m'.counter ≡ m.counter + length new))
unfolding load_part
load_part-queue rows m limit small =
    elim (Bool-cases (not (ready m) || leb cdrs_max_queue_size (length m.queue))) [
      | inl e ↦ rw (e, load_part) (small, ([], sym (append-nil m.queue), omega arith))
      | inr e ↦
          let (a, b) = load_rows-queue (rows m.last_id) m in
          let few : length m.queue < 50000 = ground (arith, e) in
          rw (e, load_part)
            (
              omega (
                arith,
                few,
                limit m.last_id,
                ap (λ (l : List Cdr). length l) a,
                length-append m.queue (rows m.last_id),
              ),
              (rows m.last_id, a, b),
            )
    ]
