-- ===== src/Locks.antt =====
-- The locks of the clients: src-bill/lists/ClientLockCounter.h, and `save_client_locks` of
-- src-bill/threads/ThreadSyncLocks.cpp, which copies them to the central database.
pub mod Marks
pub mod Order
pub mod Sync
pub mod Removal
pub mod Examples
use voipbill.Prelude.{
  ℕ, ◌+◌, ◌==◌, Bool, true, false, not, ◌&&◌, ◌||◌, Option, none, some, List, [], ◌∷◌,
  if◌then◌else◌, leb,
}
use voipbill.Map
use voipbill.Map.{Map}

-- src-bill/models/ClientLockObj.h.
pub record ClientLock : Type 0 where
  pub client_id : ℕ
  pub disabled_local : Bool
  pub disabled_global : Bool
  pub is_finance_block : Bool
  pub is_overran : Bool
  pub is_mn_overran : Bool

pub record LockCounter : Type 0 where
  pub marker : ℕ
  pub need_total_sync : Bool
  pub is_ready : Bool
  pub counter : Map ClientLock
  pub changes : Map ℕ

-- What `counter[id]` makes of a missing client.
abbrev pub blank : ClientLock
blank = record {
  client_id = 0;
  disabled_local = false;
  disabled_global = false;
  is_finance_block = false;
  is_overran = false;
  is_mn_overran = false;
}

abbrev pub differ : Bool → Bool → Bool
differ true b = not b
differ false b = b

abbrev pub is_changed : ClientLock → ClientLock → Bool
is_changed old new =
    old.client_id == 0
    || differ old.disabled_local new.disabled_local
    || differ old.disabled_global new.disabled_global
    || differ old.is_finance_block new.is_finance_block
    || differ old.is_overran new.is_overran
    || differ old.is_mn_overran new.is_mn_overran

abbrev pub lock_of : ℕ → Map ClientLock → ClientLock
lock_of k m = elim (Map.lookup k m) [ none ↦ blank | some v ↦ v ]

-- One round of the first loop of `push`.
pub store : ℕ → ClientLock → LockCounter → LockCounter
store k v c =
    if is_changed (lock_of k c.counter) v
    then record c {
      counter = Map.insert k (record v { client_id = k }) c.counter;
      marker = c.marker + 1;
      changes = Map.insert k (c.marker + 1) c.changes;
    }
    else c

pub store_all : Map ClientLock → LockCounter → LockCounter
unfolding store
store_all [] c = c
store_all ((k, v) ∷ locks) c = store_all locks (store k v c)

-- What the second loop of `push` changes beside the clients, and those that it keeps.
pub record Swept : Type 0 where
  pub kept : Map ClientLock
  pub last_marker : ℕ
  pub marked : Map ℕ
  pub removed : Bool

-- `counter.erase(it++); marker++; changes[it->first] = marker;` marks the client behind the one
-- that it erases. Behind the last one there is none, and the behaviour is not defined.
abbrev pub mark_next : Map ClientLock → ℕ → Map ℕ → Option (Map ℕ)
mark_next [] marker changes = none
mark_next ((k, v) ∷ rest) marker changes = some (Map.insert k (marker + 1) changes)

-- The second loop of `push`, over the entries from `it` on: `none` is undefined behaviour.
pub sweep :
    (locks : Map ClientLock) (entries : Map ClientLock) (marker : ℕ) (changes : Map ℕ)
    → Option Swept
sweep locks [] marker changes =
    some (record { kept = []; last_marker = marker; marked = changes; removed = false })
sweep locks ((k, v) ∷ rest) marker changes = elim (Map.lookup k locks) [
  | some w ↦ elim (sweep locks rest marker changes) [
    | none ↦ none
    | some s ↦ some (record s { kept = (k, v) ∷ s.kept })
  ]
  | none ↦ elim (mark_next rest marker changes) [
    | none ↦ none
    | some changes' ↦ elim (sweep locks rest (marker + 1) changes') [
      | none ↦ none
      | some s ↦ some (record s { removed = true })
    ]
  ]
]

pub push : Map ClientLock → LockCounter → Option LockCounter
unfolding store_all sweep
push locks c =
    let c' = store_all locks c in
    elim (sweep locks c'.counter c'.marker c'.changes) [
      | none ↦ none
      | some s ↦ some (record c' {
        counter = s.kept;
        marker = s.last_marker;
        changes = s.marked;
        need_total_sync = s.removed || c'.need_total_sync;
        is_ready = true;
      })
    ]

-- `getChanges`.
pub ids_to_send : LockCounter → List ℕ
ids_to_send c = if c.need_total_sync then Map.keys c.counter else Map.keys c.changes

-- `fixChanges`.
pub drop_sent : (old_marker : ℕ) → Map ℕ → Map ℕ
drop_sent old_marker [] = []
drop_sent old_marker ((k, marker) ∷ changes) =
    let rest = drop_sent old_marker changes in
    if leb marker old_marker then rest else (k, marker) ∷ rest

-- `counter[k]` makes a blank lock of a client that is not there.
pub touch : ℕ → Map ClientLock → Map ClientLock
touch k counter = elim (Map.lookup k counter) [
  | none ↦ Map.insert k blank counter
  | some w ↦ counter
]

-- `get`, which a web page calls, too: a client that was not there stays as a blank one.
unfoldable pub get : ℕ → LockCounter → ClientLock × LockCounter
unfolding touch
get k c = (lock_of k c.counter, record c { counter = touch k c.counter })

-- The rows to send, by `get` of each.
pub rows_of : List ℕ → Map ClientLock → Map ClientLock × Map ClientLock
unfolding touch
rows_of [] counter = ([], counter)
rows_of (k ∷ ids) counter =
    let (rows, counter') = rows_of ids (touch k counter) in
    ((k, lock_of k counter) ∷ rows, counter')

module _ (insert_rows : (rows table : Map ClientLock) → Map ClientLock) where
  -- `if (q.size()>0) db_main.exec(q)`.
  abbrev pub exec : (rows table : Map ClientLock) → Map ClientLock
  exec [] table = table
  exec (row ∷ rows) table = insert_rows (row ∷ rows) table

  -- `save_client_locks` where no other thread comes in between, and where nothing is thrown. `table`
  -- has the rows of the central database for the regions of the server, and `insert_rows` is its
  -- `INSERT`, of which nothing is assumed here: whether a row that is there is overwritten, doubled
  -- or refused, src does not say.
  pub save_client_locks : Map ClientLock → LockCounter → Map ClientLock × LockCounter
  unfolding rows_of ids_to_send drop_sent
  save_client_locks table c =
      let (rows, counter) = rows_of (ids_to_send c) c.counter in
      if c.need_total_sync
      then (
        exec rows [],
        record c {
          counter = counter;
          need_total_sync = false;
          changes = drop_sent c.marker c.changes;
        },
      )
      else elim (ids_to_send c) [
        | [] ↦ (table, record c { counter = counter })
        | k ∷ more ↦ (
          exec rows table,
          record c { counter = counter; changes = drop_sent c.marker c.changes },
        )
      ]
