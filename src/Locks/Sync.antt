-- ===== src/Locks/Sync.antt =====
-- After a synchronisation of everything the central table has the locks of the server.
use voipbill.Prelude.{
  ℕ, ◌≤◌, ◌≡◌, refl, sym, ap, ◌∙◌, subst, true, false, none, some, List, [], ◌∷◌, ◌==◌, contains,
  if◌then◌else◌, arith, Option-cases, Bool-cases, inl, inr, All, le→leb, ==→eq,
}
use voipbill.Map.{Map, lookup, keys, lookup-insert, lookup-none}
use voipbill.Locks.{
  LockCounter, ClientLock, blank, lock_of, push, drop_sent, rows_of, touch, exec, ids_to_send,
  save_client_locks, get,
}
use voipbill.Locks.Marks.{Bounded, BoundedAfter, push-Bounded, drop_sent-Bounded}
use voipbill.Locks.Order.{
  IsAscending, InOrder, InOrderAfter, push-InOrder, touch-IsAscending, rows_of-IsAscending,
  keys-rows_of,
}

-- After everything up to the marker is sent, nothing stays marked.
drop_sent_lem : (n : ℕ) (m : Map ℕ) → All (λ e. e.1 ≤ n) m → drop_sent n m ≡ []
unfolding drop_sent
drop_sent_lem n [] h = refl
drop_sent_lem n ((k, i) ∷ m) (p, h) = rw (le→leb i n p) (drop_sent_lem n m h)

touch-lookup :
    (j k : ℕ) (m : Map ClientLock)
    → lookup j (touch k m) ≡ (if j == k then some (lock_of k m) else lookup j m)
unfolding touch
touch-lookup j k m = elim (Option-cases (lookup k m)) [
  | inl e ↦ rw (touch, lock_of, e) (lookup-insert j k blank m)
  | inr (w, e) ↦ elim (Bool-cases (j == k)) [
    | inl g ↦ rw (touch, lock_of, e, g) (ap (λ i. lookup i m) (==→eq j k g) ∙ e)
    | inr g ↦ rw (touch, lock_of, e, g) refl
  ]
]

touch-lock_of : (j k : ℕ) (m : Map ClientLock) → lock_of j (touch k m) ≡ lock_of j m
touch-lock_of j k m = elim (Bool-cases (j == k)) [
  | inl g ↦ rw (lock_of, touch-lookup j k m, g) (ap (λ i. lock_of i m) (sym (==→eq j k g)))
  | inr g ↦ rw (lock_of, touch-lookup j k m, g) refl
]

-- The central table has the locks of the server, and nothing is left to be sent.
abbrev pub Synced : Map ClientLock × LockCounter → Type 0
Synced (table, c) =
    ((k : ℕ) → lookup k table ≡ lookup k c.counter) × (c.changes ≡ []) × (c.need_total_sync ≡ false)

rows-lookup :
    (j : ℕ) (ids : List ℕ) (m : Map ClientLock)
    → lookup j (rows_of ids m).0 ≡ (if contains j ids then some (lock_of j m) else none)
unfolding rows_of lookup
rows-lookup j [] m = refl
rows-lookup j (k ∷ ids) m = elim (Bool-cases (j == k)) [
  | inl g ↦ rw (lookup, g) (ap (λ i. some (lock_of i m)) (sym (==→eq j k g)))
  | inr g ↦ rw (lookup, g, rows-lookup j ids (touch k m), touch-lock_of j k m) refl
]

counter-lookup :
    (j : ℕ) (ids : List ℕ) (m : Map ClientLock)
    → lookup j (rows_of ids m).1 ≡ (if contains j ids then some (lock_of j m) else lookup j m)
unfolding rows_of
counter-lookup j [] m = refl
counter-lookup j (k ∷ ids) m =
    ground (arith, counter-lookup j ids (touch k m), touch-lock_of j k m, touch-lookup j k m)

-- `insert_law`: into a table without rows, an `INSERT` of rows in ascending order of their clients,
-- so of each client once, writes these rows.
module _ (insert_rows : (rows table : Map ClientLock) → Map ClientLock)
    (insert_law : (rows : Map ClientLock)
      → IsAscending (keys rows)
      → (k : ℕ) → lookup k (insert_rows rows []) ≡ lookup k rows) where
  exec-lookup :
      (rows : Map ClientLock)
      → IsAscending (keys rows)
      → (k : ℕ) → lookup k (exec insert_rows rows []) ≡ lookup k rows
  unfolding lookup
  exec-lookup [] a k = refl
  exec-lookup (row ∷ rows) a k = insert_law (row ∷ rows) a k

  sent :
      (m : Map ClientLock)
      → IsAscending (keys m)
      → (k : ℕ)
      → lookup k (exec insert_rows (rows_of (keys m) m).0 []) ≡ lookup k (rows_of (keys m) m).1
  sent m a k =
      exec-lookup (rows_of (keys m) m).0 (subst IsAscending (sym (keys-rows_of (keys m) m)) a) k
      ∙ elim (Bool-cases (contains k (keys m))) [
        | inl e ↦ rw (rows-lookup k (keys m) m, counter-lookup k (keys m) m, e) refl
        | inr e ↦
            rw (rows-lookup k (keys m) m, counter-lookup k (keys m) m, e) (sym (lookup-none k m e))
      ]

  -- The states of the locks after any calls of `push` with defined behaviour and of `get`, by web
  -- pages, too, and any synchronisations.
  pub data Reach : LockCounter → Type 0 where
    new_server : Reach (record {
      marker = 0;
      need_total_sync = true;
      is_ready = false;
      counter = [];
      changes = [];
    })
    pushed :
        (locks : Map ClientLock) {c c' : LockCounter} → Reach c → push locks c ≡ some c' → Reach c'
    asked : (k : ℕ) {c : LockCounter} → Reach c → Reach (get k c).1
    synced :
        (table : Map ClientLock) {c : LockCounter}
        → Reach c
        → Reach (save_client_locks insert_rows table c).1

  abbrev IsKept : LockCounter → Type 0
  IsKept c = Bounded c × InOrder c

  part-IsKept :
      (table : Map ClientLock) (c : LockCounter) (ids : List ℕ)
      (r : Map ClientLock × Map ClientLock)
      → IsAscending (keys r.1)
      → Bounded c
      → IsKept
          (elim ids as (λ x. Map ClientLock × LockCounter) [
            | [] ↦ (table, record c { counter = r.1 })
            | k ∷ more ↦ (
              exec insert_rows r.0 table,
              record c { counter = r.1; changes = drop_sent c.marker c.changes },
            )
          ]).1
  part-IsKept table c [] r a b = (b, a)
  part-IsKept table c (k ∷ more) r a b = (drop_sent-Bounded c.marker c.marker c.changes b, a)

  save_client_locks-IsKept :
      (table : Map ClientLock) (c : LockCounter)
      → IsKept c
      → IsKept (save_client_locks insert_rows table c).1
  unfolding save_client_locks
  save_client_locks-IsKept table c (b, a) = elim (Bool-cases c.need_total_sync) [
    | inl e ↦
        let a' = rows_of-IsAscending (keys c.counter) c.counter a in
        rw (e, ids_to_send) (drop_sent-Bounded c.marker c.marker c.changes b, a')
    | inr e ↦
        let a' = rows_of-IsAscending (ids_to_send c) c.counter a in
        rw (e, ids_to_send)
          (part-IsKept table c (keys c.changes) (rows_of (ids_to_send c) c.counter) a' b)
  ]

  Reach-IsKept : {c : LockCounter} → Reach c → IsKept c
  unfolding get keys
  Reach-IsKept new_server = (tt, tt)
  Reach-IsKept (pushed locks {c} h e) =
      let (b, a) = Reach-IsKept h in
      (subst BoundedAfter e (push-Bounded locks c b), subst InOrderAfter e (push-InOrder locks c a))
  Reach-IsKept (asked k {c} h) = let (b, a) = Reach-IsKept h in (b, touch-IsAscending k c.counter a)
  Reach-IsKept (synced table {c} h) = save_client_locks-IsKept table c (Reach-IsKept h)

  -- Where a total synchronisation is asked for, and no other thread interrupts it, it leaves the
  -- central table with the locks that `counter` holds, client by client, blank ones of `get`
  -- included, whatever the table held before. Then nothing is left to be sent, and no total
  -- synchronisation is asked for. This is so in every state that calls of `push` with defined
  -- behaviour, calls of `get` and synchronisations lead to.
  pub save_client_locks-Sync :
      (table : Map ClientLock) {c : LockCounter}
      → Reach c
      → c.need_total_sync ≡ true
      → Synced (save_client_locks insert_rows table c)
  unfolding save_client_locks
  save_client_locks-Sync table {c} h e =
      let (b, a) = Reach-IsKept h in
      rw (e, ids_to_send) (sent c.counter a, drop_sent_lem c.marker c.changes b, refl)
