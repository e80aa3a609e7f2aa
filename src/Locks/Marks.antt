-- ===== src/Locks/Marks.antt =====
-- The marks that `push` and `fixChanges` leave.
use voipbill.Prelude.{
  ℕ, ◌+◌, ◌≤◌, true, ◌||◌, Option, none, some, [], ◌∷◌, arith, Option-cases, Bool-cases, inl, inr,
  All, All-map, leb,
}
use voipbill.Map.{Map, lookup, insert, All-insert}
use voipbill.Locks.{
  LockCounter, ClientLock, is_changed, lock_of, store, store_all, mark_next, sweep, push, Swept,
  drop_sent,
}

-- No mark is above the marker.
abbrev pub Bounded : LockCounter → Type 0
Bounded c = All (λ e. e.1 ≤ c.marker) c.changes

mark-Bounded :
    (k n : ℕ) (m : Map ℕ) → All (λ e. e.1 ≤ n) m → All (λ e. e.1 ≤ n + 1) (insert k (n + 1) m)
mark-Bounded k n m h =
    All-insert (λ i. i ≤ n + 1) k (n + 1) m (omega arith)
      (All-map _ _ (λ e p. omega (arith, p)) m h)

store-Bounded : (k : ℕ) (v : ClientLock) (c : LockCounter) → Bounded c → Bounded (store k v c)
unfolding store
store-Bounded k v c h = elim (Bool-cases (is_changed (lock_of k c.counter) v)) [
  | inl e ↦ rw e (mark-Bounded k c.marker c.changes h)
  | inr e ↦ rw e h
]

store_all-Bounded :
    (locks : Map ClientLock) (c : LockCounter) → Bounded c → Bounded (store_all locks c)
unfolding store_all
store_all-Bounded [] c h = h
store_all-Bounded ((k, v) ∷ locks) c h =
    store_all-Bounded locks (store k v c) (store-Bounded k v c h)

abbrev BoundedSwept : Option Swept → Type 0
BoundedSwept none = Unit
BoundedSwept (some s) = All (λ e. e.1 ≤ s.last_marker) s.marked

keep-BoundedSwept :
    (x : Option Swept) (k : ℕ) (v : ClientLock)
    → BoundedSwept x
    → BoundedSwept (elim x [ none ↦ none | some s ↦ some (record s { kept = (k, v) ∷ s.kept }) ])
keep-BoundedSwept none k v h = tt
keep-BoundedSwept (some s) k v h = h

remove-BoundedSwept :
    (x : Option Swept)
    → BoundedSwept x
    → BoundedSwept (elim x [ none ↦ none | some s ↦ some (record s { removed = true }) ])
remove-BoundedSwept none h = tt
remove-BoundedSwept (some s) h = h

behind-Bounded :
    (locks rest : Map ClientLock) (n : ℕ) (changes : Map ℕ)
    → ((m : Map ℕ) → All (λ e. e.1 ≤ n + 1) m → BoundedSwept (sweep locks rest (n + 1) m))
    → All (λ e. e.1 ≤ n) changes
    → BoundedSwept (elim (mark_next rest n changes) [
      | none ↦ none
      | some changes' ↦ elim (sweep locks rest (n + 1) changes') [
        | none ↦ none
        | some s ↦ some (record s { removed = true })
      ]
    ])
behind-Bounded locks [] n changes p h = tt
behind-Bounded locks ((j, w) ∷ rest) n changes p h =
    remove-BoundedSwept _ (p (insert j (n + 1) changes) (mark-Bounded j n changes h))

sweep-Bounded :
    (locks entries : Map ClientLock) (n : ℕ) (changes : Map ℕ)
    → All (λ e. e.1 ≤ n) changes
    → BoundedSwept (sweep locks entries n changes)
unfolding sweep
sweep-Bounded locks [] n changes h = h
sweep-Bounded locks ((k, v) ∷ rest) n changes h = elim (Option-cases (lookup k locks)) [
  | inr (w, e) ↦ rw (e, sweep) (keep-BoundedSwept _ k v (sweep-Bounded locks rest n changes h))
  | inl e ↦ rw (e, sweep) (behind-Bounded locks rest n changes (sweep-Bounded locks rest (n + 1)) h)
]

abbrev pub BoundedAfter : Option LockCounter → Type 0
BoundedAfter none = Unit
BoundedAfter (some c) = Bounded c

swept-Bounded :
    (c : LockCounter) (x : Option Swept)
    → BoundedSwept x
    → BoundedAfter (elim x [
      | none ↦ none
      | some s ↦ some (record c {
        counter = s.kept;
        marker = s.last_marker;
        changes = s.marked;
        need_total_sync = s.removed || c.need_total_sync;
        is_ready = true;
      })
    ])
swept-Bounded c none h = tt
swept-Bounded c (some s) h = h

pub push-Bounded :
    (locks : Map ClientLock) (c : LockCounter) → Bounded c → BoundedAfter (push locks c)
unfolding push
push-Bounded locks c h =
    let c' = store_all locks c in
    swept-Bounded c' _
      (sweep-Bounded locks c'.counter c'.marker c'.changes (store_all-Bounded locks c h))

pub drop_sent-Bounded :
    (old n : ℕ) (m : Map ℕ) → All (λ e. e.1 ≤ n) m → All (λ e. e.1 ≤ n) (drop_sent old m)
unfolding drop_sent
drop_sent-Bounded old n [] h = tt
drop_sent-Bounded old n ((k, i) ∷ m) (p, h) = elim (Bool-cases (leb i old)) [
  | inl e ↦ rw e (drop_sent-Bounded old n m h)
  | inr e ↦ rw e (p, drop_sent-Bounded old n m h)
]
