-- ===== src/Locks/Order.antt =====
-- The clients of `counter` stay in ascending order, as in `std::map`.
use voipbill.Prelude.{
  ℕ, ◌<◌, ◌≡◌, refl, sym, ap, ◌+◌, ◌||◌, subst, true, Option, none, some, List, [], ◌∷◌, ◌==◌, ltb,
  arith, Option-cases, Bool-cases, inl, inr, All, All-map,
}
use voipbill.Map.{Map, lookup, insert, keys}
use voipbill.Locks.{
  LockCounter, ClientLock, blank, is_changed, lock_of, store, store_all, mark_next, sweep, push,
  Swept, touch, rows_of,
}

abbrev pub IsAscending : List ℕ → Type 0
IsAscending [] = Unit
IsAscending (k ∷ ks) = All (λ j. k < j) ks × IsAscending ks

insert-All :
    (i k : ℕ) (v : ClientLock) (m : Map ClientLock)
    → i < k
    → All (λ j. i < j) (keys m)
    → All (λ j. i < j) (keys (insert k v m))
unfolding insert keys
insert-All i k v [] p h = (p, tt)
insert-All i k v ((j, w) ∷ m) p (q, h) = elim (Bool-cases (k == j)) [
  | inl e ↦ rw e (p, h)
  | inr e ↦ elim (Bool-cases (ltb k j)) [
    | inl g ↦ rw (e, g) (p, (q, h))
    | inr g ↦ rw (e, g) (q, insert-All i k v m p h)
  ]
]

insert-IsAscending :
    (k : ℕ) (v : ClientLock) (m : Map ClientLock)
    → IsAscending (keys m)
    → IsAscending (keys (insert k v m))
unfolding insert keys
insert-IsAscending k v [] h = (tt, tt)
insert-IsAscending k v ((j, w) ∷ m) (p, h) = elim (Bool-cases (k == j)) [
  | inl e ↦
      let same : k ≡ j = ground (arith, e) in
      rw e (subst (λ i. All (λ n. i < n) (keys m)) (sym same) p, h)
  | inr e ↦ elim (Bool-cases (ltb k j)) [
    | inl g ↦
        let less : k < j = ground (arith, g) in
        rw (e, g) ((less, All-map _ _ (λ n q. omega (arith, q, less)) (keys m) p), (p, h))
    | inr g ↦ rw (e, g) (insert-All j k v m (ground (arith, e, g)) p, insert-IsAscending k v m h)
  ]
]

abbrev pub InOrder : LockCounter → Type 0
InOrder c = IsAscending (keys c.counter)

store-InOrder : (k : ℕ) (v : ClientLock) (c : LockCounter) → InOrder c → InOrder (store k v c)
unfolding store
store-InOrder k v c h = elim (Bool-cases (is_changed (lock_of k c.counter) v)) [
  | inl e ↦ rw e (insert-IsAscending k (record v { client_id = k }) c.counter h)
  | inr e ↦ rw e h
]

store_all-InOrder :
    (locks : Map ClientLock) (c : LockCounter) → InOrder c → InOrder (store_all locks c)
unfolding store_all
store_all-InOrder [] c h = h
store_all-InOrder ((k, v) ∷ locks) c h =
    store_all-InOrder locks (store k v c) (store-InOrder k v c h)

-- What is kept is above what all entries are above.
abbrev KeptOf : Option Swept → Map ClientLock → Type 0
KeptOf none entries = Unit
KeptOf (some s) entries =
    ((i : ℕ) → All (λ j. i < j) (keys entries) → All (λ j. i < j) (keys s.kept))
    × IsAscending (keys s.kept)

keep-KeptOf :
    (x : Option Swept) (k : ℕ) (v : ClientLock) (entries : Map ClientLock)
    → All (λ j. k < j) (keys entries)
    → KeptOf x entries
    → KeptOf
        (elim x [ none ↦ none | some s ↦ some (record s { kept = (k, v) ∷ s.kept }) ])
        ((k, v) ∷ entries)
unfolding keys
keep-KeptOf none k v entries a h = tt
keep-KeptOf (some s) k v entries a (g, h) = (λ i (p, q). (p, g i q), (g k a, h))

remove-KeptOf :
    (x : Option Swept) (k : ℕ) (v : ClientLock) (entries : Map ClientLock)
    → KeptOf x entries
    → KeptOf
        (elim x [ none ↦ none | some s ↦ some (record s { removed = true }) ])
        ((k, v) ∷ entries)
unfolding keys
remove-KeptOf none k v entries h = tt
remove-KeptOf (some s) k v entries (g, h) = (λ i (p, q). g i q, h)

sweep-KeptOf :
    (locks entries : Map ClientLock) (n : ℕ) (changes : Map ℕ)
    → IsAscending (keys entries)
    → KeptOf (sweep locks entries n changes) entries
unfolding sweep keys
sweep-KeptOf locks [] n changes h = (λ i p. p, tt)
sweep-KeptOf locks ((k, v) ∷ rest) n changes (a, h) = elim (Option-cases (lookup k locks)) [
  | inr (w, e) ↦ rw (e, sweep) (keep-KeptOf _ k v rest a (sweep-KeptOf locks rest n changes h))
  | inl e ↦ elim (Option-cases (mark_next rest n changes)) [
    | inl g ↦ rw (e, sweep) (rw (g, mark_next) tt)
    | inr (more, g) ↦
        rw (e, sweep)
          (rw (g, mark_next) (remove-KeptOf _ k v rest (sweep-KeptOf locks rest (n + 1) more h)))
  ]
]

abbrev pub InOrderAfter : Option LockCounter → Type 0
InOrderAfter none = Unit
InOrderAfter (some c) = InOrder c

swept-InOrder :
    (c : LockCounter) (x : Option Swept)
    → KeptOf x c.counter
    → InOrderAfter (elim x [
      | none ↦ none
      | some s ↦ some (record c {
        counter = s.kept;
        marker = s.last_marker;
        changes = s.marked;
        need_total_sync = s.removed || c.need_total_sync;
        is_ready = true;
      })
    ])
swept-InOrder c none h = tt
swept-InOrder c (some s) (g, h) = h

pub push-InOrder :
    (locks : Map ClientLock) (c : LockCounter) → InOrder c → InOrderAfter (push locks c)
unfolding push
push-InOrder locks c h =
    let c' = store_all locks c in
    swept-InOrder c' _
      (sweep-KeptOf locks c'.counter c'.marker c'.changes (store_all-InOrder locks c h))

pub touch-IsAscending :
    (k : ℕ) (m : Map ClientLock) → IsAscending (keys m) → IsAscending (keys (touch k m))
unfolding touch
touch-IsAscending k m h = elim (Option-cases (lookup k m)) [
  | inl e ↦ rw (touch, e) (insert-IsAscending k blank m h)
  | inr (w, e) ↦ rw (touch, e) h
]

pub rows_of-IsAscending :
    (ids : List ℕ) (m : Map ClientLock)
    → IsAscending (keys m)
    → IsAscending (keys (rows_of ids m).1)
unfolding rows_of
rows_of-IsAscending [] m h = h
rows_of-IsAscending (k ∷ ids) m h = rows_of-IsAscending ids (touch k m) (touch-IsAscending k m h)

pub keys-rows_of : (ids : List ℕ) (m : Map ClientLock) → keys (rows_of ids m).0 ≡ ids
unfolding rows_of keys
keys-rows_of [] m = refl
keys-rows_of (k ∷ ids) m = ap (λ l. k ∷ l) (keys-rows_of ids (touch k m))
