-- ===== src/Locks/Examples.antt =====
-- The locks of one client.
use voipbill.Prelude.{ℕ, ◌≡◌, refl, true, false, none, some, [], ◌∷◌, ◌++◌}
use voipbill.Map.{Map, lookup, insert, keys}
use voipbill.Locks.{
  ClientLock, LockCounter, blank, store, store_all, sweep, push, save_client_locks, get,
}
use voipbill.Locks.Removal.{push-none}
use voipbill.Locks.Order.{IsAscending}
use voipbill.Locks.Sync.{Reach, new_server, pushed, asked, Synced, save_client_locks-Sync}

abbrev blocked : ClientLock
blocked = record blank { client_id = 3; is_finance_block = true }

abbrev one_lock : Map ClientLock
one_lock = (3, blocked) ∷ []

abbrev new_counter : LockCounter
new_counter = record {
  marker = 0;
  need_total_sync = true;
  is_ready = false;
  counter = [];
  changes = [];
}

abbrev one_pushed : LockCounter
one_pushed = record {
  marker = 1;
  need_total_sync = true;
  is_ready = true;
  counter = one_lock;
  changes = (3, 1) ∷ [];
}

pushes : push one_lock new_counter ≡ some one_pushed
unfolding push store_all store sweep insert lookup
pushes = refl

stored : (store_all [] one_pushed).counter ≡ [] ++ ((3, blocked) ∷ [])
unfolding store_all
stored = refl

unlocked : lookup {V = ClientLock} 3 [] ≡ none
unfolding lookup
unlocked = refl

push-none_example : push [] one_pushed ≡ none
push-none_example = push-none [] [] one_pushed 3 blocked stored unlocked

-- An `INSERT` that writes row after row.
abbrev append_rows : (rows table : Map ClientLock) → Map ClientLock
append_rows rows table = table ++ rows

append_rows-lookup :
    (rows : Map ClientLock)
    → IsAscending (keys rows)
    → (k : ℕ) → lookup k (append_rows rows []) ≡ lookup k rows
append_rows-lookup rows a k = refl

-- After a web page has asked for client 8, whom no `push` names.
after_get : Reach append_rows append_rows-lookup (get 8 one_pushed).1
after_get = asked 8 (pushed one_lock new_server pushes)

save_client_locks-Sync_example :
    Synced (save_client_locks append_rows ((5, blocked) ∷ []) (get 8 one_pushed).1)
unfolding get
save_client_locks-Sync_example =
    save_client_locks-Sync append_rows append_rows-lookup ((5, blocked) ∷ []) after_get refl
