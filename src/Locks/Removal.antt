-- ===== src/Locks/Removal.antt =====
-- What `push` does to a client with no lock any more.
use voipbill.Prelude.{ℕ, ◌+◌, ◌≡◌, refl, ap, ◌∙◌, none, [], ◌∷◌, ◌++◌, Option-cases, inl, inr}
use voipbill.Map.{Map, lookup}
use voipbill.Locks.{LockCounter, ClientLock, store_all, mark_next, sweep, push}

sweep-none :
    (locks entries : Map ClientLock) (k : ℕ) (v : ClientLock) (marker : ℕ) (changes : Map ℕ)
    → lookup k locks ≡ none
    → sweep locks (entries ++ ((k, v) ∷ [])) marker changes ≡ none
unfolding sweep
sweep-none locks [] k v marker changes e = rw (e, sweep) refl
sweep-none locks ((j, w) ∷ entries) k v marker changes e = elim (Option-cases (lookup j locks)) [
  | inr (x, g) ↦ rw (g, sweep) (rw (sweep-none locks entries k v marker changes e) refl)
  | inl g ↦ elim (Option-cases (mark_next (entries ++ ((k, v) ∷ [])) marker changes)) [
    | inl n ↦ rw (g, sweep) (rw (n, mark_next) refl)
    | inr (more, n) ↦
        rw (g, sweep)
          (rw (n, mark_next) (rw (sweep-none locks entries k v (marker + 1) more e) refl))
  ]
]

-- If the client with the greatest id that is locked, after the new locks are stored, has no new
-- lock, `push` runs into undefined behaviour: it marks the client behind it.
pub push-none :
    (locks entries : Map ClientLock) (c : LockCounter) (k : ℕ) (v : ClientLock)
    → (store_all locks c).counter ≡ entries ++ ((k, v) ∷ [])
    → lookup k locks ≡ none
    → push locks c ≡ none
unfolding push
push-none locks entries c k v e h =
    let c' = store_all locks c in
    let gone =
      ap (λ m. sweep locks m c'.marker c'.changes) e
      ∙ sweep-none locks entries k v c'.marker c'.changes h in
    rw (gone, push) refl
