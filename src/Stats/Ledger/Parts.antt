-- ===== src/Stats/Ledger/Parts.antt =====
-- How many partitions there are after an operation: a charge changes only the newest one.
use voipbill.Prelude.{
  ℕ, ◌+◌, ◌-◌, ◌≡◌, ◌≢◌, refl, some, List, [], ◌∷◌, length, length-append, arith, Option-cases, inl,
  inr,
}
use voipbill.Map.{Map, lookup, insert, add}
use voipbill.Stats.Ledger.{Ledger, write_last, publish, charge, create_new_partition, drop_first}

module _ {S : Type 0} where
  pub write_last-length :
      (i : ℕ) (s : S) (ps : List (Map S))
      → ps ≢ []
      → (qs : List (Map S)) × (write_last i s ps ≡ some qs) × (length qs ≡ length ps)
  unfolding write_last
  write_last-length i s [] h = absurd (h refl)
  write_last-length i s (p ∷ []) h = (insert i s p ∷ [], refl, refl)
  write_last-length i s (p ∷ q ∷ ps) h =
      let (qs, e, n) = write_last-length i s (q ∷ ps) (λ e. cc) in (p ∷ qs, rw e, omega (arith, n))

  pub charge-parts :
      (i : ℕ) (change : S → S) (l : Ledger S)
      → l.parts ≢ []
      → (l' : Ledger S) × (charge i change l ≡ some l') × (length l'.parts ≡ length l.parts)
  unfolding charge publish
  charge-parts i change l h = elim (Option-cases (lookup i l.stats)) [
    | inl e ↦ (l, rw (e, charge) refl, refl)
    | inr (s, e) ↦
        let (ps, w, n) = write_last-length i (change s) l.parts h in
        (
          record l { stats = insert i (change s) l.stats; parts = ps; for_sync = add i l.for_sync },
          rw (e, charge) (rw (w, publish) refl),
          n,
        )
  ]

  pub create-length : (l : Ledger S) → length (create_new_partition l).parts ≡ length l.parts + 1
  unfolding create_new_partition
  create-length l = length-append l.parts ([] ∷ [])

  pub drop_first-length : (ps : List (Map S)) → length (drop_first ps) ≡ length ps - 1
  unfolding drop_first
  drop_first-length [] = omega arith
  drop_first-length (p ∷ ps) = omega arith
