-- ===== src/Stats/Usage.antt =====
-- The counters over the calls that are added, one after the other.
use mathlib.Core.Option.{some-injective}
use voipbill.Prelude.{
  ℕ, ◌≡◌, ◌≢◌, inl, inr, refl, sym, ap, ◌∙◌, Bool, true, false, not, ◌&&◌, Option, none, some, List,
  [], ◌∷◌, ◌==◌, if◌then◌else◌, arith, ℤ, pos, ◌+ℤ◌, ◌≤ℤ◌, Bool-cases, Option-cases, ==_iff,
}
use voipbill.Models.Double.{Double}
use voipbill.Models.Call.{Call}
use voipbill.Models.Tariff.{
  StatsFreemin, StatsNnpPackageMinute, NnpPackageMinute, NnpAccountTariffLight,
}
use voipbill.Map.{lookup, lookup-insert}
use voipbill.Stats.Freemin
use voipbill.Stats.Minute
use voipbill.Stats.Ledger.{Ledger}
use voipbill.Stats.Ledger.Laws.{IsValid, charge-some, charge-none, get_current_lem}

plus_zero : (a : ℤ) → a ≡ a +ℤ pos 0
plus_zero a = ground arith

plus_assoc : (a b c : ℤ) → a +ℤ b +ℤ c ≡ a +ℤ (b +ℤ c)
plus_assoc a b c = ground arith

none≢some {ℓ} : {A : Type ℓ} {a : A} → none ≢ some a
none≢some e = cc

module _ {D : Type 0} ⦃d : Double D⦄ where
  abbrev pub FreeminIsValid : Ledger (StatsFreemin D) → Type 0
  FreeminIsValid = IsValid (λ s. s.id) (λ s. s.service_number_id)

  -- `DataBillingContainer::addCall` for the free minutes, for one call after the other.
  pub add_all : List (Call D) → Ledger (StatsFreemin D) → Option (Ledger (StatsFreemin D))
  add_all [] l = some l
  add_all (call ∷ calls) l = elim (Freemin.add call l) [ none ↦ none | some l' ↦ add_all calls l' ]

  -- A call that uses the free seconds of counter `i`.
  abbrev pub uses : ℕ → Call D → Bool
  uses i call = not (Freemin.is_skipped call) && call.service_package_stats_id == i

  abbrev pub share : ℕ → Call D → ℤ
  share i call = if uses i call then call.package_time else pos 0

  abbrev pub total : ℕ → List (Call D) → ℤ
  total i [] = pos 0
  total i (call ∷ calls) = share i call +ℤ total i calls

  Charged : Call D → Ledger (StatsFreemin D) → ℕ → StatsFreemin D → Type 0
  Charged call l i s =
      (l' : Ledger (StatsFreemin D)) × (s' : StatsFreemin D) × (Freemin.add call l ≡ some l')
      × FreeminIsValid l'
      × (lookup i l'.stats ≡ some s')
      × (s'.used_seconds ≡ s.used_seconds +ℤ share i call)

  unused :
      (call : Call D) (l : Ledger (StatsFreemin D)) (i : ℕ) (s : StatsFreemin D)
      → FreeminIsValid l
      → lookup i l.stats ≡ some s
      → uses i call ≡ false
      → Freemin.add call l ≡ some l
      → Charged call l i s
  unfolding Charged
  unused call l i s v m u e = (l, s, e, v, m, rw u (plus_zero s.used_seconds))

  charged :
      (call : Call D) (l : Ledger (StatsFreemin D)) (i : ℕ) (s t : StatsFreemin D)
      → FreeminIsValid l
      → lookup i l.stats ≡ some s
      → Freemin.is_skipped call ≡ false
      → lookup call.service_package_stats_id l.stats ≡ some t
      → Charged call l i s
  unfolding Charged Freemin.add
  charged call l i s t v m k n =
      let j = call.service_package_stats_id in
      let (l', e, v', stats, _) =
        charge-some (λ s. s.id) (λ s. s.service_number_id) j (Freemin.use_freemin call) l v
          (λ s. (refl, refl)) t n in
      let found = lookup-insert i j (Freemin.use_freemin call t) l.stats in
      elim (Bool-cases (i == j)) [
        | inl q ↦
            let ij = (==_iff i j).0 q in
            let ts = some-injective t s (sym n ∙ ap (λ x. lookup x l.stats) (sym ij) ∙ m) in
            let u : uses i call ≡ true = rw k (ground arith) in
            (
              l',
              Freemin.use_freemin call t,
              rw k e,
              v',
              rw stats (rw (found, q) refl),
              rw u (ap (λ (x : StatsFreemin D). x.used_seconds +ℤ call.package_time) ts),
            )
        | inr q ↦
            let u : uses i call ≡ false = rw k (ground arith) in
            (l', s, rw k e, v', rw stats (rw (found, q) m), rw u (plus_zero s.used_seconds))
      ]

  elsewhere :
      (j i : ℕ) (l : Ledger (StatsFreemin D)) (s : StatsFreemin D)
      → lookup j l.stats ≡ none
      → lookup i l.stats ≡ some s
      → (j == i) ≡ false
  elsewhere j i l s n m = elim (Bool-cases (j == i)) [
    | inl q ↦ absurd (none≢some (sym n ∙ ap (λ x. lookup x l.stats) ((==_iff j i).0 q) ∙ m))
    | inr q ↦ q
  ]

  add-Charged :
      (call : Call D) (l : Ledger (StatsFreemin D)) (i : ℕ) (s : StatsFreemin D)
      → FreeminIsValid l
      → lookup i l.stats ≡ some s
      → Charged call l i s
  unfolding Freemin.add
  add-Charged call l i s v m = elim (Bool-cases (Freemin.is_skipped call)) [
    | inl k ↦ unused call l i s v m (rw k) (rw k)
    | inr k ↦ elim (Option-cases (lookup call.service_package_stats_id l.stats)) [
      | inl n ↦
          let e =
            charge-none (λ s. s.id) (λ s. s.service_number_id) call.service_package_stats_id
              (Freemin.use_freemin call) l v (λ s. (refl, refl)) n in
          let u : uses i call ≡ false = rw k (elsewhere call.service_package_stats_id i l s n m) in
          unused call l i s v m u (rw k e)
      | inr (t, n) ↦ charged call l i s t v m k n
    ]
  ]

  -- In a valid ledger the calls can all be added, and the used seconds of a counter grow by just
  -- the seconds of the calls that use it.
  pub add_all-total :
      (calls : List (Call D)) (l : Ledger (StatsFreemin D)) (i : ℕ) (s : StatsFreemin D)
      → FreeminIsValid l
      → lookup i l.stats ≡ some s
      → (l' : Ledger (StatsFreemin D)) × (s' : StatsFreemin D) × (add_all calls l ≡ some l')
        × FreeminIsValid l'
        × (lookup i l'.stats ≡ some s')
        × (s'.used_seconds ≡ s.used_seconds +ℤ total i calls)
  unfolding add_all Charged
  add_all-total [] l i s v m = (l, s, refl, v, m, plus_zero s.used_seconds)
  add_all-total (call ∷ calls) l i s v m =
      let (l1, s1, e1, v1, m1, u1) = add-Charged call l i s v m in
      let (l2, s2, e2, v2, m2, u2) = add_all-total calls l1 i s1 v1 m1 in
      (
        l2,
        s2,
        rw (e1, add_all) e2,
        v2,
        m2,
        u2
            ∙ ap (λ x. x +ℤ total i calls) u1
            ∙ plus_assoc s.used_seconds (share i call) (total i calls),
      )

  -- A counter of minutes is found by the account's tariff and the time alone: after a call with
  -- one package of the tariff, the counter that a call with any other package gets is the same.
  pub minute-get_current_shared :
      (time : ℕ) (p q : NnpPackageMinute D) (light : NnpAccountTariffLight)
      (l : Ledger (StatsNnpPackageMinute D))
      → IsValid (λ s. s.id) (λ s. s.nnp_account_tariff_light_id) l
      → light.activate_from ≤ℤ pos time
      → pos time ≤ℤ light.deactivate_from
      → (s : StatsNnpPackageMinute D) × (l' : Ledger (StatsNnpPackageMinute D))
        × (Minute.get_current time p light l ≡ some (s, l'))
        × (Minute.get_current time q light l' ≡ some (s, l'))
  unfolding Minute.get_current
  minute-get_current_shared time p q light l v a b =
      let (s, l', e, _, _, _, _, again) =
        get_current_lem (λ s. s.id) (λ s. s.nnp_account_tariff_light_id) (Minute.is_active time)
          light.id (Minute.create_stats p light) l v (λ i. (refl, refl, ground arith)) in
      (s, l', e, again (Minute.create_stats q light))
