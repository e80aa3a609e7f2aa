-- ===== src/Stats/Ledger.antt =====
-- What StatsFreeminManager.cpp and StatsPackageManager.cpp share: the counters by their ids, the
-- ids of each service with the newest one first, the ids to send, and the partitions of counters
-- to save, the newest one last. A `none` is the exception of `vector::at`.
pub mod Laws
pub mod Sync
pub mod Parts
use voipbill.Prelude.{
  ℕ, suc, ◌+◌, ◌≡◌, Bool, ◌||◌, Option, none, some, List, [], ◌∷◌, ◌++◌, map, if◌then◌else◌,
}
use voipbill.Map
use voipbill.Map.{Map}

pub record Ledger {ℓ} (S : Type ℓ) : Type ℓ where
  pub last_id : ℕ
  pub stats : Map S
  pub index : Map (List ℕ)
  pub for_sync : List ℕ
  pub parts : List (Map S)
  pub loaded : Bool

-- `index[key]`, empty where there is none.
abbrev pub ids_of : Map (List ℕ) → ℕ → List ℕ
ids_of index key = elim (Map.lookup key index) [ none ↦ [] | some ids ↦ ids ]

module _ {ℓ} {S : Type ℓ} where
  -- The constructor.
  unfoldable pub empty : Bool → Ledger S
  empty loaded = record {
    last_id = 0;
    stats = [];
    index = [];
    for_sync = [];
    parts = [] ∷ [];
    loaded = loaded;
  }

  -- The loop of `getCurrent` over the ids of a service: the first counter that fits.
  pub first_fit : (fits : S → Bool) → Map S → List ℕ → Option S
  first_fit fits stats [] = none
  first_fit fits stats (i ∷ ids) =
      let rest = first_fit fits stats ids in
      elim (Map.lookup i stats) [ none ↦ rest | some s ↦ if fits s then some s else rest ]

  -- `parts.at(parts.size() - 1)[id] = s`.
  pub write_last : ℕ → S → List (Map S) → Option (List (Map S))
  write_last i s [] = none
  write_last i s (p ∷ []) = some (Map.insert i s p ∷ [])
  write_last i s (p ∷ q ∷ ps) =
      let rest = write_last i s (q ∷ ps) in elim rest [ none ↦ none | some ps' ↦ some (p ∷ ps') ]

  -- A copy of the counter to the newest partition, and its id to those to send.
  pub publish : ℕ → S → Ledger S → Option (Ledger S)
  unfolding write_last
  publish i s l = elim (write_last i s l.parts) [
    | none ↦ none
    | some parts ↦ some (record l { parts = parts; for_sync = Map.add i l.for_sync })
  ]

  -- The new counter under the next id, made by `make` from it, first among those of the service.
  pub create : (key : ℕ) (make : ℕ → S) → Ledger S → S × Ledger S
  create key make l =
      let i = l.last_id + 1 in
      (
        make i,
        record l {
          last_id = i;
          stats = Map.insert i (make i) l.stats;
          index = Map.insert key (i ∷ ids_of l.index key) l.index;
        },
      )

  -- `getCurrent`: the first counter of the service that fits, or a new one.
  pub get_current : (fits : S → Bool) (key : ℕ) (make : ℕ → S) → Ledger S → Option (S × Ledger S)
  unfolding first_fit create publish
  get_current fits key make l = elim (first_fit fits l.stats (ids_of l.index key)) [
    | some s ↦ some (s, l)
    | none ↦
        let (s, l') = create key make l in
        elim (publish l'.last_id s l') [ none ↦ none | some l'' ↦ some (s, l'') ]
  ]

  -- `update…` and the rest of `add`: nothing happens where there is no counter of that id.
  pub charge : (id : ℕ) (change : S → S) → Ledger S → Option (Ledger S)
  unfolding publish
  charge i change l = elim (Map.lookup i l.stats) [
    | none ↦ some l
    | some s ↦ publish i (change s) (record l { stats = Map.insert i (change s) l.stats })
  ]

  unfoldable pub create_new_partition : Ledger S → Ledger S
  create_new_partition l = record l { parts = l.parts ++ ([] ∷ []) }

  unfoldable pub drop_first : List (Map S) → List (Map S)
  drop_first [] = []
  drop_first (p ∷ ps) = ps

  unfoldable pub remove_partition_after_save : Ledger S → Ledger S
  unfolding drop_first
  remove_partition_after_save l = record l { parts = drop_first l.parts }

  -- The rows that `prepareSaveQuery` writes: those of the oldest partition.
  pub rows_to_save : Ledger S → Map S
  rows_to_save l = elim l.parts [ [] ↦ [] | p ∷ ps ↦ p ]

  -- `for (id : forSync) changes[id] = stats[id];`, which makes a blank counter of a missing id.
  pub collect : (blank : S) → List ℕ → Map S → Map S → Map S × Map S
  collect blank [] changes stats = (changes, stats)
  collect blank (i ∷ ids) changes stats = elim (Map.lookup i stats) [
    | none ↦ collect blank ids (Map.insert i blank changes) (Map.insert i blank stats)
    | some s ↦ collect blank ids (Map.insert i s changes) stats
  ]

  -- `for (it : stats) changes[it.first] = it.second;`
  pub copy : Map S → Map S → Map S
  copy [] changes = changes
  copy ((i, s) ∷ stats) changes = copy stats (Map.insert i s changes)

  pub get_changes : (blank : S) → Map S → Ledger S → Map S × Ledger S
  unfolding collect
  get_changes blank changes l =
      let (changes', stats) = collect blank l.for_sync changes l.stats in
      (changes', record l { stats = stats; for_sync = [] })

  pub add_keys : Map S → List ℕ → List ℕ
  add_keys [] ids = ids
  add_keys ((i, s) ∷ changes) ids = add_keys changes (Map.add i ids)

  pub add_changes : Map S → Ledger S → Ledger S
  unfolding add_keys
  add_changes changes l = record l { for_sync = add_keys changes l.for_sync }
