-- ===== src/Stats/Ledger/Laws.antt =====
-- The ids, the index and the partitions agree, and a counter that was found or made is found again.
use mathlib.Core.Option.{some-injective}
use voipbill.Prelude.{
  ℕ, ◌+◌, ◌≤◌, ◌≡◌, ◌≢◌, ◌⊎◌, inl, inr, refl, sym, ap, subst, ◌∙◌, ==_ne, Bool, true, Option, none,
  some, List, [], ◌∷◌, ◌==◌, if◌then◌else◌, contains, arith, Bool-cases, Option-cases, ==_iff,
  ==_refl,
}
use voipbill.Map.{Map, add, lookup, insert, lookup-insert, lookup-insert_self, contains-add}
use voipbill.Stats.Ledger.{
  Ledger, empty, ids_of, first_fit, write_last, publish, create, get_current, charge,
}

ids_of-insert :
    (k key : ℕ) (ids : List ℕ) (index : Map (List ℕ))
    → ids_of (insert key ids index) k ≡ (if k == key then ids else ids_of index k)
ids_of-insert k key ids index = ground (arith, lookup-insert k key ids index)

module _ {S : Type 0} (id_of key_of : S → ℕ) where
  -- The ids are the keys of the counters and no later than the last one; the index of a service
  -- and the ids to send name counters, the index those of the service; there is a partition.
  pub record IsValid (l : Ledger S) : Type 0 where
    pub ids : (i : ℕ) (s : S) → lookup i l.stats ≡ some s → (id_of s ≡ i) × (i ≤ l.last_id)
    pub indexed :
        (k i : ℕ)
        → contains i (ids_of l.index k) ≡ true
        → (s : S) × (lookup i l.stats ≡ some s) × (key_of s ≡ k)
    pub sent : (i : ℕ) → contains i l.for_sync ≡ true → (s : S) × (lookup i l.stats ≡ some s)
    pub parted : l.parts ≢ []

  write_last-total :
      (i : ℕ) (s : S) (ps : List (Map S))
      → ps ≢ []
      → (qs : List (Map S)) × (write_last i s ps ≡ some qs) × (qs ≢ [])
  unfolding write_last
  write_last-total i s [] h = absurd (h refl)
  write_last-total i s (p ∷ []) h = (insert i s p ∷ [], refl, λ e. cc)
  write_last-total i s (p ∷ q ∷ ps) h =
      let (qs, e, n) = write_last-total i s (q ∷ ps) (λ e. cc) in (p ∷ qs, rw e, λ e. cc)

  publish-some :
      (i : ℕ) (s : S) (l : Ledger S)
      → l.parts ≢ []
      → (ps : List (Map S)) × (ps ≢ [])
        × (publish i s l ≡ some (record l { parts = ps; for_sync = add i l.for_sync }))
  unfolding publish
  publish-some i s l h = let (ps, e, n) = write_last-total i s l.parts h in (ps, n, rw (e, publish))

  -- The counters, the index and the ids to send after a counter is made, or changed in place.
  IsValid-insert :
      (l : Ledger S) (i last : ℕ) (s : S) (index : Map (List ℕ)) (ps : List (Map S))
      → IsValid l
      → id_of s ≡ i
      → i ≤ last
      → l.last_id ≤ last
      → ps ≢ []
      → ((k j : ℕ)
          → contains j (ids_of index k) ≡ true
          → ((j ≡ i) × (k ≡ key_of s)) ⊎ ((j ≢ i) × (contains j (ids_of l.index k) ≡ true)))
      → IsValid (record l {
        last_id = last;
        stats = insert i s l.stats;
        index = index;
        for_sync = add i l.for_sync;
        parts = ps;
      })
  IsValid-insert l i last s index ps v e h k n indexed = record {
    ids = λ j t m. grind (arith, lookup-insert j i s l.stats, v.ids j t);
    indexed = λ k j c. elim (indexed k j c) [
      | inl (p, q) ↦ (s, rw (p, lookup-insert_self i s l.stats), sym q)
      | inr (p, q) ↦
          let (t, m, r) = v.indexed k j q in (t, rw (lookup-insert j i s l.stats, ==_ne j i p) m, r)
    ];
    sent = λ j c. elim (Bool-cases (j == i)) [
      | inl p ↦ (s, rw (lookup-insert j i s l.stats, p))
      | inr p ↦
          let (t, m) = v.sent j (ground (arith, contains-add j i l.for_sync)) in
          (t, rw (lookup-insert j i s l.stats, p) m)
    ];
    parted = n;
  }

  -- What `get_current` may do: return a counter and change nothing, or make one under a new id.
  pub data Outcome (fits : S → Bool) (key : ℕ) (make : ℕ → S) (l : Ledger S)
      : Option (S × Ledger S) → Type 0 where
    found :
        (s : S)
        → first_fit fits l.stats (ids_of l.index key) ≡ some s
        → Outcome fits key make l (some (s, l))
    made :
        (i : ℕ) (ps : List (Map S))
        → i ≡ l.last_id + 1
        → ps ≢ []
        → first_fit fits l.stats (ids_of l.index key) ≡ none
        → Outcome fits key make l (
            some (
              make i,
              record l {
                last_id = i;
                stats = insert i (make i) l.stats;
                index = insert key (i ∷ ids_of l.index key) l.index;
                for_sync = add i l.for_sync;
                parts = ps;
              },
            ))

  pub get_current-Outcome :
      (fits : S → Bool) (key : ℕ) (make : ℕ → S) (l : Ledger S)
      → IsValid l
      → Outcome fits key make l (get_current fits key make l)
  unfolding get_current create
  get_current-Outcome fits key make l v =
      elim (Option-cases (first_fit fits l.stats (ids_of l.index key))) [
        | inr (s, e) ↦ rw (e, get_current) (found s e)
        | inl e ↦
            let i = l.last_id + 1 in
            let l' : Ledger S = record l {
              last_id = i;
              stats = insert i (make i) l.stats;
              index = insert key (i ∷ ids_of l.index key) l.index;
            } in
            let (ps, n, p) = publish-some i (make i) l' v.parted in
            rw (e, get_current) (rw p (made i ps refl n e))
      ]

  first_fit-fits :
      (fits : S → Bool) (stats : Map S) (ids : List ℕ) (s : S)
      → first_fit fits stats ids ≡ some s
      → (fits s ≡ true) × ((i : ℕ) × (contains i ids ≡ true) × (lookup i stats ≡ some s))
  unfolding first_fit
  first_fit-fits fits stats [] s h = cc
  first_fit-fits fits stats (i ∷ ids) s h = elim (Option-cases (lookup i stats)) [
    | inl e ↦ later (first_fit-fits fits stats ids s (rw (e, first_fit) at h))
    | inr (t, e) ↦ elim (Bool-cases (fits t)) [
      | inl f ↦ (ground arith, (i, ground arith, ground arith))
      | inr f ↦ later (first_fit-fits fits stats ids s (ground arith))
    ]
  ]
    where
      later :
          (fits s ≡ true) × ((j : ℕ) × (contains j ids ≡ true) × (lookup j stats ≡ some s))
          → (fits s ≡ true) × ((j : ℕ) × (contains j (i ∷ ids) ≡ true) × (lookup j stats ≡ some s))
      later (f, (j, c, m)) = (f, (j, ground arith, m))

  fits-first_fit :
      (fits : S → Bool) (stats : Map S) (i : ℕ) (ids : List ℕ) (s : S)
      → lookup i stats ≡ some s
      → fits s ≡ true
      → first_fit fits stats (i ∷ ids) ≡ some s
  unfolding first_fit
  fits-first_fit fits stats i ids s m f = ground arith

  module _ (fits : S → Bool) (key : ℕ) (make : ℕ → S) (l : Ledger S) (v : IsValid l)
      (named : (i : ℕ)
        → (id_of (make i) ≡ i) × (key_of (make i) ≡ key) × (fits (make i) ≡ true)) where
    older : (k j : ℕ) → contains j (ids_of l.index k) ≡ true → j ≤ l.last_id
    older k j c = let (t, m, q) = v.indexed k j c in (v.ids j t m).1

    index-made :
        (i : ℕ)
        → i ≡ l.last_id + 1
        → (k j : ℕ) → contains j (ids_of (insert key (i ∷ ids_of l.index key) l.index) k) ≡ true
        → ((j ≡ i) × (k ≡ key_of (make i))) ⊎ ((j ≢ i) × (contains j (ids_of l.index k) ≡ true))
    index-made i h k j c =
        let c' = rw (ids_of-insert k key (i ∷ ids_of l.index key) l.index) at c in
        elim (Bool-cases (k == key)) [
          | inl p ↦ elim (Bool-cases (j == i)) [
            | inl q ↦ inl (ground arith, ground (arith, (named i).1))
            | inr q ↦
                let new = rw p at c' in inr (ground arith, rw ((==_iff k key).0 p) (rw q at new))
          ]
          | inr p ↦ let old = rw p at c' in inr (λ e. omega (arith, older k j old), old)
        ]

    again :
        (i : ℕ)
        → first_fit fits
            (insert i (make i) l.stats)
            (ids_of (insert key (i ∷ ids_of l.index key) l.index) key)
          ≡ some (make i)
    again i =
        rw (ids_of-insert key key (i ∷ ids_of l.index key) l.index, ==_refl key)
          (fits-first_fit fits (insert i (make i) l.stats) i (ids_of l.index key) (make i)
            (lookup-insert_self i (make i) l.stats) (named i).2)

    Outcome-lem :
        {r : Option (S × Ledger S)}
        → Outcome fits key make l r
        → (s : S) × (l' : Ledger S) × (r ≡ some (s, l'))
          × IsValid l'
          × (fits s ≡ true)
          × (key_of s ≡ key)
          × (lookup (id_of s) l'.stats ≡ some s)
          × ((other : ℕ → S) → get_current fits key other l' ≡ some (s, l'))
    unfolding get_current
    Outcome-lem (found s e) =
        let (f, (i, c, m)) = first_fit-fits fits l.stats (ids_of l.index key) s e in
        let (t, m', k) = v.indexed key i c in
        let same : some t ≡ some s = sym m' ∙ m in
        (s, l, refl, v, f, ground arith, rw ((v.ids i s m).0) m, λ other. rw (e, get_current))
    Outcome-lem (made i ps h n e) = (
      make i,
      _,
      refl,
      IsValid-insert l i i (make i) _ ps v (named i).0 (omega arith) (omega arith) n
          (index-made i h),
      (named i).2,
      (named i).1,
      rw ((named i).0) (lookup-insert_self i (make i) l.stats),
      λ other. rw (again i, get_current),
    )

    -- In a valid ledger `get_current` finds or makes a counter of the service that fits; the ledger
    -- stays valid and has the counter under its id, and the next call returns it and changes
    -- nothing, whatever counter it would make.
    pub get_current_lem :
        (s : S) × (l' : Ledger S) × (get_current fits key make l ≡ some (s, l'))
        × IsValid l'
        × (fits s ≡ true)
        × (key_of s ≡ key)
        × (lookup (id_of s) l'.stats ≡ some s)
        × ((other : ℕ → S) → get_current fits key other l' ≡ some (s, l'))
    get_current_lem = Outcome-lem (get_current-Outcome fits key make l v)

  module _ (i : ℕ) (change : S → S) (l : Ledger S) (v : IsValid l)
      (same : (s : S) → (id_of (change s) ≡ id_of s) × (key_of (change s) ≡ key_of s)) where
    -- A charge to a counter of the ledger changes that counter alone, and marks it to be sent.
    pub charge-some :
        (s : S)
        → lookup i l.stats ≡ some s
        → (l' : Ledger S) × (charge i change l ≡ some l')
          × IsValid l'
          × (l'.stats ≡ insert i (change s) l.stats)
          × (l'.for_sync ≡ add i l.for_sync)
    unfolding charge
    charge-some s m =
        let l1 : Ledger S = record l { stats = insert i (change s) l.stats } in
        let (ps, n, p) = publish-some i (change s) l1 v.parted in
        (
          _,
          rw (m, charge) p,
          IsValid-insert l i l.last_id (change s) l.index ps v ((same s).0 ∙ (v.ids i s m).0)
              (v.ids i s m).1 (omega arith) n indexed,
          refl,
          refl,
        )
      where
        indexed :
            (k j : ℕ)
            → contains j (ids_of l.index k) ≡ true
            → ((j ≡ i) × (k ≡ key_of (change s)))
              ⊎ ((j ≢ i) × (contains j (ids_of l.index k) ≡ true))
        indexed k j c = elim (Bool-cases (j == i)) [
          | inl p ↦
              let (t, u, q) = v.indexed k j c in inl (ground arith, ground (arith, (same s).1))
          | inr p ↦ inr (ground arith, c)
        ]

    -- A charge to an unknown id changes nothing.
    pub charge-none : lookup i l.stats ≡ none → charge i change l ≡ some l
    unfolding charge
    charge-none m = rw (m, charge)

-- The ledger that the constructor makes is valid.
pub empty-IsValid :
    {S : Type 0} (id_of key_of : S → ℕ) (loaded : Bool) → IsValid id_of key_of (empty loaded)
unfolding empty lookup
empty-IsValid id_of key_of loaded = record {
  ids = λ i s m. cc;
  indexed = λ k i c. cc;
  sent = λ i c. cc;
  parted = λ e. cc;
}

module _ {S : Type 0} (P : S → Type 0) where
  -- A property of every counter.
  abbrev pub Every : Ledger S → Type 0
  Every l = (i : ℕ) (s : S) → lookup i l.stats ≡ some s → P s

  Every-insert :
      (i : ℕ) (s : S) (stats : Map S)
      → ((j : ℕ) (t : S) → lookup j stats ≡ some t → P t)
      → P s
      → (j : ℕ) (t : S) → lookup j (insert i s stats) ≡ some t
      → P t
  Every-insert i s stats all p j t m = elim (Bool-cases (j == i)) [
    | inl e ↦
        let same : some s ≡ some t = ground (arith, lookup-insert j i s stats) in
        subst P (some-injective _ _ same) p
    | inr e ↦ all j t (ground (arith, lookup-insert j i s stats))
  ]

  module _ (id_of key_of : S → ℕ) where
    pub get_current-Every :
        (fits : S → Bool) (key : ℕ) (make : ℕ → S) (l : Ledger S) {s : S} {l' : Ledger S}
        → IsValid id_of key_of l
        → ((i : ℕ) → P (make i))
        → Every l
        → get_current fits key make l ≡ some (s, l')
        → Every l'
    get_current-Every fits key make l v new all e =
        go (get_current-Outcome id_of key_of fits key make l v) e
      where
        go :
            {r : Option (S × Ledger S)} {s' : S} {l'' : Ledger S}
            → Outcome id_of key_of fits key make l r
            → r ≡ some (s', l'')
            → Every l''
        go (found t f) q = subst Every (ap (λ (p : S × Ledger S). p.1) (some-injective _ _ q)) all
        go (made i ps h n f) q =
            subst Every (ap (λ (p : S × Ledger S). p.1) (some-injective _ _ q))
              (Every-insert i (make i) l.stats all (new i))
