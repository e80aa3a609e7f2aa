-- ===== src/Calls/Queue.antt =====
-- The queue of legs while it is saved: `DataBillingContainer::addCall` and the steps of `save`,
-- each under the lock of the container, in any order that the threads come to them.
use mathlib.Core.Option.{some-injective}
use mathlib.Core.List.{append_assoc}
use voipbill.Prelude.{
  ◌+◌, ◌<◌, ◌≤◌, ◌≡◌, ◌≢◌, refl, sym, ap, subst, ◌∙◌, Bool, true, false, some, List, [], ◌∷◌, ◌++◌,
  length, length-append, if◌then◌else◌, arith, Bool-cases, inl, inr, leb, pos, ◌==◌,
}
use voipbill.Models.Call.{Call}
use voipbill.Calls.{
  CallsManager, partition_size, last, clear, add, is_need_save, store,
  is_need_create_partition_before_save, is_need_create_partition_after_add, create_new_partition,
  remove_partition_after_save, remove_first, legs_to_save, add_call, begin_save,
}
use voipbill.Calls.Pending.{
  push_last-front, pending-partition, front-partition, last-total, nonempty, length-nonempty,
  push_last-total, last-nonempty, front, pending,
}

-- Where a save stands: between its steps, other threads add legs.
pub data Phase (D : Type 0) : Type 0 where
  idle started : Phase D
  captured : List (Call D) → Phase D

pub record State (D : Type 0) : Type 0 where
  pub manager : CallsManager D
  pub phase : Phase D
  pub added : List (Call D)
  pub written : List (Call D)

module _ {D : Type 0} where
  -- What `addCall` does to the queue, whether it begins a new partition or not.
  pub record AddedTo (call : Call D) (m m' : CallsManager D) : Type 0 where
    pub behind : pending m'.parts ≡ pending m.parts ++ (call ∷ [])
    pub counted : m'.realtime_counter ≡ m.realtime_counter + 1
    pub stored : m'.stored_counter ≡ m.stored_counter
    pub as_many : length m.parts ≤ length m'.parts
    pub same_front : 1 < length m.parts → front m'.parts ≡ front m.parts

  maybe_partition-AddedTo :
      (call : Call D) (m m' : CallsManager D) (b : Bool)
      → m.parts ≢ []
      → m'.parts ≢ []
      → AddedTo call m m'
      → AddedTo call m (if b then create_new_partition m' else m')
  unfolding create_new_partition
  maybe_partition-AddedTo call m m' false h n k = k
  maybe_partition-AddedTo call m m' true h n k = record {
    behind = pending-partition m'.parts ∙ k.behind;
    counted = k.counted;
    stored = k.stored;
    as_many = omega (arith, k.as_many, length-append m'.parts ([] ∷ []));
    same_front = λ l. front-partition m'.parts n ∙ k.same_front l;
  }

  pub add-AddedTo :
      (call : Call D) (m : CallsManager D)
      → m.parts ≢ []
      → (m' : CallsManager D) × (add call m ≡ some m') × (m'.parts ≢ []) × AddedTo call m m'
  unfolding add
  add-AddedTo call m h =
      let (qs, e, k) = push_last-total call m.parts h in
      (
        record m {
          parts = qs;
          realtime_last_id = pos call.id;
          realtime_last_time = call.connect_time;
          realtime_counter = m.realtime_counter + 1;
        },
        rw (e, add),
        nonempty qs (omega (arith, k.as_many, length-nonempty m.parts h)),
        record {
          behind = k.behind;
          counted = refl;
          stored = refl;
          as_many = omega (arith, k.as_many);
          same_front = λ l. push_last-front call m.parts qs l e;
        },
      )

  pub add-length :
      (call : Call D) (m m' : CallsManager D)
      → m.parts ≢ []
      → add call m ≡ some m'
      → length m'.parts ≡ length m.parts
  unfolding add
  add-length call m m' h e =
      let (qs, g, k) = push_last-total call m.parts h in
      let same : some (record m {
        parts = qs;
        realtime_last_id = pos call.id;
        realtime_last_time = call.connect_time;
        realtime_counter = m.realtime_counter + 1;
      })
          ≡ some m' =
        rw (g, add) at e in
      sym (ap (λ (x : CallsManager D). length x.parts) (some-injective _ _ same)) ∙ k.as_many

  add_call-AddedTo :
      (call : Call D) (m : CallsManager D)
      → m.parts ≢ []
      → (m' : CallsManager D) × (add_call call m ≡ some m') × AddedTo call m m'
  unfolding add_call is_need_create_partition_after_add
  add_call-AddedTo call m h =
      let (m1, e, n, k) = add-AddedTo call m h in
      let (p, g) = last-nonempty m1.parts n in
      (
        _,
        rw (e, add_call) (rw (g, is_need_create_partition_after_add) refl),
        maybe_partition-AddedTo call m m1 (leb partition_size (length p)) h n k,
      )

module _ {D : Type 0} where
  -- The steps of the threads. `abandon` is an exception of the database, which undoes the
  -- transaction; `written` is what was committed.
  pub data Step (s : State D) : State D → Type 0 where
    add_leg :
        (call : Call D) (m : CallsManager D)
        → add_call call s.manager ≡ some m
        → Step s (record s { manager = m; added = s.added ++ (call ∷ []) })
    begin :
        s.phase ≡ idle
        → is_need_save s.manager ≡ some true
        → Step s (record s { manager = begin_save s.manager; phase = started })
    capture : s.phase ≡ started → Step s (record s { phase = captured (legs_to_save s.manager) })
    commit :
        (p : List (Call D)) (m : CallsManager D)
        → s.phase ≡ captured p
        → remove_partition_after_save s.manager ≡ some m
        → Step s (record s { manager = m; phase = idle; written = s.written ++ p })
    abandon : Step s (record s { phase = idle })

  unfoldable pub start : State D
  start = record { manager = clear; phase = idle; added = []; written = [] }

  pub data Reach (s : State D) : State D → Type 0 where
    here : Reach s s
    next : {t u : State D} → Reach s t → Step t u → Reach s u

  -- A save that has begun keeps the partition that it writes.
  abbrev Holds : Phase D → List (List (Call D)) → Type 0
  Holds idle ps = Unit
  Holds started ps = 1 < length ps
  Holds (captured p) ps = (1 < length ps) × (front ps ≡ p)

  pub record Kept (s : State D) : Type 0 where
    pub parted : s.manager.parts ≢ []
    pub flow : s.added ≡ s.written ++ pending s.manager.parts
    pub added_all : s.manager.realtime_counter ≡ length s.added
    pub stored_all : s.manager.stored_counter ≡ length s.written
    pub held : Holds s.phase s.manager.parts

  begin_save-Kept :
      (m : CallsManager D)
      → m.parts ≢ []
      → (pending (begin_save m).parts ≡ pending m.parts)
        × (1 < length (begin_save m).parts)
        × ((begin_save m).realtime_counter ≡ m.realtime_counter)
        × ((begin_save m).stored_counter ≡ m.stored_counter)
  unfolding begin_save is_need_create_partition_before_save create_new_partition
  begin_save-Kept m h = elim (Bool-cases (length m.parts == 1)) [
    | inl e ↦ rw e (
      pending-partition m.parts,
      omega (arith, length-append m.parts ([] ∷ []), length-nonempty m.parts h),
      refl,
      refl,
    )
    | inr e ↦ rw e (refl, ground (arith, length-nonempty m.parts h), refl, refl)
  ]

  store-counters :
      (p : List (Call D)) (m : CallsManager D)
      → ((store p m).realtime_counter ≡ m.realtime_counter)
        × ((store p m).stored_counter ≡ m.stored_counter + length p)
  unfolding last
  store-counters [] m = (refl, omega arith)
  store-counters (call ∷ p) m = let (b, e) = last-total call p in rw (e, store) (refl, refl)

  -- What `removePartitionAfterSave` takes off are the legs of the first partition.
  removed-Kept :
      (m m' : CallsManager D) (ps : List (List (Call D)))
      → 1 < length ps
      → remove_first m ps ≡ some m'
      → (pending ps ≡ front ps ++ pending m'.parts)
        × (m'.parts ≢ [])
        × (m'.realtime_counter ≡ m.realtime_counter)
        × (m'.stored_counter ≡ m.stored_counter + length (front ps))
  unfolding remove_first pending front
  removed-Kept m m' [] h e = absurd (omega arith)
  removed-Kept m m' (p ∷ ps) h e =
      let same : record (store p m) { parts = ps } ≡ m' = some-injective _ _ e in
      let (a, b) = store-counters p m in
      (
        ap (λ (x : CallsManager D). p ++ pending x.parts) same,
        subst (λ (x : CallsManager D). x.parts ≢ []) same (nonempty ps (omega arith)),
        sym (ap (λ (x : CallsManager D). x.realtime_counter) same) ∙ a,
        sym (ap (λ (x : CallsManager D). x.stored_counter) same) ∙ b,
      )

  Holds-more :
      (phase : Phase D) (ps qs : List (List (Call D)))
      → length ps ≤ length qs
      → (1 < length ps → front qs ≡ front ps)
      → Holds phase ps
      → Holds phase qs
  Holds-more idle ps qs l f h = tt
  Holds-more started ps qs l f h = omega arith
  Holds-more (captured p) ps qs l f (h, e) = (omega arith, f h ∙ e)

  front-legs : (m : CallsManager D) → front m.parts ≡ legs_to_save m
  unfolding front legs_to_save
  front-legs m = refl

  Step-Kept : {s t : State D} → Step s t → Kept s → Kept t
  unfolding remove_partition_after_save
  Step-Kept {s} (add_leg call m e) k =
      let (m', g, a) = add_call-AddedTo call s.manager k.parted in
      subst (λ x. Kept (record s { manager = x; added = s.added ++ (call ∷ []) }))
        (some-injective _ _ (sym g ∙ e))
        (record {
          parted = nonempty _ (omega (arith, a.as_many, length-nonempty s.manager.parts k.parted));
          flow =
              ap (λ l. l ++ (call ∷ [])) k.flow
              ∙ append_assoc s.written (pending s.manager.parts) (call ∷ [])
              ∙ ap (λ l. s.written ++ l) (sym a.behind);
          added_all = a.counted ∙ omega (arith, k.added_all, length-append s.added (call ∷ []));
          stored_all = a.stored ∙ k.stored_all;
          held = Holds-more s.phase s.manager.parts _ a.as_many a.same_front k.held;
        })
  Step-Kept {s} (begin i n) k =
      let (p, l, c, d) = begin_save-Kept s.manager k.parted in
      record {
        parted = nonempty _ (omega (arith, l));
        flow = k.flow ∙ ap (λ q. s.written ++ q) (sym p);
        added_all = c ∙ k.added_all;
        stored_all = d ∙ k.stored_all;
        held = l;
      }
  Step-Kept {s} (capture i) k =
      let h = subst (λ x. Holds x s.manager.parts) i k.held in
      record {
        parted = k.parted;
        flow = k.flow;
        added_all = k.added_all;
        stored_all = k.stored_all;
        held = (h, front-legs s.manager);
      }
  Step-Kept {s} (commit p m i e) k =
      let (l, f) = subst (λ x. Holds x s.manager.parts) i k.held in
      let (a, b, c, d) = removed-Kept s.manager m s.manager.parts l e in
      record {
        parted = b;
        flow =
            k.flow
            ∙ ap (λ q. s.written ++ q) (a ∙ ap (λ x. x ++ pending m.parts) f)
            ∙ sym (append_assoc s.written p (pending m.parts));
        added_all = c ∙ k.added_all;
        stored_all = ground (arith, d, k.stored_all, length-append s.written p, ap length f);
        held = tt;
      }
  Step-Kept abandon k = record {
    parted = k.parted;
    flow = k.flow;
    added_all = k.added_all;
    stored_all = k.stored_all;
    held = tt;
  }

  pub Reach-all : {s : State D} → Reach start s → Kept s
  unfolding start clear pending
  Reach-all here = record {
    parted = λ e. cc;
    flow = refl;
    added_all = refl;
    stored_all = refl;
    held = tt;
  }
  Reach-all (next r t) = Step-Kept t (Reach-all r)

  -- In whatever order the threads add legs and save them: the legs that were added are those that
  -- were written, then those of the partitions, in the order in which they were added; and the two
  -- counters are their numbers.
  pub Reach-Kept :
      {s : State D}
      → Reach start s
      → (s.added ≡ s.written ++ pending s.manager.parts)
        × (s.manager.realtime_counter ≡ length s.added)
        × (s.manager.stored_counter ≡ length s.written)
  Reach-Kept r = let k = Reach-all r in (k.flow, k.added_all, k.stored_all)
