-- ===== src/Calls/Drain.antt =====
-- Saving ends: with no new legs, every leg gets written.
use mathlib.Core.List.{append-nil}
use voipbill.Prelude.{
  ◌<◌, ◌≡◌, ◌≢◌, ◌⊎◌, refl, sym, ap, ◌∙◌, true, some, List, [], ◌∷◌, ◌++◌, length, if◌then◌else◌,
  arith, Bool-cases, inl, inr, ◌==◌,
}
use voipbill.Models.Call.{Call}
use voipbill.Calls.{
  CallsManager, is_need_save, begin_save, is_need_create_partition_before_save,
  create_new_partition, remove_first, remove_partition_after_save, legs_to_save,
}
use voipbill.Calls.Pending.{pending}
use voipbill.Calls.Queue.{
  idle, State, begin, capture, commit, Reach, here, next, start, Reach-Kept, Reach-all,
}

module _ {D : Type 0} where
  Reach-trans : {s t u : State D} → Reach s t → Reach t u → Reach s u
  Reach-trans a here = a
  Reach-trans a (next b t) = next (Reach-trans a b) t

  remove_first-total :
      (m : CallsManager D) (p : List (Call D)) (ps qs : List (List (Call D)))
      → qs ≡ p ∷ ps
      → (m' : CallsManager D) × (remove_first m qs ≡ some m') × (m'.parts ≡ ps)
  unfolding remove_first
  remove_first-total m p ps [] e = cc
  remove_first-total m p ps (q ∷ qs) e = (_, refl, cc)

  -- The three steps of a save, one after the other.
  save_once :
      (s : State D) (p : List (Call D)) (ps : List (List (Call D)))
      → s.phase ≡ idle
      → is_need_save s.manager ≡ some true
      → (begin_save s.manager).parts ≡ p ∷ ps
      → (t : State D) × Reach s t × (t.phase ≡ idle) × (t.added ≡ s.added) × (t.manager.parts ≡ ps)
  unfolding remove_partition_after_save
  save_once s p ps i n e =
      let (m, r, q) =
        remove_first-total (begin_save s.manager) p ps (begin_save s.manager).parts e in
      (
        record s {
          manager = m;
          phase = idle;
          written = s.written ++ legs_to_save (begin_save s.manager);
        },
        next (next (next here (begin i n)) (capture refl)) (commit _ m refl r),
        refl,
        refl,
        q,
      )

  needed :
      (m : CallsManager D) (p : List (Call D)) (ps : List (List (Call D)))
      → m.parts ≡ p ∷ ps
      → (0 < length p) ⊎ (0 < length ps)
      → is_need_save m ≡ some true
  unfolding is_need_save
  needed m p ps e h = ground (arith, ap length e)

  begun :
      (m : CallsManager D) (ps : List (List (Call D)))
      → m.parts ≡ ps
      → (begin_save m).parts ≡ (if length ps == 1 then ps ++ ([] ∷ []) else ps)
  unfolding begin_save is_need_create_partition_before_save create_new_partition
  begun m ps e = elim (Bool-cases (length m.parts == 1)) [
    | inl one ↦ rw one (rw (sym e) (rw one refl))
    | inr more ↦ rw more (rw (sym e) (rw more refl))
  ]

  two :
      (p q : List (Call D)) (ps : List (List (Call D)))
      → (if length (p ∷ q ∷ ps) == 1 then (p ∷ q ∷ ps) ++ ([] ∷ []) else p ∷ q ∷ ps) ≡ p ∷ q ∷ ps
  two p q ps = ground arith

  drain :
      (ps : List (List (Call D))) (s : State D)
      → s.phase ≡ idle
      → s.manager.parts ≡ ps
      → ps ≢ []
      → (t : State D) × Reach s t × (t.added ≡ s.added) × (pending t.manager.parts ≡ [])
  unfolding pending
  drain [] s i e h = absurd (h refl)
  drain ([] ∷ []) s i e h = (s, here, refl, rw (e, pending) refl)
  drain ((c ∷ p) ∷ []) s i e h =
      let (t, r, _, a, q) =
        save_once s (c ∷ p) ([] ∷ []) i (needed s.manager _ _ e (inl (omega arith)))
          (begun s.manager _ e) in
      (t, r, a, rw (q, pending) refl)
  drain (p ∷ q ∷ ps) s i e h =
      let (t, r, j, a, g) =
        save_once s p (q ∷ ps) i (needed s.manager _ _ e (inr (omega arith)))
          (begun s.manager _ e ∙ two p q ps) in
      let (u, r', a', z) = drain (q ∷ ps) t j g (λ x. cc) in (u, Reach-trans r r', a' ∙ a, z)

  -- From every state that the threads can come to between two saves, saves and no new legs lead to
  -- a state where every leg that was added is written.
  pub all_written :
      {s : State D}
      → Reach start s
      → s.phase ≡ idle
      → (t : State D) × Reach s t × (t.added ≡ s.added) × (t.written ≡ s.added)
  all_written {s} r i =
      let (t, r', a, z) = drain s.manager.parts s i refl (Reach-all r).parted in
      let (flow, _, _) = Reach-Kept (Reach-trans r r') in
      (t, r', a, sym (append-nil t.written) ∙ ap (λ l. t.written ++ l) (sym z) ∙ sym flow ∙ a)
