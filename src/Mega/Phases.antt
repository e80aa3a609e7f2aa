-- ===== src/Mega/Phases.antt =====
-- What the phases of a call mean.
use voipbill.Prelude.{
  ℕ, ◌≡◌, refl, sym, ◌∙◌, Bool, true, false, not, ◌&&◌, ◌==◌, Option, none, some, List, [], ◌∷◌,
  contains, arith, Bool-cases, Option-cases, inl, inr,
}
use voipbill.Models.Call.{Cdr}
use voipbill.Models.Trunk.{Trunk, ServiceNumber, ServiceTrunk}
use voipbill.Mega.{
  Tables, StateMegaTrunk, new_state, is_active, at_term_trunk, term_phase, is_source, see,
  orig_phase, phase_calc, prepare_from_cdr, is_some, term_of, orig_of,
}

-- A call is in one phase at most. In phase 1 it goes to a region that is not beside that of the
-- server. It is in phase 2 just where the leg to the trunk is not billed, and then it has a trunk to go to. Billing by number is forced in phase 1 alone.
pub record Phased (s : StateMegaTrunk) : Type 0 where
  pub one_phase : (s.is_phase1 && s.is_phase2) ≡ false
  pub elsewhere : s.is_phase1 ≡ true → contains s.dest_region s.simbling_regions ≡ false
  pub arrived : s.is_phase2 ≡ true → is_some s.dest_trunk ≡ true
  pub skipped : s.need_force_term_tariffication_skip ≡ s.is_phase2
  pub forced : s.need_force_term_auth_by_number ≡ true → s.is_phase1 ≡ true

-- No phase is set yet.
pub record Unphased (s : StateMegaTrunk) : Type 0 where
  pub no_phase1 : s.is_phase1 ≡ false
  pub no_phase2 : s.is_phase2 ≡ false
  pub no_force : s.need_force_term_auth_by_number ≡ false
  pub no_skip : s.need_force_term_tariffication_skip ≡ false

Unphased-Phased : (s : StateMegaTrunk) → Unphased s → Phased s
Unphased-Phased s u = record {
  one_phase = rw (u.no_phase1) refl;
  elsewhere = λ e. absurd (ground (arith, e, u.no_phase1));
  arrived = λ e. absurd (ground (arith, e, u.no_phase2));
  skipped = u.no_skip ∙ sym u.no_phase2;
  forced = λ e. absurd (ground (arith, e, u.no_force));
}

module _ (r : Tables) where
  at_term_trunk-Phased :
      (t : ServiceTrunk) (s : StateMegaTrunk) → Unphased s → Phased (at_term_trunk r t s)
  unfolding at_term_trunk
  at_term_trunk-Phased t s u = elim (Bool-cases (contains t.server_id s.simbling_regions)) [
    | inr e ↦ rw e (record {
      one_phase = u.no_phase2;
      elsewhere = λ g. e;
      arrived = λ g. absurd (ground (arith, g, u.no_phase2));
      skipped = u.no_skip ∙ sym u.no_phase2;
      forced = λ g. refl;
    })
    | inl e ↦ elim (Option-cases (r.get_trunk t.trunk_id)) [
      | inl g ↦
          rw (e, g)
            (Unphased-Phased _ (record {
              no_phase1 = u.no_phase1;
              no_phase2 = u.no_phase2;
              no_force = u.no_force;
              no_skip = u.no_skip;
            }))
      | inr (trunk, g) ↦
          rw (e, g)
            (record {
              one_phase = rw (u.no_phase1) refl;
              elsewhere = λ h. absurd (ground (arith, h, u.no_phase1));
              arrived = λ h. refl;
              skipped = refl;
              forced = λ h. absurd (ground (arith, h, u.no_force));
            })
    ]
  ]

  -- `none` of the loop over the trunks of number B leaves the state as it is.
  abbrev PhasedIfAny : Option StateMegaTrunk → Type 0
  PhasedIfAny none = Unit
  PhasedIfAny (some s) = Phased s

  term_phase-Phased :
      (now : ℕ) (b : ServiceNumber) (trunks : List ServiceTrunk) (s : StateMegaTrunk)
      → Unphased s
      → PhasedIfAny (term_phase r now b trunks s)
  unfolding term_phase
  term_phase-Phased now b [] s u = tt
  term_phase-Phased now b (t ∷ trunks) s u =
      elim (Bool-cases
        (is_active now t && t.client_account_id == b.client_account_id && t.term_enabled)) [
          | inl e ↦ rw e (at_term_trunk-Phased t s u)
          | inr e ↦ rw e (term_phase-Phased now b trunks s u)
        ]

  see-Unphased :
      (found : Bool) (t : ServiceTrunk) (s : StateMegaTrunk)
      → Unphased s
      → Unphased (see r found t s)
  see-Unphased true t s u = record {
    no_phase1 = u.no_phase1;
    no_phase2 = u.no_phase2;
    no_force = u.no_force;
    no_skip = u.no_skip;
  }
  see-Unphased false t s u = u

  see-regions :
      (found : Bool) (t : ServiceTrunk) (s : StateMegaTrunk)
      → (see r found t s).simbling_regions ≡ s.simbling_regions
  see-regions true t s = refl
  see-regions false t s = refl

  orig_phase-Phased :
      (now : ℕ) (src : Trunk) (a : ServiceNumber) (trunks : List ServiceTrunk) (s : StateMegaTrunk)
      → Unphased s
      → Phased (orig_phase r now src a trunks s)
  unfolding orig_phase
  orig_phase-Phased now src a [] s u = Unphased-Phased s u
  orig_phase-Phased now src a (t ∷ trunks) s u =
      let found = is_source r now src a t in
      let s' = see r found t s in
      let u' = see-Unphased found t s u in
      elim (Bool-cases
        (found && not (contains a.server_id s.simbling_regions) && is_some s'.dest_trunk)) [
          | inl e ↦ rw e (record {
            one_phase = u'.no_phase2;
            elsewhere = λ h. rw (see-regions found t s) (ground (arith, e));
            arrived = λ h. absurd (ground (arith, h, u'.no_phase2));
            skipped = u'.no_skip ∙ sym u'.no_phase2;
            forced = λ h. refl;
          })
          | inr e ↦ rw e (orig_phase-Phased now src a trunks s' u')
        ]

  term_of-Phased :
      (now : ℕ) (b : Option ServiceNumber) (s : StateMegaTrunk)
      → Unphased s
      → PhasedIfAny (term_of r now b s)
  term_of-Phased now none s u = tt
  term_of-Phased now (some b) s u = term_phase-Phased now b _ s u

  orig_of-Phased :
      (now : ℕ) (src : Trunk) (a : Option ServiceNumber) (s : StateMegaTrunk)
      → Unphased s
      → Phased (orig_of r now src a s)
  orig_of-Phased now src none s u = Unphased-Phased s u
  orig_of-Phased now src (some a) s u = orig_phase-Phased now src a _ s u

  or_orig-Phased :
      (x : Option StateMegaTrunk) (s : StateMegaTrunk)
      → PhasedIfAny x
      → Phased s
      → Phased (elim x [ some s' ↦ s' | none ↦ s ])
  or_orig-Phased none s p q = q
  or_orig-Phased (some s') s p q = p

  phase_calc-Unphased : (now : ℕ) (s : StateMegaTrunk) → Unphased s → Phased (phase_calc r now s)
  unfolding phase_calc
  phase_calc-Unphased now s u = elim (Option-cases s.src_trunk) [
    | inl e ↦ rw (e, phase_calc) (Unphased-Phased s u)
    | inr (src, e) ↦
        rw (e, phase_calc)
          (or_orig-Phased _ _ (term_of-Phased now s.number_b s u)
            (orig_of-Phased now src s.number_a s u))
  ]

  -- After `prepareFromCdr` and `PhaseCalc` of a new state, for any tables, record and numbers: the
  -- call is in one phase at most; in phase 1 it goes to a region that is not beside that of the
  -- server; in phase 2 it has a trunk to go to; its terminating leg is left out of the billing just
  -- in phase 2, and authorisation by number is forced in phase 1 alone.
  pub phase_calc-Phased :
      (now orig_region : ℕ) (cdr : Cdr) (a_number b_number : List ℕ)
      → Phased (phase_calc r now (prepare_from_cdr r cdr a_number b_number (new_state orig_region)))
  unfolding prepare_from_cdr new_state
  phase_calc-Phased now orig_region cdr a_number b_number =
      phase_calc-Unphased now (prepare_from_cdr r cdr a_number b_number (new_state orig_region))
        (record { no_phase1 = refl; no_phase2 = refl; no_force = refl; no_skip = refl })
