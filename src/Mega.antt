-- ===== src/Mega.antt =====
-- src-bill/classes/StateMegaTrunk.cpp and StateMegaTrunk.h: a client with numbers in many regions
-- and one trunk that collects their calls. A call goes to the region of the trunk or of the number
-- first (phase 1), and there to the trunk (phase 2).
pub mod Phases
pub mod Examples
use voipbill.Prelude.{
  ℕ, ◌==◌, Bool, true, false, not, ◌&&◌, Option, none, some, List, [], ◌∷◌, contains, any, leb,
  if◌then◌else◌, ℤ,
}
use voipbill.Text.{atoll}
use voipbill.Models.Call.{Cdr}
use voipbill.Models.Trunk.{Trunk, ServiceNumber, ServiceTrunk}

-- What the class asks of Repository.h.
pub record Tables : Type 0 where
  pub get_trunk_by_name : List ℕ → ℕ → Option Trunk
  pub get_trunk : ℕ → Option Trunk
  pub get_service_number : ℤ → Option ServiceNumber
  pub get_service_trunk_by_client_id : ℕ → List ServiceTrunk
  pub get_simbling_region : ℕ → List ℕ
  pub is_region_on_hub : ℕ → Bool

pub record StateMegaTrunk : Type 0 where
  pub orig_region : ℕ
  pub src_trunk : Option Trunk
  pub number_a : Option ServiceNumber
  pub number_b : Option ServiceNumber
  pub is_phase1 : Bool
  pub is_phase2 : Bool
  pub need_force_term_auth_by_number : Bool
  pub need_force_term_tariffication_skip : Bool
  pub simbling_regions : List ℕ
  pub dest_trunk : Option Trunk
  pub dest_region : ℕ

pub new_state : (orig_region : ℕ) → StateMegaTrunk
new_state orig_region = record {
  orig_region = orig_region;
  src_trunk = none;
  number_a = none;
  number_b = none;
  is_phase1 = false;
  is_phase2 = false;
  need_force_term_auth_by_number = false;
  need_force_term_tariffication_skip = false;
  simbling_regions = [];
  dest_trunk = none;
  dest_region = 0;
}

abbrev pub if_empty : List ℕ → List ℕ → List ℕ
if_empty [] number = number
if_empty (c ∷ given) number = c ∷ given

abbrev pub is_some {ℓ} : {A : Type ℓ} → Option A → Bool
is_some none = false
is_some (some a) = true

-- `now` is `time(nullptr)`.
abbrev pub is_active : (now : ℕ) → ServiceTrunk → Bool
is_active now t = leb now t.expire_dt && leb t.activation_dt now

module _ (r : Tables) where
  -- `prepareFromCdr` of a record, which is never a null pointer.
  pub prepare_from_cdr : Cdr → (a_number b_number : List ℕ) → StateMegaTrunk → StateMegaTrunk
  prepare_from_cdr cdr a_number b_number s = record s {
    src_trunk = r.get_trunk_by_name cdr.src_route s.orig_region;
    number_a = r.get_service_number (atoll (if_empty a_number cdr.src_number));
    number_b = r.get_service_number (atoll (if_empty b_number cdr.dst_number));
    simbling_regions = r.get_simbling_region s.orig_region;
  }

  -- What the loop over the trunks of number B does at the trunk that it returns at.
  pub at_term_trunk : ServiceTrunk → StateMegaTrunk → StateMegaTrunk
  at_term_trunk t s =
      if not (contains t.server_id s.simbling_regions)
      then record s {
        dest_region = t.server_id;
        is_phase1 = true;
        need_force_term_auth_by_number = true;
      }
      else elim (r.get_trunk t.trunk_id) [
        | none ↦ record s { dest_trunk = none }
        | some trunk ↦ record s {
          dest_trunk = some trunk;
          need_force_term_tariffication_skip = true;
          is_phase2 = true;
        }
      ]

  -- The loop of `PhaseCalc` over the trunks of number B. With `none` it goes on to number A.
  pub term_phase :
      (now : ℕ) (number_b : ServiceNumber)
      → List ServiceTrunk
      → StateMegaTrunk
      → Option StateMegaTrunk
  unfolding at_term_trunk
  term_phase now b [] s = none
  term_phase now b (t ∷ trunks) s =
      let rest = term_phase now b trunks s in
      if is_active now t && t.client_account_id == b.client_account_id && t.term_enabled
      then some (at_term_trunk t s)
      else rest

  -- The trunk of number A that the call comes from.
  abbrev pub is_source : (now : ℕ) → Trunk → ServiceNumber → ServiceTrunk → Bool
  is_source now src a t =
      is_active now t
      && t.client_account_id == a.client_account_id
      && t.orig_enabled
      && src.id == t.trunk_id

  abbrev pub see : Bool → ServiceTrunk → StateMegaTrunk → StateMegaTrunk
  see found t s = if found then record s { dest_trunk = r.get_trunk t.trunk_id } else s

  -- The loop of `PhaseCalc` over the trunks of number A.
  pub orig_phase :
      (now : ℕ) (src : Trunk) (number_a : ServiceNumber)
      → List ServiceTrunk
      → StateMegaTrunk
      → StateMegaTrunk
  orig_phase now src a [] s = s
  orig_phase now src a (t ∷ trunks) s =
      let found = is_source now src a t in
      let s' = see found t s in
      let rest = orig_phase now src a trunks s' in
      if found && not (contains a.server_id s.simbling_regions) && is_some s'.dest_trunk
      then record s' { is_phase1 = true; dest_region = a.server_id }
      else rest

  abbrev pub term_of : (now : ℕ) → Option ServiceNumber → StateMegaTrunk → Option StateMegaTrunk
  term_of now none s = none
  term_of now (some b) s = term_phase now b (r.get_service_trunk_by_client_id b.client_account_id) s

  abbrev pub orig_of :
      (now : ℕ) (src : Trunk) → Option ServiceNumber → StateMegaTrunk → StateMegaTrunk
  orig_of now src none s = s
  orig_of now src (some a) s =
      orig_phase now src a (r.get_service_trunk_by_client_id a.client_account_id) s

  pub phase_calc : (now : ℕ) → StateMegaTrunk → StateMegaTrunk
  unfolding term_phase orig_phase
  phase_calc now s = elim s.src_trunk [
    | none ↦ s
    | some src ↦ elim (term_of now s.number_b s) [
      | some s' ↦ s'
      | none ↦ orig_of now src s.number_a s
    ]
  ]

  abbrev is_connected : Trunk → ℕ → Bool
  is_connected trunk region = contains region trunk.road_to_regions

  abbrev forces_orig : (now : ℕ) → Trunk → ServiceNumber → StateMegaTrunk → ServiceTrunk → Bool
  forces_orig now src a s t =
      is_active now t
      && t.client_account_id == a.client_account_id
      && is_connected src t.server_id
      && contains a.server_id s.simbling_regions

  unfoldable pub is_force_org_auth_by_number : (now : ℕ) → StateMegaTrunk → Bool
  is_force_org_auth_by_number now s = elim s.src_trunk [
    | none ↦ false
    | some src ↦ elim s.number_a [
      | none ↦ false
      | some a ↦
          any (forces_orig now src a s) (r.get_service_trunk_by_client_id a.client_account_id)
    ]
  ]

  -- The loop of `isForceOrigTarifficationSkip`, which leaves the trunk that it saw last in `destTrunk`.
  pub orig_skip :
      (now : ℕ) (src : Trunk) (number_a : ServiceNumber)
      → List ServiceTrunk
      → StateMegaTrunk
      → Bool × StateMegaTrunk
  orig_skip now src a [] s = (false, s)
  orig_skip now src a (t ∷ trunks) s =
      let found = is_source now src a t in
      let s' = see found t s in
      let rest = orig_skip now src a trunks s' in
      if found && not (r.is_region_on_hub a.server_id) && is_some s'.dest_trunk
      then (true, s')
      else rest

  unfoldable pub is_force_orig_tariffication_skip :
      (now : ℕ) → StateMegaTrunk → Bool × StateMegaTrunk
  unfolding orig_skip
  is_force_orig_tariffication_skip now s = elim s.src_trunk [
    | none ↦ (false, s)
    | some src ↦ elim s.number_a [
      | none ↦ (false, s)
      | some a ↦ orig_skip now src a (r.get_service_trunk_by_client_id a.client_account_id) s
    ]
  ]

abbrev pub is_tech_orig : StateMegaTrunk → Bool
is_tech_orig s = elim s.src_trunk [ none ↦ false | some src ↦ src.tech_trunk ]
