-- ===== src/Auth/Filters.antt =====
-- The filters of src-bill/classes/RadiusAuthProcessor.cpp on numbers and trunks, with
-- `getPrefixlistIds` of models/Number.h.
use voipbill.Prelude.{
  ℕ, Bool, true, false, not, ◌&&◌, Option, none, some, List, map, contains, ltb, if◌then◌else◌,
  pos_part,
}
use voipbill.Billing.Numbers.{get_region_ids}
use voipbill.Models.Trunk.{Trunk}
use voipbill.Models.Routing.{Number, Prefixlist, TrunkRule, TrunkTrunkRule, Named}
use voipbill.Lists.{Lists, rows_of, find, prefix_of, trunk_rules_of, trunk_ids_of}
use voipbill.Auth.{
  is_there, Caller, Result, ok, std_error, number_not_found, prefixlist_not_found,
  trunk_group_not_found, ◌>>=◌, required, any_of,
}

-- `substr` throws on an empty text. The ids are positive.
unfoldable pub get_prefixlist_ids : Number → Option (List ℕ)
get_prefixlist_ids n = elim (get_region_ids n.prefixlist_ids) [
  | none ↦ none
  | some ids ↦ some (map pos_part ids)
]

module _ {D : Type 0} (l : Lists D) where
  unfoldable pub match_prefixlist : (prefixlist_id : ℕ) (number : List ℕ) → Result Bool
  match_prefixlist id number = do
    list ← required prefixlist_not_found (find (λ (p : Prefixlist). p.id) id l.prefixlist)
    ok (is_there (prefix_of list.id number l.prefixlist_prefix))

  -- The loop of `filterByNumber` does at a list what `matchPrefixlist` does.
  unfoldable pub filter_by_number : (number_id : ℕ) (number : List ℕ) → Result Bool
  filter_by_number id number = do
    n ← required number_not_found (find (λ (n : Number). n.id) id l.number)
    ids ← required std_error (get_prefixlist_ids n)
    any_of (λ i. match_prefixlist i number) ids

  -- A filter of 0 lets every number pass.
  unfoldable pub filter_if : (number_id : ℕ) (number : List ℕ) → Result Bool
  filter_if id number = if ltb 0 id then filter_by_number id number else ok true

  unfoldable pub match_trunk_group : (trunk_group_id match_trunk_id : ℕ) → Result Bool
  match_trunk_group group trunk = do
    g ← required trunk_group_not_found (find (λ (g : Named). g.id) group l.trunk_group)
    ok (contains trunk (trunk_ids_of group l.trunk_group_item))

  module _ (p : Caller D) where
    -- `f_a && f_b`. Both filters run.
    unfoldable pub both_filters : (a_id b_id : ℕ) → Result Bool
    both_filters a_id b_id = do
      f_a ← filter_if a_id p.a_number
      f_b ← filter_if b_id p.b_number
      ok (f_a && f_b)

    -- `f_a && f_b && matchTrunkGroup(…)`. The group is looked up for numbers that pass.
    unfoldable pub matches_rule : (a_id b_id trunk_group_id : ℕ) → Result Bool
    matches_rule a_id b_id group = do
      passed ← both_filters a_id b_id
      if passed then match_trunk_group group p.orig_trunk.id else ok false

    -- A rule of a trunk that takes calls by default. Its group is looked up whenever it has one.
    unfoldable pub matches_exception : TrunkTrunkRule → Result Bool
    matches_exception r = do
      passed ← both_filters r.number_id_filter_a r.number_id_filter_b
      grouped ←
          if ltb 0 r.trunk_group_id
          then match_trunk_group r.trunk_group_id p.orig_trunk.id
          else ok true
      ok (passed && grouped)

    -- With a default of true a rule that matches forbids the trunk, else it allows it.
    abbrev pub by_default : Bool → Bool → Bool
    by_default default_allowed found = if default_allowed then not found else found

    unfoldable pub auto_trunk_filter_src_trunk : Trunk → Result Bool
    auto_trunk_filter_src_trunk t =
        let rules = rows_of (λ (r : TrunkTrunkRule). r.trunk_id) t.id l.trunk_trunk_rule in
        do
          found ←
              if t.source_trunk_rule_default_allowed
              then any_of matches_exception rules
              else any_of
                  (λ (r : TrunkTrunkRule).
                    matches_rule r.number_id_filter_a r.number_id_filter_b r.trunk_group_id)
                  rules
          ok (by_default t.source_trunk_rule_default_allowed found)

    unfoldable pub auto_trunk_filter_src_number : Trunk → Result Bool
    auto_trunk_filter_src_number t = do
      found ←
          any_of (λ (r : TrunkRule). match_prefixlist r.prefixlist_id p.a_number)
            (trunk_rules_of t.id false l.trunk_rule)
      ok (by_default t.source_rule_default_allowed found)

    unfoldable pub auto_trunk_filter_dst_number : Trunk → Result Bool
    auto_trunk_filter_dst_number t = do
      found ←
          any_of (λ (r : TrunkRule). match_prefixlist r.prefixlist_id p.b_number)
            (trunk_rules_of t.id true l.trunk_rule)
      ok (by_default t.destination_rule_default_allowed found)
