-- ===== src/Models/Routing.antt =====
-- src-bill/models/Outcome.h, RouteTable.h, RouteTableRoute.h, Number.h, Prefixlist.h,
-- PrefixlistPrefix.h, TrunkRule.h, TrunkTrunkRule.h, TrunkPriority.h, TrunkGroupItem.h and
-- CurrencyRate.h, and the request and the response of classes/RadiusAuthRequestResponse.h.
use voipbill.Prelude.{ℕ, ◌==◌, Bool, true, false, List, [], ℤ}

pub record Outcome : Type 0 where
  pub id : ℕ
  pub type_id : ℕ
  pub route_case_id : ℕ
  pub route_case_1_id : ℕ
  pub route_case_2_id : ℕ
  pub release_reason_id : ℕ
  pub airp_id : ℕ
  pub calling_station_id : List ℕ
  pub called_station_id : List ℕ

abbrev pub is_auto : Outcome → Bool
is_auto o = o.type_id == 1

abbrev pub is_route_case : Outcome → Bool
is_route_case o = o.type_id == 2

abbrev pub is_release_reason : Outcome → Bool
is_release_reason o = o.type_id == 3

abbrev pub is_airp : Outcome → Bool
is_airp o = o.type_id == 4

abbrev pub is_accept : Outcome → Bool
is_accept o = o.type_id == 5

abbrev pub is_meg_to_reg : Outcome → Bool
is_meg_to_reg o = o.type_id == 6

abbrev pub is_meg_to_meg : Outcome → Bool
is_meg_to_meg o = o.type_id == 7

pub record RouteTable : Type 0 where
  pub id : ℕ
  pub server_id : ℕ

pub record RouteTableRoute : Type 0 where
  pub route_table_id : ℕ
  pub a_number_id : ℕ
  pub b_number_id : ℕ
  pub outcome_id : ℕ
  pub outcome_route_table_id : ℕ

-- `prefixlist_ids` is the text of a list, such as `{3,7}`.
pub record Number : Type 0 where
  pub id : ℕ
  pub prefixlist_ids : List ℕ

pub record Prefixlist : Type 0 where
  pub id : ℕ

pub record PrefixlistPrefix : Type 0 where
  pub prefixlist_id : ℕ
  pub prefix : List ℕ

pub record TrunkRule : Type 0 where
  pub trunk_id : ℕ
  pub outgoing : Bool
  pub prefixlist_id : ℕ

pub record TrunkTrunkRule : Type 0 where
  pub trunk_id : ℕ
  pub trunk_group_id : ℕ
  pub number_id_filter_a : ℕ
  pub number_id_filter_b : ℕ

pub record TrunkPriority : Type 0 where
  pub trunk_id : ℕ
  pub priority : ℤ
  pub number_id_filter_a : ℕ
  pub number_id_filter_b : ℕ
  pub trunk_group_id : ℕ

pub record TrunkGroupItem : Type 0 where
  pub trunk_group_id : ℕ
  pub trunk_id : ℕ

pub record CurrencyRate (D : Type 0) : Type 0 where
  pub currency : List ℕ
  pub date : ℤ
  pub rate : D

-- RouteCase.h, ReleaseReason.h, Airp.h and TrunkGroup.h: an id and a name.
pub record Named : Type 0 where
  pub id : ℕ
  pub name : List ℕ

pub record RadiusAuthRequest : Type 0 where
  pub trunk_name : List ℕ
  pub src_number : List ℕ
  pub dst_number : List ℕ
  pub redirect_number : List ℕ
  pub calling_party_category : List ℕ
  pub nas_ip_address : ℕ
  pub src_noa : ℕ
  pub dst_noa : ℕ
  pub region : ℕ

pub record RadiusAuthResponse : Type 0 where
  pub accept : Bool
  pub src_number : List ℕ
  pub dst_number : List ℕ
  pub route_case : List ℕ
  pub release_reason : List ℕ
  pub airp : List ℕ

abbrev pub set_route_case : List ℕ → RadiusAuthResponse → RadiusAuthResponse
set_route_case route_case r = record r { accept = true; route_case = route_case }

abbrev pub set_airp : List ℕ → RadiusAuthResponse → RadiusAuthResponse
set_airp airp r = record r { accept = true; airp = airp }

abbrev pub set_release_reason : List ℕ → RadiusAuthResponse → RadiusAuthResponse
set_release_reason reason r = record r { accept = true; release_reason = reason }

abbrev pub set_accept : RadiusAuthResponse → RadiusAuthResponse
set_accept r = record r { accept = true }

abbrev pub set_reject : RadiusAuthResponse → RadiusAuthResponse
set_reject r = record r { accept = false; src_number = []; dst_number = [] }
