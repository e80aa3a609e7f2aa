-- ===== src/Models/Call.antt =====
-- src-bill/models/Cdr.h and Call.h: what the switch reports of a call, and one leg as it is billed.
use voipbill.Prelude.{ℕ, Bool, false, not, ◌&&◌, List, [], ℤ, pos, ◌-ℤ◌, ltb_ℤ, eqb_ℤ}
use voipbill.Models.Double.{Double, nought}
use voipbill.Text.{atoll}

pub record Cdr : Type 0 where
  pub id : ℕ
  pub connect_time : ℕ
  pub setup_time : ℕ
  pub session_time : ℤ
  pub src_number : List ℕ
  pub dst_number : List ℕ
  pub dst_replace : List ℕ
  pub redirect_number : List ℕ
  pub src_route : List ℕ
  pub dst_route : List ℕ
  pub src_noa : ℕ
  pub dst_noa : ℕ
  pub call_id : ℕ
  pub disconnect_cause : ℕ
  pub in_sig_call_id : List ℕ
  pub out_sig_call_id : List ℕ

-- The fields `nnp_…` that describe the number.
pub record NnpMarks : Type 0 where
  pub operator_id : ℕ
  pub region_id : ℕ
  pub city_id : ℕ
  pub country_prefix : ℕ
  pub country_code : ℕ
  pub ndc : ℕ
  pub is_mob : Bool
  pub number_range_id : ℕ

pub record Call (D : Type 0) : Type 0 where
  pub id : ℕ
  pub peer_id : ℕ
  pub cdr_id : ℕ
  pub connect_time : ℕ
  pub orig : Bool
  pub our : Bool
  pub trunk_id : ℕ
  pub account_id : ℕ
  pub trunk_service_id : ℕ
  pub number_service_id : ℕ
  pub src_number : ℤ
  pub dst_number : ℤ
  pub billed_time : ℤ
  pub rate : D
  pub cost : D
  pub price_includes_vat : Bool
  pub tax_cost : D
  pub interconnect_rate : D
  pub interconnect_cost : D
  pub service_package_id : ℕ
  pub service_package_stats_id : ℕ
  pub package_time : ℤ
  pub package_credit : D
  pub trunk_settings_stats_id : ℕ
  pub pricelist_id : ℕ
  pub prefix : ℤ
  pub destination_id : ℤ
  pub mob : Bool
  pub geo_id : ℕ
  pub geo_mob : Bool
  pub geo_operator_id : ℕ
  pub cdr_call_id : ℕ
  pub disconnect_cause : ℕ
  pub is_service_number : Bool
  pub account_version : ℕ
  pub stats_nnp_package_minute_id : ℕ
  pub nnp : NnpMarks
  pub nnp_package_minute_id : ℕ
  pub nnp_package_price_id : ℕ
  pub nnp_package_pricelist_id : ℕ
  pub nnp_package_id : ℕ
  pub server_id : ℕ
  pub signalling_call_id : List ℕ
  pub pdd : ℤ

module _ {D : Type 0} where
  unfoldable pub is_local : Call D → Bool
  is_local c = ltb_ℤ c.destination_id (pos 0)

  unfoldable pub is_zona_mob : Call D → Bool
  is_zona_mob c = eqb_ℤ c.destination_id (pos 0) && c.mob

  unfoldable pub is_zona_std : Call D → Bool
  is_zona_std c = eqb_ℤ c.destination_id (pos 0) && not c.mob

  unfoldable pub is_russian_mob : Call D → Bool
  is_russian_mob c = eqb_ℤ c.destination_id (pos 1) && c.mob

  unfoldable pub is_russian_std : Call D → Bool
  is_russian_std c = eqb_ℤ c.destination_id (pos 1) && not c.mob

  unfoldable pub is_international : Call D → Bool
  is_international c = eqb_ℤ c.destination_id (pos 2)

abbrev no_marks : NnpMarks
no_marks = record {
  operator_id = 0;
  region_id = 0;
  city_id = 0;
  country_prefix = 0;
  country_code = 0;
  ndc = 0;
  is_mob = false;
  number_range_id = 0;
}

-- The constructor `Call(cdr, orig)`. It leaves `nnp_package_id` as it finds it, here as 0.
unfoldable pub of_cdr : {D : Type 0} ⦃d : Double D⦄ → Cdr → Bool → Call D
of_cdr cdr orig = record {
  id = 0;
  peer_id = 0;
  cdr_id = cdr.id;
  connect_time = cdr.connect_time;
  orig = orig;
  our = false;
  trunk_id = 0;
  account_id = 0;
  trunk_service_id = 0;
  number_service_id = 0;
  src_number = atoll cdr.src_number;
  dst_number = atoll cdr.dst_number;
  billed_time = cdr.session_time;
  rate = nought;
  cost = nought;
  price_includes_vat = false;
  tax_cost = nought;
  interconnect_rate = nought;
  interconnect_cost = nought;
  service_package_id = 0;
  service_package_stats_id = 0;
  package_time = pos 0;
  package_credit = nought;
  trunk_settings_stats_id = 0;
  pricelist_id = 0;
  prefix = pos 0;
  destination_id = pos 2;
  mob = false;
  geo_id = 0;
  geo_mob = false;
  geo_operator_id = 0;
  cdr_call_id = cdr.call_id;
  disconnect_cause = cdr.disconnect_cause;
  is_service_number = false;
  account_version = 4;
  stats_nnp_package_minute_id = 0;
  nnp = no_marks;
  nnp_package_minute_id = 0;
  nnp_package_price_id = 0;
  nnp_package_pricelist_id = 0;
  nnp_package_id = 0;
  server_id = 0;
  signalling_call_id = [];
  pdd = pos cdr.connect_time -ℤ pos cdr.setup_time;
}
