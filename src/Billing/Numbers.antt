-- ===== src/Billing/Numbers.antt =====
-- The numbers of a leg and its destination: `numberPreprocessing`, `processRedirectNumber`,
-- `processGeo`, `processDestinations`, `getDest`, `processLineWithoutNumber`, `getNumber`,
-- `getRemoteNumber`, `getRoute` and `isUsage7800` of src-bill/classes/BillingCall.cpp, and
-- `getRegionIds` of src-bill/models/InstanceSettings.h.
use voipbill.Prelude.{
  ℕ, zero, suc, ◌+◌, ◌-◌, Bool, true, false, not, ◌&&◌, Option, none, some, List, [], ◌∷◌, ◌++◌,
  length, take, ltb, ◌==◌, if◌then◌else◌, ℤ, pos, negsuc, ltb_ℤ, eqb_ℤ, any,
}
use voipbill.Text.{atoll, print_ll, after_first, strip, find_prefix}
use voipbill.Models.Call.{Cdr, Call}
use voipbill.Models.Tariff.{Geo}
use voipbill.Models.Trunk.{Trunk, InstanceSettings, TrunkNumberPreprocessing, MobPrefix, GeoPrefix}
use voipbill.Billing.Repository.{Repository}
use voipbill.Billing.Monad.{Ctx, Outcome, done, fault, M, and_then, set_call}

-- The first of the patterns `=2A`, `=2B`, `*` and `+` that the text has, and what follows it.
pub line_number : List ℕ → ℤ
line_number s = elim (after_first (b'=' ∷ b'2' ∷ b'A' ∷ []) s) [
  | some rest ↦ atoll rest
  | none ↦ elim (after_first (b'=' ∷ b'2' ∷ b'B' ∷ []) s) [
    | some rest ↦ atoll rest
    | none ↦ elim (after_first (b'*' ∷ []) s) [
      | some rest ↦ atoll rest
      | none ↦ elim (after_first (b'+' ∷ []) s) [ some rest ↦ atoll rest | none ↦ atoll s ]
    ]
  ]
]

-- `prefix` before the digits of `number`, through a buffer of 20 characters: `none` where they do
-- not fit.
pub prepend : (prefix : List ℕ) (number : ℤ) → Option ℤ
prepend prefix number =
    let text = prefix ++ print_ll number in if ltb (length text) 20 then some (atoll text) else none

-- `getRegionIds`: the positive numbers between the commas of a text in braces.
pub split_at : (separator : ℕ) → List ℕ → List ℕ → List (List ℕ)
split_at sep item [] = item ∷ []
split_at sep item (c ∷ s) =
    let next = split_at sep [] s in
    let same = split_at sep (item ++ (c ∷ [])) s in if c == sep then item ∷ next else same

pub positive : List (List ℕ) → List ℤ
positive [] = []
positive (t ∷ ts) =
    let rest = positive ts in if ltb_ℤ (pos 0) (atoll t) then atoll t ∷ rest else rest

-- `temp.substr(1, temp.size() - 2)`, which throws on an empty text.
abbrev inner : List ℕ → Option (List ℕ)
inner [] = none
inner (c ∷ s) = some (take (length s - 1) s)

pub get_region_ids : List ℕ → Option (List ℤ)
unfolding split_at positive
get_region_ids s = elim (inner s) [ none ↦ none | some t ↦ some (positive (split_at b',' [] t)) ]

unfoldable pub get_number : {D : Type 0} → Call D → ℤ
get_number call = if call.orig then call.src_number else call.dst_number

unfoldable pub get_remote_number : {D : Type 0} → Call D → ℤ
get_remote_number call = if call.orig then call.dst_number else call.src_number

unfoldable pub get_route : {D : Type 0} → Call D → Cdr → List ℕ
get_route call cdr = if call.orig then cdr.src_route else cdr.dst_route

-- The number of the leg begins with 7800.
pub is_usage_7800 : {D : Type 0} → Call D → Bool
unfolding get_number strip
is_usage_7800 call = elim (strip (b'7' ∷ b'8' ∷ b'0' ∷ b'0' ∷ []) (print_ll (get_number call))) [
  | some rest ↦ true
  | none ↦ false
]

-- Past the test on the city.
abbrev dest_of_region : InstanceSettings → Geo → Option ℤ
dest_of_region settings geo = elim (get_region_ids settings.region_id) [
  | none ↦ none
  | some regions ↦ some (
      if any (λ region. eqb_ℤ geo.region_id region) regions
      then pos 0
      else if ltb_ℤ (pos 0) settings.country_id && eqb_ℤ geo.country_id settings.country_id
      then pos 1
      else pos 2)
]

-- `getDest`, the type of a call to `geo`: -1 local, 0 in the zone, 1 national, 2 international;
-- `none` where the list of regions is an empty text.
pub dest_of : (mob : Bool) → InstanceSettings → Option Geo → Option ℤ
unfolding get_region_ids
dest_of mob settings none = some (pos 2)
dest_of mob settings (some geo) =
    if not mob && ltb_ℤ (pos 0) settings.city_id && eqb_ℤ geo.city_id settings.city_id
    then some (negsuc 0)
    else dest_of_region settings geo

module _ {D : Type 0} (r : Repository D) where
  abbrev step_src : Cdr → TrunkNumberPreprocessing → Bool → M D Bool
  step_src cdr p ready c =
      if not ready && p.src && cdr.src_noa == p.noa && length cdr.src_number == p.size
      then elim (prepend p.prefix c.call.src_number) [
        | none ↦ (fault, c)
        | some n ↦ (done true, record c { call = record (c.call) { src_number = n } })
      ]
      else (done ready, c)

  abbrev step_dst : Cdr → TrunkNumberPreprocessing → Bool → M D Bool
  step_dst cdr p ready c =
      if not ready && not p.src && cdr.dst_noa == p.noa && length cdr.dst_number == p.size
      then elim (prepend p.prefix c.call.dst_number) [
        | none ↦ (fault, c)
        | some n ↦ (done true, record c { call = record (c.call) { dst_number = n } })
      ]
      else (done ready, c)

  -- The rules of the trunk in their order, up to the first order that has none. `fuel` bounds the
  -- number of rules.
  pub preprocess_from : (fuel : ℕ) → Cdr → ℕ → ℕ → Bool → Bool → M D (Unit {0})
  unfolding prepend
  preprocess_from zero cdr trunk_id order src_done dst_done c = (fault, c)
  preprocess_from (suc fuel) cdr trunk_id order src_done dst_done c =
      elim (r.get_trunk_number_preprocessing trunk_id order) [
        | none ↦ (done tt, c)
        | some p ↦ and_then (step_src cdr p src_done c) λ s. λ c1.
            and_then (step_dst cdr p dst_done c1)
              λ t. preprocess_from fuel cdr trunk_id (order + 1) s t
      ]

  pub number_preprocessing : (fuel : ℕ) → Cdr → M D (Unit {0})
  unfolding preprocess_from
  number_preprocessing fuel cdr c = elim c.info.trunk [
    | none ↦ (fault, c)
    | some trunk ↦ preprocess_from fuel cdr trunk.id 1 false false c
  ]

  -- The trunk is not null.
  pub redirect : Cdr → Trunk → Call D → Call D
  unfolding line_number get_remote_number
  redirect cdr trunk call =
      if trunk.orig_redirect_number
      then if ltb_ℤ (pos 0) (atoll cdr.redirect_number)
        then record call { src_number = line_number cdr.redirect_number }
        else call
      else if trunk.orig_redirect_number_7800
      then elim (r.get_service_number_by_technical_number (get_remote_number call)) [
        | none ↦ call
        | some number ↦
            if ltb_ℤ (pos 0) (atoll number.did)
            then record call { dst_number = atoll number.did }
            else call
      ]
      else call

  pub process_redirect_number : Cdr → M D (Unit {0})
  unfolding redirect
  process_redirect_number cdr c = elim c.info.trunk [
    | none ↦ (fault, c)
    | some trunk ↦ (done tt, record c { call = redirect cdr trunk c.call })
  ]

  pub find_mob_prefix : ℤ → Option MobPrefix
  find_mob_prefix = find_prefix (λ (p : MobPrefix). p.prefix) r.mob_prefixes

  pub find_geo_prefix : ℤ → Option GeoPrefix
  find_geo_prefix = find_prefix (λ (p : GeoPrefix). p.prefix) r.geo_prefixes

  abbrev set_geo_mob : Option MobPrefix → Call D → Call D
  set_geo_mob none call = call
  set_geo_mob (some p) call = record call { geo_mob = p.mob }

  abbrev set_geo : Option GeoPrefix → Call D → Call D
  set_geo none call = call
  set_geo (some p) call = record call { geo_id = p.geo_id; geo_operator_id = p.geo_operator_id }

  pub process_geo : M D (Unit {0})
  unfolding get_remote_number find_mob_prefix find_geo_prefix
  process_geo = set_call λ call.
      set_geo (find_geo_prefix (get_remote_number call))
        (set_geo_mob (find_mob_prefix (get_remote_number call)) call)

  abbrev set_mob : Option MobPrefix → Call D → Call D
  set_mob none call = call
  set_mob (some p) call = record call { mob = p.mob }

  abbrev set_destination : Option GeoPrefix → Ctx D → Outcome (Unit {0}) × Ctx D
  set_destination none c = (done tt, c)
  set_destination (some p) c =
      let geo = r.get_geo p.geo_id in
      elim c.info.instance_settings [
        | none ↦ (fault, c)
        | some settings ↦ elim (dest_of c.call.mob settings geo) [
          | none ↦ (fault, c)
          | some dest ↦ (
            done tt,
            record c {
              info = record (c.info) { geo = geo };
              call = record (c.call) { destination_id = dest };
            },
          )
        ]
      ]

  pub process_destinations : M D (Unit {0})
  unfolding dest_of find_mob_prefix find_geo_prefix
  process_destinations c =
      let call = set_mob (find_mob_prefix c.call.dst_number) c.call in
      set_destination (find_geo_prefix call.dst_number) (record c { call = call })
