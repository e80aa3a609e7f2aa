-- ===== src/Lists.antt =====
-- The lists of src-bill/lists in memory, as far as the routing searches them, and the searches of
-- src-bill/classes/Repository.cpp over several of them. The rows stand in the order of the queries
-- that load them, by the key of the search first, so that `equal_range` finds all rows of a key.
use voipbill.Prelude.{
  ℕ, ◌==◌, Bool, true, false, ◌&&◌, ◌||◌, not, Option, none, some, List, [], ◌∷◌, map, length,
  head?, contains, ltb, if◌then◌else◌, ℤ, leb_ℤ,
}
use voipbill.Map.{add}
use voipbill.Text.{longest, first_equal, str_eqb}
use voipbill.Models.Tariff.{
  Pricelist, PricelistPrice, NnpPackage, NnpPackagePrice, NnpPackagePricelist,
}
use voipbill.Models.Trunk.{
  ServiceTrunk, ServiceTrunkSettings, Trunk, Server, InstanceSettings, Client,
}
use voipbill.Models.Routing.{
  Outcome, RouteTable, RouteTableRoute, Number, Prefixlist, PrefixlistPrefix, TrunkRule,
  TrunkTrunkRule, TrunkPriority, TrunkGroupItem, CurrencyRate, Named,
}

-- The rows of a key, `equal_range`.
unfoldable pub rows_of {ℓ} : {A : Type ℓ} (key : A → ℕ) (k : ℕ) → List A → List A
rows_of key k [] = []
rows_of key k (a ∷ rows) = let rest = rows_of key k rows in if key a == k then a ∷ rest else rest

-- The first row of an id, or the null pointer.
abbrev pub find {ℓ} : {A : Type ℓ} (id : A → ℕ) (k : ℕ) → List A → Option A
find id k rows = head? (rows_of id k rows)

-- What `getTrunkSettingsOrderList` asks of the lists. `network_type` is the type of the network of a
-- number, and `best_package` the cheapest price of the packages of a tariff for a number, with the
-- price list or the price that it stands in.
pub record SettingsTables (D : Type 0) : Type 0 where
  pub service_trunks : (trunk_id : ℕ) → List ServiceTrunk
  pub service_trunk_settings : (service_trunk_id type : ℕ) → List (ServiceTrunkSettings D)
  pub pricelist : ℕ → Option (Pricelist D)
  pub price : (pricelist_id : ℕ) → ℤ → Option (PricelistPrice D)
  pub network_type : (network_config_id : ℕ) → ℤ → Option ℤ
  pub nnp_package : ℕ → Option NnpPackage
  pub best_package :
      (nnp_tariff_id : ℕ) → ℤ → Option (D × Option NnpPackagePricelist × Option (NnpPackagePrice D))

-- The rows that the loops of `Repository` read. `trunk_by_name` and `trunk_by_alias` search
-- TrunkByNameList.h and TrunkByAliasList.h.
pub record Lists (D : Type 0) : Type 0 where
  pub instance_id : ℕ
  pub hub_id : ℕ
  pub server : List Server
  pub instance_settings : List InstanceSettings
  pub trunk : List Trunk
  pub trunk_by_name : List ℕ → List ℕ → Option Trunk
  pub trunk_by_alias : List ℕ → List ℕ → Option Trunk
  pub trunk_group : List Named
  pub trunk_group_item : List TrunkGroupItem
  pub trunk_rule : List TrunkRule
  pub trunk_trunk_rule : List TrunkTrunkRule
  pub trunk_priority : List TrunkPriority
  pub route_table : List RouteTable
  pub route_table_route : List RouteTableRoute
  pub outcome : List Outcome
  pub route_case : List Named
  pub release_reason : List Named
  pub airp : List Named
  pub number : List Number
  pub prefixlist : List Prefixlist
  pub prefixlist_prefix : List PrefixlistPrefix
  pub client : List (Client D)
  pub currency_rate : List (CurrencyRate D)
  pub settings : SettingsTables D

-- `findTrunkIds`.
unfoldable pub trunk_ids_of : (trunk_group_id : ℕ) → List TrunkGroupItem → List ℕ
trunk_ids_of group rows = map (λ i. i.trunk_id) (rows_of (λ i. i.trunk_group_id) group rows)

abbrev same_side : Bool → Bool → Bool
same_side true b = b
same_side false b = not b

unfoldable pub side_of : Bool → List TrunkRule → List TrunkRule
side_of outgoing [] = []
side_of outgoing (r ∷ rows) =
    let rest = side_of outgoing rows in if same_side outgoing r.outgoing then r ∷ rest else rest

-- `findAll` of TrunkRuleList.h.
unfoldable pub trunk_rules_of : (trunk_id : ℕ) (outgoing : Bool) → List TrunkRule → List TrunkRule
trunk_rules_of trunk outgoing rows = side_of outgoing (rows_of (λ r. r.trunk_id) trunk rows)

-- `find` of PrefixlistPrefixList.h, for a number that fits into its buffer of 20 characters.
unfoldable pub prefix_of :
    (prefixlist_id : ℕ) → List ℕ → List PrefixlistPrefix → Option PrefixlistPrefix
prefix_of list number rows =
    longest
      (first_equal (λ (p : PrefixlistPrefix). p.prefix) (rows_of (λ p. p.prefixlist_id) list rows))
      (length number) number

-- A trunk of the region, or one of a region beside it that is shared.
abbrev pub is_reachable : (server_id : ℕ) (simbling_regions : List ℕ) → Trunk → Bool
is_reachable server_id regions t =
    t.server_id == server_id || contains t.server_id regions && t.sw_shared

-- `findAllAutorouting`.
unfoldable pub auto_routing_trunks :
    (server_id : ℕ) (simbling_regions : List ℕ) → List Trunk → List Trunk
auto_routing_trunks server_id regions [] = []
auto_routing_trunks server_id regions (t ∷ trunks) =
    let rest = auto_routing_trunks server_id regions trunks in
    if t.auto_routing && is_reachable server_id regions t then t ∷ rest else rest

-- `findAllRoadToRegion`.
unfoldable pub road_to_region :
    (server_id region : ℕ) (simbling_regions : List ℕ) → List Trunk → List Trunk
road_to_region server_id region regions [] = []
road_to_region server_id region regions (t ∷ trunks) =
    let rest = road_to_region server_id region regions trunks in
    if contains region t.road_to_regions && is_reachable server_id regions t then t ∷ rest else rest

unfoldable pub hub_regions : (hub_id : ℕ) → List Server → List ℕ
hub_regions hub [] = []
hub_regions hub (s ∷ servers) =
    let rest = hub_regions hub servers in if s.hub_id == hub then add s.id rest else rest

-- `getSimblingRegion`.
unfoldable pub get_simbling_region : (server_id : ℕ) → List Server → List ℕ
get_simbling_region server_id servers = elim (find (λ s. s.id) server_id servers) [
  | none ↦ []
  | some s ↦ if ltb 0 s.hub_id then hub_regions s.hub_id servers else add server_id []
]

module _ {D : Type 0} (l : Lists D) where
  unfoldable pub is_region_on_hub : ℕ → Bool
  is_region_on_hub region =
      l.instance_id == region
      || ltb 0 l.hub_id && elim (find (λ (s : Server). s.id) region l.server) [
        | none ↦ false
        | some s ↦ s.hub_id == l.hub_id
      ]

  -- `getTrunkByName`. A region of 0 stands for the region of the process.
  unfoldable pub get_trunk_by_name : List ℕ → ℕ → Option Trunk
  get_trunk_by_name [] region = none
  get_trunk_by_name (c ∷ name) region =
      let regions = get_simbling_region (if ltb 0 region then region else l.instance_id) l.server in
      elim (l.trunk_by_name (c ∷ name) regions) [
        | some t ↦ some t
        | none ↦ l.trunk_by_alias (c ∷ name) regions
      ]

  -- `isEmergencyCall`.
  unfoldable pub is_emergency_call : List ℕ → (server_id : ℕ) → Bool
  is_emergency_call number server_id = elim (find (λ (s : Server). s.id) server_id l.server) [
    | none ↦ false
    | some s ↦
        not (s.emergency_prefixlist_id == 0)
        && elim (find (λ (p : Prefixlist). p.id) s.emergency_prefixlist_id l.prefixlist) [
          | none ↦ false
          | some p ↦ elim (prefix_of p.id number l.prefixlist_prefix) [
            | none ↦ false
            | some r ↦ true
          ]
        ]
  ]

-- `find` of CurrencyRateList.h: the newest rate of the currency that is not of a day to come, in
-- the order from the newest. `moscow_day` is today in Moscow.
unfoldable pub rate_of : {D : Type 0} → (moscow_day : ℤ) → List ℕ → List (CurrencyRate D) → Option D
rate_of day [] rates = none
rate_of day (c ∷ currency) [] = none
rate_of day (c ∷ currency) (r ∷ rates) =
    let rest = rate_of day (c ∷ currency) rates in
    if str_eqb r.currency (c ∷ currency) && leb_ℤ r.date day then some r.rate else rest
