-- ===== src/Mesh/Candidates.antt =====
-- Nodes that may become the parent (src/mesh/topology.rs, `ParentCandidate` and `TopologyConfig`; the
-- candidates of src/mesh/manager.rs). An `i8` or `i32` is an integer; no score leaves the range of `i32`.
use peat_btle.Prelude.{
  ℕ, ◌-◌, ◌*◌, Bool, ◌&&◌, Option, none, some, List, [], ◌∷◌, ltb, leb, ◌==◌, if◌then◌else◌,
}
use peat_btle.Prelude.Bytes.{u64_mod, sat_add}
use peat_btle.Prelude.Int.{ℤ, pos, negsuc, ◌+ℤ◌, ◌-ℤ◌, ◌*ℤ◌, leb_ℤ}
use peat_btle.Mesh.Topology.{HierarchyLevel, platform, squad, platoon, company}

-- The discriminants, by which levels are compared.
unfoldable pub rank : HierarchyLevel → ℕ
rank platform = 0
rank squad = 1
rank platoon = 2
rank company = 3

pub record ParentCandidate : Type 0 where
  pub node_id : ℕ
  pub level : HierarchyLevel
  pub rssi : ℤ
  pub age_ms : ℕ
  pub failure_count : ℕ

pub record TopologyConfig : Type 0 where
  pub max_children : ℕ
  pub max_connections : ℕ
  pub min_parent_rssi : ℤ
  pub max_beacon_age_ms : ℕ
  pub parent_timeout_ms : ℕ
  pub connect_timeout_ms : ℕ
  pub max_failures : ℕ
  pub failover_delay_ms : ℕ
  pub rssi_hysteresis : ℕ

-- -85 is the least signal strength.
unfoldable pub default_topology : TopologyConfig
default_topology = record {
  max_children = 3;
  max_connections = 7;
  min_parent_rssi = negsuc 84;
  max_beacon_age_ms = 10000;
  parent_timeout_ms = 5000;
  connect_timeout_ms = 10000;
  max_failures = 3;
  failover_delay_ms = 1000;
  rssi_hysteresis = 6;
}

unfoldable pub ideal_level : HierarchyLevel → HierarchyLevel
ideal_level platform = squad
ideal_level squad = platoon
ideal_level platoon = company
ideal_level company = company

unfoldable pub freshness : ℕ → ℤ
freshness age_ms =
    if ltb age_ms 1000
    then pos 20
    else if ltb age_ms 3000
    then pos 10
    else if ltb age_ms 5000
    then pos 5
    else pos 0

unfoldable pub level_bonus : HierarchyLevel → HierarchyLevel → ℤ
level_bonus level my_level =
    if rank level == rank (ideal_level my_level)
    then pos 30
    else if ltb (rank my_level) (rank level)
    then pos 15
    else pos 0

unfoldable pub score : ParentCandidate → HierarchyLevel → ℤ
score c my_level =
    (c.rssi +ℤ pos 100) *ℤ pos 2
    +ℤ freshness c.age_ms
    -ℤ pos (c.failure_count * 15)
    +ℤ level_bonus c.level my_level

-- The filter of `select_best_parent`.
unfoldable pub is_eligible : TopologyConfig → ParentCandidate → Bool
is_eligible config c =
    leb_ℤ config.min_parent_rssi c.rssi
    && (leb c.age_ms config.max_beacon_age_ms && ltb c.failure_count config.max_failures)

-- `max_by_key`: the last of the candidates with the greatest score.
unfoldable pub better : HierarchyLevel → ParentCandidate → Option ParentCandidate → ParentCandidate
better my_level c none = c
better my_level c (some later) =
    if leb_ℤ (score c my_level) (score later my_level) then later else c

unfoldable pub best_of :
    TopologyConfig → HierarchyLevel → List ParentCandidate → Option ParentCandidate
best_of config my_level [] = none
best_of config my_level (c ∷ cs) =
    let rest = best_of config my_level cs in
    if is_eligible config c then some (better my_level c rest) else rest

-- `find` of the candidate and the change of it; `none` if there is no such candidate.
unfoldable pub update_first :
    ℕ → (ParentCandidate → ParentCandidate) → List ParentCandidate → Option (List ParentCandidate)
update_first node_id f [] = none
update_first node_id f (c ∷ cs) =
    let rest = update_first node_id f cs in
    if c.node_id == node_id
    then some (f c ∷ cs)
    else elim rest [ none ↦ none | some changed ↦ some (c ∷ changed) ]

-- A candidate whose beacon is heard again.
unfoldable pub heard : HierarchyLevel → ℤ → ParentCandidate → ParentCandidate
heard level rssi c = record c { rssi = rssi; age_ms = 0; level = level }

unfoldable pub add_failure : ParentCandidate → ParentCandidate
add_failure c = record c { failure_count = sat_add 255 c.failure_count 1 }

-- `age_candidates`: the loop, then `retain`. The product wraps, as it does in a release build.
unfoldable pub age_all : ℕ → ℕ → List ParentCandidate → List ParentCandidate
age_all elapsed_ms limit [] = []
age_all elapsed_ms limit (c ∷ cs) =
    let rest = age_all elapsed_ms limit cs in
    let age : ℕ = sat_add (u64_mod - 1) c.age_ms elapsed_ms in
    if leb age limit then record c { age_ms = age } ∷ rest else rest
