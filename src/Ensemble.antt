-- ===== src/Ensemble.antt =====
-- dms/jobs/types/ensemble.go: the configuration of an ensemble, with its nodes and their standbys.
-- The configurations of an allocation and of a contract are carried along only: they are types
-- `A` and `K`. The generator of node identifiers is the interface that the code takes.
pub mod Location
pub mod Nodes
use device_management_servic.Common.{
  ℕ, zero, suc, String, Bool, true, false, if◌then◌else◌, ℤ, pos, negsuc, lt_int, List, [], ◌∷◌,
  Option, none, some, Result, ok, err, ◌||◌, not,
}
use device_management_servic.Common.Map.{Map, lookup, insert, erase}
use device_management_servic.Ensemble.Location.{LocationConstraints}

pub record PortConfig : Type 0 where
  pub public : ℤ
  pub private : ℤ
  pub allocation : String

pub record EdgeConstraint : Type 0 where
  pub s : String
  pub t : String
  pub rtt : ℕ
  pub bw : ℕ

mutual
  pub data SupervisorConfig : Type 0 where
    supervisor :
        (strategy : String) (allocations : List String) (children : SupervisorConfigs)
        → SupervisorConfig

  pub data SupervisorConfigs : Type 0 where
    no_children : SupervisorConfigs
    child : SupervisorConfig → SupervisorConfigs → SupervisorConfigs

abbrev pub strategy : SupervisorConfig → String
strategy (supervisor name members below) = name

abbrev pub supervised : SupervisorConfig → List String
supervised (supervisor name members below) = members

pub record NodeConfig : Type 0 where
  pub allocations : List String
  pub ports : List PortConfig
  pub location : LocationConstraints
  pub peer : String
  pub redundancy : ℤ
  pub failure_recovery : String

-- `EnsembleConfigV1`
pub record EnsembleConfig (A K : Type 0) : Type 0 where
  pub escalation_strategy : String
  pub allocations : Map A
  pub nodes : Map NodeConfig
  pub edges : List EdgeConstraint
  pub supervisor : SupervisorConfig
  pub keys : Map String
  pub scripts : Map String
  pub join_subnet : Bool
  pub exclude_peers : List String
  pub metadata : Map String
  pub contracts : Map K

-- `NodeIDGenerator`, as far as the code calls it: the second one tells whether the identifier is a
-- standby's, of which node, and which one.
pub record NodeIdGenerator : Type 0 where
  pub generate_standby_node_id : String → ℕ → Result String
  pub parse_node_id : String → Result (Bool × String × ℤ)

-- `for k, v := range m { if w := f(k, v) … { acc[k] = w } }`
unfoldable pub select {ℓ κ} :
    {V : Type ℓ} {W : Type κ} → (String → V → Option W) → Map V → Map W → Map W
select f [] acc = acc
select f ((k, v) ∷ m) acc = select f m (elim (f k v) [ none ↦ acc | some w ↦ insert k w acc ])

-- `maps.Copy(dst, src)`
abbrev pub copy_into {ℓ} : {V : Type ℓ} → Map V → Map V → Map V
copy_into dst src = select (λ k v. some v) src dst

unfoldable pub erase_all {ℓ} : {V : Type ℓ} → List String → Map V → Map V
erase_all [] m = m
erase_all (k ∷ ks) m = erase_all ks (erase k m)

-- A standby of a node
abbrev pub standby_of : NodeConfig → NodeConfig
standby_of n = record n { peer = ""; redundancy = pos 0 }

module _ (gen : NodeIdGenerator) where
  -- The inner loop of `buildStandbyNodes`, from index `i`
  unfoldable pub build_standbys : String → NodeConfig → ℕ → ℕ → Map NodeConfig → Map NodeConfig
  build_standbys id n i zero acc = acc
  build_standbys id n i (suc left) acc =
      build_standbys id n (suc i) left (elim (gen.generate_standby_node_id id i) [
        | err e ↦ acc
        | ok standby ↦ insert standby (standby_of n) acc
      ])

  -- `buildStandbyNodes`; a negative redundancy gives no round.
  unfoldable pub build_standby_nodes : Map NodeConfig → Map NodeConfig → Map NodeConfig
  unfolding build_standbys
  build_standby_nodes [] acc = acc
  build_standby_nodes ((id, n) ∷ m) acc =
      build_standby_nodes m
        (elim n.redundancy [ pos r ↦ build_standbys id n 1 r acc | negsuc r ↦ acc ])

module _ {A K : Type 0} (gen : NodeIdGenerator) where
  -- `NodesWithGenerator`
  unfoldable pub all_nodes : EnsembleConfig A K → Map NodeConfig
  unfolding build_standby_nodes select
  all_nodes e = copy_into (copy_into [] e.nodes) (build_standby_nodes gen e.nodes [])

  -- `NodeWithGenerator`
  unfoldable pub node : EnsembleConfig A K → String → Option NodeConfig
  node e id = elim (lookup id e.nodes) [
    | some n ↦ some n
    | none ↦ elim (gen.parse_node_id id) [
      | err reason ↦ none
      | ok (is_standby, primary, index) ↦ elim (lookup primary e.nodes) [
        | none ↦ none
        | some n ↦
            if not is_standby || lt_int index (pos 1) || lt_int n.redundancy index
            then none
            else some n
      ]
    ]
  ]

  -- The loop of `AllocationsForNode`
  unfoldable pub allocations_named : EnsembleConfig A K → List String → Map A → Map A
  allocations_named e [] acc = acc
  allocations_named e (name ∷ names) acc =
      allocations_named e names
        (elim (lookup name e.allocations) [ none ↦ acc | some a ↦ insert name a acc ])

  -- `AllocationsForNode`
  unfoldable pub allocations_for_node : EnsembleConfig A K → String → Map A
  unfolding node allocations_named
  allocations_for_node e id = elim (node e id) [
    | none ↦ []
    | some n ↦ allocations_named e n.allocations []
  ]

  -- `RemoveNodeAndAllocations`
  unfoldable pub remove_node_and_allocations : String → EnsembleConfig A K → EnsembleConfig A K
  unfolding node erase_all
  remove_node_and_allocations id e = elim (node e id) [
    | none ↦ e
    | some n ↦ record e {
      nodes = erase id e.nodes;
      allocations = erase_all n.allocations e.allocations;
    }
  ]
