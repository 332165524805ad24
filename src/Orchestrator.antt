-- ===== src/Orchestrator.antt =====
-- dms/orchestrator/manifest_diff.go: what an update of a deployment changes, and whether it may.
-- Go maps are visited in the order of the lists.
pub mod Diff
pub mod Validate
pub mod Update
pub mod Fresh
pub mod Standby
mod Tests
use device_management_servic.Common.{
  ℕ, String, Bool, true, false, if◌then◌else◌, str_eq, eq_int, List, [], ◌∷◌, ◌++◌, Option, none,
  some, Result, ok, err, other_error, ◌>>=◌, ◌>>◌, guard, is_nil, any, all, delete_func, ◌&&◌, ◌||◌,
  not,
}
use device_management_servic.Common.Map.{Map, lookup, insert, keys}
use device_management_servic.Ensemble.{
  NodeIdGenerator, EnsembleConfig, NodeConfig, PortConfig, EdgeConstraint, SupervisorConfig,
  strategy, supervised, select, copy_into, all_nodes, node,
}
use device_management_servic.Ensemble.Location.{validate_location_constraints_update}

-- `slices.Contains`, on texts
abbrev pub contains : List String → String → Bool
contains xs x = any xs (λ y. str_eq y x)

-- The second result of a map's look-up
abbrev pub exists_in {ℓ} : {V : Type ℓ} → String → Map V → Bool
exists_in k m = elim (lookup k m) [ none ↦ false | some v ↦ true ]

-- `for … { if err := step(x); err != nil { return err } }`
abbrev pub each_ok {ℓ} : {X : Type ℓ} → List X → (X → Result (Unit {0})) → Result (Unit {0})
each_ok [] step = ok tt
each_ok (x ∷ xs) step = step x >> each_ok xs step

-- What the loop of `newConfigForDeploymentUpdate` builds
pub record UpdateParts (A : Type 0) : Type 0 where
  pub nodes : Map NodeConfig
  pub allocations : Map A
  pub exclude_peers : List String

-- `allocationsNames`, over the nodes
unfoldable pub allocation_names : Map NodeConfig → List String
allocation_names [] = []
allocation_names ((id, n) ∷ m) = n.allocations ++ allocation_names m

-- The last loop of `newConfigForRemovedNodes`
unfoldable pub collect : {A : Type 0} → Map A → List String → Map A → Result (Map A)
collect known [] acc = ok acc
collect known (name ∷ names) acc = elim (lookup name known) [
  | none ↦ err (other_error "new config for nodes: allocation not found")
  | some a ↦ collect known names (insert name a acc)
]

-- The configuration of a node in `newConfigForDeploymentUpdate`, given its new allocations
unfoldable pub updated_node : Map String → String → NodeConfig → List String → NodeConfig
updated_node existing id n names = record n {
  peer = elim (lookup id existing) [ none ↦ n.peer | some peer ↦ peer ];
  allocations = names;
  ports = delete_func n.ports (λ p. not (contains names p.allocation));
}

module _ {A K : Type 0} (gen : NodeIdGenerator) where
  -- The loop of `identifyNewAllocations`
  unfoldable pub new_allocations :
      EnsembleConfig A K → List String → List String → Map A → Result (Map A)
  new_allocations modified present [] acc = ok acc
  new_allocations modified present (name ∷ names) acc =
      if contains present name
      then new_allocations modified present names acc
      else elim (lookup name modified.allocations) [
        | none ↦ err (other_error "allocation not found")
        | some a ↦ new_allocations modified present names (insert name a acc)
      ]

  -- `identifyNewAllocations`
  unfoldable pub identify_new_allocations :
      EnsembleConfig A K → EnsembleConfig A K → String → Result (Map A)
  unfolding new_allocations
  identify_new_allocations current modified id = elim (node gen modified id) [
    | none ↦ ok []
    | some n ↦
        new_allocations modified (elim (node gen current id) [ none ↦ [] | some c ↦ c.allocations ])
          n.allocations []
  ]

  -- The loop of `identifyRemovedAllocations`
  unfoldable pub removed_allocations :
      EnsembleConfig A K → List String → List String → Map A → Map A
  removed_allocations current kept [] acc = acc
  removed_allocations current kept (name ∷ names) acc = removed_allocations current kept names (
      if contains kept name
      then acc
      else elim (lookup name current.allocations) [ none ↦ acc | some a ↦ insert name a acc ])

  -- `identifyRemovedAllocations`
  unfoldable pub identify_removed_allocations :
      EnsembleConfig A K → EnsembleConfig A K → String → Map A
  unfolding removed_allocations
  identify_removed_allocations current modified id = elim (node gen modified id) [
    | none ↦ []
    | some n ↦ elim (node gen current id) [
      | none ↦ []
      | some c ↦ removed_allocations current n.allocations c.allocations []
    ]
  ]

  abbrev pub is_removed : EnsembleConfig A K → String → NodeConfig → Option NodeConfig
  is_removed modified id c = elim (node gen modified id) [ none ↦ some c | some n ↦ none ]

  -- `identifyRemovedNodes`
  unfoldable pub identify_removed_nodes : EnsembleConfig A K → EnsembleConfig A K → Map NodeConfig
  unfolding select all_nodes
  identify_removed_nodes current modified = select (is_removed modified) (all_nodes gen current) []

  abbrev pub is_relocated : EnsembleConfig A K → String → NodeConfig → Option NodeConfig
  is_relocated modified id c = elim (node gen modified id) [
    | none ↦ none
    | some n ↦ if str_eq c.peer n.peer then none else some c
  ]

  -- `identifyRelocatedNodes`
  unfoldable pub identify_relocated_nodes : EnsembleConfig A K → EnsembleConfig A K → Map NodeConfig
  unfolding select all_nodes
  identify_relocated_nodes current modified =
      select (is_relocated modified) (all_nodes gen current) []

  -- `newConfigForRemovedNodes`, up to the allocations
  abbrev pub config_for_nodes : Map NodeConfig → EnsembleConfig A K → EnsembleConfig A K
  config_for_nodes nodes modified = record {
    escalation_strategy = "";
    allocations = [];
    nodes = nodes;
    edges = modified.edges;
    supervisor = modified.supervisor;
    keys = modified.keys;
    scripts = modified.scripts;
    join_subnet = false;
    exclude_peers = [];
    metadata = [];
    contracts = [];
  }

  -- `newConfigForRemovedNodes`
  unfoldable pub new_config_for_removed_nodes :
      EnsembleConfig A K → EnsembleConfig A K → Result (EnsembleConfig A K)
  unfolding identify_removed_nodes identify_relocated_nodes select allocation_names collect
  new_config_for_removed_nodes old modified =
      let nodes =
        copy_into (identify_removed_nodes old modified) (identify_relocated_nodes old modified) in
      let config = config_for_nodes nodes modified in
      collect old.allocations (allocation_names (all_nodes gen config)) [] >>= λ found.
      ok (record config { allocations = found })

  -- One round of `newConfigForDeploymentUpdate`
  unfoldable pub update_node :
      EnsembleConfig A K
      → EnsembleConfig A K
      → Map String
      → String
      → NodeConfig
      → UpdateParts A
      → Result (UpdateParts A)
  unfolding identify_new_allocations select updated_node
  update_node old modified existing id n u = identify_new_allocations old modified id >>= λ fresh.
      let names = keys fresh in
      ok (record {
        nodes = insert id (updated_node existing id n names) u.nodes;
        allocations = copy_into u.allocations fresh;
        exclude_peers = elim (lookup id existing) [
          | none ↦ u.exclude_peers
          | some peer ↦ if is_nil names then u.exclude_peers ++ (peer ∷ []) else u.exclude_peers
        ];
      })

  -- The loop of `newConfigForDeploymentUpdate`
  unfoldable pub update_nodes :
      EnsembleConfig A K
      → EnsembleConfig A K
      → Map String
      → Map NodeConfig
      → UpdateParts A
      → Result (UpdateParts A)
  unfolding update_node
  update_nodes old modified existing [] u = ok u
  update_nodes old modified existing ((id, n) ∷ m) u =
      update_node old modified existing id n u >>= λ next. update_nodes old modified existing m next

  -- `newConfigForDeploymentUpdate`
  unfoldable pub new_config_for_deployment_update :
      EnsembleConfig A K → EnsembleConfig A K → Map String → Result (EnsembleConfig A K)
  unfolding update_nodes all_nodes
  new_config_for_deployment_update old modified existing =
      update_nodes old modified existing (all_nodes gen modified)
        (record { nodes = []; allocations = []; exclude_peers = modified.exclude_peers })
      >>= λ u. ok (record modified {
        allocations = u.allocations;
        nodes = u.nodes;
        exclude_peers = u.exclude_peers;
        contracts = [];
      })
