-- ===== src/Orchestrator/Tests.antt =====
-- dms/orchestrator/manifest_diff.go: examples and tests.
use device_management_servic.Common.{
  delete_func, ℕ, String, true, false, if◌then◌else◌, str_eq, eq_int, pos, List, [], ◌∷◌, Memᴰ, any,
  some, ok, err, other_error, ◌⊎◌, ◌≡◌, ◌↔◌, refl,
}
use device_management_servic.Common.Map.{Map, lookup, insert}
use device_management_servic.Ensemble.{
  NodeIdGenerator, EnsembleConfig, NodeConfig, PortConfig, EdgeConstraint, supervisor, no_children,
  select, standby_of, build_standbys, build_standby_nodes, all_nodes, node,
}
use device_management_servic.Ensemble.Location.{
  Location, agrees, agrees_asn, location_equal, satisfies, covers,
  validate_location_constraints_update,
}
use device_management_servic.Orchestrator.{
  identify_removed_nodes, identify_relocated_nodes, allocation_names, collect,
  new_config_for_removed_nodes,
}
use device_management_servic.Orchestrator.Validate.{
  valid_port, valid_node, valid_edge, validate_ensemble_update,
}
use device_management_servic.Orchestrator.Diff.{
  Leaves, new_config_for_removed_nodes-Leaves_iff, new_config_for_removed_nodes-closed,
}
use device_management_servic.Orchestrator.{
  new_allocations, identify_new_allocations, updated_node, update_node, update_nodes,
  new_config_for_deployment_update,
}
use device_management_servic.Orchestrator.Fresh.{FreshNode, new_config_for_deployment_update-fresh}
use device_management_servic.Orchestrator.Standby.{StandbyOf, new_config_for_removed_nodes-standby}
use device_management_servic.Orchestrator.Update.{
  Stays, validate-satisfies, validate-ports, validate-edges,
}

abbrev gen : NodeIdGenerator
gen = record {
  generate_standby_node_id =
      λ id n. if str_eq id "a" then ok "a-standby-1" else err (other_error "no standby");
  parse_node_id =
      λ id. ok (if str_eq id "a-standby-1" then (true, "a", pos 1) else (false, id, pos 0));
}

abbrev place : String → Location
place name = record { continent = name; country = ""; city = ""; asn = 0; isp = "" }

abbrev port : PortConfig
port = record { public = pos 8080; private = pos 80; allocation = "web" }

abbrev link : EdgeConstraint
link = record { s = "a"; t = "b"; rtt = 0; bw = 0 }

abbrev node_a : List Location → NodeConfig
node_a accepted = record {
  allocations = "web" ∷ [];
  ports = port ∷ [];
  location = record { accept = accepted; reject = [] };
  peer = "P";
  redundancy = pos 1;
  failure_recovery = "";
}

abbrev node_b : String → NodeConfig
node_b peer = record {
  allocations = "db" ∷ [];
  ports = [];
  location = record { accept = []; reject = [] };
  peer = peer;
  redundancy = pos 0;
  failure_recovery = "";
}

abbrev config : Map NodeConfig → EnsembleConfig ℕ ℕ
config nodes = record {
  escalation_strategy = "";
  allocations = ("web", 1) ∷ ("db", 2) ∷ [];
  nodes = nodes;
  edges = link ∷ [];
  supervisor = supervisor "OneForOne" [] no_children;
  keys = [];
  scripts = [];
  join_subnet = false;
  exclude_peers = [];
  metadata = [];
  contracts = [];
}

abbrev europe : List Location
europe = place "Europe" ∷ []

abbrev anywhere : List Location
anywhere = place "Asia" ∷ place "Europe" ∷ []

abbrev old : EnsembleConfig ℕ ℕ
old = config (("a", node_a europe) ∷ ("b", node_b "Q") ∷ [])

-- The node `a` accepts more, `b` stays.
abbrev wider : EnsembleConfig ℕ ℕ
wider = config (("a", node_a anywhere) ∷ ("b", node_b "Q") ∷ [])

-- The node `b` leaves.
abbrev smaller : EnsembleConfig ℕ ℕ
smaller = config (("a", node_a europe) ∷ [])

-- Nothing changes, and the standby counts as relocated, since its peer is that of the primary node
-- for `Node` and empty for `Nodes`.
relocated_standby :
    identify_relocated_nodes gen old old ≡ ("a-standby-1", standby_of (node_a europe)) ∷ []
unfolding identify_removed_nodes identify_relocated_nodes allocation_names collect
    new_config_for_removed_nodes valid_port valid_node valid_edge validate_ensemble_update agrees
    agrees_asn location_equal satisfies covers validate_location_constraints_update select
    build_standbys build_standby_nodes all_nodes node lookup insert str_eq eq_int
relocated_standby = refl

accepted : validate_ensemble_update gen old wider ≡ ok tt
unfolding identify_removed_nodes identify_relocated_nodes allocation_names collect
    new_config_for_removed_nodes valid_port valid_node valid_edge validate_ensemble_update agrees
    agrees_asn location_equal satisfies covers validate_location_constraints_update select
    build_standbys build_standby_nodes all_nodes node lookup insert str_eq eq_int
accepted = refl

a-Stays : Stays gen old wider "a" (node_a europe) (node_a anywhere)
unfolding identify_removed_nodes identify_relocated_nodes allocation_names collect
    new_config_for_removed_nodes valid_port valid_node valid_edge validate_ensemble_update agrees
    agrees_asn location_equal satisfies covers validate_location_constraints_update select
    build_standbys build_standby_nodes all_nodes node lookup insert str_eq eq_int
a-Stays = record { was = refl; is = refl; same_peer = refl }

satisfied : satisfies (place "Europe") (node_a europe).location ≡ true
unfolding identify_removed_nodes identify_relocated_nodes allocation_names collect
    new_config_for_removed_nodes valid_port valid_node valid_edge validate_ensemble_update agrees
    agrees_asn location_equal satisfies covers validate_location_constraints_update select
    build_standbys build_standby_nodes all_nodes node lookup insert str_eq eq_int
satisfied = refl

validate-satisfies_example : satisfies (place "Europe") (node_a anywhere).location ≡ true
validate-satisfies_example =
    validate-satisfies gen old wider "a" (node_a europe) (node_a anywhere) (place "Europe") accepted
      a-Stays satisfied

kept_port : any ("web" ∷ []) (λ y. str_eq y "web") ≡ true
unfolding str_eq
kept_port = refl

validate-ports_example :
    (q : PortConfig) × Memᴰ q (port ∷ [])
    × (q.allocation ≡ "web")
    × (eq_int q.public (pos 8080) ≡ true)
    × (eq_int q.private (pos 80) ≡ true)
validate-ports_example =
    validate-ports gen old wider "a" (node_a europe) (node_a anywhere) port accepted a-Stays
      (Memᴰ.head refl) kept_port kept_port

b-Stays : Stays gen old wider "b" (node_b "Q") (node_b "Q")
unfolding identify_removed_nodes identify_relocated_nodes allocation_names collect
    new_config_for_removed_nodes valid_port valid_node valid_edge validate_ensemble_update agrees
    agrees_asn location_equal satisfies covers validate_location_constraints_update select
    build_standbys build_standby_nodes all_nodes node lookup insert str_eq eq_int
b-Stays = record { was = refl; is = refl; same_peer = refl }

validate-edges_example :
    (f : EdgeConstraint) × Memᴰ f (link ∷ [])
    × (((f.s ≡ "a") × (f.t ≡ "b")) ⊎ ((f.s ≡ "b") × (f.t ≡ "a")))
validate-edges_example =
    validate-edges gen old wider link (node_a europe) (node_a anywhere) (node_b "Q") (node_b "Q")
      accepted (Memᴰ.head refl) a-Stays b-Stays

abbrev departing : EnsembleConfig ℕ ℕ
departing = record (config (("b", node_b "Q") ∷ ("a-standby-1", standby_of (node_a europe)) ∷ [])) {
  allocations = ("db", 2) ∷ ("web", 1) ∷ [];
}

departs : new_config_for_removed_nodes gen old smaller ≡ ok departing
unfolding identify_removed_nodes identify_relocated_nodes allocation_names collect
    new_config_for_removed_nodes valid_port valid_node valid_edge validate_ensemble_update agrees
    agrees_asn location_equal satisfies covers validate_location_constraints_update select
    build_standbys build_standby_nodes all_nodes node lookup insert str_eq eq_int
departs = refl

new_config_for_removed_nodes-Leaves_iff_example :
    (lookup "b" departing.nodes ≡ some (node_b "Q")) ↔ Leaves gen old smaller "b" (node_b "Q")
new_config_for_removed_nodes-Leaves_iff_example =
    new_config_for_removed_nodes-Leaves_iff gen old smaller departing "b" (node_b "Q") departs

departing_b : lookup "b" (all_nodes gen departing) ≡ some (node_b "Q")
unfolding identify_removed_nodes identify_relocated_nodes allocation_names collect
    new_config_for_removed_nodes valid_port valid_node valid_edge validate_ensemble_update agrees
    agrees_asn location_equal satisfies covers validate_location_constraints_update select
    build_standbys build_standby_nodes all_nodes node lookup insert str_eq eq_int
departing_b = refl

new_config_for_removed_nodes-closed_example :
    (a : ℕ) × (lookup "db" departing.allocations ≡ some a) × (lookup "db" old.allocations ≡ some a)
new_config_for_removed_nodes-closed_example =
    new_config_for_removed_nodes-closed gen old smaller departing "b" "db" (node_b "Q") departs
      departing_b (Memᴰ.head refl)

abbrev nothing_new : NodeConfig → NodeConfig
nothing_new n = record n { allocations = []; ports = [] }

-- The node `b` comes; the peer of `a` has nothing to deploy.
abbrev arriving : EnsembleConfig ℕ ℕ
arriving = record old {
  allocations = ("db", 2) ∷ [];
  nodes =
      ("a", nothing_new (node_a europe))
      ∷ ("b", node_b "Q")
      ∷ ("a-standby-1", nothing_new (standby_of (node_a europe)))
      ∷ [];
  exclude_peers = "P" ∷ [];
}

arrives : new_config_for_deployment_update gen smaller old (("a", "P") ∷ []) ≡ ok arriving
unfolding new_config_for_deployment_update update_nodes update_node updated_node
    identify_new_allocations new_allocations delete_func select build_standbys build_standby_nodes
    all_nodes node lookup insert str_eq
arrives = refl

arriving_b : lookup "b" arriving.nodes ≡ some (node_b "Q")
unfolding lookup str_eq
arriving_b = refl

new_config_for_deployment_update-fresh_example :
    FreshNode gen smaller old (("a", "P") ∷ []) "b" (node_b "Q")
new_config_for_deployment_update-fresh_example =
    new_config_for_deployment_update-fresh gen smaller old (("a", "P") ∷ []) arriving "b"
      (node_b "Q") arrives arriving_b

abbrev unchanged : EnsembleConfig ℕ ℕ
unchanged = record departing {
  allocations = ("web", 1) ∷ [];
  nodes = ("a-standby-1", standby_of (node_a europe)) ∷ [];
}

unchanged_leaves : new_config_for_removed_nodes gen old old ≡ ok unchanged
unfolding new_config_for_removed_nodes identify_removed_nodes identify_relocated_nodes
    allocation_names collect select build_standbys build_standby_nodes all_nodes node lookup insert
    str_eq
unchanged_leaves = refl

a-StandbyOf : StandbyOf gen old "a-standby-1" "a" (pos 1) (node_a europe)
unfolding select build_standbys build_standby_nodes all_nodes lookup insert str_eq
a-StandbyOf = record {
  not_primary = refl;
  parsed = refl;
  of_primary = refl;
  not_below = refl;
  not_above = refl;
  listed = refl;
  placed = λ h. cc;
}

new_config_for_removed_nodes-standby_example :
    lookup "a-standby-1" unchanged.nodes ≡ some (standby_of (node_a europe))
new_config_for_removed_nodes-standby_example =
    new_config_for_removed_nodes-standby gen old unchanged "a-standby-1" "a" (pos 1) (node_a europe)
      a-StandbyOf unchanged_leaves
