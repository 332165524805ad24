-- ===== src/Orchestrator/Validate.antt =====
-- dms/orchestrator/manifest_diff.go: `validateEnsembleUpdate`.
use device_management_servic.Common.{
  String, Bool, if◌then◌else◌, str_eq, eq_int, none, some, Result, ok, other_error, ◌>>◌, guard,
  is_nil, any, ◌&&◌, ◌||◌, not,
}
use device_management_servic.Ensemble.{
  NodeIdGenerator, EnsembleConfig, NodeConfig, PortConfig, EdgeConstraint, strategy, supervised,
  all_nodes, node,
}
use device_management_servic.Ensemble.Location.{validate_location_constraints_update}
use device_management_servic.Orchestrator.{contains, exists_in, each_ok, identify_relocated_nodes}

-- The tests of `validateEnsembleUpdate` on the ports of a node
unfoldable pub valid_port : NodeConfig → NodeConfig → PortConfig → Bool
valid_port current modified p =
    (contains modified.allocations p.allocation && not (contains current.allocations p.allocation))
    || not (contains modified.allocations p.allocation)
    || any modified.ports (λ q.
      str_eq q.allocation p.allocation && eq_int q.public p.public && eq_int q.private p.private)

module _ {A K : Type 0} (gen : NodeIdGenerator) where
  -- The body of the loop of `validateEnsembleUpdate` over the nodes
  unfoldable pub valid_node : EnsembleConfig A K → String × NodeConfig → Result (Unit {0})
  unfolding node validate_location_constraints_update valid_port
  valid_node modified (id, c) = elim (node gen modified id) [
    | none ↦ ok tt
    | some n ↦
        if not (str_eq n.peer c.peer)
        then ok tt
        else guard (validate_location_constraints_update c.location n.location)
            (other_error "changing node location is not allowed")
          >> each_ok c.ports
              (λ p. guard (valid_port c n p) (other_error "changing node's ports is not supported"))
  ]

  -- The body of its loop over the edges
  unfoldable pub valid_edge :
      EnsembleConfig A K → EnsembleConfig A K → EdgeConstraint → Result (Unit {0})
  unfolding all_nodes identify_relocated_nodes
  valid_edge current modified e =
      let existing = all_nodes gen current in
      let relocated = identify_relocated_nodes gen current modified in
      guard
        (not (exists_in e.s existing)
          || not (exists_in e.t existing)
          || exists_in e.s relocated
          || exists_in e.t relocated
          || any current.edges
              (λ c. (str_eq c.s e.s && str_eq c.t e.t) || (str_eq c.s e.t && str_eq c.t e.s)))
        (other_error "adding edge constraints for deployed nodes is not supported")

  -- `validateEnsembleUpdate`
  unfoldable pub validate_ensemble_update :
      EnsembleConfig A K → EnsembleConfig A K → Result (Unit {0})
  unfolding all_nodes valid_node valid_edge
  validate_ensemble_update current modified =
      guard
        (is_nil (supervised current.supervisor) || not (is_nil (supervised modified.supervisor)))
        (other_error "removing supervisor is not allowed")
      >> each_ok (all_nodes gen current) (valid_node modified)
      >> each_ok modified.edges (valid_edge current modified)
      >> guard (str_eq (strategy current.supervisor) (strategy modified.supervisor))
          (other_error "changing supervisor strategy is not supported")
