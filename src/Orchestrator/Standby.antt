-- ===== src/Orchestrator/Standby.antt =====
-- dms/orchestrator/manifest_diff.go: standbys, which `Nodes` lists without a peer and `Node` finds
-- with the peer of their primary node.
use device_management_servic.Common.{
  String, Bool-cases, true, false, str_eq, str_eq_iff, ℤ, pos, lt_int, none, some, ok, ◌≡◌, ◌≢◌,
  refl, sym, inl, inr,
}
use device_management_servic.Common.Map.{lookup}
use device_management_servic.Ensemble.{
  NodeIdGenerator, EnsembleConfig, NodeConfig, standby_of, all_nodes, node,
}
use device_management_servic.Orchestrator.{new_config_for_removed_nodes}
use device_management_servic.Orchestrator.Diff.{leaving, lookup-removed_nodes}

module _ {A K : Type 0} (gen : NodeIdGenerator) (e : EnsembleConfig A K) where
  -- A standby of a node that has a peer
  pub record StandbyOf (id primary : String) (index : ℤ) (n : NodeConfig) : Type 0 where
    pub not_primary : lookup id e.nodes ≡ none
    pub parsed : gen.parse_node_id id ≡ ok (true, primary, index)
    pub of_primary : lookup primary e.nodes ≡ some n
    pub not_below : lt_int index (pos 1) ≡ false
    pub not_above : lt_int n.redundancy index ≡ false
    pub listed : lookup id (all_nodes gen e) ≡ some (standby_of n)
    pub placed : n.peer ≢ ""

  found_as_primary :
      (id primary : String) (index : ℤ) (n : NodeConfig)
      → StandbyOf id primary index n
      → node gen e id ≡ some n
  unfolding node
  found_as_primary id primary index n s =
      rw (s.not_primary, s.parsed, s.of_primary, s.not_below, s.not_above, node) refl

  -- Where nothing changes, the configuration of what leaves a deployment has every standby of a
  -- node that has a peer.
  pub new_config_for_removed_nodes-standby :
      (config : EnsembleConfig A K) (id primary : String) (index : ℤ) (n : NodeConfig)
      → StandbyOf id primary index n
      → new_config_for_removed_nodes gen e e ≡ ok config
      → lookup id config.nodes ≡ some (standby_of n)
  unfolding leaving
  new_config_for_removed_nodes-standby config id primary index n s h =
      elim (Bool-cases (str_eq "" n.peer)) [
        | inl same ↦ absurd (s.placed (sym ((str_eq_iff "" n.peer).0 same)))
        | inr other ↦
            let gone : leaving gen e e id ≡ some (standby_of n) =
              rw (s.listed, found_as_primary id primary index n s, other, leaving) refl in
            rw (lookup-removed_nodes gen e e config id h) gone
      ]
