-- ===== src/Orchestrator/Fresh.antt =====
-- dms/orchestrator/manifest_diff.go: what `newConfigForDeploymentUpdate` deploys.
use mathlib.Core.List.Memᴰ
use device_management_servic.Common.{
  String, Bool-cases, true, false, if◌then◌else◌, str_eq, str_eq_iff, not, List, [], ◌∷◌, Memᴰ,
  Option-cases, none, some, ok, >>=-eq-ok, ◌≡◌, sym, subst, Memᴰ-delete_func, arith, inl, inr, ◌⊎◌,
}
use device_management_servic.Common.Map.{Map, lookup, insert, lookup-insert, keys}
use device_management_servic.Ensemble.{
  NodeIdGenerator, EnsembleConfig, NodeConfig, PortConfig, all_nodes, node,
}
use device_management_servic.Orchestrator.{
  contains, new_allocations, identify_new_allocations, UpdateParts, updated_node, update_node,
  update_nodes, new_config_for_deployment_update,
}

keys-insert :
    {V : Type 0} {name : String} (k : String) (v : V) (m : Map V)
    → Memᴰ name (keys (insert k v m))
    → (name ≡ k) ⊎ Memᴰ name (keys m)
unfolding insert
keys-insert k v [] (Memᴰ.head e) = inl e
keys-insert k v [] (Memᴰ.tail i) = inr i
keys-insert k v ((j, w) ∷ m) i = elim (Bool-cases (str_eq j k)) [
  | inl same ↦ elim (Memᴰ.cases_cons (rw (same, if◌then◌else◌) at i)) [
    | inl e ↦ inl e
    | inr later ↦ inr (Memᴰ.tail later)
  ]
  | inr other ↦ elim (Memᴰ.cases_cons (rw (other, if◌then◌else◌) at i)) [
    | inl e ↦ inr (Memᴰ.head e)
    | inr later ↦ elim (keys-insert k v m later) [ inl e ↦ inl e | inr old ↦ inr (Memᴰ.tail old) ]
  ]
]

module _ {A K : Type 0} (modified : EnsembleConfig A K) (present : List String) where
  -- An allocation that is new on a node, and configured.
  pub record Fresh (name : String) : Type 0 where
    pub absent : contains present name ≡ false
    pub configured : (a : A) × (lookup name modified.allocations ≡ some a)

  new_allocations-Fresh :
      (gen : NodeIdGenerator) (names : List String) (acc found : Map A)
      → new_allocations gen modified present names acc ≡ ok found
      → ((name : String) → Memᴰ name (keys acc) → Fresh name)
      → (name : String) → Memᴰ name (keys found)
      → Fresh name
  unfolding new_allocations
  new_allocations-Fresh gen [] acc found h f name i = let e : acc ≡ found = cc in f name (rw e i)
  new_allocations-Fresh gen (n ∷ names) acc found h f name i =
      elim (Bool-cases (contains present n)) [
        | inl old ↦
            new_allocations-Fresh gen names acc found (rw (old, new_allocations) at h) f name i
        | inr absent ↦ elim (Option-cases (lookup n modified.allocations)) [
          | inl p ↦ cc (rw (absent, p, new_allocations) at h)
          | inr (a, p) ↦
              new_allocations-Fresh gen names (insert n a acc) found
                (rw (absent, p, new_allocations) at h)
                (λ m j. elim (keys-insert n a acc j) [
                  | inl e ↦ rw e (record { absent = absent; configured = (a, p) })
                  | inr earlier ↦ f m earlier
                ])
                name i
        ]
      ]

module _ {A K : Type 0} (gen : NodeIdGenerator) (old modified : EnsembleConfig A K)
    (existing : Map String) where
  -- The allocations that a node has in the old deployment
  abbrev pub present : String → List String
  present id = elim (node gen old id) [ none ↦ [] | some c ↦ c.allocations ]

  -- A node with new allocations only, and with the ports of those only.
  pub record FreshNode (id : String) (m : NodeConfig) : Type 0 where
    pub fresh : (name : String) → Memᴰ name m.allocations → Fresh modified (present id) name
    pub ports_fresh : (p : PortConfig) → Memᴰ p m.ports → contains m.allocations p.allocation ≡ true

  identify-Fresh :
      (id : String) (found : Map A)
      → identify_new_allocations gen old modified id ≡ ok found
      → (name : String) → Memᴰ name (keys found)
      → Fresh modified (present id) name
  unfolding identify_new_allocations
  identify-Fresh id found h name i = elim (Option-cases (node gen modified id)) [
    | inl p ↦
        let e : [] ≡ found = cc (rw (p, identify_new_allocations) at h) in
        absurd (Memᴰ.not-nil (rw (sym e) at i))
    | inr (n, p) ↦
        new_allocations-Fresh modified (present id) gen n.allocations [] found
          (rw (p, identify_new_allocations) at h) (λ m j. absurd (Memᴰ.not-nil j)) name i
  ]

  updated-FreshNode :
      (id : String) (n : NodeConfig) (found : Map A)
      → identify_new_allocations gen old modified id ≡ ok found
      → FreshNode id (updated_node existing id n (keys found))
  unfolding updated_node
  updated-FreshNode id n found h = record {
    fresh = identify-Fresh id found h;
    ports_fresh = λ p i.
        let (kept, listed) =
          Memᴰ-delete_func n.ports (λ q. not (contains (keys found) q.allocation)) i in
        ground (arith, listed);
  }

  update_node-FreshNode :
      (id : String) (n : NodeConfig) (u next : UpdateParts A)
      → update_node gen old modified existing id n u ≡ ok next
      → ((j : String) (m : NodeConfig) → lookup j u.nodes ≡ some m → FreshNode j m)
      → (j : String) (m : NodeConfig) → lookup j next.nodes ≡ some m
      → FreshNode j m
  unfolding update_node
  update_node-FreshNode id n u next h f j m found =
      let (fresh, p, e) = >>=-eq-ok (identify_new_allocations gen old modified id) _ h in
      let placed : insert id (updated_node existing id n (keys fresh)) u.nodes ≡ next.nodes = cc in
      let here =
        rw (sym placed, lookup-insert id j (updated_node existing id n (keys fresh)) u.nodes) at
          found in
      elim (Bool-cases (str_eq id j)) [
        | inl same ↦
            let e : some (updated_node existing id n (keys fresh)) ≡ some m = rw same at here in
            let eq : updated_node existing id n (keys fresh) ≡ m = cc in
            subst (λ k. FreshNode j k) eq
              (subst (λ k. FreshNode k (updated_node existing id n (keys fresh)))
                ((str_eq_iff id j).0 same) (updated-FreshNode id n fresh p))
        | inr other ↦ f j m (rw other at here)
      ]

  update_nodes-FreshNode :
      (nodes : Map NodeConfig) (u last : UpdateParts A)
      → update_nodes gen old modified existing nodes u ≡ ok last
      → ((j : String) (m : NodeConfig) → lookup j u.nodes ≡ some m → FreshNode j m)
      → (j : String) (m : NodeConfig) → lookup j last.nodes ≡ some m
      → FreshNode j m
  unfolding update_nodes
  update_nodes-FreshNode [] u last h f j m found = let e : u ≡ last = cc in f j m (rw e found)
  update_nodes-FreshNode ((id, n) ∷ nodes) u last h f j m found =
      let (next, p, rest) = >>=-eq-ok (update_node gen old modified existing id n u) _ h in
      update_nodes-FreshNode nodes next last rest (update_node-FreshNode id n u next p f) j m found

  -- In the configuration that is deployed for an update, every allocation of every node is one
  -- that the node did not have, configured in the update, and every port is one of those
  -- allocations.
  pub new_config_for_deployment_update-fresh :
      (config : EnsembleConfig A K) (id : String) (m : NodeConfig)
      → new_config_for_deployment_update gen old modified existing ≡ ok config
      → lookup id config.nodes ≡ some m
      → FreshNode id m
  unfolding new_config_for_deployment_update lookup
  new_config_for_deployment_update-fresh config id m h found =
      let first : UpdateParts A = record {
        nodes = [];
        allocations = [];
        exclude_peers = modified.exclude_peers;
      } in
      let (u, p, e) =
        >>=-eq-ok (update_nodes gen old modified existing (all_nodes gen modified) first) _ h in
      let nodes : u.nodes ≡ config.nodes = cc in
      update_nodes-FreshNode (all_nodes gen modified) first u p (λ j k none_found. cc) id m
        (rw nodes found)
