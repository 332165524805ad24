-- ===== src/Orchestrator/Diff.antt =====
-- dms/orchestrator/manifest_diff.go: the nodes that leave a deployment, and their allocations.
use mathlib.Core.List.Memᴰ
use device_management_servic.Common.{
  String, Bool-cases, if◌then◌else◌, str_eq, str_eq_iff, List, [], ◌∷◌, Memᴰ, Option, Option-cases,
  none, some, Result-cases, ok, ◌≡◌, ◌≢◌, ◌↔◌, ◌⊎◌, refl, sym, ◌∙◌, inl, inr,
}
use device_management_servic.Common.Map.{Map, lookup, insert, lookup-insert}
use device_management_servic.Ensemble.{
  NodeIdGenerator, EnsembleConfig, NodeConfig, all_nodes, node, copy_into,
}
use device_management_servic.Ensemble.Nodes.{
  Distinct, chosen, lookup-select, select-Distinct, all_nodes-Distinct,
}
use device_management_servic.Orchestrator.{
  is_removed, is_relocated, identify_removed_nodes, identify_relocated_nodes, allocation_names,
  collect, config_for_nodes, new_config_for_removed_nodes,
}

-- Each entry of the first map is one of the second.
abbrev pub PartOf : {A : Type 0} → Map A → Map A → Type 0
PartOf {A} m known = (k : String) (a : A) → lookup k m ≡ some a → lookup k known ≡ some a

module _ {A : Type 0} (known : Map A) where
  insert-PartOf :
      (k : String) (a : A) (m : Map A)
      → lookup k known ≡ some a
      → PartOf m known
      → PartOf (insert k a m) known
  insert-PartOf k a m here w j b h = elim (Bool-cases (str_eq k j)) [
    | inl same ↦
        let e : some a ≡ some b = rw (lookup-insert k j a m, same) at h in
        let at_j : lookup j known ≡ some a = rw ((str_eq_iff k j).0 same) at here in at_j ∙ e
    | inr other ↦ w j b (rw (lookup-insert k j a m, other) at h)
  ]

  collect-PartOf :
      (names : List String) (acc found : Map A)
      → collect known names acc ≡ ok found
      → PartOf acc known
      → PartOf found known
  unfolding collect
  collect-PartOf [] acc found h w = let e : acc ≡ found = cc in rw e at w
  collect-PartOf (name ∷ names) acc found h w = elim (Option-cases (lookup name known)) [
    | inl p ↦ cc (rw (p, collect) at h)
    | inr (a, p) ↦
        collect-PartOf names (insert name a acc) found (rw (p, collect) at h)
          (insert-PartOf name a acc p w)
  ]

  insert-present :
      (k j : String) (a b : A) (m : Map A)
      → lookup j m ≡ some b
      → (c : A) × (lookup j (insert k a m) ≡ some c)
  insert-present k j a b m h = elim (Bool-cases (str_eq k j)) [
    | inl same ↦ (a, rw (lookup-insert k j a m, same) refl)
    | inr other ↦ (b, rw (lookup-insert k j a m, other) h)
  ]

  collect-keeps :
      (names : List String) (acc found : Map A) (j : String) (b : A)
      → collect known names acc ≡ ok found
      → lookup j acc ≡ some b
      → (c : A) × (lookup j found ≡ some c)
  unfolding collect
  collect-keeps [] acc found j b h k = let e : acc ≡ found = cc in (b, rw e at k)
  collect-keeps (name ∷ names) acc found j b h k = elim (Option-cases (lookup name known)) [
    | inl p ↦ cc (rw (p, collect) at h)
    | inr (a, p) ↦
        let (c, q) = insert-present name j a b acc k in
        collect-keeps names (insert name a acc) found j c (rw (p, collect) at h) q
  ]

  collect-finds :
      (names : List String) (acc found : Map A) (j : String)
      → collect known names acc ≡ ok found
      → Memᴰ j names
      → (c : A) × (lookup j found ≡ some c)
  unfolding collect
  collect-finds [] acc found j h m = absurd (Memᴰ.not-nil m)
  collect-finds (name ∷ names) acc found j h (Memᴰ.head e) =
      elim (Option-cases (lookup name known)) [
        | inl p ↦ cc (rw (p, collect) at h)
        | inr (a, p) ↦
            collect-keeps names (insert name a acc) found j a (rw (p, collect) at h)
              (rw (lookup-insert name j a acc, (str_eq_iff name j).1 (sym e)) refl)
      ]
  collect-finds (name ∷ names) acc found j h (Memᴰ.tail m) =
      elim (Option-cases (lookup name known)) [
        | inl p ↦ cc (rw (p, collect) at h)
        | inr (a, p) ↦ collect-finds names (insert name a acc) found j (rw (p, collect) at h) m
      ]

lookup-names :
    (id name : String) (c : NodeConfig) (m : Map NodeConfig)
    → lookup id m ≡ some c
    → Memᴰ name c.allocations
    → Memᴰ name (allocation_names m)
unfolding lookup allocation_names
lookup-names id name c [] h k = cc
lookup-names id name c ((j, n) ∷ m) h k = elim (Bool-cases (str_eq j id)) [
  | inl same ↦
      let e : some n ≡ some c = rw (same, if◌then◌else◌) at h in
      let f : n.allocations ≡ c.allocations = cc in
      Memᴰ.append_left (allocation_names m) (rw (sym f) at k)
  | inr other ↦
      Memᴰ.append_right n.allocations (lookup-names id name c m (rw (other, if◌then◌else◌) at h) k)
]

module _ {A K : Type 0} (gen : NodeIdGenerator) (old modified : EnsembleConfig A K) where
  -- What the two loops keep of an identifier. `Nodes` lists a standby without a peer, and `Node`
  -- finds it with its primary node's.
  unfoldable pub leaving : String → Option NodeConfig
  unfolding all_nodes node
  leaving id = elim (lookup id (all_nodes gen old)) [
    | none ↦ none
    | some c ↦ elim (node gen modified id) [
      | none ↦ some c
      | some n ↦ if str_eq c.peer n.peer then none else some c
    ]
  ]

  lookup-removed :
      (id : String)
      → lookup id (identify_removed_nodes gen old modified)
        ≡ chosen (is_removed gen modified) id (lookup id (all_nodes gen old)) none
  unfolding identify_removed_nodes lookup
  lookup-removed id =
      lookup-select (is_removed gen modified) (all_nodes gen old) [] id (all_nodes-Distinct gen old)

  pub lookup-relocated :
      (id : String)
      → lookup id (identify_relocated_nodes gen old modified)
        ≡ chosen (is_relocated gen modified) id (lookup id (all_nodes gen old)) none
  unfolding identify_relocated_nodes lookup
  lookup-relocated id =
      lookup-select (is_relocated gen modified) (all_nodes gen old) [] id
        (all_nodes-Distinct gen old)

  relocated-Distinct : Distinct (identify_relocated_nodes gen old modified)
  unfolding identify_relocated_nodes
  relocated-Distinct = select-Distinct (is_relocated gen modified) (all_nodes gen old) [] tt

  -- The nodes of the configuration of what leaves
  abbrev gone : Map NodeConfig
  gone =
      copy_into (identify_removed_nodes gen old modified)
        (identify_relocated_nodes gen old modified)

  -- A node is removed, or relocated, or stays.
  merged :
      (id : String)
      → chosen
          (λ k v. some v)
          id
          (chosen (is_relocated gen modified) id (lookup id (all_nodes gen old)) none)
          (chosen (is_removed gen modified) id (lookup id (all_nodes gen old)) none)
        ≡ leaving id
  unfolding leaving chosen
  merged id = elim (Option-cases (lookup id (all_nodes gen old))) [
    | inl p ↦ rw (p, chosen, leaving) refl
    | inr (c, p) ↦ elim (Option-cases (node gen modified id)) [
      | inl q ↦ rw (p, q, chosen, leaving) refl
      | inr (n, q) ↦ elim (Bool-cases (str_eq c.peer n.peer)) [
        | inl same ↦ rw (p, q, same, chosen, leaving) refl
        | inr other ↦ rw (p, q, other, chosen, leaving) refl
      ]
    ]
  ]

  lookup-leaving : (id : String) → lookup id gone ≡ leaving id
  lookup-leaving id =
      let both =
        lookup-select (λ k v. some v) (identify_relocated_nodes gen old modified)
          (identify_removed_nodes gen old modified) id relocated-Distinct in
      both ∙ rw (lookup-relocated id, lookup-removed id) (merged id)

  leaving-eq-ok :
      (config : EnsembleConfig A K)
      → new_config_for_removed_nodes gen old modified ≡ ok config
      → (found : Map A) × (collect old.allocations
            (allocation_names (all_nodes gen (config_for_nodes gen gone modified)))
            []
          ≡ ok found)
        × (config ≡ record (config_for_nodes gen gone modified) { allocations = found })
  unfolding new_config_for_removed_nodes
  leaving-eq-ok config h =
      elim (Result-cases (
        collect old.allocations
          (allocation_names (all_nodes gen (config_for_nodes gen gone modified))) [])) [
            | inr (e, p) ↦ cc (rw p at h)
            | inl (found, p) ↦ (found, p, cc (rw p at h))
          ]

  pub lookup-removed_nodes :
      (config : EnsembleConfig A K) (id : String)
      → new_config_for_removed_nodes gen old modified ≡ ok config
      → lookup id config.nodes ≡ leaving id
  lookup-removed_nodes config id h =
      let (found, p, e) = leaving-eq-ok config h in rw e (lookup-leaving id)

  -- The old deployment lists a node, and the update has none of its name or one with another peer
  -- than listed.
  pub record Leaves (id : String) (c : NodeConfig) : Type 0 where
    pub was : lookup id (all_nodes gen old) ≡ some c
    pub goes :
        (node gen modified id ≡ none)
        ⊎ ((n : NodeConfig) × (node gen modified id ≡ some n) × (c.peer ≢ n.peer))

  leaving-Leaves : (id : String) (c : NodeConfig) → leaving id ≡ some c → Leaves id c
  unfolding leaving
  leaving-Leaves id c h = elim (Option-cases (lookup id (all_nodes gen old))) [
    | inl p ↦ cc (rw (p, leaving) at h)
    | inr (b, p) ↦ elim (Option-cases (node gen modified id)) [
      | inl q ↦ record { was = p ∙ rw (p, q, leaving) at h; goes = inl q }
      | inr (n, q) ↦ elim (Bool-cases (str_eq b.peer n.peer)) [
        | inl same ↦ cc (rw (p, q, same, leaving) at h)
        | inr other ↦
            let e : some b ≡ some c = rw (p, q, other, leaving) at h in
            let same_peer : b.peer ≡ c.peer = cc in
            record {
              was = p ∙ e;
              goes = inr (n, q, λ r. cc ((str_eq_iff b.peer n.peer).1 (same_peer ∙ r), other));
            }
      ]
    ]
  ]

  Leaves-leaving : (id : String) (c : NodeConfig) → Leaves id c → leaving id ≡ some c
  unfolding leaving
  Leaves-leaving id c l = elim l.goes [
    | inl q ↦ rw (l.was, q, leaving) refl
    | inr (n, q, other) ↦ elim (Bool-cases (str_eq c.peer n.peer)) [
      | inl same ↦ absurd (other ((str_eq_iff c.peer n.peer).0 same))
      | inr differs ↦ rw (l.was, q, differs, leaving) refl
    ]
  ]

  -- The configuration of what leaves has a node, configured so, exactly when `Nodes` of the old
  -- deployment lists it so, and `Node` of the update finds none of its name, or one with another
  -- peer than listed.
  pub new_config_for_removed_nodes-Leaves_iff :
      (config : EnsembleConfig A K) (id : String) (c : NodeConfig)
      → new_config_for_removed_nodes gen old modified ≡ ok config
      → (lookup id config.nodes ≡ some c) ↔ Leaves id c
  new_config_for_removed_nodes-Leaves_iff config id c h = (
    λ found. leaving-Leaves id c (sym (lookup-removed_nodes config id h) ∙ found),
    λ l. lookup-removed_nodes config id h ∙ Leaves-leaving id c l,
  )

  -- In the configuration of what leaves, every allocation of every node is there, with its old
  -- configuration.
  pub new_config_for_removed_nodes-closed :
      (config : EnsembleConfig A K) (id name : String) (c : NodeConfig)
      → new_config_for_removed_nodes gen old modified ≡ ok config
      → lookup id (all_nodes gen config) ≡ some c
      → Memᴰ name c.allocations
      → (a : A) × (lookup name config.allocations ≡ some a) × (lookup name old.allocations ≡ some a)
  unfolding all_nodes lookup
  new_config_for_removed_nodes-closed config id name c h found_at m =
      let (found, p, e) = leaving-eq-ok config h in
      let here : lookup id (all_nodes gen (config_for_nodes gen gone modified)) ≡ some c =
        rw e at found_at in
      let named =
        lookup-names id name c (all_nodes gen (config_for_nodes gen gone modified)) here m in
      let (a, q) =
        collect-finds old.allocations
          (allocation_names (all_nodes gen (config_for_nodes gen gone modified))) [] found name p
          named in
      let w = collect-PartOf old.allocations _ [] found p (λ k b n. cc) in (a, rw e q, w name a q)
